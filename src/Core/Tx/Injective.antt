-- ===== src/Core/Tx/Injective.antt =====
-- No two transactions have one encoding, within the range of the `u32` prefixes.
use sqnr.Base.{
  ℕ, ◌<◌, ◌≡◌, refl, sym, ◌∙◌, ap, List, [], ◌∷◌, ◌++◌, length, append-nil, append_assoc, All,
  arith,
}
use sqnr.Text.Utf8.{Text, IsText, as_bytes}
use sqnr.Text.Utf8Laws.{from_utf8-as_bytes}
use sqnr.Core.Bytes.{
  IsArray, u32_mod, to_be_bytes, to_be_bytes-IsArray, from_be_bytes, from_be_bytes-to_be_bytes,
}
use sqnr.Core.Tx.{Operation, Transaction, put_bytes, encode_detail, encode_op, encode_ops, encode}

pub record FitsLine (s : Text) : Type 0 where
  pub text : IsText s
  pub prefix : length (as_bytes s) < u32_mod

-- Each length fits its prefix. The decoder's bounds are far smaller.
pub record FitsOperation (op : Operation) : Type 0 where
  pub summary : FitsLine op.summary
  pub detail : All FitsLine op.detail
  pub lines : length op.detail < u32_mod
  pub payload : length op.payload < u32_mod

pub record FitsTransaction (t : Transaction) : Type 0 where
  pub server : IsArray 32 t.server.raw
  pub nonce : IsArray 32 t.nonce
  pub ops : All FitsOperation t.ops
  pub count : length t.ops < u32_mod

-- Two lists that begin with parts of one length agree on both parts.
pub append_split : (a b x y : List ℕ) → length a ≡ length b → a ++ x ≡ b ++ y → (a ≡ b) × (x ≡ y)
append_split [] [] x y h e = (refl, e)
append_split [] (d ∷ b) x y h e = absurd (omega arith)
append_split (c ∷ a) [] x y h e = absurd (omega arith)
append_split (c ∷ a) (d ∷ b) x y h e =
    let (same, left) = append_split a b x y (omega arith) (cc) in (cc (same), left)

pub to_be_bytes_split :
    (m n : ℕ) (x y : List ℕ)
    → m < u32_mod
    → n < u32_mod
    → to_be_bytes m ++ x ≡ to_be_bytes n ++ y
    → (m ≡ n) × (x ≡ y)
to_be_bytes_split m n x y hm hn e =
    let (same, left) =
      append_split (to_be_bytes m) (to_be_bytes n) x y
        ((to_be_bytes-IsArray m).size ∙ sym (to_be_bytes-IsArray n).size) e in
    (
      omega
          (arith, from_be_bytes-to_be_bytes m, from_be_bytes-to_be_bytes n, ap from_be_bytes same),
      left,
    )

put_bytes_split :
    (a b x y : List ℕ)
    → length a < u32_mod
    → length b < u32_mod
    → put_bytes a ++ x ≡ put_bytes b ++ y
    → (a ≡ b) × (x ≡ y)
unfolding put_bytes
put_bytes_split a b x y ha hb e =
    let (size, left) = to_be_bytes_split (length a) (length b) (a ++ x) (b ++ y) ha hb (
      sym (append_assoc (to_be_bytes (length a)) a x)
      ∙ e
      ∙ append_assoc (to_be_bytes (length b)) b y) in
    append_split a b x y size left

line_split :
    (s t : Text) (x y : List ℕ)
    → FitsLine s
    → FitsLine t
    → put_bytes (as_bytes s) ++ x ≡ put_bytes (as_bytes t) ++ y
    → (s ≡ t) × (x ≡ y)
line_split s t x y hs ht e =
    let (same, left) = put_bytes_split (as_bytes s) (as_bytes t) x y hs.prefix ht.prefix e in
    (cc (same, from_utf8-as_bytes s hs.text, from_utf8-as_bytes t ht.text), left)

encode_detail_split :
    (l k : List Text) (x y : List ℕ)
    → length l ≡ length k
    → All FitsLine l
    → All FitsLine k
    → encode_detail l ++ x ≡ encode_detail k ++ y
    → (l ≡ k) × (x ≡ y)
unfolding encode_detail
encode_detail_split [] [] x y h hl hk e = (refl, e)
encode_detail_split [] (t ∷ k) x y h hl hk e = absurd (omega arith)
encode_detail_split (s ∷ l) [] x y h hl hk e = absurd (omega arith)
encode_detail_split (s ∷ l) (t ∷ k) x y h hl hk e =
    let (first, left) =
      line_split s t (encode_detail l ++ x) (encode_detail k ++ y) hl.0 hk.0
        (sym (append_assoc _ (encode_detail l) x) ∙ e ∙ append_assoc _ (encode_detail k) y) in
    let (others, after) = encode_detail_split l k x y (omega arith) hl.1 hk.1 left in
    (cc (first, others), after)

encode_op_regroup :
    (op : Operation) (x : List ℕ)
    → encode_op op ++ x
      ≡ put_bytes (as_bytes op.summary)
        ++ (to_be_bytes (length op.detail)
            ++ (encode_detail op.detail ++ (put_bytes op.payload ++ x)))
unfolding encode_op
encode_op_regroup op x = simp append_assoc

encode_op_split :
    (p q : Operation) (x y : List ℕ)
    → FitsOperation p
    → FitsOperation q
    → encode_op p ++ x ≡ encode_op q ++ y
    → (p ≡ q) × (x ≡ y)
encode_op_split p q x y hp hq e =
    let (summary, after1) =
      line_split p.summary q.summary _ _ hp.summary hq.summary
        (sym (encode_op_regroup p x) ∙ e ∙ encode_op_regroup q y) in
    let (lines, after2) =
      to_be_bytes_split (length p.detail) (length q.detail) _ _ hp.lines hq.lines after1 in
    let (detail, after3) =
      encode_detail_split p.detail q.detail _ _ lines hp.detail hq.detail after2 in
    let (payload, after4) = put_bytes_split p.payload q.payload x y hp.payload hq.payload after3 in
    (λ i. record { summary = summary i; detail = detail i; payload = payload i }, after4)

encode_ops_split :
    (l k : List Operation) (x y : List ℕ)
    → length l ≡ length k
    → All FitsOperation l
    → All FitsOperation k
    → encode_ops l ++ x ≡ encode_ops k ++ y
    → (l ≡ k) × (x ≡ y)
unfolding encode_ops
encode_ops_split [] [] x y h hl hk e = (refl, e)
encode_ops_split [] (q ∷ k) x y h hl hk e = absurd (omega arith)
encode_ops_split (p ∷ l) [] x y h hl hk e = absurd (omega arith)
encode_ops_split (p ∷ l) (q ∷ k) x y h hl hk e =
    let (first, left) =
      encode_op_split p q (encode_ops l ++ x) (encode_ops k ++ y) hl.0 hk.0
        (sym (append_assoc _ (encode_ops l) x) ∙ e ∙ append_assoc _ (encode_ops k) y) in
    let (others, after) = encode_ops_split l k x y (omega arith) hl.1 hk.1 left in
    (cc (first, others), after)

encode_regroup :
    (t : Transaction) (x : List ℕ)
    → encode t ++ x
      ≡ t.server.raw ++ (t.nonce ++ (to_be_bytes (length t.ops) ++ (encode_ops t.ops ++ x)))
unfolding encode
encode_regroup t x = simp append_assoc

-- Encodings are told apart also where other bytes follow them.
pub encode_split :
    (t u : Transaction) (x y : List ℕ)
    → FitsTransaction t
    → FitsTransaction u
    → encode t ++ x ≡ encode u ++ y
    → (t ≡ u) × (x ≡ y)
encode_split t u x y ht hu e =
    let (server, after1) =
      append_split t.server.raw u.server.raw _ _ (ht.server.size ∙ sym hu.server.size)
        (sym (encode_regroup t x) ∙ e ∙ encode_regroup u y) in
    let (nonce, after2) =
      append_split t.nonce u.nonce _ _ (ht.nonce.size ∙ sym hu.nonce.size) after1 in
    let (count, after3) =
      to_be_bytes_split (length t.ops) (length u.ops) _ _ ht.count hu.count after2 in
    let (ops, after4) = encode_ops_split t.ops u.ops x y count ht.ops hu.ops after3 in
    (λ i. record { server = record { raw = server i }; nonce = nonce i; ops = ops i }, after4)

-- Two transactions with one encoding are one transaction.
pub encode-injective :
    (t u : Transaction) → FitsTransaction t → FitsTransaction u → encode t ≡ encode u → t ≡ u
encode-injective t u ht hu e =
    (encode_split t u [] [] ht hu (append-nil (encode t) ∙ e ∙ sym (append-nil (encode u)))).0
