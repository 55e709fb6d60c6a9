-- ===== src/Client/Bodies.antt =====
-- The body of a response is what the server wrote, however it was cut into chunks.
use sqnr.Base.{
  ℕ, zero, suc, ◌<◌, ◌≡◌, sym, ◌∙◌, none, some, List, [], ◌∷◌, ◌++◌, Result, ok, err, length,
  append_assoc, append-nil, arith,
}
use sqnr.Text.Utf8.{Text}
use sqnr.Client.{Http, drain, read_body}

-- The bytes of a chunk.
abbrev pub flat : List (List ℕ) → List ℕ
flat [] = []
flat (part ∷ parts) = part ++ flat parts

abbrev pub flat_all : List (List (List ℕ)) → List ℕ
flat_all [] = []
flat_all (chunk ∷ chunks) = flat chunk ++ flat_all chunks

module _ (H : Http) (stream : H.RequestStream) where
  -- The stream delivers these chunks and then ends: normally, or with an error.
  pub data Delivers
      : H.World → List (List (List ℕ)) → Result (Unit {0}) Text → H.World → Type 0 where
    ended : {w w' : H.World} → H.recv_data stream w ≡ (ok none, w') → Delivers w [] (ok tt) w'
    broken :
        {w w' : H.World} (e : Text) → H.recv_data stream w ≡ (err e, w') → Delivers w [] (err e) w'
    chunk :
        {w v w' : H.World} {chunks : List (List (List ℕ))} {r : Result (Unit {0}) Text}
        (c : List (List ℕ))
        → H.recv_data stream w ≡ (ok (some c), v)
        → Delivers v chunks r w'
        → Delivers w (c ∷ chunks) r w'

module _ (H : Http) where
  pub drain-flat : (c : List (List ℕ)) (out : List ℕ) → drain H c out ≡ out ++ flat c
  unfolding drain
  drain-flat [] out = sym (append-nil out)
  drain-flat (part ∷ c) out = drain-flat c (out ++ part) ∙ append_assoc out part (flat c)

  abbrev pub body_of : Result (Unit {0}) Text → List ℕ → Result (List ℕ) Text
  body_of (ok u) bs = ok bs
  body_of (err e) bs = err e

  -- Once the stream ends, with fuel for a round more than it has chunks, the loop returns the bytes
  -- of all chunks in their order, or the error that broke the stream off.
  pub read_body-Delivers :
      (stream : H.RequestStream) {w w' : H.World} {chunks : List (List (List ℕ))}
      {r : Result (Unit {0}) Text}
      → Delivers H stream w chunks r w'
      → (fuel : ℕ) (out : List ℕ) → length chunks < fuel
      → read_body H fuel stream out w ≡ some (body_of r (out ++ flat_all chunks), w')
  unfolding read_body
  read_body-Delivers stream d zero out h = absurd (omega arith)
  read_body-Delivers stream (ended e) (suc fuel) out h = rw (e, read_body) (rw (append-nil, e))
  read_body-Delivers stream (broken x e) (suc fuel) out h = rw (e, read_body) (rw e)
  read_body-Delivers stream {w = w} {w' = w'} {r = r} (chunk {v = v} {chunks = chunks} c e d)
        (suc fuel) out h =
      rw (e, read_body)
        (rw e (
          read_body-Delivers stream {w = v} {w' = w'} {chunks = chunks} {r = r} d fuel
            (drain H c out) (omega arith)
          ∙ rw (drain-flat c out, append_assoc)))
