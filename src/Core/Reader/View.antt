-- ===== src/Core/Reader/View.antt =====
-- The abstract view of a `Reader`: what is left to read.
use sqnr.Base
use sqnr.Base.{
  ℕ, ◌+◌, ◌-◌, ◌^◌, ◌≤◌, ◌<◌, ◌≡◌, refl, sym, ◌∙◌, ap, List, [], ◌∷◌, ◌++◌, Result, ok, err, ltb,
  length, drop, length-append, length-drop, drop-drop, take-append, drop-append, take-append-drop,
  length-take, All-append_left, All-append_right, arith,
}
use sqnr.Core.Bytes.{IsBytes}
use sqnr.Core.Reader.{Reader, take, new}

abbrev pub rest : Reader → List ℕ
rest r = drop r.pos r.buf

-- A slice holds at most `isize::MAX` bytes.
pub record IsValid (r : Reader) : Type 0 where
  pub within : r.pos ≤ length r.buf
  pub small : length r.buf < 2 ^ 63
  pub bytes : IsBytes r.buf

pub new-IsValid : (bs : List ℕ) → length bs < 2 ^ 63 → IsBytes bs → IsValid (new bs)
unfolding new
new-IsValid bs h k = record { within = omega arith; small = h; bytes = k }

pub length-rest : (r : Reader) → length (rest r) ≡ length r.buf - r.pos
length-rest r = length-drop r.pos r.buf

-- The cursor after `n` more bytes.
abbrev pub advance : Reader → ℕ → Reader
advance r n = record r { pos = r.pos + n }

take_enough :
    (n : ℕ) (r : Reader)
    → IsValid r
    → r.pos + n ≤ length r.buf
    → take n r ≡ ok (Base.take n (rest r), advance r n)
unfolding take
take_enough n r v h = ground arith

-- Where the buffer holds `w` next, `take` returns it and goes behind it.
pub take-rest :
    (r : Reader) (w post : List ℕ)
    → IsValid r
    → rest r ≡ w ++ post
    → (take (length w) r ≡ ok (w, advance r (length w)))
      × IsValid (advance r (length w))
      × (rest (advance r (length w)) ≡ post)
take-rest r w post v e =
    (taken, record { within = omega (arith, enough); small = v.small; bytes = v.bytes }, left)
  where
    enough : length w + r.pos ≤ length r.buf
    enough = omega (arith, length-rest r, ap length e, length-append w post)

    front : Base.take (length w) (rest r) ≡ w
    front = rw e (take-append w post)

    taken : take (length w) r ≡ ok (w, advance r (length w))
    taken = take_enough (length w) r v (omega (arith, enough)) ∙ rw front

    left : rest (advance r (length w)) ≡ post
    left = sym (drop-drop (length w) r.pos _ r.buf refl) ∙ rw e (drop-append w post)

take_parts :
    (n : ℕ) (r : Reader) (w : List ℕ) (r' : Reader)
    → take n r ≡ ok (w, r')
    → (r.pos + n ≤ length r.buf) × (w ≡ Base.take n (rest r)) × (r' ≡ advance r n)
unfolding take
take_parts n r w r' h = ground arith

-- What `take` returns lies before the new cursor.
pub take_inv :
    (n : ℕ) (r : Reader) (w : List ℕ) (r' : Reader)
    → IsValid r
    → take n r ≡ ok (w, r')
    → (rest r ≡ w ++ rest r') × (length w ≡ n) × IsValid r'
take_inv n r w r' v h =
    let (fits, hw, hr) = take_parts n r w r' h in
    rw (hw, hr)
      (
        rw (← drop-drop n r.pos _ r.buf refl) (sym (take-append-drop n (rest r))),
        length-take n (rest r) (omega (arith, length-rest r)),
        record { within = fits; small = v.small; bytes = v.bytes },
      )
