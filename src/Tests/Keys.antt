-- ===== src/Tests/Keys.antt =====
-- Keys in their printed forms.
use sqnr.Base.{ℕ, ◌≡◌, refl, List, [], ◌∷◌, ◌++◌, ok, replicate, arith}
use sqnr.Text.Trim.{is_whitespace}
use sqnr.Core.Key.{PubKey, to_base58, from_str}
use sqnr.Core.Key.Laws.{from_str_forms}
use sqnr.Tests.Toy.{toy_encodings, toy_encodings-IsLawful, to_hex}

abbrev sample : PubKey
sample = record { raw = replicate 32 0xab }

abbrev spaces : List ℕ
spaces = 0x20 ∷ 0x2003 ∷ 10 ∷ []

sample_reads :
    (from_str toy_encodings (spaces ++ (to_base58 toy_encodings sample ++ spaces)) ≡ ok sample)
    × (from_str toy_encodings (spaces ++ (to_hex (replicate 32 0xab) ++ spaces)) ≡ ok sample)
unfolding is_whitespace
sample_reads =
    from_str_forms toy_encodings toy_encodings-IsLawful sample spaces spaces (omega arith)
      (refl, (refl, (refl, tt))) (refl, (refl, (refl, tt)))
