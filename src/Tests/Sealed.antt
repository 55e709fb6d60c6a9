-- ===== src/Tests/Sealed.antt =====
-- Encodings with one form for each list of bytes, and a sealed identity file.
use sqnr.Base.{
  ℕ, ◌%◌, ◌≡◌, ◌⊎◌, ◌↔◌, refl, ap, inl, Option, none, some, List, [], ◌∷◌, ok, replicate, length,
  arith,
}
use sqnr.Text.Utf8.{Text, codes, as_bytes, from_utf8}
use sqnr.Text.Trim.{is_whitespace}
use sqnr.Core.Bytes.{to_be_bytes}
use sqnr.Identity.{Contents, enc_header, blob, file_text, read_lines}
use sqnr.Identity.Files.{load}
use sqnr.Identity.Parse.{IsContents, parse_lines-file_text}
use sqnr.Identity.Edited.{read_lines-text}
use sqnr.Identity.Sealed.{IsSealing, costs_today}
use sqnr.Tests.Strict.{strict, strict-IsLawful, strict-GivesBytes, strict-IsCanonical, strictly-ok}
use sqnr.Identity.Generated.{HasCosts, IsNew, load-IsNew}
use sqnr.Tests.Toy.{toy, toy-IsLawful, wide, narrow}
use sqnr.Tests.Machines.{toy_vault, toy_vault-IsLawful, unseal}
use sqnr.Tests.Files.{one_file, contents, decoded}
use sqnr.Tests.Runs.{draws}

unseal-ok : (c ct m : List ℕ) → unseal c ct ≡ ok m → ((length c % 256) ∷ m) ≡ ct
unfolding unseal
unseal-ok c [] m e = cc
unseal-ok c (t ∷ n) m e = ground arith

toy_vault-IsSealing : IsSealing toy_vault
toy_vault-IsSealing = record {
  encrypt-decrypt = λ c nonce m ct e. ap ok (unseal-ok c ct m e);
  decrypt_bytes = λ c nonce m ct h e. (rw (← unseal-ok c ct m e) at h).1;
}

-- The key of the passphrase has 13 bytes.
abbrev sealed : Contents
sealed = record {
  header = enc_header;
  payload = wide (blob draws.salt draws.nonce (13 ∷ replicate 32 9));
  public = replicate 32 0x109;
}

sealed-IsContents : IsContents sealed
unfolding is_whitespace wide blob to_be_bytes
sealed-IsContents = record { known = inl refl; payload = ground arith; public = ground arith }

sealed-HasCosts : HasCosts strict sealed
unfolding wide narrow blob to_be_bytes costs_today
sealed-HasCosts bs h e = rw (← (strictly-ok _ bs e).0) refl

abbrev stored : Option (List ℕ)
stored = some (as_bytes (file_text sealed))

stored-read : read_lines one_file (codes "id") stored ≡ (ok sealed, stored)
unfolding contents decoded as_bytes from_utf8 file_text wide blob to_be_bytes
stored-read =
    read_lines-text one_file (codes "id") sealed (file_text sealed) stored stored refl
      (parse_lines-file_text (codes "id") sealed sealed-IsContents)

load-IsNew_example :
    (load toy strict toy_vault one_file (codes "id") (some (codes "correct horse")) stored
      ≡ (ok (replicate 32 9), stored))
    ↔ ((p : Option Text) × ((p ≡ none) ⊎ (p ≡ some (codes "correct horse")))
        × IsNew toy strict toy_vault sealed (replicate 32 9) p)
load-IsNew_example =
    load-IsNew toy strict toy_vault (λ seed h. refl) strict-GivesBytes strict-IsCanonical
      toy_vault-IsSealing toy-IsLawful strict-IsLawful toy_vault-IsLawful one_file (codes "id")
      (some (codes "correct horse")) sealed (replicate 32 9) stored stored stored-read
      sealed-HasCosts
