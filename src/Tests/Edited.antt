-- ===== src/Tests/Edited.antt =====
-- An identity file with carriage returns, white space and no line feed at its end.
use sqnr.Base.{ℕ, ◌≡◌, refl, inr, Option, none, some, List, [], ◌∷◌, ◌++◌, replicate, arith}
use sqnr.Text.Utf8.{Text, codes, as_bytes, from_utf8}
use sqnr.Text.Trim.{is_whitespace}
use sqnr.Identity.{Contents, plain_header, file_text}
use sqnr.Identity.Files.{load, read_public, is_encrypted}
use sqnr.Identity.Parse.{IsContents}
use sqnr.Identity.Edited.{Edited, pad, edited, at_once, load-Edited}
use sqnr.Tests.Toy.{toy, toy_encodings}
use sqnr.Tests.Machines.{toy_vault}
use sqnr.Tests.Files.{one_file, contents, decoded}

abbrev bare : Contents
bare = record { header = plain_header; payload = replicate 32 0x109; public = replicate 32 0x109 }

abbrev through_editor : Text
through_editor =
    ([] ++ (plain_header ++ (13 ∷ [])))
    ++ (10 ∷ ((32 ∷ 9 ∷ []) ++ (replicate 32 0x109 ++ (32 ∷ 13 ∷ [])))
        ++ (10 ∷ ([] ++ (replicate 32 0x109 ++ [])) ++ []))

bare-IsContents : IsContents bare
unfolding is_whitespace
bare-IsContents = record { known = inr refl; payload = ground arith; public = ground arith }

through_editor-Edited : Edited bare through_editor
unfolding is_whitespace
through_editor-Edited =
    edited _ _ _ _ (pad [] (13 ∷ []) tt (ground arith))
      (pad (32 ∷ 9 ∷ []) (32 ∷ 13 ∷ []) (ground arith) (ground arith)) (pad [] [] tt tt) at_once

abbrev before : Option (List ℕ)
before = some (as_bytes (file_text bare))

abbrev after : Option (List ℕ)
after = some (as_bytes through_editor)

load-Edited_example :
    ((load toy toy_encodings toy_vault one_file (codes "id") none after).0
      ≡ (load toy toy_encodings toy_vault one_file (codes "id") none before).0)
    × ((read_public toy toy_encodings toy_vault one_file (codes "id") after).0
        ≡ (read_public toy toy_encodings toy_vault one_file (codes "id") before).0)
    × ((is_encrypted toy toy_encodings toy_vault one_file (codes "id") after).0
        ≡ (is_encrypted toy toy_encodings toy_vault one_file (codes "id") before).0)
load-Edited_example =
    load-Edited one_file toy toy_encodings toy_vault (codes "id") none bare through_editor before
      before after after bare-IsContents (λ e. cc)
      (unfold contents decoded as_bytes from_utf8 file_text in refl)
      (unfold contents decoded as_bytes from_utf8 in refl) through_editor-Edited
