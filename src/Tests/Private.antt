-- ===== src/Tests/Private.antt =====
-- A file system with permissions: the file `id`, and one other.
use sqnr.Base.{
  ℕ, ◌≡◌, refl, sym, ap, ◌∙◌, Bool, true, false, Option, none, some, [], ◌∷◌, Result, ok, err,
  if◌then◌else◌, ◌=?◌,
}
use sqnr.Text.Utf8.{Text, codes, len, as_bytes}
use sqnr.Fs.{Fs}
use sqnr.Config.{Config}
use sqnr.Identity
use sqnr.Identity.{Contents, file_text, write_file}
use sqnr.Identity.Files.{generate, create_new, new_contents, public_of}
use sqnr.Identity.Written.{Written}
use sqnr.Identity.Private.{File, HasFiles}
use sqnr.Cli
use sqnr.Cli.Made.{IsFor}
use sqnr.Cli.Private.{run_keygen-IsPrivate}
use sqnr.Tests.Toy.{toy, toy_encodings, fit}
use sqnr.Tests.Machines.{toy_card, toy_vault}
use sqnr.Tests.Runs.{draws}

-- Paths are whether they are the file `id`. A new file is readable by all until its permissions are
-- set.
abbrev Two : Type 0
Two = Option File × Option File

unfoldable pick : Bool → Two → Option File
pick true w = w.0
pick false w = w.1

unfoldable put : Bool → Option File → Two → Two
put true f w = (f, w.1)
put false f w = (w.0, f)

unfoldable there : Option File → Bool
there none = false
there (some f) = true

unfoldable permit : ℕ → Option File → Result (Unit {0}) Text × Option File
permit m none = (err (codes "No such file or directory"), none)
permit m (some f) = (ok tt, some (record f { mode = m }))

abbrev two_files : Fs
two_files = record {
  World = Two;
  PathBuf = Bool;
  join = λ p s. false;
  display = λ p. if p then codes "id" else codes "other";
  home_dir = λ w. none;
  exists = λ p w. there (pick p w);
  read_to_string = λ p w. (err (codes "Permission denied"), w);
  write = λ p bs w. (ok tt, put p (some (record { bytes = bs; mode = 0o644 })) w);
  create_dir_all = λ p w. (ok tt, w);
  set_permissions = λ p m w. let r = permit m (pick p w) in (r.0, put p r.1 w);
}

Differ : Bool → Bool → Type 0
Differ true false = Unit
Differ false true = Unit
Differ _ _ = ⊥

pick-put : (p : Bool) (f : Option File) (w : Two) → pick p (put p f w) ≡ f
unfolding pick put
pick-put true f w = refl
pick-put false f w = refl

pick-put_other :
    (p q : Bool) (f : Option File) (w : Two) → Differ p q → pick q (put p f w) ≡ pick q w
unfolding pick put Differ
pick-put_other true false f w h = refl
pick-put_other false true f w h = refl
pick-put_other true true f w h = absurd h
pick-put_other false false f w h = absurd h

two_files-HasFiles : HasFiles two_files
unfolding permit
two_files-HasFiles = record {
  file = pick;
  Apart = Differ;
  writes = λ p bs w w' e. (0o644, ap (pick p) (sym (ap (λ x. x.1) e)) ∙ pick-put p _ w);
  permits = λ p m f w w' h e.
      ap (pick p) (sym (ap (λ x. x.1) e)) ∙ pick-put p _ w ∙ ap (λ x. (permit m x).1) h;
  write = λ p q bs h. record { at = λ w. pick-put_other p q _ w h };
  set_permissions = λ p q m h. record { at = λ w. pick-put_other p q _ w h };
}

abbrev typist : Cli.Terminal
typist = record { World = ℕ; prompt_password = λ label w. (ok (codes "correct horse"), w) }

abbrev other : File
other = record { bytes = 1 ∷ 2 ∷ []; mode = 0o644 }

abbrev before : Cli.World toy toy_encodings toy_vault two_files toy_card typist
before = record { files = (none, some other); card = 5; term = 0; setting = 0; printed = [] }

abbrev config : Config two_files
config = record { server = none; server_key = none; identity = none; envelope_version = none }

abbrev after : Cli.World toy toy_encodings toy_vault two_files toy_card typist
after =
    (Cli.run_keygen toy toy_encodings toy_vault two_files toy_card typist draws none config
      (some true) false before).1

run_keygen-IsPrivate_example :
    (pass : Option Text) × (text : Text) × IsFor false pass
    × Written toy toy_encodings toy_vault draws pass text
    × (pick true after.files ≡ some (record { bytes = as_bytes text; mode = 0o600 }))
    × (pick false after.files ≡ pick false (none, some other))
unfolding two_files-HasFiles
run_keygen-IsPrivate_example =
    run_keygen-IsPrivate toy toy_encodings toy_vault two_files toy_card typist two_files-HasFiles
      draws none config true false false before after (unfold Differ in tt)
      (unfold Cli.run_keygen Cli.keygen_path Cli.new_identity Cli.ask len as_bytes Cli.confirmed
          ◌=?◌ Cli.on_files generate pick put there permit create_new new_contents write_file
          public_of fit Identity.encrypt_seed Identity.argon2 Identity.cipher_of Cli.report
          Cli.print Cli.warning in
        refl)
