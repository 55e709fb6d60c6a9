-- ===== src/Tests/Files.antt =====
-- A file system with one file, and an identity in it.
use sqnr.Base.{
  ℕ, ◌≡◌, refl, ap, Bool, true, false, Option, none, some, List, [], ◌++◌, Result, ok, err,
  replicate,
}
use sqnr.Text.Utf8.{Text, codes, as_bytes, from_utf8}
use sqnr.Text.Utf8Laws.{from_utf8-as_bytes}
use sqnr.Fs.{Fs}
use sqnr.Client.{SquicConfig, envelope_version}
use sqnr.Client.Streams.{connect, connect_as}
use sqnr.Config.{Config, load as load_config}
use sqnr.Config.Force.{Sets, in_force, with_version, connect-load}
use sqnr.Identity
use sqnr.Identity.{Draws, write_file}
use sqnr.Identity.Files.{
  generate, create_new, new_contents, public_of, load, read_public, is_encrypted,
}
use sqnr.Identity.RoundTrip
use sqnr.Identity.RoundTrip.{load-generate}
use sqnr.Tests.Toy.{toy, toy-IsLawful, toy_encodings, toy_encodings-IsLawful, fit, to_hex}
use sqnr.Tests.Machines.{toy_http, toy_vault, toy_vault-IsLawful}
use sqnr.Tests.Runs.{draws, draws-IsDraws}

unfoldable pub holds : Option (List ℕ) → Bool
holds none = false
holds (some bs) = true

unfoldable pub decoded : Option Text → Result Text Text
decoded none = err (codes "stream did not contain valid UTF-8")
decoded (some s) = ok s

unfoldable pub contents : Option (List ℕ) → Result Text Text
unfolding decoded
contents none = err (codes "No such file or directory")
contents (some bs) = decoded (from_utf8 bs)

abbrev pub one_file : Fs
one_file = record {
  World = Option (List ℕ);
  PathBuf = Text;
  join = λ p s. p ++ (codes "/" ++ s);
  display = λ p. p;
  home_dir = λ w. some (codes "/root");
  exists = λ p w. holds w;
  read_to_string = λ p w. (contents w, w);
  write = λ p bs w. (ok tt, some bs);
  create_dir_all = λ p w. (ok tt, w);
  set_permissions = λ p mode w. (ok tt, w);
}

pub one_file-IsLawful : RoundTrip.IsLawful one_file
unfolding contents decoded
one_file-IsLawful = record {
  read_written =
      λ path s w w1 w2 h e k. rw (← ap (λ x. x.1) k, ← ap (λ x. x.1) e, from_utf8-as_bytes s h);
}

abbrev pub written : Option (List ℕ)
written =
    (generate toy toy_encodings toy_vault one_file (codes "id") (some (codes "correct horse")) draws
      none).1

load-generate_example :
    ((load toy toy_encodings toy_vault one_file
        (codes "id")
        (some (codes "correct horse"))
        written).0
      ≡ ok (replicate 32 9))
    × ((read_public toy toy_encodings toy_vault one_file (codes "id") written).0
        ≡ ok (record { raw = replicate 32 9 }))
    × ((is_encrypted toy toy_encodings toy_vault one_file (codes "id") written).0 ≡ ok true)
load-generate_example =
    load-generate toy toy-IsLawful (λ seed h. refl) toy_encodings toy_encodings-IsLawful toy_vault
      toy_vault-IsLawful one_file one_file-IsLawful (codes "id") (some (codes "correct horse"))
      draws (record { raw = replicate 32 9 }) none written draws-IsDraws
      (unfold generate create_new new_contents write_file public_of holds fit Identity.encrypt_seed
          Identity.argon2 Identity.cipher_of in
        refl)

abbrev versioned : Config one_file
versioned = record { server = none; server_key = none; identity = none; envelope_version = some 0 }

abbrev plain_quic : SquicConfig
plain_quic = record {
  alpn_protocols = [];
  keep_alive = none;
  handshake_timeout = none;
  client_key = none;
  advertise_identity = false;
  enable_datagrams = false;
  envelope_version = 1;
}

abbrev config_text : Option (List ℕ)
config_text = some (as_bytes (codes "envelope_version = 0"))

abbrev in_use : Option ℕ
in_use =
    envelope_version (load_config one_file (λ s. ok versioned) 7 config_text).1 (some (codes "2"))

connect-load_example :
    (o : Option ℕ) × Sets one_file (λ s. ok versioned) config_text o
    × ((connect toy_http plain_quic in_use tt (replicate 32 9)
          ≡ connect toy_http
              (with_version plain_quic (in_force o 7 (some (codes "2"))))
              none
              tt
              (replicate 32 9))
        × (connect_as toy_http plain_quic to_hex in_use tt (replicate 32 9) (replicate 32 4)
            ≡ connect_as toy_http
                (with_version plain_quic (in_force o 7 (some (codes "2"))))
                to_hex
                none
                tt
                (replicate 32 9)
                (replicate 32 4)))
connect-load_example =
    connect-load one_file (λ s. ok versioned) toy_http plain_quic to_hex 7 (some (codes "2"))
      config_text tt (replicate 32 9) (replicate 32 4)
