-- ===== src/Flow/Announced.antt =====
-- From a new identity file to an accepted transaction.
use sqnr.Base.{ℕ, ◌≡◌, ◌∙◌, Option, List, [], ◌∷◌, ◌++◌, ok}
use sqnr.Text.Utf8.{Text}
use sqnr.Core.Key.{PubKey, Encodings}
use sqnr.Core.Key.Laws
use sqnr.Core.Tx.{Operation, Transaction, signing_bytes}
use sqnr.Core.Tx.Valid.{IsTransaction}
use sqnr.Core.Signed.{Crypto, SignedTransaction, software_signer, decode, verify}
use sqnr.Core.Signed.Verify
use sqnr.Fs.{Fs}
use sqnr.Card.{Device}
use sqnr.Signer.{software}
use sqnr.Identity.{Vault, Draws}
use sqnr.Identity.Files.{generate, load, public_of}
use sqnr.Identity.Keeps.{KeepsSeeds}
use sqnr.Identity.RoundTrip
use sqnr.Identity.RoundTrip.{generate-inv, load-generate}
use sqnr.Identity.Seal
use sqnr.Identity.Seal.{IsDraws}
use sqnr.Flow.{
  Client, Json, got, reviewed, signed, posted, challenge_path, command_path, World, sign_and_submit,
}
use sqnr.Flow.Accepted.{sign_and_submit-decode}

module _ (C : Crypto) (L : Verify.IsLawful C) (keeps : KeepsSeeds C) (E : Encodings)
    (LE : Laws.IsLawful E) (V : Vault) (LV : Seal.IsLawful V) (F : Fs) (LF : RoundTrip.IsLawful F)
    (D : Device) (N : Client) (J : Json) where
  -- Where `generate` made an identity and returned its public key, `load` gives back a signing key
  -- from the file, under the same passphrase or none; and a run that uses it, with a challenge of 32
  -- bytes and a batch within the bounds, posts one message, which decodes to the transaction over the
  -- server's nonce, has the returned key as its admin, and is accepted by the server.
  pub sign_and_submit-load :
      (path : F.PathBuf) (passphrase : Option Text) (d : Draws) (key : PubKey)
      (files files' : F.World) (server : PubKey) (op : Operation) (ops : List Operation)
      (nonce : List ℕ) (w : World C D N J)
      → IsDraws d
      → generate C E V F path passphrase d files ≡ (ok key, files')
      → (N.get challenge_path w.net).0 ≡ ok (200, nonce)
      → let t : Transaction = record { server = server; nonce = nonce; ops = op ∷ ops } in
        IsTransaction t
        → (k : C.SigningKey) × ((load C E V F path passphrase files').0 ≡ ok k)
          × (body : List ℕ) × (s : SignedTransaction) × ((sign_and_submit C D N J
                (software C k)
                server
                (op ∷ ops)
                w).1.trace
              ≡ w.trace
                ++ (got challenge_path
                    ∷ reviewed t
                    ∷ signed (signing_bytes C.digest t)
                    ∷ posted command_path body
                    ∷ []))
          × (decode body ≡ ok s)
          × (s.transaction ≡ t)
          × (s.admin ≡ key)
          × (verify C s server ≡ ok tt)
  unfolding public_of software software_signer
  sign_and_submit-load path passphrase d key files files' server op ops nonce w hd made e h =
      let (loads, shown, sealed) =
        load-generate C L keeps E LE V LV F LF path passphrase d key files files' hd made in
      let (c, contents, kept, read, same) =
        generate-inv C L keeps E LE V LV F LF path passphrase d key files files' hd made in
      let (body, s, trace, back, whole, admin, accepted) =
        sign_and_submit-decode C L D N J (C.from_seed d.seed) server op ops nonce w e h in
      (C.from_seed d.seed, loads, body, s, trace, back, whole, admin ∙ same, accepted)
