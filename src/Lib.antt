-- ===== src/Lib.antt =====
-- sqnr signs administrative transactions against a server with an Ed25519 key, which a file or a
-- YubiKey holds. This library models its two crates and proves what makes them correct.
--
-- The parts, their files here, and the code they model:
--   Core.Error      crates/sqnr-core/src/error.rs: the enum `Error` and how it prints.
--   Core.Key        crates/sqnr-core/src/key.rs: `PubKey`, read from base58 or hexadecimal digits.
--                   Core.Key.Forms is about the texts that are read.
--   Core.Reader     crates/sqnr-core/src/tx.rs: `Reader`, the cursor of the decoder. A method that
--                   takes `&mut self` is a function of the cursor that returns the new one.
--   Core.Tx         the same file: `Operation`, `Transaction`, `put_bytes`, `encode`, `decode_from`,
--                   `signing_bytes`.
--   Core.Signed     the same file: `Signer`, `SoftwareSigner`, `SignedTransaction` and its `create`,
--                   `verify`, `encode`, `decode`.
--   Card            crates/sqnr/src/card.rs: the thread that owns the YubiKey. Its state is the
--                   connection that it holds, if any, with the card's world; `turn` is one round of
--                   the loops of `card_loop`, Card.Loops has the two nested loops as they are
--                   written, and Card.Methods the methods of the handle `Card`. Card.Handles lets
--                   many handles send while the thread serves, in any order. Card.Material has
--                   what the code names of the crate's keys and slots. Card.Kept is
--                   about the session that the thread holds, Card.Slot and Card.Keys about the key
--                   in the card's slot, Card.Tries about the PINs that the card is shown, and
--                   Card.Fingerprint is `ed25519_fingerprint`.
--   Signer          crates/sqnr/src/signer.rs: `Backend`, a software key or the card.
--   Flow            crates/sqnr/src/flow.rs: `sign_and_submit`, with a trace of what it does: the
--                   request for a challenge, the callbacks, the signing, the post.
--   Client          crates/sqnr/src/client.rs: the process-wide envelope version, the connection
--                   settings, `dial`, and a request with the loop that reads the response's body.
--                   Client.Streams has `connect`, `stream` and `Stream::next`, the datagrams, and the
--                   handle `Requests`. Client.Exchange describes what a request sends and
--                   gets. Client.Total gives requests to Flow as total functions.
--   Config          crates/sqnr/src/config.rs: `Config`, which sets the envelope version.
--   Identity        crates/sqnr/src/identity.rs: the identity file, sealed or in plain text.
--                   Identity.Written describes a new file, Identity.Private is about its mode and
--                   the files beside it, Identity.Edited
--                   about a file that went through an editor, Identity.Sealed and
--                   Identity.Generated about which files load.
--   Cli             crates/sqnr/src/main.rs: `main`, `run` and the commands `keygen`, `pubkey`,
--                   `provision`. What is printed is a list of lines.
--   Effect, Fs      the state-and-error monad of the stateful code, and the file system it uses.
--   Text            what the code uses of the standard library's `str` and `format!`: UTF-8, `trim`,
--                   `lines`, `parse::<u8>`, `contains`, `to_ascii_lowercase`, decimal digits.
--   Base            names and lemmas that all files share.
--   Tests           stand-ins for the crates, and runs on concrete data.
--
-- How they meet: Flow asks the client for a nonce, makes a transaction of it (Core.Tx), has a backend
-- (Signer) sign its signing bytes, by the software key or through the card thread (Card), and posts
-- the signed transaction (Core.Signed). Identity gives the software key, Config the envelope version
-- that Client puts into its connections.
--
-- Conventions. A byte is a number below 256, an array of n bytes a list with its size as a hypothesis,
-- a text a list of Unicode scalar values. `usize` has 64 bits: the cursor's addition overflows from
-- 2^64 on, and the decoder's theorems take inputs below 2^63 bytes, which is the most that a Rust
-- slice holds. Casts to `u32` keep the low 32 bits. Errors of other crates are known by their
-- messages. The loops that run on fuel are the UTF-8 decoder, with the length of its input, of which
-- each round takes one byte at least; `show`, with n + 1 rounds for a number with at most that many
-- digits; and the reader of a response's body, with one round more than the server has chunks left:
-- `IsFinite` is the measure of a server that ends its responses.
--
-- Parameters, since their code is not here: ed25519_dalek and sha2 (Crypto), bs58 and hex
-- (Encodings), openpgp_card with its PC/SC backend (Device), sha1, argon2 and chacha20poly1305
-- (Vault), the operating system's random numbers (Draws), http, h3, quinn and squic (Http),
-- serde_json (Json), toml, std::fs and dirs (Fs), rpassword (Terminal). Records named IsLawful
-- state what the theorems use of them; so do Remembers, SignsWith, Carries, Stays, HasSlot,
-- CountsTries, ShowsKey and KeepsKey for a card, IsSealing and Refuses for a cipher,
-- GivesBytes, IsCanonical and IgnoresCase for the encodings, KeepsSeeds for keys, IsFinite for a
-- server, and HasFiles for a file system with modes.
--
-- Not modelled: the parsing of the command line, which clap does; the task that drives a connection,
-- which only runs code of h3; the exchange of several requests at once on one connection, whose
-- interleaving is that crate's too; the wiping of secrets from memory; builds for Android; the
-- installer and the build files.
pub mod Base
pub mod Text
pub mod Core
pub mod Effect
pub mod Card
pub mod Signer
pub mod Flow
pub mod Client
pub mod Fs
pub mod Config
pub mod Identity
pub mod Cli
mod Tests
