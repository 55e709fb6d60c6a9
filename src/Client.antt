-- ===== src/Client.antt =====
-- crates/sqnr/src/client.rs: the envelope version, the connection settings, requests and streams.
pub mod Envelope
pub mod Bodies
pub mod Exchange
pub mod Streams
pub mod Reading
pub mod Total
use sqnr.Base.{
  ℕ, zero, suc, Bool, true, false, Option, none, some, List, [], ◌∷◌, ◌++◌, Result, ok, err, ◌==◌,
  not, if◌then◌else◌,
}
use sqnr.Text.Utf8.{Text, codes}
use sqnr.Text.Trim.{trim}
use sqnr.Text.Parse.{parse_u8}
use sqnr.Effect.{Act, pure, fail, lift, rename, ◌>>=◌, ◌>>◌}

-- `ENVELOPE_VERSION.store`
unfoldable pub set_envelope_version : ℕ → ℕ → ℕ
set_envelope_version version old = version

unfoldable pub nonzero : Option ℕ → Option ℕ
nonzero none = none
nonzero (some v) = if not (v == 0) then some v else none

unfoldable pub from_env : Option Text → Option ℕ
unfolding nonzero
from_env none = none
from_env (some v) = nonzero (parse_u8 (trim v))

-- The static's value, and the variable SQEX_ENVELOPE_VERSION where it is set.
unfoldable pub envelope_version : ℕ → Option Text → Option ℕ
unfolding from_env
envelope_version setting env = if setting == 0 then from_env env else some setting

-- The fields of squic's `Config` that the client sets; the others are its defaults. Times are in
-- seconds.
pub record SquicConfig : Type 0 where
  pub alpn_protocols : List (List ℕ)
  pub keep_alive : Option ℕ
  pub handshake_timeout : Option ℕ
  pub client_key : Option Text
  pub advertise_identity : Bool
  pub enable_datagrams : Bool
  pub envelope_version : ℕ

module _ (defaults : SquicConfig) where
  -- The configuration of `connect`.
  unfoldable pub connect_config : SquicConfig
  connect_config = record defaults {
    alpn_protocols = codes "h3" ∷ [];
    keep_alive = some 15;
    handshake_timeout = some 5;
  }

  -- The configuration of `connect_as`; the seed goes through `hex::encode`.
  unfoldable pub connect_as_config : (List ℕ → Text) → List ℕ → SquicConfig
  connect_as_config hex_encode seed = record defaults {
    alpn_protocols = codes "h3" ∷ [];
    keep_alive = some 15;
    handshake_timeout = some 5;
    client_key = some (hex_encode seed);
    advertise_identity = true;
    enable_datagrams = true;
  }

-- The override at the head of `dial`.
unfoldable pub dial_config : Option ℕ → SquicConfig → SquicConfig
dial_config (some v) config = record config { envelope_version = v }
dial_config none config = config

-- The crates `http`, `h3`, `squic` and `quinn`. A chunk of a body is a `Buf`: its contiguous parts in
-- order.
pub record Http : Type 1 where
  pub World : Type 0
  pub Address : Type 0
  pub Quic : Type 0
  pub Sender : Type 0
  pub Request : Type 0
  pub RequestStream : Type 0
  pub dial : Address → List ℕ → SquicConfig → Act World Quic
  pub h3_new : Quic → Act World Sender
  pub build : Text → Text → Result Request Text
  pub send_request : Sender → Request → Act World RequestStream
  pub send_data : RequestStream → List ℕ → Act World (Unit {0})
  pub finish : RequestStream → Act World (Unit {0})
  pub recv_response : RequestStream → Act World ℕ
  pub recv_data : RequestStream → Act World (Option (List (List ℕ)))
  pub send_datagram : Quic → List ℕ → Act World (Unit {0})
  pub read_datagram : Quic → Act World (List ℕ)
  pub max_datagram_size : Quic → World → Option ℕ

module _ (H : Http) where
  -- `Client`, but for its driver task.
  pub record Client : Type 0 where
    pub send : H.Sender
    pub conn : H.Quic

  -- `dial`, with the envelope version that is in force.
  unfoldable pub dial : Option ℕ → H.Address → List ℕ → SquicConfig → Act H.World Client
  dial version addr server_pub config = do
    conn ←
        rename (λ e. codes "connect: " ++ e) (H.dial addr server_pub (dial_config version config))
    send ← rename (λ e. codes "h3 setup: " ++ e) (H.h3_new conn)
    pure (record { send = send; conn = conn })

  -- `while chunk.remaining() > 0 { … }`
  unfoldable pub drain : List (List ℕ) → List ℕ → List ℕ
  drain [] out = out
  drain (part ∷ chunk) out = drain chunk (out ++ part)

  unfoldable pub send_body : H.RequestStream → Option (List ℕ) → Act H.World (Unit {0})
  send_body stream none = pure tt
  send_body stream (some b) = H.send_data stream b

  -- `Requests::request` up to the response's head.
  unfoldable pub open_request :
      H.Sender → Text → Text → Option (List ℕ) → Act H.World (ℕ × H.RequestStream)
  unfolding send_body
  open_request send method path body = do
    req ← lift (H.build method (codes "https://sqex" ++ path))
    stream ← H.send_request send req
    send_body stream body
    H.finish stream
    status ← H.recv_response stream
    pure (status, stream)

  -- `while let Some(chunk) = stream.recv_data().await? { … }`, on fuel: `none` where it runs out.
  unfoldable pub read_body :
      ℕ → H.RequestStream → List ℕ → H.World → Option (Result (List ℕ) Text × H.World)
  unfolding drain
  read_body zero stream out w = none
  read_body (suc fuel) stream out w = elim ((H.recv_data stream w).0) [
    | err e ↦ some (err e, (H.recv_data stream w).1)
    | ok none ↦ some (ok out, (H.recv_data stream w).1)
    | ok (some chunk) ↦ read_body fuel stream (drain chunk out) (H.recv_data stream w).1
  ]

  unfoldable pub with_status :
      ℕ → Option (Result (List ℕ) Text × H.World) → Option (Result (ℕ × List ℕ) Text × H.World)
  with_status status none = none
  with_status status (some (ok body, w)) = some (ok (status, body), w)
  with_status status (some (err e, w)) = some (err e, w)

  unfoldable pub respond :
      ℕ → Result (ℕ × H.RequestStream) Text × H.World → Option (Result (ℕ × List ℕ) Text × H.World)
  unfolding with_status
  respond fuel (err e, w) = some (err e, w)
  respond fuel (ok (status, stream), w) = with_status status (read_body fuel stream [] w)

  -- `Requests::request`
  unfoldable pub request :
      ℕ
      → H.Sender
      → Text
      → Text
      → Option (List ℕ)
      → H.World
      → Option (Result (ℕ × List ℕ) Text × H.World)
  unfolding respond
  request fuel send method path body w = respond fuel (open_request send method path body w)
