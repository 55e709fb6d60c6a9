-- ===== src/Client/Streams.antt =====
-- crates/sqnr/src/client.rs: connecting, streams that are read over time, datagrams, and the
-- handles of `Client` and `Requests`.
use sqnr.Base.{ℕ, Option, none, some, List, [], ◌∷◌, ◌++◌, Result}
use sqnr.Text.Utf8.{Text, codes}
use sqnr.Effect.{Act, pure, lift, rename, ◌>>=◌, ◌>>◌}
use sqnr.Client.{Http, Client, SquicConfig, connect_config, connect_as_config, dial, drain, request}

module _ (H : Http) (defaults : SquicConfig) where
  -- `Client::connect`
  unfoldable pub connect : Option ℕ → H.Address → List ℕ → Act H.World (Client H)
  connect version addr server_pub = dial H version addr server_pub (connect_config defaults)

  -- `Client::connect_as`
  unfoldable pub connect_as :
      (List ℕ → Text) → Option ℕ → H.Address → List ℕ → List ℕ → Act H.World (Client H)
  connect_as hex_encode version addr server_pub seed =
      dial H version addr server_pub (connect_as_config defaults hex_encode seed)

module _ (H : Http) where
  pub record Stream : Type 0 where
    pub inner : H.RequestStream
    pub status : ℕ

  -- `if !body.is_empty() { stream.send_data(…) }`
  unfoldable pub send_nonempty : H.RequestStream → List ℕ → Act H.World (Unit {0})
  send_nonempty s [] = pure tt
  send_nonempty s (b ∷ bs) = H.send_data s (b ∷ bs)

  -- `Client::stream`
  unfoldable pub stream : Client H → Text → Text → List ℕ → Act H.World Stream
  stream c method path body = do
    req ← lift (H.build method (codes "https://sqex" ++ path))
    s ← H.send_request c.send req
    send_nonempty s body
    H.finish s
    status ← H.recv_response s
    pure (record { inner = s; status = status })

  -- The bytes of a chunk, where there is one.
  unfoldable pub chunk_bytes : Option (List (List ℕ)) → Option (List ℕ)
  unfolding drain
  chunk_bytes none = none
  chunk_bytes (some chunk) = some (drain H chunk [])

  -- `Stream::next`
  unfoldable pub next : Stream → Act H.World (Option (List ℕ))
  unfolding chunk_bytes
  next s = do
    chunk ← rename (λ e. codes "stream read: " ++ e) (H.recv_data s.inner)
    pure (chunk_bytes chunk)

  pub record Requests : Type 0 where
    pub send : H.Sender

  -- `Client::requests`
  unfoldable pub requests : Client H → Requests
  requests c = record { send = c.send }

  -- `Requests::get` and `Requests::post`, on fuel for the body.
  unfoldable pub requests_get :
      ℕ → Requests → Text → H.World → Option (Result (ℕ × List ℕ) Text × H.World)
  requests_get fuel q path = request H fuel q.send (codes "GET") path none

  unfoldable pub requests_post :
      ℕ → Requests → Text → List ℕ → H.World → Option (Result (ℕ × List ℕ) Text × H.World)
  requests_post fuel q path body = request H fuel q.send (codes "POST") path (some body)

  -- `Client::request`
  unfoldable pub client_request :
      ℕ
      → Client H
      → Text
      → Text
      → Option (List ℕ)
      → H.World
      → Option (Result (ℕ × List ℕ) Text × H.World)
  client_request fuel c method path body = request H fuel (requests c).send method path body

  -- `Client::get` and `Client::post`
  unfoldable pub get : ℕ → Client H → Text → H.World → Option (Result (ℕ × List ℕ) Text × H.World)
  get fuel c path = client_request fuel c (codes "GET") path none

  unfoldable pub post :
      ℕ → Client H → Text → List ℕ → H.World → Option (Result (ℕ × List ℕ) Text × H.World)
  post fuel c path body = client_request fuel c (codes "POST") path (some body)

  -- `Client::send_datagram`
  unfoldable pub send_datagram : Client H → List ℕ → Act H.World (Unit {0})
  send_datagram c payload =
      rename (λ e. codes "send datagram: " ++ e) (H.send_datagram c.conn payload)

  -- `Client::read_datagram`
  unfoldable pub read_datagram : Client H → Act H.World (List ℕ)
  read_datagram c = rename (λ e. codes "read datagram: " ++ e) (H.read_datagram c.conn)

  -- `Client::max_datagram_size`
  unfoldable pub max_datagram_size : Client H → H.World → Option ℕ
  max_datagram_size c = H.max_datagram_size c.conn
