-- ===== src/Client/Total.antt =====
-- crates/sqnr/src/client.rs: the end of requests, and requests as total functions for the flow.
use sqnr.Base.{
  ℕ, zero, suc, ◌<◌, ◌≡◌, refl, ap, Option, none, some, List, [], Result, ok, err, arith,
}
use sqnr.Text.Utf8.{Text, codes}
use sqnr.Effect.{Act}
use sqnr.Client.{Http, Client, drain, open_request, read_body, respond, with_status, request}
use sqnr.Flow

-- What holds of a server that ends its responses: a chunk that is received leaves less to come.
pub record IsFinite (H : Http) : Type 0 where
  pub left : H.World → ℕ
  pub falls :
      (s : H.RequestStream) (w v : H.World) (chunk : List (List ℕ))
      → H.recv_data s w ≡ (ok (some chunk), v)
      → left v < left w

module _ (H : Http) (fin : IsFinite H) where
  round_ends :
      (fuel : ℕ) (s : H.RequestStream) (out : List ℕ) (w : H.World)
      (x : Result (Option (List (List ℕ))) Text)
      → ((out : List ℕ) (v : H.World)
          → fin.left v < fuel
          → (y : Result (List ℕ) Text × H.World) × (read_body H fuel s out v ≡ some y))
      → fin.left w < suc fuel
      → (H.recv_data s w).0 ≡ x
      → (y : Result (List ℕ) Text × H.World) × (read_body H (suc fuel) s out w ≡ some y)
  unfolding read_body
  round_ends fuel s out w (err e) ih h q = ((err e, (H.recv_data s w).1), rw (q, read_body))
  round_ends fuel s out w (ok none) ih h q = ((ok out, (H.recv_data s w).1), rw (q, read_body))
  round_ends fuel s out w (ok (some chunk)) ih h q =
      let v : H.World = (H.recv_data s w).1 in
      let less : fin.left v < fin.left w = fin.falls s w v chunk (λ i. (q i, v)) in
      let (y, e) = ih (drain H chunk out) v (omega (arith, less, h)) in (y, rw (q, read_body) e)

  -- The loop ends before its fuel does.
  pub read_body_ends :
      (fuel : ℕ) (s : H.RequestStream) (out : List ℕ) (w : H.World)
      → fin.left w < fuel
      → (y : Result (List ℕ) Text × H.World) × (read_body H fuel s out w ≡ some y)
  read_body_ends zero s out w h = absurd (omega arith)
  read_body_ends (suc fuel) s out w h =
      round_ends fuel s out w (H.recv_data s w).0 (read_body_ends fuel s) h refl

  with_status_ends :
      (status : ℕ) (x : Option (Result (List ℕ) Text × H.World))
      (y : Result (List ℕ) Text × H.World)
      → x ≡ some y
      → (z : Result (ℕ × List ℕ) Text × H.World) × (with_status H status x ≡ some z)
  unfolding with_status
  with_status_ends status x (ok body, w) e = ((ok (status, body), w), ap (with_status H status) e)
  with_status_ends status x (err m, w) e = ((err m, w), ap (with_status H status) e)

  respond_ends :
      (fuel : ℕ) (x : Result (ℕ × H.RequestStream) Text × H.World)
      → fin.left x.1 < fuel
      → (y : Result (ℕ × List ℕ) Text × H.World) × (respond H fuel x ≡ some y)
  unfolding respond with_status
  respond_ends fuel (err e, w) h = (_, refl)
  respond_ends fuel (ok (status, s), w) h =
      let (y, e) = read_body_ends fuel s [] w h in with_status_ends status _ y e

  -- A request ends: with a response or an error, given fuel for what the server has left to send when
  -- the response begins.
  pub request_ends :
      (fuel : ℕ) (send : H.Sender) (method path : Text) (body : Option (List ℕ)) (w : H.World)
      → fin.left (open_request H send method path body w).1 < fuel
      → (y : Result (ℕ × List ℕ) Text × H.World) × (request H fuel send method path body w ≡ some y)
  unfolding request
  request_ends fuel send method path body w h = respond_ends fuel _ h

  -- The fuel that is enough.
  abbrev pub enough : H.Sender → Text → Text → Option (List ℕ) → H.World → ℕ
  enough send method path body w = suc (fin.left (open_request H send method path body w).1)

  -- A request with enough fuel.
  pub whole_request : H.Sender → Text → Text → Option (List ℕ) → Act H.World (ℕ × List ℕ)
  whole_request send method path body w =
      (request_ends (enough send method path body w) send method path body w (omega arith)).0

  pub request-whole_request :
      (send : H.Sender) (method path : Text) (body : Option (List ℕ)) (w : H.World)
      → request H (enough send method path body w) send method path body w
        ≡ some (whole_request send method path body w)
  unfolding whole_request
  request-whole_request send method path body w =
      (request_ends (enough send method path body w) send method path body w (omega arith)).1

  -- `Client`, as the flow uses it.
  abbrev pub over_http : Client H → Flow.Client
  over_http c = record {
    Net = H.World;
    get = λ path. whole_request c.send (codes "GET") path none;
    post = λ path body. whole_request c.send (codes "POST") path (some body);
  }
