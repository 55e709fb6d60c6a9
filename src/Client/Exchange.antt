-- ===== src/Client/Exchange.antt =====
-- What a request sends, and what it gets.
use sqnr.Base.{
  ℕ, zero, suc, ◌≡◌, refl, sym, ap, ◌∙◌, Option, none, some, List, [], ◌∷◌, ◌++◌, Result, ok, err,
  append-nil, append_assoc,
}
use sqnr.Text.Utf8.{Text, codes}
use sqnr.Effect.{pure, lift, >>=-eq-ok}
use sqnr.Client.{Http, drain, send_body, open_request, read_body, respond, request}
use sqnr.Client.Bodies.{Delivers, ended, chunk, flat_all, drain-flat}
use sqnr.Client.Reading.{with_status-ok}

module _ (H : Http) where
  -- The body that is sent on a stream, if there is one.
  abbrev pub Sent : H.RequestStream → Option (List ℕ) → H.World → H.World → Type 0
  Sent stream none v u = v ≡ u
  Sent stream (some body) v u = H.send_data stream body v ≡ (ok tt, u)

  -- A request for `https://sqex` with this path: it is built under the method, begun on a stream of its
  -- own, its body is sent and its end; and the response begins with the status.
  pub record Opened (send : H.Sender) (method path : Text) (body : Option (List ℕ)) (w : H.World)
      (status : ℕ) (stream : H.RequestStream) (w' : H.World) : Type 0 where
    pub req : H.Request
    pub w1 : H.World
    pub w2 : H.World
    pub w3 : H.World
    pub builds : H.build method (codes "https://sqex" ++ path) ≡ ok req
    pub begins : H.send_request send req w ≡ (ok stream, w1)
    pub sends : Sent stream body w1 w2
    pub finishes : H.finish stream w2 ≡ (ok tt, w3)
    pub responds : H.recv_response stream w3 ≡ (ok status, w')

  -- Such a request, to which the server sends these bytes, in chunks, and ends.
  pub record Exchange (send : H.Sender) (method path : Text) (body : Option (List ℕ)) (w : H.World)
      (status : ℕ) (bytes : List ℕ) (w' : H.World) : Type 0 where
    pub stream : H.RequestStream
    pub v : H.World
    pub chunks : List (List (List ℕ))
    pub opened : Opened send method path body w status stream v
    pub delivers : Delivers H stream v chunks (ok tt) w'
    pub holds : bytes ≡ flat_all chunks

  send_body-Sent :
      (stream : H.RequestStream) (body : Option (List ℕ)) (u : Unit {0}) (w w' : H.World)
      → send_body H stream body w ≡ (ok u, w')
      → Sent stream body w w'
  unfolding send_body
  send_body-Sent stream none u w w' e = ap (λ x. x.1) e
  send_body-Sent stream (some body) u w w' e = e

  -- What the loop returned is what the stream delivered.
  round-Delivers :
      (fuel : ℕ) (stream : H.RequestStream) (out bytes : List ℕ) (w w' : H.World)
      (x : Result (Option (List (List ℕ))) Text)
      → ((out : List ℕ) (v : H.World)
          → read_body H fuel stream out v ≡ some (ok bytes, w')
          → (chunks : List (List (List ℕ))) × Delivers H stream v chunks (ok tt) w'
            × (bytes ≡ out ++ flat_all chunks))
      → (H.recv_data stream w).0 ≡ x
      → read_body H (suc fuel) stream out w ≡ some (ok bytes, w')
      → (chunks : List (List (List ℕ))) × Delivers H stream w chunks (ok tt) w'
        × (bytes ≡ out ++ flat_all chunks)
  unfolding read_body
  round-Delivers fuel stream out bytes w w' (err x) ih q e = cc (rw (q, read_body) at e)
  round-Delivers fuel stream out bytes w w' (ok none) ih q e =
      let done : ◌≡◌ {A = Option (Result (List ℕ) Text × H.World)}
          (some (ok out, (H.recv_data stream w).1)) (some (ok bytes, w')) =
        rw (q, read_body) at e in
      let same : out ≡ bytes = cc in
      let there : (H.recv_data stream w).1 ≡ w' = cc in
      ([], ended (λ i. (q i, there i)), sym same ∙ sym (append-nil out))
  round-Delivers fuel stream out bytes w w' (ok (some c)) ih q e =
      let (chunks, rest, same) =
        ih (drain H c out) (H.recv_data stream w).1 (rw (q, read_body) at e) in
      (
        c ∷ chunks,
        chunk c (λ i. (q i, (H.recv_data stream w).1)) rest,
        same ∙ ap (λ x. x ++ flat_all chunks) (drain-flat H c out) ∙ append_assoc out _ _,
      )

  read_body-inv :
      (fuel : ℕ) (stream : H.RequestStream) (out bytes : List ℕ) (w w' : H.World)
      → read_body H fuel stream out w ≡ some (ok bytes, w')
      → (chunks : List (List (List ℕ))) × Delivers H stream w chunks (ok tt) w'
        × (bytes ≡ out ++ flat_all chunks)
  unfolding read_body
  read_body-inv zero stream out bytes w w' e = cc
  read_body-inv (suc fuel) stream out bytes w w' e =
      round-Delivers fuel stream out bytes w w' (H.recv_data stream w).0
        (λ out v. read_body-inv fuel stream out bytes v w') refl e

  open_request-moved :
      (send : H.Sender) (method path : Text) (body : Option (List ℕ)) (m n : ℕ)
      (stream s : H.RequestStream) (w u v : H.World)
      → pure {A = ℕ × H.RequestStream} (m, stream) u ≡ (ok (n, s), v)
      → Opened send method path body w m stream u
      → Opened send method path body w n s v
  open_request-moved send method path body m n stream s w u v e h =
      let same : m ≡ n = cc in
      let here : stream ≡ s = cc in let there : u ≡ v = cc in rw (same, here, there) at h

  open_request-Opened :
      (send : H.Sender) (method path : Text) (body : Option (List ℕ)) (n : ℕ) (s : H.RequestStream)
      (w v : H.World)
      → open_request H send method path body w ≡ (ok (n, s), v)
      → Opened send method path body w n s v
  unfolding open_request
  open_request-Opened send method path body n s w v q =
      let (req, v1, built, r1) =
        >>=-eq-ok (lift (H.build method (codes "https://sqex" ++ path))) _ {w = w} q in
      let (stream, v2, begun, r2) = >>=-eq-ok (H.send_request send req) _ {w = v1} r1 in
      let (u, v3, sent, r3) = >>=-eq-ok (send_body H stream body) _ {w = v2} r2 in
      let (u', v4, finished, r4) = >>=-eq-ok (H.finish stream) _ {w = v3} r3 in
      let (m, v5, responded, r5) =
        >>=-eq-ok (H.recv_response stream) (λ m. pure (m, stream)) {w = v4} r4 in
      open_request-moved send method path body m n stream s w v5 v r5 (record {
        req = req;
        w1 = v2;
        w2 = v3;
        w3 = v4;
        builds = ap (λ x. x.0) built;
        begins = ap (λ x. H.send_request send req x) (ap (λ x. x.1) built) ∙ begun;
        sends = send_body-Sent stream body u v2 v3 sent;
        finishes = finished;
        responds = responded;
      })

  respond-Exchange :
      (fuel : ℕ) (send : H.Sender) (method path : Text) (body : Option (List ℕ)) (status : ℕ)
      (bytes : List ℕ) (w w' : H.World) (x : Result (ℕ × H.RequestStream) Text × H.World)
      → open_request H send method path body w ≡ x
      → respond H fuel x ≡ some (ok (status, bytes), w')
      → Exchange send method path body w status bytes w'
  unfolding respond
  respond-Exchange fuel send method path body status bytes w w' (err x, v) q e = cc
  respond-Exchange fuel send method path body status bytes w w' (ok (n, s), v) q e =
      let (same, read) = with_status-ok H n status (read_body H fuel s [] v) bytes w' e in
      let (chunks, delivers, holds) = read_body-inv fuel s [] bytes v w' read in
      record {
        stream = s;
        v = v;
        chunks = chunks;
        opened = rw same at (open_request-Opened send method path body n s w v q);
        delivers = delivers;
        holds = holds;
      }

  -- A request that succeeds, with any fuel, went as the description says.
  pub request-Exchange :
      (fuel : ℕ) (send : H.Sender) (method path : Text) (body : Option (List ℕ)) (status : ℕ)
      (bytes : List ℕ) (w w' : H.World)
      → request H fuel send method path body w ≡ some (ok (status, bytes), w')
      → Exchange send method path body w status bytes w'
  unfolding request
  request-Exchange fuel send method path body status bytes w w' e =
      respond-Exchange fuel send method path body status bytes w w' _ refl e
