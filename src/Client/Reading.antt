-- ===== src/Client/Reading.antt =====
-- Reading a stream to its end, beside the loop of a whole request.
use sqnr.Base.{
  ℕ, zero, suc, ◌≡◌, refl, sym, ◌∙◌, ap, Option, none, some, List, [], ◌∷◌, ◌++◌, Result, ok, err,
  map_err, append-nil, append_assoc, arith, ◌↔◌,
}
use sqnr.Text.Utf8.{Text, codes}
use sqnr.Client.{
  send_body, respond, with_status, Http, Client, drain, open_request, read_body, request,
}
use sqnr.Client.Streams.{Stream, stream, send_nonempty, next, chunk_bytes}

module _ (H : Http) where
  -- What a caller does that wants it all: `while let Some(chunk) = s.next().await? { out.extend(chunk) }`,
  -- on fuel.
  unfoldable pub read_stream :
      ℕ → Stream H → List ℕ → H.World → Option (Result (List ℕ) Text × H.World)
  read_stream zero s out w = none
  read_stream (suc fuel) s out w = elim ((next H s w).0) [
    | err e ↦ some (err e, (next H s w).1)
    | ok none ↦ some (ok out, (next H s w).1)
    | ok (some chunk) ↦ read_stream fuel s (out ++ chunk) (next H s w).1
  ]

  -- The body of a request under a method, when the stream was opened with `body`.
  abbrev pub given : List ℕ → Option (List ℕ)
  given [] = none
  given (b ∷ bs) = some (b ∷ bs)

  -- An error of the loop, as `next` words it.
  abbrev pub reworded :
      Option (Result (List ℕ) Text × H.World) → Option (Result (List ℕ) Text × H.World)
  reworded none = none
  reworded (some (r, w)) = some (map_err r (λ e. codes "stream read: " ++ e), w)

  drain_out :
      (chunk : List (List ℕ)) (out front : List ℕ)
      → drain H chunk (front ++ out) ≡ front ++ drain H chunk out
  unfolding drain
  drain_out [] out front = refl
  drain_out (part ∷ chunk) out front =
      ap (drain H chunk) (append_assoc front out part) ∙ drain_out chunk (out ++ part) front

  drain-append :
      (chunk : List (List ℕ)) (out : List ℕ) → out ++ drain H chunk [] ≡ drain H chunk out
  drain-append chunk out = sym (drain_out chunk [] out) ∙ ap (drain H chunk) (append-nil out)

  -- One round of both loops, by what is received.
  round :
      (fuel : ℕ) (s : Stream H) (out : List ℕ) (w : H.World)
      (x : Result (Option (List (List ℕ))) Text)
      → ((out : List ℕ) (v : H.World)
          → read_stream fuel s out v ≡ reworded (read_body H fuel s.inner out v))
      → (H.recv_data s.inner w).0 ≡ x
      → read_stream (suc fuel) s out w ≡ reworded (read_body H (suc fuel) s.inner out w)
  unfolding next chunk_bytes read_stream read_body
  round fuel s out w (err e) ih q = rw (q, read_stream) (rw (q, read_body))
  round fuel s out w (ok none) ih q = rw (q, read_stream) (rw (q, read_body))
  round fuel s out w (ok (some chunk)) ih q =
      rw (q, read_stream)
        (rw (q, read_body) (rw (drain-append chunk out) (ih (drain H chunk out) _)))

  -- Reading a stream to its end by `next` goes as the loop of `request`: the same bytes, the same
  -- world, and the same errors, as `next` words them.
  pub read_stream-read_body :
      (fuel : ℕ) (s : Stream H) (out : List ℕ) (w : H.World)
      → read_stream fuel s out w ≡ reworded (read_body H fuel s.inner out w)
  read_stream-read_body zero s out w = unfold read_stream read_body in refl
  read_stream-read_body (suc fuel) s out w =
      round fuel s out w (H.recv_data s.inner w).0 (read_stream-read_body fuel s) refl

  abbrev pub as_stream :
      Result (ℕ × H.RequestStream) Text × H.World → Result (Stream H) Text × H.World
  as_stream (ok (status, s), w) = (ok (record { inner = s; status = status }), w)
  as_stream (err e, w) = (err e, w)

  -- `stream` opens its request as `request` does.
  stream-open_request :
      (c : Client H) (method path : Text) (body : List ℕ) (w : H.World)
      → stream H c method path body w ≡ as_stream (open_request H c.send method path (given body) w)
  unfolding stream send_nonempty open_request send_body
  stream-open_request c method path [] w = ground arith
  stream-open_request c method path (b ∷ bs) w = ground arith

  -- A stream is opened with this status and read to its end, with these bytes.
  abbrev pub Fetches : ℕ → Client H → Text → Text → List ℕ → ℕ → List ℕ → H.World → H.World → Type 0
  Fetches fuel c method path body status bytes w w' =
      (s : Stream H) × (v : H.World) × (stream H c method path body w ≡ (ok s, v))
      × (s.status ≡ status)
      × (read_stream fuel s [] v ≡ some (ok bytes, w'))

  pub with_status-ok :
      (n status : ℕ) (x : Option (Result (List ℕ) Text × H.World)) (bytes : List ℕ) (w' : H.World)
      → with_status H n x ≡ some (ok (status, bytes), w')
      → (n ≡ status) × (x ≡ some (ok bytes, w'))
  unfolding with_status
  with_status-ok n status none bytes w' e = cc
  with_status-ok n status (some (ok body, w)) bytes w' e = ground (arith, e)
  with_status-ok n status (some (err x, w)) bytes w' e = cc

  reworded-ok :
      (x : Option (Result (List ℕ) Text × H.World)) (bytes : List ℕ) (w' : H.World)
      → reworded x ≡ some (ok bytes, w')
      → x ≡ some (ok bytes, w')
  reworded-ok none bytes w' e = e
  reworded-ok (some (ok body, w)) bytes w' e = e
  reworded-ok (some (err x, w)) bytes w' e = cc

  as_stream-ok :
      (x : Result (ℕ × H.RequestStream) Text × H.World) (s : Stream H) (v : H.World)
      → as_stream x ≡ (ok s, v)
      → x ≡ (ok (s.status, s.inner), v)
  as_stream-ok (ok (n, t), w) s v e = ground (arith, e)
  as_stream-ok (err x, w) s v e = cc

  respond-Fetches :
      (fuel : ℕ) (c : Client H) (method path : Text) (body : List ℕ) (status : ℕ) (bytes : List ℕ)
      (w w' : H.World) (x : Result (ℕ × H.RequestStream) Text × H.World)
      → open_request H c.send method path (given body) w ≡ x
      → respond H fuel x ≡ some (ok (status, bytes), w')
      → Fetches fuel c method path body status bytes w w'
  unfolding respond
  respond-Fetches fuel c method path body status bytes w w' (err e, v) q r = cc
  respond-Fetches fuel c method path body status bytes w w' (ok (n, t), v) q r =
      let (same, got) = with_status-ok n status (read_body H fuel t [] v) bytes w' r in
      let s : Stream H = record { inner = t; status = n } in
      (
        s,
        v,
        stream-open_request c method path body w ∙ ap as_stream q,
        same,
        read_stream-read_body fuel s [] v ∙ ap reworded got,
      )

  Fetches-request :
      (fuel : ℕ) (c : Client H) (method path : Text) (body : List ℕ) (status : ℕ) (bytes : List ℕ)
      (w w' : H.World)
      → Fetches fuel c method path body status bytes w w'
      → request H fuel c.send method path (given body) w ≡ some (ok (status, bytes), w')
  unfolding request respond with_status
  Fetches-request fuel c method path body status bytes w w' (s, v, opened, same, got) =
      let begun : open_request H c.send method path (given body) w ≡ (ok (s.status, s.inner), v) =
        as_stream-ok _ s v (sym (stream-open_request c method path body w) ∙ opened) in
      let read : read_body H fuel s.inner [] v ≡ some (ok bytes, w') =
        reworded-ok _ bytes w' (sym (read_stream-read_body fuel s [] v) ∙ got) in
      rw (begun, read) (ap (λ n. some (ok (n, bytes), w')) same)

  -- A whole request without a body, or with one of a byte or more, succeeds with a status and a body
  -- just where a stream, opened with the same method, path and bytes, of which there are none for no
  -- body, has that status and, read to its end, gives that body; and both leave the same world.
  pub request-stream :
      (fuel : ℕ) (c : Client H) (method path : Text) (body : List ℕ) (status : ℕ) (bytes : List ℕ)
      (w w' : H.World)
      → (request H fuel c.send method path (given body) w ≡ some (ok (status, bytes), w'))
        ↔ Fetches fuel c method path body status bytes w w'
  request-stream fuel c method path body status bytes w w' = (
    λ e. respond-Fetches fuel c method path body status bytes w w' _ refl (unfold request in e),
    Fetches-request fuel c method path body status bytes w w',
  )
