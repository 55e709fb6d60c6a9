-- ===== src/Card/Handles/Order.antt =====
-- The order of the card thread's replies, with many handles.
use sqnr.Base.{ℕ, ◌≡◌, refl, sym, ◌∙◌, ap, List, [], ◌∷◌, ◌++◌, map, append_assoc, append-nil, none}
use mathlib.Core.List.{map-append}
use sqnr.Card
use sqnr.Card.Handles.{Call, Answer, System, send, serve, idle, Run, begin, sends, serves}

-- The requests of some calls and the callers, and the replies of some answers.
abbrev pub reqs : List Call → List Card.Req
reqs = map (λ c. c.req)

abbrev pub callers : List Call → List ℕ
callers = map (λ c. c.caller)

abbrev pub replies : List Answer → List Card.Reply
replies = map (λ a. a.reply)

abbrev pub answered : List Answer → List ℕ
answered = map (λ a. a.caller)

module _ (D : Card.Device) where
  abbrev pub Outcome : Type 0
  Outcome = List Card.Reply × Card.Thread D

  -- One request more at the end.
  then_turn : Card.Req → Outcome → Outcome
  then_turn req (replies, t) = let (reply, t') = Card.turn D req t in (replies ++ (reply ∷ []), t')

  -- Replies that were sent before.
  preceded : List Card.Reply → Outcome → Outcome
  preceded before (replies, t) = (before ++ replies, t)

  card_loop-snoc :
      (reqs : List Card.Req) (req : Card.Req) (t : Card.Thread D)
      → Card.card_loop D (reqs ++ (req ∷ [])) t ≡ then_turn req (Card.card_loop D reqs t)
  unfolding then_turn preceded Card.card_loop
  card_loop-snoc [] req t = refl
  card_loop-snoc (r ∷ reqs) req t =
      ap (preceded ((Card.turn D r t).0 ∷ [])) (card_loop-snoc reqs req (Card.turn D r t).1)

  preceded-then_turn :
      (before : List Card.Reply) (req : Card.Req) (o : Outcome)
      → preceded before (then_turn req o) ≡ then_turn req (preceded before o)
  unfolding then_turn preceded
  preceded-then_turn before req (replies, t) =
      λ i. (sym (append_assoc before replies ((Card.turn D req t).0 ∷ [])) i, (Card.turn D req t).1)

  -- What was replied, with what is still to be replied to the channel, is what `card_loop` replies to
  -- all calls, in the order in which they were made.
  Settles : Card.Thread D → List Call → System D → Type 0
  Settles t sent s =
      (preceded (replies s.replied) (Card.card_loop D (reqs s.channel) s.thread)
        ≡ Card.card_loop D (reqs sent) t)
      × (answered s.replied ++ callers s.channel ≡ callers sent)

  send-Settles :
      (t : Card.Thread D) (sent : List Call) (s : System D) (c : Call)
      → Settles t sent s
      → Settles t (sent ++ (c ∷ [])) (send D c s)
  unfolding Settles send
  send-Settles t sent s c (outcome, order) =
      let last : List Call = c ∷ [] in
      (
        ap (λ x. preceded (replies s.replied) (Card.card_loop D x s.thread))
              (map-append (λ a. a.req) s.channel last)
            ∙ ap (preceded (replies s.replied)) (card_loop-snoc (reqs s.channel) c.req s.thread)
            ∙ preceded-then_turn (replies s.replied) c.req _
            ∙ ap (then_turn c.req) outcome
            ∙ sym (card_loop-snoc (reqs sent) c.req t)
            ∙ ap (λ x. Card.card_loop D x t) (sym (map-append (λ a. a.req) sent last)),
        ap (λ x. answered s.replied ++ x) (map-append (λ a. a.caller) s.channel last)
            ∙ sym (append_assoc (answered s.replied) (callers s.channel) (callers last))
            ∙ ap (λ x. x ++ callers last) order
            ∙ sym (map-append (λ a. a.caller) sent last),
      )

  serve-Settles :
      (t : Card.Thread D) (sent : List Call) (s : System D) (c : Call) (rest : List Call)
      → s.channel ≡ c ∷ rest
      → Settles t sent s
      → Settles t sent (serve D c rest s)
  unfolding Settles serve Card.card_loop preceded
  serve-Settles t sent s c rest e (outcome, order) =
      let (reply, thread) = Card.turn D c.req s.thread in
      let a : Answer = record { caller = c.caller; reply = reply } in
      (
        ap (λ x. preceded x (Card.card_loop D (reqs rest) thread))
              (map-append (λ b. b.reply) s.replied (a ∷ []))
            ∙ (λ i. (
              append_assoc (replies s.replied) (reply ∷ []) (Card.card_loop D (reqs rest) thread).0
                  i,
              (Card.card_loop D (reqs rest) thread).1,
            ))
            ∙ (rw e at outcome),
        ap (λ x. x ++ callers rest) (map-append (λ b. b.caller) s.replied (a ∷ []))
            ∙ append_assoc (answered s.replied) (c.caller ∷ []) (callers rest)
            ∙ (rw e at order),
      )

  Run-Settles :
      (w : D.World) (sent : List Call) (s : System D)
      → Run D (idle D w) sent s
      → Settles (none, w) sent s
  unfolding Settles preceded Card.card_loop
  Run-Settles w sent s begin = (refl, refl)
  Run-Settles w sent s (sends c r) = send-Settles (none, w) _ _ c (Run-Settles w _ _ r)
  Run-Settles w sent s (serves c rest e r) =
      serve-Settles (none, w) _ _ c rest e (Run-Settles w _ _ r)

  -- Whatever handles send, and whenever the thread gets to serve them: the replies so far, followed by
  -- those of `card_loop` to what waits on the channel, are the replies of `card_loop` to all requests in
  -- the order in which they were sent, and end with the thread as it does; and each caller gets the
  -- reply to its own request.
  Run-card_loop :
      (w : D.World) (sent : List Call) (s : System D)
      → Run D (idle D w) sent s
      → ((
        replies s.replied ++ (Card.card_loop D (reqs s.channel) s.thread).0,
        (Card.card_loop D (reqs s.channel) s.thread).1,
      )
          ≡ Card.card_loop D (reqs sent) (none, w))
        × (answered s.replied ++ callers s.channel ≡ callers sent)
  unfolding Settles preceded
  Run-card_loop w sent s r = Run-Settles w sent s r

  serve_all :
      (start : System D) (sent : List Call) (channel : List Call) (s : System D)
      → s.channel ≡ channel
      → Run D start sent s
      → (t : System D) × Run D start sent t
        × (t.channel ≡ [])
        × (more : List Answer) × (t.replied ≡ s.replied ++ more)
  unfolding serve
  serve_all start sent [] s e r = (s, r, e, [], sym (append-nil s.replied))
  serve_all start sent (c ∷ rest) s e r =
      let (t, run, done, more, grown) =
        serve_all start sent rest (serve D c rest s) refl (serves c rest e r) in
      (
        t,
        run,
        done,
        (record { caller = c.caller; reply = (Card.turn D c.req s.thread).0 } ∷ more),
        grown ∙ append_assoc s.replied _ more,
      )

  -- From any moment of any run, the thread can serve all that waits, with no further request: the
  -- replies that were sent stay, and then every call that was made has its reply, in order, as
  -- `card_loop` gives it.
  pub Run-served :
      (w : D.World) (sent : List Call) (s : System D)
      → Run D (idle D w) sent s
      → (t : System D) × Run D (idle D w) sent t
        × (t.channel ≡ [])
        × (more : List Answer) × (t.replied ≡ s.replied ++ more)
        × ((replies t.replied, t.thread) ≡ Card.card_loop D (reqs sent) (none, w))
        × (answered t.replied ≡ callers sent)
  unfolding Card.card_loop
  Run-served w sent s r =
      let (t, run, done, more, grown) = serve_all (idle D w) sent s.channel s refl r in
      let (outcome, order) = Run-card_loop w sent t run in
      (
        t,
        run,
        done,
        more,
        grown,
        (λ i. (sym (append-nil (replies t.replied)) i, t.thread)) ∙ (rw done at outcome),
        sym (append-nil (answered t.replied)) ∙ (rw done at order),
      )
