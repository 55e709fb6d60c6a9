-- ===== src/Card/Loops.antt =====
-- crates/sqnr/src/card.rs: the two nested loops of `card_loop`, as they are written.
use sqnr.Base.{true, false, ◌≡◌, refl, ap, none, some, List, [], ◌∷◌, Result, ok, err}
use sqnr.Text.Utf8.{Text}
use sqnr.Card

module _ (D : Card.Device) where
  -- The replies that were sent, and the thread where the channel is closed.
  abbrev pub Out : Type 0
  Out = List Card.Reply × Card.Thread D

  pushed : Card.Reply → Out → Out
  pushed reply (replies, t) = (reply ∷ replies, t)

  -- What follows a request with a card open: the inner loop where the session is kept, else the outer.
  goes_on : Card.Handled D → (D.World → Out) → (D.World → Out) → Out
  unfolding pushed
  goes_on (reply, true, w) inner outer = pushed reply (inner w)
  goes_on (reply, false, w) inner outer = pushed reply (outer w)

  -- What follows the `open` for a first request.
  begun :
      Card.Req
      → Result D.Connection Text × D.World
      → (D.Connection → D.World → Out)
      → (D.World → Out)
      → Out
  unfolding pushed goes_on
  begun first (ok c, w) inner outer = goes_on (Card.handle_req D c first w) (inner c) outer
  begun first (err e, w) inner outer = pushed (Card.reply_err first e) (outer w)

  -- `outer_loop` waits for a request with no card open, `inner_loop` with one. The requests are those
  -- that arrive until the channel is closed.
  unfoldable mutual
    unfolding begun goes_on

    pub outer_loop : List Card.Req → D.World → Out
    outer_loop [] w = ([], (none, w))
    outer_loop (first ∷ reqs) w =
        begun first (Card.open_card D w) (λ c. inner_loop c reqs) (outer_loop reqs)

    pub inner_loop : D.Connection → List Card.Req → D.World → Out
    inner_loop c [] w = ([], (some c, w))
    inner_loop c (req ∷ reqs) w =
        goes_on (Card.handle_req D c req w) (inner_loop c reqs) (outer_loop reqs)

  -- The rounds are those of `card_loop`, whatever they start from.
  AsRounds : List Card.Req → Type 0
  AsRounds reqs =
      ((w : D.World) → outer_loop reqs w ≡ Card.card_loop D reqs (none, w))
      × ((c : D.Connection) (w : D.World) → inner_loop c reqs w ≡ Card.card_loop D reqs (some c, w))

  first_then : List Card.Req → Card.Reply × Card.Thread D → Out
  first_then reqs (reply, t) = pushed reply (Card.card_loop D reqs t)

  goes_on-held :
      (c : D.Connection) (reqs : List Card.Req) (h : Card.Handled D)
      → AsRounds reqs
      → goes_on h (inner_loop c reqs) (outer_loop reqs) ≡ first_then reqs (Card.held D c h)
  unfolding goes_on first_then Card.held AsRounds
  goes_on-held c reqs (reply, true, w) ih = ap (pushed reply) (ih.1 c w)
  goes_on-held c reqs (reply, false, w) ih = ap (pushed reply) (ih.0 w)

  begun-opened :
      (first : Card.Req) (reqs : List Card.Req) (r : Result D.Connection Text × D.World)
      → AsRounds reqs
      → begun first r (λ c. inner_loop c reqs) (outer_loop reqs)
        ≡ first_then reqs (Card.opened D first r)
  unfolding begun first_then Card.opened AsRounds
  begun-opened first reqs (ok c, w) ih = goes_on-held c reqs (Card.handle_req D c first w) ih
  begun-opened first reqs (err e, w) ih = ap (pushed (Card.reply_err first e)) (ih.0 w)

  loops-AsRounds : (reqs : List Card.Req) → AsRounds reqs
  unfolding AsRounds outer_loop inner_loop Card.card_loop Card.turn first_then pushed
  loops-AsRounds [] = (λ w. refl, λ c w. refl)
  loops-AsRounds (req ∷ reqs) =
      let ih = loops-AsRounds reqs in
      (
        λ w. begun-opened req reqs (Card.open_card D w) ih,
        λ c w. goes_on-held c reqs (Card.handle_req D c req w) ih,
      )

  -- The two nested loops of the thread, on any requests and from any card, send the replies and end
  -- in the state that one `turn` for each request gives, starting with no connection.
  pub outer_loop-card_loop :
      (reqs : List Card.Req) (w : D.World) → outer_loop reqs w ≡ Card.card_loop D reqs (none, w)
  unfolding AsRounds
  outer_loop-card_loop reqs w = (loops-AsRounds reqs).0 w
