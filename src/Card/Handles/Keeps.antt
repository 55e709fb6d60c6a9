-- ===== src/Card/Handles/Keeps.antt =====
-- What every round of the card thread keeps, any run with many handles keeps.
use sqnr.Base.{◌≡◌, refl, ◌∙◌, List, [], ◌∷◌, All, All-append, All-append_left, All-append_right}
use sqnr.Card
use sqnr.Card.Methods.{spawn}
use sqnr.Card.Handles.{Call, System, Run, begin, sends, serves, send, serve, idle}
use sqnr.Card.Slot.{HasSlot, IsHarmless, turn-slot}

module _ (D : Card.Device) (P : Card.Req → Type 0) (I : Card.Thread D → Type 0)
    (keeps : (req : Card.Req) (t : Card.Thread D) → P req → I t → I (Card.turn D req t).1) where
  abbrev Asks : Call → Type 0
  Asks c = P c.req

  -- The thread is as it should be, and so is all that waits on the channel.
  record IsSound (s : System D) : Type 0 where
    thread : I s.thread
    channel : All Asks s.channel

  serve-IsSound :
      (c : Call) (rest : List Call) (s : System D)
      → s.channel ≡ c ∷ rest
      → IsSound s
      → IsSound (serve D c rest s)
  unfolding serve
  serve-IsSound c rest s e h =
      let waits : Asks c × All Asks rest = rw e at h.channel in
      record { thread = keeps c.req s.thread waits.0 h.thread; channel = waits.1 }

  Run-IsSound :
      {w : D.World} {sent : List Call} {s : System D}
      → I (spawn D w)
      → All Asks sent
      → Run D (idle D w) sent s
      → IsSound s
  unfolding send
  Run-IsSound h all begin = record { thread = h; channel = tt }
  Run-IsSound h all (sends {sent = sent} {t = t} c r) =
      let before = Run-IsSound h (All-append_left Asks sent (c ∷ []) all) r in
      record {
        thread = before.thread;
        channel =
            All-append Asks t.channel (c ∷ []) before.channel
              (All-append_right Asks sent (c ∷ []) all);
      }
  Run-IsSound h all (serves c rest e r) = serve-IsSound c rest _ e (Run-IsSound h all r)

module _ (D : Card.Device) (K : HasSlot D) where
  -- Whatever handles send, whenever the thread gets to serve them, and whatever the card answers: the
  -- key in the slot is as it was at the start, unless one of the requests is a provision with an admin
  -- PIN of 8 bytes or more that the card does not always reject.
  pub Run-slot :
      (w : D.World) (sent : List Call) (s : System D)
      → Run D (idle D w) sent s
      → All (λ c. IsHarmless D c.req) sent
      → K.slot s.thread.1 ≡ K.slot w
  Run-slot w sent s r all =
      (Run-IsSound D (IsHarmless D) (λ t. K.slot t.1 ≡ K.slot w)
        (λ req t h e. turn-slot D K req t h ∙ e) refl all r).thread
