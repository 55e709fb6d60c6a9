-- ===== src/Card/Handles.antt =====
-- crates/sqnr/src/card.rs: many handles on one card thread. Each clone of `Card` sends its requests
-- when it likes; the thread takes them from the channel when it is free.
pub mod Order
pub mod Keeps
pub mod Signed
use sqnr.Base.{ℕ, ◌≡◌, List, [], ◌∷◌, ◌++◌}
use sqnr.Card
use sqnr.Card.Methods.{spawn}

-- A request, with the number of the call that waits for its reply.
pub record Call : Type 0 where
  pub caller : ℕ
  pub req : Card.Req

pub record Answer : Type 0 where
  pub caller : ℕ
  pub reply : Card.Reply

module _ (D : Card.Device) where
  -- The channel, the oldest request first; the thread; and the replies so far, the latest last.
  pub record System : Type 0 where
    pub channel : List Call
    pub thread : Card.Thread D
    pub replied : List Answer

  -- `self.tx.send(…)` of a call.
  unfoldable pub send : Call → System → System
  send c s = record s { channel = s.channel ++ (c ∷ []) }

  -- The thread's round for the request `c`, which leaves `rest` on the channel.
  unfoldable pub serve : Call → List Call → System → System
  serve c rest s =
      let (reply, t) = Card.turn D c.req s.thread in
      record {
        channel = rest;
        thread = t;
        replied = s.replied ++ (record { caller = c.caller; reply = reply } ∷ []);
      }

  -- `Card::spawn`
  abbrev pub idle : D.World → System
  idle w = record { channel = []; thread = spawn D w; replied = [] }

  -- What can happen, in any order: `Run s sent t` leads from `s` to `t`, and `sent` are the calls that
  -- were made on the way.
  pub data Run (s : System) : List Call → System → Type 0 where
    begin : Run s [] s
    sends :
        {sent : List Call} {t : System} (c : Call)
        → Run s sent t
        → Run s (sent ++ (c ∷ [])) (send c t)
    serves :
        {sent : List Call} {t : System} (c : Call) (rest : List Call)
        → t.channel ≡ c ∷ rest
        → Run s sent t
        → Run s sent (serve c rest t)
