-- ===== src/Card/Handles/Signed.antt =====
-- One PIN, and the signatures that many handles ask for.
use sqnr.Base.{ℕ, List}
use sqnr.Text.Utf8.{Text}
use sqnr.Card
use sqnr.Card.Handles.{Call}

-- A caller, and the message that it wants signed.
abbrev pub Asked : Type 0
Asked = ℕ × List ℕ

abbrev pub sign_call : Asked → Call
sign_call (caller, msg) = record { caller = caller; req = Card.Req.sign msg }

abbrev pub unlock_call : ℕ → Text → Call
unlock_call caller pin = record { caller = caller; req = Card.Req.unlock pin }
