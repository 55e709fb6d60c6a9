-- ===== src/Core/Error.antt =====
-- crates/sqnr-core/src/error.rs: the one error type, and its `Display`.
use sqnr.Base.{◌++◌}
use sqnr.Text.Utf8.{Text, codes}

pub data Error : Type 0 where
  key : Text → Error
  malformed : Text → Error
  bad_signature : Error
  bad_challenge : Error
  wrong_server : Error
  not_admin : Error

-- What `thiserror` derives from the `#[error]` attributes.
unfoldable pub display : Error → Text
display (key s) = codes "key: " ++ s
display (malformed s) = codes "malformed message: " ++ s
display bad_signature = codes "signature verification failed"
display bad_challenge = codes "challenge invalid or expired"
display wrong_server = codes "command was not addressed to this server"
display not_admin = codes "signer is not an authorized administrator"
