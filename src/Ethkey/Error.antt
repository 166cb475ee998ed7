-- ===== src/Ethkey/Error.antt =====
-- ethkey/src/error.rs: the errors of the key library.
use Prim.Native.String.{String, ◌++◌}
use mm2_parity_ethereum.Crates.Secp.{SecpError}

pub data Error : Type 0 where
  invalid_secret invalid_public invalid_address invalid_signature invalid_message : Error
  -- An I/O error is the text that it displays.
  io custom : String → Error

unfoldable pub message : Error → String
message Error.invalid_secret = "Invalid secret"
message Error.invalid_public = "Invalid public"
message Error.invalid_address = "Invalid address"
message Error.invalid_signature = "Invalid EC signature"
message Error.invalid_message = "Invalid AES message"
message (Error.io text) = "I/O error: " ++ text
message (Error.custom s) = s

unfoldable pub display : Error → String
unfolding message
display e = "Crypto error (" ++ message e ++ ")"

-- `From<secp256k1::Error>`
unfoldable pub from_secp : SecpError → Error
from_secp SecpError.invalid_message = Error.invalid_message
from_secp SecpError.invalid_public_key = Error.invalid_public
from_secp SecpError.invalid_secret_key = Error.invalid_secret
from_secp SecpError.other = Error.invalid_signature

-- `From<std::io::Error>`, of the text that the error displays.
unfoldable pub from_io : String → Error
from_io text = Error.io text

-- `error::Error`
unfoldable pub description : Error → String
description e = "Crypto error"
