-- ===== src/Files.antt =====
-- crates/rest/ras-file-core/src/lib.rs. A status is its number.
pub mod Filename
pub mod Disposition
pub mod Download
pub mod Incoming
pub mod Examples
use rust_api_stack.Base.{ℕ}
use rust_api_stack.Base.Text.{Text, codes}

pub data FileError : Type 0 where
  bad_request : Text → FileError
  unauthorized : FileError
  forbidden : FileError
  unsupported_media_type : Text → FileError
  payload_too_large : FileError
  not_found : FileError
  conflict : Text → FileError
  precondition_failed : Text → FileError
  upload_failed : Text → FileError
  download_failed : Text → FileError
  handler_contract : Text → FileError
  internal : FileError

unfoldable pub status : FileError → ℕ
status (bad_request message) = 400
status unauthorized = 401
status forbidden = 403
status (unsupported_media_type message) = 415
status payload_too_large = 413
status not_found = 404
status (conflict message) = 409
status (precondition_failed message) = 412
status (upload_failed message) = 400
status (download_failed message) = 500
status (handler_contract message) = 400
status internal = 500

unfoldable pub client_message : FileError → Text
client_message (bad_request message) = message
client_message unauthorized = codes "Authentication required"
client_message forbidden = codes "Forbidden"
client_message (unsupported_media_type message) = message
client_message payload_too_large = codes "Payload too large"
client_message not_found = codes "File not found"
client_message (conflict message) = message
client_message (precondition_failed message) = message
client_message (upload_failed message) = codes "Upload failed"
client_message (download_failed message) = codes "Internal server error"
client_message (handler_contract message) = message
client_message internal = codes "Internal server error"
