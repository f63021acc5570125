-- ===== src/Sdk.antt =====
-- tako_vm/sdk/client.py: the errors of the client and what it makes of a response's status.
use tako_vm.Prelude.{
  ℕ, String, Option, none, some, Bool, true, false, ◌||◌, ◌==◌, leb, if◌then◌else◌, str_eq,
}
use tako_vm.Storage.Columns.{Value}
pub mod Submit
pub mod Timeouts

-- TransportError, ServerError with `retryable`, ClientError and MalformedResponseError.
pub data SdkError : Type 0 where
  transport_error : SdkError
  server_error : ℕ → Bool → SdkError
  client_error : ℕ → SdkError
  malformed : SdkError

-- What _request raises for a status; `none` is a response that it returns.
unfoldable pub status_error : ℕ → Option SdkError
status_error code =
    if leb 500 code
    then some (server_error code (code == 502 || code == 503 || code == 504))
    else if leb 400 code
    then some (client_error code)
    else none

-- _require_job_id, of the field `job_id` of a body.
abbrev pub require_job_id : Option Value → Option String
require_job_id (some (Value.text id)) = if str_eq id "" then none else some id
require_job_id _ = none
