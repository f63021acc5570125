-- ===== src/Sdk/Submit.antt =====
-- tako_vm/sdk/client.py: submit_code, with the server that its requests reach.
use tako_vm.Prelude.{
  ℕ, zero, suc, ◌*◌, ◌^◌, ◌+◌, min, String, Option, none, some, Bool, true, false, List, [], ◌∷◌,
  ◌++◌, if◌then◌else◌, str_eq,
}
use tako_vm.Sdk.{
  SdkError, transport_error, server_error, client_error, malformed, status_error, require_job_id,
}
use tako_vm.Server.Queue.State.{Hashes, WorkerPool}
use tako_vm.Server.Submission.{ExecuteRequest}
use tako_vm.Server.Submission.Endpoint.{
  HttpReply, accepted, error, Arrival, Served, execute_code_async,
}
use tako_vm.Execution.Timeouts.{Limits}
use tako_vm.JobTypes.Registry.{JobTypeRegistry}
pub mod Answers
pub mod Once

-- How a request fares: it does not reach the server, its answer does not reach the client, the answer
-- arrives, or something before the application answers with a status.
pub data Delivery : Type 0 where
  lost unanswered answered : Delivery
  turned_away : ℕ → Delivery

-- An attempt and what it would meet at the server.
pub record Attempt : Type 0 where
  pub delivery : Delivery
  pub arrival : Arrival

-- The end of submit_code: a job id or an exception.
pub data Answer : Type 0 where
  job_id : String → Answer
  raises : SdkError → Answer

-- `idempotency_key or f"sdk-{…}"`
abbrev pub key_or : Option String → String → String
key_or none generated = generated
key_or (some k) generated = if str_eq k "" then generated else k

-- The delay after an attempt in milliseconds: SUBMIT_BACKOFF_INITIAL and SUBMIT_BACKOFF_CAP.
unfoldable pub backoff : ℕ → ℕ
backoff attempt = min (500 * 2 ^ attempt) 8000

-- TransportError and a retryable ServerError are tried again.
abbrev pub is_retried : SdkError → Bool
is_retried transport_error = true
is_retried (server_error code retryable) = retryable
is_retried (client_error code) = false
is_retried malformed = false

abbrev pub id_or_malformed : Option String → Answer
id_or_malformed none = raises malformed
id_or_malformed (some id) = job_id id

abbrev pub error_or_malformed : Option SdkError → Answer
error_or_malformed none = raises malformed
error_or_malformed (some e) = raises e

abbrev pub answer_of : HttpReply → Answer
answer_of (accepted id status) = id_or_malformed (require_job_id id)
answer_of (error code) = error_or_malformed (status_error code)

-- The end of the whole call, the jobs that the server queued for it, and the milliseconds slept.
pub record Submission : Type 0 where
  pub answer : Answer
  pub queued : List String
  pub slept : ℕ

abbrev pub received : Delivery → HttpReply → Answer
received lost reply = raises transport_error
received unanswered reply = raises transport_error
received (turned_away code) reply = answer_of reply
received answered reply = answer_of reply

-- An answer that ends the loop, or one after which it goes on if attempts are left.
abbrev pub after_answer : Answer → List String → (left n : ℕ) → Submission → Submission
after_answer (job_id id) queued left n next = record {
  answer = job_id id;
  queued = queued;
  slept = 0;
}
after_answer (raises e) queued zero n next = record {
  answer = raises e;
  queued = queued;
  slept = 0;
}
after_answer (raises e) queued (suc left) n next =
    if is_retried e
    then record {
      answer = next.answer;
      queued = queued ++ next.queued;
      slept = backoff n + next.slept;
    }
    else record { answer = raises e; queued = queued; slept = 0 }

module _ (fingerprint : ExecuteRequest → String) (h : Hashes) (config : Limits)
    (registry : JobTypeRegistry) (r : ExecuteRequest) where
  -- What an attempt comes to at the server.
  abbrev pub reached : Delivery → Arrival → Served
  reached lost a = record { reply = error 0; queued = []; pool = a.pool }
  reached (turned_away code) a = record { reply = error code; queued = []; pool = a.pool }
  reached unanswered a = execute_code_async fingerprint h config registry r a
  reached answered a = execute_code_async fingerprint h config registry r a

  -- The attempts from `n` on, of the SUBMIT_MAX_ATTEMPTS, of which `left` may follow it.
  unfoldable pub submit_from : (ℕ → Attempt) → (left n : ℕ) → Submission
  unfolding execute_code_async status_error backoff
  submit_from attempts zero n =
      let a = attempts n in
      let s = reached a.delivery a.arrival in
      after_answer (received a.delivery s.reply) s.queued zero n
        (record { answer = raises malformed; queued = []; slept = 0 })
  submit_from attempts (suc left) n =
      let next = submit_from attempts left (suc n) in
      let a = attempts n in
      let s = reached a.delivery a.arrival in
      after_answer (received a.delivery s.reply) s.queued (suc left) n next

-- The request that _execute_payload makes: an empty list of requirements is left out.
abbrev given_requirements : Option String → Option String
given_requirements none = none
given_requirements (some rs) = if str_eq rs "[]" then none else some rs

unfoldable pub execute_payload : ExecuteRequest → String → ExecuteRequest
execute_payload r generated = record r {
  requirements = given_requirements r.requirements;
  idempotency_key = some (key_or r.idempotency_key generated);
}

-- `generated` is the key that uuid4 gives.
unfoldable pub submit_code :
    (ExecuteRequest → String)
    → Hashes
    → Limits
    → JobTypeRegistry
    → ExecuteRequest
    → String
    → (ℕ → Attempt)
    → Submission
unfolding submit_from execute_payload
submit_code fingerprint h config registry r generated attempts =
    submit_from fingerprint h config registry (execute_payload r generated) attempts 2 0
