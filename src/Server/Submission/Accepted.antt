-- ===== src/Server/Submission/Accepted.antt =====
-- tako_vm/server/app.py: the row that a submission leaves.
use tako_vm.Prelude.{
  ℕ, String, Option, none, some, [], ◌∷◌, ◌≡◌, refl, arith, str_eq, get, Bool-cases, inl, inr,
}
use tako_vm.Models.{Status}
use tako_vm.Storage.Columns.{extract}
use tako_vm.Models.Record.{ExecutionRecord}
use tako_vm.Storage.Records.{Table, Connection}
use tako_vm.Storage.Effects.{save}
use tako_vm.Server.Queue.State.{Hashes, WorkerPool, build_record}
use tako_vm.Server.Queue.Calls.{ok, raises, queue_full, submit, new_job, reject_record}
use tako_vm.Server.Queue.Admission.{submit-accepted, submit-rejected}
use tako_vm.Server.Submission.{ExecuteRequest, given_key, job_data}
use tako_vm.Server.Submission.Repeat.{IsSubmitted, perform_all-IsSubmitted}

key_of_given : (o : Option String) (k : String) → given_key o ≡ some k → o ≡ some k
key_of_given none k e = absurd (ground (arith, e))
key_of_given (some j) k e = elim (Bool-cases (str_eq j "")) [
  | inl empty ↦ absurd (ground (arith, rw empty at e))
  | inr filled ↦ rw filled at e
]

module _ (fingerprint : ExecuteRequest → String) (h : Hashes) (net net' : ℕ → Connection)
    (id k : String) (r : ExecuteRequest) (correlation_id ip : Option String) (now : ℕ)
    (p : WorkerPool) where
  abbrev queued_record : ExecutionRecord
  queued_record =
      build_record h (new_job id (job_data fingerprint r correlation_id) ip now) Status.queued none
        none

  row-IsSubmitted :
      (t : Table)
      → given_key r.idempotency_key ≡ some k
      → get t id ≡ some (extract queued_record)
      → IsSubmitted t id k (fingerprint r)
  unfolding extract build_record new_job job_data
  row-IsSubmitted t has_key here = record {
    row = extract queued_record;
    found = here;
    id_column = refl;
    key_column = rw (key_of_given r.idempotency_key k has_key) refl;
    print_column = rw has_key refl;
  }

  pub submit-IsSubmitted :
      get p.storage id ≡ none
      → given_key r.idempotency_key ≡ some k
      → (submit h net net' id (job_data fingerprint r correlation_id) ip now p).0 ≡ ok id
      → IsSubmitted
          (submit h net net' id (job_data fingerprint r correlation_id) ip now p).1.storage
          id
          k
          (fingerprint r)
  submit-IsSubmitted fresh has_key accepted =
      row-IsSubmitted _ has_key
        (submit-accepted h net net' id (job_data fingerprint r correlation_id) ip now p fresh
          accepted).2

  -- The row of a rejected submission, which has its key and fingerprint too.
  pub rejected-IsSubmitted :
      get p.storage id ≡ none
      → given_key r.idempotency_key ≡ some k
      → (submit h net net' id (job_data fingerprint r correlation_id) ip now p).0
        ≡ raises queue_full
      → IsSubmitted
          (submit h net net' id (job_data fingerprint r correlation_id) ip now p).1.storage
          id
          k
          (fingerprint r)
  rejected-IsSubmitted fresh has_key full =
      let (after, here) =
        submit-rejected h net net' id (job_data fingerprint r correlation_id) ip now p fresh full in
      rw after (
        perform_all-IsSubmitted _ (save net' (reject_record queued_record) ∷ []) id k
          (fingerprint r) (row-IsSubmitted _ has_key here))
