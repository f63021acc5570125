-- ===== src/Server/Submission/Served.antt =====
-- tako_vm/server/app.py: what a response to execute_code_async says of the table after it.
use tako_vm.Prelude.{
  ℕ, String, Option, none, some, true, List, [], ◌∷◌, ◌≡◌, refl, sym, ap, ◌∙◌, arith, get,
  map_option, Bool-cases, inl, inr,
}
use tako_vm.Models.{Status}
use tako_vm.Models.Record.{ExecutionRecord}
use tako_vm.Storage.Columns.{Value}
use tako_vm.Storage.Records.{Table, Connection, save_record, table_after}
use tako_vm.Storage.Effects.{Statement, save, perform, perform_all}
use tako_vm.Storage.Unique.{IsUnique}
use tako_vm.Storage.Keys.{IsKeyed}
use tako_vm.Server.Queue.State.{Hashes, JobData, QueuedJob, WorkerPool, build_record}
use tako_vm.Server.Queue.Calls.{
  Raised, Result, ok, raises, queue_full, admit, submit, is_full, enqueue, new_job, reject_record,
  save_raises,
}
use tako_vm.Server.Submission.{
  ExecuteRequest, Reply, given_key, check_key, job_data, submit_new, answer,
}
use tako_vm.Server.Submission.Repeat.{IsSubmitted, check_key-repeated}
use tako_vm.Server.Submission.Accepted.{submit-IsSubmitted, rejected-IsSubmitted}
use tako_vm.Server.Submission.Endpoint.{
  accepted, error, http_of, queued_ids, Arrival, Served, checked, submission, submitted,
  execute_code_async,
}
use tako_vm.Execution.Timeouts.{Limits, validate_execution_timeout}
use tako_vm.JobTypes.Registry.{JobTypeRegistry}
use tako_vm.Texts.{codes}

-- The statements that lead from a table to another.
abbrev pub Stores : Table → Table → Type 0
Stores t u = (ss : List Statement) × (u ≡ perform_all t ss)

admit-Stores :
    (net : ℕ → Connection) (id : String) (j : QueuedJob) (queued : ExecutionRecord)
    (o : Option Raised) (p : WorkerPool)
    → Stores p.storage (admit net id j queued o p).1.storage
unfolding admit enqueue perform_all perform is_full
admit-Stores net id j queued (some e) p = ([], refl)
admit-Stores net id j queued none p = elim (Bool-cases (is_full p)) [
  | inl full ↦ (save net (reject_record queued) ∷ [], rw full refl)
  | inr room ↦ ([], rw room refl)
]

pub submit-Stores :
    (h : Hashes) (net net' : ℕ → Connection) (id : String) (d : JobData) (ip : Option String)
    (now : ℕ) (p : WorkerPool)
    → Stores p.storage (submit h net net' id d ip now p).1.storage
unfolding submit perform_all perform
submit-Stores h net net' id d ip now p =
    let j = new_job id d ip now in
    let queued = build_record h j Status.queued none none in
    let saved = save_record net p.storage queued in
    let rest =
      admit-Stores net' id j queued (save_raises saved)
        (record p { storage = table_after p.storage saved }) in
    (save net queued ∷ rest.0, rest.1)

admit_own_id :
    (net : ℕ → Connection) (id i : String) (j : QueuedJob) (queued : ExecutionRecord)
    (o : Option Raised) (p : WorkerPool)
    → (admit net id j queued o p).0 ≡ ok i
    → id ≡ i
unfolding admit is_full
admit_own_id net id i j queued (some e) p h = absurd (ground (arith, h))
admit_own_id net id i j queued none p h = elim (Bool-cases (is_full p)) [
  | inl full ↦ absurd (ground (arith, full, h))
  | inr room ↦ ground (arith, room, h)
]

submit_own_id :
    (h : Hashes) (net net' : ℕ → Connection) (id i : String) (d : JobData) (ip : Option String)
    (now : ℕ) (p : WorkerPool)
    → (submit h net net' id d ip now p).0 ≡ ok i
    → id ≡ i
unfolding submit
submit_own_id h net net' id i d ip now p e =
    let j = new_job id d ip now in
    let queued = build_record h j Status.queued none none in
    let saved = save_record net p.storage queued in
    admit_own_id net' id i j queued (save_raises saved)
      (record p { storage = table_after p.storage saved }) e

-- What a response says, where the jobs queued for it are none or the one of its identifier.
pub data Says (k f : String) (a : Arrival) (s : Served) : Type 0 where
  nothing : s.queued ≡ [] → Says k f a s
  one :
      s.queued ≡ a.id ∷ []
      → s.reply ≡ accepted (some (Value.text a.id)) (some (Value.status Status.queued))
      → IsSubmitted s.pool.storage a.id k f
      → Says k f a s

-- A response to a request whose job `i` the table has.
pub data Repeats (i : String) (a : Arrival) (s : Served) : Type 0 where
  refused : (code : ℕ) → s.queued ≡ [] → s.pool ≡ a.pool → s.reply ≡ error code → Repeats i a s
  found :
      (status : Option Value)
      → s.queued ≡ []
      → s.pool ≡ a.pool
      → s.reply ≡ accepted (some (Value.text i)) status
      → Repeats i a s

module _ (fingerprint : ExecuteRequest → String) (h : Hashes) (config : Limits)
    (registry : JobTypeRegistry) (r : ExecuteRequest) (a : Arrival) where
  abbrev served : Served
  served = execute_code_async fingerprint h config registry r a

  checked-Stores :
      (o : Option Reply)
      → Stores a.pool.storage (checked fingerprint h config registry r o a).pool.storage
  unfolding submit_new perform_all
  checked-Stores none =
      submit-Stores h a.net a.retry_net a.id (job_data fingerprint r a.correlation_id) a.client_ip
        a.now a.pool
  checked-Stores (some reply) = ([], refl)

  pub execute_code_async-Stores : Stores a.pool.storage served.pool.storage
  unfolding execute_code_async perform_all
  execute_code_async-Stores =
      elim (Bool-cases
        (validate_execution_timeout config registry r.timeout (map_option codes r.job_type))) [
          | inl valid ↦ rw valid (checked-Stores (check_key fingerprint r a.pool.storage))
          | inr invalid ↦ rw invalid ([], refl)
        ]

  module _ (k : String) (has_key : given_key r.idempotency_key ≡ some k) where
    by_result :
        (x : Result String)
        → get a.pool.storage a.id ≡ none
        → (submitted fingerprint h config registry r a).0 ≡ x
        → Says k (fingerprint r) a (submission fingerprint h config registry r a)
    unfolding submit_new
    by_result (ok i) fresh e =
        let own : (submitted fingerprint h config registry r a).0 ≡ ok a.id =
          e
          ∙ ap ok (
              sym (
                submit_own_id h a.net a.retry_net a.id i (job_data fingerprint r a.correlation_id)
                  a.client_ip a.now a.pool e)) in
        one (ap queued_ids own)
          (ap
            (λ x.
              http_of
                (answer fingerprint r x (submitted fingerprint h config registry r a).1.storage))
            own)
          (submit-IsSubmitted fingerprint h a.net a.retry_net a.id k r a.correlation_id a.client_ip
            a.now a.pool fresh has_key own)
    by_result (raises x) fresh e = nothing (ap queued_ids e)

    by_check :
        (o : Option Reply)
        → get a.pool.storage a.id ≡ none
        → Says k (fingerprint r) a (checked fingerprint h config registry r o a)
    by_check none fresh = by_result _ fresh refl
    by_check (some reply) fresh = nothing refl

    pub execute_code_async-Says : get a.pool.storage a.id ≡ none → Says k (fingerprint r) a served
    unfolding execute_code_async
    execute_code_async-Says fresh =
        elim (Bool-cases
          (validate_execution_timeout config registry r.timeout (map_option codes r.job_type))) [
            | inl valid ↦ rw valid (by_check (check_key fingerprint r a.pool.storage) fresh)
            | inr invalid ↦ rw invalid (nothing refl)
          ]

    pub execute_code_async-Repeats :
        (i : String)
        → IsKeyed a.pool.storage
        → IsUnique a.pool.storage
        → IsSubmitted a.pool.storage i k (fingerprint r)
        → Repeats i a served
    unfolding execute_code_async perform_all
    execute_code_async-Repeats i keyed unique stored =
        let (status, same) =
          check_key-repeated fingerprint r k has_key a.pool.storage i [] keyed unique stored in
        elim (Bool-cases
          (validate_execution_timeout config registry r.timeout (map_option codes r.job_type))) [
            | inl valid ↦ rw (valid, same) (found status refl refl refl)
            | inr invalid ↦ rw invalid (refused 422 refl refl refl)
          ]

    -- A request whose first submission met the full queue.
    pub execute_code_async-rejected :
        get a.pool.storage a.id ≡ none
        → validate_execution_timeout config registry r.timeout (map_option codes r.job_type) ≡ true
        → check_key fingerprint r a.pool.storage ≡ none
        → (submitted fingerprint h config registry r a).0 ≡ raises queue_full
        → (served.reply ≡ error 503)
          × (served.queued ≡ [])
          × IsSubmitted served.pool.storage a.id k (fingerprint r)
    unfolding execute_code_async submit_new
    execute_code_async-rejected fresh valid unknown full =
        rw (valid, unknown)
          (
            rw full refl,
            ap queued_ids full,
            rejected-IsSubmitted fingerprint h a.net a.retry_net a.id k r a.correlation_id
                a.client_ip a.now a.pool fresh has_key full,
          )

    pub execute_code_async-found :
        (i : String)
        → IsKeyed a.pool.storage
        → IsUnique a.pool.storage
        → IsSubmitted a.pool.storage i k (fingerprint r)
        → validate_execution_timeout config registry r.timeout (map_option codes r.job_type) ≡ true
        → (status : Option Value) × (served ≡ (record {
          reply = accepted (some (Value.text i)) status;
          queued = [];
          pool = a.pool;
        }))
    unfolding execute_code_async perform_all
    execute_code_async-found i keyed unique stored valid =
        let (status, same) =
          check_key-repeated fingerprint r k has_key a.pool.storage i [] keyed unique stored in
        (status, rw (valid, same) refl)
