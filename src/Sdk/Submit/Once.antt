-- ===== src/Sdk/Submit/Once.antt =====
-- tako_vm/sdk/client.py: a submission that is retried queues one job at most.
use tako_vm.Prelude.{
  ℕ, zero, suc, String, Option, none, some, true, false, List, [], ◌∷◌, ◌≡◌, refl, str_eq, get,
  map_option, Bool-cases, inl, inr,
}
use tako_vm.Sdk.{status_error}
use tako_vm.Sdk.Submit.{
  Delivery, lost, unanswered, answered, turned_away, Attempt, Answer, job_id, Submission, reached,
  received, after_answer, submit_from, submit_code, execute_payload, key_or,
}
use tako_vm.Sdk.Submit.Answers.{
  Answers, IsOnce, error-Answers, received-Answers, refusal-Answers, after-Answers, after-IsOnce,
}
use tako_vm.Storage.Records.{Table}
use tako_vm.Storage.Effects.{perform_all}
use tako_vm.Storage.Unique.{IsUnique, perform_all-IsUnique}
use tako_vm.Storage.Keys.{IsKeyed, perform_all-IsKeyed}
use tako_vm.Server.Queue.State.{Hashes}
use tako_vm.Server.Submission.{ExecuteRequest, given_key, check_key}
use tako_vm.Server.Submission.Repeat.{IsSubmitted, perform_all-IsSubmitted}
use tako_vm.Server.Submission.Endpoint.{Served, submitted, execute_code_async}
use tako_vm.Server.Submission.Served.{
  Stores, Says, nothing, one, Repeats, refused, found, execute_code_async-Stores,
  execute_code_async-Says, execute_code_async-Repeats, execute_code_async-rejected,
  execute_code_async-found,
}
use tako_vm.Execution.Timeouts.{Limits, validate_execution_timeout}
use tako_vm.Texts.{codes}
use tako_vm.Server.Queue.Calls.{queue_full, raises as queue_raises}
use tako_vm.JobTypes.Registry.{JobTypeRegistry}

module _ (fingerprint : ExecuteRequest → String) (h : Hashes) (config : Limits)
    (registry : JobTypeRegistry) (r : ExecuteRequest) where
  abbrev served : Attempt → Served
  served a = reached fingerprint h config registry r a.delivery a.arrival

  abbrev table_of : Attempt → Table
  table_of a = a.arrival.pool.storage

  -- Between two attempts other tasks may do anything that changes the table by its statements.
  abbrev pub Follows : (ℕ → Attempt) → Type 0
  Follows attempts =
      (n : ℕ) → Stores (served (attempts n)).pool.storage (table_of (attempts (suc n)))

  -- uuid4 gives an identifier that names no row.
  abbrev pub IsFresh : (ℕ → Attempt) → Type 0
  IsFresh attempts = (n : ℕ) → get (table_of (attempts n)) (attempts n).arrival.id ≡ none

  reached-Stores :
      (a : Attempt) (d : Delivery) → a.delivery ≡ d → Stores (table_of a) (served a).pool.storage
  unfolding perform_all
  reached-Stores a lost e = ([], rw e refl)
  reached-Stores a (turned_away code) e = ([], rw e refl)
  reached-Stores a unanswered e =
      rw e (execute_code_async-Stores fingerprint h config registry r a.arrival)
  reached-Stores a answered e =
      rw e (execute_code_async-Stores fingerprint h config registry r a.arrival)

  module _ (k : String) (has_key : given_key r.idempotency_key ≡ some k) (attempts : ℕ → Attempt)
      (follows : Follows attempts) (fresh : IsFresh attempts) where
    -- The table has each identifier once and each key in one row at most.
    abbrev IsTable : ℕ → Type 0
    IsTable n = IsKeyed (table_of (attempts n)) × IsUnique (table_of (attempts n))

    next-IsTable : (n : ℕ) → IsTable n → IsTable (suc n)
    next-IsTable n (keyed, unique) =
        let (ss, here) = reached-Stores (attempts n) _ refl in
        let (rest, there) = follows n in
        let t = table_of (attempts n) in
        (
          rw there (perform_all-IsKeyed _ rest (rw here (perform_all-IsKeyed t ss keyed))),
          rw there (perform_all-IsUnique _ rest (rw here (perform_all-IsUnique t ss unique))),
        )

    abbrev Holds : String → ℕ → Type 0
    Holds i n = IsSubmitted (table_of (attempts n)) i k (fingerprint r)

    next-Holds :
        (i : String) (n : ℕ)
        → IsSubmitted (served (attempts n)).pool.storage i k (fingerprint r)
        → Holds i (suc n)
    next-Holds i n stored =
        let (rest, there) = follows n in
        rw there (perform_all-IsSubmitted _ rest i k (fingerprint r) stored)

    -- An attempt where the table has the job.
    record IsQuiet (i : String) (a : Attempt) : Type 0 where
      none_queued : (served a).queued ≡ []
      same : (served a).pool ≡ a.arrival.pool
      answers : Answers i (received a.delivery (served a).reply)

    repeated-IsQuiet :
        (i : String) (a : Attempt) (d : Delivery)
        → a.delivery ≡ d
        → served a ≡ execute_code_async fingerprint h config registry r a.arrival
        → Repeats i a.arrival (execute_code_async fingerprint h config registry r a.arrival)
        → IsQuiet i a
    repeated-IsQuiet i a d e is (refused code q p reply) = record {
      none_queued = rw is q;
      same = rw is p;
      answers = rw (is, reply) (refusal-Answers i a.delivery code);
    }
    repeated-IsQuiet i a d e is (found status q p reply) = record {
      none_queued = rw is q;
      same = rw is p;
      answers = rw (is, reply) (received-Answers i a.delivery status);
    }

    Holds-IsQuiet :
        (i : String) (n : ℕ) (d : Delivery)
        → (attempts n).delivery ≡ d
        → IsTable n
        → Holds i n
        → IsQuiet i (attempts n)
    Holds-IsQuiet i n lost e t stored = record {
      none_queued = rw e refl;
      same = rw e refl;
      answers = rw e tt;
    }
    Holds-IsQuiet i n (turned_away code) e t stored = record {
      none_queued = rw e refl;
      same = rw e refl;
      answers = rw e (error-Answers i code);
    }
    Holds-IsQuiet i n unanswered e t stored =
        repeated-IsQuiet i (attempts n) unanswered e (rw e refl) (
          execute_code_async-Repeats fingerprint h config registry r (attempts n).arrival k has_key
            i t.0 t.1 stored)
    Holds-IsQuiet i n answered e t stored = repeated-IsQuiet i (attempts n) answered e (rw e refl) (
        execute_code_async-Repeats fingerprint h config registry r (attempts n).arrival k has_key i
          t.0 t.1 stored)

    abbrev from : (left n : ℕ) → Submission
    from left n = submit_from fingerprint h config registry r attempts left n

    submit_from-quiet :
        (i : String) (left n : ℕ)
        → IsTable n
        → Holds i n
        → ((from left n).queued ≡ []) × Answers i (from left n).answer
    unfolding submit_from
    submit_from-quiet i zero n t stored =
        let q = Holds-IsQuiet i n _ refl t stored in
        rw q.none_queued (after-Answers i _ [] zero n _ q.answers refl tt)
    submit_from-quiet i (suc left) n t stored =
        let q = Holds-IsQuiet i n _ refl t stored in
        let rest =
          submit_from-quiet i left (suc n) (next-IsTable n t) (next-Holds i n (rw q.same stored)) in
        rw q.none_queued (after-Answers i _ [] (suc left) n _ q.answers rest.0 rest.1)

    -- An attempt where the table may not have the job.
    reached-Says :
        (n : ℕ) (d : Delivery)
        → (attempts n).delivery ≡ d
        → Says k (fingerprint r) (attempts n).arrival (served (attempts n))
    reached-Says n lost e = nothing (rw e refl)
    reached-Says n (turned_away code) e = nothing (rw e refl)
    reached-Says n unanswered e = rw e (
        execute_code_async-Says fingerprint h config registry r (attempts n).arrival k has_key
          (fresh n))
    reached-Says n answered e = rw e (
        execute_code_async-Says fingerprint h config registry r (attempts n).arrival k has_key
          (fresh n))

    one-IsOnce :
        (i : String) (qs : List String) (x : Answer) (left n : ℕ) (next : Submission)
        → qs ≡ i ∷ []
        → Answers i x
        → next.queued ≡ []
        → Answers i next.answer
        → IsOnce (after_answer x qs left n next).queued (after_answer x qs left n next).answer
    one-IsOnce i qs x left n next only x_own none_more rest =
        let (q, a) = after-Answers i x (i ∷ []) left n next x_own none_more rest in rw (only, q) a

    submit_from-IsOnce : (left n : ℕ) → IsTable n → IsOnce (from left n).queued (from left n).answer
    unfolding submit_from
    submit_from-IsOnce zero n t = elim (reached-Says n _ refl) [
      | nothing e ↦ rw e (after-IsOnce _ zero n _ tt)
      | one e reply stored ↦
          one-IsOnce (attempts n).arrival.id _ _ zero n _ e
            (rw reply (received-Answers (attempts n).arrival.id (attempts n).delivery _)) refl tt
    ]
    submit_from-IsOnce (suc left) n t = elim (reached-Says n _ refl) [
      | nothing e ↦
          rw e (after-IsOnce _ (suc left) n _ (submit_from-IsOnce left (suc n) (next-IsTable n t)))
      | one e reply stored ↦
          let i = (attempts n).arrival.id in
          let rest = submit_from-quiet i left (suc n) (next-IsTable n t) (next-Holds i n stored) in
          one-IsOnce i _ _ (suc left) n _ e (rw reply (received-Answers i (attempts n).delivery _))
            rest.0 rest.1
    ]

    -- The queue is full for the first attempt, and the second one arrives.
    pub submit_from-rejected :
        validate_execution_timeout config registry r.timeout (map_option codes r.job_type) ≡ true
        → IsTable 0
        → (attempts 0).delivery ≡ answered
        → (attempts 1).delivery ≡ answered
        → check_key fingerprint r (table_of (attempts 0)) ≡ none
        → (submitted fingerprint h config registry r (attempts 0).arrival).0
          ≡ queue_raises queue_full
        → str_eq (attempts 0).arrival.id "" ≡ false
        → ((from 2 0).answer ≡ job_id (attempts 0).arrival.id) × ((from 2 0).queued ≡ [])
    unfolding submit_from status_error
    submit_from-rejected valid t first second unknown full filled =
        let a = (attempts 0).arrival in
        let (reply, none_queued, stored) =
          execute_code_async-rejected fingerprint h config registry r a k has_key (fresh 0) valid
            unknown full in
        let held = next-Holds a.id 0 (rw first stored) in
        let t1 = next-IsTable 0 t in
        let (status, again) =
          execute_code_async-found fingerprint h config registry r (attempts 1).arrival k has_key
            a.id t1.0 t1.1 held valid in
        rw (first, reply, none_queued) (rw (second, again) (rw filled (refl, refl)))

payload_key :
    (r : ExecuteRequest) (generated : String)
    → str_eq generated "" ≡ false
    → (k : String) × (given_key (execute_payload r generated).idempotency_key ≡ some k)
unfolding execute_payload
payload_key r generated filled = by_key r.idempotency_key
  where
    by_key : (o : Option String) → (k : String) × (given_key (some (key_or o generated)) ≡ some k)
    by_key none = (generated, rw filled refl)
    by_key (some k) = elim (Bool-cases (str_eq k "")) [
      | inl empty ↦ (generated, rw (empty, filled) refl)
      | inr given ↦ (k, rw (given, given) refl)
    ]

-- Let each attempt of submit_code get lost, lose its answer, be turned away or be answered, each
-- one that arrives meet the table that the one before left after any further statements, its fresh
-- identifier name no row, the first one meet each identifier once and each key in one row at most,
-- and uuid4 give a key that is not empty. Then the server queues one job at most for the whole
-- call, and if it queues one, a job id that the call returns is that job's.
pub submit_code-IsOnce :
    (fingerprint : ExecuteRequest → String) (h : Hashes) (config : Limits)
    (registry : JobTypeRegistry) (r : ExecuteRequest) (generated : String) (attempts : ℕ → Attempt)
    → str_eq generated "" ≡ false
    → Follows fingerprint h config registry (execute_payload r generated) attempts
    → IsFresh fingerprint h config registry (execute_payload r generated) attempts
    → IsKeyed (attempts 0).arrival.pool.storage
    → IsUnique (attempts 0).arrival.pool.storage
    → let s = submit_code fingerprint h config registry r generated attempts in
      IsOnce s.queued s.answer
unfolding submit_code
submit_code-IsOnce fingerprint h config registry r generated attempts filled follows fresh keyed
      unique =
    let (k, has_key) = payload_key r generated filled in
    submit_from-IsOnce fingerprint h config registry (execute_payload r generated) k has_key
      attempts follows fresh 2 0 (keyed, unique)

-- Under the same conditions, if the first attempt is answered, its key is in no stored row, its
-- timeout is valid and it meets the full queue, and the second one is answered too, then
-- submit_code returns the id of the rejected job, although the server queued no job: the 503 is
-- tried again with the key that the rejected row still holds.
pub submit_code-rejected :
    (fingerprint : ExecuteRequest → String) (h : Hashes) (config : Limits)
    (registry : JobTypeRegistry) (r : ExecuteRequest) (generated : String) (attempts : ℕ → Attempt)
    → str_eq generated "" ≡ false
    → Follows fingerprint h config registry (execute_payload r generated) attempts
    → IsFresh fingerprint h config registry (execute_payload r generated) attempts
    → IsKeyed (attempts 0).arrival.pool.storage
    → IsUnique (attempts 0).arrival.pool.storage
    → validate_execution_timeout config registry r.timeout (map_option codes r.job_type) ≡ true
    → (attempts 0).delivery ≡ answered
    → (attempts 1).delivery ≡ answered
    → check_key fingerprint (execute_payload r generated) (attempts 0).arrival.pool.storage ≡ none
    → (submitted fingerprint h config registry (execute_payload r generated) (attempts 0).arrival).0
      ≡ queue_raises queue_full
    → str_eq (attempts 0).arrival.id "" ≡ false
    → let s = submit_code fingerprint h config registry r generated attempts in
      (s.answer ≡ job_id (attempts 0).arrival.id) × (s.queued ≡ [])
unfolding submit_code execute_payload
submit_code-rejected fingerprint h config registry r generated attempts filled follows fresh keyed
      unique valid first second unknown full named =
    let (k, has_key) = payload_key r generated filled in
    submit_from-rejected fingerprint h config registry (execute_payload r generated) k has_key
      attempts follows fresh valid (keyed, unique) first second unknown full named
