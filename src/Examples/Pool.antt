-- ===== src/Examples/Pool.antt =====
-- tako_vm/server/queue.py: a pool with one worker and one job, through its whole life.
use tako_vm.Prelude.{
  ℕ, String, Option, none, some, Bool, true, false, List, [], ◌∷◌, ◌++◌, ◌≡◌, refl, Dict, get,
  contains, ◌≤◌, ◌<◌, length, arith, count, str_eq,
}
use tako_vm.Models.{Status}
use tako_vm.Models.Record.{ExecutionRecord, new_record}
use tako_vm.Storage.Columns.{Column, Value, Row, extract}
use tako_vm.Storage.Records.{Connection, up, down}
use tako_vm.Server.Queue.State.{Hashes, JobData, QueuedJob, Phase, WorkerPool, build_record}
use tako_vm.Server.Queue.Calls.{submit, new_job, is_terminal_row, wait_for_result}
use tako_vm.Server.Queue.Cancel.{as_pending, cancel, stop}
use tako_vm.Server.Queue.Worker.{Input, worker_step, job_of}
use tako_vm.Server.Queue.Steps.{submits, dequeues, works, step, idle_workers}
use tako_vm.Server.Queue.Worked.{is_done_job}
use tako_vm.Server.Queue.Tracking.{Held}
use tako_vm.Server.Queue.Reach.{Reachable, started, next, Reachable-Held}
use tako_vm.Server.Queue.Guarantees.{
  cancel_running_lem, iteration_resolves, waits_left, waits_left-worker_step,
}
use tako_vm.Server.Queue.Admission.{submit-accepted}
use tako_vm.Storage.Effects.{reconcile, perform_all}
use tako_vm.Server.Queue.Answers.{wait_for_result-final, stop-done}

abbrev hashes : Hashes
hashes = record { sha256_content = λ s. s; sha256_json = λ s. s }

abbrev online : ℕ → Connection
online n = up

abbrev request : JobData
request = record {
  code = "print(1)";
  input_data = "{}";
  job_type = none;
  timeout = none;
  startup_timeout = none;
  requirements = none;
  correlation_id = none;
  idempotency_key = some "key";
  idempotency_fingerprint = some "print";
  parent_execution_id = none;
  relationship = none;
}

abbrev new_pool : ℕ → List String → WorkerPool
new_pool size queue = record {
  max_queue_size = size;
  queue = queue;
  active_jobs = [];
  running_jobs = [];
  jobs = [];
  workers = idle_workers ("w" ∷ []);
  storage = [];
  dlq = [];
  cancelling = [];
  killing = [];
  signalled = [];
  shutdown = false;
}

abbrev pool : WorkerPool
pool = new_pool 2 []

start : Reachable hashes pool
start = started pool (record {
  names = "w" ∷ [];
  workers = refl;
  queue = refl;
  active = refl;
  running = refl;
  jobs = refl;
})

abbrev one_job : WorkerPool
one_job = step hashes pool (submits online online "a" request none 10)

abbrev taken : WorkerPool
taken = step hashes one_job (dequeues "w")

one_job-Reachable : Reachable hashes one_job
unfolding get
one_job-Reachable = next (submits online online "a" request none 10) start refl

taken-Reachable : Reachable hashes taken
taken-Reachable = next (dequeues "w") one_job-Reachable tt

submit-accepted_example :
    let q = (submit hashes online online "a" request none 10 pool).1 in
    (q.queue ≡ "a" ∷ [])
    × (contains "a" q.active_jobs ≡ true)
    × (get q.storage "a"
        ≡ some
            (extract (build_record hashes (new_job "a" request none 10) Status.queued none none)))
    × (get q.jobs "a" ≡ some (new_job "a" request none 10))
    × (0 < 2 → length q.queue ≤ 2)
unfolding submit get tako_vm.Storage.Records.save_record tako_vm.Storage.Records.save_loop
    tako_vm.Storage.Records.save_record_once extract tako_vm.Storage.Records.key_taken
submit-accepted_example = submit-accepted hashes online online "a" request none 10 pool refl refl

abbrev marked : WorkerPool
marked = step hashes taken (works "w" (Input.marks up 20))

abbrev finished_record : ExecutionRecord
finished_record = record (new_record "a" 10) { status = Status.succeeded }

abbrev executed : WorkerPool
executed = step hashes marked (works "w" (Input.completes finished_record))

abbrev saved_pool : WorkerPool
saved_pool = step hashes executed (works "w" (Input.storage online ""))

saved_pool-Reachable : Reachable hashes saved_pool
saved_pool-Reachable =
    next (works "w" (Input.storage online ""))
      (next (works "w" (Input.completes finished_record))
        (next (works "w" (Input.marks up 20)) taken-Reachable tt) tt)
      tt

abbrev job : QueuedJob
job = new_job "a" request none 10

iteration_resolves_example :
    let q = step hashes saved_pool (works "w" Input.continues) in
    (is_done_job (get q.jobs "a") ≡ true)
    × (contains "a" q.active_jobs ≡ false)
    × (contains "a" q.running_jobs ≡ false)
unfolding get step submit tako_vm.Storage.Records.save_record tako_vm.Storage.Records.save_loop
    tako_vm.Storage.Records.save_record_once extract tako_vm.Storage.Records.key_taken idle_workers
    tako_vm.Prelude.put tako_vm.Server.Queue.Worker.begin_job worker_step
    tako_vm.Storage.Records.mark_record_running tako_vm.Storage.Records.mark_row
    tako_vm.Storage.Records.merge tako_vm.Storage.Columns.set_clause_for
    tako_vm.Storage.Columns.policy new_record tako_vm.Server.Queue.Worker.apply_cancel
    tako_vm.Server.Queue.Worker.save_then
iteration_resolves_example =
    iteration_resolves hashes saved_pool "w" "a" (Phase.finishing "a" finished_record) job
      Input.continues saved_pool-Reachable refl refl refl refl

cancel_running_lem_example :
    ((cancel "a" taken).0 ≡ as_pending)
    × ((cancel "a" taken).1.killing ≡ [])
    × ((cancel "a" taken).1.signalled ≡ [])
    × (contains "a" (cancel "a" taken).1.running_jobs ≡ true)
unfolding contains step get submit tako_vm.Storage.Records.save_record
    tako_vm.Storage.Records.save_loop tako_vm.Storage.Records.save_record_once extract
    tako_vm.Storage.Records.key_taken idle_workers tako_vm.Server.Queue.Worker.begin_job
    tako_vm.Prelude.put
cancel_running_lem_example =
    cancel_running_lem hashes taken "a" job taken-Reachable refl refl refl refl

Reachable-Held_example : Held taken "a"
Reachable-Held_example = Reachable-Held "a" taken-Reachable

waits_left-worker_step_example :
    waits_left (worker_step hashes "w" job (Phase.marking "a") (Input.marks up 20) taken).0
    < waits_left (Phase.marking "a")
waits_left-worker_step_example =
    waits_left-worker_step hashes "w" job taken (Phase.marking "a") (Input.marks up 20) refl

abbrev done_row : Row
done_row = extract finished_record

abbrev idle_pool : WorkerPool
idle_pool = record pool { storage = ("a", done_row) ∷ [] }

wait_for_result-final_example :
    (is_terminal_row (done_row Column.status) ≡ true)
    × (get (perform_all idle_pool.storage (reconcile 50 ∷ [])) "a" ≡ some done_row)
unfolding wait_for_result get contains tako_vm.Storage.Records.get_record extract
wait_for_result-final_example =
    wait_for_result-final "a" idle_pool done_row (reconcile 50 ∷ []) refl

abbrev one_queued : WorkerPool
one_queued = record pool { queue = "a" ∷ []; jobs = ("a", job) ∷ [] }

stop-done_example :
    let q = stop hashes (λ id. online) one_queued in
    (is_done_job (get q.jobs "a") ≡ true) × (q.queue ≡ []) × (q.shutdown ≡ true)
unfolding get contains
stop-done_example = stop-done hashes (λ id. online) "a" one_queued refl refl
