-- ===== src/Server/Queue/Answers.antt =====
-- tako_vm/server/queue.py: the answers of wait_for_result, and the jobs that stop finds in the queue.
use tako_vm.Prelude.{
  ℕ, String, Option, none, some, true, false, ◌||◌, List, [], ◌∷◌, ◌≡◌, refl, sym, ap, ◌∙◌, arith,
  str_eq, eq_iff, get, contains, is_some, Bool-cases, inl, inr,
}
use tako_vm.Storage.Columns.{Column, Value, Row}
use tako_vm.Storage.Records.{Connection, is_live_status, get_record}
use tako_vm.Storage.Effects.{Statement, perform_all}
use tako_vm.Storage.Terminal.{perform_all-terminal}
use tako_vm.Server.Queue.State.{Hashes, QueuedJob, WorkerPool}
use tako_vm.Server.Queue.Calls.{
  Wait, finished, wait_for_result, stored_result, is_terminal_row, cancel_future,
}
use tako_vm.Server.Queue.Cancel.{drain_job, drain, stop}
use tako_vm.Server.Queue.Worked.{get-update_job, is_done_job, Later-cancel}

abbrev row_of : Wait → Row → Row
row_of (finished r) d = r
row_of _ d = d

stored_result-finished :
    (o : Option Row) (row : Row)
    → stored_result o ≡ finished row
    → (o ≡ some row) × (is_terminal_row (row Column.status) ≡ true)
stored_result-finished none row e = absurd (ground (arith, e))
stored_result-finished (some r) row e = elim (Bool-cases (is_terminal_row (r Column.status))) [
  | inl ended ↦
      let same : r ≡ row = ap (λ w. row_of w r) (rw ended at e) in (ap some same, rw (← same) ended)
  | inr open_ ↦ absurd (ground (arith, rw open_ at e))
]

terminal_dead : (v : Option Value) → is_terminal_row v ≡ true → is_live_status v ≡ false
terminal_dead v h = ground (arith, h)

-- If wait_for_result answers with a stored row, the row's status is terminal, and after any
-- save_record, mark_record_running and reconcile_stale_records calls the row under the job's
-- identifier is still that one.
pub wait_for_result-final :
    (id : String) (p : WorkerPool) (row : Row) (ss : List Statement)
    → wait_for_result id p ≡ finished row
    → (is_terminal_row (row Column.status) ≡ true) × (get (perform_all p.storage ss) id ≡ some row)
unfolding wait_for_result get_record
wait_for_result-final id p row ss e =
    elim (Bool-cases (contains id p.active_jobs || contains id p.running_jobs)) [
      | inl tracked ↦ absurd (ground (arith, rw tracked at e))
      | inr done ↦
          let r = stored_result-finished (get p.storage id) row (rw done at e) in
          (
            r.1,
            perform_all-terminal p.storage ss id row r.0 (terminal_dead (row Column.status) r.1),
          )
    ]

module _ (h : Hashes) where
  drain_job-done :
      (net : ℕ → Connection) (id k : String) (o : Option QueuedJob) (p : WorkerPool)
      → get p.jobs id ≡ o
      → (is_some (get (drain_job h net id o p).jobs k) ≡ is_some (get p.jobs k))
        × (is_done_job (get p.jobs k) ≡ true
            → is_done_job (get (drain_job h net id o p).jobs k) ≡ true)
        × (str_eq id k ≡ true
            → is_some (get p.jobs k) ≡ true
            → is_done_job (get (drain_job h net id o p).jobs k) ≡ true)
  unfolding drain_job
  drain_job-done net id k none p e = (
    refl,
    λ d. d,
    λ same some_. absurd (ground (arith, sym (ap (get p.jobs) ((eq_iff id k).0 same)) ∙ e, some_)),
  )
  drain_job-done net id k (some job) p e =
      let l = Later-cancel id k p.jobs in
      (
        l.here,
        l.done,
        λ same some_. ground (arith, get-update_job cancel_future id k p.jobs, same, some_),
      )

  drain-done :
      (nets : String → ℕ → Connection) (ids : List String) (k : String) (p : WorkerPool)
      → (is_done_job (get p.jobs k) ≡ true → is_done_job (get (drain h nets ids p).jobs k) ≡ true)
        × (contains k ids ≡ true
            → is_some (get p.jobs k) ≡ true
            → is_done_job (get (drain h nets ids p).jobs k) ≡ true)
  unfolding drain contains
  drain-done nets [] k p = (λ d. d, λ here some_. absurd (ground (arith, here)))
  drain-done nets (id ∷ ids) k p =
      let one = drain_job-done (nets id) id k (get p.jobs id) p refl in
      let rest = drain-done nets ids k (drain_job h (nets id) id (get p.jobs id) p) in
      (
        λ d. rest.0 (one.1 d),
        λ here some_. elim (Bool-cases (str_eq id k)) [
          | inl same ↦ rest.0 (one.2 same some_)
          | inr other ↦ rest.1 (rw other at here) (one.0 ∙ some_)
        ],
      )

  drain_job-queue :
      (net : ℕ → Connection) (id : String) (o : Option QueuedJob) (p : WorkerPool)
      → ((drain_job h net id o p).queue ≡ p.queue)
        × ((drain_job h net id o p).shutdown ≡ p.shutdown)
  unfolding drain_job
  drain_job-queue net id none p = (refl, refl)
  drain_job-queue net id (some job) p = (refl, refl)

  drain-queue :
      (nets : String → ℕ → Connection) (ids : List String) (p : WorkerPool)
      → ((drain h nets ids p).queue ≡ p.queue) × ((drain h nets ids p).shutdown ≡ p.shutdown)
  unfolding drain drain_job
  drain-queue nets [] p = (refl, refl)
  drain-queue nets (id ∷ ids) p =
      let one = drain_job-queue (nets id) id (get p.jobs id) p in
      let rest = drain-queue nets ids (drain_job h (nets id) id (get p.jobs id) p) in
      (rest.0 ∙ one.0, rest.1 ∙ one.1)

  -- After the drain of stop, whatever the storage does at each save, the future of each known job
  -- that was in the queue is done, the queue is empty and the shutdown flag is set.
  pub stop-done :
      (nets : String → ℕ → Connection) (k : String) (p : WorkerPool)
      → contains k p.queue ≡ true
      → is_some (get p.jobs k) ≡ true
      → (is_done_job (get (stop h nets p).jobs k) ≡ true)
        × ((stop h nets p).queue ≡ [])
        × ((stop h nets p).shutdown ≡ true)
  unfolding stop
  stop-done nets k p here some_ =
      let q = drain-queue nets p.queue (record p { shutdown = true; queue = [] }) in
      (
        (drain-done nets p.queue k (record p { shutdown = true; queue = [] })).1 here some_,
        q.0,
        q.1,
      )
