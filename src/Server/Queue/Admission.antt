-- ===== src/Server/Queue/Admission.antt =====
-- tako_vm/server/queue.py: what a client's submit comes to, on its three ends.
use tako_vm.Prelude.{
  ℕ, ◌≤◌, ◌<◌, String, Option, none, some, true, false, [], ◌∷◌, ◌++◌, ◌≡◌, refl, sym, ap, ◌∙◌,
  arith, eq_refl, get, put, get-put, contains, contains-append, length, length-append, Bool-cases,
  Option-cases, inl, inr,
}
use tako_vm.Models.{Status}
use tako_vm.Models.Record.{ExecutionRecord}
use tako_vm.Storage.Columns.{Column, extract}
use tako_vm.Storage.Records.{
  Table, Connection, Saved, written, save_record, save_record_once, upsert, violates, table_after,
  operational_error,
}
use tako_vm.Storage.Effects.{save, perform, perform_all, save_loop_cases}
use tako_vm.Server.Queue.State.{Hashes, JobData, WorkerPool, build_record}
use tako_vm.Server.Queue.Calls.{
  Raised, queue_full, Result, ok, raises, save_raises, is_full, submit, admit, enqueue, new_job,
  reject_record, reject,
}

-- A save under a fresh identifier that raises nothing has inserted the row.
fresh_save :
    (net : ℕ → Connection) (t : Table) (r : ExecutionRecord)
    → get t r.execution_id ≡ none
    → save_raises (save_record net t r) ≡ none
    → save_record net t r ≡ written (put t r.execution_id (extract r))
unfolding save_record save_record_once
fresh_save net t r fresh quiet = elim (save_loop_cases net t r 4 0 0) [
  | inl failed ↦ absurd (ground (arith, rw failed at quiet))
  | inr ended ↦ elim (Bool-cases (violates t r.execution_id (extract r Column.idempotency_key))) [
    | inl taken ↦
        absurd (ground (arith, rw (ended, save_record_once, fresh, upsert, taken) at quiet))
    | inr free ↦ ended ∙ rw (save_record_once, fresh, upsert, free) refl
  ]
]

never_full : (s : Saved) → save_raises s ≡ some queue_full → ⊥
never_full (written t) e = ground (arith, e)
never_full Saved.refused e = ground (arith, e)
never_full Saved.integrity_error e = ground (arith, e)
never_full operational_error e = ground (arith, e)

abbrev the_raised : Result String → Raised → Raised
the_raised (ok id) d = d
the_raised (raises e) d = e

module _ (h : Hashes) (net net' : ℕ → Connection) (id : String) (data_ : JobData)
    (ip : Option String) (now : ℕ) (p : WorkerPool) (fresh : get p.storage id ≡ none) where
  abbrev queued_record : ExecutionRecord
  queued_record = build_record h (new_job id data_ ip now) Status.queued none none

  abbrev first : Saved
  first = save_record net p.storage queued_record

  abbrev stored : WorkerPool
  stored = record p { storage = table_after p.storage first }

  first-row : save_raises first ≡ none → first ≡ written (put p.storage id (extract queued_record))
  unfolding build_record new_job
  first-row quiet = fresh_save net p.storage queued_record fresh quiet

  -- What the row that submit stored holds, at the end of submit.
  pub first-found : save_raises first ≡ none → get stored.storage id ≡ some (extract queued_record)
  first-found quiet = rw (first-row quiet) (rw (get-put, eq_refl id) refl)

  -- submit, by what the save of the queued record raises.
  by_save :
      (o : Option Raised)
      → save_raises first ≡ o
      → submit h net net' id data_ ip now p
        ≡ admit net' id (new_job id data_ ip now) queued_record o stored
  unfolding submit
  by_save o e = ap (λ x. admit net' id (new_job id data_ ip now) queued_record x stored) e

  by_room :
      save_raises first ≡ none
      → is_full p ≡ false
      → submit h net net' id data_ ip now p ≡ (ok id, enqueue id (new_job id data_ ip now) stored)
  unfolding admit is_full
  by_room quiet room = by_save none quiet ∙ rw (admit, room) refl

  by_crowd :
      save_raises first ≡ none
      → is_full p ≡ true
      → submit h net net' id data_ ip now p ≡ reject net' (reject_record queued_record) stored
  unfolding admit is_full
  by_crowd quiet crowded = by_save none quiet ∙ rw (admit, crowded) refl

  not_raised :
      (e : Raised)
      → save_raises first ≡ some e
      → (submit h net net' id data_ ip now p).0 ≡ raises queue_full
      → ⊥
  unfolding admit
  not_raised e raised_ full =
      let eq : raises e ≡ raises queue_full =
        sym (ap (λ s. s.0) (by_save (some e) raised_)) ∙ full in
      never_full first (raised_ ∙ ap (λ r. some (the_raised r e)) eq)

  not_ok :
      (e : Raised)
      → save_raises first ≡ some e
      → (submit h net net' id data_ ip now p).0 ≡ ok id
      → ⊥
  unfolding admit
  not_ok e raised_ fine = ground (arith, sym (ap (λ s. s.0) (by_save (some e) raised_)) ∙ fine)

  -- The statements behind a rejected submission, whose row stands before the last of them.
  pub submit-rejected :
      (submit h net net' id data_ ip now p).0 ≡ raises queue_full
      → ((submit h net net' id data_ ip now p).1.storage
          ≡ perform_all stored.storage (save net' (reject_record queued_record) ∷ []))
        × (get stored.storage id ≡ some (extract queued_record))
  unfolding perform perform_all
  submit-rejected full = elim (Option-cases (save_raises first)) [
    | inr (e, raised_) ↦ absurd (not_raised e raised_ full)
    | inl quiet ↦ elim (Bool-cases (is_full p)) [
      | inr room ↦ absurd (ground (arith, sym (ap (λ s. s.0) (by_room quiet room)) ∙ full))
      | inl crowded ↦ (rw (by_crowd quiet crowded) refl, first-found quiet)
    ]
  ]

  -- For an identifier that names no stored row, if submit returns the identifier, then the job is
  -- last in the queue, is in _active_jobs with the object that submit made, its queued row is
  -- stored with every column of the record, and a bounded queue is within its bound.
  pub submit-accepted :
      (submit h net net' id data_ ip now p).0 ≡ ok id
      → let q = (submit h net net' id data_ ip now p).1 in
        (q.queue ≡ p.queue ++ id ∷ [])
        × (contains id q.active_jobs ≡ true)
        × (get q.storage id ≡ some (extract queued_record))
        × (get q.jobs id ≡ some (new_job id data_ ip now))
        × (0 < p.max_queue_size → length q.queue ≤ p.max_queue_size)
  unfolding enqueue contains is_full
  submit-accepted accepted = elim (Option-cases (save_raises first)) [
    | inr (e, raised_) ↦ absurd (not_ok e raised_ accepted)
    | inl quiet ↦ elim (Bool-cases (is_full p)) [
      | inr room ↦ rw (by_room quiet room) (
        refl,
        ground (arith, contains-append id p.active_jobs (id ∷ []), eq_refl id),
        first-found quiet,
        rw (get-put, eq_refl id) refl,
        λ some_. ground (arith, room, some_, length-append p.queue (id ∷ [])),
      )
      | inl crowded ↦
          absurd (ground (arith, sym (ap (λ s. s.0) (by_crowd quiet crowded)) ∙ accepted))
    ]
  ]

  -- The statements behind an accepted submission.
  pub submit-storage :
      (submit h net net' id data_ ip now p).0 ≡ ok id
      → (submit h net net' id data_ ip now p).1.storage
        ≡ perform_all p.storage (save net queued_record ∷ [])
  unfolding enqueue perform perform_all
  submit-storage accepted = elim (Option-cases (save_raises first)) [
    | inr (e, raised_) ↦ absurd (not_ok e raised_ accepted)
    | inl quiet ↦ elim (Bool-cases (is_full p)) [
      | inr room ↦ rw (by_room quiet room) refl
      | inl crowded ↦
          absurd (ground (arith, sym (ap (λ s. s.0) (by_crowd quiet crowded)) ∙ accepted))
    ]
  ]
