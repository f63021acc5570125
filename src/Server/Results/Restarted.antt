-- ===== src/Server/Results/Restarted.antt =====
-- tako_vm/server/app.py and tako_vm/storage.py: the results of jobs after a restart.
use tako_vm.Prelude.{
  ℕ, String, Option, none, some, Bool, true, false, [], ◌≡◌, refl, ap, ◌∙◌, arith, ◌⊎◌, inl, inr,
  Bool-cases, get, get-map_values, map_option, contains,
}
use tako_vm.Models.{Status, is_terminal, ErrorType}
use tako_vm.Models.Record.{ExecutionRecord}
use tako_vm.Storage.Columns.{Column, Value, Row}
use tako_vm.Storage.Records.{
  Table, is_live, get_record, interrupt_row, interrupted_error, reconcile_row,
  reconcile_stale_records,
}
use tako_vm.Storage.Decode.{decoded, row_to_record, read_row, read_record}
use tako_vm.Server.Queue.State.{WorkerPool}
use tako_vm.Server.Queue.Calls.{
  finished, stored_result, is_terminal_row, wait_for_result, JobStatus, get_job_status,
}
use tako_vm.Server.Results.{WaitEnd, read_reply, waited_reply, unstored_reply, get_job_result}

reconcile_row-terminal :
    (now : ℕ) (row : Row) (s : Status)
    → row Column.status ≡ some (Value.status s)
    → is_terminal_row ((reconcile_row now row) Column.status) ≡ true
unfolding interrupt_row
reconcile_row-terminal now row s cell = elim (Bool-cases (is_live row)) [
  | inl live ↦ rw live refl
  | inr dead ↦ rw dead (rw cell (ground (arith, rw cell at dead)))
]

-- The columns that a restart sets.
abbrev pub is_set_by_restart : Column → Bool
is_set_by_restart Column.status = true
is_set_by_restart Column.ended_at = true
is_set_by_restart Column.error_json = true
is_set_by_restart _ = false

-- A row of a job that a restart interrupted, by the row before.
pub record IsInterrupted (now : ℕ) (before after : Row) : Type 0 where
  pub is_failed : after Column.status ≡ some (Value.status Status.failed)
  pub is_ended : after Column.ended_at ≡ some (Value.number now)
  pub has_error :
      ((before Column.error_json ≡ none)
        × (after Column.error_json
            ≡ some (
                Value.error (record {
                  type = ErrorType.interrupted;
                  message = "job interrupted by server restart before completion";
                  phase = none;
                }))))
      ⊎ ((v : Value) × (before Column.error_json ≡ some v) × (after Column.error_json ≡ some v))
  pub is_kept : (c : Column) → is_set_by_restart c ≡ false → after c ≡ before c

interrupt_row-kept :
    (now : ℕ) (row : Row) (c : Column)
    → is_set_by_restart c ≡ false
    → interrupt_row now row c ≡ row c
unfolding interrupt_row
interrupt_row-kept now row Column.status other = ground (arith, other)
interrupt_row-kept now row Column.ended_at other = ground (arith, other)
interrupt_row-kept now row Column.error_json other = ground (arith, other)
interrupt_row-kept now row _ other = refl

interrupt_row-IsInterrupted :
    (now : ℕ) (row : Row) (o : Option Value)
    → row Column.error_json ≡ o
    → IsInterrupted now row (interrupt_row now row)
unfolding interrupt_row
interrupt_row-IsInterrupted now row o e = record {
  is_failed = refl;
  is_ended = refl;
  has_error = by_error o e;
  is_kept = interrupt_row-kept now row;
}
  where
    by_error :
        (o : Option Value)
        → row Column.error_json ≡ o
        → ((row Column.error_json ≡ none)
            × (interrupt_row now row Column.error_json ≡ some (Value.error interrupted_error)))
          ⊎ ((v : Value) × (row Column.error_json ≡ some v)
              × (interrupt_row now row Column.error_json ≡ some v))
    by_error none e = inl (e, rw e refl)
    by_error (some v) e = inr (v, e, rw e refl)

decoded_reply :
    (o : Option ExecutionRecord) (s : JobStatus)
    → unstored_reply (decoded o) s ≡ read_reply (decoded o)
decoded_reply none s = refl
decoded_reply (some r) s = refl

module _ (now : ℕ) (t : Table) (p : WorkerPool) (id : String) (row : Row) (s : Status)
    (restarted : p.storage ≡ (reconcile_stale_records now t).0) (present : get t id ≡ some row)
    (cell : row Column.status ≡ some (Value.status s)) where
  reconciled-found : get p.storage id ≡ some (reconcile_row now row)
  unfolding reconcile_stale_records
  reconciled-found =
      ap (λ u. get u id) restarted
      ∙ get-map_values (reconcile_row now) t id
      ∙ ap (map_option (reconcile_row now)) present

  waits_not :
      p.active_jobs ≡ []
      → p.running_jobs ≡ []
      → wait_for_result id p ≡ finished (reconcile_row now row)
  unfolding wait_for_result contains get_record
  waits_not none_active none_running =
      rw (none_active, none_running)
        (ap stored_result reconciled-found ∙ rw (reconcile_row-terminal now row s cell) refl)

  -- What get_record gives of the row.
  by_read :
      (e : WaitEnd)
      → (w : Bool) → wait_for_result id p ≡ finished (reconcile_row now row)
      → get_job_result w e id p ≡ read_reply (read_row (some (reconcile_row now row)))
  unfolding get_job_result read_record
  by_read e true answered = ap (waited_reply e) answered
  by_read e false answered =
      ap (λ o. unstored_reply (read_row o) (get_job_status id p)) reconciled-found
      ∙ decoded_reply (row_to_record (reconcile_row now row)) (get_job_status id p)

  -- The row was terminal already, or the restart failed it.
  by_status :
      ((is_terminal s ≡ true) × (reconcile_row now row ≡ row))
      ⊎ ((is_terminal s ≡ false) × IsInterrupted now row (reconcile_row now row))
  by_status = elim (Bool-cases (is_terminal s)) [
    | inl ended ↦ inl (ended, rw cell (rw ended refl))
    | inr live ↦
        inr (
          live,
          rw cell (rw live (interrupt_row-IsInterrupted now row (row Column.error_json) refl)),
        )
  ]

  -- Let a pool that has no jobs yet have the table that reconcile_stale_records leaves at a
  -- restart. Then get_job_result, asked to wait or not, answers at once for every job whose row
  -- has a status, with a row whose status is terminal: the row as it was if its status was
  -- terminal, and else that row with the status failed, the time of the restart as its end, the
  -- error of the interruption unless it had one, and every other column as it was.
  pub get_job_result-restarted :
      (wait : Bool) (e : WaitEnd)
      → p.active_jobs ≡ []
      → p.running_jobs ≡ []
      → (after : Row) × (get_job_result wait e id p ≡ read_reply (read_row (some after)))
        × (is_terminal_row (after Column.status) ≡ true)
        × (((is_terminal s ≡ true) × (after ≡ row))
            ⊎ ((is_terminal s ≡ false) × IsInterrupted now row after))
  get_job_result-restarted wait e none_active none_running = (
    reconcile_row now row,
    by_read e wait (waits_not none_active none_running),
    reconcile_row-terminal now row s cell,
    by_status,
  )
