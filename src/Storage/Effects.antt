-- ===== src/Storage/Effects.antt =====
-- tako_vm/storage.py: all that a statement can do to execution_records, as relations between the
-- table before and after.
use tako_vm.Prelude.{
  ℕ, zero, suc, ◌+◌, String, Option, none, some, true, false, List, [], ◌∷◌, ◌≡◌, refl, ap, arith,
  ◌⊎◌, inl, inr, put, get, map_values, Option-cases, Bool-cases,
}
use tako_vm.Models.Record.{ExecutionRecord}
use tako_vm.Storage.Columns.{Column, Row, extract}
use tako_vm.Storage.Records.{
  Table, Connection, retry_delay, operational_error, is_live, is_queued_status, save_loop,
  save_record, save_record_once, upsert, table_after, mark_record_running, mark_found, mark_row,
  reconcile_row, reconcile_stale_records, merge, saved, violates,
}

-- One statement of the program against the table.
pub data Statement : Type 0 where
  save : (ℕ → Connection) → ExecutionRecord → Statement
  mark : String → Option String → ℕ → Statement
  reconcile : ℕ → Statement

unfoldable pub perform : Table → Statement → Table
perform t (save net r) = table_after t (save_record net t r)
perform t (mark id w now) = (mark_record_running t id w now).0
perform t (reconcile now) = (reconcile_stale_records now t).0

unfoldable pub perform_all : Table → List Statement → Table
perform_all t [] = t
perform_all t (s ∷ ss) = perform_all (perform t s) ss

-- A statement keeps the table, writes one row under a key that is absent or names a live row, or
-- fails every live row.
pub data Effect (t u : Table) : Type 0 where
  kept : u ≡ t → Effect t u
  inserted :
      (id : String) (r : ExecutionRecord)
      → r.execution_id ≡ id
      → get t id ≡ none
      → violates t id (extract r Column.idempotency_key) ≡ false
      → u ≡ put t id (extract r)
      → Effect t u
  updated :
      (id : String) (r : ExecutionRecord) (row : Row)
      → get t id ≡ some row
      → is_live row ≡ true
      → violates t id (merge row (extract r) Column.idempotency_key) ≡ false
      → u ≡ put t id (merge row (extract r))
      → Effect t u
  started :
      (id : String) (w : Option String) (now : ℕ) (row : Row)
      → get t id ≡ some row
      → is_queued_status (row Column.status) ≡ true
      → u ≡ put t id (mark_row now w row)
      → Effect t u
  reconciled : (now : ℕ) → u ≡ map_values (reconcile_row now) t → Effect t u

-- save_record ends as one run of the statement ends, or with the OperationalError.
pub save_loop_cases :
    (net : ℕ → Connection) (t : Table) (r : ExecutionRecord) (left attempt slept : ℕ)
    → ((save_loop net t r left attempt slept).0 ≡ operational_error)
      ⊎ ((save_loop net t r left attempt slept).0 ≡ saved (save_record_once t r))
unfolding save_loop
save_loop_cases net t r zero attempt slept = inl refl
save_loop_cases net t r (suc left) attempt slept =
    ground (arith, save_loop_cases net t r left (suc attempt) (slept + retry_delay attempt))

once-Effect :
    (t : Table) (r : ExecutionRecord) → Effect t (table_after t (saved (save_record_once t r)))
unfolding save_record_once
once-Effect t r = elim (Option-cases (get t r.execution_id)) [
  | inl fresh ↦ elim (Bool-cases (violates t r.execution_id (extract r Column.idempotency_key))) [
    | inl taken ↦ rw (fresh, upsert) (rw taken (kept refl))
    | inr free ↦ rw (fresh, upsert) (rw free (inserted r.execution_id r refl fresh free refl))
  ]
  | inr (row, found) ↦ elim (Bool-cases (is_live row)) [
    | inl live ↦
        elim (Bool-cases
          (violates t r.execution_id (merge row (extract r) Column.idempotency_key))) [
            | inl taken ↦ rw (found, upsert) (rw live (rw taken (kept refl)))
            | inr free ↦
                rw (found, upsert)
                  (rw live (rw free (updated r.execution_id r row found live free refl)))
          ]
    | inr dead ↦ rw (found, upsert) (rw dead (kept refl))
  ]
]

mark-Effect :
    (t : Table) (id : String) (w : Option String) (now : ℕ)
    → Effect t (mark_record_running t id w now).0
unfolding mark_record_running
mark-Effect t id w now = elim (Option-cases (get t id)) [
  | inl absent ↦ rw (absent, mark_record_running, mark_found) (kept refl)
  | inr (row, found) ↦ elim (Bool-cases (is_queued_status (row Column.status))) [
    | inl queued ↦
        rw (found, mark_record_running, mark_found)
          (rw queued (started id w now row found queued refl))
    | inr other ↦ rw (found, mark_record_running, mark_found) (rw other (kept refl))
  ]
]

pub perform-Effect : (t : Table) (s : Statement) → Effect t (perform t s)
unfolding perform save_record reconcile_stale_records
perform-Effect t (save net r) = elim (save_loop_cases net t r 4 0 0) [
  | inl failed ↦ kept (ap (table_after t) failed)
  | inr ended ↦ rw ended (once-Effect t r)
]
perform-Effect t (mark id w now) = mark-Effect t id w now
perform-Effect t (reconcile now) = reconciled now refl
