-- ===== src/Storage/Terminal.antt =====
-- tako_vm/storage.py: no statement changes a finished record, and none but the restart's
-- reconciliation finishes one without a record to save.
use tako_vm.Prelude.{
  String, Option, some, true, false, List, [], ◌∷◌, ◌≡◌, refl, sym, ap, ◌∙◌, arith, inl, inr,
  str_eq, eq_iff, get, put, get-put, get-map_values, Bool-cases,
}
use mathlib.Core.Option.{some-injective}
use tako_vm.Storage.Columns.{Column, Value, Row}
use tako_vm.Storage.Records.{Table, is_live, is_live_status, is_queued_status}
use tako_vm.Storage.Effects.{
  Statement, perform, perform_all, Effect, kept, inserted, updated, started, reconciled,
  perform-Effect,
}

-- A write under a key that is absent, or that names another row than a given one.
put_other :
    (t : Table) (id k : String) (row new : Row)
    → get t k ≡ some row
    → str_eq id k ≡ false
    → get (put t id new) k ≡ some row
put_other t id k row new h e = get-put t id k new ∙ rw e h

-- Two rows under one key are one row.
same_row :
    (t : Table) (id k : String) {old row : Row}
    → get t id ≡ some old
    → get t k ≡ some row
    → str_eq id k ≡ true
    → old ≡ row
same_row t id k {old} {row} found h e =
    some-injective old row (sym found ∙ ap (get t) ((eq_iff id k).0 e) ∙ h)

live-not-dead :
    (t : Table) (id k : String) {old row : Row}
    → get t id ≡ some old
    → is_live old ≡ true
    → get t k ≡ some row
    → is_live row ≡ false
    → str_eq id k ≡ true
    → ⊥
live-not-dead t id k found live h dead e =
    cc (sym live ∙ ap (λ (r : Row). is_live r) (same_row t id k found h e) ∙ dead)

queued-live : (v : Option Value) → is_queued_status v ≡ true → is_live_status v ≡ true
queued-live v h = ground arith

-- A finished row stays as it is, whole, whatever statement runs.
Effect-terminal :
    {t u : Table} (k : String) (row : Row)
    → Effect t u
    → get t k ≡ some row
    → is_live row ≡ false
    → get u k ≡ some row
Effect-terminal k row (kept e) h dead = rw e h
Effect-terminal {t} k row (inserted id r same absent free e) h dead =
    elim (Bool-cases (str_eq id k)) [
      | inl eq ↦ absurd (ground (arith, sym absent ∙ ap (get t) ((eq_iff id k).0 eq) ∙ h))
      | inr ne ↦ rw e (put_other t id k row _ h ne)
    ]
Effect-terminal {t} k row (updated id r old found live free e) h dead =
    elim (Bool-cases (str_eq id k)) [
      | inl eq ↦ absurd (live-not-dead t id k found live h dead eq)
      | inr ne ↦ rw e (put_other t id k row _ h ne)
    ]
Effect-terminal {t} k row (started id w now old found queued e) h dead =
    elim (Bool-cases (str_eq id k)) [
      | inl eq ↦
          absurd (live-not-dead t id k found (queued-live (old Column.status) queued) h dead eq)
      | inr ne ↦ rw e (put_other t id k row _ h ne)
    ]
Effect-terminal {t} k row (reconciled now e) h dead = rw (e, get-map_values) (rw h (rw dead refl))

-- If a table has a row under an identifier and the row's status is terminal, then after every
-- sequence of save_record, mark_record_running and reconcile_stale_records calls, with any records
-- and any connection failures, the row under that identifier is the same in every column.
pub perform_all-terminal :
    (t : Table) (ss : List Statement) (k : String) (row : Row)
    → get t k ≡ some row
    → is_live row ≡ false
    → get (perform_all t ss) k ≡ some row
unfolding perform_all
perform_all-terminal t [] k row h dead = h
perform_all-terminal t (s ∷ ss) k row h dead =
    perform_all-terminal (perform t s) ss k row (Effect-terminal k row (perform-Effect t s) h dead)
      dead
