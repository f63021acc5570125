-- ===== src/Storage/Identity.antt =====
-- tako_vm/storage.py: the columns that say how a job was submitted keep their first value, and the
-- idempotency key names one record at most.
use mathlib.Core.Option.{some-injective}
use tako_vm.Prelude.{
  ℕ, String, Option, some, Bool, true, false, not, ◌&&◌, List, [], ◌∷◌, ◌≡◌, refl, sym, ap, ◌∙◌,
  arith, inl, inr, str_eq, eq_iff, get, put, get-put, get-map_values, Bool-cases,
}
use tako_vm.Storage.Columns.{Column, Value, Row, Policy, policy, set_clause_for, extract}
use tako_vm.Storage.Records.{Table, is_live, mark_row, reconcile_row, interrupt_row, merge}
use tako_vm.Storage.Effects.{
  Statement, perform, perform_all, Effect, kept, inserted, updated, started, reconciled,
  perform-Effect,
}

-- The policies under which a value that is there stays, in columns that no UPDATE assigns.
abbrev pub is_first_write : Policy → Bool
is_first_write Policy.keep_existing = true
is_first_write Policy.coalesce_existing = true
is_first_write Policy.key = true
is_first_write _ = false

abbrev pub is_dequeued_at : Column → Bool
is_dequeued_at Column.dequeued_at = true
is_dequeued_at _ = false

abbrev pub is_identity : Column → Bool
is_identity c = is_first_write (policy c) && not (is_dequeued_at c)

clause_first :
    (p : Policy) (old new : Option Value) (v : Value)
    → is_first_write p ≡ true
    → old ≡ some v
    → set_clause_for p old new ≡ some v
unfolding set_clause_for
clause_first p old new v h e = ground arith

and_left : (a b : Bool) → (a && b) ≡ true → a ≡ true
and_left a b h = ground arith

-- What a statement leaves of a row, at one column.
record Still (u : Table) (k : String) (c : Column) (v : Value) : Type 0 where
  row : Row
  found : get u k ≡ some row
  value : row c ≡ some v

-- The two UPDATE statements assign no such column.
mark_row-identity :
    (now : ℕ) (w : Option String) (r : Row) (c : Column)
    → is_identity c ≡ true
    → mark_row now w r c ≡ r c
unfolding policy mark_row
mark_row-identity now w r Column.status h = cc
mark_row-identity now w r Column.dequeued_at h = cc
mark_row-identity now w r Column.worker_id h = cc
mark_row-identity now w r _ h = refl

reconcile_row-identity :
    (now : ℕ) (r : Row) (c : Column) → is_identity c ≡ true → reconcile_row now r c ≡ r c
unfolding policy interrupt_row
reconcile_row-identity now r Column.status h = cc
reconcile_row-identity now r Column.ended_at h = cc
reconcile_row-identity now r Column.error_json h = cc
reconcile_row-identity now r _ h = elim (Bool-cases (is_live r)) [
  | inl live ↦ rw live refl
  | inr dead ↦ rw dead refl
]

module _ (k : String) (c : Column) (v : Value) where
  put-Still :
      (t : Table) (id : String) (old new row : Row)
      → (old c ≡ some v → new c ≡ some v)
      → get t id ≡ some old
      → get t k ≡ some row
      → row c ≡ some v
      → Still (put t id new) k c v
  put-Still t id old new row keeps f h e = elim (Bool-cases (str_eq id k)) [
    | inl eq ↦
        let same : old ≡ row =
          some-injective old row (sym f ∙ ap (get t) ((eq_iff id k).0 eq) ∙ h) in
        record { row = new; found = rw get-put (rw eq refl); value = keeps (rw same e) }
    | inr ne ↦ record { row = row; found = rw get-put (rw ne h); value = e }
  ]

  Effect-Still :
      {t u : Table} (row : Row)
      → is_identity c ≡ true
      → Effect t u
      → get t k ≡ some row
      → row c ≡ some v
      → Still u k c v
  unfolding merge
  Effect-Still row first (kept e) h cell = record { row = row; found = rw e h; value = cell }
  Effect-Still {t} row first (inserted id r same absent free e) h cell =
      elim (Bool-cases (str_eq id k)) [
        | inl eq ↦ absurd (ground (arith, sym absent ∙ ap (get t) ((eq_iff id k).0 eq) ∙ h))
        | inr ne ↦ record { row = row; found = rw (e, get-put) (rw ne h); value = cell }
      ]
  Effect-Still {t} row first (updated id r old f live free e) h cell = rw e (
      put-Still t id old (merge old (extract r)) row
        (λ o. clause_first (policy c) (old c) (extract r c) v (and_left _ _ first) o) f h cell)
  Effect-Still {t} row first (started id w now old f queued e) h cell = rw e (
      put-Still t id old (mark_row now w old) row (λ o. mark_row-identity now w old c first ∙ o) f h
        cell)
  Effect-Still {t} row first (reconciled now e) h cell = record {
    row = reconcile_row now row;
    found = rw (e, get-map_values) (rw h refl);
    value = reconcile_row-identity now row c first ∙ cell;
  }

  perform_all-Still :
      (t : Table) (ss : List Statement) (row : Row)
      → is_identity c ≡ true
      → get t k ≡ some row
      → row c ≡ some v
      → Still (perform_all t ss) k c v
  unfolding perform_all
  perform_all-Still t [] row first h cell = record { row = row; found = h; value = cell }
  perform_all-Still t (s ∷ ss) row first h cell =
      let next = Effect-Still row first (perform-Effect t s) h cell in
      perform_all-Still (perform t s) ss next.row first next.found next.value

-- A column whose update policy keeps the first value, dequeued_at excepted, and that has a value
-- in a row, has that value in the row under the same identifier after any sequence of save_record,
-- mark_record_running and reconcile_stale_records calls.
pub perform_all-identity :
    (t : Table) (ss : List Statement) (k : String) (c : Column) (row : Row) (v : Value)
    → is_identity c ≡ true
    → get t k ≡ some row
    → row c ≡ some v
    → (after : Row) × (get (perform_all t ss) k ≡ some after) × (after c ≡ some v)
perform_all-identity t ss k c row v first h cell =
    let still = perform_all-Still k c v t ss row first h cell in
    (still.row, still.found, still.value)
