-- ===== src/Storage/Keys.antt =====
-- tako_vm/storage.py: get_by_idempotency_key finds the record of a key.
use mathlib.Core.Option.{some-injective}
use tako_vm.Prelude.{
  ◌≤◌, String, none, some, true, List, [], ◌∷◌, ◌≡◌, sym, ap, ◌∙◌, arith, inl, inr, ◌≢◌, str_eq,
  eq_refl, get, put, occurs, occurs-put, get-occurs, occurs-map_values, Bool-cases, Option-cases,
}
use tako_vm.Storage.Columns.{Column, Row}
use tako_vm.Storage.Records.{Table, holds, get_by_idempotency_key, reconcile_row}
use tako_vm.Storage.Effects.{
  Statement, perform, perform_all, Effect, kept, inserted, updated, started, reconciled,
  perform-Effect,
}
use tako_vm.Storage.Unique.{IsUnique, key_of}

-- The table has each identifier once: it is the primary key.
abbrev pub IsKeyed : Table → Type 0
IsKeyed t = (k : String) → occurs k t ≤ 1

put-IsKeyed : (t : Table) (id : String) (r : Row) → IsKeyed t → IsKeyed (put t id r)
put-IsKeyed t id r keyed k = ground (arith, occurs-put t id k r, keyed k)

Effect-IsKeyed : {t u : Table} → Effect t u → IsKeyed t → IsKeyed u
Effect-IsKeyed (kept e) keyed = rw e keyed
Effect-IsKeyed {t} (inserted id r same absent free e) keyed = rw e (put-IsKeyed t id _ keyed)
Effect-IsKeyed {t} (updated id r row found live free e) keyed = rw e (put-IsKeyed t id _ keyed)
Effect-IsKeyed {t} (started id w now row found queued e) keyed = rw e (put-IsKeyed t id _ keyed)
Effect-IsKeyed {t} (reconciled now e) keyed =
    rw e λ k. omega (arith, occurs-map_values (reconcile_row now) t k, keyed k)

pub perform_all-IsKeyed : (t : Table) (ss : List Statement) → IsKeyed t → IsKeyed (perform_all t ss)
unfolding perform_all
perform_all-IsKeyed t [] keyed = keyed
perform_all-IsKeyed t (s ∷ ss) keyed =
    perform_all-IsKeyed (perform t s) ss (Effect-IsKeyed (perform-Effect t s) keyed)

-- Where the row that is found stands.
record IsFound (t : Table) (k : String) (r : Row) : Type 0 where
  id : String
  here : get t id ≡ some r
  held : holds k (key_of r) ≡ true

later-IsFound :
    (j : String) (row : Row) (t : Table) (k : String) (r : Row)
    → IsKeyed ((j, row) ∷ t)
    → IsFound t k r
    → IsFound ((j, row) ∷ t) k r
unfolding get occurs
later-IsFound j row t k r keyed f = elim (Bool-cases (str_eq j f.id)) [
  | inl same ↦
      let once : occurs f.id t ≡ 0 = omega (arith, rw same at (keyed f.id)) in
      absurd (ground (arith, sym (get-occurs t f.id once) ∙ f.here))
  | inr other ↦ record { id = f.id; here = rw other f.here; held = f.held }
]

get_by-IsFound :
    (t : Table) (k : String) (r : Row)
    → IsKeyed t
    → get_by_idempotency_key t k ≡ some r
    → IsFound t k r
unfolding get_by_idempotency_key get occurs
get_by-IsFound [] k r keyed e = absurd (ground (arith, e))
get_by-IsFound ((j, row) ∷ t) k r keyed e =
    elim (Bool-cases (holds k (row Column.idempotency_key))) [
      | inl held ↦
          let same : row ≡ r = some-injective row r (rw held at e) in
          record { id = j; here = rw (eq_refl j) (ap some same); held = rw (← same) held }
      | inr not_held ↦
          later-IsFound j row t k r keyed
            (get_by-IsFound t k r (λ i. omega (arith, keyed i)) (rw not_held at e))
    ]

-- A row that holds the key is not missed.
get_by-some :
    (t : Table) (id k : String) (row : Row)
    → get t id ≡ some row
    → holds k (key_of row) ≡ true
    → get_by_idempotency_key t k ≢ none
unfolding get_by_idempotency_key get
get_by-some [] id k row h held e = ground (arith, h)
get_by-some ((j, r) ∷ t) id k row h held e = elim (Bool-cases (str_eq j id)) [
  | inl same ↦
      let eq : r ≡ row = some-injective r row (rw same at h) in ground (arith, rw (eq, held) at e)
  | inr other ↦ elim (Bool-cases (holds k (r Column.idempotency_key))) [
    | inl found ↦ ground (arith, rw found at e)
    | inr not_held ↦ get_by-some t id k row (rw other at h) held (rw not_held at e)
  ]
]

-- The row of a key is the one that is found.
pub get_by_unique :
    (t : Table) (id k : String) (row : Row)
    → IsKeyed t
    → IsUnique t
    → get t id ≡ some row
    → holds k (key_of row) ≡ true
    → get_by_idempotency_key t k ≡ some row
get_by_unique t id k row keyed unique h held = elim (Option-cases (get_by_idempotency_key t k)) [
  | inl absent ↦ absurd (get_by-some t id k row h held absent)
  | inr (r, found) ↦
      let f = get_by-IsFound t k r keyed found in
      let same : f.id ≡ id = unique f.id id k r row f.here h f.held held in
      found ∙ (sym f.here ∙ (ap (get t) same ∙ h))
]
