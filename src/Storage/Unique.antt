-- ===== src/Storage/Unique.antt =====
-- tako_vm/storage.py: the partial unique index on idempotency_key.
use mathlib.Core.Option.{some-injective}
use tako_vm.Prelude.{
  ℕ, String, Option, none, some, Bool, true, false, List, [], ◌∷◌, ◌≡◌, refl, sym, ◌∙◌, arith, ◌⊎◌,
  inl, inr, if◌then◌else◌, str_eq, eq_iff, get, put, map_values, get-put, get-map_values,
  Bool-cases, Option-cases,
}
use tako_vm.Storage.Columns.{Column, Value, Row}
use tako_vm.Storage.Records.{
  Table, is_live, holds, key_taken, violates, mark_row, reconcile_row, interrupt_row,
}
use tako_vm.Storage.Effects.{
  Statement, perform, perform_all, Effect, kept, inserted, updated, started, reconciled,
  perform-Effect,
}

abbrev pub key_of : Row → Option Value
key_of r = r Column.idempotency_key

-- No two records hold one idempotency key.
abbrev pub IsUnique : Table → Type 0
IsUnique t =
    (i j k : String) (r s : Row)
    → get t i ≡ some r
    → get t j ≡ some s
    → holds k (key_of r) ≡ true
    → holds k (key_of s) ≡ true
    → i ≡ j

no_else : (b rest : Bool) → (if b then true else rest) ≡ false → rest ≡ false
no_else b rest h = ground arith

-- A key that is not taken is held by no other row.
key_taken_sound :
    (t : Table) (id k j : String) (r : Row)
    → key_taken t id k ≡ false
    → get t j ≡ some r
    → holds k (key_of r) ≡ true
    → j ≡ id
unfolding key_taken get
key_taken_sound [] id k j r free h held = cc
key_taken_sound ((i, row) ∷ t) id k j r free h held = elim (Bool-cases (str_eq i j)) [
  | inl here ↦
      let same : row ≡ r = some-injective row r (rw here at h) in
      let held' : holds k (key_of row) ≡ true = rw same held in
      elim (Bool-cases (str_eq i id)) [
        | inl eq ↦ sym ((eq_iff i j).0 here) ∙ (eq_iff i id).0 eq
        | inr ne ↦ absurd (ground (arith, rw (ne, held') at free))
      ]
  | inr there ↦ key_taken_sound t id k j r (no_else _ _ free) (rw there at h) held
]

violates_sound :
    (t : Table) (id k j : String) (cell : Option Value) (r : Row)
    → violates t id cell ≡ false
    → holds k cell ≡ true
    → get t j ≡ some r
    → holds k (key_of r) ≡ true
    → j ≡ id
violates_sound t id k j (some (Value.text s)) r free held h mine =
    key_taken_sound t id k j r (rw (← (eq_iff s k).0 held) free) h mine
violates_sound t id k j none r free held h mine = cc
violates_sound t id k j (some (Value.status x)) r free held h mine = cc
violates_sound t id k j (some (Value.number x)) r free held h mine = cc
violates_sound t id k j (some (Value.code x)) r free held h mine = cc
violates_sound t id k j (some (Value.flag x)) r free held h mine = cc
violates_sound t id k j (some (Value.artifacts x)) r free held h mine = cc
violates_sound t id k j (some (Value.timing x)) r free held h mine = cc
violates_sound t id k j (some (Value.error x)) r free held h mine = cc

-- Where a row of the table after a write comes from.
put-cases :
    (t : Table) (id j : String) (new s : Row)
    → get (put t id new) j ≡ some s
    → ((id ≡ j) × (new ≡ s)) ⊎ (get t j ≡ some s)
put-cases t id j new s h = elim (Bool-cases (str_eq id j)) [
  | inl eq ↦ inl ((eq_iff id j).0 eq, some-injective new s (rw (get-put, eq) at h))
  | inr ne ↦ inr (rw (get-put, ne) at h)
]

-- A write under `id` keeps the index if no other row holds the new key.
put-IsUnique :
    (t : Table) (id : String) (new : Row)
    → ((j k : String) (s : Row)
        → holds k (key_of new) ≡ true
        → get t j ≡ some s
        → holds k (key_of s) ≡ true
        → j ≡ id)
    → IsUnique t
    → IsUnique (put t id new)
put-IsUnique t id new alone unique i j k r s hr hs kr ks = elim (put-cases t id i new r hr) [
  | inl (eq, same) ↦ elim (put-cases t id j new s hs) [
    | inl (eq', same') ↦ sym eq ∙ eq'
    | inr old' ↦ sym eq ∙ sym (alone j k s (rw same kr) old' ks)
  ]
  | inr old ↦ elim (put-cases t id j new s hs) [
    | inl (eq', same') ↦ alone i k r (rw same' ks) old kr ∙ eq'
    | inr old' ↦ unique i j k r s old old' kr ks
  ]
]

reconcile_row-key : (now : ℕ) (r : Row) → key_of (reconcile_row now r) ≡ key_of r
unfolding interrupt_row
reconcile_row-key now r = elim (Bool-cases (is_live r)) [
  | inl live ↦ rw live refl
  | inr dead ↦ rw dead refl
]

-- Where a row of the reconciled table comes from.
reconciled-cases :
    (t : Table) (now : ℕ) (j k : String) (s : Row)
    → get (map_values (reconcile_row now) t) j ≡ some s
    → holds k (key_of s) ≡ true
    → (r : Row) × (get t j ≡ some r) × (holds k (key_of r) ≡ true)
reconciled-cases t now j k s h held = elim (Option-cases (get t j)) [
  | inl absent ↦ absurd (ground (arith, rw (get-map_values, absent) at h))
  | inr (r, found) ↦
      let same : reconcile_row now r ≡ s = some-injective _ s (rw (get-map_values, found) at h) in
      (r, found, rw (← reconcile_row-key now r, same) held)
]

Effect-IsUnique : {t u : Table} → Effect t u → IsUnique t → IsUnique u
Effect-IsUnique (kept e) unique = rw e unique
Effect-IsUnique {t} (inserted id r same absent free e) unique =
    rw e (
      put-IsUnique t id _ (λ j k s held h mine. violates_sound t id k j _ s free held h mine)
        unique)
Effect-IsUnique {t} (updated id r row found live free e) unique =
    rw e (
      put-IsUnique t id _ (λ j k s held h mine. violates_sound t id k j _ s free held h mine)
        unique)
Effect-IsUnique {t} (started id w now row found queued e) unique = rw e (
    put-IsUnique t id (mark_row now w row)
      (λ j k s held h mine. unique j id k s row h found mine (unfold mark_row in held)) unique)
Effect-IsUnique {t} (reconciled now e) unique = rw e λ i j k r s hr hs kr ks.
    let (r', fr, kr') = reconciled-cases t now i k r hr kr in
    let (s', fs, ks') = reconciled-cases t now j k s hs ks in unique i j k r' s' fr fs kr' ks'

-- If no two rows of a table hold the same idempotency key, then none do after any sequence of
-- save_record, mark_record_running and reconcile_stale_records calls.
pub perform_all-IsUnique :
    (t : Table) (ss : List Statement) → IsUnique t → IsUnique (perform_all t ss)
unfolding perform_all
perform_all-IsUnique t [] unique = unique
perform_all-IsUnique t (s ∷ ss) unique =
    perform_all-IsUnique (perform t s) ss (Effect-IsUnique (perform-Effect t s) unique)
