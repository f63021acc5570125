-- ===== src/Storage/Listing/Order.antt =====
-- tako_vm/storage.py: the order in which list_records gives the rows, whatever the order of the scan.
use tako_vm.Prelude.{ℕ, ◌<◌, false, List, [], ◌∷◌, ◌==◌, ◌≡◌, refl, ap, ◌∙◌, arith, All}
use tako_vm.Storage.Columns.{Column, Row}
use tako_vm.Storage.Listing.{created_of, insert_row, by_created_at}

abbrev pub created : Row → ℕ
created r = created_of (r Column.created_at)

-- Two lists with the same rows, in any orders.
pub data Reorders : List Row → List Row → Type 0 where
  nil : Reorders [] []
  cons : (r : Row) (xs ys : List Row) → Reorders xs ys → Reorders (r ∷ xs) (r ∷ ys)
  swap : (r s : Row) (xs : List Row) → Reorders (r ∷ s ∷ xs) (s ∷ r ∷ xs)
  trans : (xs ys zs : List Row) → Reorders xs ys → Reorders ys zs → Reorders xs zs

-- Each row is newer than all that follow it.
unfoldable pub IsNewestFirst : List Row → Type 0
IsNewestFirst [] = Unit
IsNewestFirst (r ∷ rs) = All (λ x. created x < created r) rs × IsNewestFirst rs

-- No two rows have one time.
IsDistinct : List Row → Type 0
IsDistinct [] = Unit
IsDistinct (r ∷ rs) = All (λ x. (created x == created r) ≡ false) rs × IsDistinct rs

All-Reorders : (P : Row → Type 0) (xs ys : List Row) → Reorders xs ys → All P ys → All P xs
All-Reorders P xs ys nil h = tt
All-Reorders P xs ys (cons r as_ bs p) h = (h.0, All-Reorders P as_ bs p h.1)
All-Reorders P xs ys (swap r s as_) h = (h.1.0, (h.0, h.1.1))
All-Reorders P xs ys (trans as_ bs cs p q) h = All-Reorders P as_ bs p (All-Reorders P bs cs q h)

IsDistinct-Reorders : (xs ys : List Row) → Reorders xs ys → IsDistinct ys → IsDistinct xs
unfolding IsDistinct
IsDistinct-Reorders xs ys nil h = tt
IsDistinct-Reorders xs ys (cons r as_ bs p) h = (
  All-Reorders (λ x. (created x == created r) ≡ false) as_ bs p h.0,
  IsDistinct-Reorders as_ bs p h.1,
)
IsDistinct-Reorders xs ys (swap r s as_) h = ((ground (arith, h.0.0), h.1.0), (h.0.1, h.1.1))
IsDistinct-Reorders xs ys (trans as_ bs cs p q) h =
    IsDistinct-Reorders as_ bs p (IsDistinct-Reorders bs cs q h)

-- Rows of different times may be inserted in either order.
insert_row_comm :
    (r s : Row) (rs : List Row)
    → (created r == created s) ≡ false
    → insert_row r (insert_row s rs) ≡ insert_row s (insert_row r rs)
unfolding insert_row
insert_row_comm r s [] apart = ground (arith, apart)
insert_row_comm r s (x ∷ rs) apart = ground (arith, apart, insert_row_comm r s rs apart)

-- The order of the scan does not matter where the times are different.
by_created_at-Reorders :
    (xs ys : List Row) → Reorders xs ys → IsDistinct ys → by_created_at xs ≡ by_created_at ys
unfolding by_created_at IsDistinct
by_created_at-Reorders xs ys nil h = refl
by_created_at-Reorders xs ys (cons r as_ bs p) h =
    ap (insert_row r) (by_created_at-Reorders as_ bs p h.1)
by_created_at-Reorders xs ys (swap r s as_) h = insert_row_comm r s (by_created_at as_) h.0.0
by_created_at-Reorders xs ys (trans as_ bs cs p q) h =
    by_created_at-Reorders as_ bs p (IsDistinct-Reorders bs cs q h)
    ∙ by_created_at-Reorders bs cs q h

apart_of_older :
    (r : Row) (rs : List Row)
    → All (λ x. created x < created r) rs
    → All (λ x. (created x == created r) ≡ false) rs
apart_of_older r [] h = tt
apart_of_older r (x ∷ rs) h = (ground (arith, h.0), apart_of_older r rs h.1)

IsNewestFirst-IsDistinct : (rs : List Row) → IsNewestFirst rs → IsDistinct rs
unfolding IsNewestFirst IsDistinct
IsNewestFirst-IsDistinct [] h = tt
IsNewestFirst-IsDistinct (r ∷ rs) h = (apart_of_older r rs h.0, IsNewestFirst-IsDistinct rs h.1)

insert_row-newest :
    (r : Row) (rs : List Row) → All (λ x. created x < created r) rs → insert_row r rs ≡ r ∷ rs
unfolding insert_row
insert_row-newest r [] h = refl
insert_row-newest r (x ∷ rs) h = ground (arith, h.0)

by_created_at-newest : (rs : List Row) → IsNewestFirst rs → by_created_at rs ≡ rs
unfolding by_created_at IsNewestFirst
by_created_at-newest [] h = refl
by_created_at-newest (r ∷ rs) h =
    ap (insert_row r) (by_created_at-newest rs h.1) ∙ insert_row-newest r rs h.0

-- Any scan of rows is sorted to their one order from the newest to the oldest.
pub by_created_at-IsNewestFirst :
    (xs rs : List Row) → Reorders xs rs → IsNewestFirst rs → by_created_at xs ≡ rs
by_created_at-IsNewestFirst xs rs p h =
    by_created_at-Reorders xs rs p (IsNewestFirst-IsDistinct rs h) ∙ by_created_at-newest rs h
