-- ===== src/Server/Executions/Pages.antt =====
-- tako_vm/server/app.py: what a page of list_executions has.
use mathlib.Core.Option.{some-injective}
use tako_vm.Prelude.{
  ℕ, zero, suc, ◌+◌, ◌≤◌, ◌<◌, max, String, Option, none, some, true, ◌&&◌, List, [], ◌∷◌, ◌++◌,
  leb, ltb, take, drop, length, ◌≡◌, refl, sym, ap, ◌∙◌, arith, Bool-cases, inl, inr,
  take-append-drop, if◌then◌else◌,
}
use tako_vm.Models.Record.{ExecutionRecord}
use tako_vm.Storage.Columns.{Row}
use tako_vm.Storage.Decode.{row_to_record}
use tako_vm.Storage.Records.{Table}
use tako_vm.Storage.Listing.Order.{Reorders, trans, IsNewestFirst, by_created_at-IsNewestFirst}
use tako_vm.Storage.Listing.Wanted.{wanted_rows, matching_rows-wanted}
use tako_vm.Storage.Listing.{by_created_at, selected_rows, records_of, and_then, list_records}
use tako_vm.Server.Executions.{ListReply, page, error, list_executions}

-- The rows of a list of records.
first_record :
    (row : Row) (rows : List Row) (all : List ExecutionRecord) (o : Option ExecutionRecord)
    (rest : Option (List ExecutionRecord))
    → and_then o rest ≡ some all
    → (r : ExecutionRecord) × ((rs : List ExecutionRecord) × (rest ≡ some rs) × (all ≡ r ∷ rs))
first_record row rows all none rest e = absurd (ground (arith, e))
first_record row rows all (some r) none e = absurd (ground (arith, e))
first_record row rows all (some r) (some rs) e =
    (r, (rs, refl, sym (some-injective (r ∷ rs) all e)))

records_of-drop :
    (n : ℕ) (rows : List Row) (all : List ExecutionRecord)
    → records_of rows ≡ some all
    → records_of (drop n rows) ≡ some (drop n all)
unfolding records_of
records_of-drop zero rows all e = e
records_of-drop (suc n) [] all e = ground (arith, e)
records_of-drop (suc n) (row ∷ rows) all e =
    let (r, (rs, rest, whole)) =
      first_record row rows all (row_to_record row) (records_of rows) e in
    rw whole (records_of-drop n rows rs rest)

and_then-take :
    (n : ℕ) (o : Option ExecutionRecord) (all rs : List ExecutionRecord)
    → and_then o (some rs) ≡ some all
    → and_then o (some (take n rs)) ≡ some (take (suc n) all)
and_then-take n none all rs e = absurd (ground (arith, e))
and_then-take n (some r) all rs e =
    ap (λ xs. some (take (suc n) xs)) (some-injective (r ∷ rs) all e)

records_of-take :
    (n : ℕ) (rows : List Row) (all : List ExecutionRecord)
    → records_of rows ≡ some all
    → records_of (take n rows) ≡ some (take n all)
unfolding records_of
records_of-take zero rows all e = refl
records_of-take (suc n) [] all e = ground (arith, e)
records_of-take (suc n) (row ∷ rows) all e =
    let (r, (rs, rest, whole)) =
      first_record row rows all (row_to_record row) (records_of rows) e in
    ap (and_then (row_to_record row)) (records_of-take n rows rs rest)
    ∙ and_then-take n (row_to_record row) all rs (ap (and_then (row_to_record row)) (sym rest) ∙ e)

take-take-suc {ℓ} : {A : Type ℓ} (n : ℕ) (xs : List A) → take n (take (suc n) xs) ≡ take n xs
take-take-suc zero xs = refl
take-take-suc (suc n) [] = refl
take-take-suc (suc n) (x ∷ xs) = ap (◌∷◌ x) (take-take-suc n xs)

length-take-suc {ℓ} :
    {A : Type ℓ} (n : ℕ) (xs : List A)
    → ltb n (length (take (suc n) xs)) ≡ ltb 0 (length (drop n xs))
length-take-suc zero [] = refl
length-take-suc zero (x ∷ xs) = ground arith
length-take-suc (suc n) [] = ground arith
length-take-suc (suc n) (x ∷ xs) = ground (arith, length-take-suc n xs)

drop-nil {ℓ} : {A : Type ℓ} (n : ℕ) → drop {A = A} n [] ≡ []
drop-nil zero = refl
drop-nil (suc n) = refl

drop-drop {ℓ} : {A : Type ℓ} (m n : ℕ) (xs : List A) → drop n (drop m xs) ≡ drop (m + n) xs
drop-drop zero n xs = let e : n ≡ zero + n = omega arith in ap (λ k. drop k xs) e
drop-drop (suc m) n [] = drop-nil n ∙ sym (drop-nil (suc m + n))
drop-drop (suc m) n (x ∷ xs) =
    let e : suc (m + n) ≡ suc m + n = omega arith in drop-drop m n xs ∙ ap (λ k. drop k (x ∷ xs)) e

length-drop {ℓ} : {A : Type ℓ} (n : ℕ) (xs : List A) → length (drop n xs) + n ≡ max (length xs) n
length-drop zero xs = omega arith
length-drop (suc n) [] = omega arith
length-drop (suc n) (x ∷ xs) = omega (arith, length-drop n xs)

no_more {ℓ} : {A : Type ℓ} (xs : List A) → length xs ≤ 0 → xs ≡ []
no_more [] h = refl
no_more (x ∷ xs) h = absurd (omega (arith, h))

-- The items of a page, with those of the further ones if there are more.
abbrev pub items_and : ListReply → List ExecutionRecord → List ExecutionRecord
items_and (page p) rest = p.items ++ (if p.has_more then rest else [])
items_and (error code) rest = []

module _ (orders : ℕ → List Row → List Row) (t : Table) (status job_type : Option String)
    (limit : ℕ) where
  -- The answer for a page, where every selected row is a record.
  list_executions-page :
      (offset : ℕ) (all : List ExecutionRecord)
      → 1 ≤ limit
      → limit ≤ 1000
      → records_of (selected_rows (orders offset) status job_type t) ≡ some all
      → list_executions (orders offset) t status job_type limit offset
        ≡ page (record {
          items = take limit (drop offset all);
          limit = limit;
          offset = offset;
          has_more = ltb 0 (length (drop (offset + limit) all));
          count = length (take limit (drop offset all));
        })
  unfolding list_executions list_records
  list_executions-page offset all low high reads =
      let fetched =
        records_of-take (suc limit) (drop offset (selected_rows (orders offset) status job_type t))
          (drop offset all)
          (records_of-drop offset (selected_rows (orders offset) status job_type t) all reads) in
      let valid : (leb 1 limit && leb limit 1000) ≡ true = ground (arith, low, high) in
      rw
        (
          valid,
          fetched,
          take-take-suc limit (drop offset all),
          length-take-suc limit (drop offset all),
          drop-drop offset limit all,
        )
        refl

  -- Every request selects the wanted rows in their one order.
  selected_rows-wanted :
      (k : ℕ) (rows : List Row)
      → ((xs : List Row) → Reorders (orders k xs) xs)
      → Reorders (wanted_rows status job_type t) rows
      → IsNewestFirst rows
      → selected_rows (orders k) status job_type t ≡ rows
  unfolding selected_rows
  selected_rows-wanted k rows scans wanted newest =
      ap (λ xs. by_created_at (orders k xs)) (matching_rows-wanted status job_type t)
      ∙ by_created_at-IsNewestFirst (orders k (wanted_rows status job_type t)) rows
          (trans _ _ rows (scans (wanted_rows status job_type t)) wanted) newest

  -- Each request may scan the rows in another order: that of the request at an offset is `orders` of
  -- it. A client that asks for page after page while there are more, for a number of pages at most.
  unfoldable pub read_pages : ℕ → ℕ → List ExecutionRecord
  unfolding list_executions
  read_pages zero offset = []
  read_pages (suc n) offset =
      items_and (list_executions (orders offset) t status job_type limit offset)
        (read_pages n (offset + limit))

  items_and-page :
      (offset : ℕ) (all rest : List ExecutionRecord)
      → (ltb 0 (length (drop (offset + limit) all)) ≡ true → rest ≡ drop (offset + limit) all)
      → take limit (drop offset all)
          ++ (if ltb 0 (length (drop (offset + limit) all)) then rest else [])
        ≡ drop offset all
  items_and-page offset all rest follows =
      let e = drop-drop offset limit all in
      let whole = take-append-drop limit (drop offset all) in
      elim (Bool-cases (ltb 0 (length (drop (offset + limit) all)))) [
        | inl more ↦
            rw more (ap (◌++◌ (take limit (drop offset all))) (follows more ∙ sym e) ∙ whole)
        | inr last ↦ rw last (
            ap (◌++◌ (take limit (drop offset all)))
              (sym (no_more (drop (offset + limit) all) (ground (arith, last))) ∙ sym e)
            ∙ whole)
      ]

  read_pages-drop :
      (n offset : ℕ) (all : List ExecutionRecord)
      → 1 ≤ limit
      → limit ≤ 1000
      → ((k : ℕ) → records_of (selected_rows (orders k) status job_type t) ≡ some all)
      → length all < n + offset
      → read_pages n offset ≡ drop offset all
  unfolding read_pages
  read_pages-drop zero offset all low high reads short =
      sym (no_more (drop offset all) (omega (arith, length-drop offset all, short)))
  read_pages-drop (suc n) offset all low high reads short =
      ap (λ r. items_and r (read_pages n (offset + limit)))
        (list_executions-page offset all low high (reads offset))
      ∙ items_and-page offset all (read_pages n (offset + limit))
          (λ _. read_pages-drop n (offset + limit) all low high reads (omega (arith, short, low)))

  -- Take the rows of the table with the wanted status and job type, if one is wanted, in the order
  -- from the newest to the oldest, where no two are of one time, and let each be a record. If the
  -- limit is from 1 to 1000, a client that follows has_more from offset 0, the table being as it
  -- is, reads these records in that order and each once, in as many requests as there are records
  -- and one at most, whatever the order in which the server scans the rows for each request.
  pub list_executions-read_pages :
      (rows : List Row) (all : List ExecutionRecord)
      → ((offset : ℕ) (xs : List Row) → Reorders (orders offset xs) xs)
      → Reorders (wanted_rows status job_type t) rows
      → IsNewestFirst rows
      → records_of rows ≡ some all
      → 1 ≤ limit
      → limit ≤ 1000
      → read_pages (suc (length all)) 0 ≡ all
  list_executions-read_pages rows all scans wanted newest reads low high =
      read_pages-drop (suc (length all)) 0 all low high
        (λ k. ap records_of (selected_rows-wanted k rows (scans k) wanted newest) ∙ reads)
        (omega arith)
