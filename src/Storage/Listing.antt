-- ===== src/Storage/Listing.antt =====
-- tako_vm/storage.py: list_records.
use tako_vm.Prelude.{
  ℕ, String, Option, none, some, Bool, true, false, ◌&&◌, List, [], ◌∷◌, leb, take, drop,
  if◌then◌else◌, str_eq,
}
use tako_vm.Models.{Status}
use tako_vm.Models.Record.{ExecutionRecord}
use tako_vm.Storage.Columns.{Column, Value, Row}
use tako_vm.Storage.Records.{Table, holds}
use tako_vm.Storage.Decode.{row_to_record}
pub mod Order
pub mod Wanted

-- The text of a status, as the column has it.
abbrev pub status_text : Status → String
status_text Status.queued = "queued"
status_text Status.running = "running"
status_text Status.succeeded = "succeeded"
status_text Status.failed = "failed"
status_text Status.timeout = "timeout"
status_text Status.oom = "oom"
status_text Status.cancelled = "cancelled"

abbrev pub is_of_status : String → Option Value → Bool
is_of_status wanted (some (Value.status s)) = str_eq (status_text s) wanted
is_of_status wanted _ = false

-- A filter is absent if it is None or empty.
abbrev pub passes : (String → Option Value → Bool) → Option String → Option Value → Bool
passes test none cell = true
passes test (some wanted) cell = if str_eq wanted "" then true else test wanted cell

abbrev pub is_listed : (status job_type : Option String) → Row → Bool
is_listed status job_type r =
    passes is_of_status status (r Column.status) && passes holds job_type (r Column.job_type)

unfoldable pub matching_rows : (status job_type : Option String) → Table → List Row
matching_rows status job_type [] = []
matching_rows status job_type ((j, r) ∷ t) =
    let rest = matching_rows status job_type t in
    if is_listed status job_type r then r ∷ rest else rest

-- The column is NOT NULL.
abbrev pub created_of : Option Value → ℕ
created_of (some (Value.number n)) = n
created_of _ = 0

-- `ORDER BY created_at DESC`; rows of one time come in the order in which they are scanned.
unfoldable pub insert_row : Row → List Row → List Row
insert_row r [] = r ∷ []
insert_row r (x ∷ xs) =
    let rest = insert_row r xs in
    if leb (created_of (x Column.created_at)) (created_of (r Column.created_at))
    then r ∷ x ∷ xs
    else x ∷ rest

unfoldable pub by_created_at : List Row → List Row
unfolding insert_row
by_created_at [] = []
by_created_at (r ∷ rs) = insert_row r (by_created_at rs)

-- `order` is the order in which the server scans the rows for one query. The query has no
-- tie-breaker, so it decides between rows of one time, and another query may have another order.
unfoldable pub selected_rows :
    (List Row → List Row) → (status job_type : Option String) → Table → List Row
unfolding matching_rows by_created_at
selected_rows order status job_type t = by_created_at (order (matching_rows status job_type t))

abbrev pub and_then :
    Option ExecutionRecord → Option (List ExecutionRecord) → Option (List ExecutionRecord)
and_then none rest = none
and_then (some r) none = none
and_then (some r) (some rs) = some (r ∷ rs)

-- `none` is the ValidationError of a row that is no record.
unfoldable pub records_of : List Row → Option (List ExecutionRecord)
unfolding row_to_record
records_of [] = some []
records_of (row ∷ rows) = and_then (row_to_record row) (records_of rows)

unfoldable pub list_records :
    (List Row → List Row)
    → Table
    → (status job_type : Option String) → (limit offset : ℕ) → Option (List ExecutionRecord)
unfolding selected_rows records_of
list_records order t status job_type limit offset =
    records_of (take limit (drop offset (selected_rows order status job_type t)))
