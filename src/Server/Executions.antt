-- ===== src/Server/Executions.antt =====
-- tako_vm/server/app.py: list_executions and get_execution, up to the fields of the responses.
use tako_vm.Prelude.{
  ℕ, suc, String, Option, none, some, Bool, ◌&&◌, List, leb, ltb, take, length, if◌then◌else◌,
}
use tako_vm.Models.Record.{ExecutionRecord}
use tako_vm.Storage.Columns.{Row}
use tako_vm.Storage.Records.{Table}
use tako_vm.Storage.Decode.{Read, missing, invalid, found, read_record}
use tako_vm.Storage.Listing.{list_records}
pub mod Pages

-- PaginatedResponse
pub record PaginatedResponse : Type 0 where
  pub items : List ExecutionRecord
  pub limit : ℕ
  pub offset : ℕ
  pub has_more : Bool
  pub count : ℕ

pub data ListReply : Type 0 where
  page : PaginatedResponse → ListReply
  error : ℕ → ListReply

-- The records fetched, with one more than the limit.
abbrev pub page_of : (limit offset : ℕ) → Option (List ExecutionRecord) → ListReply
page_of limit offset none = error 500
page_of limit offset (some records) = page (record {
  items = take limit records;
  limit = limit;
  offset = offset;
  has_more = ltb limit (length records);
  count = length (take limit records);
})

-- `order` is the order of the scan, as in list_records. A limit outside 1 to 1000 is refused with a 422; an offset is not negative.
unfoldable pub list_executions :
    (List Row → List Row)
    → Table
    → (status job_type : Option String) → (limit offset : ℕ) → ListReply
unfolding list_records
list_executions order t status job_type limit offset =
    if leb 1 limit && leb limit 1000
    then page_of limit offset (list_records order t status job_type (suc limit) offset)
    else error 422

pub data ExecutionReply : Type 0 where
  execution : ExecutionRecord → ExecutionReply
  error : ℕ → ExecutionReply

abbrev pub execution_reply : Read → ExecutionReply
execution_reply missing = ExecutionReply.error 404
execution_reply invalid = ExecutionReply.error 500
execution_reply (found r) = execution r

unfoldable pub get_execution : Table → String → ExecutionReply
unfolding read_record
get_execution t id = execution_reply (read_record t id)
