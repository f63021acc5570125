-- ===== src/Storage/Reading.antt =====
-- tako_vm/storage.py: a record is read back as the upsert leaves it.
use tako_vm.Prelude.{
  ℕ, suc, String, Option, none, some, Bool, true, false, ◌≡◌, refl, sym, arith, ap, ◌∙◌, map_option,
  or_else, get, put, get-put, eq_refl, if◌then◌else◌,
}
use tako_vm.Models.Record.{ExecutionRecord}
use tako_vm.Storage.Columns.{Column, Value, Row, extract, policy, set_clause_for}
use tako_vm.Storage.Records.{
  Table, Once, affected, integrity_error, merge, write, upsert, save_record_once, is_live, violates,
}
use tako_vm.Storage.Decode.{found, read_record, read_row, decoded}
use tako_vm.Storage.RoundTrip.{HasMetric, row_to_record-extract}

-- The upsert on records: what identifies the submission stays, the rest is new.
unfoldable pub merge_record : ExecutionRecord → ExecutionRecord → ExecutionRecord
merge_record old new = record new {
  execution_id = old.execution_id;
  created_at = old.created_at;
  queued_at = old.queued_at;
  dequeued_at = or_else old.dequeued_at new.dequeued_at;
  worker_id = or_else new.worker_id old.worker_id;
  idempotency_key = or_else old.idempotency_key new.idempotency_key;
  idempotency_fingerprint = or_else old.idempotency_fingerprint new.idempotency_fingerprint;
  code_hash = old.code_hash;
  input_hash = old.input_hash;
  params_hash = old.params_hash;
  input_artifacts_hash = old.input_artifacts_hash;
  client_ip = or_else old.client_ip new.client_ip;
  correlation_id = or_else old.correlation_id new.correlation_id;
  parent_execution_id = or_else old.parent_execution_id new.parent_execution_id;
  relationship = or_else old.relationship new.relationship;
  runtime = or_else new.runtime old.runtime;
  session_id = or_else old.session_id new.session_id;
}

map_option-or_else {ℓ κ} :
    {A : Type ℓ} {B : Type κ} (f : A → B) (a b : Option A)
    → or_else (map_option f a) (map_option f b) ≡ map_option f (or_else a b)
map_option-or_else f none b = refl
map_option-or_else f (some a) b = refl

merge-extract :
    (old new : ExecutionRecord) (c : Column)
    → merge (extract old) (extract new) c ≡ extract (merge_record old new) c
unfolding merge extract merge_record policy set_clause_for
merge-extract old new Column.dequeued_at =
    map_option-or_else Value.number old.dequeued_at new.dequeued_at
merge-extract old new Column.worker_id = map_option-or_else Value.text new.worker_id old.worker_id
merge-extract old new Column.idempotency_key =
    map_option-or_else Value.text old.idempotency_key new.idempotency_key
merge-extract old new Column.idempotency_fingerprint =
    map_option-or_else Value.text old.idempotency_fingerprint new.idempotency_fingerprint
merge-extract old new Column.client_ip = map_option-or_else Value.text old.client_ip new.client_ip
merge-extract old new Column.correlation_id =
    map_option-or_else Value.text old.correlation_id new.correlation_id
merge-extract old new Column.parent_execution_id =
    map_option-or_else Value.text old.parent_execution_id new.parent_execution_id
merge-extract old new Column.relationship =
    map_option-or_else Value.text old.relationship new.relationship
merge-extract old new Column.runtime = map_option-or_else Value.text new.runtime old.runtime
merge-extract old new Column.session_id =
    map_option-or_else Value.text old.session_id new.session_id
merge-extract old new _ = refl

merged-extract :
    (old new : ExecutionRecord) → merge (extract old) (extract new) ≡ extract (merge_record old new)
merged-extract old new = λ i c. merge-extract old new c i

-- The record that a row of an older one, or no row, and a new record give.
abbrev pub stored : Option ExecutionRecord → ExecutionRecord → ExecutionRecord
unfolding merge_record
stored none new = new
stored (some old) new = merge_record old new

write-affected :
    (t u : Table) (id : String) (row : Row) (n : ℕ)
    → write t id row ≡ affected (suc n) u
    → get u id ≡ some row
write-affected t u id row n e = by_test (violates t id (row Column.idempotency_key)) e
  where
    table : Once → Table
    table (affected m v) = v
    table integrity_error = t

    by_test :
        (b : Bool)
        → (if b then integrity_error else affected 1 (put t id row)) ≡ affected (suc n) u
        → get u id ≡ some row
    by_test true h = ground (arith, h)
    by_test false h =
        ap (λ o. get (table o) id) (sym h) ∙ get-put t id id row ∙ rw (eq_refl id) refl

upsert-affected :
    (t u : Table) (new : ExecutionRecord) (old : Option ExecutionRecord) (n : ℕ)
    → upsert (map_option extract old) t new.execution_id (extract new) ≡ affected (suc n) u
    → get u new.execution_id ≡ some (extract (stored old new))
unfolding stored
upsert-affected t u new none n e = write-affected t u new.execution_id (extract new) n e
upsert-affected t u new (some old) n e = by_test (is_live (extract old)) e
  where
    by_test :
        (b : Bool)
        → (if b then write t new.execution_id (merge (extract old) (extract new)) else affected 0 t)
          ≡ affected (suc n) u
        → get u new.execution_id ≡ some (extract (stored (some old) new))
    by_test true h =
        write-affected t u new.execution_id (merge (extract old) (extract new)) n h
        ∙ ap some (merged-extract old new)
    by_test false h = ground (arith, h)

-- If the table has no row of the record's id, or the row that stores an older record, and the
-- upsert writes a row, then get_record gives the new record, or the older one's identity with the
-- new record's other fields; a resource usage with no metric is left out.
pub save_record_once-read_record :
    (t u : Table) (new : ExecutionRecord) (old : Option ExecutionRecord) (n : ℕ)
    → get t new.execution_id ≡ map_option extract old
    → save_record_once t new ≡ affected (suc n) u
    → HasMetric new.resource_usage
    → read_record u new.execution_id ≡ found (stored old new)
unfolding save_record_once read_record stored
save_record_once-read_record t u new old n present e has =
    ap read_row (
      upsert-affected t u new old n
        (ap (λ o. upsert o t new.execution_id (extract new)) (sym present) ∙ e))
    ∙ ap decoded (row_to_record-extract (stored old new) (stored-HasMetric old))
  where
    stored-HasMetric : (o : Option ExecutionRecord) → HasMetric (stored o new).resource_usage
    stored-HasMetric none = has
    stored-HasMetric (some o) = has
