-- ===== src/Storage/RoundTrip.antt =====
-- tako_vm/storage.py: a record that is stored is read back as it was.
use tako_vm.Prelude.{
  ℕ, String, Option, none, some, true, ◌≡◌, refl, arith, map_option, is_some, ◌||◌,
}
use tako_vm.Models.{ℤ}
use tako_vm.Models.Record.{ExecutionRecord, ResourceUsage, ExecutionTiming}
use tako_vm.Models.{ExecutionError}
use tako_vm.Storage.Columns.{Value, extract}
use tako_vm.Storage.Decode.{
  optional, number_of, text_of, code_of, usage_of, usage_cells, row_to_record, timing_of, error_of,
}

optional-number : (o : Option ℕ) → optional number_of (map_option Value.number o) ≡ some o
optional-number none = refl
optional-number (some n) = refl

optional-text : (o : Option String) → optional text_of (map_option Value.text o) ≡ some o
optional-text none = refl
optional-text (some n) = refl

optional-code : (o : Option ℤ) → optional code_of (map_option Value.code o) ≡ some o
optional-code none = refl
optional-code (some n) = refl

timing_of-timing : (o : Option ExecutionTiming) → timing_of (map_option Value.timing o) ≡ o
timing_of-timing none = refl
timing_of-timing (some n) = refl

error_of-error : (o : Option ExecutionError) → error_of (map_option Value.error o) ≡ o
error_of-error none = refl
error_of-error (some n) = refl

-- A usage that has a metric.
abbrev pub HasMetric : Option ResourceUsage → Type 0
HasMetric none = Unit
HasMetric (some u) =
    (is_some u.max_rss_mb || is_some u.cpu_time_ms || is_some u.wall_time_ms) ≡ true

-- The three cells of a usage.
usage_cells-number :
    (a b c : Option ℕ)
    → (is_some a || is_some b || is_some c) ≡ true
    → usage_cells
        (map_option Value.number a)
        (map_option Value.number b)
        (map_option Value.number c)
      ≡ some (some (record { max_rss_mb = a; cpu_time_ms = b; wall_time_ms = c }))
unfolding usage_cells
usage_cells-number none none none h = ground (arith, h)
usage_cells-number none none (some c) h = refl
usage_cells-number none (some b) none h = refl
usage_cells-number none (some b) (some c) h = refl
usage_cells-number (some a) none none h = refl
usage_cells-number (some a) none (some c) h = refl
usage_cells-number (some a) (some b) none h = refl
usage_cells-number (some a) (some b) (some c) h = refl

usage_of-extract :
    (r : ExecutionRecord) (o : Option ResourceUsage)
    → r.resource_usage ≡ o
    → HasMetric o
    → usage_of (extract r) ≡ some r.resource_usage
unfolding usage_of extract
usage_of-extract r none e has = rw e refl
usage_of-extract r (some u) e has =
    rw e (usage_cells-number u.max_rss_mb u.cpu_time_ms u.wall_time_ms has)

pub row_to_record-extract :
    (r : ExecutionRecord) → HasMetric r.resource_usage → row_to_record (extract r) ≡ some r
unfolding row_to_record extract
row_to_record-extract r has =
    rw
      (
        optional-number r.dequeued_at,
        optional-number r.started_at,
        optional-number r.ended_at,
        optional-number r.duration_ms,
        optional-text r.worker_id,
        optional-text r.runtime,
        optional-text r.idempotency_key,
        optional-text r.idempotency_fingerprint,
        optional-code r.exit_code,
        optional-text r.result_json,
        optional-text r.client_ip,
        optional-text r.correlation_id,
        optional-text r.parent_execution_id,
        optional-text r.relationship,
        optional-text r.session_id,
        usage_of-extract r r.resource_usage refl has,
        timing_of-timing r.timing,
        error_of-error r.error,
      )
      refl
