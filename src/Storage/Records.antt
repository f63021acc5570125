-- ===== src/Storage/Records.antt =====
-- tako_vm/storage.py: the statements of ExecutionStorage on execution_records. A statement runs
-- whole or not at all; what the connection does at each attempt is an argument.
use tako_vm.Prelude.{
  ℕ, zero, suc, ◌+◌, ◌-◌, String, Option, none, some, Bool, true, false, not, ◌&&◌, [], ◌∷◌, leb,
  ltb, if◌then◌else◌, str_eq, Dict, get, put, map_values, or_else, map_option,
}
use tako_vm.Models.{Status, ErrorType, ExecutionError, is_terminal}
use tako_vm.Models.Record.{ExecutionRecord}
use tako_vm.Storage.Columns.{Column, Value, Row, policy, set_clause_for, extract}

abbrev pub Table : Type 0
Table = Dict Row

-- `status NOT IN (<terminal statuses>)`
abbrev pub is_live_status : Option Value → Bool
is_live_status (some (Value.status s)) = not (is_terminal s)
is_live_status _ = false

abbrev pub is_live : Row → Bool
is_live r = is_live_status (r Column.status)

-- `status = 'queued'`
abbrev pub is_queued_status : Option Value → Bool
is_queued_status (some (Value.status Status.queued)) = true
is_queued_status _ = false

-- Whether a cell holds the text k.
abbrev pub holds : String → Option Value → Bool
holds k (some (Value.text s)) = str_eq s k
holds k _ = false

-- The columns after DO UPDATE SET.
unfoldable pub merge : Row → Row → Row
merge existing new c = set_clause_for (policy c) (existing c) (new c)

-- The unique index on idempotency_key: another row than `id` holds the key.
unfoldable pub key_taken : Table → String → String → Bool
key_taken [] id k = false
key_taken ((j, r) ∷ t) id k =
    let rest = key_taken t id k in
    if not (str_eq j id) && holds k (r Column.idempotency_key) then true else rest

abbrev pub violates : Table → String → Option Value → Bool
violates t id (some (Value.text k)) = key_taken t id k
violates t id _ = false

-- The statement's rowcount with the table after it, or psycopg's IntegrityError.
pub data Once : Type 0 where
  affected : ℕ → Table → Once
  integrity_error : Once

abbrev pub write : Table → String → Row → Once
write t id r =
    if violates t id (r Column.idempotency_key) then integrity_error else affected 1 (put t id r)

abbrev pub upsert : Option Row → Table → String → Row → Once
upsert none t id new = write t id new
upsert (some existing) t id new =
    if is_live existing then write t id (merge existing new) else affected 0 t

-- _save_record_once: INSERT … ON CONFLICT (execution_id) DO UPDATE … WHERE.
unfoldable pub save_record_once : Table → ExecutionRecord → Once
save_record_once t r = upsert (get t r.execution_id) t r.execution_id (extract r)

-- What an attempt meets: a server that answers, or an OperationalError before the statement ran.
pub data Connection : Type 0 where
  up down : Connection

-- The end of save_record: written, refused by the guard (logged only), or an exception.
pub data Saved : Type 0 where
  written : Table → Saved
  refused : Saved
  integrity_error : Saved
  operational_error : Saved

abbrev pub saved : Once → Saved
saved (affected zero t) = refused
saved (affected (suc n) t) = written t
saved Once.integrity_error = Saved.integrity_error

-- _SAVE_RECORD_RETRY_DELAYS, in milliseconds.
abbrev pub retry_delay : ℕ → ℕ
retry_delay zero = 200
retry_delay (suc zero) = 800
retry_delay (suc (suc n)) = 2000

abbrev pub max_save_attempts : ℕ
max_save_attempts = 4

-- The loop over `range(attempts)`, with the attempts left and the milliseconds slept.
unfoldable pub save_loop : (ℕ → Connection) → Table → ExecutionRecord → ℕ → ℕ → ℕ → Saved × ℕ
save_loop net t r zero attempt slept = (operational_error, slept)
save_loop net t r (suc left) attempt slept = elim (net attempt) [
  | up ↦ (saved (save_record_once t r), slept)
  | down ↦
      if leb (max_save_attempts - 1) attempt
      then (operational_error, slept)
      else save_loop net t r left (suc attempt) (slept + retry_delay attempt)
]

unfoldable pub save_record : (ℕ → Connection) → Table → ExecutionRecord → Saved
save_record net t r = (save_loop net t r max_save_attempts 0 0).0

-- The table that a call leaves behind.
abbrev pub table_after : Table → Saved → Table
table_after t (written u) = u
table_after t refused = t
table_after t Saved.integrity_error = t
table_after t operational_error = t

unfoldable pub get_record : Table → String → Option Row
get_record t id = get t id

unfoldable pub get_by_idempotency_key : Table → String → Option Row
get_by_idempotency_key [] k = none
get_by_idempotency_key ((j, r) ∷ t) k =
    if holds k (r Column.idempotency_key) then some r else get_by_idempotency_key t k

-- UPDATE … SET status = 'running', dequeued_at = now, worker_id = w
unfoldable pub mark_row : ℕ → Option String → Row → Row
mark_row now w r Column.status = some (Value.status Status.running)
mark_row now w r Column.dequeued_at = some (Value.number now)
mark_row now w r Column.worker_id = map_option Value.text w
mark_row now w r c = r c

abbrev pub mark_found : Option Row → Table → String → Option String → ℕ → Table × Bool
mark_found none t id w now = (t, false)
mark_found (some r) t id w now =
    if is_queued_status (r Column.status) then (put t id (mark_row now w r), true) else (t, false)

unfoldable pub mark_record_running : Table → String → Option String → ℕ → Table × Bool
mark_record_running t id w now = mark_found (get t id) t id w now

abbrev pub interrupted_error : ExecutionError
interrupted_error = record {
  type = ErrorType.interrupted;
  message = "job interrupted by server restart before completion";
  phase = none;
}

-- UPDATE … SET status = 'failed', ended_at = now, error_json = COALESCE(error_json, …)
unfoldable pub interrupt_row : ℕ → Row → Row
interrupt_row now r Column.status = some (Value.status Status.failed)
interrupt_row now r Column.ended_at = some (Value.number now)
interrupt_row now r Column.error_json =
    or_else (r Column.error_json) (some (Value.error interrupted_error))
interrupt_row now r c = r c

-- WHERE status IN ('queued', 'running')
abbrev pub reconcile_row : ℕ → Row → Row
reconcile_row now r = if is_live r then interrupt_row now r else r

unfoldable pub count_live : Table → ℕ
count_live [] = 0
count_live ((j, r) ∷ t) = let rest = count_live t in if is_live r then suc rest else rest

unfoldable pub reconcile_stale_records : ℕ → Table → Table × ℕ
reconcile_stale_records now t = (map_values (reconcile_row now) t, count_live t)

-- `created_at < cutoff`
abbrev pub is_before : ℕ → Option Value → Bool
is_before cutoff (some (Value.number n)) = ltb n cutoff
is_before cutoff _ = false

-- DELETE … WHERE created_at < cutoff, with the number of rows deleted.
unfoldable pub cleanup_old_records : ℕ → Table → Table × ℕ
cleanup_old_records cutoff [] = ([], 0)
cleanup_old_records cutoff ((j, r) ∷ t) =
    let (kept, deleted) = cleanup_old_records cutoff t in
    if is_before cutoff (r Column.created_at) then (kept, suc deleted) else ((j, r) ∷ kept, deleted)
