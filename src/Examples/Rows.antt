-- ===== src/Examples/Rows.antt =====
-- tako_vm/storage.py: statements on a table of two rows.
use tako_vm.Prelude.{ℕ, String, none, some, List, [], ◌∷◌, ◌≡◌, refl, get, arith, zero, suc, put}
use tako_vm.Models.{Status}
use tako_vm.Models.Record.{ExecutionRecord, new_record}
use tako_vm.Storage.Columns.{Column, Value, Row, extract}
use tako_vm.Storage.Records.{
  Table, Connection, up, down, operational_error, saved, save_record_once, save_record, save_loop,
  is_live, merge, reconcile_stale_records,
}
use tako_vm.Storage.Decode.{read_record, found}
use tako_vm.Storage.Reading.{stored, save_record_once-read_record}
use tako_vm.Storage.Effects.{Statement, save, mark, reconcile, perform_all}
use tako_vm.Storage.Terminal.{perform_all-terminal}
use tako_vm.Storage.Identity.{perform_all-identity}
use tako_vm.Storage.Unique.{IsUnique, perform_all-IsUnique}

abbrev flaky : ℕ → Connection
flaky zero = down
flaky (suc n) = up

abbrev keyed : String → Status → ExecutionRecord
keyed id status = record (new_record id 10) { status = status; idempotency_key = some "key" }

abbrev done : Table
done = ("a", extract (keyed "a" Status.succeeded)) ∷ []

abbrev waiting : Table
waiting = ("a", extract (keyed "a" Status.queued)) ∷ []

abbrev statements : List Statement
statements =
    save flaky (keyed "a" Status.failed)
    ∷ mark "a" none 20
    ∷ reconcile 30
    ∷ save flaky (keyed "b" Status.queued)
    ∷ []

perform_all-terminal_example :
    get (perform_all done statements) "a" ≡ some (extract (keyed "a" Status.succeeded))
unfolding get extract
perform_all-terminal_example =
    perform_all-terminal done statements "a" (extract (keyed "a" Status.succeeded)) refl refl

perform_all-identity_example :
    (after : Row) × (get (perform_all waiting statements) "a" ≡ some after)
    × (after Column.idempotency_key ≡ some (Value.text "key"))
unfolding get tako_vm.Storage.Columns.policy extract
perform_all-identity_example =
    perform_all-identity waiting statements "a" Column.idempotency_key
      (extract (keyed "a" Status.queued)) (Value.text "key") refl refl refl

no_rows : IsUnique []
unfolding get
no_rows i j k r s h h' held held' = absurd (ground (arith, h))

perform_all-IsUnique_example : IsUnique (perform_all [] statements)
perform_all-IsUnique_example = perform_all-IsUnique [] statements no_rows

save_record_once-read_record_example :
    read_record
      (("a", merge (extract (keyed "a" Status.queued)) (extract (keyed "a" Status.failed))) ∷ [])
      "a"
    ≡ found (stored (some (keyed "a" Status.queued)) (keyed "a" Status.failed))
unfolding new_record get save_record_once put extract merge tako_vm.Storage.Columns.set_clause_for
    tako_vm.Storage.Columns.policy tako_vm.Storage.Records.key_taken
save_record_once-read_record_example =
    save_record_once-read_record waiting
      (("a", merge (extract (keyed "a" Status.queued)) (extract (keyed "a" Status.failed))) ∷ [])
      (keyed "a" Status.failed) (some (keyed "a" Status.queued)) 0 refl refl tt
