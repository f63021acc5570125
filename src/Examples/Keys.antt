-- ===== src/Examples/Keys.antt =====
-- tako_vm/server/app.py: requests with an idempotency key, and tasks at its lock.
use tako_vm.Prelude.{
  ℕ, String, none, some, false, List, [], ◌∷◌, ◌≡◌, refl, get, occurs, arith, ◌≤◌, sym, ◌∙◌, str_eq,
  eq_iff, Bool-cases, inl, inr,
}
use tako_vm.Models.{Status}
use tako_vm.Models.Record.{new_record}
use tako_vm.Storage.Columns.{Row, extract}
use tako_vm.Storage.Records.{Table, Connection, up}
use tako_vm.Storage.Effects.{Statement, save, mark, perform_all}
use tako_vm.Storage.Unique.{IsUnique}
use tako_vm.Storage.Keys.{IsKeyed}
use tako_vm.Server.Queue.State.{Hashes, WorkerPool}
use tako_vm.Server.Queue.Steps.{idle_workers}
use tako_vm.Server.Submission.{ExecuteRequest, conflict, check_key}
use tako_vm.Server.Submission.Repeat.{IsSubmitted, check_key-conflict}
use tako_vm.Server.Idempotency.{Event, enters, locks_it, releases, deregisters, run, new_manager}
use tako_vm.Server.Idempotency.Locks.{total, is_inside, refers}
use tako_vm.Server.Idempotency.Exclusion.{run-exclusive}

abbrev pub hashes : Hashes
hashes = record { sha256_content = λ s. s; sha256_json = λ s. s }

abbrev pub online : ℕ → Connection
online n = up

abbrev pub fingerprint : ExecuteRequest → String
fingerprint r = r.code

abbrev pub sent : String → ExecuteRequest
sent code = record {
  code = code;
  input_data = "{}";
  job_type = none;
  timeout = none;
  startup_timeout = none;
  requirements = none;
  idempotency_key = some "key";
}

abbrev pub pool : WorkerPool
pool = record {
  max_queue_size = 2;
  queue = [];
  active_jobs = [];
  running_jobs = [];
  jobs = [];
  workers = idle_workers ("w" ∷ []);
  storage = [];
  dlq = [];
  cancelling = [];
  killing = [];
  signalled = [];
  shutdown = false;
}

pub no_keys : IsKeyed []
unfolding occurs
no_keys k = omega arith

pub no_rows : IsUnique []
unfolding get
no_rows i j k r s h h' held held' = absurd (ground (arith, h))

abbrev later : List Statement
later =
    mark "a" none 20 ∷ save online (record (new_record "a" 10) { status = Status.succeeded }) ∷ []

abbrev first_row : Row
first_row = extract (record (new_record "a" 10) {
  idempotency_key = some "key";
  idempotency_fingerprint = some "print(1)";
})

abbrev one_row : Table
one_row = ("a", first_row) ∷ []

one_key : IsKeyed one_row
unfolding occurs
one_key k = ground arith

only_a : (i : String) (r : Row) → get one_row i ≡ some r → "a" ≡ i
unfolding get
only_a i r h = elim (Bool-cases (str_eq "a" i)) [
  | inl same ↦ (eq_iff "a" i).0 same
  | inr other ↦ absurd (ground (arith, rw other at h))
]

row-IsUnique : IsUnique one_row
row-IsUnique i j k r s h h' held held' = sym (only_a i r h) ∙ only_a j s h'

stored : IsSubmitted one_row "a" "key" "print(1)"
unfolding get extract new_record
stored = record {
  row = first_row;
  found = refl;
  id_column = refl;
  key_column = refl;
  print_column = refl;
}

check_key-conflict_example :
    check_key fingerprint (sent "print(2)") (perform_all one_row later) ≡ some conflict
check_key-conflict_example =
    check_key-conflict fingerprint (sent "print(2)") "key" refl one_row "a" "print(1)" later one_key
      row-IsUnique stored refl refl

abbrev events : List Event
events =
    enters "t" "key"
    ∷ enters "u" "key"
    ∷ locks_it "t"
    ∷ locks_it "u"
    ∷ releases "t"
    ∷ deregisters "t"
    ∷ []

run-exclusive_example :
    let m = run (new_manager ("t" ∷ "u" ∷ [])) events in
    (total (is_inside "key") m.tasks ≤ 1)
    × (total (refers "key") m.tasks ≡ 0 → (get m.locks "key" ≡ none) × (get m.waiters "key" ≡ none))
run-exclusive_example = run-exclusive ("t" ∷ "u" ∷ []) events "key"
