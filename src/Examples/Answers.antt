-- ===== src/Examples/Answers.antt =====
-- tako_vm/server/app.py: an artifact that is downloaded, the pages of the executions, and a result
-- after a restart.
use tako_vm.Prelude.{
  IsAmong, get, ◌≤◌, String, some, Bool, true, false, List, [], ◌∷◌, ◌≡◌, refl, arith, ◌⊎◌,
}
use tako_vm.Models.Record.{ExecutionRecord, Artifact, new_record}
use tako_vm.Security.{is_safe_filename}
use tako_vm.Models.{Status, is_terminal}
use tako_vm.Storage.Columns.{Column, Row, extract}
use tako_vm.Storage.Records.{Table, reconcile_stale_records}
use tako_vm.Storage.Decode.{read_row}
use tako_vm.Server.Queue.Calls.{is_terminal_row}
use tako_vm.Server.Results.{timed_out, read_reply, get_job_result}
use tako_vm.Server.Results.Restarted.{IsInterrupted, get_job_result-restarted}
use tako_vm.Examples.Keys.{pool}
use tako_vm.Texts.{codes}
use tako_vm.Execution.Worker.Artifacts.{Entry, artifact_of, storage_key, collect_artifacts}
use tako_vm.Server.Replay.{FilePath, is_under}
use tako_vm.Server.Artifacts.{file, metadata, listed_artifact, artifact_metadata}
use tako_vm.Server.Artifacts.Served.{
  IsSource, download_artifact-IsConfined, download_artifact-collected,
}
use tako_vm.Storage.Listing.Order.{Reorders, nil, cons, swap, IsNewestFirst}
use tako_vm.Storage.Listing.Wanted.{wanted_rows}
use tako_vm.Server.Executions.Pages.{read_pages, list_executions-read_pages}

abbrev entry : Entry
entry = record { name = "a"; is_symlink = false; is_file = true; size = 5; copied = some "h" }

abbrev job : ExecutionRecord
job = record (new_record "a" 10) { artifacts = artifact_of "a" entry "h" ∷ [] }

abbrev canonical : String → FilePath
canonical key = "data" ∷ key ∷ []

abbrev present : FilePath → Bool
present path = true

download_artifact-IsConfined_example :
    (a : Artifact) × (listed_artifact (some job) "a" ≡ some a)
    × IsSource canonical
        ("data" ∷ [])
        present
        "a"
        ("data" ∷ "runs/a/artifacts/a" ∷ [])
        "application/octet-stream"
        "a"
        "h"
        a
    × (artifact_metadata (some job) "a" ≡ metadata a.size_bytes "application/octet-stream" "h")
unfolding tako_vm.Server.Artifacts.download_artifact
download_artifact-IsConfined_example =
    download_artifact-IsConfined canonical ("data" ∷ []) present "a"
      ("data" ∷ "runs/a/artifacts/a" ∷ []) "application/octet-stream" "a" "h" (some job) refl

download_artifact-collected_example :
    (is_under ("data" ∷ []) ("data" ∷ "runs/a/artifacts/a" ∷ []) ≡ true)
    × ("data" ∷ "runs/a/artifacts/a" ∷ [] ≡ canonical (storage_key "a" "a"))
    × ((e : Entry) × IsAmong e (entry ∷ [])
        × (e.name ≡ "a")
        × (e.copied ≡ some "h")
        × (e.is_file ≡ true)
        × (e.is_symlink ≡ false)
        × (is_safe_filename (codes e.name) ≡ true)
        × (e.size ≤ 10))
unfolding tako_vm.Server.Artifacts.download_artifact collect_artifacts new_record
download_artifact-collected_example =
    download_artifact-collected "a" 10 canonical ("data" ∷ []) present 20 (entry ∷ []) job refl "a"
      ("data" ∷ "runs/a/artifacts/a" ∷ []) "application/octet-stream" "a" "h" refl

abbrev older : ExecutionRecord
older = new_record "a" 10

abbrev newer : ExecutionRecord
newer = new_record "b" 20

abbrev stored : Table
stored = ("a", extract older) ∷ ("b", extract newer) ∷ []

-- A scan that gives two rows in the other order.
abbrev swapped : List Row → List Row
swapped [] = []
swapped (r ∷ []) = r ∷ []
swapped (r ∷ s ∷ rs) = s ∷ r ∷ rs

swapped-Reorders : (xs : List Row) → Reorders (swapped xs) xs
swapped-Reorders [] = nil
swapped-Reorders (r ∷ []) = cons r [] [] nil
swapped-Reorders (r ∷ s ∷ rs) = swap s r rs

list_executions-read_pages_example :
    read_pages (λ offset. swapped) stored (some "queued") (some "default") 1 3 0
    ≡ newer ∷ older ∷ []
unfolding wanted_rows extract new_record tako_vm.Storage.Listing.records_of IsNewestFirst
list_executions-read_pages_example =
    list_executions-read_pages (λ offset. swapped) stored (some "queued") (some "default") 1
      (extract newer ∷ extract older ∷ []) (newer ∷ older ∷ []) (λ offset. swapped-Reorders)
      (swap (extract older) (extract newer) []) ((omega arith, tt), (tt, tt)) refl (omega arith)
      (omega arith)

-- A job that was queued when the server stopped, at time 30.
abbrev stale : Table
stale = ("a", extract older) ∷ []

get_job_result-restarted_example :
    let p = record pool { storage = (reconcile_stale_records 30 stale).0 } in
    (after : Row) × (get_job_result true timed_out "a" p ≡ read_reply (read_row (some after)))
    × (is_terminal_row (after Column.status) ≡ true)
    × (((is_terminal Status.queued ≡ true) × (after ≡ extract older))
        ⊎ ((is_terminal Status.queued ≡ false) × IsInterrupted 30 (extract older) after))
unfolding get extract new_record
get_job_result-restarted_example =
    get_job_result-restarted 30 stale
      (record pool { storage = (reconcile_stale_records 30 stale).0 }) "a" (extract older)
      Status.queued refl refl refl true timed_out refl refl
