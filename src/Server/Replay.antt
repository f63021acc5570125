-- ===== src/Server/Replay.antt =====
-- tako_vm/server/app.py: rerun_job and fork_job, with the replay artifacts that
-- tako_vm/execution/worker.py stores. A path is the list of its components; `canonical` gives the
-- resolved path of a key under the data directory, and stands for the links of the file system.
use Prim.Native.Char.{code}
use Prim.Native.String
use tako_vm.Prelude.{
  ℕ, String, Option, none, some, Bool, true, false, not, ◌&&◌, List, [], ◌∷◌, ◌++◌, ◌==◌,
  if◌then◌else◌, str_eq, map_option,
}
use tako_vm.Models.{Status, is_terminal}
use tako_vm.Models.Record.{ExecutionRecord, Artifact}
use tako_vm.Security.{validate_execution_id}
use tako_vm.Storage.Columns.{Value}
use tako_vm.Storage.Records.{Connection}
use tako_vm.Texts.{codes}
use tako_vm.JobTypes.Registry.{JobTypeRegistry}
use tako_vm.Execution.Timeouts.{Limits, validate_execution_timeout}
use tako_vm.Server.Queue.State.{Hashes, JobData, WorkerPool}
use tako_vm.Server.Queue.Calls.{Result, ok, raises, submit}
use tako_vm.Server.Submission.Endpoint.{HttpReply, accepted, error}
pub mod RoundTrip

abbrev pub FilePath : Type 0
FilePath = List String

-- The texts of the files.
abbrev pub Files : Type 0
Files = FilePath → Option String

unfoldable pub same_path : FilePath → FilePath → Bool
same_path [] [] = true
same_path [] (q ∷ qs) = false
same_path (p ∷ ps) [] = false
same_path (p ∷ ps) (q ∷ qs) = str_eq p q && same_path ps qs

abbrev pub write_text : FilePath → String → Files → Files
write_text p s files q = if same_path p q then some s else files q

-- `is_relative_to`
unfoldable pub is_under : FilePath → FilePath → Bool
is_under [] path = true
is_under (p ∷ ps) [] = false
is_under (p ∷ ps) (q ∷ qs) = str_eq p q && is_under ps qs

-- read_text in text mode: "\r\n" and "\r" are read as "\n".
abbrev pub starts_with_newline : String → Bool
starts_with_newline String.[] = false
starts_with_newline (String.◌∷◌ c s) = code c == 10

unfoldable pub universal_newlines : String → String
universal_newlines String.[] = ""
universal_newlines (String.◌∷◌ c s) =
    let rest = universal_newlines s in
    if code c == 13
    then if starts_with_newline s then rest else String.◌++◌ "\n" rest
    else String.◌∷◌ c rest

abbrev pub code_key : String → String
code_key id = String.◌++◌ "runs/" (String.◌++◌ id "/_code.py")

abbrev pub input_key : String → String
input_key id = String.◌++◌ "runs/" (String.◌++◌ id "/_input.json")

-- The parts of the artifacts that the files do not need: the sizes in bytes and the hashes.
pub record Measures : Type 0 where
  pub size_bytes : String → ℕ
  pub sha256_content : String → String
  pub sha256_json : String → String

abbrev pub code_artifact : Measures → String → String → Artifact
code_artifact m id text = record {
  name = "_code.py";
  size_bytes = m.size_bytes text;
  sha256 = m.sha256_content text;
  content_type = some "text/x-python";
  storage_key = code_key id;
}

abbrev pub input_artifact : Measures → String → String → Artifact
input_artifact m id text = record {
  name = "_input.json";
  size_bytes = m.size_bytes text;
  sha256 = m.sha256_json text;
  content_type = some "application/json";
  storage_key = input_key id;
}

unfoldable pub find_artifact : String → List Artifact → Option Artifact
find_artifact name [] = none
find_artifact name (a ∷ items) = if str_eq a.name name then some a else find_artifact name items

-- `name.startswith("_")`
abbrev pub is_internal : String → Bool
is_internal String.[] = false
is_internal (String.◌∷◌ c s) = code c == 95

unfoldable pub user_artifacts : List Artifact → List Artifact
user_artifacts [] = []
user_artifacts (a ∷ items) =
    let rest = user_artifacts items in if is_internal a.name then rest else a ∷ rest

-- _get_replay_data: an exception that is answered with a 400, or the code, the input and the artifacts.
pub data ReplayData : Type 0 where
  unavailable : ReplayData
  replay : String → String → List Artifact → ReplayData

module _ (canonical : String → FilePath) (data_dir : FilePath) where
  -- _store_replay_artifacts; a step that raises, by its number from 0, ends the storing. `none` is the
  -- ValueError of an unsafe id or of a directory outside `runs`.
  abbrev pub stored_until :
      Option ℕ → Measures → String → String → String → Files → List Artifact × Files
  stored_until none m id text input files = (
    code_artifact m id text ∷ input_artifact m id input ∷ [],
    write_text (canonical (input_key id)) input (write_text (canonical (code_key id)) text files),
  )
  stored_until (some step) m id text input files =
      if step == 0
      then ([], files)
      else (code_artifact m id text ∷ [], write_text (canonical (code_key id)) text files)

  unfoldable pub store_replay_artifacts :
      Option ℕ → Measures → String → String → String → Files → Option (List Artifact × Files)
  unfolding validate_execution_id codes is_under
  store_replay_artifacts raised m id text input files =
      if not (validate_execution_id (codes id))
      then none
      else if not (is_under (canonical "runs") (canonical (String.◌++◌ "runs/" id)))
      then none
      else some (stored_until raised m id text input files)

  -- The text of a stored key: _resolve_under_data_dir, exists and read_text.
  unfoldable pub read_key : Files → String → Option String
  unfolding is_under universal_newlines
  read_key files key =
      if is_under data_dir (canonical key)
      then map_option universal_newlines (files (canonical key))
      else none

  abbrev pub read_artifact : Files → Option Artifact → Option String
  unfolding read_key
  read_artifact files none = none
  read_artifact files (some a) = read_key files a.storage_key

  -- `loads` is the value of a JSON text, items its canonical text.
  abbrev pub loaded : (String → Option String) → Option String → Option String
  loaded loads none = none
  loaded loads (some text) = loads text

  abbrev pub replay_of : Option String → Option String → List Artifact → ReplayData
  replay_of (some text) (some input) items = replay text input items
  replay_of _ _ items = unavailable

  unfoldable pub get_replay_data : (String → Option String) → Files → List Artifact → ReplayData
  unfolding find_artifact user_artifacts read_key
  get_replay_data loads files items =
      replay_of (read_artifact files (find_artifact "_code.py" items))
        (loaded loads (read_artifact files (find_artifact "_input.json" items)))
        (user_artifacts items)

-- RerunRequest and ForkRequest
pub record ReplayRequest : Type 0 where
  pub job_type : Option String
  pub timeout : Option ℕ

-- `job_type or parent.job_type`
abbrev pub resolved_job_type : Option String → ExecutionRecord → String
resolved_job_type none parent = parent.job_type
resolved_job_type (some name) parent = if str_eq name "" then parent.job_type else name

-- `if timeout:`
abbrev pub given_timeout : Option ℕ → Option ℕ
given_timeout none = none
given_timeout (some t) = if t == 0 then none else some t

-- The job of _submit_replay. It has the artifacts too, which the pool and the executor do not read.
unfoldable pub replay_job :
    ExecutionRecord → String → String → String → ReplayRequest → Option String → JobData
replay_job parent relationship text input r correlation_id = record {
  code = text;
  input_data = input;
  job_type = some (resolved_job_type r.job_type parent);
  timeout = given_timeout r.timeout;
  startup_timeout = none;
  requirements = none;
  correlation_id = correlation_id;
  idempotency_key = none;
  idempotency_fingerprint = none;
  parent_execution_id = some parent.execution_id;
  relationship = some relationship;
}

-- The endpoints let an exception of submit through, a full queue too: the answer is a 500.
abbrev pub replay_reply : Result String × WorkerPool → HttpReply × WorkerPool
replay_reply (ok id, p) = (accepted (some (Value.text id)) (some (Value.status Status.queued)), p)
replay_reply (raises e, p) = (error 500, p)

module _ (h : Hashes) (config : Limits) (registry : JobTypeRegistry) (net net' : ℕ → Connection)
    (id : String) (r : ReplayRequest) (correlation_id ip : Option String) (now : ℕ)
    (p : WorkerPool) where
  -- _submit_replay
  unfoldable pub submit_replay : ExecutionRecord → String → String → String → HttpReply × WorkerPool
  unfolding validate_execution_timeout codes replay_job submit
  submit_replay parent relationship text input =
      if validate_execution_timeout config registry r.timeout
        (some (codes (resolved_job_type r.job_type parent)))
      then replay_reply (
          submit h net net' id (replay_job parent relationship text input r correlation_id) ip now
            p)
      else (error 422, p)

  abbrev pub rerun_of : ExecutionRecord → ReplayData → HttpReply × WorkerPool
  rerun_of parent unavailable = (error 400, p)
  rerun_of parent (replay text input items) = submit_replay parent "rerun" text input

  abbrev pub fork_of : ExecutionRecord → String → ReplayData → HttpReply × WorkerPool
  fork_of parent text unavailable = (error 400, p)
  fork_of parent text (replay old input items) = submit_replay parent "fork" text input

  module _ (canonical : String → FilePath) (data_dir : FilePath) (loads : String → Option String)
      (files : Files) where
    -- `parent` is what get_record gives.
    unfoldable pub rerun_job : Option ExecutionRecord → HttpReply × WorkerPool
    unfolding validate_execution_timeout get_replay_data submit_replay
    rerun_job parent =
        if not (validate_execution_timeout config registry r.timeout none)
        then (error 422, p)
        else elim parent [
          | none ↦ (error 404, p)
          | some record_ ↦
              if not (is_terminal record_.status)
              then (error 400, p)
              else rerun_of record_
                  (get_replay_data canonical data_dir loads files record_.input_artifacts)
        ]

    unfoldable pub fork_job : String → Option ExecutionRecord → HttpReply × WorkerPool
    unfolding validate_execution_timeout get_replay_data submit_replay
    fork_job text parent =
        if not (validate_execution_timeout config registry r.timeout none)
        then (error 422, p)
        else elim parent [
          | none ↦ (error 404, p)
          | some record_ ↦
              fork_of record_ text
                (get_replay_data canonical data_dir loads files record_.input_artifacts)
        ]
