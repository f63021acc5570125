-- ===== src/Lib.antt =====
-- Verification of Tako VM, a server that runs untrusted Python code in containers.
--
-- The program. A request reaches ApiProtectionMiddleware (tako_vm/server/limits.py), which
-- authenticates it, limits its rate and its size, and passes it to the application
-- (tako_vm/server/app.py). That submits a job to WorkerPool (tako_vm/server/queue.py), whose workers
-- run CodeExecutor (tako_vm/execution/worker.py) in a container and save what came of it in
-- ExecutionStorage (tako_vm/storage.py). The records are those of tako_vm/models.py. The circuit
-- breaker and the cleanup are in tako_vm/execution/health.py, the backoff in
-- tako_vm/execution/retry.py, and the validators of foreign texts in tako_vm/security.py. The job
-- types and their registry are in tako_vm/job_types.py, with the models that check them in
-- tako_vm/config.py, their built versions in tako_vm/version.py, the arguments that isolate a
-- container in tako_vm/execution/docker.py. tako_vm/sandbox.py runs code in a container without the
-- server, and tako_vm/sdk/client.py is the client of the server's API.
--
-- The files.
--   Models, Models/Record: the statuses, errors and records of tako_vm/models.py.
--   Storage: the table execution_records. Columns has the columns with their update policies
--     (_EXECUTION_COLUMNS, _set_clause_for), Records the statements (save_record,
--     mark_record_running, reconcile_stale_records, get_record, cleanup_old_records). Effects
--     relates the table before and after a statement; Terminal, Identity and Unique are about
--     sequences of statements. Listing is list_records, of which Listing/Order is about the order
--     and Listing/Wanted about the filters, Decode is _row_to_record, RoundTrip and Reading are about a row that is written and read.
--     Sessions has the tables sessions and session_events (save_session, touch_session,
--     save_session_event, list_session_events), DeadLetters the table dead_letter_queue
--     (add_to_dlq, remove_from_dlq, cleanup_old_dlq_entries).
--   Versions: the table job_versions (save_version, get_version_by_digest, get_version_by_tag,
--     list_versions) with VersionManager.resolve, version_exists and parse_job_type_ref; Reference
--     is about full_ref.
--   Texts: the operations of str that the files share (strip, split, startswith, lower, int); Laws
--     is about them.
--   JobTypes: JobType of tako_vm/job_types.py. Config has the models of tako_vm/config.py with
--     their validators, from_config and to_config, Dictionary the JSON values with to_dict and
--     from_dict, Registry is JobTypeRegistry and the job types that every server has; RoundTrip and
--     Registry/Saved are about them.
--   Server/Queue: the pool. State has QueuedJob, WorkerPool and the records that it builds, Calls
--     and Cancel what clients call (submit, wait_for_result, get_job_status; cancel, stop), Worker
--     the steps of _worker_loop between its awaits, Steps the events of a pool. Worked and
--     Iteration are about one step of a worker, Tracking, Taking, Calling and Reach are the
--     invariant over all orders of events, Guarantees, Admission and Answers what clients get.
--   Server/Limits: FixedWindowRateLimiter.allow and _cleanup_if_needed, _buffer_and_validate_body
--     and _dispatch; Window and Rate are about the limiter, Dispatch about the checks.
--     Limits/Headers: _extract_api_key, _authenticate_request, _get_content_length and the exempt
--     paths, with validate_api_keys of the configuration; Headers/Keys and Headers/Accepted are
--     about who is authenticated. Limits/Access: host_is_loopback and ensure_bind_host_allowed of
--     the configuration; Access/Protected is about a server on the network.
--   Server/Idempotency: IdempotencyLockManager of tako_vm/server/app.py, a step for each stretch of
--     a task in acquire; Locks, Moves and Exclusion are about any interleaving. Server/Submission:
--     _submit_async_job, the check of the key and the submission, and Submission/Endpoint is
--     execute_code_async; Repeat, Accepted and Served are about a request that is sent again.
--     Storage/Keys is about get_by_idempotency_key. Server/Replay: rerun_job and fork_job with
--     _store_replay_artifacts of the executor; RoundTrip is about the code that comes back.
--     Server/Artifacts: download_artifact and artifact_metadata; Artifacts/Served is about the
--     files served. Server/Executions: list_executions and get_execution; Pages is about a client
--     that reads page after page. Server/Results: get_job_result; Results/Restarted is about a pool
--     that starts on the table that reconcile_stale_records leaves.
--   Sdk: the client of tako_vm/sdk/client.py. Submit is submit_code, whose attempts run
--     execute_code_async; Submit/Answers is about one attempt, Submit/Once about a whole call.
--     Timeouts is _resolve_read_timeout with the cache of _job_type_timeout, Timeouts/Covers
--     compares it with the budgets of the executor.
--   Execution/Health: DockerCircuitBreaker and cleanup_orphaned_containers; Health/Circuit has the
--     circuit without the counters of the breaker. Execution/Retry: calculate_delay, RetryContext
--     and is_transient_error. Execution/Worker: the final status and the retry loop of
--     execute_job_with_record, resolve_runtime, check_gvisor_available and _collect_artifacts; Settled
--     and Outcome are about the final status.
--     Execution/Phase: parse_phase_file, prune_stale_workspaces and prune_old_run_dirs.
--     Execution/Timeouts: _get_job_type, _resolve_execution_timeout, the budgets of the pool's
--     watchdog and of the application, and the configuration's validate_timeouts.
--   Execution/Docker: base_isolation_args, the answers of docker and the file of requirements;
--     Docker/Session is validate_session_workspace_dir with the commands of sessions.
--   Execution/Container: the docker command of _run_container and _resolve_image; Select and Parts
--     say what the options of a command are, Command what those of a job's are, and Run is
--     _run_container with the breaker, about which Run/Removal is.
--   Sandbox: Sandbox.run and _build_docker_command of tako_vm/sandbox.py; Image is _ensure_image
--     and the probe of the runtimes, Isolation compares its command with that of the server, Removal
--     is about run.
--   Security: is_safe_filename, validate_env_key, validate_env_value, validate_execution_id,
--     validate_docker_run_args and cap_output; Security/Requirement is validate_pip_requirement,
--     Security/Image validate_docker_image, Security/Classify classify_error, with the pattern of
--     killed processes as a search.
--   Examples: the models at concrete inputs.
--
-- How state is modelled. A pool, a limiter and a breaker are records, and each operation is a
-- function from the state to the state after it. A coroutine is cut at its awaits: one step runs
-- from the end of an await to the next one, and what the await gives is the step's input, so a
-- list of events stands for any interleaving. submit is one step with its saves: nothing names its
-- fresh identifier before it returns, and events between its saves are not interleaved. The drain
-- of stop is one step as well. A job object that several collections share is one entry of the
-- pool's dictionary of jobs. A statement of the database runs whole or not at all, and whether
-- the server is reached is an argument for each attempt. A request with an idempotency key holds the
-- key's lock from the check to the end of its submission, so requests with one key are served one
-- after another, also where the client has given up an earlier one.
--
-- Bounds. save_record has four attempts and the retry loop the configured number, and both recur on
-- the attempts left; an iteration of a worker has six waits at most. The loops of
-- validate_pip_requirement have one more unit of fuel than characters left, and each round takes a
-- character. The decimal text of a number has one unit of fuel more than its value, and each digit
-- makes the value smaller. Numbers are natural numbers, since Python's have no width; times are
-- clock ticks, and an elapsed time is compared as a sum. A float of a job type is a number of
-- tenths, so one between two tenths is not in the model. A text is the list of its code points, or
-- a String where it is only compared. `lower` changes the capital letters of ASCII and the two
-- other characters whose small forms have an ASCII letter, which decides a search for an ASCII
-- text; `int` reads ASCII digits. A table without an ORDER BY has its rows in any order, which is
-- the order of the list; where an ORDER BY leaves ties, the order of the scan is an argument of the
-- query in list_records and list_sessions, and that of the list in list_versions. An
-- ExecutionRecord has no limits on its fields and an ExecutionError none on its message: in the
-- source a key of more than 128 characters or a job type's name of more than 64 makes _build_record
-- raise.
--
-- Parameters. The two hash functions, compute_idempotency_fingerprint, which is a hash of the
-- request, the decimal texts of numbers and sanitize_error are arguments, as are the results of the
-- container runtime, of `docker ps` and of the database connection, json.loads, the decoding of a
-- header's bytes and the text of a float. So are `str.isalnum`, the classes \w and \d of a regular
-- expression, `float` of a text and pydantic's conversion of a JSON value to an int, the last with
-- the hypothesis that it keeps an int. The answers of the file system are data, such as PhaseFile
-- and the real path of a workspace.
--
-- Not modelled: FastAPI's routes and their responses, the command line, the other calls of the
-- client SDK and the code that it generates, the reading of the configuration, the building of a
-- job type's image, the expiry of the image caches, whose present answers are data, the digests of job types, which are SHA-256 of a JSON text, the migrations,
-- logging and metrics, which are input and output around the parts above.
pub mod Prelude
pub mod Models
pub mod Storage
pub mod JobTypes
pub mod Texts
pub mod Security
pub mod Execution
pub mod Sandbox
pub mod Versions
pub mod Server
pub mod Sdk
pub mod Examples
