-- ===== src/Sdk/Timeouts.antt =====
-- tako_vm/sdk/client.py: how long the client waits for the answer of a synchronous execution, in
-- seconds.
use tako_vm.Prelude.{ℕ, ◌+◌, Option, none, some, Bool, true, false, List, [], ◌∷◌, if◌then◌else◌}
use tako_vm.Security.{Text, same_text, is_empty}
use tako_vm.Texts.{codes}
use tako_vm.JobTypes.{JobType}
use tako_vm.JobTypes.Registry.{JobTypeRegistry, get_type}
use tako_vm.Execution.Timeouts.{base_name, or_value}
pub mod Covers

-- The server's answer to GET /job-types/{name}: the field `timeout` where it is an int, or one of the
-- client's errors.
pub data Looked : Type 0 where
  answer : Option ℕ → Looked
  lookup_error : Looked

-- _job_type_timeouts
abbrev pub Cache : Type 0
Cache = List (Text × Option ℕ)

unfoldable pub find_timeout : Cache → Text → Option (Option ℕ)
unfolding same_text
find_timeout [] name = none
find_timeout ((n, t) ∷ cache) name = if same_text n name then some t else find_timeout cache name

-- `(job_type or "default").split("@")[0]`
abbrev pub name_or_default : Option Text → Text
unfolding codes
name_or_default none = codes "default"
name_or_default (some name) = if is_empty name then codes "default" else name

unfoldable pub looked_up_name : Option Text → Text
unfolding base_name codes
looked_up_name job_type = base_name (name_or_default job_type)

-- What a lookup leaves: only an answer is cached.
abbrev pub looked_up : Text → Looked → Cache → Option ℕ × Cache
looked_up name (answer t) cache = (t, (name, t) ∷ cache)
looked_up name lookup_error cache = (none, cache)

-- `look` is the request that is sent for a name that the cache does not have.
unfoldable pub job_type_timeout : (Text → Looked) → Cache → Option Text → Option ℕ × Cache
unfolding looked_up_name find_timeout
job_type_timeout look cache job_type =
    let name = looked_up_name job_type in
    elim (find_timeout cache name) [ some t ↦ (t, cache) | none ↦ looked_up name (look name) cache ]

abbrev pub max_server_startup_timeout : ℕ
max_server_startup_timeout = 600

abbrev pub http_timeout_buffer : ℕ
http_timeout_buffer = 30

-- MAX_SERVER_EXEC_TIMEOUT, MAX_SERVER_STARTUP_TIMEOUT and HTTP_TIMEOUT_BUFFER together.
abbrev pub fallback_read_timeout : ℕ
fallback_read_timeout = 930

abbrev pub read_timeout_of : Option ℕ → Option ℕ → ℕ
read_timeout_of none startup_timeout = fallback_read_timeout
read_timeout_of (some t) startup_timeout =
    t + or_value startup_timeout max_server_startup_timeout + http_timeout_buffer

unfoldable pub resolve_read_timeout :
    (Text → Looked) → Cache → (timeout startup_timeout : Option ℕ) → Option Text → ℕ × Cache
unfolding job_type_timeout
resolve_read_timeout look cache (some t) startup_timeout job_type =
    (read_timeout_of (some t) startup_timeout, cache)
resolve_read_timeout look cache none startup_timeout job_type =
    let found = job_type_timeout look cache job_type in
    (read_timeout_of found.0 startup_timeout, found.1)

-- The answer of the application: the timeout of a job type of the registry, or a 404.
unfoldable pub look_at : JobTypeRegistry → Text → Looked
unfolding get_type
look_at registry name = elim (get_type registry name) [
  | none ↦ lookup_error
  | some j ↦ answer (some j.timeout)
]
