-- ===== src/Models.antt =====
-- tako_vm/models.py: the statuses, the error types and the record of an execution. Timestamps are
-- numbers of clock ticks, a float is a number of a fixed fraction, and an exit code is a ℤ.
pub mod Record
use tako_vm.Prelude.{ℕ, suc, String, Option, Bool, true, false, ◌==◌}

-- `negsuc n` is -(n + 1).
pub data ℤ : Type 0 where
  pos : ℕ → ℤ
  negsuc : ℕ → ℤ

-- `code == n` for a constant n that is not negative.
abbrev pub is_code : ℤ → ℕ → Bool
is_code (pos n) m = n == m
is_code (negsuc n) m = false

-- JobStatus
pub data Status : Type 0 where
  queued running succeeded failed timeout oom cancelled : Status

-- ExecutionPhase
pub data Phase : Type 0 where
  startup execution completed failed : Phase

-- ErrorType
pub data ErrorType : Type 0 where
  timeout startup_timeout execution_timeout oom cancelled segfault abort arithmetic_error :
      ErrorType
  bus_error pipe_error killed permission syntax_error import_error type_error : ErrorType
  value_error key_error index_error attribute_error name_error file_not_found : ErrorType
  file_error os_error recursion_error assertion_error division_error : ErrorType
  overflow_error encoding_error json_error dependency_error network_error : ErrorType
  network_timeout docker_error service_unavailable config_error internal_error : ErrorType
  interrupted runtime_error unknown : ErrorType

pub record ExecutionError : Type 0 where
  pub type : ErrorType
  pub message : String
  pub phase : Option Phase

-- TERMINAL_STATUSES of storage.py, and _TERMINAL_STATUSES of server/queue.py.
abbrev pub is_terminal : Status → Bool
is_terminal Status.queued = false
is_terminal Status.running = false
is_terminal Status.succeeded = true
is_terminal Status.failed = true
is_terminal Status.timeout = true
is_terminal Status.oom = true
is_terminal Status.cancelled = true
