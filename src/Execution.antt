-- ===== src/Execution.antt =====
-- tako_vm/execution: the circuit breaker, the container cleanup, the retries, the calls of Docker and
-- the executor.
pub mod Health
pub mod Retry
pub mod Worker
pub mod Docker
pub mod Timeouts
pub mod Phase
pub mod Container
