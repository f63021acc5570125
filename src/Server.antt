-- ===== src/Server.antt =====
-- tako_vm/server: the job queue, the limits on requests, the locks of idempotency keys, and the
-- submission of a request.
pub mod Queue
pub mod Limits
pub mod Idempotency
pub mod Submission
pub mod Replay
pub mod Artifacts
pub mod Executions
pub mod Results
