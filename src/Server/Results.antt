-- ===== src/Server/Results.antt =====
-- tako_vm/server/app.py: get_job_result, with a timeout of 1 to 300 seconds where it waits.
use tako_vm.Prelude.{ℕ, String, Option, none, some, Bool, ◌||◌, ◌∷◌, if◌then◌else◌}
use tako_vm.Models.Record.{ExecutionRecord}
use tako_vm.Models.{Status}
use tako_vm.Storage.Columns.{Value}
use tako_vm.Storage.Decode.{Read, missing, invalid, found, read_row, read_record}
use tako_vm.Server.Queue.State.{WorkerPool}
use tako_vm.Server.Queue.Calls.{
  Wait, awaits, finished, absent, wait_for_result, JobStatus, running, pending, done, stored,
  unknown, get_job_status,
}
pub mod Restarted

-- How the wait for a job's future ends: with its record, with its exception, at the timeout, or with
-- the future's cancellation.
pub data WaitEnd : Type 0 where
  returned : ExecutionRecord → WaitEnd
  failed timed_out cancelled : WaitEnd

-- The record, the status of a job in progress with its queue position, or an error's status.
-- CancelledError passes through the endpoint, which then gives no response.
pub data ResultReply : Type 0 where
  result : ExecutionRecord → ResultReply
  in_progress : Option ℕ → ResultReply
  error : ℕ → ResultReply
  unanswered : ResultReply

abbrev pub ended_reply : WaitEnd → ResultReply
ended_reply (returned r) = result r
ended_reply failed = error 500
ended_reply timed_out = error 408
ended_reply cancelled = unanswered

-- A row that is no record raises in get_record.
abbrev pub read_reply : Read → ResultReply
read_reply missing = error 404
read_reply invalid = error 500
read_reply (found r) = result r

abbrev pub waited_reply : WaitEnd → Wait → ResultReply
waited_reply e (awaits id) = ended_reply e
waited_reply e (finished row) = read_reply (read_row (some row))
waited_reply e absent = error 404

-- `status.get("status") in ("pending", "running")`, of a status that is not "pending".
abbrev pub running_or_absent : Option Value → ResultReply
running_or_absent (some (Value.status Status.running)) = in_progress none
running_or_absent _ = error 404

abbrev pub status_reply : JobStatus → ResultReply
status_reply running = in_progress none
status_reply (pending position) = in_progress (some position)
status_reply (done s duration) = running_or_absent (some (Value.status s))
status_reply (stored s duration) = running_or_absent s
status_reply unknown = error 404

abbrev pub unstored_reply : Read → JobStatus → ResultReply
unstored_reply missing s = status_reply s
unstored_reply invalid s = error 500
unstored_reply (found r) s = result r

unfoldable pub get_job_result : Bool → WaitEnd → String → WorkerPool → ResultReply
unfolding wait_for_result read_record get_job_status
get_job_result wait e id p =
    if wait
    then waited_reply e (wait_for_result id p)
    else unstored_reply (read_record p.storage id) (get_job_status id p)
