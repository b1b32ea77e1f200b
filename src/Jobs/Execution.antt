-- ===== src/Jobs/Execution.antt =====
-- `execute_claimed_job` of backend/app/jobs.py: how a job that a worker has claimed begins and ends.
-- The handlers of the kinds of job are a parameter: what one returned or raised is `Outcome`. Model
-- replays that hang on a failed job are not modelled.
use luheng_fulfillops_cloud.Base.{
  ℕ, ◌&&◌, Bool, true, false, Option, none, some, List, [], ◌∷◌, ◌++◌, ◌==◌, first, update,
  if◌then◌else◌, option_eq,
}
use luheng_fulfillops_cloud.Jobs.Rows.{
  AsyncJob, JobsDb, JobStatus, JobError, cancelled_at_boundary, cancelled_while_running, raised,
  is_running, AgentRun, RunStatus, JobAudit, job_cancelled, job_succeeded, job_failed,
}
use luheng_fulfillops_cloud.Jobs.Queue.{holds, clear_job_lease}

-- What the handler did: it returned a result, or raised with a message.
pub data Outcome : Type 0 where
  returned raised_error : ℕ → Outcome

pub data Ending : Type 0 where
  lease_lost : Ending
  ended : JobStatus → Ending

-- The first query: the attempt of the job that the worker still runs.
unfoldable pub begin_job : ℕ → ℕ → JobsDb → Option ℕ
begin_job job_id worker_id db =
    elim (first
      (λ (j : AsyncJob).
        j.id == job_id && is_running j.status && option_eq j.lease_owner (some worker_id))
      db.jobs) [ none ↦ none | some j ↦ some j.attempt ]

-- The second query: the lease is live and the attempt is the one that was begun.
abbrev pub still_mine : ℕ → ℕ → ℕ → ℕ → AsyncJob → Bool
still_mine job_id worker_id claimed_attempt now j =
    j.id == job_id && holds worker_id now j && j.attempt == claimed_attempt

abbrev final_status : Outcome → Option ℕ → JobStatus
final_status outcome (some _) = JobStatus.cancelled
final_status (returned _) none = JobStatus.succeeded
final_status (raised_error _) none = JobStatus.failed

abbrev final_error : Outcome → Option ℕ → Option JobError
final_error (returned _) (some _) = some cancelled_at_boundary
final_error (returned _) none = none
final_error (raised_error _) (some _) = some cancelled_while_running
final_error (raised_error message) none = some (raised message)

-- A job that is cancelled after its handler returned loses the result; one that failed keeps what it had.
abbrev final_result : Outcome → Option ℕ → Option ℕ → Option ℕ
final_result (returned _) (some _) old = none
final_result (returned value) none old = some value
final_result (raised_error _) _ old = old

unfoldable pub finished : Outcome → ℕ → AsyncJob → AsyncJob
unfolding clear_job_lease
finished outcome now j = clear_job_lease (record j {
  status = final_status outcome j.cancel_requested_at;
  result = final_result outcome j.cancel_requested_at j.result;
  error = final_error outcome j.cancel_requested_at;
  completed_at = some now;
})

abbrev audit_of : JobStatus → ℕ → ℕ → JobAudit
audit_of JobStatus.cancelled = job_cancelled
audit_of JobStatus.succeeded = job_succeeded
audit_of _ = job_failed

-- An update of the first row that the condition finds.
update_first {ℓ} : {A : Type ℓ} → (A → Bool) → (A → A) → List A → List A
update_first p f [] = []
update_first p f (x ∷ xs) = let rest = update_first p f xs in if p x then f x ∷ xs else x ∷ rest

-- A failed job fails the first run that it has open.
end_runs : Outcome → AsyncJob → ℕ → List AgentRun → List AgentRun
unfolding update_first
end_runs (returned _) j now runs = runs
end_runs (raised_error message) j now runs =
    update_first
      (λ (r : AgentRun). r.job_id == j.id && elim r.status [ RunStatus.running ↦ true | _ ↦ false ])
      (λ (r : AgentRun). record r {
        status = RunStatus.failed;
        error = final_error (raised_error message) j.cancel_requested_at;
        completed_at = some now;
      })
      runs

unfoldable pub finish_job : ℕ → ℕ → ℕ → Outcome → ℕ → JobsDb → Ending × JobsDb
unfolding end_runs
finish_job job_id worker_id claimed_attempt outcome now db =
    elim (first (still_mine job_id worker_id claimed_attempt now) db.jobs) [
      | none ↦ (lease_lost, db)
      | some j ↦
          let status : JobStatus = final_status outcome j.cancel_requested_at in
          (
            ended status,
            record db {
              jobs =
                  update (still_mine job_id worker_id claimed_attempt now) (finished outcome now)
                    db.jobs;
              runs = end_runs outcome j now db.runs;
              job_audit = db.job_audit ++ audit_of status j.created_by job_id ∷ [];
            },
          )
    ]
