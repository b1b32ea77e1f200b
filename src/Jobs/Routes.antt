-- ===== src/Jobs/Routes.antt =====
-- The routes `cancel_job` and `retry_job` of backend/app/main.py, past the check of the caller's role.
use luheng_fulfillops_cloud.Base.{
  ℕ, ◌&&◌, ◌||◌, Bool, true, false, not, none, some, List, [], ◌∷◌, ◌++◌, leb, ◌==◌, if◌then◌else◌,
  first, update, Result, ok, ◌>>=◌, ◌>>◌, or_raise, raise_if,
}
use luheng_fulfillops_cloud.Jobs.Rows.{
  AsyncJob, JobsDb, JobStatus, is_queued, is_terminal, is_running, JobAudit, job_cancelled,
  job_cancel_requested, job_retried,
}
use luheng_fulfillops_cloud.Jobs.Queue.{clear_job_lease, expired_by}

pub data JobCode : Type 0 where
  job_not_found job_not_failed attempts_used_up : JobCode

abbrev pub is_job : ℕ → ℕ → AsyncJob → Bool
is_job tenant_id job_id j = j.id == job_id && j.tenant_id == tenant_id

-- A job that waits, or whose lease has run out, is cancelled at once.
abbrev pub cancels_now : ℕ → AsyncJob → Bool
cancels_now now j = is_queued j.status || (is_running j.status && expired_by j.lease_expires_at now)

unfoldable pub cancelled_row : ℕ → AsyncJob → AsyncJob
unfolding clear_job_lease
cancelled_row now j =
    if is_terminal j.status
    then j
    else if cancels_now now j
    then clear_job_lease (record j {
      status = JobStatus.cancelled;
      completed_at = some now;
      cancel_requested_at = some now;
    })
    else record j { cancel_requested_at = some now }

abbrev cancel_audit : ℕ → ℕ → AsyncJob → List JobAudit
cancel_audit actor_id now j =
    if is_terminal j.status
    then []
    else (if cancels_now now j
        then job_cancelled actor_id j.id
        else job_cancel_requested actor_id j.id)
      ∷ []

unfoldable pub cancel_job : ℕ → ℕ → ℕ → ℕ → JobsDb → Result JobCode (AsyncJob × JobsDb)
cancel_job tenant_id actor_id job_id now db = do
  j ← or_raise (first (is_job tenant_id job_id) db.jobs) job_not_found
  ok (
    cancelled_row now j,
    record db {
      jobs = update (is_job tenant_id job_id) (cancelled_row now) db.jobs;
      job_audit = db.job_audit ++ cancel_audit actor_id now j;
    },
  )

abbrev pub is_failed : JobStatus → Bool
is_failed JobStatus.failed = true
is_failed _ = false

unfoldable pub retried_row : ℕ → AsyncJob → AsyncJob
unfolding clear_job_lease
retried_row now j = clear_job_lease (record j {
  status = JobStatus.queued;
  error = none;
  result = none;
  available_at = some now;
  started_at = none;
  completed_at = none;
  heartbeat_at = none;
  cancel_requested_at = none;
})

unfoldable pub retry_job : ℕ → ℕ → ℕ → ℕ → JobsDb → Result JobCode (AsyncJob × JobsDb)
retry_job tenant_id actor_id job_id now db = do
  j ← or_raise (first (is_job tenant_id job_id) db.jobs) job_not_found
  raise_if (not (is_failed j.status)) job_not_failed
  raise_if (leb j.max_attempts j.attempt) attempts_used_up
  ok (
    retried_row now j,
    record db {
      jobs = update (is_job tenant_id job_id) (retried_row now) db.jobs;
      job_audit = db.job_audit ++ job_retried actor_id j.id ∷ [];
    },
  )
