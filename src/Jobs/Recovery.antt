-- ===== src/Jobs/Recovery.antt =====
-- `recover_stale_jobs` of backend/app/job_queue.py: jobs whose lease has run out.
use luheng_fulfillops_cloud.Base.{
  ℕ, zero, suc, ◌+◌, ◌&&◌, Bool, true, false, Option, none, some, List, [], ◌∷◌, ◌++◌, ltb, leb,
  ◌==◌, if◌then◌else◌, select, update, order_by, count_by, is_some, option_eq,
}
use luheng_fulfillops_cloud.Jobs.Rows.{
  AsyncJob, JobsDb, JobStatus, JobError, cancelled_after_expiry, requeued_after_expiry,
  attempts_exhausted, is_running, AgentRun, RunStatus, JobAudit, job_cancelled_after_expiry,
  job_recovered, job_exhausted,
}
use luheng_fulfillops_cloud.Jobs.Queue.{expired_by}

abbrev pub is_stale : ℕ → AsyncJob → Bool
is_stale now j = is_running j.status && expired_by j.lease_expires_at now

-- `next_status` with the error that goes with it.
unfoldable pub next_status : AsyncJob → JobStatus
next_status j =
    if is_some j.cancel_requested_at
    then JobStatus.cancelled
    else if ltb j.attempt j.max_attempts
    then JobStatus.queued
    else JobStatus.failed

abbrev error_for : JobStatus → JobError
error_for JobStatus.cancelled = cancelled_after_expiry
error_for JobStatus.queued = requeued_after_expiry
error_for _ = attempts_exhausted

abbrev audit_for : JobStatus → ℕ → ℕ → JobAudit
audit_for JobStatus.cancelled = job_cancelled_after_expiry
audit_for JobStatus.queued = job_recovered
audit_for _ = job_exhausted

abbrev when_queued : JobStatus → Option ℕ → Option ℕ → Option ℕ
when_queued JobStatus.queued a b = a
when_queued _ a b = b

-- The values that the update writes, for the row as it was read.
unfoldable pub recovered : AsyncJob → ℕ → AsyncJob → AsyncJob
recovered read now j = record j {
  status = next_status read;
  error = some (error_for (next_status read));
  recovery_count = j.recovery_count + 1;
  available_at = when_queued (next_status read) (some now) read.available_at;
  started_at = when_queued (next_status read) none read.started_at;
  completed_at = when_queued (next_status read) none (some now);
  lease_owner = none;
  lease_expires_at = none;
}

-- The row is still as it was read.
abbrev pub unchanged_since : AsyncJob → AsyncJob → Bool
unchanged_since read j =
    j.id == read.id
    && is_running j.status
    && option_eq j.lease_owner read.lease_owner
    && option_eq j.lease_expires_at read.lease_expires_at

abbrev is_open_run : ℕ → AgentRun → Bool
is_open_run job_id r = r.job_id == job_id && elim r.status [ RunStatus.running ↦ true | _ ↦ false ]

unfoldable pub recover_job : ℕ → ℕ → AsyncJob → ℕ × JobsDb → ℕ × JobsDb
recover_job recovered_by now read (count, db) =
    if count_by (unchanged_since read) db.jobs == 1
    then (
      count + 1,
      record db {
        jobs = update (unchanged_since read) (recovered read now) db.jobs;
        runs =
            update (is_open_run read.id)
              (λ (r : AgentRun). record r {
                status = RunStatus.failed;
                error = some requeued_after_expiry;
                completed_at = some now;
              })
              db.runs;
        job_audit = db.job_audit ++ audit_for (next_status read) recovered_by read.id ∷ [];
      },
    )
    else (count, db)

unfoldable pub recover_all : ℕ → ℕ → List AsyncJob → ℕ × JobsDb → ℕ × JobsDb
recover_all recovered_by now [] s = s
recover_all recovered_by now (j ∷ jobs) s =
    recover_all recovered_by now jobs (recover_job recovered_by now j s)

abbrev pub earlier_expiry : AsyncJob → AsyncJob → Bool
earlier_expiry a b = elim a.lease_expires_at [
  | none ↦ true
  | some t ↦ elim b.lease_expires_at [ none ↦ false | some u ↦ leb t u ]
]

abbrev pub take {ℓ} : {A : Type ℓ} → ℕ → List A → List A
take zero xs = []
take (suc n) [] = []
take (suc n) (x ∷ xs) = x ∷ take n xs

unfoldable pub recover_stale_jobs : ℕ → ℕ → ℕ → JobsDb → ℕ × JobsDb
unfolding recover_all
recover_stale_jobs recovered_by limit now db =
    recover_all recovered_by now
      (take limit (order_by earlier_expiry (select (is_stale now) db.jobs))) (0, db)
