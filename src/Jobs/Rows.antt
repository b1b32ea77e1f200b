-- ===== src/Jobs/Rows.antt =====
-- The rows of the queue: `AsyncJob`, `JobWorker` and `AgentRun` of backend/app/models.py. What a job
-- carries and returns is opaque to the queue, and is a number.
use luheng_fulfillops_cloud.Base.{ℕ, Bool, true, false, Option, List}

pub data JobStatus : Type 0 where
  queued running succeeded failed cancelled : JobStatus

abbrev pub is_queued : JobStatus → Bool
is_queued queued = true
is_queued _ = false

abbrev pub is_running : JobStatus → Bool
is_running running = true
is_running _ = false

-- `job.status in TERMINAL_JOB_STATUSES`
abbrev pub is_terminal : JobStatus → Bool
is_terminal queued = false
is_terminal running = false
is_terminal _ = true

-- The texts of `AsyncJob.error`; `raised` holds that of the handler's exception.
pub data JobError : Type 0 where
  cancelled_after_expiry requeued_after_expiry attempts_exhausted cancelled_at_boundary : JobError
  cancelled_while_running : JobError
  raised : ℕ → JobError

pub record AsyncJob : Type 0 where
  pub id : ℕ
  pub tenant_id : ℕ
  pub kind : ℕ
  pub status : JobStatus
  pub queue_name : ℕ
  pub priority : ℕ
  pub result : Option ℕ
  pub error : Option JobError
  pub attempt : ℕ
  pub max_attempts : ℕ
  pub idempotency_key : Option ℕ
  pub created_by : ℕ
  pub created_at : ℕ
  pub available_at : Option ℕ
  pub started_at : Option ℕ
  pub completed_at : Option ℕ
  pub lease_owner : Option ℕ
  pub lease_expires_at : Option ℕ
  pub heartbeat_at : Option ℕ
  pub recovery_count : ℕ
  pub cancel_requested_at : Option ℕ

pub data WorkerStatus : Type 0 where
  starting idle running stopped : WorkerStatus

pub record JobWorker : Type 0 where
  pub id : ℕ
  pub status : WorkerStatus
  pub queues : List ℕ
  pub current_job_id : Option ℕ
  pub processed_count : ℕ
  pub failed_count : ℕ
  pub last_error : Option ℕ
  pub started_at : ℕ
  pub heartbeat_at : ℕ
  pub stopped_at : Option ℕ

pub data RunStatus : Type 0 where
  running succeeded failed : RunStatus

pub record AgentRun : Type 0 where
  pub id : ℕ
  pub job_id : ℕ
  pub status : RunStatus
  pub error : Option JobError
  pub completed_at : Option ℕ

-- The `AuditEvent` rows of the queue, with who acted and on which job.
pub data JobAudit : Type 0 where
  job_queued job_claimed job_recovered job_cancelled_after_expiry job_exhausted :
      (actor job_id : ℕ) → JobAudit
  job_cancelled job_cancel_requested job_retried job_succeeded job_failed :
      (actor job_id : ℕ) → JobAudit

pub record JobsDb : Type 0 where
  pub jobs : List AsyncJob
  pub workers : List JobWorker
  pub runs : List AgentRun
  pub job_audit : List JobAudit
  pub next_id : ℕ
