-- ===== src/Jobs/Queue.antt =====
-- `enqueue_job` of backend/app/jobs.py; `claim_job`, `heartbeat_job`, `heartbeat_worker`,
-- `clear_job_lease` and `update_worker` of backend/app/job_queue.py. `now` is `utcnow()`, and times
-- are in microseconds.
use luheng_fulfillops_cloud.Base.{
  ℕ, ◌+◌, ◌*◌, ◌&&◌, ◌||◌, Bool, true, false, Option, none, some, List, [], ◌∷◌, ◌++◌, ltb, leb,
  ◌==◌, if◌then◌else◌, first, select, update, least, any, count_by, option_eq, second,
}
use luheng_fulfillops_cloud.Jobs.Rows.{
  AsyncJob, JobsDb, JobStatus, is_queued, is_running, JobWorker, WorkerStatus, stopped, job_claimed,
  job_queued,
}

abbrev pub due_by : Option ℕ → ℕ → Bool
due_by none now = true
due_by (some t) now = leb t now

-- A deadline that is set and has passed; one that is set and has not.
abbrev pub expired_by : Option ℕ → ℕ → Bool
expired_by none now = false
expired_by (some t) now = leb t now

abbrev pub live_at : Option ℕ → ℕ → Bool
live_at none now = false
live_at (some t) now = ltb now t

-- The condition that the query and the update of a claim share.
abbrev pub may_lease : ℕ → AsyncJob → Bool
may_lease now j = is_queued j.status && ltb j.attempt j.max_attempts && due_by j.available_at now

abbrev pub claimable : List ℕ → ℕ → AsyncJob → Bool
claimable queue_names now j = may_lease now j && any (λ q. q == j.queue_name) queue_names

-- `ORDER BY priority, created_at`
abbrev pub before : AsyncJob → AsyncJob → Bool
before a b =
    ltb a.priority b.priority || (a.priority == b.priority && leb a.created_at b.created_at)

abbrev pub wanted : Option ℕ → AsyncJob → Bool
wanted none j = true
wanted (some id) j = j.id == id

unfoldable pub candidate : List ℕ → Option ℕ → ℕ → List AsyncJob → Option AsyncJob
candidate queue_names job_id now jobs =
    least before (select (λ (j : AsyncJob). claimable queue_names now j && wanted job_id j) jobs)

unfoldable pub leased : ℕ → ℕ → ℕ → AsyncJob → AsyncJob
leased worker_id lease_seconds now j = record j {
  status = JobStatus.running;
  attempt = j.attempt + 1;
  started_at = some now;
  completed_at = none;
  error = none;
  lease_owner = some worker_id;
  lease_expires_at = some (now + lease_seconds * second);
  heartbeat_at = some now;
  cancel_requested_at = none;
}

abbrev pub leasable : ℕ → ℕ → AsyncJob → Bool
leasable job_id now j = j.id == job_id && may_lease now j

-- The conditional update of a claim, and what depends on its row count. Another worker may have
-- written between the query and this.
unfoldable pub lease_job : ℕ → ℕ → ℕ → ℕ → JobsDb → Option ℕ × JobsDb
lease_job worker_id lease_seconds now job_id db =
    if count_by (leasable job_id now) db.jobs == 1
    then (
      some job_id,
      record db {
        jobs = update (leasable job_id now) (leased worker_id lease_seconds now) db.jobs;
        job_audit = db.job_audit ++ job_claimed worker_id job_id ∷ [];
      },
    )
    else (none, db)

abbrev lease_found : ℕ → ℕ → ℕ → Option AsyncJob → JobsDb → Option ℕ × JobsDb
lease_found worker_id lease_seconds now none db = (none, db)
lease_found worker_id lease_seconds now (some j) db = lease_job worker_id lease_seconds now j.id db

unfoldable pub claim_job : ℕ → List ℕ → ℕ → Option ℕ → ℕ → JobsDb → Option ℕ × JobsDb
claim_job worker_id queue_names lease_seconds job_id now db =
    lease_found worker_id lease_seconds now (candidate queue_names job_id now db.jobs) db

-- The worker's lease is on the job and has not run out.
abbrev pub holds : ℕ → ℕ → AsyncJob → Bool
holds worker_id now j =
    is_running j.status
    && option_eq j.lease_owner (some worker_id)
    && live_at j.lease_expires_at now

unfoldable pub renewed : ℕ → ℕ → AsyncJob → AsyncJob
renewed lease_seconds now j = record j {
  heartbeat_at = some now;
  lease_expires_at = some (now + lease_seconds * second);
}

unfoldable pub heartbeat_job : ℕ → ℕ → ℕ → ℕ → JobsDb → Bool × JobsDb
heartbeat_job job_id worker_id lease_seconds now db =
    let mine : AsyncJob → Bool = λ j. j.id == job_id && holds worker_id now j in
    (
      count_by mine db.jobs == 1,
      record db { jobs = update mine (renewed lease_seconds now) db.jobs },
    )

abbrev is_working : WorkerStatus → Bool
is_working WorkerStatus.running = true
is_working _ = false

pub heartbeat_worker : ℕ → ℕ → ℕ → JobsDb → JobsDb
heartbeat_worker worker_id job_id now db = record db {
  workers =
      update (λ (w : JobWorker). w.id == worker_id && is_working w.status)
        (λ (w : JobWorker). record w { heartbeat_at = now; current_job_id = some job_id })
        db.workers;
}

unfoldable pub clear_job_lease : AsyncJob → AsyncJob
clear_job_lease j = record j { lease_owner = none; lease_expires_at = none }

-- `enqueue_job` returns the job and whether it is new; a key that the tenant has used for this kind of
-- job finds the earlier job. The wake-up message to the broker is not modelled.
same_request : ℕ → ℕ → ℕ → AsyncJob → Bool
same_request tenant_id kind key j =
    j.tenant_id == tenant_id && j.kind == kind && option_eq j.idempotency_key (some key)

unfoldable pub known_job : ℕ → ℕ → Option ℕ → List AsyncJob → Option AsyncJob
unfolding same_request
known_job tenant_id kind none jobs = none
known_job tenant_id kind (some key) jobs = first (same_request tenant_id kind key) jobs

abbrev default_queue : ℕ
default_queue = 0

unfoldable pub new_job : ℕ → ℕ → ℕ → Option ℕ → ℕ → ℕ → ℕ → AsyncJob
new_job tenant_id actor_id kind idempotency_key max_attempts id now = record {
  id = id;
  tenant_id = tenant_id;
  kind = kind;
  status = JobStatus.queued;
  queue_name = default_queue;
  priority = 100;
  result = none;
  error = none;
  attempt = 0;
  max_attempts = max_attempts;
  idempotency_key = idempotency_key;
  created_by = actor_id;
  created_at = now;
  available_at = some now;
  started_at = none;
  completed_at = none;
  lease_owner = none;
  lease_expires_at = none;
  heartbeat_at = none;
  recovery_count = 0;
  cancel_requested_at = none;
}

unfoldable pub enqueue_job : ℕ → ℕ → ℕ → Option ℕ → ℕ → ℕ → JobsDb → AsyncJob × Bool × JobsDb
enqueue_job tenant_id actor_id kind idempotency_key max_attempts now db =
    elim (known_job tenant_id kind idempotency_key db.jobs) [
      | some j ↦ (j, false, db)
      | none ↦
          let j : AsyncJob =
            new_job tenant_id actor_id kind idempotency_key max_attempts db.next_id now in
          (
            j,
            true,
            record db {
              jobs = db.jobs ++ j ∷ [];
              job_audit = db.job_audit ++ job_queued actor_id j.id ∷ [];
              next_id = db.next_id + 1;
            },
          )
    ]

abbrev is_stopped : WorkerStatus → Bool
is_stopped stopped = true
is_stopped _ = false

abbrev is_failed : JobStatus → Bool
is_failed JobStatus.failed = true
is_failed _ = false

-- The counters of a worker after a job that ended with the status given, if one ended.
abbrev counted : Option JobStatus → JobWorker → JobWorker
counted none w = w
counted (some s) w = record w {
  processed_count = w.processed_count + 1;
  failed_count = w.failed_count + (if is_failed s then 1 else 0);
}

new_worker : ℕ → ℕ → JobWorker
new_worker worker_id now = record {
  id = worker_id;
  status = WorkerStatus.starting;
  queues = [];
  current_job_id = none;
  processed_count = 0;
  failed_count = 0;
  last_error = none;
  started_at = now;
  heartbeat_at = now;
  stopped_at = none;
}

pub update_worker :
    ℕ → WorkerStatus → List ℕ → Option ℕ → Option JobStatus → Option ℕ → ℕ → JobsDb → JobsDb
unfolding new_worker
update_worker worker_id status queues current_job_id completed_status last_error now db =
    let known : Bool = any (λ (w : JobWorker). w.id == worker_id) db.workers in
    let rows : List JobWorker =
      if known then db.workers else db.workers ++ new_worker worker_id now ∷ [] in
    record db {
      workers =
          update (λ (w : JobWorker). w.id == worker_id)
            (λ w. record (counted completed_status w) {
              status = status;
              queues = queues;
              current_job_id = current_job_id;
              heartbeat_at = now;
              stopped_at = if is_stopped status then some now else none;
              last_error = last_error;
            })
            rows;
    }
