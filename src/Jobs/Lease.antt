-- ===== src/Jobs/Lease.antt =====
-- What holds of every job between two operations, and which operations a lease allows.
use luheng_fulfillops_cloud.Base.{
  ℕ, ◌&&◌, Returned, Returned-ok, Returned-raise_if, Returned-or_raise, order_by, select, not, leb,
  ◌≤◌, ◌≡◌, refl, true, Option, List, [], ◌∷◌, arith, All, All-update, All-append, count_by,
  is_some, ok, Bool-cases, inl, inr, ◌==◌, first, Option-cases,
}
use luheng_fulfillops_cloud.Jobs.Rows.{AsyncJob, JobsDb, is_running}
use luheng_fulfillops_cloud.Jobs.Queue.{
  leasable, leased, lease_job, claim_job, candidate, holds, renewed, heartbeat_job, enqueue_job,
  new_job, known_job,
}
use luheng_fulfillops_cloud.Jobs.Recovery.{
  recovered, next_status, recover_job, recover_all, recover_stale_jobs, unchanged_since, take,
  earlier_expiry, is_stale,
}
use luheng_fulfillops_cloud.Jobs.Execution.{Outcome, finished, finish_job, still_mine}
use luheng_fulfillops_cloud.Jobs.Routes.{
  job_not_found, job_not_failed, attempts_used_up, is_job, is_failed, cancelled_row, retried_row,
  cancel_job, retry_job,
}

-- A job has an owner and a deadline exactly while it runs, and is never tried too often.
pub record IsLeased (j : AsyncJob) : Type 0 where
  pub attempts : j.attempt ≤ j.max_attempts
  pub owned : is_some j.lease_owner ≡ is_running j.status
  pub timed : is_some j.lease_expires_at ≡ is_running j.status

leased-IsLeased :
    (job_id worker_id seconds now : ℕ) (j : AsyncJob)
    → leasable job_id now j ≡ true
    → IsLeased j
    → IsLeased (leased worker_id seconds now j)
unfolding leased
leased-IsLeased job_id worker_id seconds now j g h = ground arith

renewed-IsLeased :
    (worker_id seconds now : ℕ) (j : AsyncJob)
    → holds worker_id now j ≡ true
    → IsLeased j
    → IsLeased (renewed seconds now j)
unfolding renewed
renewed-IsLeased worker_id seconds now j g h = ground arith

recovered-IsLeased :
    (read : AsyncJob) (now : ℕ) (j : AsyncJob) → IsLeased j → IsLeased (recovered read now j)
unfolding recovered next_status
recovered-IsLeased read now j h = ground arith

finished-IsLeased :
    (outcome : Outcome) (now : ℕ) (j : AsyncJob) → IsLeased j → IsLeased (finished outcome now j)
unfolding finished
finished-IsLeased outcome now j h = ground arith

cancelled_row-IsLeased : (now : ℕ) (j : AsyncJob) → IsLeased j → IsLeased (cancelled_row now j)
unfolding cancelled_row
cancelled_row-IsLeased now j h = ground arith

retried_row-IsLeased : (now : ℕ) (j : AsyncJob) → IsLeased j → IsLeased (retried_row now j)
unfolding retried_row
retried_row-IsLeased now j h = ground arith

-- Every operation of the queue, at any time and by anybody, as a step of the tables.
pub data Step : JobsDb → JobsDb → Type 0 where
  enqueue :
      (tenant_id actor_id kind : ℕ) (key : Option ℕ) (max_attempts now : ℕ) (db : JobsDb)
      → Step db (enqueue_job tenant_id actor_id kind key max_attempts now db).2
  claim :
      (worker_id : ℕ) (queues : List ℕ) (seconds : ℕ) (job_id : Option ℕ) (now : ℕ) (db : JobsDb)
      → Step db (claim_job worker_id queues seconds job_id now db).1
  late_claim :
      (worker_id seconds now job_id : ℕ) (db : JobsDb)
      → Step db (lease_job worker_id seconds now job_id db).1
  heartbeat :
      (job_id worker_id seconds now : ℕ) (db : JobsDb)
      → Step db (heartbeat_job job_id worker_id seconds now db).1
  recover :
      (worker_id limit now : ℕ) (db : JobsDb)
      → Step db (recover_stale_jobs worker_id limit now db).1
  finish :
      (job_id worker_id attempt : ℕ) (outcome : Outcome) (now : ℕ) (db : JobsDb)
      → Step db (finish_job job_id worker_id attempt outcome now db).1
  cancel :
      (tenant_id actor_id job_id now : ℕ) (db : JobsDb) (j : AsyncJob) (db' : JobsDb)
      → cancel_job tenant_id actor_id job_id now db ≡ ok (j, db')
      → Step db db'
  retry :
      (tenant_id actor_id job_id now : ℕ) (db : JobsDb) (j : AsyncJob) (db' : JobsDb)
      → retry_job tenant_id actor_id job_id now db ≡ ok (j, db')
      → Step db db'

abbrev pub AllLeased : JobsDb → Type 0
AllLeased db = All IsLeased db.jobs

lease_job-AllLeased :
    (worker_id seconds now job_id : ℕ) (db : JobsDb)
    → AllLeased db
    → AllLeased (lease_job worker_id seconds now job_id db).1
unfolding lease_job
lease_job-AllLeased worker_id seconds now job_id db h =
    elim (Bool-cases (count_by (leasable job_id now) db.jobs == 1)) [
      | inl one ↦ rw one (
          All-update IsLeased (leasable job_id now) (leased worker_id seconds now) db.jobs
            (leased-IsLeased job_id worker_id seconds now) h)
      | inr none_left ↦ rw none_left h
    ]

claim_job-AllLeased :
    (worker_id : ℕ) (queues : List ℕ) (seconds : ℕ) (job_id : Option ℕ) (now : ℕ) (db : JobsDb)
    → AllLeased db
    → AllLeased (claim_job worker_id queues seconds job_id now db).1
unfolding claim_job
claim_job-AllLeased worker_id queues seconds job_id now db h =
    elim (Option-cases (candidate queues job_id now db.jobs)) [
      | inl e ↦ rw e h
      | inr (j, e) ↦ rw e (lease_job-AllLeased worker_id seconds now j.id db h)
    ]

heartbeat_job-AllLeased :
    (job_id worker_id seconds now : ℕ) (db : JobsDb)
    → AllLeased db
    → AllLeased (heartbeat_job job_id worker_id seconds now db).1
unfolding heartbeat_job
heartbeat_job-AllLeased job_id worker_id seconds now db h =
    All-update IsLeased (λ (j : AsyncJob). j.id == job_id && holds worker_id now j)
      (renewed seconds now) db.jobs (λ j g. renewed-IsLeased worker_id seconds now j (ground arith))
      h

recover_job-AllLeased :
    (worker_id now : ℕ) (read : AsyncJob) (count : ℕ) (db : JobsDb)
    → AllLeased db
    → AllLeased (recover_job worker_id now read (count, db)).1
unfolding recover_job
recover_job-AllLeased worker_id now read count db h =
    elim (Bool-cases (count_by (unchanged_since read) db.jobs == 1)) [
      | inl one ↦ rw one (
          All-update IsLeased (unchanged_since read) (recovered read now) db.jobs
            (λ j g. recovered-IsLeased read now j) h)
      | inr moved ↦ rw moved h
    ]

recover_all-AllLeased :
    (worker_id now : ℕ) (stale : List AsyncJob) (count : ℕ) (db : JobsDb)
    → AllLeased db
    → AllLeased (recover_all worker_id now stale (count, db)).1
unfolding recover_all
recover_all-AllLeased worker_id now [] count db h = h
recover_all-AllLeased worker_id now (j ∷ stale) count db h =
    let (count', db') = recover_job worker_id now j (count, db) in
    recover_all-AllLeased worker_id now stale count' db'
      (recover_job-AllLeased worker_id now j count db h)

finish_job-AllLeased :
    (job_id worker_id attempt : ℕ) (outcome : Outcome) (now : ℕ) (db : JobsDb)
    → AllLeased db
    → AllLeased (finish_job job_id worker_id attempt outcome now db).1
unfolding finish_job
finish_job-AllLeased job_id worker_id attempt outcome now db h =
    elim (Option-cases (first (still_mine job_id worker_id attempt now) db.jobs)) [
      | inl e ↦ rw (e, finish_job) h
      | inr (j, e) ↦
          rw (e, finish_job)
            (All-update IsLeased (still_mine job_id worker_id attempt now) (finished outcome now)
              db.jobs (λ k g. finished-IsLeased outcome now k) h)
    ]

enqueue_job-AllLeased :
    (tenant_id actor_id kind : ℕ) (key : Option ℕ) (max_attempts now : ℕ) (db : JobsDb)
    → AllLeased db
    → AllLeased (enqueue_job tenant_id actor_id kind key max_attempts now db).2
unfolding enqueue_job new_job
enqueue_job-AllLeased tenant_id actor_id kind key max_attempts now db h =
    elim (Option-cases (known_job tenant_id kind key db.jobs)) [
      | inr (j, e) ↦ rw (e, enqueue_job) h
      | inl e ↦
          rw (e, enqueue_job)
            (All-append IsLeased db.jobs _ h
              (record { attempts = omega arith; owned = refl; timed = refl }, tt))
    ]

cancel_job-AllLeased :
    (tenant_id actor_id job_id now : ℕ) (db : JobsDb)
    → AllLeased db
    → Returned (λ r. AllLeased r.1) (cancel_job tenant_id actor_id job_id now db)
unfolding cancel_job
cancel_job-AllLeased tenant_id actor_id job_id now db h =
    Returned-or_raise (λ r. AllLeased r.1) (first (is_job tenant_id job_id) db.jobs) job_not_found _
      (λ j e.
        All-update IsLeased (is_job tenant_id job_id) (cancelled_row now) db.jobs
          (λ k g. cancelled_row-IsLeased now k) h)

retry_job-AllLeased :
    (tenant_id actor_id job_id now : ℕ) (db : JobsDb)
    → AllLeased db
    → Returned (λ r. AllLeased r.1) (retry_job tenant_id actor_id job_id now db)
unfolding retry_job
retry_job-AllLeased tenant_id actor_id job_id now db h =
    Returned-or_raise (λ r. AllLeased r.1) (first (is_job tenant_id job_id) db.jobs) job_not_found _
      (λ j e.
        Returned-raise_if (λ r. AllLeased r.1) (not (is_failed j.status)) job_not_failed _
          (λ f.
            Returned-raise_if (λ r. AllLeased r.1) (leb j.max_attempts j.attempt) attempts_used_up _
              (λ a.
                All-update IsLeased (is_job tenant_id job_id) (retried_row now) db.jobs
                  (λ k g. retried_row-IsLeased now k) h)))

recover_stale_jobs-AllLeased :
    (worker_id limit now : ℕ) (db : JobsDb)
    → AllLeased db
    → AllLeased (recover_stale_jobs worker_id limit now db).1
unfolding recover_stale_jobs
recover_stale_jobs-AllLeased worker_id limit now db h =
    recover_all-AllLeased worker_id now
      (take limit (order_by earlier_expiry (select (is_stale now) db.jobs))) 0 db h

-- Whatever the operation, where every job is within its attempts and has an owner and a deadline exactly
-- while it runs, that stays so.
pub Step-AllLeased : {db db' : JobsDb} → Step db db' → AllLeased db → AllLeased db'
Step-AllLeased (enqueue t a k key m now db) h = enqueue_job-AllLeased t a k key m now db h
Step-AllLeased (claim w q s j now db) h = claim_job-AllLeased w q s j now db h
Step-AllLeased (late_claim w s now j db) h = lease_job-AllLeased w s now j db h
Step-AllLeased (heartbeat j w s now db) h = heartbeat_job-AllLeased j w s now db h
Step-AllLeased (recover w l now db) h = recover_stale_jobs-AllLeased w l now db h
Step-AllLeased (finish j w a o now db) h = finish_job-AllLeased j w a o now db h
Step-AllLeased (cancel t a j now db k db' e) h =
    Returned-ok (λ r. AllLeased r.1) (cancel_job t a j now db) (cancel_job-AllLeased t a j now db h)
      e
Step-AllLeased (retry t a j now db k db' e) h =
    Returned-ok (λ r. AllLeased r.1) (retry_job t a j now db) (retry_job-AllLeased t a j now db h) e
