-- ===== src/Jobs/Fencing.antt =====
-- Who may write a job: one worker at a time, and never one whose lease has gone to another.
use luheng_fulfillops_cloud.Base.{
  ℕ, ◌≤◌, ◌<◌, ◌≡◌, refl, sym, subst, inl, inr, Bool, true, false, ◌&&◌, Option, none, some, List,
  arith, All, All-map, update, count_by, count_by-update, All-of_count, All-first-none,
  All-update_kind, least-All, first-select, All-of_each, All-count_none, Bool-cases, ◌==◌, ==→eq,
  select,
}
use luheng_fulfillops_cloud.Jobs.Rows.{AsyncJob, JobsDb, is_running}
use luheng_fulfillops_cloud.Jobs.Queue.{
  leasable, leased, lease_job, candidate, claimable, before, holds, wanted,
}
use luheng_fulfillops_cloud.Jobs.Recovery.{
  recovered, next_status, recover_job, unchanged_since, is_stale,
}
use luheng_fulfillops_cloud.Jobs.Execution.{Outcome, lease_lost, finish_job, still_mine}

-- What a claim that succeeded has written.
lease_job-inv :
    (worker_id seconds now job_id : ℕ) (db : JobsDb)
    → (lease_job worker_id seconds now job_id db).0 ≡ some job_id
    → (count_by (leasable job_id now) db.jobs ≡ 1)
      × ((lease_job worker_id seconds now job_id db).1.jobs
          ≡ update (leasable job_id now) (leased worker_id seconds now) db.jobs)
unfolding lease_job
lease_job-inv worker_id seconds now job_id db h =
    (elim (Bool-cases (count_by (leasable job_id now) db.jobs == 1)) [
      | inl one ↦ (==→eq _ _ one, rw one)
      | inr other ↦ absurd (ground arith)
    ])

abbrev has_id : ℕ → AsyncJob → Bool
has_id job_id j = j.id == job_id

-- After a claim of a job with a key of its own, every row of that key runs for the worker, in a later
-- attempt than any that was begun before.
claimed_rows :
    (worker_id seconds now job_id claimed_attempt : ℕ) (db : JobsDb)
    → count_by (has_id job_id) db.jobs ≡ 1
    → All (λ (j : AsyncJob). (j.id == job_id) ≡ true → claimed_attempt ≤ j.attempt) db.jobs
    → (lease_job worker_id seconds now job_id db).0 ≡ some job_id
    → All
        (λ (j : AsyncJob).
          (j.id == job_id) ≡ true → (is_running j.status ≡ true) × (claimed_attempt < j.attempt))
        (lease_job worker_id seconds now job_id db).1.jobs
unfolding leased
claimed_rows worker_id seconds now job_id claimed_attempt db one old h =
    let (count, written) = lease_job-inv worker_id seconds now job_id db h in
    let all_leasable =
      All-of_count (leasable job_id now) (has_id job_id) db.jobs (λ j e. ground arith)
        (omega arith) in
    subst
      (All (λ (j : AsyncJob).
        (j.id == job_id) ≡ true → (is_running j.status ≡ true) × (claimed_attempt < j.attempt)))
      (sym written)
      (All-update_kind (λ (j : AsyncJob). claimed_attempt ≤ j.attempt)
        (λ (j : AsyncJob). (is_running j.status ≡ true) × (claimed_attempt < j.attempt))
        (has_id job_id) (leasable job_id now) (leased worker_id seconds now) db.jobs
        (λ j e le. (refl, omega arith)) all_leasable
        (All-map db.jobs (λ j f e. f (ground arith)) old))

-- Of two workers that have found the same job, one whose key is its own, the second gets nothing and
-- writes nothing once the first has claimed it, however much later it comes.
pub lease_job_exclusive :
    (first_worker second_worker seconds now later job_id : ℕ) (db : JobsDb)
    → count_by (has_id job_id) db.jobs ≡ 1
    → (lease_job first_worker seconds now job_id db).0 ≡ some job_id
    → let db' = (lease_job first_worker seconds now job_id db).1 in
      lease_job second_worker seconds later job_id db' ≡ (none, db')
unfolding lease_job
lease_job_exclusive first_worker second_worker seconds now later job_id db one h =
    let db' = (lease_job first_worker seconds now job_id db).1 in
    let rows =
      claimed_rows first_worker seconds now job_id 0 db one
        (All-of_each (λ (j : AsyncJob). (j.id == job_id) ≡ true → 0 ≤ j.attempt) db.jobs
          (λ j _. omega arith))
        h in
    rw (
      All-count_none (leasable job_id later) db'.jobs (All-map db'.jobs (λ j f. taken j f) rows),
      lease_job,
    )
  where
    taken :
        (j : AsyncJob)
        → ((j.id == job_id) ≡ true → (is_running j.status ≡ true) × (0 < j.attempt))
        → leasable job_id later j ≡ false
    taken j f = ground arith

-- A worker whose job, of a key of its own and with no fewer attempts than the one begun, has been claimed
-- again since it began has lost it: what it reports at the end changes nothing, whichever worker claimed
-- it, itself included.
pub finish_job_fenced :
    (old_worker new_worker seconds now later job_id claimed_attempt : ℕ) (outcome : Outcome)
    (db : JobsDb)
    → count_by (has_id job_id) db.jobs ≡ 1
    → All (λ (j : AsyncJob). (j.id == job_id) ≡ true → claimed_attempt ≤ j.attempt) db.jobs
    → (lease_job new_worker seconds now job_id db).0 ≡ some job_id
    → let db' = (lease_job new_worker seconds now job_id db).1 in
      finish_job job_id old_worker claimed_attempt outcome later db' ≡ (lease_lost, db')
unfolding finish_job
finish_job_fenced old_worker new_worker seconds now later job_id claimed_attempt outcome db one old
      h =
    let db' = (lease_job new_worker seconds now job_id db).1 in
    let rows = claimed_rows new_worker seconds now job_id claimed_attempt db one old h in
    rw (
      All-first-none (still_mine job_id old_worker claimed_attempt later) db'.jobs
          (All-map db'.jobs (λ j f. not_mine j f) rows),
      finish_job,
    )
  where
    not_mine :
        (j : AsyncJob)
        → ((j.id == job_id) ≡ true → (is_running j.status ≡ true) × (claimed_attempt < j.attempt))
        → still_mine job_id old_worker claimed_attempt later j ≡ false
    not_mine j f = ground arith

-- A row that is still as a stale one was read is held by nobody, before its recovery and after it.
stale-holds :
    (worker_id now : ℕ) (read j : AsyncJob)
    → is_stale now read ≡ true
    → unchanged_since read j ≡ true
    → holds worker_id now (recovered read now j) ≡ holds worker_id now j
unfolding recovered next_status
stale-holds worker_id now read j stale e = ground arith

-- Recovery never takes a job from a worker whose lease is live: it writes no such row, so each worker
-- holds as many as before.
pub recover_job_keeps_live :
    (recovered_by worker_id now count : ℕ) (read : AsyncJob) (db : JobsDb)
    → is_stale now read ≡ true
    → count_by (holds worker_id now) (recover_job recovered_by now read (count, db)).1.jobs
      ≡ count_by (holds worker_id now) db.jobs
unfolding recover_job
recover_job_keeps_live recovered_by worker_id now count read db stale =
    elim (Bool-cases (count_by (unchanged_since read) db.jobs == 1)) [
      | inl one ↦ rw one (
          count_by-update (holds worker_id now) (unchanged_since read) (recovered read now) db.jobs
            (λ j e. stale-holds worker_id now read j stale e))
      | inr moved ↦ rw moved
    ]

before_total : (a b : AsyncJob) → before a b ≡ false → before b a ≡ true
before_total a b e = ground arith

before_trans : (a b c : AsyncJob) → before a b ≡ true → before b c ≡ true → before a c ≡ true
before_trans a b c e f = ground arith

both_hold : (a b : Bool) → (a && b) ≡ true → a ≡ true
both_hold a b e = ground arith

-- The job that a claim finds may be claimed, and none that may be claimed comes before it in the order
-- of priority and creation.
pub candidate_first :
    (queues : List ℕ) (job_id : Option ℕ) (now : ℕ) (jobs : List AsyncJob) {j : AsyncJob}
    → candidate queues job_id now jobs ≡ some j
    → (claimable queues now j ≡ true)
      × All
          (λ k. before j k ≡ true)
          (select (λ (k : AsyncJob). claimable queues now k && wanted job_id k) jobs)
unfolding candidate
candidate_first queues job_id now jobs {j} e = (
  both_hold (claimable queues now j) (wanted job_id j)
      (first-select (λ (k : AsyncJob). claimable queues now k && wanted job_id k) before jobs e),
  least-All before before_total before_trans
      (select (λ (k : AsyncJob). claimable queues now k && wanted job_id k) jobs) j e,
)
