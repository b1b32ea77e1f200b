-- ===== src/Jobs/Examples.antt =====
-- A job that is claimed, lost and claimed again: runs of the queue, and the theorems at them.
use luheng_fulfillops_cloud.Base.{
  ℕ, ◌+◌, ◌*◌, ◌≡◌, refl, none, some, [], ◌∷◌, arith, count_by, second,
}
use luheng_fulfillops_cloud.Jobs.Rows.{AsyncJob, JobsDb}
use luheng_fulfillops_cloud.Jobs.Queue.{new_job, leased, lease_job, claim_job, candidate, holds}
use luheng_fulfillops_cloud.Jobs.Recovery.{recovered, recover_job, next_status}
use luheng_fulfillops_cloud.Jobs.Execution.{returned, finish_job, lease_lost}
use luheng_fulfillops_cloud.Jobs.Lease.{AllLeased, Step, Step-AllLeased}
use luheng_fulfillops_cloud.Jobs.Fencing.{
  lease_job_exclusive, finish_job_fenced, recover_job_keeps_live,
}
use luheng_fulfillops_cloud.Jobs.Attempts.{Life, Attempted, Life-Attempted, untouched}

abbrev waiting : AsyncJob
waiting = new_job 1 2 3 none 3 7 100

abbrev tables : JobsDb
tables = record { jobs = waiting ∷ []; workers = []; runs = []; job_audit = []; next_id = 8 }

tables-AllLeased : AllLeased tables
unfolding new_job
tables-AllLeased = (record { attempts = omega arith; owned = refl; timed = refl }, tt)

-- The first worker's claim at 200 lasts for a second.
abbrev running_tables : JobsDb
running_tables = (lease_job 21 1 200 7 tables).1

abbrev running_job : AsyncJob
running_job = leased 21 1 200 waiting

first_claim : (lease_job 21 1 200 7 tables).0 ≡ some 7
unfolding lease_job new_job
first_claim = refl

Step-AllLeased_example : AllLeased (claim_job 21 (0 ∷ []) 1 none 200 tables).1
Step-AllLeased_example = Step-AllLeased (Step.claim 21 (0 ∷ []) 1 none 200 tables) tables-AllLeased

lease_job_exclusive_example : lease_job 22 1 300 7 running_tables ≡ (none, running_tables)
unfolding new_job
lease_job_exclusive_example = lease_job_exclusive 21 22 1 200 300 7 tables refl first_claim

-- The lease has run out, the job has been recovered, and a second worker claims it.
abbrev late : ℕ
late = 200 + 2 * second

abbrev recovered_tables : JobsDb
recovered_tables = (recover_job 0 late running_job (0, running_tables)).1

second_claim : (lease_job 22 1 late 7 recovered_tables).0 ≡ some 7
unfolding lease_job new_job recover_job leased recovered next_status
second_claim = refl

finish_job_fenced_example :
    let db' = (lease_job 22 1 late 7 recovered_tables).1 in
    finish_job 7 21 1 (returned 5) late db' ≡ (lease_lost, db')
unfolding lease_job new_job recover_job leased recovered next_status
finish_job_fenced_example =
    finish_job_fenced 21 22 1 late late 7 1 (returned 5) recovered_tables refl
      (λ _. omega arith, tt) second_claim

recover_job_keeps_live_example :
    count_by (holds 21 late) (recover_job 0 late running_job (0, running_tables)).1.jobs
    ≡ count_by (holds 21 late) running_tables.jobs
unfolding leased
recover_job_keeps_live_example = recover_job_keeps_live 0 21 late 0 running_job running_tables refl

found : candidate (0 ∷ []) none 200 (waiting ∷ []) ≡ some waiting
unfolding candidate new_job
found = refl

-- Claimed, recovered after its lease ran out, and claimed again.
Life-Attempted_example :
    Attempted 2 waiting (leased 22 1 late (recovered running_job late running_job))
unfolding new_job leased recovered next_status
Life-Attempted_example =
    Life-Attempted
      (Life.claim 22 1 late
        (Life.recover running_job late (Life.claim 21 1 200 (untouched waiting) refl)) refl)
      (omega arith)
