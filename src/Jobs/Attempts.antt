-- ===== src/Jobs/Attempts.antt =====
-- How often a job is claimed, over all that may be done to it.
use luheng_fulfillops_cloud.Base.{ℕ, suc, ◌+◌, ◌≤◌, ◌≡◌, refl, true, arith}
use luheng_fulfillops_cloud.Jobs.Rows.{AsyncJob}
use luheng_fulfillops_cloud.Jobs.Queue.{leased, may_lease, renewed}
use luheng_fulfillops_cloud.Jobs.Recovery.{recovered, next_status}
use luheng_fulfillops_cloud.Jobs.Execution.{Outcome, finished}
use luheng_fulfillops_cloud.Jobs.Routes.{cancelled_row, retried_row}

-- The life of one job: the number of times that it is claimed, and its row before and after.
pub data Life : ℕ → AsyncJob → AsyncJob → Type 0 where
  untouched : (j : AsyncJob) → Life 0 j j
  claim :
      {n : ℕ} {j k : AsyncJob} (worker_id seconds now : ℕ)
      → Life n j k
      → may_lease now k ≡ true
      → Life (suc n) j (leased worker_id seconds now k)
  renew : {n : ℕ} {j k : AsyncJob} (seconds now : ℕ) → Life n j k → Life n j (renewed seconds now k)
  recover :
      {n : ℕ} {j k : AsyncJob} (read : AsyncJob) (now : ℕ)
      → Life n j k
      → Life n j (recovered read now k)
  finish :
      {n : ℕ} {j k : AsyncJob} (outcome : Outcome) (now : ℕ)
      → Life n j k
      → Life n j (finished outcome now k)
  cancel : {n : ℕ} {j k : AsyncJob} (now : ℕ) → Life n j k → Life n j (cancelled_row now k)
  retry : {n : ℕ} {j k : AsyncJob} (now : ℕ) → Life n j k → Life n j (retried_row now k)

abbrev pub Attempted : ℕ → AsyncJob → AsyncJob → Type 0
Attempted n j k =
    (k.attempt ≡ j.attempt + n) × (k.max_attempts ≡ j.max_attempts) × (k.attempt ≤ k.max_attempts)

-- Whatever is done to a job that is within its attempts, each claim counts as one attempt, nothing else
-- changes the count or the limit, and the count stays within the limit: a job is claimed at most as often
-- as it allows.
pub Life-Attempted :
    {n : ℕ} {j k : AsyncJob} → Life n j k → j.attempt ≤ j.max_attempts → Attempted n j k
unfolding leased renewed recovered next_status finished cancelled_row retried_row
Life-Attempted (untouched j) h = (omega arith, refl, h)
Life-Attempted (claim {n} {j} {k} w s now life may) h =
    let (a, b, c) = Life-Attempted life h in ground arith
Life-Attempted (renew s now life) h = Life-Attempted life h
Life-Attempted (recover read now life) h = Life-Attempted life h
Life-Attempted (finish {n} {j} {k} outcome now life) h =
    let (a, b, c) = Life-Attempted life h in ground arith
Life-Attempted (cancel {n} {j} {k} now life) h =
    let (a, b, c) = Life-Attempted life h in ground arith
Life-Attempted (retry {n} {j} {k} now life) h =
    let (a, b, c) = Life-Attempted life h in ground arith
