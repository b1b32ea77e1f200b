-- ===== src/Policy/Machine.antt =====
-- The abstract machine of a package's policy, which backend/app/policy_workflow.py implements.
use luheng_fulfillops_cloud.Base.{ℕ, ◌+◌, ◌*◌, ◌≤◌, ◌≢◌, Option, none, some}
use luheng_fulfillops_cloud.Cases.{AssetPackage, PolicyStatus, published}
use luheng_fulfillops_cloud.Policy.Rows.{PolicyParameters, PolicyDb}
use luheng_fulfillops_cloud.Policy.Workflow.{yuan, find_package}

-- The abstract view of a package: its policy, the version of it and whether it is published.
pub record Standing : Type 0 where
  pub version : ℕ
  pub policy : PolicyParameters
  pub status : PolicyStatus

unfoldable pub standing : AssetPackage → Standing
standing p = record {
  version = p.policy_version;
  policy = record {
    budget_limit_yuan = p.budget_limit_yuan;
    min_settlement_bps = p.min_settlement_bps;
    max_installments = p.max_installments;
    min_down_payment_bps = p.min_down_payment_bps;
  };
  status = p.policy_status;
}

abbrev pub view : Option AssetPackage → Option Standing
view none = none
view (some p) = some (standing p)

unfoldable pub standing_of : ℕ → ℕ → PolicyDb → Option Standing
standing_of tenant_id package_id db = view (find_package db tenant_id package_id)

abbrev pub InBounds : PolicyParameters → Type 0
InBounds p =
    (p.budget_limit_yuan ≤ 100000 * yuan)
    × (1000 ≤ p.min_settlement_bps)
    × (p.min_settlement_bps ≤ 10000)
    × (1 ≤ p.max_installments)
    × (p.max_installments ≤ 60)
    × (p.min_down_payment_bps ≤ 10000)

-- The abstract machine: a policy is replaced as a whole, by one within the bounds, that one person
-- wrote and another approved, and its version grows by one. Who wrote what and who approves is given.
pub data PolicyStep (Wrote : ℕ → PolicyParameters → Type 0) (Approves : ℕ → Type 0)
    : Option Standing → Option Standing → Type 0 where
  kept : {s : Option Standing} → PolicyStep Wrote Approves s s
  publishes :
      {s : Standing}
      → (policy : PolicyParameters) → (author reviewer : ℕ) → author ≢ reviewer
      → Wrote author policy
      → Approves reviewer
      → InBounds policy
      → PolicyStep Wrote Approves
          (some s)
          (some (record { version = s.version + 1; policy = policy; status = published }))

pub data PolicyRun (Wrote : ℕ → PolicyParameters → Type 0) (Approves : ℕ → Type 0)
    : Option Standing → Option Standing → Type 0 where
  here : {s : Option Standing} → PolicyRun Wrote Approves s s
  next :
      {s t u : Option Standing}
      → PolicyStep Wrote Approves s t
      → PolicyRun Wrote Approves t u
      → PolicyRun Wrote Approves s u
