-- ===== src/Repayment/Context.antt =====
-- The queries of backend/app/repayment_plans.py: `_plan_context` and `_installments`.
use luheng_fulfillops_cloud.Base.{
  ℕ, ◌&&◌, Option, List, leb, ◌==◌, first, select, order_by, Text, Result, ok, ◌>>=◌, or_raise,
}
use luheng_fulfillops_cloud.Cases.{CaseRecord, CaseFinancialProfile, AssetPackage}
use luheng_fulfillops_cloud.Repayment.Rows.{
  RepaymentDb, RepaymentInstallment, RepaymentPlan, PlanCode, case_not_found, plan_context_missing,
  of_case,
}

unfoldable pub find_case : RepaymentDb → ℕ → Text → Option CaseRecord
find_case db tenant_id case_id =
    first (λ (c : CaseRecord). of_case tenant_id case_id c.tenant_id c.case_id) db.cases

unfoldable pub find_profile : RepaymentDb → ℕ → Text → Option CaseFinancialProfile
find_profile db tenant_id case_id =
    first (λ (p : CaseFinancialProfile). of_case tenant_id case_id p.tenant_id p.case_id)
      db.profiles

unfoldable pub find_package : RepaymentDb → ℕ → ℕ → Option AssetPackage
find_package db tenant_id package_id =
    first (λ (p : AssetPackage). p.tenant_id == tenant_id && p.package_id == package_id) db.packages

pub record PlanContext : Type 0 where
  pub case : CaseRecord
  pub profile : CaseFinancialProfile
  pub pack : AssetPackage

unfoldable pub plan_context : RepaymentDb → ℕ → Text → Result PlanCode PlanContext
unfolding find_case find_profile find_package
plan_context db tenant_id case_id = do
  case ← or_raise (find_case db tenant_id case_id) case_not_found
  profile ← or_raise (find_profile db tenant_id case_id) plan_context_missing
  pack ← or_raise (find_package db tenant_id case.package_id) plan_context_missing
  ok (record { case = case; profile = profile; pack = pack })

-- `_installments`, in the order of their numbers
unfoldable pub installments_of : RepaymentDb → RepaymentPlan → List RepaymentInstallment
installments_of db plan =
    order_by (λ (a b : RepaymentInstallment). leb a.installment_no b.installment_no)
      (select
        (λ (r : RepaymentInstallment). r.tenant_id == plan.tenant_id && r.plan_row_id == plan.id)
        db.installments)
