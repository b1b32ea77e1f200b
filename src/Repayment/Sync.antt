-- ===== src/Repayment/Sync.antt =====
-- `_status_for`, `_sync_plan_state` and `_allocation_label` of backend/app/repayment_plans.py: the
-- status of installments, plan and case follows the money that has been paid. Money that is due or
-- paid is a number of cents, since the program cuts at `max(0, …)` what it takes back.
use luheng_fulfillops_cloud.Base.{
  ℕ, ◌&&◌, Bool, true, false, not, Option, none, some, List, [], ◌∷◌, ◌==◌, ltb, leb, if◌then◌else◌,
  length, first, update, map, sum_by, Text, date_of,
}
use luheng_fulfillops_cloud.Base.Int.{ℤ, pos, ◌+ℤ◌, abs, ltb_ℤ}
use luheng_fulfillops_cloud.Cases.{CaseRecord, CaseStatus, settled, performing}
use luheng_fulfillops_cloud.Repayment.Rows.{
  RepaymentDb, RepaymentInstallment, RepaymentPlan, RepaymentAllocation, AllocationLabel,
  InstallmentStatus, paid, partial_overdue, partial, overdue, due, scheduled, PlanStatus, active,
  completed, of_case,
}
use luheng_fulfillops_cloud.Repayment.Decision.{write_plan}

unfoldable pub status_for : RepaymentInstallment → ℕ → InstallmentStatus
status_for row as_of =
    if leb row.due_cents row.paid_cents
    then paid
    else if ltb 0 row.paid_cents
    then (if ltb row.due_date as_of then partial_overdue else partial)
    else if ltb row.due_date as_of
    then overdue
    else if row.due_date == as_of
    then due
    else scheduled

abbrev pub is_completed : PlanStatus → Bool
is_completed completed = true
is_completed _ = false

abbrev or_now : Option ℕ → ℕ → Option ℕ
or_now none now = some now
or_now (some t) now = some t

abbrev pub total_paid : List RepaymentInstallment → ℕ
total_paid = sum_by (λ (r : RepaymentInstallment). r.paid_cents)

-- The status of the plan after its rows have changed, and the status for its case where that changes.
unfoldable pub synced_plan :
    RepaymentPlan → List RepaymentInstallment → ℕ → RepaymentPlan × Option CaseStatus
synced_plan plan rows now =
    if leb plan.total_cents (total_paid rows)
    then (
      record plan { status = completed; completed_at = or_now plan.completed_at now },
      some settled,
    )
    else if is_completed plan.status
    then (record plan { status = active; completed_at = none }, some performing)
    else (plan, none)

-- A case under protection keeps its status.
write_case : ℕ → Text → Option CaseStatus → List CaseRecord → List CaseRecord
write_case tenant_id case_id none cases = cases
write_case tenant_id case_id (some status) cases =
    update (λ (c : CaseRecord). of_case tenant_id case_id c.tenant_id c.case_id && not c.blocked)
      (λ (c : CaseRecord). record c { status = status }) cases

abbrev same_row : RepaymentInstallment → RepaymentInstallment → Bool
same_row r s = s.id == r.id

abbrev or_row : RepaymentInstallment → Option RepaymentInstallment → RepaymentInstallment
or_row r none = r
or_row r (some s) = s

-- The rows are objects of the session: what is written to them is written to the table.
unfoldable pub write_rows :
    List RepaymentInstallment → List RepaymentInstallment → List RepaymentInstallment
write_rows rows = map (λ r. or_row r (first (same_row r) rows))

unfoldable pub sync_plan_state :
    RepaymentPlan → List RepaymentInstallment → ℕ → RepaymentDb → RepaymentDb
unfolding write_case
sync_plan_state plan rows now db =
    let rows' : List RepaymentInstallment =
      map (λ (r : RepaymentInstallment). record r { status = status_for r (date_of now) }) rows in
    let (plan', status) = synced_plan plan rows' now in
    record db {
      plans = write_plan plan' db.plans;
      installments = write_rows rows' db.installments;
      cases = write_case plan.tenant_id plan.case_id status db.cases;
    }

unfoldable pub sum_amounts : List RepaymentAllocation → ℤ
sum_amounts [] = pos 0
sum_amounts (a ∷ rest) = a.amount_cents +ℤ sum_amounts rest

unfoldable pub allocation_label : RepaymentPlan → List RepaymentAllocation → ℕ → AllocationLabel
unfolding sum_amounts
allocation_label plan allocations unallocated = record {
  plan_id = plan.plan_id;
  periods = length allocations;
  is_reversal = ltb_ℤ (sum_amounts allocations) (pos 0);
  allocated = abs (sum_amounts allocations);
  unallocated = unallocated;
}
