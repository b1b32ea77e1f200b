-- ===== src/Repayment/View.antt =====
-- `plan_view` and `repayment_overview` of backend/app/repayment_plans.py: the sums that they report.
-- The fields that a view copies from its row are read from the row itself.
use luheng_fulfillops_cloud.Base.{
  ℕ, ◌+◌, ◌-◌, ◌≤◌, ◌≡◌, ◌&&◌, Bool, true, false, List, [], ◌∷◌, map, arith, sum_by, select, ◌==◌,
  count_by, length, ltb, leb, if◌then◌else◌, date_of,
}
use luheng_fulfillops_cloud.Repayment.Rows.{
  RepaymentDb, RepaymentPlan, RepaymentInstallment, PlanStatus, active, InstallmentStatus, overdue,
  partial_overdue, is_active_plan,
}
use luheng_fulfillops_cloud.Repayment.Context.{installments_of}
use luheng_fulfillops_cloud.Repayment.Decision.{is_pending}
use luheng_fulfillops_cloud.Repayment.Sync.{status_for, is_completed}
use luheng_fulfillops_cloud.Repayment.Allocation.Loops.{WithinDue}

pub record InstallmentView : Type 0 where
  pub due_date : ℕ
  pub due_cents : ℕ
  pub paid_cents : ℕ
  pub remaining_cents : ℕ
  pub status : InstallmentStatus

pub record PlanView : Type 0 where
  pub plan : RepaymentPlan
  pub installments : List InstallmentView
  pub paid_cents : ℕ
  pub remaining_cents : ℕ
  pub overdue_cents : ℕ

installment_view : RepaymentPlan → ℕ → RepaymentInstallment → InstallmentView
installment_view plan as_of row = record {
  due_date = row.due_date;
  due_cents = row.due_cents;
  paid_cents = row.paid_cents;
  remaining_cents = row.due_cents - row.paid_cents;
  status = if is_active_plan plan.status then status_for row as_of else row.status;
}

abbrev is_overdue : InstallmentStatus → Bool
is_overdue overdue = true
is_overdue partial_overdue = true
is_overdue _ = false

abbrev pub open_cents : InstallmentView → ℕ
open_cents v = v.remaining_cents

pub view_rows : RepaymentPlan → List RepaymentInstallment → ℕ → PlanView
unfolding installment_view
view_rows plan rows as_of =
    let views : List InstallmentView = map (installment_view plan as_of) rows in
    let paid : ℕ = sum_by (λ (v : InstallmentView). v.paid_cents) views in
    record {
      plan = plan;
      installments = views;
      paid_cents = paid;
      remaining_cents = plan.total_cents - paid;
      overdue_cents =
          sum_by open_cents (select (λ (v : InstallmentView). is_overdue v.status) views);
    }

pub plan_view : RepaymentDb → RepaymentPlan → ℕ → PlanView
unfolding view_rows
plan_view db plan now = view_rows plan (installments_of db plan) (date_of now)

pub record Overview : Type 0 where
  pub active_count : ℕ
  pub pending_review_count : ℕ
  pub completed_count : ℕ
  pub overdue_plan_count : ℕ
  pub due_soon_count : ℕ

abbrev is_active : PlanStatus → Bool
is_active active = true
is_active _ = false

abbrev is_due_soon : ℕ → InstallmentView → Bool
is_due_soon today v = ltb 0 v.remaining_cents && leb today v.due_date && leb v.due_date (today + 7)

pub overview_of : List PlanView → ℕ → Overview
overview_of views today = record {
  active_count = count_by (λ (v : PlanView). is_active v.plan.status) views;
  pending_review_count = count_by (λ (v : PlanView). is_pending v.plan.status) views;
  completed_count = count_by (λ (v : PlanView). is_completed v.plan.status) views;
  overdue_plan_count = count_by (λ (v : PlanView). ltb 0 v.overdue_cents) views;
  due_soon_count =
      sum_by (λ (v : PlanView). count_by (is_due_soon today) v.installments)
        (select (λ (v : PlanView). is_active_plan v.plan.status) views);
}

-- The plans of the tenant, in any order: the counts do not depend on it.
pub repayment_overview : RepaymentDb → ℕ → ℕ → Overview
unfolding overview_of plan_view
repayment_overview db tenant_id now =
    overview_of
      (map (λ p. plan_view db p now)
        (select (λ (p : RepaymentPlan). p.tenant_id == tenant_id) db.plans))
      (date_of now)

overdue-le :
    (vs : List InstallmentView)
    → sum_by open_cents (select (λ (v : InstallmentView). is_overdue v.status) vs)
      ≤ sum_by open_cents vs
overdue-le [] = omega arith
overdue-le (v ∷ vs) = ground (arith, overdue-le vs)

rows_sums :
    (plan : RepaymentPlan) (as_of : ℕ) (rows : List RepaymentInstallment)
    → WithinDue rows
    → let views = map (installment_view plan as_of) rows in
      sum_by (λ (v : InstallmentView). v.paid_cents) views + sum_by open_cents views
      ≡ sum_by (λ (r : RepaymentInstallment). r.due_cents) rows
unfolding installment_view
rows_sums plan as_of [] h = omega arith
rows_sums plan as_of (r ∷ rows) h = omega (arith, rows_sums plan as_of rows h.1)

-- Where the installments make up the plan's total and none is overpaid, what the view says is left of
-- the plan is what is left of its installments, and no more than that is overdue.
pub view_rows_sums :
    (plan : RepaymentPlan) (rows : List RepaymentInstallment) (as_of : ℕ)
    → WithinDue rows
    → sum_by (λ (r : RepaymentInstallment). r.due_cents) rows ≡ plan.total_cents
    → let v = view_rows plan rows as_of in
      (v.paid_cents + v.remaining_cents ≡ plan.total_cents)
      × (v.remaining_cents ≡ sum_by open_cents v.installments)
      × (v.overdue_cents ≤ v.remaining_cents)
unfolding view_rows
view_rows_sums plan rows as_of h e =
    omega (arith, rows_sums plan as_of rows h, overdue-le (map (installment_view plan as_of) rows))

counts :
    (views : List PlanView)
    → count_by (λ (v : PlanView). is_active v.plan.status) views
        + count_by (λ (v : PlanView). is_pending v.plan.status) views
        + count_by (λ (v : PlanView). is_completed v.plan.status) views
      ≤ length views
counts [] = omega arith
counts (v ∷ views) = ground (arith, counts views)

-- No plan is counted under two statuses.
pub overview_of_counts :
    (views : List PlanView) (today : ℕ)
    → let o = overview_of views today in
      o.active_count + o.pending_review_count + o.completed_count ≤ length views
unfolding overview_of
overview_of_counts views today = counts views
