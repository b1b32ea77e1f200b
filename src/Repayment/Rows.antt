-- ===== src/Repayment/Rows.antt =====
-- The tables that backend/app/repayment_plans.py reads and writes, and its errors.
use luheng_fulfillops_cloud.Base.{
  ℕ, ◌&&◌, Bool, true, false, Option, List, Text, text_eq, ◌==◌, text_eq_refl, ◌≡◌, arith,
}
use luheng_fulfillops_cloud.Base.Int.{ℤ}
use luheng_fulfillops_cloud.Cases.{CaseRecord, CaseFinancialProfile, AssetPackage, Decision}

pub data PlanStatus : Type 0 where
  pending_review active completed rejected : PlanStatus

-- `status in ACTIVE_PLAN_STATUSES`
abbrev pub is_active_plan : PlanStatus → Bool
is_active_plan active = true
is_active_plan completed = true
is_active_plan _ = false

-- `status in {"pending_review", *ACTIVE_PLAN_STATUSES}`
abbrev pub is_in_progress : PlanStatus → Bool
is_in_progress rejected = false
is_in_progress _ = true

pub data InstallmentStatus : Type 0 where
  paid partial_overdue partial overdue due scheduled : InstallmentStatus

pub record ScheduleItem : Type 0 where
  pub installment_no : ℕ
  pub due_date : ℕ
  pub due_cents : ℕ

pub record PolicySnapshot : Type 0 where
  pub package_id : ℕ
  pub policy_version : ℕ
  pub min_settlement_bps : ℕ
  pub max_installments : ℕ
  pub min_down_payment_bps : ℕ
  pub mandate_start : ℕ
  pub mandate_end : ℕ

-- What `_digest` is taken of in `create_plan_proposal`.
pub record Evidence : Type 0 where
  pub tenant_id : ℕ
  pub case_id : Text
  pub plan_id : Text
  pub claim_balance_cents : ℕ
  pub total_cents : ℕ
  pub down_payment_cents : ℕ
  pub schedule : List ScheduleItem
  pub agreement_reference : Text
  pub agreement_digest : Text
  pub signed_at : ℕ
  pub policy_snapshot : PolicySnapshot
  pub proposal_reason : Text

pub record RepaymentPlan : Type 0 where
  pub id : ℕ
  pub tenant_id : ℕ
  pub plan_id : Text
  pub case_id : Text
  pub status : PlanStatus
  pub version : ℕ
  pub claim_balance_cents : ℕ
  pub total_cents : ℕ
  pub down_payment_cents : ℕ
  pub installment_count : ℕ
  pub policy_version : ℕ
  pub policy_snapshot : PolicySnapshot
  pub agreement_reference : Text
  pub agreement_digest : Text
  pub signed_at : ℕ
  pub evidence_digest : ℕ
  pub proposal_reason : Text
  pub proposed_by : ℕ
  pub proposed_at : ℕ
  pub reviewed_by : Option ℕ
  pub reviewed_at : Option ℕ
  pub review_note : Option Text
  pub activated_at : Option ℕ
  pub completed_at : Option ℕ

pub record RepaymentInstallment : Type 0 where
  pub id : ℕ
  pub tenant_id : ℕ
  pub plan_row_id : ℕ
  pub installment_id : Text
  pub installment_no : ℕ
  pub due_date : ℕ
  pub due_cents : ℕ
  pub paid_cents : ℕ
  pub status : InstallmentStatus
  pub last_payment_at : Option ℕ

pub record RepaymentAllocation : Type 0 where
  pub id : ℕ
  pub tenant_id : ℕ
  pub allocation_id : ℕ
  pub recovery_entry_id : Text
  pub plan_row_id : ℕ
  pub installment_row_id : ℕ
  pub amount_cents : ℤ
  pub source_allocation_id : Option ℕ

-- `RecoveryLedgerEntry.event_type`
pub data RecoveryEvent : Type 0 where
  payment refund : RecoveryEvent

-- Why a recovery counts for commission or not: `_payment_eligibility` of
-- backend/app/financial_ledger.py, and what a refund takes over.
pub data RecoveryReason : Type 0 where
  pre_mandate in_mandate signed_plan_tail outside_tail refund_original_rate : RecoveryReason

-- The fields of the text that `_allocation_label` prints.
pub record AllocationLabel : Type 0 where
  pub plan_id : Text
  pub periods : ℕ
  pub is_reversal : Bool
  pub allocated : ℕ
  pub unallocated : ℕ

-- The column `RecoveryLedgerEntry.allocation`: the label of the case that the entry is made with,
-- or that of its allocation to a plan.
pub data AllocationNote : Type 0 where
  matched_by_case : Text → AllocationNote
  spread_over_plan : AllocationLabel → AllocationNote

pub record RecoveryLedgerEntry : Type 0 where
  pub entry_id : Text
  pub tenant_id : ℕ
  pub receipt_id : ℕ
  pub case_id : Text
  pub package_id : ℕ
  pub event_type : RecoveryEvent
  pub amount_cents : ℤ
  pub eligible_amount_cents : ℤ
  pub commission_rule_id : ℕ
  pub commission_rule_version : ℕ
  pub rate_bps : ℕ
  pub commission_cents : ℤ
  pub reason : RecoveryReason
  pub original_entry_id : Option Text
  pub allocation : AllocationNote
  pub booked_at : ℕ

-- `AuditEvent` rows of the two operations on plans, with the parts of `detail` that are not digests.
pub data PlanAudit : Type 0 where
  proposed :
      (tenant_id actor_id resource_id : ℕ) (plan_id case_id : Text)
      → (policy_version installment_count evidence_digest : ℕ) → PlanAudit
  decided :
      (tenant_id actor_id resource_id : ℕ)
      → Decision
      → (plan_id case_id : Text) → (version evidence_digest : ℕ) → PlanAudit

-- The committed tables. `next_id` is the next key that `new_id` makes: it draws random keys, and the
-- model numbers them, so that no key is given twice.
pub record RepaymentDb : Type 0 where
  pub cases : List CaseRecord
  pub profiles : List CaseFinancialProfile
  pub packages : List AssetPackage
  pub plans : List RepaymentPlan
  pub installments : List RepaymentInstallment
  pub allocations : List RepaymentAllocation
  pub plan_audit : List PlanAudit
  pub next_id : ℕ

-- The codes of `RepaymentPlanError`; `index_error` is Python's own error for `schedule[0]` of an
-- empty schedule.
pub data PlanCode : Type 0 where
  case_not_found plan_context_missing invalid_installment_sequence invalid_installment_amount :
      PlanCode
  invalid_due_dates case_protected claim_balance_missing plan_exceeds_claim : PlanCode
  settlement_below_policy installments_exceed_policy schedule_total_mismatch : PlanCode
  down_payment_mismatch down_payment_below_policy signature_in_future : PlanCode
  signature_outside_mandate installment_before_signature plan_id_conflict : PlanCode
  case_plan_in_progress plan_not_pending plan_version_conflict maker_checker_conflict : PlanCode
  invalid_decision policy_version_conflict active_plan_exists index_error : PlanCode

-- A row of a tenant's case.
abbrev pub of_case : ℕ → Text → ℕ → Text → Bool
of_case tenant case_id t c = t == tenant && text_eq c case_id

pub of_case_self : (tenant : ℕ) (case_id : Text) → of_case tenant case_id tenant case_id ≡ true
of_case_self tenant case_id = ground (arith, text_eq_refl case_id)
