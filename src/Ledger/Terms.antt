-- ===== src/Ledger/Terms.antt =====
-- What a payment or refund is booked at: `_commission_cents`, `_financial_profile`,
-- `_payment_eligibility` and the first part of `_reconcile_receipt` of backend/app/financial_ledger.py.
use luheng_fulfillops_cloud.Base.{
  ℕ, ◌+◌, ◌*◌, ◌/◌, ◌&&◌, Bool, true, false, Option, none, some, List, [], ◌∷◌, ltb, leb, ◌==◌,
  if◌then◌else◌, first, select, least, sum_by, Text, text_eq, Result, ok, ◌>>=◌, ◌>>◌, raise_if,
  or_raise, date_of, not,
}
use luheng_fulfillops_cloud.Base.Int.{ℤ, pos, neg, neg_part, abs, ltb_ℤ}
use luheng_fulfillops_cloud.Cases.{CaseRecord, CaseFinancialProfile}
use luheng_fulfillops_cloud.Repayment.Rows.{
  RecoveryLedgerEntry, RecoveryEvent, RecoveryReason, payment, refund, pre_mandate, in_mandate,
  signed_plan_tail, outside_tail, refund_original_rate,
}
use luheng_fulfillops_cloud.Repayment.Context.{find_case, find_profile}
use luheng_fulfillops_cloud.Ledger.Rows.{
  LedgerDb, CommissionRule, RuleStatus, active, PaymentReceipt, is_matched, LedgerCode,
  case_unmatched, commission_rule_missing, original_payment_required, original_payment_missing,
  refund_case_mismatch, refund_exceeds_payment,
}

-- Half of a cent is rounded away from zero.
unfoldable pub commission_cents : ℤ → ℕ → ℤ
commission_cents amount_cents rate_bps =
    let magnitude : ℕ = (abs amount_cents * rate_bps + 5000) / 10000 in
    if ltb 0 (neg_part amount_cents) then neg magnitude else pos magnitude

abbrev pub is_active_rule : RuleStatus → Bool
is_active_rule active = true
is_active_rule _ = false

unfoldable pub active_rule : LedgerDb → ℕ → ℕ → ℕ → Option CommissionRule
active_rule db tenant_id rule_id package_id =
    least (λ (a b : CommissionRule). leb b.version a.version)
      (select
        (λ (r : CommissionRule).
          r.tenant_id == tenant_id
          && r.rule_id == rule_id
          && r.package_id == package_id
          && is_active_rule r.status)
        db.rules)

pub record FinancialProfile : Type 0 where
  pub case : CaseRecord
  pub profile : CaseFinancialProfile
  pub rule : CommissionRule

unfoldable pub financial_profile : LedgerDb → ℕ → Text → Result LedgerCode FinancialProfile
financial_profile db tenant_id case_id = do
  case ← or_raise (find_case db.plan_tables tenant_id case_id) case_unmatched
  profile ← or_raise (find_profile db.plan_tables tenant_id case_id) case_unmatched
  rule ←
      or_raise (active_rule db tenant_id profile.commission_rule_id case.package_id)
        commission_rule_missing
  ok (record { case = case; profile = profile; rule = rule })

-- `x is not None and test(x)`
abbrev set_and : Option ℕ → (ℕ → Bool) → Bool
set_and none test = false
set_and (some x) test = test x

unfoldable pub tail_valid : CaseFinancialProfile → ℕ → Bool
tail_valid profile booked =
    profile.signed_plan_tail_eligible
    && set_and profile.signed_plan_at (λ t. leb t profile.mandate_end)
    && set_and profile.signed_plan_last_due (λ t. leb booked t)

unfoldable pub payment_eligibility : CaseFinancialProfile → ℕ → Bool × RecoveryReason
unfolding tail_valid
payment_eligibility profile occurred_at =
    let booked : ℕ = date_of occurred_at in
    if ltb booked profile.mandate_start
    then (false, pre_mandate)
    else if leb booked profile.mandate_end
    then (true, in_mandate)
    else if tail_valid profile booked
    then (true, signed_plan_tail)
    else (false, outside_tail)

-- What the entry of a receipt takes from the case or from the payment that it refunds.
pub record BookingTerms : Type 0 where
  pub amount_cents : ℤ
  pub eligible_cents : ℤ
  pub rule_id : ℕ
  pub rule_version : ℕ
  pub rate_bps : ℕ
  pub reason : RecoveryReason
  pub package_id : ℕ
  pub original_entry_id : Option Text

abbrev pub is_payment : RecoveryEvent → Bool
is_payment payment = true
is_payment refund = false

abbrev pub option_text_eq : Option Text → Text → Bool
option_text_eq none t = false
option_text_eq (some s) t = text_eq s t

unfoldable pub find_original_receipt : LedgerDb → PaymentReceipt → Text → Option PaymentReceipt
find_original_receipt db receipt event_id =
    first
      (λ (r : PaymentReceipt).
        r.tenant_id == receipt.tenant_id
        && text_eq r.provider receipt.provider
        && text_eq r.provider_event_id event_id
        && is_matched r.status)
      db.receipts

unfoldable pub find_payment_entry : LedgerDb → ℕ → Text → Option RecoveryLedgerEntry
find_payment_entry db tenant_id entry_id =
    first
      (λ (e : RecoveryLedgerEntry).
        e.tenant_id == tenant_id && text_eq e.entry_id entry_id && is_payment e.event_type)
      db.recoveries

abbrev pub refunds_entry : ℕ → Text → RecoveryLedgerEntry → Bool
refunds_entry tenant_id entry_id e =
    e.tenant_id == tenant_id && option_text_eq e.original_entry_id entry_id

-- `sum(abs(row.amount_cents) for row in prior_refunds)`
unfoldable pub refunded_cents : ℕ → Text → List RecoveryLedgerEntry → ℕ
refunded_cents tenant_id entry_id entries =
    sum_by (λ (e : RecoveryLedgerEntry). abs e.amount_cents)
      (select (refunds_entry tenant_id entry_id) entries)

-- A text that is set and not empty.
abbrev pub non_empty : Option Text → Option Text
non_empty none = none
non_empty (some []) = none
non_empty (some (c ∷ s)) = some (c ∷ s)

abbrev pub recovery_of : Option PaymentReceipt → Option Text
recovery_of none = none
recovery_of (some r) = r.recovery_entry_id

unfoldable pub refund_terms : LedgerDb → PaymentReceipt → Text → Result LedgerCode BookingTerms
refund_terms db receipt case_id = do
  event_id ← or_raise (non_empty receipt.original_provider_event_id) original_payment_required
  entry_id ←
      or_raise (recovery_of (find_original_receipt db receipt event_id)) original_payment_missing
  original ← or_raise (find_payment_entry db receipt.tenant_id entry_id) refund_case_mismatch
  raise_if (not (text_eq original.case_id case_id)) refund_case_mismatch
  raise_if
      (ltb_ℤ original.amount_cents (
        pos (
          refunded_cents receipt.tenant_id original.entry_id db.recoveries + receipt.amount_cents)))
      refund_exceeds_payment
  ok (record {
    amount_cents = neg receipt.amount_cents;
    eligible_cents =
        if ltb 0 (abs original.eligible_amount_cents) then neg receipt.amount_cents else pos 0;
    rule_id = original.commission_rule_id;
    rule_version = original.commission_rule_version;
    rate_bps = original.rate_bps;
    reason = refund_original_rate;
    package_id = original.package_id;
    original_entry_id = some original.entry_id;
  })

unfoldable pub payment_terms : LedgerDb → PaymentReceipt → Text → Result LedgerCode BookingTerms
payment_terms db receipt case_id = do
  f ← financial_profile db receipt.tenant_id case_id
  let e = payment_eligibility f.profile receipt.occurred_at
  ok (record {
    amount_cents = pos receipt.amount_cents;
    eligible_cents = if e.0 then pos receipt.amount_cents else pos 0;
    rule_id = f.rule.rule_id;
    rule_version = f.rule.version;
    rate_bps = f.rule.rate_bps;
    reason = e.1;
    package_id = f.case.package_id;
    original_entry_id = none;
  })
