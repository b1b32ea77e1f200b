-- ===== src/Ledger/Summary.antt =====
-- `financial_summary` and `refresh_business_metrics` of backend/app/financial_ledger.py.
use luheng_fulfillops_cloud.Base.{
  not, length, ℕ, ◌&&◌, Bool, true, false, List, [], ◌∷◌, ◌++◌, ◌==◌, if◌then◌else◌, any, update,
  select, count_by,
}
use luheng_fulfillops_cloud.Base.Int.{ℤ, pos, ◌+ℤ◌, ◌-ℤ◌}
use luheng_fulfillops_cloud.Repayment.Rows.{RecoveryLedgerEntry}
use luheng_fulfillops_cloud.Ledger.Rows.{
  LedgerDb, CommissionLedgerEntry, CommissionEvent, accrual, reversal, settlement, collection,
  PaymentReceipt, ReceiptStatus, unmatched, review_required, review_pending, BusinessMetricSnapshot,
  MetricKey, confirmed_net_recovery, commission_eligible_recovery, accrued_commission,
  settled_commission, collected_commission,
}

-- `func.sum`, nothing for no row.
unfoldable pub sum_of {ℓ} : {A : Type ℓ} → (A → ℤ) → List A → ℤ
sum_of f [] = pos 0
sum_of f (x ∷ xs) = f x +ℤ sum_of f xs

abbrev pub accrues : CommissionEvent → Bool
accrues accrual = true
accrues reversal = true
accrues _ = false

abbrev pub settles : CommissionEvent → Bool
settles settlement = true
settles _ = false

abbrev pub collects : CommissionEvent → Bool
collects collection = true
collects _ = false

-- `sum(case((event_type in kinds, amount_cents), else_=0))` over the tenant's entries.
abbrev pub counted_cents : (CommissionEvent → Bool) → ℕ → CommissionLedgerEntry → ℤ
counted_cents kinds tenant_id e =
    if e.tenant_id == tenant_id && kinds e.event_type then e.amount_cents else pos 0

unfoldable pub commission_sum : (CommissionEvent → Bool) → ℕ → List CommissionLedgerEntry → ℤ
commission_sum kinds tenant_id entries = sum_of (counted_cents kinds tenant_id) entries

abbrev of_tenant : ℕ → RecoveryLedgerEntry → Bool
of_tenant tenant_id e = e.tenant_id == tenant_id

abbrev is_open_receipt : ReceiptStatus → Bool
is_open_receipt unmatched = true
is_open_receipt review_required = true
is_open_receipt review_pending = true
is_open_receipt _ = false

pub record FinancialSummary : Type 0 where
  pub confirmed_net_recovery_cents : ℤ
  pub commission_eligible_recovery_cents : ℤ
  pub accrued_commission_cents : ℤ
  pub settled_commission_cents : ℤ
  pub collected_commission_cents : ℤ
  pub unsettled_commission_cents : ℤ
  pub uncollected_settlement_cents : ℤ
  pub pending_receipt_count : ℕ

unfoldable pub financial_summary : LedgerDb → ℕ → FinancialSummary
financial_summary db tenant_id =
    let accrued : ℤ = commission_sum accrues tenant_id db.commissions in
    let settled : ℤ = commission_sum settles tenant_id db.commissions in
    let collected : ℤ = commission_sum collects tenant_id db.commissions in
    let recoveries : List RecoveryLedgerEntry = select (of_tenant tenant_id) db.recoveries in
    record {
      confirmed_net_recovery_cents =
          sum_of (λ (e : RecoveryLedgerEntry). e.amount_cents) recoveries;
      commission_eligible_recovery_cents =
          sum_of (λ (e : RecoveryLedgerEntry). e.eligible_amount_cents) recoveries;
      accrued_commission_cents = accrued;
      settled_commission_cents = settled;
      collected_commission_cents = collected;
      unsettled_commission_cents = accrued -ℤ settled;
      uncollected_settlement_cents = settled -ℤ collected;
      pending_receipt_count =
          count_by (λ (r : PaymentReceipt). r.tenant_id == tenant_id && is_open_receipt r.status)
            db.receipts;
    }

-- The number of a metric's key, to compare keys by.
abbrev key_no : MetricKey → ℕ
key_no confirmed_net_recovery = 0
key_no commission_eligible_recovery = 1
key_no accrued_commission = 2
key_no settled_commission = 3
key_no collected_commission = 4

abbrev is_metric : ℕ → MetricKey → BusinessMetricSnapshot → Bool
is_metric tenant_id key m = m.tenant_id == tenant_id && key_no m.metric_key == key_no key

put_metric : ℕ → ℕ → MetricKey → ℤ → List BusinessMetricSnapshot → List BusinessMetricSnapshot
put_metric now tenant_id key value metrics =
    let known : Bool = any (is_metric tenant_id key) metrics in
    let fresh : BusinessMetricSnapshot = record {
      tenant_id = tenant_id;
      metric_key = key;
      value_cents = value;
      as_of = now;
    } in
    update (is_metric tenant_id key)
      (λ (m : BusinessMetricSnapshot). record m { value_cents = value; as_of = now })
      (if known then metrics else metrics ++ fresh ∷ [])

unfoldable pub refresh_business_metrics : ℕ → ℕ → LedgerDb → LedgerDb
unfolding put_metric
refresh_business_metrics tenant_id now db =
    let s : FinancialSummary = financial_summary db tenant_id in
    record db {
      metrics = put_metric now tenant_id collected_commission s.collected_commission_cents (
          put_metric now tenant_id settled_commission s.settled_commission_cents (
            put_metric now tenant_id accrued_commission s.accrued_commission_cents (
              put_metric now tenant_id commission_eligible_recovery
                s.commission_eligible_recovery_cents
                (put_metric now tenant_id confirmed_net_recovery s.confirmed_net_recovery_cents
                  db.metrics))));
    }

-- An allocation that stores something flushes the session.
abbrev is_flushed : LedgerDb → LedgerDb → Bool
is_flushed before after =
    not (length after.plan_tables.allocations == length before.plan_tables.allocations)

-- `refresh_business_metrics` where a receipt was booked: the session flushes by itself never, so that the
-- commission entry that was only added is not seen, unless an allocation has flushed it.
unfoldable pub refresh_booked_metrics : (tenant_id now : ℕ) → (before after : LedgerDb) → LedgerDb
refresh_booked_metrics tenant_id now before after =
    let seen : LedgerDb =
      if is_flushed before after
      then after
      else record after { commissions = before.commissions } in
    record after { metrics = (refresh_business_metrics tenant_id now seen).metrics }
