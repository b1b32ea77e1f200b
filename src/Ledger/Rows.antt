-- ===== src/Ledger/Rows.antt =====
-- The tables that backend/app/financial_ledger.py reads and writes beside those of the plans, and its
-- errors. Amounts of receipts are natural numbers: the schema of a request takes positive ones.
use luheng_fulfillops_cloud.Base.{ℕ, Bool, true, false, Option, List, Text}
use luheng_fulfillops_cloud.Base.Int.{ℤ}
use luheng_fulfillops_cloud.Repayment.Rows.{RepaymentDb, RecoveryLedgerEntry, RecoveryEvent}

pub data RuleStatus : Type 0 where
  active retired : RuleStatus

pub record CommissionRule : Type 0 where
  pub tenant_id : ℕ
  pub rule_id : ℕ
  pub package_id : ℕ
  pub version : ℕ
  pub rate_bps : ℕ
  pub status : RuleStatus

pub data ReceiptStatus : Type 0 where
  accepted matched unmatched review_required review_pending rejected : ReceiptStatus

abbrev pub is_matched : ReceiptStatus → Bool
is_matched matched = true
is_matched _ = false

-- The codes of `FinancialLedgerError` that the operations raise, and `human_review_pending` and
-- `reconciliation_rejected`, which only `failure_code` takes.
pub data LedgerCode : Type 0 where
  case_unmatched commission_rule_missing original_payment_required original_payment_missing :
      LedgerCode
  refund_case_mismatch refund_exceeds_payment idempotency_conflict currency_denied : LedgerCode
  amount_limit_exceeded occurred_at_in_future ledger_integrity_error : LedgerCode
  receipt_already_matched receipt_not_reconcilable candidate_not_available : LedgerCode
  reconciliation_in_progress reconciliation_not_pending receipt_missing : LedgerCode
  reconciliation_version_conflict maker_checker_conflict : LedgerCode
  invalid_reconciliation_decision human_review_pending reconciliation_rejected : LedgerCode
  invalid_commission_event settlement_exceeds_accrual collection_exceeds_settlement : LedgerCode

pub record PaymentReceipt : Type 0 where
  pub id : ℕ
  pub tenant_id : ℕ
  pub provider : Text
  pub provider_event_id : Text
  pub event_type : RecoveryEvent
  pub amount_cents : ℕ
  pub occurred_at : ℕ
  pub case_id : Option Text
  pub original_provider_event_id : Option Text
  pub payload_digest : ℕ
  pub signature_digest : ℕ
  pub status : ReceiptStatus
  pub failure_code : Option LedgerCode
  pub recovery_entry_id : Option Text
  pub duplicate_count : ℕ
  pub updated_at : ℕ

-- `other_event` stands for any text that is no event of commissions.
pub data CommissionEvent : Type 0 where
  accrual reversal settlement collection other_event : CommissionEvent

pub record CommissionLedgerEntry : Type 0 where
  pub tenant_id : ℕ
  pub event_id : ℕ
  pub event_type : CommissionEvent
  pub amount_cents : ℤ
  pub source_recovery_entry_id : Option Text
  pub reference : Text
  pub idempotency_key : Text
  pub payload_digest : ℕ
  pub created_by : ℕ
  pub occurred_at : ℕ

-- What the digest of a commission entry is taken of.
pub data CommissionPayload : Type 0 where
  from_recovery : CommissionEvent → ℤ → Text → CommissionPayload
  from_request : CommissionEvent → ℕ → Text → ℕ → CommissionPayload

-- The hashes that the ledger takes from hashlib.
pub record Hashes : Type 0 where
  pub id_digest : Text → Text → ℕ
  pub key_digest : Text → Text
  pub payload_digest : CommissionPayload → ℕ

pub data MetricKey : Type 0 where
  confirmed_net_recovery commission_eligible_recovery accrued_commission : MetricKey
  settled_commission collected_commission : MetricKey

-- The value is kept in cents; the program divides it by 100.
pub record BusinessMetricSnapshot : Type 0 where
  pub tenant_id : ℕ
  pub metric_key : MetricKey
  pub value_cents : ℤ
  pub as_of : ℕ

-- The `AuditEvent` rows of the ledger.
pub data LedgerAudit : Type 0 where
  receipt_accepted : (tenant_id receipt_id : ℕ) → ReceiptStatus → LedgerAudit
  receipt_matched : (tenant_id actor_id receipt_id : ℕ) → (case_id entry_id : Text) → LedgerAudit
  commission_recorded : (tenant_id actor_id event_id : ℕ) → CommissionEvent → ℕ → LedgerAudit

pub record LedgerDb : Type 0 where
  pub plan_tables : RepaymentDb
  pub rules : List CommissionRule
  pub receipts : List PaymentReceipt
  pub recoveries : List RecoveryLedgerEntry
  pub commissions : List CommissionLedgerEntry
  pub metrics : List BusinessMetricSnapshot
  pub ledger_audit : List LedgerAudit
  pub next_id : ℕ
