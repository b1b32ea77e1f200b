-- ===== src/Ledger/Examples.antt =====
-- A payment that is refunded in parts, and commissions that are settled: runs of the ledger, and the
-- theorems at them.
use luheng_fulfillops_cloud.Base.{
  ℕ, ◌+◌, ◌*◌, ◌≡◌, refl, Bool, true, false, none, some, [], ◌∷◌, arith, codes, Text, ok, err,
  Returned, Result, naive, day, hour, length, text_eq, strip, upper,
}
use luheng_fulfillops_cloud.Base.Int.{pos, neg, ◌+ℤ◌, ◌-ℤ◌}
use luheng_fulfillops_cloud.Repayment.Rows.{payment, refund}
use luheng_fulfillops_cloud.Repayment.Context.{find_case, find_profile}
use luheng_fulfillops_cloud.Repayment.Allocation.{allocate_recovery_to_plan}
use luheng_fulfillops_cloud.Repayment.Lookup.{allocations_of, originals_of, plan_for, current_plan}
use luheng_fulfillops_cloud.Repayment.Examples.{id_hash, tables}
use luheng_fulfillops_cloud.Ledger.Rows.{
  LedgerDb, Hashes, CommissionRule, active, PaymentReceipt, LedgerCode, refund_exceeds_payment,
  from_recovery, from_request, settlement, CommissionLedgerEntry, accrual,
}
use luheng_fulfillops_cloud.Ledger.Terms.{
  commission_cents, tail_valid, payment_eligibility, active_rule, financial_profile,
  find_original_receipt, find_payment_entry, refunded_cents, refund_terms, payment_terms,
}
use luheng_fulfillops_cloud.Ledger.Summary.{accrues, commission_sum, sum_of, refresh_booked_metrics}
use luheng_fulfillops_cloud.Ledger.Reconcile.{
  booking_terms, book_receipt, reconcile_new, reconcile_receipt, write_receipt, new_recovery,
  new_commission,
}
use luheng_fulfillops_cloud.Ledger.Webhook.{
  VerifiedEvent, new_receipt, find_receipt, book_or_hold, store_receipt, accept_new,
  accept_payment_webhook,
}
use luheng_fulfillops_cloud.Ledger.Commission.{CommissionRequest, record_commission_event}
use luheng_fulfillops_cloud.Ledger.Rates.{IsCommission, commission_cents-IsCommission}
use luheng_fulfillops_cloud.Ledger.Refunds.{accept_payment_webhook-RefundsWithin}
use luheng_fulfillops_cloud.Ledger.Refundable.{RefundsWithin}
use luheng_fulfillops_cloud.Ledger.Balance.{IsBalanced, record_commission_event-IsBalanced}

abbrev pub hashes : Hashes
hashes = record {
  id_digest = id_hash;
  key_digest = λ s. s;
  payload_digest =
      λ p. elim p [ from_recovery t a s ↦ length s | from_request t a s d ↦ a + length s + d ];
}

abbrev rule_one : CommissionRule
rule_one = record {
  tenant_id = 1;
  rule_id = 3;
  package_id = 7;
  version = 2;
  rate_bps = 5000;
  status = active;
}

abbrev pub ledger : LedgerDb
ledger = record {
  plan_tables = tables;
  rules = rule_one ∷ [];
  receipts = [];
  recoveries = [];
  commissions = [];
  metrics = [];
  ledger_audit = [];
  next_id = 1;
}

abbrev pub paid : VerifiedEvent
paid = record {
  tenant_id = 1;
  provider = codes "bank";
  max_amount_cents = 1000;
  tolerance_seconds = 300;
  webhook_actor = 9;
  payload_digest = 77;
  signature_digest = 78;
  event_id = codes "E1";
  event_type = payment;
  amount_cents = 2;
  is_cny = true;
  occurred_at = naive (100 * day);
  case_id = some (codes "c1");
  original_event_id = none;
}

abbrev refunded : Text → VerifiedEvent
refunded event_id = record paid {
  event_id = event_id;
  event_type = refund;
  amount_cents = 1;
  original_event_id = some (codes "E1");
}

abbrev pub now : ℕ
now = 100 * day + hour

abbrev tables_in : Result LedgerCode (PaymentReceipt × Bool × LedgerDb) → LedgerDb
tables_in (ok w) = w.2
tables_in (err _) = ledger

abbrev pub receipt_in : Result LedgerCode (PaymentReceipt × Bool × LedgerDb) → PaymentReceipt
receipt_in (ok w) = w.0
receipt_in (err _) = new_receipt paid 0 0

abbrev pub ledger_paid : LedgerDb
ledger_paid = tables_in (accept_payment_webhook hashes paid now ledger)

pub paid_accepted :
    accept_payment_webhook hashes paid now ledger
    ≡ ok (receipt_in (accept_payment_webhook hashes paid now ledger), false, ledger_paid)
unfolding accept_payment_webhook find_receipt accept_new store_receipt
paid_accepted = refl

ledger-RefundsWithin : RefundsWithin ledger.recoveries
unfolding refunded_cents
ledger-RefundsWithin t id = omega arith

accept_payment_webhook-RefundsWithin_example :
    Returned (λ w. RefundsWithin w.2.recoveries) (accept_payment_webhook hashes paid now ledger)
accept_payment_webhook-RefundsWithin_example =
    accept_payment_webhook-RefundsWithin hashes paid now ledger ledger-RefundsWithin

-- Half of a cent is rounded up in size, in a payment of 2 and in each refund of 1.
halves :
    (commission_cents (pos 2) 5000 ≡ pos 1)
    × (commission_cents (neg 1) 5000 +ℤ commission_cents (neg 1) 5000 ≡ neg 2)
unfolding commission_cents ◌+ℤ◌ neg
halves = (refl, refl)

commission_cents-IsCommission_example : IsCommission (neg 3) 5000 (commission_cents (neg 3) 5000)
commission_cents-IsCommission_example = commission_cents-IsCommission (neg 3) 5000 (omega arith)

abbrev accrued : CommissionLedgerEntry
accrued = record {
  tenant_id = 1;
  event_id = 1;
  event_type = accrual;
  amount_cents = pos 50;
  source_recovery_entry_id = none;
  reference = [];
  idempotency_key = codes "k";
  payload_digest = 3;
  created_by = 9;
  occurred_at = 0;
}

abbrev ledger_accrued : LedgerDb
ledger_accrued = record ledger { commissions = accrued ∷ [] }

abbrev settle_40 : CommissionRequest
settle_40 = record {
  tenant_id = 1;
  event_type = settlement;
  amount_cents = 40;
  reference = codes "july";
  idempotency_key = codes "s1";
  actor_id = 4;
  occurred_at = naive day;
}

ledger_accrued-IsBalanced : IsBalanced ledger_accrued.commissions
unfolding commission_sum sum_of ◌+ℤ◌
ledger_accrued-IsBalanced t = ground arith

record_commission_event-IsBalanced_example :
    Returned
      (λ w. IsBalanced w.2.commissions)
      (record_commission_event hashes settle_40 now ledger_accrued)
record_commission_event-IsBalanced_example =
    record_commission_event-IsBalanced hashes settle_40 now ledger_accrued ledger_accrued-IsBalanced

-- A payment of 2 that is refunded in two parts of 1 earns a cent and takes two back; a third part is
-- more than was paid, and is held for review.
abbrev ledger_refunded : LedgerDb
ledger_refunded = tables_in (
    accept_payment_webhook hashes (refunded (codes "R2")) now
      (tables_in (accept_payment_webhook hashes (refunded (codes "R1")) now ledger_paid)))

refunds_in_parts : commission_sum accrues 1 ledger_refunded.commissions ≡ neg 1
unfolding accept_payment_webhook find_receipt accept_new store_receipt book_or_hold
    reconcile_receipt reconcile_new booking_terms book_receipt payment_terms refund_terms
    financial_profile payment_eligibility tail_valid active_rule find_original_receipt
    find_payment_entry refunded_cents find_case find_profile write_receipt new_recovery
    new_commission new_receipt commission_cents commission_sum sum_of ◌+ℤ◌ ◌-ℤ◌ neg text_eq strip
    upper allocate_recovery_to_plan allocations_of originals_of plan_for current_plan
    refresh_booked_metrics
refunds_in_parts = refl

third_part_held :
    (receipt_in
      (accept_payment_webhook hashes (refunded (codes "R3")) now ledger_refunded)).failure_code
    ≡ some refund_exceeds_payment
unfolding accept_payment_webhook find_receipt accept_new store_receipt book_or_hold
    reconcile_receipt reconcile_new booking_terms book_receipt payment_terms refund_terms
    financial_profile payment_eligibility tail_valid active_rule find_original_receipt
    find_payment_entry refunded_cents find_case find_profile write_receipt new_recovery
    new_commission new_receipt commission_cents neg text_eq strip upper allocate_recovery_to_plan
    allocations_of originals_of plan_for current_plan refresh_booked_metrics
third_part_held = refl
