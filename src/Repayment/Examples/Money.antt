-- ===== src/Repayment/Examples/Money.antt =====
-- Runs of the allocation of payments and refunds and of the views, and the theorems at them.
use luheng_fulfillops_cloud.Base.{
  ℕ, ◌+◌, ◌*◌, ◌≡◌, refl, none, some, List, [], ◌∷◌, arith, codes, day, length,
}
use luheng_fulfillops_cloud.Base.Int.{pos, neg, ◌+ℤ◌}
use luheng_fulfillops_cloud.Repayment.Rows.{
  RecoveryLedgerEntry, RepaymentInstallment, RepaymentAllocation, RepaymentPlan, payment, refund,
  matched_by_case, in_mandate, scheduled,
}
use luheng_fulfillops_cloud.Repayment.Sync.{total_paid}
use luheng_fulfillops_cloud.Repayment.Allocation.{
  allocate_recovery_to_plan, spread_payment, spread_refund,
}
use luheng_fulfillops_cloud.Repayment.Lookup.{refundable}
use luheng_fulfillops_cloud.Repayment.Allocation.Loops.{
  WithinDue, InOrder, total_paid-spread_payment, spread_payment-InOrder,
}
use luheng_fulfillops_cloud.Repayment.Allocation.Refunds.{Outcome, spread_refund-Outcome}
use luheng_fulfillops_cloud.Repayment.Allocation.Replay.{allocate_recovery_to_plan_once}
use luheng_fulfillops_cloud.Repayment.Examples.{id_hash}
use luheng_fulfillops_cloud.Repayment.Examples.Plans.{plan_approved, tables_approved}

abbrev payment_one : RecoveryLedgerEntry
payment_one = record {
  entry_id = codes "RLE-1";
  tenant_id = 1;
  receipt_id = 5;
  case_id = codes "C1";
  package_id = 7;
  event_type = payment;
  amount_cents = pos 500;
  eligible_amount_cents = pos 500;
  commission_rule_id = 3;
  commission_rule_version = 1;
  rate_bps = 1000;
  commission_cents = pos 50;
  reason = in_mandate;
  original_entry_id = none;
  allocation = matched_by_case (codes "C1");
  booked_at = 62 * day;
}

abbrev refund_one : RecoveryLedgerEntry
refund_one = record payment_one {
  entry_id = codes "RLE-2";
  event_type = refund;
  amount_cents = neg 150;
  original_entry_id = some (codes "RLE-1");
}

abbrev row : ℕ → ℕ → ℕ → RepaymentInstallment
row number due_cents paid_cents = record {
  id = number + 1;
  tenant_id = 1;
  plan_row_id = 1;
  installment_id = codes "P1-0";
  installment_no = number;
  due_date = 70 + 30 * number;
  due_cents = due_cents;
  paid_cents = paid_cents;
  status = scheduled;
  last_payment_at = none;
}

abbrev rows : List RepaymentInstallment
rows = row 1 400 0 ∷ row 2 600 0 ∷ []

rows-WithinDue : WithinDue rows
rows-WithinDue = ground arith

abbrev rows_paid : List RepaymentInstallment
rows_paid = row 1 400 400 ∷ row 2 600 100 ∷ []

rows_paid-WithinDue : WithinDue rows_paid
rows_paid-WithinDue = ground arith

abbrev part : ℕ → ℕ → RepaymentAllocation
part number amount = record {
  id = 10 + number;
  tenant_id = 1;
  allocation_id = number;
  recovery_entry_id = codes "RLE-1";
  plan_row_id = 1;
  installment_row_id = number + 1;
  amount_cents = pos amount;
  source_allocation_id = none;
}

abbrev parts : List RepaymentAllocation
parts = part 2 100 ∷ part 1 400 ∷ []

-- 500 cents pay the first period and a part of the second; a refund of 150 takes that part back first.
payment_parts :
    let s = spread_payment id_hash payment_one plan_approved 9 500 rows in
    (total_paid s.rows ≡ 500) × (s.remaining ≡ 0) × (length s.allocations ≡ 2)
unfolding spread_payment
payment_parts = (refl, refl, refl)

refund_parts :
    let s = spread_refund id_hash refund_one plan_approved parts 20 150 rows_paid parts in
    (total_paid s.rows ≡ 350) × (s.remaining ≡ 0) × (length s.allocations ≡ 2)
unfolding spread_refund refundable ◌+ℤ◌
refund_parts = (refl, refl, refl)

allocate_recovery_to_plan_once_example :
    let one = allocate_recovery_to_plan id_hash payment_one (62 * day) tables_approved in
    let two = allocate_recovery_to_plan id_hash payment_one (63 * day) one.2 in
    (two.1 ≡ one.1) × (two.2 ≡ one.2)
allocate_recovery_to_plan_once_example =
    allocate_recovery_to_plan_once id_hash payment_one (62 * day) (63 * day) tables_approved

total_paid-spread_payment_example :
    total_paid (spread_payment id_hash payment_one plan_approved 9 500 rows).rows
      + (spread_payment id_hash payment_one plan_approved 9 500 rows).remaining
    ≡ total_paid rows + 500
total_paid-spread_payment_example =
    total_paid-spread_payment id_hash payment_one plan_approved 9 500 rows

spread_payment-InOrder_example :
    InOrder rows (spread_payment id_hash payment_one plan_approved 9 500 rows).rows
spread_payment-InOrder_example =
    spread_payment-InOrder id_hash payment_one plan_approved 9 500 rows (omega arith)

spread_refund-Outcome_example :
    Outcome id_hash refund_one plan_approved parts 150 rows_paid parts
      (spread_refund id_hash refund_one plan_approved parts 20 150 rows_paid parts)
spread_refund-Outcome_example =
    spread_refund-Outcome id_hash refund_one plan_approved parts 20 150 rows_paid parts
      rows_paid-WithinDue

abbrev plan_of_1000 : RepaymentPlan
plan_of_1000 = record plan_approved { total_cents = 1000 }
