-- ===== src/Ledger/Candidates.antt =====
-- `payment_match_candidates` of backend/app/financial_ledger.py: the cases that a receipt may belong to,
-- ranked. The words of the signals are left out.
use luheng_fulfillops_cloud.Base.{
  ℕ, zero, suc, ◌+◌, ◌&&◌, ◌||◌, Bool, true, false, not, Option, none, some, List, [], ◌∷◌, ltb,
  leb, ◌==◌, if◌then◌else◌, first, any, select, map, min, order_by, Text, text_eq, text_leb,
}
use luheng_fulfillops_cloud.Cases.{CaseRecord, CaseFinancialProfile}
use luheng_fulfillops_cloud.Repayment.Rows.{payment, refund}
use luheng_fulfillops_cloud.Ledger.Rows.{LedgerDb, PaymentReceipt, is_matched}
use luheng_fulfillops_cloud.Ledger.Terms.{option_text_eq}

pub record Candidate : Type 0 where
  pub case_id : Text
  pub package_id : ℕ
  pub score : ℕ
  pub blocked : Bool
  pub has_signed_plan : Bool

abbrev is_original : PaymentReceipt → Text → PaymentReceipt → Bool
is_original receipt event_id r =
    r.tenant_id == receipt.tenant_id
    && text_eq r.provider receipt.provider
    && text_eq r.provider_event_id event_id
    && is_matched r.status

abbrev case_of_receipt : Option PaymentReceipt → Option Text
case_of_receipt none = none
case_of_receipt (some r) = r.case_id

-- `original_case_id`
unfoldable pub original_case : LedgerDb → PaymentReceipt → Option Text
original_case db receipt = elim receipt.event_type [
  | payment ↦ none
  | refund ↦ elim receipt.original_provider_event_id [
    | none ↦ none
    | some event_id ↦ case_of_receipt (first (is_original receipt event_id) db.receipts)
  ]
]

abbrev points : Bool → ℕ → ℕ
points true n = n
points false n = 0

unfoldable pub candidate_of : PaymentReceipt → Option Text → CaseRecord → Candidate
candidate_of receipt original c = record {
  case_id = c.case_id;
  package_id = c.package_id;
  score =
      min
        (20
          + points (option_text_eq receipt.case_id c.case_id) 50
          + points (option_text_eq original c.case_id) 60
          + points c.has_signed_plan 20
          + points (not c.blocked) 5)
        99;
  blocked = c.blocked;
  has_signed_plan = c.has_signed_plan;
}

-- `(-score, case_id)`
abbrev pub ranks_before : Candidate → Candidate → Bool
ranks_before a b = ltb b.score a.score || (a.score == b.score && text_leb a.case_id b.case_id)

abbrev take_first : ℕ → List Candidate → List Candidate
take_first zero cs = []
take_first (suc n) [] = []
take_first (suc n) (c ∷ cs) = c ∷ take_first n cs

abbrev has_profile : LedgerDb → ℕ → CaseRecord → Bool
has_profile db tenant_id c =
    any (λ (p : CaseFinancialProfile). p.tenant_id == tenant_id && text_eq p.case_id c.case_id)
      db.plan_tables.profiles

-- `max(1, min(limit, 20))`
abbrev shown : ℕ → ℕ
shown limit = if leb 1 (min limit 20) then min limit 20 else 1

unfoldable pub payment_match_candidates : LedgerDb → PaymentReceipt → (limit : ℕ) → List Candidate
payment_match_candidates db receipt limit = take_first (shown limit) (
    order_by ranks_before (
      map (candidate_of receipt (original_case db receipt)) (
        select (has_profile db receipt.tenant_id) (
          order_by (λ (a b : CaseRecord). text_leb a.case_id b.case_id)
            (select (λ (c : CaseRecord). c.tenant_id == receipt.tenant_id) db.plan_tables.cases)))))
