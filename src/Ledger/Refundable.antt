-- ===== src/Ledger/Refundable.antt =====
-- What is paid, what is refunded, and that a refund is priced within what is left.
use luheng_fulfillops_cloud.Base.{
  ℕ, ◌+◌, ◌≤◌, ◌≡◌, sym, ◌∙◌, subst, inl, inr, Bool, true, false, not, Option, none, some, List, [],
  ◌∷◌, ◌++◌, arith, first, Text, text_eq, text_eq→eq, Returned, Returned-raise_if,
  Returned-or_raise, Result-cases, Bool-cases, ◌==◌, ◌&&◌, first_holds, if◌then◌else◌,
}
use luheng_fulfillops_cloud.Base.Int.{pos, neg, abs, pos_part, neg_parts, ltb_ℤ}
use luheng_fulfillops_cloud.Repayment.Rows.{RecoveryLedgerEntry, payment, refund}
use luheng_fulfillops_cloud.Ledger.Rows.{
  LedgerDb, PaymentReceipt, original_payment_required, original_payment_missing,
  refund_case_mismatch, refund_exceeds_payment,
}
use luheng_fulfillops_cloud.Ledger.Reconcile.{booking_terms}
use luheng_fulfillops_cloud.Ledger.Terms.{
  BookingTerms, is_payment, find_payment_entry, refunds_entry, refunded_cents, refund_terms,
  payment_terms, financial_profile, option_text_eq, non_empty, recovery_of, find_original_receipt,
}

abbrev is_entry : ℕ → Text → RecoveryLedgerEntry → Bool
is_entry t id e = e.tenant_id == t && text_eq e.entry_id id && is_payment e.event_type

-- The amount of the payment of a number, nothing where there is none.
abbrev amount_of : Option RecoveryLedgerEntry → ℕ
amount_of none = 0
amount_of (some e) = pos_part e.amount_cents

abbrev pub paid_cents : ℕ → Text → List RecoveryLedgerEntry → ℕ
paid_cents t id entries = amount_of (first (is_entry t id) entries)

abbrev pub RefundsWithin : List RecoveryLedgerEntry → Type 0
RefundsWithin entries = (t : ℕ) (id : Text) → refunded_cents t id entries ≤ paid_cents t id entries

abbrev refund_part : ℕ → Text → RecoveryLedgerEntry → ℕ
refund_part t id e = if refunds_entry t id e then abs e.amount_cents else 0

refunded_cents-append :
    (t : ℕ) (id : Text) (entries : List RecoveryLedgerEntry) (e : RecoveryLedgerEntry)
    → refunded_cents t id (entries ++ e ∷ []) ≡ refunded_cents t id entries + refund_part t id e
unfolding refunded_cents
refunded_cents-append t id [] e = ground arith
refunded_cents-append t id (x ∷ entries) e = ground (arith, refunded_cents-append t id entries e)

paid_cents-append-le :
    (t : ℕ) (id : Text) (entries : List RecoveryLedgerEntry) (e : RecoveryLedgerEntry)
    → paid_cents t id entries ≤ paid_cents t id (entries ++ e ∷ [])
paid_cents-append-le t id [] e = omega arith
paid_cents-append-le t id (x ∷ entries) e = ground (arith, paid_cents-append-le t id entries e)

-- What the entry may still take back.
abbrev pub Fits : RecoveryLedgerEntry → List RecoveryLedgerEntry → Type 0
Fits e entries =
    (t : ℕ) (id : Text)
    → refunds_entry t id e ≡ true
    → refunded_cents t id entries + abs e.amount_cents ≤ paid_cents t id entries

pub append-RefundsWithin :
    (entries : List RecoveryLedgerEntry) (e : RecoveryLedgerEntry)
    → Fits e entries
    → RefundsWithin entries
    → RefundsWithin (entries ++ e ∷ [])
append-RefundsWithin entries e fits h t id =
    let more = refunded_cents-append t id entries e in
    let kept = paid_cents-append-le t id entries e in
    elim (Bool-cases (refunds_entry t id e)) [
      | inl hit ↦ let r = rw hit at more in omega (arith, r, kept, fits t id hit)
      | inr miss ↦ let r = rw miss at more in omega (arith, r, kept, h t id)
    ]

-- What a refund is priced at fits: it names a payment with enough left.
abbrev pub TermsFit : LedgerDb → ℕ → BookingTerms → Type 0
TermsFit db tenant t =
    (id : Text)
    → option_text_eq t.original_entry_id id ≡ true
    → refunded_cents tenant id db.recoveries + abs t.amount_cents
      ≤ paid_cents tenant id db.recoveries

enough_left :
    (entries : List RecoveryLedgerEntry) (tenant : ℕ) (original : RecoveryLedgerEntry)
    (entry_id id : Text) (amount_cents : ℕ)
    → first (is_entry tenant entry_id) entries ≡ some original
    → original.entry_id ≡ entry_id
    → entry_id ≡ id
    → ltb_ℤ original.amount_cents
        (pos (refunded_cents tenant original.entry_id entries + amount_cents))
      ≡ false
    → refunded_cents tenant id entries + abs (neg amount_cents) ≤ paid_cents tenant id entries
enough_left entries tenant original entry_id id amount_cents found key same within =
    let (none_gained, exact) = neg_parts amount_cents in
    let less = rw key at within in
    subst
      (λ x. refunded_cents tenant x entries + abs (neg amount_cents) ≤ paid_cents tenant x entries)
      same (rw found (ground (arith, less, none_gained, exact)))

refund_terms-TermsFit :
    (db : LedgerDb) (receipt : PaymentReceipt) (case_id : Text)
    → Returned (TermsFit db receipt.tenant_id) (refund_terms db receipt case_id)
unfolding refund_terms find_payment_entry
refund_terms-TermsFit db receipt case_id =
    let P = TermsFit db receipt.tenant_id in
    Returned-or_raise P (non_empty receipt.original_provider_event_id) original_payment_required _
      (λ event_id _.
        Returned-or_raise P (recovery_of (find_original_receipt db receipt event_id))
          original_payment_missing _
          (λ entry_id _.
            Returned-or_raise P (first (is_entry receipt.tenant_id entry_id) db.recoveries)
              refund_case_mismatch _
              (λ original found.
                Returned-raise_if P (not (text_eq original.case_id case_id)) refund_case_mismatch _
                  (λ _.
                    Returned-raise_if P
                      (ltb_ℤ original.amount_cents (
                        pos (
                          refunded_cents receipt.tenant_id original.entry_id db.recoveries
                          + receipt.amount_cents)))
                      refund_exceeds_payment _
                      (λ within id same.
                        let key : original.entry_id ≡ entry_id =
                          text_eq→eq original.entry_id entry_id (
                            ground (
                              arith,
                              first_holds (is_entry receipt.tenant_id entry_id) db.recoveries found,
                            )) in
                        enough_left db.recoveries receipt.tenant_id original entry_id id
                          receipt.amount_cents found key
                          (sym key ∙ text_eq→eq original.entry_id id same) within)))))

payment_terms-TermsFit :
    (db : LedgerDb) (receipt : PaymentReceipt) (case_id : Text)
    → Returned (TermsFit db receipt.tenant_id) (payment_terms db receipt case_id)
unfolding payment_terms
payment_terms-TermsFit db receipt case_id =
    elim (Result-cases (financial_profile db receipt.tenant_id case_id)) [
      | inl (f, e) ↦ rw (e, payment_terms) (λ id same. absurd (cc same))
      | inr (code, e) ↦ rw (e, payment_terms) tt
    ]

pub booking_terms-TermsFit :
    (db : LedgerDb) (receipt : PaymentReceipt) (case_id : Text)
    → Returned (TermsFit db receipt.tenant_id) (booking_terms db receipt case_id)
unfolding booking_terms
booking_terms-TermsFit db receipt case_id =
    elim receipt.event_type
      as (λ t. Returned (TermsFit db receipt.tenant_id) (elim t [
        | payment ↦ payment_terms db receipt case_id
        | refund ↦ refund_terms db receipt case_id
      ])) [
        | payment ↦ payment_terms-TermsFit db receipt case_id
        | refund ↦ refund_terms-TermsFit db receipt case_id
      ]
