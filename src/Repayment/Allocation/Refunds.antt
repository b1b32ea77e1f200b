-- ===== src/Repayment/Allocation/Refunds.antt =====
-- The loop that takes a refund back from the installments that its payment went to.
use luheng_fulfillops_cloud.Base.{
  true, if◌then◌else◌, first_holds, ◌∙◌, ℕ, ◌+◌, ◌-◌, ◌≤◌, min, ◌≡◌, refl, ◌⊎◌, inl, inr, List, [],
  ◌∷◌, arith, All, map, first, sum_by, Text, Bool-cases, Option-cases, ==→eq, ◌==◌, some,
}
use luheng_fulfillops_cloud.Base.Int.{neg, neg_part, neg_parts}
use luheng_fulfillops_cloud.Repayment.Rows.{
  RepaymentPlan, RepaymentInstallment, RepaymentAllocation, RecoveryLedgerEntry,
}
use luheng_fulfillops_cloud.Repayment.Allocation.{Spread, spread_refund}
use luheng_fulfillops_cloud.Repayment.Lookup.{refundable, take_back}
use luheng_fulfillops_cloud.Repayment.Allocation.Loops.{WithinDue}

map_congr :
    (f g : RepaymentInstallment → ℕ) (rows : List RepaymentInstallment)
    → ((r : RepaymentInstallment) → f r ≡ g r)
    → map f rows ≡ map g rows
map_congr f g [] e = refl
map_congr f g (r ∷ rows) e = cc (e r, map_congr f g rows e)

WithinDue-take_back :
    (id amount booked_at : ℕ) (rows : List RepaymentInstallment)
    → WithinDue rows
    → WithinDue (map (take_back id amount booked_at) rows)
unfolding take_back
WithinDue-take_back id amount booked_at [] h = tt
WithinDue-take_back id amount booked_at (r ∷ rows) h =
    ground (arith, WithinDue-take_back id amount booked_at rows h.1)

take_back_paid :
    (id amount booked_at : ℕ) (r : RepaymentInstallment) (x : ℕ)
    → (take_back id amount booked_at r).paid_cents - x
      ≡ r.paid_cents - ((if r.id == id then amount else 0) + x)
unfolding take_back
take_back_paid id amount booked_at r x = ground arith

take_back_id :
    (id amount booked_at : ℕ) (r : RepaymentInstallment)
    → (take_back id amount booked_at r).id ≡ r.id
unfolding take_back
take_back_id id amount booked_at r = ground arith

-- What is taken back from an installment first comes off its paid amount before what is taken back later.
paid_after :
    (id amount booked_at : ℕ) (later : ℕ → ℕ) (rows : List RepaymentInstallment)
    → map
        (λ (r : RepaymentInstallment). r.paid_cents - later r.id)
        (map (take_back id amount booked_at) rows)
      ≡ map
          (λ (r : RepaymentInstallment).
            r.paid_cents - ((if r.id == id then amount else 0) + later r.id))
          rows
paid_after id amount booked_at later [] = refl
paid_after id amount booked_at later (r ∷ rows) = cc (
  take_back_id id amount booked_at r,
  take_back_paid id amount booked_at r (later r.id),
  paid_after id amount booked_at later rows,
)

-- The cents that an allocation takes back.
abbrev pub taken : RepaymentAllocation → ℕ
taken a = neg_part a.amount_cents

-- The cents that an allocation takes back from an installment.
abbrev pub taken_from : ℕ → RepaymentAllocation → ℕ
taken_from id a = if a.installment_row_id == id then taken a else 0

module _ (table : List RepaymentAllocation) (tenant_id : ℕ) where
  -- The reversal names one of the payment's allocations and takes no more than is left of it.
  abbrev pub IsBacked : List RepaymentAllocation → RepaymentAllocation → Type 0
  IsBacked [] a = ⊥
  IsBacked (o ∷ originals) a =
      ((a.source_allocation_id ≡ some o.id) × (taken a ≤ refundable table tenant_id o))
      ⊎ IsBacked originals a

  IsBacked-cons :
      (o : RepaymentAllocation) (originals as' : List RepaymentAllocation)
      → All (IsBacked originals) as'
      → All (IsBacked (o ∷ originals)) as'
  IsBacked-cons o originals [] h = tt
  IsBacked-cons o originals (a ∷ rest) h = (inr h.0, IsBacked-cons o originals rest h.1)

same_taken :
    (iid amount x : ℕ) (row r : RepaymentInstallment)
    → (row.id == iid) ≡ true
    → r.paid_cents - ((if r.id == iid then amount else 0) + x)
      ≡ r.paid_cents - ((if row.id == r.id then neg_part (neg amount) else 0) + x)
same_taken iid amount x row r named = ground (arith, named, (neg_parts amount).1)

module _ (id_digest : Text → Text → ℕ) (recovery : RecoveryLedgerEntry) (plan : RepaymentPlan)
    (table : List RepaymentAllocation) where
  abbrev pub run : ℕ → ℕ → List RepaymentInstallment → List RepaymentAllocation → Spread
  run = spread_refund id_digest recovery plan table

  abbrev pub Backed : List RepaymentAllocation → Spread → Type 0
  Backed originals s = All (IsBacked table recovery.tenant_id originals) s.allocations

  -- What the loop keeps, whatever the case: the amounts taken and the rest make the amount needed.
  pub record Outcome (needed : ℕ) (rows : List RepaymentInstallment)
      (originals : List RepaymentAllocation) (s : Spread) : Type 0 where
    pub total : sum_by taken s.allocations + s.remaining ≡ needed
    pub within : WithinDue s.rows
    pub backed : Backed originals s
    pub restored :
        map (λ (r : RepaymentInstallment). r.paid_cents) s.rows
        ≡ map
            (λ (r : RepaymentInstallment). r.paid_cents - sum_by (taken_from r.id) s.allocations)
            rows

  -- Where no installment has been paid more than is due, the loop of a refund takes back what is needed
  -- less what it reports as remaining, lowers the paid amount of each installment by what the reversals that name
  -- it take, not below zero, leaves no installment overpaid, and each of its reversals names an allocation of
  -- the payment and takes no more than earlier reversals have left of it.
  pub spread_refund-Outcome :
      (id needed : ℕ) (rows : List RepaymentInstallment) (originals : List RepaymentAllocation)
      → WithinDue rows
      → Outcome needed rows originals (run id needed rows originals)
  unfolding spread_refund
  spread_refund-Outcome id needed rows [] h = record {
    total = omega arith;
    within = h;
    backed = tt;
    restored = map_congr _ _ rows (λ r. omega arith);
  }
  spread_refund-Outcome id needed rows (o ∷ originals) h =
      let amount : ℕ = min needed (refundable table recovery.tenant_id o) in
      let rows' = map (take_back o.installment_row_id amount recovery.booked_at) rows in
      let kept = WithinDue-take_back o.installment_row_id amount recovery.booked_at rows h in
      let skip = spread_refund-Outcome id needed rows originals h in
      let rest_run = run (id + 1) (needed - amount) rows' originals in
      let rest = spread_refund-Outcome (id + 1) (needed - amount) rows' originals kept in
      let skipped = IsBacked-cons table recovery.tenant_id o originals _ skip.backed in
      let backed = IsBacked-cons table recovery.tenant_id o originals _ rest.backed in
      let (_, exact) = neg_parts amount in
      elim (Bool-cases (amount == 0)) [
        | inl nothing ↦ rw nothing (record {
          total = skip.total;
          within = skip.within;
          backed = skipped;
          restored = skip.restored;
        })
        | inr some_left ↦
            rw some_left
              (elim (Option-cases
                (first (λ (r : RepaymentInstallment). r.id == o.installment_row_id) rows)) [
                  | inl gone ↦ rw gone (record {
                    total = skip.total;
                    within = skip.within;
                    backed = skipped;
                    restored = skip.restored;
                  })
                  | inr (row, found) ↦ rw found (elim (Bool-cases (needed - amount == 0)) [
                    | inl done ↦ rw done (record {
                      total = omega (arith, exact, ==→eq _ _ done);
                      within = kept;
                      backed = (inl (refl, omega (arith, exact)), tt);
                      restored =
                          map_congr _ _ rows' (λ r. omega arith)
                          ∙ paid_after o.installment_row_id amount recovery.booked_at (λ _. 0) rows
                          ∙ map_congr _ _ rows (λ r.
                            same_taken o.installment_row_id amount 0 row r
                              (first_holds _ rows found));
                    })
                    | inr more ↦ rw more (record {
                      total = omega (arith, exact, rest.total);
                      within = rest.within;
                      backed = (inl (refl, omega (arith, exact)), backed);
                      restored =
                          rest.restored
                          ∙ paid_after o.installment_row_id amount recovery.booked_at
                              (λ i. sum_by (taken_from i) rest_run.allocations) rows
                          ∙ map_congr _ _ rows (λ r.
                            same_taken o.installment_row_id amount
                              (sum_by (taken_from r.id) rest_run.allocations) row r
                              (first_holds _ rows found));
                    })
                  ])
                ])
      ]
