-- ===== src/Repayment/Allocation/Replay.antt =====
-- A recovery is allocated once: the second call finds the first one's allocations.
use luheng_fulfillops_cloud.Base.{
  ℕ, ◌+◌, ◌-◌, min, ◌≡◌, refl, sym, ap, ◌∙◌, inl, inr, true, List, [], ◌∷◌, arith, All, map, first,
  select-append-All, Text, Bool-cases, Option-cases, List-cases, ◌==◌, ==_refl, text_eq,
  text_eq_refl, order_by, leb, some, none, ◌&&◌,
}
use luheng_fulfillops_cloud.Base.Int.{pos_part, neg_part}
use luheng_fulfillops_cloud.Repayment.Rows.{
  RepaymentDb, RepaymentPlan, RepaymentInstallment, RepaymentAllocation, RecoveryLedgerEntry,
}
use luheng_fulfillops_cloud.Repayment.Sync.{sync_plan_state}
use luheng_fulfillops_cloud.Repayment.Context.{installments_of}
use luheng_fulfillops_cloud.Repayment.Allocation.{
  Spread, spread_payment, spread_refund, spread, store_spread, order_no, allocate_recovery_to_plan,
}
use luheng_fulfillops_cloud.Repayment.Lookup.{
  originals_of, plan_for, refundable, take_back, of_recovery, allocations_of,
}

module _ (id_digest : Text → Text → ℕ) (recovery : RecoveryLedgerEntry) where
  abbrev Own : RepaymentAllocation → Type 0
  Own a = of_recovery recovery.tenant_id recovery.entry_id a ≡ true

  self :
      (recovery.tenant_id == recovery.tenant_id && text_eq recovery.entry_id recovery.entry_id)
      ≡ true
  self = rw (==_refl, text_eq_refl)

  spread_payment-Own :
      (plan : RepaymentPlan) (id remaining : ℕ) (rows : List RepaymentInstallment)
      → All Own (spread_payment id_digest recovery plan id remaining rows).allocations
  unfolding spread_payment
  spread_payment-Own plan id remaining [] = tt
  spread_payment-Own plan id remaining (r ∷ rows) =
      let amount : ℕ = min remaining (r.due_cents - r.paid_cents) in
      elim (Bool-cases (amount == 0)) [
        | inl full ↦ rw full (spread_payment-Own plan id remaining rows)
        | inr takes ↦ rw takes (elim (Bool-cases (remaining - amount == 0)) [
          | inl done ↦ rw done (self, tt)
          | inr more ↦ rw more (self, spread_payment-Own plan (id + 1) (remaining - amount) rows)
        ])
      ]

  spread_refund-Own :
      (plan : RepaymentPlan) (table : List RepaymentAllocation) (id needed : ℕ)
      (rows : List RepaymentInstallment) (originals : List RepaymentAllocation)
      → All Own (spread_refund id_digest recovery plan table id needed rows originals).allocations
  unfolding spread_refund
  spread_refund-Own plan table id needed rows [] = tt
  spread_refund-Own plan table id needed rows (o ∷ originals) =
      let amount : ℕ = min needed (refundable table recovery.tenant_id o) in
      let rows' = map (take_back o.installment_row_id amount recovery.booked_at) rows in
      elim (Bool-cases (amount == 0)) [
        | inl nothing ↦ rw nothing (spread_refund-Own plan table id needed rows originals)
        | inr takes ↦
            rw takes
              (elim (Option-cases
                (first (λ (r : RepaymentInstallment). r.id == o.installment_row_id) rows)) [
                  | inl gone ↦ rw gone (spread_refund-Own plan table id needed rows originals)
                  | inr (row, found) ↦ rw found (elim (Bool-cases (needed - amount == 0)) [
                    | inl done ↦ rw done (self, tt)
                    | inr more ↦ rw more (
                      self,
                      spread_refund-Own plan table (id + 1) (needed - amount) rows' originals,
                    )
                  ])
                ])
      ]

  spread-Own :
      (db : RepaymentDb) (plan : RepaymentPlan) (rows : List RepaymentInstallment)
      → All Own (spread id_digest db recovery plan rows).allocations
  unfolding spread
  spread-Own db plan rows = ground (
    arith,
    spread_payment-Own plan db.next_id (pos_part recovery.amount_cents) rows,
    spread_refund-Own plan db.allocations db.next_id (neg_part recovery.amount_cents) rows
        (order_by (λ a b. leb (order_no rows b) (order_no rows a)) (originals_of db recovery)),
  )

  store_spread_found :
      (db : RepaymentDb) (plan : RepaymentPlan) (now remaining : ℕ)
      (rows : List RepaymentInstallment) (as' : List RepaymentAllocation)
      → allocations_of db recovery.tenant_id recovery.entry_id ≡ []
      → All Own as'
      → let result = store_spread db recovery plan now rows remaining as' in
        allocations_of result.2 recovery.tenant_id recovery.entry_id ≡ result.1
  unfolding store_spread allocations_of sync_plan_state
  store_spread_found db plan now remaining rows [] e h = e
  store_spread_found db plan now remaining rows (a ∷ rest) e h =
      select-append-All (of_recovery recovery.tenant_id recovery.entry_id) db.allocations (a ∷ rest)
        e h

  abbrev call : ℕ → RepaymentDb → RecoveryLedgerEntry × List RepaymentAllocation × RepaymentDb
  call = allocate_recovery_to_plan id_digest recovery

  call_again :
      (now : ℕ) (db : RepaymentDb) {a : RepaymentAllocation} {rest : List RepaymentAllocation}
      → allocations_of db recovery.tenant_id recovery.entry_id ≡ a ∷ rest
      → call now db ≡ (recovery, a ∷ rest, db)
  unfolding allocate_recovery_to_plan
  call_again now db e = rw (e, allocate_recovery_to_plan)

  call_unplanned :
      (now : ℕ) (db : RepaymentDb)
      → allocations_of db recovery.tenant_id recovery.entry_id ≡ []
      → plan_for db recovery ≡ none
      → call now db ≡ (recovery, [], db)
  unfolding allocate_recovery_to_plan
  call_unplanned now db e p = rw (e, allocate_recovery_to_plan) (rw p)

  pub call_planned :
      (now : ℕ) (db : RepaymentDb) {plan : RepaymentPlan}
      → allocations_of db recovery.tenant_id recovery.entry_id ≡ []
      → plan_for db recovery ≡ some plan
      → let s = spread id_digest db recovery plan (installments_of db plan) in
        call now db ≡ store_spread db recovery plan now s.rows s.remaining s.allocations
  unfolding allocate_recovery_to_plan
  call_planned now db e p = rw (e, allocate_recovery_to_plan) (rw p)

  store_spread_kept :
      (db : RepaymentDb) (plan : RepaymentPlan) (now remaining : ℕ)
      (rows : List RepaymentInstallment)
      → store_spread db recovery plan now rows remaining [] ≡ (recovery, [], db)
  unfolding store_spread
  store_spread_kept db plan now remaining rows = refl

  store_spread_made :
      (db : RepaymentDb) (plan : RepaymentPlan) (now remaining : ℕ)
      (rows : List RepaymentInstallment) (as' : List RepaymentAllocation)
      → (store_spread db recovery plan now rows remaining as').1 ≡ as'
  unfolding store_spread
  store_spread_made db plan now remaining rows [] = refl
  store_spread_made db plan now remaining rows (a ∷ rest) = refl

  -- Calling it again, at any time, returns the same allocations and changes nothing.
  pub allocate_recovery_to_plan_once :
      (now later : ℕ) (db : RepaymentDb)
      → let one = allocate_recovery_to_plan id_digest recovery now db in
        let two = allocate_recovery_to_plan id_digest recovery later one.2 in
        (two.1 ≡ one.1) × (two.2 ≡ one.2)
  allocate_recovery_to_plan_once now later db =
      elim (List-cases (allocations_of db recovery.tenant_id recovery.entry_id)) [
        | inr (a, rest, e) ↦ rw (call_again now db e) (rw (call_again later db e) (refl, refl))
        | inl e ↦ elim (Option-cases (plan_for db recovery)) [
          | inl p ↦ rw (call_unplanned now db e p) (rw (call_unplanned later db e p) (refl, refl))
          | inr (plan, p) ↦
              let s : Spread = spread id_digest db recovery plan (installments_of db plan) in
              let left = store_spread db recovery plan now s.rows s.remaining s.allocations in
              elim (List-cases s.allocations) [
                | inl idle ↦
                    let same =
                      call_planned now db e p
                      ∙ ap (store_spread db recovery plan now s.rows s.remaining) idle
                      ∙ store_spread_kept db plan now s.remaining s.rows in
                    let same' =
                      call_planned later db e p
                      ∙ ap (store_spread db recovery plan later s.rows s.remaining) idle
                      ∙ store_spread_kept db plan later s.remaining s.rows in
                    rw same (rw same' (refl, refl))
                | inr (a, rest, made) ↦
                    let found =
                      store_spread_found db plan now s.remaining s.rows s.allocations e
                        (spread-Own db plan (installments_of db plan)) in
                    let returned =
                      store_spread_made db plan now s.remaining s.rows s.allocations ∙ made in
                    rw (call_planned now db e p)
                      (rw (call_again later left.2 (found ∙ returned)) (sym returned, refl))
              ]
        ]
      ]

  store_spread-label :
      (db : RepaymentDb) (plan : RepaymentPlan) (now remaining : ℕ)
      (rows : List RepaymentInstallment) (as' : List RepaymentAllocation)
      → let e = (store_spread db recovery plan now rows remaining as').0 in
        e ≡ record recovery { allocation = e.allocation }
  unfolding store_spread
  store_spread-label db plan now remaining rows [] = refl
  store_spread-label db plan now remaining rows (a ∷ rest) = refl

  -- Of the entry itself, an allocation writes nothing but the label.
  pub allocate_recovery_to_plan-label :
      (now : ℕ) (db : RepaymentDb)
      → let e = (allocate_recovery_to_plan id_digest recovery now db).0 in
        e ≡ record recovery { allocation = e.allocation }
  allocate_recovery_to_plan-label now db =
      elim (List-cases (allocations_of db recovery.tenant_id recovery.entry_id)) [
        | inr (a, rest, e) ↦ rw (call_again now db e) refl
        | inl e ↦ elim (Option-cases (plan_for db recovery)) [
          | inl p ↦ rw (call_unplanned now db e p) refl
          | inr (plan, p) ↦
              let s : Spread = spread id_digest db recovery plan (installments_of db plan) in
              rw (call_planned now db e p)
                (store_spread-label db plan now s.remaining s.rows s.allocations)
        ]
      ]
