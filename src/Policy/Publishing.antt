-- ===== src/Policy/Publishing.antt =====
-- What the workflow promises of a package's policy, and that the operations keep the promise.
use luheng_fulfillops_cloud.Base.{
  ◌≡◌, subst, first_holds, Option-cases, Bool-cases, inl, inr, ℕ, ◌*◌, ◌≤◌, ◌≢◌, refl, true, not,
  List, arith, ltb, leb, first, update, All, All-append, All-first, All-update, first-update_kept,
  is_some, Text, Returned, Returned-raise_if, Returned-or_raise, ◌==◌, ◌&&◌,
}
use luheng_fulfillops_cloud.Cases.{AssetPackage, Decision, approve, reject, unknown, is_known}
use luheng_fulfillops_cloud.Policy.Rows.{
  is_undecided, PolicyParameters, PolicyProposal, PolicyDb, package_not_found,
  policy_version_conflict, pending_review_exists, invalid_budget, invalid_settlement,
  invalid_installments, invalid_down_payment, proposal_not_found, proposal_closed,
  proposal_version_conflict, self_review_forbidden, invalid_decision,
}
use luheng_fulfillops_cloud.Policy.Workflow.{
  yuan, PolicyRequest, PolicyEvidence, is_package, find_package, is_pending_for,
  proposed_parameters, new_proposal, create_policy_proposal, reviewed_proposal, publish_policy,
  apply_decision, decide_policy_proposal,
}
use luheng_fulfillops_cloud.Policy.Machine.{
  InBounds, standing, standing_of, view, PolicyStep, kept, publishes,
}

abbrev pub HasBounds : PolicyDb → Type 0
HasBounds db = All (λ (p : PolicyProposal). InBounds p.proposed_policy) db.proposals

-- Who wrote a policy for a package, and who approves for a tenant.
abbrev pub Writers : Type 1
Writers = (tenant_id package_id author : ℕ) → PolicyParameters → Type 0

abbrev pub Approvers : Type 1
Approvers = (tenant_id reviewer : ℕ) → Type 0

abbrev pub IsDraft : Writers → PolicyProposal → Type 0
IsDraft W p =
    InBounds p.proposed_policy × W p.tenant_id p.package_id p.proposed_by p.proposed_policy

-- The reviewer of an approval is one who approves.
abbrev pub IsApprover : Approvers → (tenant_id actor_id : ℕ) → Decision → Type 0
IsApprover R tenant_id actor_id approve = R tenant_id actor_id
IsApprover R tenant_id actor_id _ = Unit

-- Each stored proposal is within the bounds and was written by its proposer.
abbrev pub HasDrafts : Writers → PolicyDb → Type 0
HasDrafts W db = All (IsDraft W) db.proposals

abbrev pub Refines : Writers → Approvers → PolicyDb → PolicyProposal × PolicyDb → Type 0
Refines W R db w =
    HasDrafts W w.1
    × ((tenant_id package_id : ℕ)
        → PolicyStep (W tenant_id package_id) (R tenant_id) (standing_of tenant_id package_id db)
            (standing_of tenant_id package_id w.1))

-- What rounding to cents is relied on for: it does not lift an amount above a whole one.
abbrev pub RoundsBelow : (ℕ → ℕ) → Type 0
RoundsBelow round_cents = (b : ℕ) → b ≤ 100000 * yuan → round_cents b ≤ 100000 * yuan

pub create_policy_proposal-Refines :
    (W : Writers) (R : Approvers) (digest_of : PolicyEvidence → ℕ) (round_cents : ℕ → ℕ)
    → RoundsBelow round_cents
    → (r : PolicyRequest) (now : ℕ) (db : PolicyDb) → HasDrafts W db
    → W r.tenant_id r.package_id r.actor_id (proposed_parameters round_cents r)
    → Returned (Refines W R db) (create_policy_proposal digest_of round_cents r now db)
unfolding create_policy_proposal new_proposal proposed_parameters standing_of find_package
create_policy_proposal-Refines W R digest_of round_cents rounds r now db h wrote =
    Returned-or_raise (Refines W R db) (find_package db r.tenant_id r.package_id) package_not_found
      _
      (λ pack _.
        Returned-raise_if (Refines W R db) (not (pack.policy_version == r.expected_policy_version))
          policy_version_conflict _
          (λ _.
            Returned-raise_if (Refines W R db)
              (is_some (first (is_pending_for r.tenant_id r.package_id) db.proposals))
              pending_review_exists _
              (λ _.
                Returned-raise_if (Refines W R db)
                  (not (ltb 0 r.budget_limit_yuan && leb r.budget_limit_yuan (100000 * yuan)))
                  invalid_budget _
                  (λ budget.
                    Returned-raise_if (Refines W R db)
                      (not (leb 1000 r.min_settlement_bps && leb r.min_settlement_bps 10000))
                      invalid_settlement _
                      (λ settlement.
                        Returned-raise_if (Refines W R db)
                          (not (leb 1 r.max_installments && leb r.max_installments 60))
                          invalid_installments _
                          (λ installments.
                            Returned-raise_if (Refines W R db)
                              (not
                                (leb 0 r.min_down_payment_bps && leb r.min_down_payment_bps 10000))
                              invalid_down_payment _
                              (λ down. (
                                All-append (IsDraft W) db.proposals _ h (
                                  (
                                    (
                                      rounds _ (ground (arith, budget)),
                                      ground (arith, settlement),
                                      ground (arith, settlement),
                                      ground (arith, installments),
                                      ground (arith, installments),
                                      ground (arith, down),
                                    ),
                                    wrote,
                                  ),
                                  tt,
                                ),
                                λ _ _. kept,
                              ))))))))

-- Publishing a policy is a step of the abstract machine for every package.
publish_policy-PolicyStep :
    (W : Writers) (R : Approvers) (tenant_id package_id : ℕ) (policy : PolicyParameters)
    (author reviewer : ℕ) (packages : List AssetPackage)
    → author ≢ reviewer
    → W tenant_id package_id author policy
    → R tenant_id reviewer
    → InBounds policy
    → (t k : ℕ)
    → PolicyStep (W t k) (R t) (view (first (is_package t k) packages)) (
        view (
          first
            (is_package t k)
            (update (is_package tenant_id package_id) (publish_policy policy) packages)))
unfolding standing
publish_policy-PolicyStep W R tenant_id package_id policy author reviewer packages other wrote
      approves bounds t k =
    rw
      (first-update_kept (is_package t k) (is_package tenant_id package_id) (publish_policy policy)
        packages (λ _. refl))
      (elim (Option-cases (first (is_package t k) packages)) [
        | inl e ↦ rw e kept
        | inr (x, e) ↦
            let at : is_package t k x ≡ true = first_holds (is_package t k) packages e in
            rw e (elim (Bool-cases (is_package tenant_id package_id x)) [
              | inr miss ↦ rw miss kept
              | inl hit ↦
                  let same_tenant : tenant_id ≡ t = ground (arith, at, hit) in
                  let same_package : package_id ≡ k = ground (arith, at, hit) in
                  rw hit (
                    publishes policy author reviewer other
                      (subst (λ n. W n k author policy) same_tenant
                        (subst (λ n. W tenant_id n author policy) same_package wrote))
                      (subst (λ n. R n reviewer) same_tenant approves) bounds)
            ])
      ])

apply_decision-Refines :
    (W : Writers) (R : Approvers) (decision : Decision) (p : PolicyProposal) (actor_id : ℕ)
    (db : PolicyDb)
    → p.proposed_by ≢ actor_id
    → IsApprover R p.tenant_id actor_id decision
    → IsDraft W p
    → HasDrafts W db
    → Refines W R db (apply_decision decision p db)
unfolding apply_decision standing_of find_package
apply_decision-Refines W R approve p actor_id db other approver draft h = (
  All-update (IsDraft W) (λ (q : PolicyProposal). q.id == p.id) _ db.proposals (λ _ _ _. draft) h,
  publish_policy-PolicyStep W R p.tenant_id p.package_id p.proposed_policy p.proposed_by actor_id
      db.packages other draft.1 approver draft.0,
)
apply_decision-Refines W R reject p actor_id db other approver draft h = (
  All-update (IsDraft W) (λ (q : PolicyProposal). q.id == p.id) _ db.proposals (λ _ _ _. draft) h,
  λ _ _. kept,
)
apply_decision-Refines W R unknown p actor_id db other approver draft h = (
  All-update (IsDraft W) (λ (q : PolicyProposal). q.id == p.id) _ db.proposals (λ _ _ _. draft) h,
  λ _ _. kept,
)

pub decide_policy_proposal-Refines :
    (W : Writers) (R : Approvers) (tenant_id actor_id proposal_id : ℕ) (decision : Decision)
    (expected_version : ℕ) (review_note : Text) (now : ℕ) (db : PolicyDb)
    → HasDrafts W db
    → IsApprover R tenant_id actor_id decision
    → Returned (Refines W R db) (
        decide_policy_proposal tenant_id actor_id proposal_id decision expected_version review_note
          now db)
unfolding decide_policy_proposal reviewed_proposal
decide_policy_proposal-Refines W R tenant_id actor_id proposal_id decision expected_version
      review_note now db h approver =
    let here_is = λ (q : PolicyProposal). q.id == proposal_id && q.tenant_id == tenant_id in
    Returned-or_raise (Refines W R db) (first here_is db.proposals) proposal_not_found _ (λ p found.
      let draft = All-first (IsDraft W) here_is db.proposals h found in
      let of_tenant : tenant_id ≡ p.tenant_id =
        (let hit = first_holds here_is db.proposals found in ground (arith, hit)) in
      Returned-raise_if (Refines W R db) (not (is_undecided p.status)) proposal_closed _ (λ _.
        Returned-raise_if (Refines W R db) (not (p.version == expected_version))
          proposal_version_conflict _
          (λ _.
            Returned-raise_if (Refines W R db) (p.proposed_by == actor_id) self_review_forbidden _
              (λ other.
                Returned-raise_if (Refines W R db) (not (is_known decision)) invalid_decision _
                  (λ _.
                    Returned-or_raise (Refines W R db) (find_package db tenant_id p.package_id)
                      package_not_found _
                      (λ pack _.
                        Returned-raise_if (Refines W R db)
                          (not (pack.policy_version == p.expected_policy_version))
                          policy_version_conflict _
                          (λ _.
                            apply_decision-Refines W R decision
                              (reviewed_proposal p actor_id review_note now) actor_id db
                              (ground (arith, other))
                              (subst (λ n. IsApprover R n actor_id decision) of_tenant approver)
                              draft h)))))))
