-- ===== src/Policy/Runs.antt =====
-- Sequences of requests to backend/app/policy_workflow.py, as one run of the abstract machine.
use luheng_fulfillops_cloud.Base.{
  All, In, All-In, All_at, ℕ, ◌≡◌, ◌⊎◌, ◌<◌, refl, sym, subst, inl, inr, Option, none, some, List,
  [], ◌∷◌, arith, Text, Result, ok, err, Returned,
}
use luheng_fulfillops_cloud.Cases.{Decision, approve, reject, unknown}
use luheng_fulfillops_cloud.Policy.Rows.{PolicyParameters, PolicyProposal, PolicyDb, PolicyCode}
use luheng_fulfillops_cloud.Policy.Workflow.{
  PolicyRequest, PolicyEvidence, proposed_parameters, create_policy_proposal,
  decide_policy_proposal,
}
use luheng_fulfillops_cloud.Policy.Publishing.{
  Writers, Approvers, IsDraft, IsApprover, HasBounds, HasDrafts, Refines, RoundsBelow,
  create_policy_proposal-Refines, decide_policy_proposal-Refines,
}
use luheng_fulfillops_cloud.Policy.Machine.{
  Standing, standing_of, InBounds, PolicyStep, kept, publishes, PolicyRun, here, next,
}

-- The requests that the routes pass on, with the time at which each is carried out.
pub data PolicyOperation : Type 0 where
  create_one : PolicyRequest → (now : ℕ) → PolicyOperation
  decide_one :
      (tenant_id actor_id proposal_id : ℕ)
      → Decision
      → (expected_version : ℕ) → Text
      → (now : ℕ) → PolicyOperation

-- A request that raises changes nothing: its transaction is rolled back.
abbrev pub after : PolicyDb → Result PolicyCode (PolicyProposal × PolicyDb) → PolicyDb
after db (ok w) = w.1
after db (err _) = db

module _ (digest_of : PolicyEvidence → ℕ) (round_cents : ℕ → ℕ) where
  abbrev pub carry_out_policy : PolicyOperation → PolicyDb → PolicyDb
  carry_out_policy (create_one r now) db =
      after db (create_policy_proposal digest_of round_cents r now db)
  carry_out_policy (decide_one t a p d v n now) db =
      after db (decide_policy_proposal t a p d v n now db)

  abbrev pub run_policies : List PolicyOperation → PolicyDb → PolicyDb
  run_policies [] db = db
  run_policies (o ∷ os) db = run_policies os (carry_out_policy o db)

after-Refines :
    (W : Writers) (R : Approvers) (db : PolicyDb)
    (m : Result PolicyCode (PolicyProposal × PolicyDb))
    → HasDrafts W db
    → Returned (Refines W R db) m
    → HasDrafts W (after db m)
      × ((t k : ℕ) → PolicyStep (W t k) (R t) (standing_of t k db) (standing_of t k (after db m)))
after-Refines W R db (ok w) h r = r
after-Refines W R db (err _) h r = (h, λ _ _. kept)

module _ (digest_of : PolicyEvidence → ℕ) (round_cents : ℕ → ℕ) where
  -- One of the requests proposed the policy for the package, in the name of its actor, or it stood in the table
  -- before.
  abbrev pub Wrote : List PolicyOperation → PolicyDb → Writers
  Wrote os db t k author policy =
      ((r : PolicyRequest) × (now : ℕ) × In (create_one r now) os
        × (r.tenant_id ≡ t)
        × (r.package_id ≡ k)
        × (r.actor_id ≡ author)
        × (proposed_parameters round_cents r ≡ policy))
      ⊎ ((p : PolicyProposal) × In p db.proposals
          × (p.tenant_id ≡ t)
          × (p.package_id ≡ k)
          × (p.proposed_by ≡ author)
          × (p.proposed_policy ≡ policy))

  -- One of the requests is an approval by that reviewer.
  abbrev pub Approved : List PolicyOperation → Approvers
  Approved os t reviewer =
      (proposal_id : ℕ) × (expected_version : ℕ) × (note : Text) × (now : ℕ) × In
        (decide_one t reviewer proposal_id approve expected_version note now) os

  -- What the request does is covered by who wrote and who approves.
  abbrev IsCovered : Writers → Approvers → PolicyOperation → Type 0
  IsCovered W R (create_one r now) =
      W r.tenant_id r.package_id r.actor_id (proposed_parameters round_cents r)
  IsCovered W R (decide_one t a p d v n now) = IsApprover R t a d

  run_any :
      (W : Writers) (R : Approvers)
      → RoundsBelow round_cents
      → (os : List PolicyOperation) (db : PolicyDb) → All (IsCovered W R) os
      → HasDrafts W db
      → (t k : ℕ)
      → PolicyRun
          (W t k)
          (R t)
          (standing_of t k db)
          (standing_of t k (run_policies digest_of round_cents os db))
  run_any W R rounds [] db c h t k = here
  run_any W R rounds (create_one r now ∷ os) db c h t k =
      let done =
        after-Refines W R db _ h
          (create_policy_proposal-Refines W R digest_of round_cents rounds r now db h c.0) in
      next (done.1 t k) (run_any W R rounds os _ c.1 done.0 t k)
  run_any W R rounds (decide_one u a p d v n now ∷ os) db c h t k =
      let done =
        after-Refines W R db _ h (decide_policy_proposal-Refines W R u a p d v n now db h c.0) in
      next (done.1 t k) (run_any W R rounds os _ c.1 done.0 t k)

  own_requests :
      (os : List PolicyOperation) (db : PolicyDb) (o : PolicyOperation)
      → In o os
      → IsCovered (Wrote os db) (Approved os) o
  own_requests os db (create_one r now) m = inl (r, now, m, refl, refl, refl, refl)
  own_requests os db (decide_one t a p approve v n now) m = (p, v, n, now, m)
  own_requests os db (decide_one t a p reject v n now) m = tt
  own_requests os db (decide_one t a p unknown v n now) m = tt

  -- Where rounding to cents does not exceed 100000 yuan and the stored proposals are within the bounds, any
  -- sequence of requests to create and to decide proposals changes the policy of each package only as the abstract
  -- machine does: as a whole, within the bounds, with a new version, to one that a request of the sequence proposed for
  -- the package, or that stood proposed before, where the proposer is not the reviewer, who approved in
  -- a request of the sequence for the tenant.
  pub run_policies-PolicyRun :
      RoundsBelow round_cents
      → (os : List PolicyOperation) (db : PolicyDb) → HasBounds db
      → (t k : ℕ)
      → PolicyRun
          (Wrote os db t k)
          (Approved os t)
          (standing_of t k db)
          (standing_of t k (run_policies digest_of round_cents os db))
  run_policies-PolicyRun rounds os db h t k =
      run_any (Wrote os db) (Approved os) rounds os db
        (All-In (IsCovered (Wrote os db) (Approved os)) os (own_requests os db))
        (All-In (IsDraft (Wrote os db)) db.proposals (λ p m. (
          All_at (λ (q : PolicyProposal). InBounds q.proposed_policy) db.proposals h m,
          inr (p, m, refl, refl, refl, refl),
        )))
        t k

-- The version of a policy, nothing where there is no package.
abbrev pub version_of : Option Standing → ℕ
version_of none = 0
version_of (some s) = s.version

version-PolicyStep :
    {W : ℕ → PolicyParameters → Type 0} {R : ℕ → Type 0} {s t : Option Standing}
    → PolicyStep W R s t
    → (s ≡ t) ⊎ (version_of s < version_of t)
version-PolicyStep kept = inl refl
version-PolicyStep (publishes policy author reviewer other wrote approves bounds) =
    inr (omega arith)

version-PolicyRun :
    {W : ℕ → PolicyParameters → Type 0} {R : ℕ → Type 0} {s t : Option Standing}
    → PolicyRun W R s t
    → (s ≡ t) ⊎ (version_of s < version_of t)
version-PolicyRun here = inl refl
version-PolicyRun (next {s} {t} {u} a r) = elim (version-PolicyStep a) [
  | inl e ↦ subst (λ w. (w ≡ u) ⊎ (version_of w < version_of u)) (sym e) (version-PolicyRun r)
  | inr e ↦ elim (version-PolicyRun r) [
    | inl f ↦ inr (subst (λ w. version_of s < version_of w) f e)
    | inr f ↦ inr (omega (arith, e, f))
  ]
]

module _ (digest_of : PolicyEvidence → ℕ) (round_cents : ℕ → ℕ) where
  -- Where rounding to cents does not exceed 100000 yuan and the stored proposals are within the bounds, a package
  -- whose policy has the same version after a sequence of requests as before has the same policy.
  pub run_policies_version :
      RoundsBelow round_cents
      → (os : List PolicyOperation) (db : PolicyDb) → HasBounds db
      → (t k : ℕ)
      → version_of (standing_of t k (run_policies digest_of round_cents os db))
        ≡ version_of (standing_of t k db)
      → standing_of t k (run_policies digest_of round_cents os db) ≡ standing_of t k db
  run_policies_version rounds os db h t k same =
      elim (version-PolicyRun (run_policies-PolicyRun digest_of round_cents rounds os db h t k)) [
        | inl e ↦ sym e
        | inr less ↦ absurd (omega (arith, less, same))
      ]
