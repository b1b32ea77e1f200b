-- ===== src/Gate/Selection.antt =====
-- What the preflight of an activity promises: who is eligible, that no requested case is lost, and when
-- the channels are used.
use luheng_fulfillops_cloud.Base.{
  ℕ, zero, suc, ◌≤◌, ◌≡◌, refl, subst, inl, inr, ◌⊎◌, Bool, true, false, not, some, List, [], ◌∷◌,
  ◌++◌, arith, first, any, select, map, length, All, In, is_some, Text, text_eq, text_eq→eq,
  text_eq_refl, Returned, Returned-raise_if, Returned-or_raise, Bool-cases, Option-cases, ◌==◌,
  ◌&&◌, ◌||◌, ltb,
}
use luheng_fulfillops_cloud.Cases.{
  CaseRecord, CaseFinancialProfile, AssetPackage, PolicyStatus, draft, published,
}
use luheng_fulfillops_cloud.Gate.Services.{gate_for}
use luheng_fulfillops_cloud.Gate.Preflight.{
  PreflightRequest, PreflightDb, Preflight, Exclusion, package_not_found, budget_exceeded,
  goal_matches, is_selected, is_in_flight, profile_of, has_active_rule, is_done, exclusion_reason,
  is_eligible, excluded_cases, is_published, resolve_mode, RequestedMode, auto_mode, sandbox_only,
  channel_wanted, is_sandbox_only, sandbox, not_in_package, preflight_result, activity_preflight,
}

-- What makes a case eligible, written out: it is one that was asked for, nothing holds it, and its mandate covers
-- the day.
abbrev pub MayTake : PreflightDb → PreflightRequest → ℕ → CaseRecord → Type 0
MayTake db r today c =
    (is_selected r c ≡ true)
    × (c.blocked ≡ false)
    × (is_done c.status ≡ false)
    × (is_in_flight db r.tenant_id c.case_id ≡ false)
    × (goal_matches c r.goal ≡ true)
    × (is_some c.contact_basis_ref ≡ true)
    × (p : CaseFinancialProfile) × (profile_of db r.tenant_id c.case_id ≡ some p)
    × (1 ≤ p.claim_balance_cents)
    × (p.mandate_start ≤ today)
    × (today ≤ p.mandate_end)
    × (has_active_rule db r.tenant_id p.commission_rule_id ≡ true)

is_eligible-MayTake :
    (db : PreflightDb) (r : PreflightRequest) (today : ℕ) (c : CaseRecord)
    → is_selected r c ≡ true
    → is_eligible db r today c ≡ true
    → MayTake db r today c
unfolding exclusion_reason
is_eligible-MayTake db r today c chosen e =
    elim (Option-cases (profile_of db r.tenant_id c.case_id)) [
      | inl n ↦ absurd (ground (arith, e, n))
      | inr (p, n) ↦ (
        chosen,
        ground (arith, e),
        ground (arith, e),
        ground (arith, e),
        ground (arith, e),
        ground (arith, e, n),
        p,
        n,
        ground (arith, e, n),
        ground (arith, e, n),
        ground (arith, e, n),
        ground (arith, e, n),
      )
    ]

eligible-All :
    (db : PreflightDb) (r : PreflightRequest) (today : ℕ) (cs : List CaseRecord)
    → ((c : CaseRecord) → In c cs → In c db.cases)
    → All
        (λ i. (c : CaseRecord) × In c db.cases × (c.case_id ≡ i) × MayTake db r today c)
        (map
          (λ (c : CaseRecord). c.case_id)
          (select (is_eligible db r today) (select (is_selected r) cs)))
eligible-All db r today [] stands = tt
eligible-All db r today (c ∷ cs) stands =
    let rest = eligible-All db r today cs (λ d m. stands d (inr m)) in
    elim (Bool-cases (is_selected r c)) [
      | inr out ↦ rw out rest
      | inl chosen ↦ elim (Bool-cases (is_eligible db r today c)) [
        | inr n ↦ rw (chosen, n) rest
        | inl e ↦
            rw (chosen, e)
              ((c, stands c (inl refl), refl, is_eligible-MayTake db r today c chosen e), rest)
      ]
    ]

any-append {ℓ} :
    {A : Type ℓ} (p : A → Bool) (xs ys : List A) → any p (xs ++ ys) ≡ (any p xs || any p ys)
any-append p [] ys = refl
any-append p (x ∷ xs) ys = ground (arith, any-append p xs ys)

-- The case is listed as eligible or as excluded.
abbrev pub IsListed : Text → List Text → List (Text × Exclusion) → Type 0
IsListed i eligible excluded =
    (any (text_eq i) eligible || any (λ (x : Text × Exclusion). text_eq i x.0) excluded) ≡ true

chosen-IsListed :
    (db : PreflightDb) (r : PreflightRequest) (today : ℕ) (i : Text) (cs : List CaseRecord)
    → any (λ (c : CaseRecord). text_eq c.case_id i) cs ≡ true
    → IsListed i
        (map (λ (c : CaseRecord). c.case_id) (select (is_eligible db r today) cs))
        (excluded_cases db r today cs)
chosen-IsListed db r today i [] h = absurd (cc h)
chosen-IsListed db r today i (c ∷ cs) h = elim (Option-cases (exclusion_reason db r today c)) [
  | inl e ↦ rw e (ground (arith, h, text_eq-flip c.case_id i, chosen-IsListed db r today i cs))
  | inr (x, e) ↦ rw e (ground (arith, h, text_eq-flip c.case_id i, chosen-IsListed db r today i cs))
]
  where
    text_eq-flip : (s t : Text) → text_eq s t ≡ true → text_eq t s ≡ true
    text_eq-flip s t k = subst (λ u. text_eq u s ≡ true) (text_eq→eq s t k) (text_eq_refl s)

missing-IsListed :
    (q : Text → Bool) (i : Text) (e : Exclusion) (ids : List Text)
    → any (text_eq i) ids ≡ true
    → q i ≡ true
    → any (λ (x : Text × Exclusion). text_eq i x.0) (map (λ j. (j, e)) (select q ids)) ≡ true
missing-IsListed q i e [] h k = absurd (cc h)
missing-IsListed q i e (j ∷ ids) h k = elim (Bool-cases (text_eq i j)) [
  | inl same ↦
      let here : q j ≡ true = subst (λ u. q u ≡ true) (text_eq→eq i j same) k in
      rw here (ground (arith, same))
  | inr other ↦
      let rest = missing-IsListed q i e ids (ground (arith, h, other)) k in
      elim (Bool-cases (q j)) [ inl hit ↦ rw hit (ground (arith, rest)) | inr miss ↦ rw miss rest ]
]

All-member {κ} :
    (P : Text → Type κ) (ids : List Text)
    → ((i : Text) → any (text_eq i) ids ≡ true → P i)
    → All P ids
All-member P [] f = tt
All-member P (j ∷ ids) f =
    (f j (ground (arith, text_eq_refl j)), All-member P ids (λ i h. f i (ground (arith, h))))

requested-IsListed :
    (db : PreflightDb) (r : PreflightRequest) (pack : AssetPackage) (today now : ℕ) (i : Text)
    → any (text_eq i) r.case_ids ≡ true
    → let w = preflight_result db r pack today now in IsListed i w.eligible_case_ids w.excluded
unfolding preflight_result
requested-IsListed db r pack today now i asked =
    let chosen = select (is_selected r) db.cases in
    let has = λ (j : Text). any (λ (c : CaseRecord). text_eq c.case_id j) chosen in
    let missing : List (Text × Exclusion) =
      map (λ j. (j, not_in_package)) (select (λ j. not (has j)) r.case_ids) in
    rw
      (any-append (λ (x : Text × Exclusion). text_eq i x.0) missing
        (excluded_cases db r today chosen))
      (elim (Bool-cases (has i)) [
        | inl found ↦ ground (arith, chosen-IsListed db r today i chosen found)
        | inr absent ↦ ground (
          arith,
          missing-IsListed (λ j. not (has j)) i not_in_package r.case_ids asked
              (ground (arith, absent)),
        )
      ])

-- The channels are used only where the tenant's gate is ready, the policy is published and a case is eligible.
abbrev pub MayUseChannels : PreflightDb → PreflightRequest → ℕ → Preflight → Type 0
MayUseChannels db r now w =
    (w.resolved_mode ≡ sandbox)
    ⊎ (((gate_for db.gate r.tenant_id now).ready ≡ true)
        × (w.policy_status ≡ published)
        × (1 ≤ length w.eligible_case_ids)
        × (is_sandbox_only r.requested_mode ≡ false))

resolve_mode_lem :
    (m : RequestedMode) (g : Bool) (s : PolicyStatus) (n : ℕ)
    → (resolve_mode m (g && is_published s && not (n == 0)) ≡ sandbox)
      ⊎ ((g ≡ true) × (s ≡ published) × (1 ≤ n) × (is_sandbox_only m ≡ false))
resolve_mode_lem sandbox_only g s n = inl refl
resolve_mode_lem auto_mode false s n = inl refl
resolve_mode_lem channel_wanted false s n = inl refl
resolve_mode_lem auto_mode true draft n = inl refl
resolve_mode_lem channel_wanted true draft n = inl refl
resolve_mode_lem auto_mode true published zero = inl refl
resolve_mode_lem channel_wanted true published zero = inl refl
resolve_mode_lem auto_mode true published (suc n) = inr (refl, refl, omega arith, refl)
resolve_mode_lem channel_wanted true published (suc n) = inr (refl, refl, omega arith, refl)

-- A preflight that returns lists as eligible only numbers of cases that stand in the table, requested and of the package, that
-- nothing holds back and that a mandate in force covers; each requested case is listed as eligible or as excluded; and the mode is the
-- sandbox, or the gate is ready, the policy is published, a case is eligible and the sandbox alone was not asked for.
pub activity_preflight_sound :
    (db : PreflightDb) (r : PreflightRequest) (today now : ℕ)
    → Returned
        (λ (w : Preflight).
          All
            (λ i. (c : CaseRecord) × In c db.cases × (c.case_id ≡ i) × MayTake db r today c)
            w.eligible_case_ids
          × All (λ i. IsListed i w.eligible_case_ids w.excluded) r.case_ids
          × MayUseChannels db r now w)
        (activity_preflight db r today now)
unfolding activity_preflight
activity_preflight_sound db r today now =
    let Sound = λ (w : Preflight).
      All (λ i. (c : CaseRecord) × In c db.cases × (c.case_id ≡ i) × MayTake db r today c)
        w.eligible_case_ids
      × All (λ i. IsListed i w.eligible_case_ids w.excluded) r.case_ids
      × MayUseChannels db r now w in
    Returned-or_raise Sound
      (first (λ (p : AssetPackage). p.tenant_id == r.tenant_id && p.package_id == r.package_id)
        db.packages)
      package_not_found _
      (λ (pack : AssetPackage) _.
        Returned-raise_if Sound (ltb pack.budget_limit_yuan r.budget_yuan) budget_exceeded _ (λ _. (
          unfold preflight_result in eligible-All db r today db.cases (λ _ m. m),
          All-member _ r.case_ids (requested-IsListed db r pack today now),
          unfold preflight_result in
              resolve_mode_lem r.requested_mode (gate_for db.gate r.tenant_id now).ready
                pack.policy_status _,
        )))
