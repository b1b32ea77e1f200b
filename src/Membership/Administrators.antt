-- ===== src/Membership/Administrators.antt =====
-- A tenant that has an active administrator keeps one, and a user is one member of a tenant at most.
use luheng_fulfillops_cloud.Base.{
  ℕ, ◌+◌, ◌≤◌, ◌≡◌, refl, subst, inl, inr, false, not, Option, none, some, List, [], ◌∷◌, arith,
  first, leb, All-map, count_by, count_by-append, count_by-update, count_by-update-ge,
  count_by-update_loss, All-first_only, first-none→count_by, Text, ok, Returned, Returned->>=,
  Returned-map, Returned-ok, Returned-raise_if, Returned-or_raise, Bool-cases, ◌==◌, ◌&&◌, ◌||◌,
  if◌then◌else◌, All-of_each,
}
use luheng_fulfillops_cloud.Cases.{Decision, approve, reject, unknown}
use luheng_fulfillops_cloud.Membership.Rows.{
  TenantMembership, MembershipProposal, MembershipDb, is_undecided, proposal_not_found,
  proposal_stale, self_review_forbidden, membership_stale, last_admin_protected,
}
use luheng_fulfillops_cloud.Membership.Quota.{require_capacity, seats}
use luheng_fulfillops_cloud.Membership.Governance.{
  is_member, find_member, is_active_admin, removes_admin, is_expected, activates_new_seat,
  as_membership, put_member, approve_change, settle_change, decide_proposal,
}

-- A user is one member of a tenant at most: the constraint of the table.
abbrev pub IsUnique : List TenantMembership → Type 0
IsUnique ms = (tenant_id user_id : ℕ) → count_by (is_member tenant_id user_id) ms ≤ 1

put_member-IsUnique :
    (tenant_id : ℕ) (current : Option TenantMembership) (p : MembershipProposal)
    (ms : List TenantMembership)
    → first (is_member tenant_id p.target_user_id) ms ≡ current
    → IsUnique ms
    → IsUnique (put_member tenant_id current p ms)
unfolding put_member
put_member-IsUnique tenant_id (some m) p ms found h t u =
    rw
      (count_by-update (is_member t u) (is_member tenant_id p.target_user_id)
        (λ (m : TenantMembership). record m {
          role = p.requested_role;
          status = p.requested_status;
        })
        ms (λ _ _. refl))
      (h t u)
put_member-IsUnique tenant_id none p ms found h t u =
    let free = first-none→count_by (is_member tenant_id p.target_user_id) ms found in
    rw
      (count_by-append (is_member t u) ms (
        record {
          tenant_id = tenant_id;
          user_id = p.target_user_id;
          role = p.requested_role;
          status = p.requested_status;
        }
        ∷ []))
      (elim (Bool-cases (tenant_id == t && p.target_user_id == u)) [
        | inl hit ↦
            let same_tenant : tenant_id ≡ t = ground (arith, hit) in
            let same_user : p.target_user_id ≡ u = ground (arith, hit) in
            let none_yet : count_by (is_member t u) ms ≡ 0 =
              subst (λ v. count_by (is_member v u) ms ≡ 0) same_tenant
                (subst (λ v. count_by (is_member tenant_id v) ms ≡ 0) same_user free) in
            rw (none_yet, hit) (omega arith)
        | inr miss ↦ rw miss (omega (arith, h t u))
      ])

-- Writing a member takes no active administrator away, where the change does not remove one.
put_member_keeps :
    (tenant_id : ℕ) (current : Option TenantMembership) (p : MembershipProposal)
    (ms : List TenantMembership)
    → first (is_member tenant_id p.target_user_id) ms ≡ current
    → IsUnique ms
    → removes_admin current p ≡ false
    → (t : ℕ)
    → count_by (is_active_admin t) ms
      ≤ count_by (is_active_admin t) (put_member tenant_id current p ms)
unfolding put_member
put_member_keeps tenant_id none p ms found h stays t =
    rw (count_by-append (is_active_admin t) ms _) (omega arith)
put_member_keeps tenant_id (some m) p ms found h stays t =
    count_by-update-ge (is_active_admin t) (is_member tenant_id p.target_user_id) _ ms (
      All-map ms (λ x same hit counts. ground (arith, stays, counts, same hit))
        (All-first_only (is_member tenant_id p.target_user_id) ms (h tenant_id p.target_user_id)
          found))

-- Writing a member of one tenant leaves the administrators of another.
put_member_elsewhere :
    (tenant_id : ℕ) (current : Option TenantMembership) (p : MembershipProposal)
    (ms : List TenantMembership) (t : ℕ)
    → (tenant_id == t) ≡ false
    → count_by (is_active_admin t) ms
      ≤ count_by (is_active_admin t) (put_member tenant_id current p ms)
unfolding put_member
put_member_elsewhere tenant_id none p ms t other =
    rw (count_by-append (is_active_admin t) ms _) (omega arith)
put_member_elsewhere tenant_id (some m) p ms t other =
    count_by-update-ge (is_active_admin t) (is_member tenant_id p.target_user_id) _ ms
      (All-of_each _ ms (λ x hit counts. ground (arith, other, hit, counts)))

-- Writing a member takes one active administrator at most.
put_member_loss :
    (tenant_id : ℕ) (current : Option TenantMembership) (p : MembershipProposal)
    (ms : List TenantMembership)
    → IsUnique ms
    → (t : ℕ)
    → count_by (is_active_admin t) ms
      ≤ count_by (is_active_admin t) (put_member tenant_id current p ms) + 1
unfolding put_member
put_member_loss tenant_id none p ms h t =
    rw (count_by-append (is_active_admin t) ms _) (omega arith)
put_member_loss tenant_id (some m) p ms h t = omega (
  arith,
  count_by-update_loss (is_active_admin t) (is_member tenant_id p.target_user_id)
      (λ (m : TenantMembership). record m { role = p.requested_role; status = p.requested_status })
      ms,
  h tenant_id p.target_user_id,
)

abbrev KeepsAdmins : List TenantMembership → List TenantMembership → Type 0
KeepsAdmins before ms =
    IsUnique ms
    × ((t : ℕ) → 1 ≤ count_by (is_active_admin t) before → 1 ≤ count_by (is_active_admin t) ms)

put_member-KeepsAdmins :
    (tenant_id : ℕ) (current : Option TenantMembership) (p : MembershipProposal)
    (ms : List TenantMembership)
    → first (is_member tenant_id p.target_user_id) ms ≡ current
    → IsUnique ms
    → (removes_admin current p && leb (count_by (is_active_admin tenant_id) ms) 1) ≡ false
    → KeepsAdmins ms (put_member tenant_id current p ms)
put_member-KeepsAdmins tenant_id current p ms found h enough = (
  put_member-IsUnique tenant_id current p ms found h,
  λ t some_admin. elim (Bool-cases (removes_admin current p)) [
    | inr stays ↦ omega (arith, some_admin, put_member_keeps tenant_id current p ms found h stays t)
    | inl removes ↦ elim (Bool-cases (tenant_id == t)) [
      | inr other ↦ omega (arith, some_admin, put_member_elsewhere tenant_id current p ms t other)
      | inl same ↦
          let same_tenant : tenant_id ≡ t = ground (arith, same) in
          let two : 2 ≤ count_by (is_active_admin tenant_id) ms = ground (arith, enough, removes) in
          let two_here : 2 ≤ count_by (is_active_admin t) ms =
            subst (λ v. 2 ≤ count_by (is_active_admin v) ms) same_tenant two in
          omega (arith, two_here, put_member_loss tenant_id current p ms h t)
    ]
  ],
)

module _ (month_start : ℕ → ℕ) where
  approve_change-KeepsAdmins :
      (tenant_id : ℕ) (current : Option TenantMembership) (p : MembershipProposal) (now : ℕ)
      (db : MembershipDb)
      → first (is_member tenant_id p.target_user_id) db.memberships ≡ current
      → IsUnique db.memberships
      → Returned
          (KeepsAdmins db.memberships)
          (approve_change month_start tenant_id current p now db)
  unfolding approve_change
  approve_change-KeepsAdmins tenant_id current p now db found h =
      Returned->>= (KeepsAdmins db.memberships)
        (if activates_new_seat current p
          then as_membership (require_capacity month_start db tenant_id seats 1 now)
          else ok tt)
        _
        (λ _ _.
          Returned-raise_if (KeepsAdmins db.memberships)
            (removes_admin current p && leb (count_by (is_active_admin tenant_id) db.memberships) 1)
            last_admin_protected _
            (λ enough. put_member-KeepsAdmins tenant_id current p db.memberships found h enough))

  -- What a decision does with the member's row keeps what an approved change keeps.
  settle_change-KeepsAdmins :
      (tenant_id : ℕ) (decision : Decision) (current : Option TenantMembership)
      (p : MembershipProposal) (now : ℕ) (db : MembershipDb)
      → first (is_member tenant_id p.target_user_id) db.memberships ≡ current
      → IsUnique db.memberships
      → Returned
          (λ w. KeepsAdmins db.memberships w.1)
          (settle_change month_start tenant_id decision current p now db)
  unfolding settle_change
  settle_change-KeepsAdmins tenant_id approve current p now db found h =
      let kept = approve_change-KeepsAdmins tenant_id current p now db found h in
      Returned->>= (λ w. KeepsAdmins db.memberships w.1)
        (approve_change month_start tenant_id current p now db) _
        (λ members e. Returned-ok (KeepsAdmins db.memberships) _ kept e)
  settle_change-KeepsAdmins tenant_id reject current p now db found h =
      (h, λ _ some_admin. some_admin)
  settle_change-KeepsAdmins tenant_id unknown current p now db found h =
      (h, λ _ some_admin. some_admin)

  -- What every decision makes of the members holds of the tables that it returns.
  pub decide_proposal-members {ℓ} :
      (Q : List TenantMembership → Type ℓ) (tenant_id actor_id proposal_id : ℕ)
      (decision : Decision) (expected_version : ℕ) (review_note : Text) (now : ℕ)
      (db : MembershipDb)
      → ((p : MembershipProposal)
          → Returned
              (λ w. Q w.1)
              (settle_change month_start tenant_id decision
                (first (is_member tenant_id p.target_user_id) db.memberships)
                p
                now
                db))
      → Returned
          (λ w. Q w.1.memberships)
          (decide_proposal month_start tenant_id actor_id proposal_id decision expected_version
            review_note now db)
  unfolding decide_proposal find_member
  decide_proposal-members Q tenant_id actor_id proposal_id decision expected_version review_note now
        db h =
      let Kept = λ (w : MembershipProposal × MembershipDb). Q w.1.memberships in
      Returned-or_raise Kept
        (first (λ (q : MembershipProposal). q.id == proposal_id && q.tenant_id == tenant_id)
          db.membership_proposals)
        proposal_not_found _
        (λ p _.
          let current = first (is_member tenant_id p.target_user_id) db.memberships in
          Returned-raise_if Kept
            (not (is_undecided p.status) || not (p.version == expected_version)) proposal_stale _
            (λ _. Returned-raise_if Kept (p.proposed_by == actor_id) self_review_forbidden _ (λ _.
              Returned-raise_if Kept (not (is_expected current p)) membership_stale _ (λ _.
                Returned->>= Kept (settle_change month_start tenant_id decision current p now db) _
                  (λ w e. Returned-ok (λ w. Q w.1) _ (h p) e)))))

  -- Where a user is one member of a tenant at most, a decision on a change of a member that returns keeps that so,
  -- and leaves an active administrator to each tenant that had one.
  pub decide_proposal_keeps_admin :
      (tenant_id actor_id proposal_id : ℕ) (decision : Decision) (expected_version : ℕ)
      (review_note : Text) (now : ℕ) (db : MembershipDb)
      → IsUnique db.memberships
      → (t : ℕ) → 1 ≤ count_by (is_active_admin t) db.memberships
      → Returned
          (λ w. IsUnique w.1.memberships × (1 ≤ count_by (is_active_admin t) w.1.memberships))
          (decide_proposal month_start tenant_id actor_id proposal_id decision expected_version
            review_note now db)
  decide_proposal_keeps_admin tenant_id actor_id proposal_id decision expected_version review_note
        now db h t some_admin =
      Returned-map
        (λ (w : MembershipProposal × MembershipDb). KeepsAdmins db.memberships w.1.memberships) _
        (λ w kept. (kept.0, kept.1 t some_admin))
        (decide_proposal-members (KeepsAdmins db.memberships) tenant_id actor_id proposal_id
          decision expected_version review_note now db
          (λ p. settle_change-KeepsAdmins tenant_id decision _ p now db refl h))
