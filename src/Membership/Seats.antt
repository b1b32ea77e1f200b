-- ===== src/Membership/Seats.antt =====
-- The active members of a tenant stay within the seats of its plan.
use luheng_fulfillops_cloud.Base.{
  ℕ, ◌+◌, ◌≤◌, ◌≡◌, refl, subst, inl, inr, true, false, not, Option, none, some, List, arith, first,
  leb, ltb, All-map, All-of_each, count_by, count_by-append, count_by-update-le,
  count_by-update_gain, All-first_only, Text, Result, ok, Returned, Returned->>=, Returned-ok,
  Returned-map, Returned-raise_if, Bool-cases, ◌==◌, ◌&&◌, if◌then◌else◌, Result-cases,
}
use luheng_fulfillops_cloud.Cases.{Decision, approve, reject, unknown}
use luheng_fulfillops_cloud.Membership.Rows.{
  TenantMembership, MembershipProposal, MembershipDb, MembershipCode, is_subscribed,
  subscription_inactive, quota_exceeded, last_admin_protected, TenantPlan,
}
use luheng_fulfillops_cloud.Membership.Quota.{
  Capacity, used, limit_of, UsageSnapshot, usage_snapshot, plan_view, require_capacity, seats,
  holds_seat,
}
use luheng_fulfillops_cloud.Membership.Governance.{
  is_member, is_active_admin, removes_admin, activates_new_seat, as_membership, put_member,
  approve_change, settle_change, decide_proposal,
}
use luheng_fulfillops_cloud.Membership.Administrators.{IsUnique, decide_proposal-members}

-- A change that takes no new seat leaves the members of each tenant in no more seats.
put_member_seats :
    (tenant_id : ℕ) (current : Option TenantMembership) (p : MembershipProposal)
    (ms : List TenantMembership)
    → first (is_member tenant_id p.target_user_id) ms ≡ current
    → IsUnique ms
    → activates_new_seat current p ≡ false
    → (t : ℕ)
    → count_by (holds_seat t) (put_member tenant_id current p ms) ≤ count_by (holds_seat t) ms
unfolding put_member
put_member_seats tenant_id none p ms found h stays t =
    rw (count_by-append (holds_seat t) ms _) (ground (arith, stays))
put_member_seats tenant_id (some m) p ms found h stays t =
    count_by-update-le (holds_seat t) (is_member tenant_id p.target_user_id) _ ms (
      All-map ms (λ x same hit counts. ground (arith, stays, counts, same hit))
        (All-first_only (is_member tenant_id p.target_user_id) ms (h tenant_id p.target_user_id)
          found))

put_member_seats_elsewhere :
    (tenant_id : ℕ) (current : Option TenantMembership) (p : MembershipProposal)
    (ms : List TenantMembership) (t : ℕ)
    → (tenant_id == t) ≡ false
    → count_by (holds_seat t) (put_member tenant_id current p ms) ≤ count_by (holds_seat t) ms
unfolding put_member
put_member_seats_elsewhere tenant_id none p ms t other =
    rw (count_by-append (holds_seat t) ms _) (ground (arith, other))
put_member_seats_elsewhere tenant_id (some m) p ms t other =
    count_by-update-le (holds_seat t) (is_member tenant_id p.target_user_id) _ ms
      (All-of_each _ ms (λ x hit counts. ground (arith, other, hit, counts)))

-- No change takes more than one seat.
put_member_one_seat :
    (tenant_id : ℕ) (current : Option TenantMembership) (p : MembershipProposal)
    (ms : List TenantMembership)
    → IsUnique ms
    → (t : ℕ)
    → count_by (holds_seat t) (put_member tenant_id current p ms) ≤ count_by (holds_seat t) ms + 1
unfolding put_member
put_member_one_seat tenant_id none p ms h t =
    rw (count_by-append (holds_seat t) ms _) (ground arith)
put_member_one_seat tenant_id (some m) p ms h t = omega (
  arith,
  count_by-update_gain (holds_seat t) (is_member tenant_id p.target_user_id)
      (λ (m : TenantMembership). record m { role = p.requested_role; status = p.requested_status })
      ms,
  h tenant_id p.target_user_id,
)

module _ (month_start : ℕ → ℕ) where
  -- What is allowed is within the limit of the plan.
  pub require_capacity_lem :
      (db : MembershipDb) (tenant_id : ℕ) (meter : Capacity) (additional now : ℕ)
      → Returned
          (λ _.
            used meter (usage_snapshot month_start db tenant_id now) + additional
            ≤ limit_of meter (plan_view db tenant_id))
          (require_capacity month_start db tenant_id meter additional now)
  unfolding require_capacity
  require_capacity_lem db tenant_id meter additional now =
      let Within = λ (w : TenantPlan × UsageSnapshot).
        used meter (usage_snapshot month_start db tenant_id now) + additional
        ≤ limit_of meter (plan_view db tenant_id) in
      Returned-raise_if Within (not (is_subscribed (plan_view db tenant_id).status))
        subscription_inactive _
        (λ _.
          Returned-raise_if Within
            (ltb (limit_of meter (plan_view db tenant_id))
              (used meter (usage_snapshot month_start db tenant_id now) + additional))
            quota_exceeded _ (λ within. ground (arith, within)))

  seat_free :
      (db : MembershipDb) (tenant_id now : ℕ)
      → as_membership (require_capacity month_start db tenant_id seats 1 now) ≡ ok tt
      → count_by (holds_seat tenant_id) db.memberships + 1 ≤ (plan_view db tenant_id).seat_limit
  unfolding usage_snapshot
  seat_free db tenant_id now e =
      elim (Result-cases (require_capacity month_start db tenant_id seats 1 now)) [
        | inl (w, r) ↦ Returned-ok _ _ (require_capacity_lem db tenant_id seats 1 now) r
        | inr (x, r) ↦ absurd (cc (e, r))
      ]

  -- The members fill no more seats than the tenant's plan has, where they did so before.
  abbrev WithinSeats : MembershipDb → List TenantMembership → Type 0
  WithinSeats db ms =
      (t : ℕ)
      → count_by (holds_seat t) db.memberships ≤ (plan_view db t).seat_limit
      → count_by (holds_seat t) ms ≤ (plan_view db t).seat_limit

  put_member-WithinSeats :
      (tenant_id : ℕ) (current : Option TenantMembership) (p : MembershipProposal) (now : ℕ)
      (db : MembershipDb)
      → first (is_member tenant_id p.target_user_id) db.memberships ≡ current
      → IsUnique db.memberships
      → (activates_new_seat current p ≡ true
          → count_by (holds_seat tenant_id) db.memberships + 1
            ≤ (plan_view db tenant_id).seat_limit)
      → WithinSeats db (put_member tenant_id current p db.memberships)
  put_member-WithinSeats tenant_id current p now db found h free t before =
      elim (Bool-cases (activates_new_seat current p)) [
        | inr stays ↦
            omega
              (arith, before, put_member_seats tenant_id current p db.memberships found h stays t)
        | inl takes ↦ elim (Bool-cases (tenant_id == t)) [
          | inr other ↦
              omega (
                arith,
                before,
                put_member_seats_elsewhere tenant_id current p db.memberships t other,
              )
          | inl same ↦
              let same_tenant : tenant_id ≡ t = ground (arith, same) in
              let free_here : count_by (holds_seat t) db.memberships + 1
                  ≤ (plan_view db t).seat_limit =
                subst
                  (λ v. count_by (holds_seat v) db.memberships + 1 ≤ (plan_view db v).seat_limit)
                  same_tenant (free takes) in
              omega (arith, free_here, put_member_one_seat tenant_id current p db.memberships h t)
        ]
      ]

  settle_change-WithinSeats :
      (tenant_id : ℕ) (decision : Decision) (current : Option TenantMembership)
      (p : MembershipProposal) (now : ℕ) (db : MembershipDb)
      → first (is_member tenant_id p.target_user_id) db.memberships ≡ current
      → IsUnique db.memberships
      → Returned
          (λ w. WithinSeats db w.1)
          (settle_change month_start tenant_id decision current p now db)
  unfolding settle_change approve_change
  settle_change-WithinSeats tenant_id approve current p now db found h =
      let checked : Result MembershipCode (Unit {0}) =
        if activates_new_seat current p
        then as_membership (require_capacity month_start db tenant_id seats 1 now)
        else ok tt in
      let approved = Returned->>= (WithinSeats db) checked _ (λ _ passed.
        Returned-raise_if (WithinSeats db)
          (removes_admin current p && leb (count_by (is_active_admin tenant_id) db.memberships) 1)
          last_admin_protected _
          (λ _.
            put_member-WithinSeats tenant_id current p now db found h
              (λ takes. seat_free db tenant_id now (cc (takes, passed))))) in
      Returned->>= (λ w. WithinSeats db w.1) (approve_change month_start tenant_id current p now db)
        _ (λ members e. Returned-ok (WithinSeats db) _ approved e)
  settle_change-WithinSeats tenant_id reject current p now db found h = λ _ before. before
  settle_change-WithinSeats tenant_id unknown current p now db found h = λ _ before. before

  -- Where a user is one member of a tenant at most, a decision on a change of a member that returns leaves the
  -- active members of each tenant within the seats of its plan, if they were within them.
  pub decide_proposal_within_seats :
      (tenant_id actor_id proposal_id : ℕ) (decision : Decision) (expected_version : ℕ)
      (review_note : Text) (now : ℕ) (db : MembershipDb)
      → IsUnique db.memberships
      → (t : ℕ) → count_by (holds_seat t) db.memberships ≤ (plan_view db t).seat_limit
      → Returned
          (λ w. count_by (holds_seat t) w.1.memberships ≤ (plan_view db t).seat_limit)
          (decide_proposal month_start tenant_id actor_id proposal_id decision expected_version
            review_note now db)
  decide_proposal_within_seats tenant_id actor_id proposal_id decision expected_version review_note
        now db h t before =
      Returned-map (λ (w : MembershipProposal × MembershipDb). WithinSeats db w.1.memberships) _
        (λ w within. within t before)
        (decide_proposal-members month_start (WithinSeats db) tenant_id actor_id proposal_id
          decision expected_version review_note now db
          (λ p. settle_change-WithinSeats tenant_id decision _ p now db refl h))
