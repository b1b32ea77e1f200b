-- ===== src/Membership/Governance.antt =====
-- backend/app/membership_governance.py: changes of members, proposed by one administrator and decided
-- by another.
use luheng_fulfillops_cloud.Base.{
  ℕ, ◌+◌, ◌&&◌, ◌||◌, Bool, true, false, not, Option, none, some, List, [], ◌∷◌, ◌++◌, leb, ◌==◌,
  if◌then◌else◌, first, update, count_by, is_some, Text, Result, ok, err, ◌>>=◌, ◌>>◌, raise_if,
  or_raise,
}
use luheng_fulfillops_cloud.Cases.{Decision, approve}
use luheng_fulfillops_cloud.Membership.Rows.{
  Role, role_eq, is_admin, MemberStatus, status_eq, is_active, User, TenantMembership,
  MembershipProposal, pending_review, approved, rejected, is_undecided, EntitlementCode,
  MembershipCode, user_not_found, pending_review_exists, no_change, proposal_not_found,
  proposal_stale, self_review_forbidden, membership_stale, last_admin_protected, not_entitled,
  MembershipDb,
}
use luheng_fulfillops_cloud.Membership.Quota.{require_capacity, seats}

abbrev pub is_member : ℕ → ℕ → TenantMembership → Bool
is_member tenant_id user_id m = m.tenant_id == tenant_id && m.user_id == user_id

unfoldable pub find_member : MembershipDb → ℕ → ℕ → Option TenantMembership
find_member db tenant_id user_id = first (is_member tenant_id user_id) db.memberships

abbrev active_user : Option User → Bool
active_user none = false
active_user (some u) = is_active u.status

abbrev unchanged : Option TenantMembership → Role → MemberStatus → Bool
unchanged none role status = false
unchanged (some m) role status = role_eq m.role role && status_eq m.status status

abbrev role_of : Option TenantMembership → Option Role
role_of none = none
role_of (some m) = some m.role

abbrev member_status_of : Option TenantMembership → Option MemberStatus
member_status_of none = none
member_status_of (some m) = some m.status

abbrev awaits_review : ℕ → ℕ → MembershipProposal → Bool
awaits_review tenant_id user_id p =
    p.tenant_id == tenant_id && p.target_user_id == user_id && is_undecided p.status

unfoldable pub create_proposal :
    (tenant_id actor_id target_user_id : ℕ)
    → Role
    → MemberStatus
    → Text
    → MembershipDb
    → Result MembershipCode (MembershipProposal × MembershipDb)
create_proposal tenant_id actor_id target_user_id requested_role requested_status reason db = do
  raise_if (not (active_user (first (λ (u : User). u.id == target_user_id) db.users)))
      user_not_found
  let current = find_member db tenant_id target_user_id
  raise_if (is_some (first (awaits_review tenant_id target_user_id) db.membership_proposals))
      pending_review_exists
  raise_if (unchanged current requested_role requested_status) no_change
  let p : MembershipProposal = record {
    id = db.next_id;
    tenant_id = tenant_id;
    target_user_id = target_user_id;
    requested_role = requested_role;
    requested_status = requested_status;
    expected_role = role_of current;
    expected_status = member_status_of current;
    status = pending_review;
    version = 1;
    proposed_by = actor_id;
    proposal_reason = reason;
    reviewed_by = none;
    review_note = none;
    reviewed_at = none;
  }
  ok (
    p,
    record db {
      membership_proposals = db.membership_proposals ++ p ∷ [];
      next_id = db.next_id + 1;
    },
  )

abbrev pub role_is : Option Role → Option Role → Bool
role_is none none = true
role_is (some a) (some b) = role_eq a b
role_is _ _ = false

abbrev pub status_is : Option MemberStatus → Option MemberStatus → Bool
status_is none none = true
status_is (some a) (some b) = status_eq a b
status_is _ _ = false

abbrev pub is_expected : Option TenantMembership → MembershipProposal → Bool
is_expected current p =
    role_is (role_of current) p.expected_role
    && status_is (member_status_of current) p.expected_status

abbrev pub activates_new_seat : Option TenantMembership → MembershipProposal → Bool
activates_new_seat none p = is_active p.requested_status
activates_new_seat (some m) p = is_active p.requested_status && not (is_active m.status)

abbrev pub is_active_admin : ℕ → TenantMembership → Bool
is_active_admin tenant_id m = m.tenant_id == tenant_id && is_admin m.role && is_active m.status

abbrev pub removes_admin : Option TenantMembership → MembershipProposal → Bool
removes_admin none p = false
removes_admin (some m) p =
    is_admin m.role
    && is_active m.status
    && (not (is_admin p.requested_role) || not (is_active p.requested_status))

-- `except EntitlementError as exc: raise MembershipGovernanceError(exc.code, ...)`
abbrev pub as_membership {ℓ} :
    {A : Type ℓ} → Result EntitlementCode A → Result MembershipCode (Unit {0})
as_membership (ok a) = ok tt
as_membership (err e) = err (not_entitled e)

-- The member's row, written or added.
unfoldable pub put_member :
    ℕ → Option TenantMembership → MembershipProposal → List TenantMembership → List TenantMembership
put_member tenant_id (some m) p =
    update (is_member tenant_id p.target_user_id)
      (λ (m : TenantMembership). record m { role = p.requested_role; status = p.requested_status })
put_member tenant_id none p = λ ms.
    ms
    ++ record {
      tenant_id = tenant_id;
      user_id = p.target_user_id;
      role = p.requested_role;
      status = p.requested_status;
    }
      ∷ []

module _ (month_start : ℕ → ℕ) where
  -- `if decision == "approve"`: the checks, and the member's row.
  unfoldable pub approve_change :
      ℕ
      → Option TenantMembership
      → MembershipProposal
      → ℕ
      → MembershipDb
      → Result MembershipCode (List TenantMembership)
  approve_change tenant_id current p now db = do
    (if activates_new_seat current p
        then as_membership (require_capacity month_start db tenant_id seats 1 now)
        else ok tt)
    raise_if
        (removes_admin current p && leb (count_by (is_active_admin tenant_id) db.memberships) 1)
        last_admin_protected
    ok (put_member tenant_id current p db.memberships)

  unfoldable pub settle_change :
      ℕ
      → Decision
      → Option TenantMembership
      → MembershipProposal
      → ℕ
      → MembershipDb
      → Result MembershipCode (MembershipProposal × List TenantMembership)
  settle_change tenant_id approve current p now db = do
    members ← approve_change tenant_id current p now db
    ok (record p { status = approved }, members)
  settle_change tenant_id _ current p now db = ok (record p { status = rejected }, db.memberships)

  unfoldable pub decide_proposal :
      (tenant_id actor_id proposal_id : ℕ)
      → Decision
      → (expected_version : ℕ) → Text
      → ℕ
      → MembershipDb
      → Result MembershipCode (MembershipProposal × MembershipDb)
  decide_proposal tenant_id actor_id proposal_id decision expected_version review_note now db = do
    p ←
        or_raise
          (first (λ (q : MembershipProposal). q.id == proposal_id && q.tenant_id == tenant_id)
            db.membership_proposals)
          proposal_not_found
    raise_if (not (is_undecided p.status) || not (p.version == expected_version)) proposal_stale
    raise_if (p.proposed_by == actor_id) self_review_forbidden
    let current = find_member db tenant_id p.target_user_id
    raise_if (not (is_expected current p)) membership_stale
    (q, members) ← settle_change tenant_id decision current p now db
    let done : MembershipProposal = record q {
      version = q.version + 1;
      reviewed_by = some actor_id;
      review_note = some review_note;
      reviewed_at = some now;
    }
    ok (
      done,
      record db {
        memberships = members;
        membership_proposals =
            update (λ (k : MembershipProposal). k.id == done.id) (λ _. done)
              db.membership_proposals;
      },
    )
