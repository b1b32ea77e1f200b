-- ===== src/Membership/Examples.antt =====
-- A tenant with two administrators, and runs of its changes and of its usage.
use luheng_fulfillops_cloud.Base.{
  ℕ, ◌≤◌, ◌≡◌, refl, none, [], ◌∷◌, arith, codes, count_by, Result, ok, err, Returned, text_eq,
}
use luheng_fulfillops_cloud.Cases.{approve}
use luheng_fulfillops_cloud.Membership.Rows.{
  Role, MemberStatus, MembershipDb, MembershipCode, MembershipProposal, Meter, last_admin_protected,
  capability_not_entitled, TenantMembership,
}
use luheng_fulfillops_cloud.Membership.Quota.{
  UsageRequest, record_usage_event, store_usage, new_usage, require_capability, plan_view,
  catalog_plan, holds_seat,
}
use luheng_fulfillops_cloud.Membership.Governance.{
  decide_proposal, create_proposal, find_member, put_member, approve_change, settle_change,
  is_active_admin,
}
use luheng_fulfillops_cloud.Membership.Administrators.{IsUnique, decide_proposal_keeps_admin}
use luheng_fulfillops_cloud.Membership.Seats.{decide_proposal_within_seats}
use luheng_fulfillops_cloud.Membership.Usage.{record_usage_event_once}

abbrev member : ℕ → Role → TenantMembership
member user_id role = record {
  tenant_id = 1;
  user_id = user_id;
  role = role;
  status = MemberStatus.active;
}

abbrev tables : MembershipDb
tables = record {
  users = record { id = 5; status = MemberStatus.active } ∷ [];
  memberships = member 5 Role.admin ∷ member 6 Role.admin ∷ [];
  membership_proposals = [];
  plans = [];
  usage_events = [];
  next_id = 9;
}

-- All of one month.
abbrev first_moment : ℕ → ℕ
first_moment now = 0

abbrev reached :
    MembershipDb → Result MembershipCode (MembershipProposal × MembershipDb) → MembershipDb
reached db (ok w) = w.1
reached db (err _) = db

abbrev proposed : MembershipDb
proposed =
    reached tables (create_proposal 1 6 5 Role.viewer MemberStatus.active (codes "leaves") tables)

tables-IsUnique : IsUnique tables.memberships
tables-IsUnique t u = ground arith

proposed-IsUnique : IsUnique proposed.memberships
unfolding create_proposal find_member
proposed-IsUnique t u = ground arith

two_admins : 1 ≤ count_by (is_active_admin 1) proposed.memberships
unfolding create_proposal find_member
two_admins = omega arith

few_seats : count_by (holds_seat 1) proposed.memberships ≤ (plan_view proposed 1).seat_limit
unfolding create_proposal find_member plan_view catalog_plan
few_seats = omega arith

decide_proposal_keeps_admin_example :
    Returned
      (λ w. IsUnique w.1.memberships × (1 ≤ count_by (is_active_admin 1) w.1.memberships))
      (decide_proposal first_moment 1 7 9 approve 1 (codes "agreed") 40 proposed)
decide_proposal_keeps_admin_example =
    decide_proposal_keeps_admin first_moment 1 7 9 approve 1 (codes "agreed") 40 proposed
      proposed-IsUnique 1 two_admins

decide_proposal_within_seats_example :
    Returned
      (λ w. count_by (holds_seat 1) w.1.memberships ≤ (plan_view proposed 1).seat_limit)
      (decide_proposal first_moment 1 7 9 approve 1 (codes "agreed") 40 proposed)
decide_proposal_within_seats_example =
    decide_proposal_within_seats first_moment 1 7 9 approve 1 (codes "agreed") 40 proposed
      proposed-IsUnique 1 few_seats

-- The first administrator may leave, and then the last one may not.
abbrev left : MembershipDb
left = reached proposed (decide_proposal first_moment 1 7 9 approve 1 (codes "agreed") 40 proposed)

abbrev last_proposed : MembershipDb
last_proposed = reached left (
    create_proposal 1 5 6 Role.viewer MemberStatus.active (codes "leaves")
      (record left { users = record { id = 6; status = MemberStatus.active } ∷ [] }))

last_stays :
    decide_proposal first_moment 1 7 10 approve 1 (codes "agreed") 50 last_proposed
    ≡ err last_admin_protected
unfolding create_proposal find_member decide_proposal settle_change approve_change put_member
last_stays = refl

abbrev usage : UsageRequest
usage = record {
  tenant_id = 1;
  meter = Meter.agent_run;
  quantity = 3;
  source_type = 1;
  source_id = 2;
  idempotency_key = codes "run-2";
  amount_cents = none;
  occurred_at = none;
}

abbrev charged : MembershipDb
charged = record tables { usage_events = new_usage usage 5 100 ∷ [] }

charging : record_usage_event usage 100 tables ≡ ok (new_usage usage 5 100, charged)
unfolding record_usage_event store_usage
charging = refl

record_usage_event_once_example :
    record_usage_event (record usage { quantity = 4 }) 200 charged
    ≡ ok (new_usage usage 5 100, charged)
record_usage_event_once_example =
    record_usage_event_once usage 100 tables charged (new_usage usage 5 100) charging
      (record usage { quantity = 4 }) 200 refl refl

-- A tenant with no plan of its own has the capabilities of the team plan.
no_export : require_capability tables 1 (codes "audit-export") ≡ err capability_not_entitled
unfolding require_capability plan_view catalog_plan text_eq
no_export = refl
