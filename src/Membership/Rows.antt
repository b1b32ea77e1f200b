-- ===== src/Membership/Rows.antt =====
-- The tables of members, plans and usage (`User`, `TenantMembership`, `TenantPlan`, `UsageEvent` and
-- `MembershipProposal` of backend/app/models.py), and the errors of the operations.
use luheng_fulfillops_cloud.Base.{ℕ, Bool, true, false, Option, List, Text}

pub data Role : Type 0 where
  viewer operator admin : Role

abbrev pub role_eq : Role → Role → Bool
role_eq viewer viewer = true
role_eq operator operator = true
role_eq admin admin = true
role_eq _ _ = false

abbrev pub is_admin : Role → Bool
is_admin admin = true
is_admin _ = false

pub data MemberStatus : Type 0 where
  active inactive : MemberStatus

abbrev pub status_eq : MemberStatus → MemberStatus → Bool
status_eq active active = true
status_eq inactive inactive = true
status_eq _ _ = false

abbrev pub is_active : MemberStatus → Bool
is_active active = true
is_active inactive = false

pub record User : Type 0 where
  pub id : ℕ
  pub status : MemberStatus

pub record TenantMembership : Type 0 where
  pub tenant_id : ℕ
  pub user_id : ℕ
  pub role : Role
  pub status : MemberStatus

pub data ProposalStatus : Type 0 where
  pending_review approved rejected : ProposalStatus

abbrev pub is_undecided : ProposalStatus → Bool
is_undecided pending_review = true
is_undecided _ = false

pub record MembershipProposal : Type 0 where
  pub id : ℕ
  pub tenant_id : ℕ
  pub target_user_id : ℕ
  pub requested_role : Role
  pub requested_status : MemberStatus
  pub expected_role : Option Role
  pub expected_status : Option MemberStatus
  pub status : ProposalStatus
  pub version : ℕ
  pub proposed_by : ℕ
  pub proposal_reason : Text
  pub reviewed_by : Option ℕ
  pub review_note : Option Text
  pub reviewed_at : Option ℕ

-- `plan_active` is "active"; `plan_suspended` stands for every other status.
pub data SubscriptionStatus : Type 0 where
  plan_active plan_suspended : SubscriptionStatus

abbrev pub is_subscribed : SubscriptionStatus → Bool
is_subscribed plan_active = true
is_subscribed plan_suspended = false

pub data PlanTier : Type 0 where
  pilot team enterprise : PlanTier

pub record TenantPlan : Type 0 where
  pub tenant_id : ℕ
  pub plan_code : PlanTier
  pub status : SubscriptionStatus
  pub seat_limit : ℕ
  pub monthly_run_limit : ℕ
  pub monthly_budget_cents : ℕ
  pub features : List Text
  pub version : ℕ
  pub updated_at : Option ℕ

-- The keys of `METER_PRICES`; `unknown_meter` stands for any other text.
pub data Meter : Type 0 where
  agent_run model_token channel_task unknown_meter : Meter

pub record UsageEvent : Type 0 where
  pub tenant_id : ℕ
  pub meter : Meter
  pub quantity : ℕ
  pub unit_price_cents : ℕ
  pub amount_cents : ℕ
  pub source_type : ℕ
  pub source_id : ℕ
  pub idempotency_key : Text
  pub occurred_at : ℕ

pub data EntitlementCode : Type 0 where
  subscription_inactive capability_not_entitled quota_exceeded : EntitlementCode

-- The two `ValueError`s of `record_usage_event`.
pub data UsageCode : Type 0 where
  meter_not_known quantity_not_positive : UsageCode

pub data MembershipCode : Type 0 where
  user_not_found pending_review_exists no_change proposal_not_found proposal_stale : MembershipCode
  self_review_forbidden membership_stale last_admin_protected : MembershipCode
  not_entitled : EntitlementCode → MembershipCode

pub record MembershipDb : Type 0 where
  pub users : List User
  pub memberships : List TenantMembership
  pub membership_proposals : List MembershipProposal
  pub plans : List TenantPlan
  pub usage_events : List UsageEvent
  pub next_id : ℕ
