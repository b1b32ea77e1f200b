-- ===== src/Membership/Quota.antt =====
-- backend/app/entitlements.py and backend/app/usage_metering.py: plans, what a tenant uses in a month
-- and what it may still use. The first moment of a month is a parameter, `datetime.replace`.
use luheng_fulfillops_cloud.Base.{
  ℕ, ◌+◌, ◌*◌, ◌&&◌, Bool, true, false, not, Option, none, some, [], ◌∷◌, ◌++◌, ltb, leb, ◌==◌,
  first, any, select, sum_by, count_by, Text, text_eq, codes, Result, ok, ◌>>=◌, ◌>>◌, raise_if,
  or_raise,
}
use luheng_fulfillops_cloud.Membership.Rows.{
  is_active, TenantMembership, TenantPlan, PlanTier, team, pilot, enterprise, plan_active,
  is_subscribed, Meter, agent_run, model_token, channel_task, unknown_meter, UsageEvent,
  EntitlementCode, subscription_inactive, capability_not_entitled, quota_exceeded, UsageCode,
  meter_not_known, quantity_not_positive, MembershipDb,
}

-- `PLAN_CATALOG[code]` for a tenant, as `plan_view` shows it where the tenant has no plan of its own.
unfoldable pub catalog_plan : PlanTier → ℕ → TenantPlan
catalog_plan pilot tenant_id = record {
  tenant_id = tenant_id;
  plan_code = pilot;
  status = plan_active;
  seat_limit = 5;
  monthly_run_limit = 500;
  monthly_budget_cents = 50000;
  features = codes "agents" ∷ codes "ledger" ∷ [];
  version = 0;
  updated_at = none;
}
catalog_plan team tenant_id = record {
  tenant_id = tenant_id;
  plan_code = team;
  status = plan_active;
  seat_limit = 25;
  monthly_run_limit = 5000;
  monthly_budget_cents = 500000;
  features =
      codes "agents"
      ∷ codes "ledger"
      ∷ codes "experiments"
      ∷ codes "multichannel"
      ∷ codes "harness-selector"
      ∷ [];
  version = 0;
  updated_at = none;
}
catalog_plan enterprise tenant_id = record {
  tenant_id = tenant_id;
  plan_code = enterprise;
  status = plan_active;
  seat_limit = 500;
  monthly_run_limit = 100000;
  monthly_budget_cents = 20000000;
  features =
      codes "agents"
      ∷ codes "ledger"
      ∷ codes "experiments"
      ∷ codes "multichannel"
      ∷ codes "harness-selector"
      ∷ codes "enterprise-oidc"
      ∷ codes "audit-export"
      ∷ [];
  version = 0;
  updated_at = none;
}

unfoldable pub plan_view : MembershipDb → ℕ → TenantPlan
plan_view db tenant_id = elim (first (λ (p : TenantPlan). p.tenant_id == tenant_id) db.plans) [
  | some row ↦ row
  | none ↦ catalog_plan team tenant_id
]

abbrev pub holds_seat : ℕ → TenantMembership → Bool
holds_seat tenant_id m = m.tenant_id == tenant_id && is_active m.status

abbrev is_agent_run : Meter → Bool
is_agent_run agent_run = true
is_agent_run _ = false

abbrev is_model_token : Meter → Bool
is_model_token model_token = true
is_model_token _ = false

pub record UsageSnapshot : Type 0 where
  pub seats : ℕ
  pub agent_runs : ℕ
  pub model_budget_cents : ℕ

module _ (month_start : ℕ → ℕ) where
  unfoldable pub usage_snapshot : MembershipDb → (tenant_id now : ℕ) → UsageSnapshot
  usage_snapshot db tenant_id now = record {
    seats = count_by (holds_seat tenant_id) db.memberships;
    agent_runs =
        sum_by (λ (u : UsageEvent). u.quantity)
          (select
            (λ (u : UsageEvent).
              u.tenant_id == tenant_id
              && is_agent_run u.meter
              && leb (month_start now) u.occurred_at)
            db.usage_events);
    model_budget_cents =
        sum_by (λ (u : UsageEvent). u.amount_cents)
          (select
            (λ (u : UsageEvent).
              u.tenant_id == tenant_id
              && is_model_token u.meter
              && leb (month_start now) u.occurred_at)
            db.usage_events);
  }

unfoldable pub require_capability : MembershipDb → ℕ → Text → Result EntitlementCode TenantPlan
require_capability db tenant_id capability = do
  let plan = plan_view db tenant_id
  raise_if (not (is_subscribed plan.status)) subscription_inactive
  raise_if (not (any (text_eq capability) plan.features)) capability_not_entitled
  ok plan

-- The meters of `require_capacity`.
pub data Capacity : Type 0 where
  seats agent_runs model_budget_cents : Capacity

abbrev pub used : Capacity → UsageSnapshot → ℕ
used seats u = u.seats
used agent_runs u = u.agent_runs
used model_budget_cents u = u.model_budget_cents

abbrev pub limit_of : Capacity → TenantPlan → ℕ
limit_of seats p = p.seat_limit
limit_of agent_runs p = p.monthly_run_limit
limit_of model_budget_cents p = p.monthly_budget_cents

module _ (month_start : ℕ → ℕ) where
  unfoldable pub require_capacity :
      MembershipDb
      → (tenant_id : ℕ) → Capacity
      → (additional now : ℕ) → Result EntitlementCode (TenantPlan × UsageSnapshot)
  require_capacity db tenant_id meter additional now = do
    let plan = plan_view db tenant_id
    raise_if (not (is_subscribed plan.status)) subscription_inactive
    let usage = usage_snapshot month_start db tenant_id now
    raise_if (ltb (limit_of meter plan) (used meter usage + additional)) quota_exceeded
    ok (plan, usage)

-- `METER_PRICES[meter]["unit_price_cents"]`
abbrev pub unit_price : Meter → Option ℕ
unit_price agent_run = some 5
unit_price model_token = some 0
unit_price channel_task = some 2
unit_price unknown_meter = none

pub record UsageRequest : Type 0 where
  pub tenant_id : ℕ
  pub meter : Meter
  pub quantity : ℕ
  pub source_type : ℕ
  pub source_id : ℕ
  pub idempotency_key : Text
  pub amount_cents : Option ℕ
  pub occurred_at : Option ℕ

abbrev pub or_else : Option ℕ → ℕ → ℕ
or_else none d = d
or_else (some a) d = a

unfoldable pub new_usage : UsageRequest → (price now : ℕ) → UsageEvent
new_usage r price now = record {
  tenant_id = r.tenant_id;
  meter = r.meter;
  quantity = r.quantity;
  unit_price_cents = price;
  amount_cents = or_else r.amount_cents (r.quantity * price);
  source_type = r.source_type;
  source_id = r.source_id;
  idempotency_key = r.idempotency_key;
  occurred_at = or_else r.occurred_at now;
}

abbrev pub is_usage : ℕ → Text → UsageEvent → Bool
is_usage tenant_id key u = u.tenant_id == tenant_id && text_eq key u.idempotency_key

unfoldable pub store_usage :
    UsageRequest → ℕ → MembershipDb → Result UsageCode (UsageEvent × MembershipDb)
store_usage r now db = do
  price ← or_raise (unit_price r.meter) meter_not_known
  raise_if (r.quantity == 0) quantity_not_positive
  let event = new_usage r price now
  ok (event, record db { usage_events = db.usage_events ++ event ∷ [] })

unfoldable pub record_usage_event :
    UsageRequest → ℕ → MembershipDb → Result UsageCode (UsageEvent × MembershipDb)
record_usage_event r now db =
    elim (first (is_usage r.tenant_id r.idempotency_key) db.usage_events) [
      | some existing ↦ ok (existing, db)
      | none ↦ store_usage r now db
    ]
