-- ===== src/Contact/Channels.antt =====
-- The limits, the readiness of the channels and their list, `_limits` and `channel_policies` of
-- backend/app/contact_orchestration.py.
use luheng_fulfillops_cloud.Base.{
  ℕ, ◌&&◌, ◌||◌, Bool, false, not, Option, none, some, List, [], ◌∷◌, ◌==◌, if◌then◌else◌, first,
  any, map, select, Text, text_eq, strip, codes, Result, ok, ◌>>=◌, ◌>>◌, raise_if, or_raise,
}
use luheng_fulfillops_cloud.Base.Int.{ℤ, pos, pos_part, ltb_ℤ}
use luheng_fulfillops_cloud.Services.{ServiceConfig, IntegrationState, service_eq, phone}
use luheng_fulfillops_cloud.Contact.Rows.{
  Environment, ContactCode, invalid_contact_policy, phone_not_ready, channel_not_ready, ContactDb,
}

pub record Limits : Type 0 where
  pub daily : ℕ
  pub start_hour : ℕ
  pub end_hour : ℕ

abbrev outside : ℤ → ℕ → ℕ → Bool
outside z low high = ltb_ℤ z (pos low) || ltb_ℤ (pos high) z

-- `_limits`: the numbers that pass are not negative.
unfoldable pub limits : Environment → Result ContactCode Limits
limits env = do
  daily ← or_raise env.max_attempts_per_case_day invalid_contact_policy
  start ← or_raise env.window_start_utc_hour invalid_contact_policy
  end ← or_raise env.window_end_utc_hour invalid_contact_policy
  raise_if (outside daily 1 10 || outside start 0 23 || outside end 1 24 || not (ltb_ℤ start end))
      invalid_contact_policy
  ok (record { daily = pos_part daily; start_hour = pos_part start; end_hour = pos_part end })

abbrev add_head : ℕ → List Text → List Text
add_head c [] = (c ∷ []) ∷ []
add_head c (t ∷ ts) = (c ∷ t) ∷ ts

-- `text.split(",")`
abbrev split_commas : Text → List Text
split_commas [] = [] ∷ []
split_commas (c ∷ s) = let rest = split_commas s in if c == 44 then [] ∷ rest else add_head c rest

-- `{item.strip() for item in ... .split(",") if item.strip()}`
unfoldable pub sandbox_set : Environment → List Text
sandbox_set env = select (λ s. not (text_eq s [])) (map strip (split_commas env.sandbox_channels))

abbrev pub is_connected : Option ServiceConfig → Bool
is_connected none = false
is_connected (some c) = c.connected

abbrev pub is_enabled : Option IntegrationState → Bool
is_enabled none = false
is_enabled (some s) = s.enabled

unfoldable pub phone_config : ContactDb → ℕ → Option ServiceConfig
phone_config db tenant_id =
    first (λ (c : ServiceConfig). c.tenant_id == tenant_id && service_eq c.service_type phone)
      db.configs

unfoldable pub integration_state : ContactDb → ℕ → Option IntegrationState
integration_state db tenant_id =
    first (λ (s : IntegrationState). s.tenant_id == tenant_id) db.states

-- What must be ready for a channel.
unfoldable pub channel_gate : Environment → ContactDb → ℕ → Text → Result ContactCode (Unit {0})
channel_gate env db tenant_id channel =
    if text_eq channel (codes "phone")
    then raise_if
        (not (is_connected (phone_config db tenant_id))
          || not (is_enabled (integration_state db tenant_id)))
        phone_not_ready
    else raise_if (not (any (text_eq channel) (sandbox_set env))) channel_not_ready

pub data ChannelMode : Type 0 where
  provider_mode sandbox_mode disabled_mode : ChannelMode

pub record ChannelPolicy : Type 0 where
  pub channel : Text
  pub mode : ChannelMode
  pub ready : Bool
  pub daily_limit_shared : ℕ
  pub window_start_utc_hour : ℕ
  pub window_end_utc_hour : ℕ

unfoldable pub channel_policy : Environment → ContactDb → ℕ → Limits → Text → ChannelPolicy
channel_policy env db tenant_id l channel =
    let is_phone = text_eq channel (codes "phone") in
    let provider_ready =
      is_phone
      && is_connected (phone_config db tenant_id)
      && is_enabled (integration_state db tenant_id) in
    let sandbox_ready = not is_phone && any (text_eq channel) (sandbox_set env) in
    record {
      channel = channel;
      mode =
          if provider_ready
          then provider_mode
          else if sandbox_ready
          then sandbox_mode
          else disabled_mode;
      ready = provider_ready || sandbox_ready;
      daily_limit_shared = l.daily;
      window_start_utc_hour = l.start_hour;
      window_end_utc_hour = l.end_hour;
    }

unfoldable pub channel_policies :
    Environment → ContactDb → ℕ → Result ContactCode (List ChannelPolicy)
channel_policies env db tenant_id = do
  l ← limits env
  ok (map (channel_policy env db tenant_id l) (codes "phone" ∷ codes "sms" ∷ codes "email" ∷ []))
