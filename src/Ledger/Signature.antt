-- ===== src/Ledger/Signature.antt =====
-- The configuration and the signature of payment webhooks, `configure_payment_webhook` and
-- `verify_payment_webhook` of backend/app/financial_ledger.py. The last digits of a credential are left out.
use luheng_fulfillops_cloud.Base.{
  ℕ, ◌+◌, ◌-◌, ◌&&◌, ◌||◌, Bool, true, false, not, Option, none, some, List, [], ◌∷◌, ◌++◌, leb,
  ltb, ◌==◌, if◌then◌else◌, first, update, all, length, is_some, Text, text_eq, strip, lower, codes,
  Result, ok, err, ◌>>=◌, ◌>>◌, raise_if, or_raise,
}
use luheng_fulfillops_cloud.Base.Int.{ℤ, pos, negsuc}

-- `secret_ref` is nothing for "pending".
pub record PaymentWebhookConfig : Type 0 where
  pub tenant_id : ℕ
  pub provider : Text
  pub secret_ref : Option ℕ
  pub version : ℕ
  pub is_active : Bool
  pub max_amount_cents : ℕ
  pub updated_at : ℕ

pub data WebhookCode : Type 0 where
  invalid_provider invalid_deployment_policy invalid_amount_limit credential_required : WebhookCode
  secret_store_unavailable webhook_secret_unavailable webhook_not_configured : WebhookCode
  invalid_signature_timestamp signature_expired invalid_signature : WebhookCode

-- hmac, hashlib, `int` of a text, and the store of secrets with its state, whose answers are nothing where it raises.
pub record Signing (Vault : Type 0) : Type 0 where
  pub hmac_hex : Text → Text → Text
  pub sha : Text → ℕ
  pub read_int : Text → Option ℤ
  pub store_secret :
      (tenant_id : ℕ) → (scope credential : Text) → Option ℕ → Vault → Option (ℕ × Vault)
  pub resolve_secret : (reference tenant_id : ℕ) → (scope : Text) → Vault → Option Text

abbrev is_small_alnum : ℕ → Bool
is_small_alnum c = (leb 48 c && leb c 57) || (leb 97 c && leb c 122)

-- `[a-z0-9][a-z0-9_-]{1,11}`
unfoldable pub is_provider : Text → Bool
is_provider [] = false
is_provider (c ∷ s) =
    is_small_alnum c
    && leb 1 (length s)
    && leb (length s) 11
    && all (λ d. is_small_alnum d || d == 95 || d == 45) s

unfoldable pub validate_provider : Text → Result WebhookCode Text
validate_provider provider = do
  let normalized = lower (strip provider)
  raise_if (not (is_provider normalized)) invalid_provider
  ok normalized

unfoldable pub payment_secret_scope : Text → Result WebhookCode Text
payment_secret_scope provider = do p ← validate_provider provider; ok (codes "payment-" ++ p)

-- `_bounded_tolerance`, of the number that the environment holds.
unfoldable pub bounded_tolerance : Option ℤ → Result WebhookCode ℕ
bounded_tolerance (some (pos n)) =
    if leb 60 n && leb n 900 then ok n else err invalid_deployment_policy
bounded_tolerance _ = err invalid_deployment_policy

abbrev pub is_config : ℕ → Text → PaymentWebhookConfig → Bool
is_config tenant_id provider c = c.tenant_id == tenant_id && text_eq c.provider provider

abbrev pub in_force : ℕ → Text → PaymentWebhookConfig → Bool
in_force tenant_id provider c = is_config tenant_id provider c && c.is_active

-- A credential that is empty is none.
abbrev pub given : Option Text → Option Text
given (some (c ∷ s)) = some (c ∷ s)
given _ = none

abbrev pub blank_config : ℕ → Text → PaymentWebhookConfig
blank_config tenant_id provider = record {
  tenant_id = tenant_id;
  provider = provider;
  secret_ref = none;
  version = 0;
  is_active = true;
  max_amount_cents = 0;
  updated_at = 0;
}

-- The row of the provider, or a new one where there is a credential for it.
abbrev pub config_for :
    ℕ → Text → Option Text → Option PaymentWebhookConfig → Result WebhookCode PaymentWebhookConfig
config_for tenant_id provider credential (some c) = ok c
config_for tenant_id provider none none = err credential_required
config_for tenant_id provider (some _) none = ok (blank_config tenant_id provider)

abbrev pub write_config :
    ℕ
    → Text
    → PaymentWebhookConfig
    → Option PaymentWebhookConfig
    → List PaymentWebhookConfig
    → List PaymentWebhookConfig
write_config tenant_id provider c none configs = configs ++ c ∷ []
write_config tenant_id provider c (some _) configs =
    update (is_config tenant_id provider) (λ _. c) configs

-- `hmac.new(secret, timestamp + b"." + raw_body, sha256)` with its version.
unfoldable pub sign_payment_webhook :
    {Vault : Type 0} → Signing Vault → (secret timestamp raw_body : Text) → Text
sign_payment_webhook k secret timestamp raw_body =
    codes "v1=" ++ k.hmac_hex secret (timestamp ++ codes "." ++ raw_body)

abbrev pub is_hex : Text → Bool
is_hex s = length s == 64 && all (λ c. (leb 48 c && leb c 57) || (leb 97 c && leb c 102)) s

-- `v1=[0-9a-f]{64}`
abbrev pub is_signature : Text → Bool
is_signature (v ∷ o ∷ e ∷ s) = v == 118 && o == 49 && e == 61 && is_hex s
is_signature _ = false

-- `abs(now - signed_at)`
abbrev pub distance : ℕ → ℤ → ℕ
distance now (pos n) = (now - n) + (n - now)
distance now (negsuc n) = now + n + 1

module _ {Vault : Type 0} (k : Signing Vault) where
  -- The reference of the secret that the row has after the credential is stored.
  unfoldable pub kept_secret :
      PaymentWebhookConfig → Option Text → Vault → Result WebhookCode (Option ℕ × Vault)
  kept_secret c none vault = ok (c.secret_ref, vault)
  kept_secret c (some credential) vault = do
    scope ← payment_secret_scope c.provider
    (reference, vault') ←
        or_raise (k.store_secret c.tenant_id scope credential c.secret_ref vault)
          secret_store_unavailable
    ok (some reference, vault')

  unfoldable pub configure_payment_webhook :
      (tenant_id : ℕ)
      → Text
      → Option Text
      → (max_amount_cents now : ℕ) → List PaymentWebhookConfig
      → Vault
      → Result WebhookCode (PaymentWebhookConfig × List PaymentWebhookConfig × Vault)
  configure_payment_webhook tenant_id provider credential max_amount_cents now configs vault = do
    p ← validate_provider provider
    raise_if (not (leb 1 max_amount_cents && leb max_amount_cents 1000000000)) invalid_amount_limit
    let existing = first (is_config tenant_id p) configs
    config ← config_for tenant_id p (given credential) existing
    (reference, vault') ← kept_secret config (given credential) vault
    raise_if (not (is_some reference)) credential_required
    let config' : PaymentWebhookConfig = record config {
      secret_ref = reference;
      version = config.version + 1;
      is_active = true;
      max_amount_cents = max_amount_cents;
      updated_at = now;
    }
    ok (config', write_config tenant_id p config' existing configs, vault')

  abbrev pub resolve_option : Option ℕ → ℕ → Text → Vault → Option Text
  resolve_option none tenant_id scope vault = none
  resolve_option (some r) tenant_id scope vault = given (k.resolve_secret r tenant_id scope vault)

  unfoldable pub resolve_webhook_secret : PaymentWebhookConfig → Vault → Result WebhookCode Text
  resolve_webhook_secret config vault = do
    scope ← payment_secret_scope config.provider
    or_raise (resolve_option config.secret_ref config.tenant_id scope vault)
        webhook_secret_unavailable

  unfoldable pub verify_payment_webhook :
      (tolerance : Option ℤ)
      → (tenant_id : ℕ) → (provider raw_body timestamp signature : Text) → (now : ℕ)
      → List PaymentWebhookConfig
      → Vault
      → Result WebhookCode (PaymentWebhookConfig × ℕ × ℕ)
  verify_payment_webhook tolerance tenant_id provider raw_body timestamp signature now configs
        vault =
      do
        p ← validate_provider provider
        config ← or_raise (first (in_force tenant_id p) configs) webhook_not_configured
        signed_at ← or_raise (k.read_int timestamp) invalid_signature_timestamp
        seconds ← bounded_tolerance tolerance
        raise_if (ltb seconds (distance now signed_at)) signature_expired
        raise_if (not (is_signature signature)) invalid_signature
        secret ← resolve_webhook_secret config vault
        raise_if (not (text_eq (sign_payment_webhook k secret timestamp raw_body) signature))
            invalid_signature
        ok (config, k.sha raw_body, k.sha signature)
