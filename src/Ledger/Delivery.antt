-- ===== src/Ledger/Delivery.antt =====
-- `accept_payment_webhook` of backend/app/financial_ledger.py from the check of the signature on: what Webhook does
-- with the event of a delivery that Signature verifies. The tolerance that is read again for a new event
-- is the one of the check, so that reading it raises nothing more.
use luheng_fulfillops_cloud.Base.{ℕ, Bool, Option, List, Text, Datetime, Result, ok, err, ◌>>=◌}
use luheng_fulfillops_cloud.Base.Int.{ℤ}
use luheng_fulfillops_cloud.Repayment.Rows.{RecoveryEvent}
use luheng_fulfillops_cloud.Ledger.Rows.{LedgerDb, Hashes, PaymentReceipt, LedgerCode}
use luheng_fulfillops_cloud.Ledger.Signature.{
  PaymentWebhookConfig, WebhookCode, Signing, bounded_tolerance, verify_payment_webhook,
}
use luheng_fulfillops_cloud.Ledger.Webhook.{VerifiedEvent, accept_payment_webhook}

-- The arguments of the call; `event_id` and what follows it are the payload.
pub record PaymentDelivery : Type 0 where
  pub tenant_id : ℕ
  pub provider : Text
  pub raw_body : Text
  pub timestamp : Text
  pub signature : Text
  pub event_id : Text
  pub event_type : RecoveryEvent
  pub amount_cents : ℕ
  pub is_cny : Bool
  pub occurred_at : Datetime
  pub case_id : Option Text
  pub original_event_id : Option Text

-- The check of the signature refuses, or what follows it does.
pub data DeliveryCode : Type 0 where
  refused : WebhookCode → DeliveryCode
  denied : LedgerCode → DeliveryCode

abbrev pub or_refused : {A : Type 0} → Result WebhookCode A → Result DeliveryCode A
or_refused (ok a) = ok a
or_refused (err e) = err (refused e)

abbrev pub or_denied : {A : Type 0} → Result LedgerCode A → Result DeliveryCode A
or_denied (ok a) = ok a
or_denied (err e) = err (denied e)

unfoldable pub event_of :
    (Text → ℕ)
    → PaymentDelivery
    → PaymentWebhookConfig
    → (payload_digest signature_digest tolerance_seconds : ℕ) → VerifiedEvent
event_of webhook_actor d config payload_digest signature_digest tolerance_seconds = record {
  tenant_id = d.tenant_id;
  provider = config.provider;
  max_amount_cents = config.max_amount_cents;
  tolerance_seconds = tolerance_seconds;
  webhook_actor = webhook_actor config.provider;
  payload_digest = payload_digest;
  signature_digest = signature_digest;
  event_id = d.event_id;
  event_type = d.event_type;
  amount_cents = d.amount_cents;
  is_cny = d.is_cny;
  occurred_at = d.occurred_at;
  case_id = d.case_id;
  original_event_id = d.original_event_id;
}

-- `webhook_actor` is the actor of a provider, `now_seconds` is the clock of the check and `now` that of the rows.
unfoldable pub receive_payment_webhook :
    {Vault : Type 0}
    → Signing Vault
    → Hashes
    → (webhook_actor : Text → ℕ) → (tolerance : Option ℤ) → PaymentDelivery
    → (now_seconds now : ℕ) → List PaymentWebhookConfig
    → Vault
    → LedgerDb
    → Result DeliveryCode (PaymentReceipt × Bool × LedgerDb)
receive_payment_webhook k hashes webhook_actor tolerance d now_seconds now configs vault db = do
  (config, payload_digest, signature_digest) ← or_refused (
      verify_payment_webhook k tolerance d.tenant_id d.provider d.raw_body d.timestamp d.signature
        now_seconds configs vault)
  seconds ← or_refused (bounded_tolerance tolerance)
  or_denied (
      accept_payment_webhook hashes
        (event_of webhook_actor d config payload_digest signature_digest seconds) now db)
