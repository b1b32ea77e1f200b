-- ===== src/Ledger/SignatureExamples.antt =====
-- A provider that is configured, and deliveries that it signs: runs, and the theorems at them.
use luheng_fulfillops_cloud.Base.{
  first, ℕ, ◌+◌, ◌≡◌, ◌≤◌, ◌↔◌, ◌++◌, refl, ap, true, false, Option, none, some, [], ◌∷◌, length,
  ◌==◌, Text, text_eq, codes, strip, lower, ok, err, if◌then◌else◌,
}
use luheng_fulfillops_cloud.Base.Int.{pos}
use luheng_fulfillops_cloud.Ledger.Reconcile.{write_receipt}
use luheng_fulfillops_cloud.Ledger.Signature.{
  PaymentWebhookConfig, signature_expired, Signing, is_provider, validate_provider, in_force,
  payment_secret_scope, bounded_tolerance, distance, sign_payment_webhook, kept_secret,
  configure_payment_webhook, resolve_webhook_secret, verify_payment_webhook,
}
use luheng_fulfillops_cloud.Ledger.Signed.{verify_payment_webhook_iff}
use luheng_fulfillops_cloud.Ledger.Webhook.{count_duplicate, accept_payment_webhook}
use luheng_fulfillops_cloud.Ledger.Delivery.{
  PaymentDelivery, or_denied, event_of, receive_payment_webhook,
}
use luheng_fulfillops_cloud.Ledger.Delivered.{receive_payment_webhook_again}
use luheng_fulfillops_cloud.Ledger.Examples.{
  hashes, ledger, paid, now, ledger_paid, receipt_in, paid_accepted,
}

abbrev credential : Text
credential = codes "key"

-- A store with room for one credential, and a hash of 64 digits.
abbrev signing : Signing (Option Text)
signing = record {
  hmac_hex =
      λ secret message. codes "00000000000000000000000000000000ffffffffffffffffffffffffffffffff";
  sha = λ s. if length s == 2 then 77 else 78;
  read_int = λ s. some (pos (1000 + length s));
  store_secret = λ t scope c previous vault. some (1, some c);
  resolve_secret = λ r t scope vault. vault;
}

abbrev bank : PaymentWebhookConfig
bank = record {
  tenant_id = 1;
  provider = codes "bank";
  secret_ref = some 1;
  version = 1;
  is_active = true;
  max_amount_cents = 1000;
  updated_at = 90;
}

configured :
    configure_payment_webhook signing 1 (codes " Bank ") (some credential) 1000 90 [] none
    ≡ ok (bank, bank ∷ [], some credential)
unfolding configure_payment_webhook validate_provider is_provider kept_secret payment_secret_scope
    strip lower text_eq
configured = refl

abbrev body : Text
body = codes "{}"

-- The same delivery is refused after the tolerance.
too_late :
    verify_payment_webhook signing
      (some (pos 300))
      1
      (codes "bank")
      body
      (codes "1005")
      (sign_payment_webhook signing credential (codes "1005") body)
      1400
      (bank ∷ [])
      (some credential)
    ≡ err signature_expired
unfolding verify_payment_webhook validate_provider is_provider bounded_tolerance strip lower text_eq
too_late = refl

bank_named : validate_provider (codes " Bank ") ≡ ok (codes "bank")
unfolding validate_provider is_provider strip lower
bank_named = refl

tolerance_read : bounded_tolerance (some (pos 300)) ≡ ok 300
unfolding bounded_tolerance
tolerance_read = refl

secret_found : resolve_webhook_secret signing bank (some credential) ≡ ok credential
unfolding resolve_webhook_secret payment_secret_scope validate_provider is_provider strip lower
secret_found = refl

bank_row : first (in_force 1 (codes "bank")) (bank ∷ []) ≡ some bank
unfolding text_eq
bank_row = refl

verify_payment_webhook_iff_example :
    (verify_payment_webhook signing
        (some (pos 300))
        1
        (codes " Bank ")
        body
        (codes "1005")
        (codes "v1=0")
        1200
        (bank ∷ [])
        (some credential)
      ≡ ok (bank, 77, 78))
    ↔ ((distance 1200 (pos 1004) ≤ 300)
        × (codes "v1=0"
            ≡ codes "v1=" ++ signing.hmac_hex credential (codes "1005" ++ codes "." ++ body)))
verify_payment_webhook_iff_example =
    verify_payment_webhook_iff signing (some (pos 300)) 1 (codes " Bank ") body (codes "1005")
      (codes "v1=0") 1200 (bank ∷ []) (some credential) (λ secret message. refl) (codes "bank") bank
      (pos 1004) 300 credential bank_named bank_row refl tolerance_read secret_found

abbrev delivery : Text → PaymentDelivery
delivery timestamp = record {
  tenant_id = 1;
  provider = codes " Bank ";
  raw_body = body;
  timestamp = timestamp;
  signature = sign_payment_webhook signing credential timestamp body;
  event_id = paid.event_id;
  event_type = paid.event_type;
  amount_cents = paid.amount_cents;
  is_cny = paid.is_cny;
  occurred_at = paid.occurred_at;
  case_id = paid.case_id;
  original_event_id = paid.original_event_id;
}

abbrev PassesCheck : (timestamp : Text) (at : ℕ) → Type 0
PassesCheck timestamp at =
    verify_payment_webhook signing (some (pos 300)) 1 (codes " Bank ") body timestamp
      (sign_payment_webhook signing credential timestamp body) at (bank ∷ []) (some credential)
    ≡ ok (bank, 77, 78)

signed_once : PassesCheck (codes "1005") 1100
unfolding verify_payment_webhook validate_provider is_provider bounded_tolerance strip lower text_eq
    resolve_webhook_secret payment_secret_scope sign_payment_webhook
signed_once = refl

signed_anew : PassesCheck (codes "10055") 1200
unfolding verify_payment_webhook validate_provider is_provider bounded_tolerance strip lower text_eq
    resolve_webhook_secret payment_secret_scope sign_payment_webhook
signed_anew = refl

received :
    receive_payment_webhook signing hashes
      (λ p. 9)
      (some (pos 300))
      (delivery (codes "1005"))
      1100
      now
      (bank ∷ [])
      (some credential)
      ledger
    ≡ ok (receipt_in (accept_payment_webhook hashes paid now ledger), false, ledger_paid)
unfolding receive_payment_webhook event_of
received = rw (signed_once, tolerance_read) (ap or_denied paid_accepted)

-- The later delivery has another time and another signature.
receive_payment_webhook_again_example :
    receive_payment_webhook signing hashes
      (λ p. 9)
      (some (pos 300))
      (delivery (codes "10055"))
      1200
      (now + 5)
      (bank ∷ [])
      (some credential)
      ledger_paid
    ≡ ok (
      count_duplicate (receipt_in (accept_payment_webhook hashes paid now ledger)) (now + 5),
      true,
      record ledger_paid {
        receipts =
            write_receipt
              (count_duplicate
                (receipt_in (accept_payment_webhook hashes paid now ledger))
                (now + 5))
              ledger_paid.receipts;
      },
    )
receive_payment_webhook_again_example =
    receive_payment_webhook_again signing hashes (λ p. 9) (some (pos 300)) (some (pos 300))
      (delivery (codes "1005")) (delivery (codes "10055")) 1100 1200 now (now + 5) (bank ∷ [])
      (bank ∷ []) (some credential) (some credential) ledger ledger_paid
      (receipt_in (accept_payment_webhook hashes paid now ledger)) false (bank, 77, 78) received
      refl refl refl refl signed_anew
