-- ===== src/Ledger/Signed.antt =====
-- Which deliveries of a payment webhook are verified.
use luheng_fulfillops_cloud.Base.{
  ℕ, ◌≡◌, ◌≤◌, ◌↔◌, refl, sym, ap, subst, true, false, not, some, List, ◌++◌, arith, ltb, first,
  first_holds, Text, text_eq, text_eq→eq, text_eq_refl, codes, ok, Returned, Returned->>=,
  Returned-ok, Returned-raise_if, Returned-or_raise, ◌∙◌, Option,
}
use luheng_fulfillops_cloud.Base.Int.{ℤ}
use luheng_fulfillops_cloud.Ledger.Signature.{
  PaymentWebhookConfig, webhook_not_configured, invalid_signature_timestamp, signature_expired,
  invalid_signature, Signing, validate_provider, bounded_tolerance, in_force, sign_payment_webhook,
  is_hex, is_signature, distance, resolve_webhook_secret, verify_payment_webhook,
}

module _ {Vault : Type 0} (k : Signing Vault) (tolerance : Option ℤ) (t : ℕ)
    (provider raw_body timestamp signature : Text) (now : ℕ) (configs : List PaymentWebhookConfig)
    (vault : Vault) where
  -- What a delivery that is verified has shown.
  pub record Verified (w : PaymentWebhookConfig × ℕ × ℕ) : Type 0 where
    pub named : validate_provider provider ≡ ok w.0.provider
    pub digest : w.1 ≡ k.sha raw_body
    pub seconds : ℕ
    pub bounded : bounded_tolerance tolerance ≡ ok seconds
    pub signed_at : ℤ
    pub read : k.read_int timestamp ≡ some signed_at
    pub in_time : distance now signed_at ≤ seconds
    pub secret : Text
    pub resolved : resolve_webhook_secret k w.0 vault ≡ ok secret
    pub signed : signature ≡ codes "v1=" ++ k.hmac_hex secret (timestamp ++ codes "." ++ raw_body)

  pub verify_payment_webhook-Verified :
      Returned Verified (
        verify_payment_webhook k tolerance t provider raw_body timestamp signature now configs
          vault)
  unfolding verify_payment_webhook sign_payment_webhook
  verify_payment_webhook-Verified = Returned->>= Verified (validate_provider provider) _ (λ p named.
      Returned-or_raise Verified (first (in_force t p) configs) webhook_not_configured _
        (λ config found.
          Returned-or_raise Verified (k.read_int timestamp) invalid_signature_timestamp _
            (λ signed_at read.
              Returned->>= Verified (bounded_tolerance tolerance) _ (λ seconds bounded.
                Returned-raise_if Verified (ltb seconds (distance now signed_at)) signature_expired
                  _
                  (λ fresh.
                    Returned-raise_if Verified (not (is_signature signature)) invalid_signature _
                      (λ _.
                        Returned->>= Verified (resolve_webhook_secret k config vault) _
                          (λ secret resolved.
                            Returned-raise_if Verified
                              (not (
                                text_eq (sign_payment_webhook k secret timestamp raw_body)
                                  signature))
                              invalid_signature _
                              (λ same.
                                let hit = first_holds (in_force t p) configs found in
                                record {
                                  named =
                                      named
                                      ∙ ap ok (
                                          sym (text_eq→eq config.provider p (ground (arith, hit))));
                                  digest = refl;
                                  seconds = seconds;
                                  bounded = bounded;
                                  signed_at = signed_at;
                                  read = read;
                                  in_time = ground (arith, fresh);
                                  secret = secret;
                                  resolved = resolved;
                                  signed = sym (text_eq→eq _ signature (ground (arith, same)));
                                }))))))))

  -- Where the provider has a configuration in force whose secret is found, the time of the delivery
  -- is a number, the tolerance is valid and the hash is written in 64 hexadecimal digits, a delivery
  -- is verified against that configuration exactly if its time is within the tolerance and its
  -- signature is version v1 of the hash, under that secret, of the time, a full stop and the body.
  pub verify_payment_webhook_iff :
      ((secret message : Text) → is_hex (k.hmac_hex secret message) ≡ true)
      → (p : Text) (config : PaymentWebhookConfig) (signed_at : ℤ) (seconds : ℕ) (secret : Text)
      → validate_provider provider ≡ ok p
      → first (in_force t p) configs ≡ some config
      → k.read_int timestamp ≡ some signed_at
      → bounded_tolerance tolerance ≡ ok seconds
      → resolve_webhook_secret k config vault ≡ ok secret
      → (verify_payment_webhook k tolerance t provider raw_body timestamp signature now configs
            vault
          ≡ ok (config, k.sha raw_body, k.sha signature))
        ↔ ((distance now signed_at ≤ seconds)
            × (signature ≡ codes "v1=" ++ k.hmac_hex secret (timestamp ++ codes "." ++ raw_body)))
  unfolding verify_payment_webhook sign_payment_webhook
  verify_payment_webhook_iff hex p config signed_at seconds secret named found read bounded
        resolved =
      (
        (λ done.
            let v = Returned-ok Verified _ verify_payment_webhook-Verified done in
            let same_time : v.signed_at ≡ signed_at = cc (v.read, read) in
            let same_seconds : v.seconds ≡ seconds = cc (v.bounded, bounded) in
            let same_secret : v.secret ≡ secret = cc (v.resolved, resolved) in
            (
              subst (λ s. distance now signed_at ≤ s) same_seconds
                  (subst (λ z. distance now z ≤ v.seconds) same_time v.in_time),
              subst
                  (λ s.
                    signature ≡ codes "v1=" ++ k.hmac_hex s (timestamp ++ codes "." ++ raw_body))
                  same_secret v.signed,
            )),
        (λ w.
            let fresh : ltb seconds (distance now signed_at) ≡ false =
              (let h = w.0 in ground (arith, h)) in
            let message = timestamp ++ codes "." ++ raw_body in
            rw
              (
                w.1,
                named,
                found,
                read,
                bounded,
                fresh,
                hex secret message,
                resolved,
                text_eq_refl (sign_payment_webhook k secret timestamp raw_body),
              )
              refl),
      )
