-- ===== src/Ledger/Delivered.antt =====
-- A payment event that is delivered again is booked once.
use luheng_fulfillops_cloud.Base.{
  ◌&&◌, ◌>>=◌, ℕ, ◌≡◌, refl, sym, ap, ◌∙◌, subst, Bool, true, Option, some, List, ◌==◌, Text,
  text_eq, ok, err, Result, Returned, Returned-ok, first,
}
use luheng_fulfillops_cloud.Base.Int.{ℤ}
use luheng_fulfillops_cloud.Ledger.Rows.{LedgerCode, LedgerDb, Hashes, PaymentReceipt}
use luheng_fulfillops_cloud.Ledger.Reconcile.{write_receipt}
use luheng_fulfillops_cloud.Ledger.Signature.{
  PaymentWebhookConfig, WebhookCode, Signing, bounded_tolerance, verify_payment_webhook,
}
use luheng_fulfillops_cloud.Ledger.Signed.{Verified, verify_payment_webhook-Verified}
use luheng_fulfillops_cloud.Ledger.Webhook.{
  VerifiedEvent, find_receipt, count_duplicate, accept_known, accept_payment_webhook,
}
use luheng_fulfillops_cloud.Ledger.Duplicates.{IsStored, Stored, accept_payment_webhook-IsStored}
use luheng_fulfillops_cloud.Ledger.Delivery.{
  PaymentDelivery, DeliveryCode, or_refused, or_denied, event_of, receive_payment_webhook,
}

unfoldable numbered : ℕ → Text → Text → LedgerDb → Option PaymentReceipt
numbered tenant_id provider event_id db =
    first
      (λ (r : PaymentReceipt).
        r.tenant_id == tenant_id
        && text_eq r.provider provider
        && text_eq r.provider_event_id event_id)
      db.receipts

numbered_alike :
    {i i' : ℕ} {p p' n n' : Text} (db : LedgerDb)
    → i' ≡ i
    → p' ≡ p
    → n' ≡ n
    → numbered i' p' n' db ≡ numbered i p n db
numbered_alike db a b c = cc (a, b, c)

same_event :
    (e e' : VerifiedEvent) (db : LedgerDb)
    → e'.tenant_id ≡ e.tenant_id
    → e'.provider ≡ e.provider
    → e'.event_id ≡ e.event_id
    → find_receipt db e' ≡ find_receipt db e
unfolding find_receipt
same_event e e' db tenant provider event =
    unfold numbered in numbered_alike db tenant provider event

-- An event of the same number and content as a stored one is answered by its receipt.
known_again :
    (hashes : Hashes) (e e' : VerifiedEvent) (r : PaymentReceipt) (later : ℕ) (db : LedgerDb)
    → IsStored e r db
    → e'.tenant_id ≡ e.tenant_id
    → e'.provider ≡ e.provider
    → e'.event_id ≡ e.event_id
    → e'.payload_digest ≡ e.payload_digest
    → accept_payment_webhook hashes e' later db
      ≡ ok (
        count_duplicate r later,
        true,
        record db { receipts = write_receipt (count_duplicate r later) db.receipts },
      )
unfolding accept_payment_webhook accept_known
known_again hashes e e' r later db s tenant provider event content =
    let found : find_receipt db e' ≡ some r = same_event e e' db tenant provider event ∙ s.found in
    let same : (r.payload_digest == e'.payload_digest) ≡ true =
      subst (λ n. (r.payload_digest == n) ≡ true) (sym content) s.same in
    rw (found, accept_payment_webhook) (rw same refl)

or_refused_then :
    {A B : Type 0} (P : B → Type 0) (m : Result WebhookCode A) (f : A → Result DeliveryCode B)
    → ((a : A) → m ≡ ok a → Returned P (f a))
    → Returned P (or_refused m >>= f)
or_refused_then P (ok a) f h = h a refl
or_refused_then P (err e) f h = tt

or_denied_last :
    {A : Type 0} (P : A → Type 0) (m : Result LedgerCode A)
    → ((a : A) → m ≡ ok a → P a)
    → Returned P (or_denied m)
or_denied_last P (ok a) h = h a refl
or_denied_last P (err e) h = tt

-- A delivery that is received: it was verified, and its event is accepted.
receive_parts :
    {Vault : Type 0} (k : Signing Vault) (hashes : Hashes) (webhook_actor : Text → ℕ)
    (tolerance : Option ℤ) (d : PaymentDelivery) (s now : ℕ) (configs : List PaymentWebhookConfig)
    (vault : Vault) (db : LedgerDb)
    → Returned
        (λ (w : PaymentReceipt × Bool × LedgerDb).
          (c : PaymentWebhookConfig) × (x : ℕ) × (y : ℕ) × (n : ℕ) × (verify_payment_webhook k
              tolerance d.tenant_id d.provider d.raw_body d.timestamp d.signature s configs vault
            ≡ ok (c, x, y))
          × (accept_payment_webhook hashes (event_of webhook_actor d c x y n) now db ≡ ok w))
        (receive_payment_webhook k hashes webhook_actor tolerance d s now configs vault db)
unfolding receive_payment_webhook
receive_parts k hashes webhook_actor tolerance d s now configs vault db =
    let P = λ (w : PaymentReceipt × Bool × LedgerDb).
      (c : PaymentWebhookConfig) × (x : ℕ) × (y : ℕ) × (n : ℕ) × (verify_payment_webhook k tolerance
          d.tenant_id d.provider d.raw_body d.timestamp d.signature s configs vault
        ≡ ok (c, x, y))
      × (accept_payment_webhook hashes (event_of webhook_actor d c x y n) now db ≡ ok w) in
    or_refused_then P
      (verify_payment_webhook k tolerance d.tenant_id d.provider d.raw_body d.timestamp d.signature
        s configs vault)
      _
      (λ (c, x, y) checked. or_refused_then P (bounded_tolerance tolerance) _ (λ n _.
        or_denied_last P (accept_payment_webhook hashes (event_of webhook_actor d c x y n) now db)
          (λ w accepted. (c, x, y, n, checked, accepted))))

-- A delivery that was received, and a later one for the tenant and the provider with the same event and the same body:
-- if the later one is verified, whenever and however it is signed, it is answered with the receipt of the first as a
-- duplicate, and nothing changes but the count of the duplicates of the receipt and its time.
pub receive_payment_webhook_again :
    {Vault : Type 0} (k : Signing Vault) (hashes : Hashes) (webhook_actor : Text → ℕ)
    (tolerance tolerance' : Option ℤ) (d d' : PaymentDelivery) (s s' now later : ℕ)
    (configs configs' : List PaymentWebhookConfig) (vault vault' : Vault) (db db' : LedgerDb)
    (r : PaymentReceipt) (duplicate : Bool) (verified : PaymentWebhookConfig × ℕ × ℕ)
    → receive_payment_webhook k hashes webhook_actor tolerance d s now configs vault db
      ≡ ok (r, duplicate, db')
    → d'.tenant_id ≡ d.tenant_id
    → d'.provider ≡ d.provider
    → d'.event_id ≡ d.event_id
    → d'.raw_body ≡ d.raw_body
    → verify_payment_webhook k tolerance' d'.tenant_id d'.provider d'.raw_body d'.timestamp
        d'.signature s' configs' vault'
      ≡ ok verified
    → receive_payment_webhook k hashes webhook_actor tolerance' d' s' later configs' vault' db'
      ≡ ok (
        count_duplicate r later,
        true,
        record db' { receipts = write_receipt (count_duplicate r later) db'.receipts },
      )
unfolding receive_payment_webhook
receive_payment_webhook_again k hashes webhook_actor tolerance tolerance' d d' s s' now later
      configs configs' vault vault' db db' r duplicate verified done tenant provider event body
      again =
    let (c, x, y, n, checked, accepted) =
      Returned-ok _ _ (receive_parts k hashes webhook_actor tolerance d s now configs vault db)
        done in
    let v =
      Returned-ok
        (Verified k tolerance d.tenant_id d.provider d.raw_body d.timestamp d.signature s configs
          vault)
        _
        (verify_payment_webhook-Verified k tolerance d.tenant_id d.provider d.raw_body d.timestamp
          d.signature s configs vault)
        checked in
    let v' =
      Returned-ok
        (Verified k tolerance' d'.tenant_id d'.provider d'.raw_body d'.timestamp d'.signature s'
          configs' vault')
        _
        (verify_payment_webhook-Verified k tolerance' d'.tenant_id d'.provider d'.raw_body
          d'.timestamp d'.signature s' configs' vault')
        again in
    let e = event_of webhook_actor d c x y n in
    let stored =
      Returned-ok (Stored hashes e) _ (accept_payment_webhook-IsStored hashes e now db) accepted in
    let same_provider : verified.0.provider ≡ c.provider = cc (v.named, v'.named, provider) in
    let same_content : verified.1 ≡ x = v'.digest ∙ ap k.sha body ∙ sym v.digest in
    rw (again, v'.bounded)
      (ap or_denied (
        known_again hashes e (event_of webhook_actor d' verified.0 verified.1 verified.2 v'.seconds)
          r later db' stored (unfold event_of in tenant) (unfold event_of in same_provider)
          (unfold event_of in event) (unfold event_of in same_content)))
