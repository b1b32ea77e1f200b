-- ===== src/Membership/Usage.antt =====
-- Usage is charged once for each key of its tenant.
use luheng_fulfillops_cloud.Base.{
  ℕ, ◌≡◌, refl, subst, sym, inl, inr, some, arith, first, first-append_new, text_eq_refl, ok,
  Returned, Returned-raise_if, Returned-or_raise, Returned-ok, Option-cases, ◌==◌,
}
use luheng_fulfillops_cloud.Membership.Rows.{
  UsageEvent, MembershipDb, meter_not_known, quantity_not_positive,
}
use luheng_fulfillops_cloud.Membership.Quota.{
  UsageRequest, unit_price, new_usage, is_usage, store_usage, record_usage_event,
}

-- The event that is returned is in the table under the request's key.
abbrev pub IsFound : UsageRequest → UsageEvent × MembershipDb → Type 0
IsFound r w = first (is_usage r.tenant_id r.idempotency_key) w.1.usage_events ≡ some w.0

record_usage_event-IsFound :
    (r : UsageRequest) (now : ℕ) (db : MembershipDb)
    → Returned (IsFound r) (record_usage_event r now db)
unfolding record_usage_event store_usage new_usage
record_usage_event-IsFound r now db =
    elim (Option-cases (first (is_usage r.tenant_id r.idempotency_key) db.usage_events)) [
      | inr (existing, e) ↦ rw (e, record_usage_event) e
      | inl e ↦
          rw (e, record_usage_event)
            (Returned-or_raise (IsFound r) (unit_price r.meter) meter_not_known _ (λ price _.
              Returned-raise_if (IsFound r) (r.quantity == 0) quantity_not_positive _ (λ _.
                first-append_new (is_usage r.tenant_id r.idempotency_key) db.usage_events
                  (new_usage r price now) e (ground (arith, text_eq_refl r.idempotency_key)))))
    ]

-- An event of usage that was recorded is what a later request of the same tenant with the same key is
-- answered with, whatever else it asks for and whenever, and nothing is charged again.
pub record_usage_event_once :
    (r : UsageRequest) (now : ℕ) (db db' : MembershipDb) (event : UsageEvent)
    → record_usage_event r now db ≡ ok (event, db')
    → (again : UsageRequest) (later : ℕ) → again.tenant_id ≡ r.tenant_id
    → again.idempotency_key ≡ r.idempotency_key
    → record_usage_event again later db' ≡ ok (event, db')
unfolding record_usage_event
record_usage_event_once r now db db' event done again later same_tenant same_key =
    let found = Returned-ok (IsFound r) _ (record_usage_event-IsFound r now db) done in
    let same : first (is_usage again.tenant_id again.idempotency_key) db'.usage_events
        ≡ some event =
      subst (λ t. first (is_usage t again.idempotency_key) db'.usage_events ≡ some event)
        (sym same_tenant)
        (subst (λ k. first (is_usage r.tenant_id k) db'.usage_events ≡ some event) (sym same_key)
          found) in
    rw (same, record_usage_event) refl
