-- ===== src/Gate/Readiness.antt =====
-- What closes the gate: a service that is saved anew.
use luheng_fulfillops_cloud.Base.{
  Bool-cases, select, update, is_some, Result, ℕ, ◌≡◌, refl, inl, inr, Bool, true, false, not,
  Option, none, some, List, [], ◌∷◌, arith, first, first_holds, first-append_new, first-update_kept,
  all, Returned, Returned->>=, Returned-raise_if, Returned-or_raise, Option-cases, ◌==◌, ◌&&◌,
}
use luheng_fulfillops_cloud.Services.{ServiceType, Settings, ServiceConfig, IntegrationState}
use luheng_fulfillops_cloud.Gate.Rows.{
  GateDb, model_policy_invalid, config_missing, GateCode, unknown_service, credential_required,
  test_failed,
}
use luheng_fulfillops_cloud.Gate.Services.{
  required_settings, validate_service_settings, configs_of, is_state, gate_for,
  invalidate_integration,
}
use luheng_fulfillops_cloud.Gate.Integration.{
  blank_state, put_state, is_service, ServiceUpsert, is_model, add_service, next_secret,
  save_service, run_connection_test, run_self_test, enable_integrations, may_enable,
}

-- What is written to a tenant's state is found there.
pub put_state_found :
    (t : ℕ) (f : IntegrationState → IntegrationState) (states : List IntegrationState)
    → ((s : IntegrationState) → (f s).tenant_id ≡ s.tenant_id)
    → (s : IntegrationState) × (first (is_state t) (put_state t f states) ≡ some (f s))
unfolding put_state
put_state_found t f states keeps = elim (Option-cases (first (is_state t) states)) [
  | inl e ↦ (
    blank_state t,
    rw (e, put_state)
        (first-append_new (is_state t) states (f (blank_state t)) e
          (ground (arith, keeps (blank_state t)))),
  )
  | inr (s, e) ↦ (
    s,
    rw (e, put_state)
        (rw
          (
            first-update_kept (is_state t) (is_state t) f states (λ s. ground (arith, keeps s)),
            e,
            first_holds (is_state t) states e,
          )
          refl),
  )
]

-- The services cannot be enabled.
abbrev pub IsRefused : Result GateCode GateDb → Type 0
IsRefused m = Returned (λ _. ⊥) m

not_enabled :
    (t actor_id now : ℕ) (db : GateDb)
    → may_enable (gate_for db t now) ≡ false
    → IsRefused (enable_integrations t actor_id true now db)
unfolding enable_integrations
not_enabled t actor_id now db closed = rw closed tt

-- Without a self-test since the state was written, the gate may not be opened.
untested_closed :
    (t now : ℕ) (db : GateDb) (s : IntegrationState)
    → first (is_state t) db.states ≡ some s
    → s.last_self_test_id ≡ none
    → may_enable (gate_for db t now) ≡ false
unfolding gate_for
untested_closed t now db s e untested = rw (e, untested) (ground arith)

-- With a service that is not connected, the gate may not be opened.
disconnected_closed :
    (t now : ℕ) (db : GateDb)
    → all (λ (c : ServiceConfig). c.connected) (configs_of db t) ≡ false
    → may_enable (gate_for db t now) ≡ false
unfolding gate_for
disconnected_closed t now db off = ground (arith, off)

update_disconnects :
    (t : ℕ) (k : ServiceType) (f : ServiceConfig → ServiceConfig) (cs : List ServiceConfig)
    {config : ServiceConfig}
    → first (is_service t k) cs ≡ some config
    → ((c : ServiceConfig) → (f c).connected ≡ false)
    → ((c : ServiceConfig) → (f c).tenant_id ≡ c.tenant_id)
    → all
        (λ (c : ServiceConfig). c.connected)
        (select (λ (c : ServiceConfig). c.tenant_id == t) (update (is_service t k) f cs))
      ≡ false
update_disconnects t k f [] e off same = absurd (cc e)
update_disconnects t k f (c ∷ cs) e off same = elim (Bool-cases (is_service t k c)) [
  | inl hit ↦ ground (arith, hit, off c, same c)
  | inr miss ↦ ground (arith, miss, update_disconnects t k f cs (rw miss at e) off same)
]

-- A self-test does not open the gate while a service is not connected.
tested_alone :
    (t actor_id now later : ℕ) (db : GateDb)
    → all (λ (c : ServiceConfig). c.connected) (configs_of db t) ≡ false
    → IsRefused (enable_integrations t actor_id true later (run_self_test t now db))
unfolding run_self_test
tested_alone t actor_id now later db off =
    not_enabled t actor_id later _ (disconnected_closed t later _ off)

-- A test of a connection does not open the gate without a self-test.
connected_alone :
    (t actor_id later : ℕ) (test_service : ServiceConfig → Bool) (k : ServiceType) (db : GateDb)
    (s : IntegrationState)
    → first (is_state t) db.states ≡ some s
    → s.last_self_test_id ≡ none
    → Returned
        (λ (tested : GateDb). IsRefused (enable_integrations t actor_id true later tested))
        (run_connection_test test_service t k db)
unfolding run_connection_test
connected_alone t actor_id later test_service k db s e untested =
    let Refused = λ (w : GateDb). IsRefused (enable_integrations t actor_id true later w) in
    Returned-raise_if Refused (not (is_some (required_settings k))) unknown_service _ (λ _.
      Returned-or_raise Refused (first (is_service t k) db.configs) config_missing _
        (λ (c : ServiceConfig) _.
          Returned->>= Refused (validate_service_settings k c.settings) _ (λ _ _.
            Returned-raise_if Refused (not (is_some c.secret_ref)) credential_required _ (λ _.
              Returned-raise_if Refused (not (test_service c)) test_failed _
                (λ _. not_enabled t actor_id later _ (untested_closed t later _ s e untested))))))

-- A service that was saved has to be tested and enabled again: the gate of its tenant is not ready then; after a
-- self-test alone the services cannot be enabled, since the one that was saved is not connected; nor can they after a
-- test of a connection alone, since the last self-test is forgotten.
pub save_service_closes :
    (model_policy_settings : ℕ → Settings → Bool)
    (store_secret : (credential : ℕ) → (previous : Option ℕ) → Option ℕ) (r : ServiceUpsert)
    (db : GateDb) (test_service : ServiceConfig → Bool) (service_type : ServiceType)
    (actor_id now later : ℕ)
    → let t = r.tenant_id in
      Returned
        (λ (db' : GateDb).
          ((gate_for db' t now).ready ≡ false)
          × IsRefused (enable_integrations t actor_id true later (run_self_test t now db'))
          × Returned
              (λ (tested : GateDb). IsRefused (enable_integrations t actor_id true later tested))
              (run_connection_test test_service t service_type db'))
        (save_service model_policy_settings store_secret r db)
unfolding save_service gate_for
save_service_closes model_policy_settings store_secret r db test_service service_type actor_id now
      later =
    let t = r.tenant_id in
    let Refused = λ (w : GateDb). IsRefused (enable_integrations t actor_id true later w) in
    let Closed = λ (db' : GateDb).
      ((gate_for db' t now).ready ≡ false)
      × Refused (run_self_test t now db')
      × Returned Refused (run_connection_test test_service t service_type db') in
    Returned->>= Closed (validate_service_settings r.service_type r.settings) _ (λ _ _.
      Returned-raise_if Closed
        (is_model r.service_type && not (model_policy_settings r.provider r.settings))
        model_policy_invalid _
        (λ _.
          Returned-or_raise Closed
            (first (is_service r.tenant_id r.service_type) (add_service r db.configs))
            config_missing _
            (λ (config : ServiceConfig) present.
              Returned->>= Closed
                (next_secret model_policy_settings store_secret r config.secret_ref) _
                (λ secret _.
                  let (s, e) =
                    put_state_found r.tenant_id invalidate_integration db.states
                      (λ s. unfold invalidate_integration in refl) in
                  let forgotten : (invalidate_integration s).last_self_test_id ≡ none =
                    unfold invalidate_integration in refl in
                  (
                    unfold invalidate_integration in ground (arith, e),
                    tested_alone t actor_id now later _ (
                        update_disconnects t r.service_type _ (add_service r db.configs) present
                          (λ _. refl) (λ _. refl)),
                    connected_alone t actor_id later test_service service_type _ _ e forgotten,
                  )))))
