-- ===== src/Gate/Opening.antt =====
-- How the gate is opened: a self-test that passes, and the services enabled.
use luheng_fulfillops_cloud.Base.{
  ℕ, ◌+◌, ◌*◌, ◌<◌, ◌≡◌, refl, Bool, true, Option, none, some, List, arith, first, first_holds,
  first-append_new, first-update_kept, update, all, length, option_eq, hour, ok, ◌==◌, ◌&&◌, lt→ltb,
}
use luheng_fulfillops_cloud.Services.{
  ServiceType, agent, model, voice, phone, ServiceConfig, IntegrationState,
}
use luheng_fulfillops_cloud.Gate.Rows.{SelfTestReport, GateDb, is_passed}
use luheng_fulfillops_cloud.Gate.Services.{
  version_in, service_versions, versions_match, configs_of, is_state, is_report, last_report,
  report_matches, expires_later, gate_for,
}
use luheng_fulfillops_cloud.Gate.Integration.{
  passes, self_test_report, tested_state, run_self_test, enabled_state, may_enable,
  enable_integrations,
}
use luheng_fulfillops_cloud.Gate.Readiness.{put_state_found}

option_eq_refl : (o : Option ℕ) → option_eq o o ≡ true
option_eq_refl none = refl
option_eq_refl (some a) = ground arith

-- The versions of four services match the snapshot that is taken of them.
versions_match_self :
    (configs : List ServiceConfig)
    → length (service_versions configs) ≡ 4
    → versions_match configs (some (service_versions configs)) ≡ true
unfolding versions_match
versions_match_self configs four =
    let same = λ (k : ServiceType). option_eq_refl (version_in k (service_versions configs)) in
    rw (four, same agent, same model, same voice, same phone) refl

abbrev pub all_up : List ServiceConfig → Bool
all_up configs =
    length configs == 4
    && all (λ (c : ServiceConfig). c.saved) configs
    && all (λ (c : ServiceConfig). c.connected) configs

-- The gate may be opened where the last report passed on the versions that are configured and has not expired.
gate_for_open :
    (db : GateDb) (t now : ℕ) (s : IntegrationState) (r : SelfTestReport)
    → first (is_state t) db.states ≡ some s
    → last_report db (some s) ≡ some r
    → (is_passed r.status && versions_match (configs_of db t) (some r.service_versions)) ≡ true
    → now < r.expires_at
    → all_up (configs_of db t) ≡ true
    → (may_enable (gate_for db t now) ≡ true)
      × ((s.enabled && versions_match (configs_of db t) s.enabled_service_versions) ≡ true
          → (gate_for db t now).ready ≡ true)
unfolding gate_for
gate_for_open db t now s r state report current fresh up =
    let test : report_matches (configs_of db t) (last_report db (some s)) ≡ true =
      rw report current in
    let in_time : expires_later now (last_report db (some s)) ≡ true =
      rw report (lt→ltb _ _ fresh) in
    rw state
      (ground (arith, test, in_time, up), λ enabled. ground (arith, test, in_time, up, enabled))

-- Where a tenant has four services of different types that are saved and connected and whose self-test passes, and
-- the key of the report is new, then after the self-test the services can be enabled at any time of the next
-- 24 hours, and the gate is then ready at any time until the 24 hours have passed.
pub enable_after_self_test :
    (t actor_id now later at : ℕ) (db : GateDb)
    → passes (configs_of db t) ≡ true
    → all_up (configs_of db t) ≡ true
    → length (service_versions (configs_of db t)) ≡ 4
    → first (is_report db.next_id) db.reports ≡ none
    → later < now + 24 * hour
    → at < now + 24 * hour
    → (db' : GateDb) × (enable_integrations t actor_id true later (run_self_test t now db) ≡ ok db')
      × ((gate_for db' t at).ready ≡ true)
unfolding run_self_test self_test_report enable_integrations
enable_after_self_test t actor_id now later at db pass up four new in_time within =
    let cs = configs_of db t in
    let tested = run_self_test t now db in
    let report = self_test_report cs t db.next_id now in
    let (s, found) = put_state_found t (tested_state db.next_id) db.states (λ _. refl) in
    let reported : first (is_report db.next_id) tested.reports ≡ some report =
      first-append_new (is_report db.next_id) db.reports report new (ground arith) in
    let matches = versions_match_self cs four in
    let current : (is_passed report.status && versions_match cs (some report.service_versions))
        ≡ true =
      rw (pass, matches) refl in
    let may =
      gate_for_open tested t later (tested_state db.next_id s) report found reported current in_time
        up in
    let f = enabled_state (service_versions cs) actor_id later in
    let enabled : GateDb = record tested { states = update (is_state t) f tested.states } in
    let state : first (is_state t) enabled.states ≡ some (f (tested_state db.next_id s)) =
      rw
        (
          first-update_kept (is_state t) (is_state t) f tested.states (λ _. refl),
          found,
          first_holds (is_state t) tested.states found,
        )
        refl in
    (
      enabled,
      rw may.0 refl,
      (gate_for_open enabled t at (f (tested_state db.next_id s)) report state reported current
            within up).1
          matches,
    )
