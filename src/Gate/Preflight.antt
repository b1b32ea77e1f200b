-- ===== src/Gate/Preflight.antt =====
-- `goal_matches` and `activity_preflight` of backend/app/domain.py: which cases an activity may take, and
-- whether it may use the channels. Budgets are numbers of micro-yuan.
use luheng_fulfillops_cloud.Base.{
  ℕ, ◌&&◌, Bool, true, false, not, Option, none, some, List, [], ◌∷◌, ◌++◌, ltb, ◌==◌,
  if◌then◌else◌, first, any, select, length, is_some, map, Text, text_eq, Result, ok, ◌>>=◌, ◌>>◌,
  raise_if, or_raise,
}
use luheng_fulfillops_cloud.Cases.{
  CaseStatus, CaseRecord, CaseFinancialProfile, AssetPackage, PolicyStatus, published, draft,
  awaiting_contact, plan_to_sign, payment_to_match, payment_failed, payment_processing,
  natural_recovery, recovery_confirmed, settled, period_paid,
}
use luheng_fulfillops_cloud.Repayment.Rows.{of_case}
use luheng_fulfillops_cloud.Protection.Rows.{Activity, is_under_way}
use luheng_fulfillops_cloud.Ledger.Rows.{CommissionRule}
use luheng_fulfillops_cloud.Ledger.Terms.{is_active_rule}
use luheng_fulfillops_cloud.Gate.Rows.{GateDb}
use luheng_fulfillops_cloud.Gate.Services.{gate_for}

-- "已签协议履约", "首次联络与意愿确认" and "回款自动核对"; `other_goal` stands for any other text.
pub data Goal : Type 0 where
  signed_agreement first_contact payment_check other_goal : Goal

abbrev is_first_contact : CaseStatus → Bool
is_first_contact awaiting_contact = true
is_first_contact plan_to_sign = true
is_first_contact _ = false

abbrev is_payment_check : CaseStatus → Bool
is_payment_check payment_to_match = true
is_payment_check payment_failed = true
is_payment_check payment_processing = true
is_payment_check natural_recovery = true
is_payment_check recovery_confirmed = true
is_payment_check _ = false

unfoldable pub goal_matches : CaseRecord → Goal → Bool
goal_matches c signed_agreement = c.has_signed_plan
goal_matches c first_contact = is_first_contact c.status
goal_matches c payment_check = is_payment_check c.status
goal_matches c other_goal = false

pub data RequestedMode : Type 0 where
  auto_mode sandbox_only channel_wanted : RequestedMode

abbrev pub is_sandbox_only : RequestedMode → Bool
is_sandbox_only sandbox_only = true
is_sandbox_only _ = false

abbrev is_channel_wanted : RequestedMode → Bool
is_channel_wanted channel_wanted = true
is_channel_wanted _ = false

pub data ResolvedMode : Type 0 where
  sandbox channel : ResolvedMode

pub data Exclusion : Type 0 where
  not_in_package protection_pause already_done in_flight goal_mismatch profile_missing : Exclusion
  no_balance mandate_not_begun mandate_over rule_inactive basis_missing : Exclusion

pub data Blocker : Type 0 where
  none_eligible policy_not_published gate_not_ready channel_not_possible : Blocker

pub data PreflightCode : Type 0 where
  package_not_found budget_exceeded : PreflightCode

pub record PreflightRequest : Type 0 where
  pub tenant_id : ℕ
  pub package_id : ℕ
  pub goal : Goal
  pub budget_yuan : ℕ
  pub case_ids : List Text
  pub requested_mode : RequestedMode

pub record PreflightDb : Type 0 where
  pub gate : GateDb
  pub packages : List AssetPackage
  pub cases : List CaseRecord
  pub profiles : List CaseFinancialProfile
  pub rules : List CommissionRule
  pub activities : List Activity

abbrev pub is_selected : PreflightRequest → CaseRecord → Bool
is_selected r c =
    c.tenant_id == r.tenant_id && c.package_id == r.package_id && any (text_eq c.case_id) r.case_ids

-- `case.case_id in in_flight_ids`
abbrev pub is_in_flight : PreflightDb → ℕ → Text → Bool
is_in_flight db tenant_id case_id =
    any
      (λ (a : Activity).
        a.tenant_id == tenant_id && is_under_way a.status && any (text_eq case_id) a.case_ids)
      db.activities

abbrev pub profile_of : PreflightDb → ℕ → Text → Option CaseFinancialProfile
profile_of db tenant_id case_id =
    first (λ (p : CaseFinancialProfile). of_case tenant_id case_id p.tenant_id p.case_id)
      db.profiles

-- `profile.commission_rule_id in active_rule_ids`
abbrev pub has_active_rule : PreflightDb → ℕ → ℕ → Bool
has_active_rule db tenant_id rule_id =
    any
      (λ (k : CommissionRule).
        k.tenant_id == tenant_id && is_active_rule k.status && k.rule_id == rule_id)
      db.rules

abbrev pub is_done : CaseStatus → Bool
is_done settled = true
is_done period_paid = true
is_done _ = false

-- The tests of a profile, and of the basis for contact after them.
abbrev pub profile_reason :
    PreflightDb → PreflightRequest → ℕ → CaseRecord → Option CaseFinancialProfile → Option Exclusion
profile_reason db r today c none = some profile_missing
profile_reason db r today c (some p) =
    if p.claim_balance_cents == 0
    then some no_balance
    else if ltb today p.mandate_start
    then some mandate_not_begun
    else if ltb p.mandate_end today
    then some mandate_over
    else if not (has_active_rule db r.tenant_id p.commission_rule_id)
    then some rule_inactive
    else if not (is_some c.contact_basis_ref)
    then some basis_missing
    else none

-- `reason`
unfoldable pub exclusion_reason :
    PreflightDb → PreflightRequest → (today : ℕ) → CaseRecord → Option Exclusion
exclusion_reason db r today c =
    if c.blocked
    then some protection_pause
    else if is_done c.status
    then some already_done
    else if is_in_flight db r.tenant_id c.case_id
    then some in_flight
    else if not (goal_matches c r.goal)
    then some goal_mismatch
    else profile_reason db r today c (profile_of db r.tenant_id c.case_id)

abbrev pub is_eligible : PreflightDb → PreflightRequest → ℕ → CaseRecord → Bool
is_eligible db r today c = not (is_some (exclusion_reason db r today c))

-- The cases that the loop appends to `excluded`.
abbrev pub excluded_cases :
    PreflightDb → PreflightRequest → ℕ → List CaseRecord → List (Text × Exclusion)
excluded_cases db r today [] = []
excluded_cases db r today (c ∷ cs) =
    let rest = excluded_cases db r today cs in
    elim (exclusion_reason db r today c) [ none ↦ rest | some e ↦ (c.case_id, e) ∷ rest ]

pub record Preflight : Type 0 where
  pub eligible_case_ids : List Text
  pub excluded : List (Text × Exclusion)
  pub policy_status : PolicyStatus
  pub policy_version : ℕ
  pub budget_limit_yuan : ℕ
  pub channel_ready : Bool
  pub production_ready : Bool
  pub resolved_mode : ResolvedMode
  pub blockers : List Blocker

abbrev pub is_published : PolicyStatus → Bool
is_published published = true
is_published draft = false

abbrev pub resolve_mode : RequestedMode → Bool → ResolvedMode
resolve_mode m production_ready =
    if is_sandbox_only m then sandbox else if production_ready then channel else sandbox

abbrev block_if : Bool → Blocker → List Blocker
block_if true b = b ∷ []
block_if false b = []

unfoldable pub preflight_result :
    PreflightDb → PreflightRequest → AssetPackage → (today now : ℕ) → Preflight
preflight_result db r pack today now =
    let chosen = select (is_selected r) db.cases in
    let eligible = map (λ (c : CaseRecord). c.case_id) (select (is_eligible db r today) chosen) in
    let missing =
      select (λ i. not (any (λ (c : CaseRecord). text_eq c.case_id i) chosen)) r.case_ids in
    let gate = gate_for db.gate r.tenant_id now in
    let has_policy = is_published pack.policy_status in
    let production_ready = gate.ready && has_policy && not (length eligible == 0) in
    record {
      eligible_case_ids = eligible;
      excluded = map (λ i. (i, not_in_package)) missing ++ excluded_cases db r today chosen;
      policy_status = pack.policy_status;
      policy_version = pack.policy_version;
      budget_limit_yuan = pack.budget_limit_yuan;
      channel_ready = gate.ready;
      production_ready = production_ready;
      resolved_mode = resolve_mode r.requested_mode production_ready;
      blockers =
          block_if (length eligible == 0) none_eligible
          ++ block_if (not has_policy) policy_not_published
          ++ block_if (not gate.ready) gate_not_ready
          ++ block_if (is_channel_wanted r.requested_mode && not production_ready)
              channel_not_possible;
    }

unfoldable pub activity_preflight :
    PreflightDb → PreflightRequest → (today now : ℕ) → Result PreflightCode Preflight
activity_preflight db r today now = do
  pack ←
      or_raise
        (first (λ (p : AssetPackage). p.tenant_id == r.tenant_id && p.package_id == r.package_id)
          db.packages)
        package_not_found
  raise_if (ltb pack.budget_limit_yuan r.budget_yuan) budget_exceeded
  ok (preflight_result db r pack today now)
