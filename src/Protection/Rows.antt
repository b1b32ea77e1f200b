-- ===== src/Protection/Rows.antt =====
-- The tables of the protection of cases, its categories and its errors: `ProtectionIncident` and
-- `Activity` of backend/app/models.py and `CATEGORY_POLICIES` of backend/app/protection_workflow.py.
use luheng_fulfillops_cloud.Base.{ℕ, Bool, true, false, Option, none, some, List, Text}
use luheng_fulfillops_cloud.Cases.{
  CaseRecord, CaseStatus, dispute_paused, stop_contact, identity_check, mandate_expired,
  data_missing, amount_check, authorization_missing, number_missing, budget_exhausted,
  channel_error, Decision,
}

-- The keys of `CATEGORY_POLICIES`. Where a key is also the name of a status of cases, the name here is
-- another: `stop_request` is "stop_contact", `mandate_end` "mandate_expired" and `budget`
-- "budget_exhausted". `unknown_category` stands for any other text.
pub data Category : Type 0 where
  dispute stop_request identity_conflict mandate_end data_quality amount_verification : Category
  authorization_gap contact_data budget channel_failure unknown_category : Category

pub data Priority : Type 0 where
  p0 p1 p2 : Priority

-- `permanent` is "permanent_hold".
pub data ReleasePolicy : Type 0 where
  maker_checker permanent renewal_evidence : ReleasePolicy

abbrev pub is_permanent : ReleasePolicy → Bool
is_permanent permanent = true
is_permanent _ = false

abbrev pub needs_renewal : ReleasePolicy → Bool
needs_renewal renewal_evidence = true
needs_renewal _ = false

pub record CategoryPolicy : Type 0 where
  pub priority : Priority
  pub release_policy : ReleasePolicy
  pub case_status : CaseStatus
  pub default_sla_hours : Option ℕ

abbrev policy_row : Priority → ReleasePolicy → CaseStatus → Option ℕ → Option CategoryPolicy
policy_row p r s h =
    some (record { priority = p; release_policy = r; case_status = s; default_sla_hours = h })

-- `CATEGORY_POLICIES.get(category)`
unfoldable pub category_policy : Category → Option CategoryPolicy
category_policy dispute = policy_row p0 maker_checker dispute_paused (some 4)
category_policy stop_request = policy_row p0 permanent stop_contact none
category_policy identity_conflict = policy_row p0 maker_checker identity_check (some 4)
category_policy mandate_end = policy_row p1 renewal_evidence mandate_expired (some 24)
category_policy data_quality = policy_row p1 maker_checker data_missing (some 24)
category_policy amount_verification = policy_row p1 maker_checker amount_check (some 8)
category_policy authorization_gap = policy_row p0 maker_checker authorization_missing (some 4)
category_policy contact_data = policy_row p2 maker_checker number_missing (some 24)
category_policy budget = policy_row p2 maker_checker budget_exhausted (some 8)
category_policy channel_failure = policy_row p2 maker_checker channel_error (some 8)
category_policy unknown_category = none

-- `opened` is "open".
pub data IncidentStatus : Type 0 where
  opened pending_review permanent_hold resolved : IncidentStatus

-- `status in ACTIVE_PROTECTION_STATUSES`
abbrev pub is_active_incident : IncidentStatus → Bool
is_active_incident resolved = false
is_active_incident _ = true

abbrev pub is_open : IncidentStatus → Bool
is_open opened = true
is_open _ = false

abbrev pub is_pending_review : IncidentStatus → Bool
is_pending_review pending_review = true
is_pending_review _ = false

abbrev pub is_resolved : IncidentStatus → Bool
is_resolved resolved = true
is_resolved _ = false

pub record ProtectionIncident : Type 0 where
  pub id : ℕ
  pub tenant_id : ℕ
  pub case_id : Text
  pub source_event_id : Text
  pub category : Category
  pub priority : Priority
  pub reason : Text
  pub opening_digest : ℕ
  pub owner : Text
  pub release_policy : ReleasePolicy
  pub status : IncidentStatus
  pub version : ℕ
  pub previous_case_status : CaseStatus
  pub sla_due_at : Option ℕ
  pub opened_by : ℕ
  pub opened_at : ℕ
  pub resolution_note : Option Text
  pub evidence_refs : List Text
  pub evidence_digest : Option ℕ
  pub proposed_by : Option ℕ
  pub proposed_at : Option ℕ
  pub reviewed_by : Option ℕ
  pub reviewed_at : Option ℕ
  pub review_note : Option Text
  pub resolved_at : Option ℕ
  pub case_released : Bool

pub data ActivityStatus : Type 0 where
  running paused blocked finished : ActivityStatus

abbrev pub is_under_way : ActivityStatus → Bool
is_under_way running = true
is_under_way paused = true
is_under_way _ = false

-- `protection_of` holds the event and the category that the preflight of a blocked activity names.
pub record Activity : Type 0 where
  pub tenant_id : ℕ
  pub case_ids : List Text
  pub status : ActivityStatus
  pub protection_of : Option (Text × Category)

pub data ProtectionCode : Type 0 where
  invalid_protection_category case_not_found protection_event_conflict permanent_protection :
      ProtectionCode
  protection_already_resolved evidence_required mandate_renewal_evidence_required : ProtectionCode
  resolution_review_in_progress protection_not_reviewable resolution_not_pending : ProtectionCode
  resolution_version_conflict maker_checker_conflict invalid_resolution_decision : ProtectionCode

pub data ProtectionAudit : Type 0 where
  incident_opened : (tenant_id actor_id incident_id affected : ℕ) → ProtectionAudit
  resolution_proposed : (tenant_id actor_id incident_id version : ℕ) → ProtectionAudit
  resolution_decided :
      (tenant_id actor_id incident_id version : ℕ) → Decision → Bool → ProtectionAudit

pub record ProtectionDb : Type 0 where
  pub cases : List CaseRecord
  pub incidents : List ProtectionIncident
  pub activities : List Activity
  pub protection_audit : List ProtectionAudit
  pub next_id : ℕ
