-- ===== src/Protection/Workflow.antt =====
-- `open_protection_incident` of backend/app/protection_workflow.py. The hash of the opening facts is a parameter.
use luheng_fulfillops_cloud.Base.{
  ℕ, ◌+◌, ◌*◌, ◌&&◌, Bool, true, false, Option, none, some, List, [], ◌∷◌, ◌++◌, ◌==◌,
  if◌then◌else◌, first, update, any, count_by, is_some, Text, text_eq, strip, Result, ok, err,
  ◌>>=◌, or_raise, hour,
}
use luheng_fulfillops_cloud.Cases.{CaseRecord, CaseStatus}
use luheng_fulfillops_cloud.Repayment.Rows.{of_case}
use luheng_fulfillops_cloud.Protection.Rows.{
  Category, CategoryPolicy, category_policy, is_permanent, opened, permanent_hold,
  ProtectionIncident, Activity, blocked, is_under_way, ProtectionCode, invalid_protection_category,
  case_not_found, protection_event_conflict, incident_opened, ProtectionDb,
}

-- The facts that an incident is opened with, and the evidence of a proposal, as they are hashed.
pub record OpeningFacts : Type 0 where
  pub tenant_id : ℕ
  pub case_id : Text
  pub source_event_id : Text
  pub category : Category
  pub reason : Text
  pub owner : Text
  pub sla_hours : Option ℕ

pub record ResolutionEvidence : Type 0 where
  pub incident_id : ℕ
  pub opening_digest : ℕ
  pub resolution_note : Text
  pub evidence_refs : List Text
  pub version : ℕ

unfoldable pub protected_case : ProtectionDb → ℕ → Text → Option CaseRecord
protected_case db tenant_id case_id =
    first (λ (c : CaseRecord). of_case tenant_id case_id c.tenant_id c.case_id) db.cases

unfoldable pub find_incident : ProtectionDb → ℕ → Text → Option ProtectionIncident
find_incident db tenant_id source =
    first (λ (i : ProtectionIncident). of_case tenant_id source i.tenant_id i.source_event_id)
      db.incidents

-- `now + timedelta(hours=h) if h else None`
abbrev deadline : ℕ → Option ℕ → Option ℕ
deadline now none = none
deadline now (some h) = if h == 0 then none else some (now + h * hour)

unfoldable pub new_incident :
    OpeningFacts → CategoryPolicy → CaseStatus → ℕ → ℕ → ℕ → ℕ → ProtectionIncident
new_incident f policy previous digest actor_id id now = record {
  id = id;
  tenant_id = f.tenant_id;
  case_id = f.case_id;
  source_event_id = f.source_event_id;
  category = f.category;
  priority = policy.priority;
  reason = f.reason;
  opening_digest = digest;
  owner = f.owner;
  release_policy = policy.release_policy;
  status = if is_permanent policy.release_policy then permanent_hold else opened;
  version = 1;
  previous_case_status = previous;
  sla_due_at = deadline now (if is_some f.sla_hours then f.sla_hours else policy.default_sla_hours);
  opened_by = actor_id;
  opened_at = now;
  resolution_note = none;
  evidence_refs = [];
  evidence_digest = none;
  proposed_by = none;
  proposed_at = none;
  reviewed_by = none;
  reviewed_at = none;
  review_note = none;
  resolved_at = none;
  case_released = false;
}

abbrev is_affected : ℕ → Text → Activity → Bool
is_affected tenant_id case_id a =
    a.tenant_id == tenant_id && is_under_way a.status && any (text_eq case_id) a.case_ids

abbrev pub mark_case : ℕ → Text → Bool → CaseStatus → List CaseRecord → List CaseRecord
mark_case tenant_id case_id hold status =
    update (λ (c : CaseRecord). of_case tenant_id case_id c.tenant_id c.case_id)
      (λ (c : CaseRecord). record c { blocked = hold; status = status })

unfoldable pub add_incident : ProtectionIncident → CategoryPolicy → ℕ → ProtectionDb → ProtectionDb
add_incident i policy actor_id db = record db {
  cases = mark_case i.tenant_id i.case_id true policy.case_status db.cases;
  incidents = db.incidents ++ i ∷ [];
  activities =
      update (is_affected i.tenant_id i.case_id)
        (λ (a : Activity). record a {
          status = blocked;
          protection_of = some (i.source_event_id, i.category);
        })
        db.activities;
  protection_audit =
      db.protection_audit
      ++ incident_opened i.tenant_id actor_id i.id
          (count_by (is_affected i.tenant_id i.case_id) db.activities)
        ∷ [];
  next_id = db.next_id + 1;
}

unfoldable pub replay_incident :
    ProtectionIncident
    → ℕ
    → ProtectionDb
    → Result ProtectionCode (ProtectionIncident × ProtectionDb)
replay_incident existing digest db =
    if existing.opening_digest == digest then ok (existing, db) else err protection_event_conflict

unfoldable pub open_protection_incident :
    (OpeningFacts → ℕ)
    → OpeningFacts
    → ℕ
    → ℕ
    → ProtectionDb
    → Result ProtectionCode (ProtectionIncident × ProtectionDb)
open_protection_incident digest_of r actor_id now db = do
  policy ← or_raise (category_policy r.category) invalid_protection_category
  case ← or_raise (protected_case db r.tenant_id r.case_id) case_not_found
  let f : OpeningFacts = record r {
    source_event_id = strip r.source_event_id;
    reason = strip r.reason;
    owner = strip r.owner;
  }
  let i = new_incident f policy case.status (digest_of f) actor_id db.next_id now
  elim (find_incident db f.tenant_id f.source_event_id) [
    | some existing ↦ replay_incident existing (digest_of f) db
    | none ↦ ok (i, add_incident i policy actor_id db)
  ]
