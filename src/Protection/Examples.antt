-- ===== src/Protection/Examples.antt =====
-- A disputed case that is blocked and released: runs of the workflow, and the theorems at them.
use luheng_fulfillops_cloud.Base.{
  ℕ, ◌≡◌, refl, false, none, some, [], ◌∷◌, codes, ok, err, Result, Returned, first, ◌==◌, length,
  text_eq, strip, order_by, upper,
}
use luheng_fulfillops_cloud.Cases.{awaiting_contact, approve}
use luheng_fulfillops_cloud.Protection.Rows.{
  ProtectionIncident, ProtectionDb, Category, ProtectionCode, Priority, ReleasePolicy,
  maker_checker_conflict, category_policy,
}
use luheng_fulfillops_cloud.Protection.Workflow.{
  OpeningFacts, ResolutionEvidence, protected_case, find_incident, new_incident, add_incident,
  open_protection_incident,
}
use luheng_fulfillops_cloud.Protection.Resolution.{
  write_incident, normalized_evidence_refs, file_proposal, proposed_resolution, store_proposal,
  propose_protection_resolution, decide_protection_resolution,
}
use luheng_fulfillops_cloud.Protection.Safety.{
  IsProtected, open_protection_incident-IsProtected, decide_protection_resolution-IsProtected,
}

abbrev tables : ProtectionDb
tables = record {
  cases =
      record {
        tenant_id = 1;
        case_id = codes "C1";
        package_id = 7;
        status = awaiting_contact;
        blocked = false;
        has_signed_plan = false;
        contact_basis_ref = none;
        version = 1;
      }
      ∷ [];
  incidents = [];
  activities = [];
  protection_audit = [];
  next_id = 1;
}

abbrev facts : OpeningFacts
facts = record {
  tenant_id = 1;
  case_id = codes "C1";
  source_event_id = codes " S1";
  category = Category.dispute;
  reason = codes "r";
  owner = codes "o";
  sla_hours = none;
}

abbrev facts_hash : OpeningFacts → ℕ
facts_hash f = length f.source_event_id

abbrev evidence_hash : ResolutionEvidence → ℕ
evidence_hash e = e.version

abbrev reached : Result ProtectionCode (ProtectionIncident × ProtectionDb) → ProtectionDb
reached (ok w) = w.1
reached (err _) = tables

abbrev no_incident : ProtectionIncident
no_incident =
    new_incident facts
      (record {
        priority = Priority.p0;
        release_policy = ReleasePolicy.maker_checker;
        case_status = awaiting_contact;
        default_sla_hours = none;
      })
      awaiting_contact 0 0 0 0

abbrev incident_of : Result ProtectionCode (ProtectionIncident × ProtectionDb) → ProtectionIncident
incident_of (ok w) = w.0
incident_of (err _) = no_incident

abbrev opening : Result ProtectionCode (ProtectionIncident × ProtectionDb)
opening = open_protection_incident facts_hash facts 5 1000 tables

abbrev proposing : Result ProtectionCode (ProtectionIncident × ProtectionDb)
proposing =
    propose_protection_resolution evidence_hash (incident_of opening) (codes "done")
      (codes "e-1" ∷ []) 6 2000 (reached opening)

open_protection_incident-IsProtected_example :
    Returned (λ w. IsProtected w.1) (open_protection_incident facts_hash facts 5 1000 tables)
open_protection_incident-IsProtected_example =
    open_protection_incident-IsProtected facts_hash facts 5 1000 tables tt

proposed_row :
    first
      (λ (k : ProtectionIncident). k.id == (incident_of proposing).id)
      (reached proposing).incidents
    ≡ some (incident_of proposing)
unfolding open_protection_incident category_policy protected_case find_incident text_eq add_incident
    new_incident propose_protection_resolution normalized_evidence_refs file_proposal store_proposal
    proposed_resolution write_incident strip upper order_by
proposed_row = refl

proposed-IsProtected : IsProtected (reached proposing)
unfolding open_protection_incident category_policy protected_case find_incident text_eq add_incident
    new_incident propose_protection_resolution normalized_evidence_refs file_proposal store_proposal
    proposed_resolution write_incident strip upper order_by
proposed-IsProtected = ((λ _. refl, tt), tt)

decide_protection_resolution-IsProtected_example :
    Returned
      (λ w. IsProtected w.1)
      (decide_protection_resolution
        (incident_of proposing)
        approve
        (codes "ok")
        2
        8
        3000
        (reached proposing))
decide_protection_resolution-IsProtected_example =
    decide_protection_resolution-IsProtected (incident_of proposing) approve (codes "ok") 2 8 3000
      (reached proposing) proposed_row proposed-IsProtected

-- The one who proposed the release cannot approve it.
same_person :
    decide_protection_resolution
      (incident_of proposing)
      approve
      (codes "ok")
      2
      6
      3000
      (reached proposing)
    ≡ err maker_checker_conflict
unfolding decide_protection_resolution open_protection_incident category_policy protected_case
    find_incident text_eq add_incident new_incident propose_protection_resolution
    normalized_evidence_refs file_proposal store_proposal proposed_resolution write_incident strip
    upper order_by
same_person = refl
