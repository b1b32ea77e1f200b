-- ===== src/Protection/Resolution.antt =====
-- `propose_protection_resolution` and `decide_protection_resolution` of
-- backend/app/protection_workflow.py. The hash of the evidence is a parameter.
use luheng_fulfillops_cloud.Base.{
  ℕ, ◌+◌, ◌&&◌, Bool, true, false, not, Option, none, some, List, [], ◌∷◌, ◌++◌, ◌==◌,
  if◌then◌else◌, update, select, any, order_by, length, map, Text, text_eq, text_leb, strip, upper,
  codes, starts_with, Result, ok, err, ◌>>=◌, ◌>>◌, raise_if, or_raise, option_eq,
}
use luheng_fulfillops_cloud.Cases.{to_reassess, Decision, approve, is_known}
use luheng_fulfillops_cloud.Repayment.Rows.{of_case}
use luheng_fulfillops_cloud.Protection.Rows.{
  is_permanent, needs_renewal, opened, pending_review, resolved, is_active_incident, is_open,
  is_pending_review, is_resolved, ProtectionIncident, ProtectionCode, case_not_found,
  permanent_protection, protection_already_resolved, evidence_required,
  mandate_renewal_evidence_required, resolution_review_in_progress, protection_not_reviewable,
  resolution_not_pending, resolution_version_conflict, maker_checker_conflict,
  invalid_resolution_decision, resolution_proposed, resolution_decided, ProtectionDb,
}
use luheng_fulfillops_cloud.Protection.Workflow.{ResolutionEvidence, mark_case, protected_case}

abbrev texts_eq : List Text → List Text → Bool
texts_eq [] [] = true
texts_eq (s ∷ ss) (t ∷ ts) = text_eq s t && texts_eq ss ts
texts_eq _ _ = false

abbrev without_repeats : List Text → List Text
without_repeats [] = []
without_repeats (s ∷ ss) =
    let rest = without_repeats ss in if any (text_eq s) rest then rest else s ∷ rest

abbrev is_blank : Text → Bool
is_blank s = text_eq (strip s) []

-- `sorted({reference.strip().upper() for reference in evidence_refs if reference.strip()})`
unfoldable pub normalized_evidence_refs : List Text → List Text
normalized_evidence_refs refs =
    order_by text_leb
      (without_repeats (map (λ s. upper (strip s)) (select (λ s. not (is_blank s)) refs)))

abbrev note_eq : Option Text → Text → Bool
note_eq none t = false
note_eq (some s) t = text_eq s t

unfoldable pub write_incident :
    ProtectionIncident → List ProtectionIncident → List ProtectionIncident
write_incident i = update (λ (k : ProtectionIncident). k.id == i.id) (λ _. i)

unfoldable pub proposed_resolution :
    ProtectionIncident → Text → List Text → ℕ → ℕ → ℕ → ProtectionIncident
proposed_resolution i note refs digest actor_id now = record i {
  status = pending_review;
  version = i.version + 1;
  resolution_note = some note;
  evidence_refs = refs;
  evidence_digest = some digest;
  proposed_by = some actor_id;
  proposed_at = some now;
  reviewed_by = none;
  reviewed_at = none;
  review_note = none;
  resolved_at = none;
  case_released = false;
}

unfoldable pub store_proposal :
    ProtectionIncident
    → ℕ
    → ProtectionDb
    → Result ProtectionCode (ProtectionIncident × ProtectionDb)
store_proposal i actor_id db = ok (
  i,
  record db {
    incidents = write_incident i db.incidents;
    protection_audit =
        db.protection_audit ++ resolution_proposed i.tenant_id actor_id i.id i.version ∷ [];
  },
)

-- What a proposal does at each status: the same one again is answered as before.
unfoldable pub file_proposal :
    ProtectionIncident
    → Bool
    → ProtectionIncident
    → ℕ
    → ProtectionDb
    → Result ProtectionCode (ProtectionIncident × ProtectionDb)
file_proposal i same proposal actor_id db =
    if is_pending_review i.status
    then (if same then ok (i, db) else err resolution_review_in_progress)
    else if not (is_open i.status)
    then err protection_not_reviewable
    else store_proposal proposal actor_id db

unfoldable pub propose_protection_resolution :
    (ResolutionEvidence → ℕ)
    → ProtectionIncident
    → Text
    → List Text
    → ℕ
    → ℕ
    → ProtectionDb
    → Result ProtectionCode (ProtectionIncident × ProtectionDb)
propose_protection_resolution digest_of i resolution_note evidence_refs actor_id now db = do
  raise_if (is_permanent i.release_policy) permanent_protection
  raise_if (is_resolved i.status) protection_already_resolved
  let note = strip resolution_note
  let refs = normalized_evidence_refs evidence_refs
  raise_if (length refs == 0) evidence_required
  raise_if
      (needs_renewal i.release_policy && not (any (λ s. starts_with s (codes "MANDATE-")) refs))
      mandate_renewal_evidence_required
  let digest = digest_of (record {
    incident_id = i.id;
    opening_digest = i.opening_digest;
    resolution_note = note;
    evidence_refs = refs;
    version = i.version + 1;
  })
  let same =
      option_eq i.proposed_by (some actor_id)
      && note_eq i.resolution_note note
      && texts_eq i.evidence_refs refs
  file_proposal i same (proposed_resolution i note refs digest actor_id now) actor_id db

-- The incident of a decision, before its status is set.
unfoldable pub reviewed_incident : ProtectionIncident → Text → ℕ → ℕ → ProtectionIncident
reviewed_incident i review_note actor_id now = record i {
  version = i.version + 1;
  reviewed_by = some actor_id;
  reviewed_at = some now;
  review_note = some (strip review_note);
  case_released = false;
}

-- Another incident of the case that is not resolved.
abbrev pub still_protects : ProtectionIncident → ProtectionIncident → Bool
still_protects i k =
    of_case i.tenant_id i.case_id k.tenant_id k.case_id
    && not (k.id == i.id)
    && is_active_incident k.status

unfoldable pub release : ProtectionIncident → ℕ → ProtectionDb → ProtectionIncident × ProtectionDb
release i now db =
    let done : ProtectionIncident = record i { status = resolved; resolved_at = some now } in
    let freed : ProtectionIncident = record done { case_released = true } in
    if any (still_protects i) db.incidents
    then (done, record db { incidents = write_incident done db.incidents })
    else (
      freed,
      record db {
        incidents = write_incident freed db.incidents;
        cases = mark_case i.tenant_id i.case_id false to_reassess db.cases;
      },
    )

unfoldable pub settle_review :
    Decision → ProtectionIncident → ℕ → ProtectionDb → ProtectionIncident × ProtectionDb
settle_review approve i now db = release i now db
settle_review _ i now db =
    let back : ProtectionIncident = record i { status = opened } in
    (back, record db { incidents = write_incident back db.incidents })

unfoldable pub decide_protection_resolution :
    ProtectionIncident
    → Decision
    → Text
    → ℕ
    → ℕ
    → ℕ
    → ProtectionDb
    → Result ProtectionCode (ProtectionIncident × ProtectionDb)
decide_protection_resolution i decision review_note expected_version actor_id now db = do
  raise_if (not (is_pending_review i.status)) resolution_not_pending
  raise_if (not (i.version == expected_version)) resolution_version_conflict
  raise_if (option_eq i.proposed_by (some actor_id)) maker_checker_conflict
  raise_if (not (is_known decision)) invalid_resolution_decision
  case ← or_raise (protected_case db i.tenant_id i.case_id) case_not_found
  let (i', db') = settle_review decision (reviewed_incident i review_note actor_id now) now db
  ok (
    i',
    record db' {
      protection_audit =
          db'.protection_audit
          ++ resolution_decided i.tenant_id actor_id i.id i'.version decision i'.case_released ∷ [];
    },
  )
