-- ===== src/Protection/Safety.antt =====
-- A case stays blocked while an incident protects it, and a permanent hold is never released.
use luheng_fulfillops_cloud.Base.{
  ℕ, ◌≡◌, refl, subst, inl, inr, Bool, true, false, not, some, List, [], ◌∷◌, arith, All,
  All-append, All-map, All-update, any, first, All-first, Text, text_eq, text_eq→eq, Returned,
  Returned-raise_if, Returned-or_raise, Bool-cases, Option-cases, ◌==◌, ◌&&◌, option_eq, strip,
}
use luheng_fulfillops_cloud.Cases.{
  CaseRecord, CaseStatus, Decision, approve, reject, unknown, is_known, to_reassess,
}
use luheng_fulfillops_cloud.Repayment.Rows.{of_case}
use luheng_fulfillops_cloud.Protection.Rows.{
  ProtectionIncident, ProtectionDb, category_policy, resolved, is_active_incident,
  is_pending_review, resolution_not_pending, resolution_version_conflict, maker_checker_conflict,
  invalid_resolution_decision, case_not_found, invalid_protection_category,
}
use luheng_fulfillops_cloud.Protection.Workflow.{
  OpeningFacts, protected_case, find_incident, new_incident, mark_case, add_incident,
  replay_incident, open_protection_incident,
}
use luheng_fulfillops_cloud.Protection.Resolution.{
  write_incident, still_protects, release, settle_review, reviewed_incident,
  decide_protection_resolution,
}

-- An incident that is not resolved protects the case.
abbrev pub protects : ProtectionIncident → CaseRecord → Bool
protects i c = of_case i.tenant_id i.case_id c.tenant_id c.case_id && is_active_incident i.status

-- Every case that an incident protects is blocked.
abbrev pub BlockedBy : List CaseRecord → ProtectionIncident → Type 0
BlockedBy cases i = All (λ (c : CaseRecord). protects i c ≡ true → c.blocked ≡ true) cases

abbrev pub IsProtected : ProtectionDb → Type 0
IsProtected db = All (BlockedBy db.cases) db.incidents

-- Blocking a case keeps what is blocked.
mark_case-BlockedBy :
    (tenant_id : ℕ) (case_id : Text) (status : CaseStatus) (cases : List CaseRecord)
    (i : ProtectionIncident)
    → BlockedBy cases i
    → BlockedBy (mark_case tenant_id case_id true status cases) i
mark_case-BlockedBy tenant_id case_id status [] i h = tt
mark_case-BlockedBy tenant_id case_id status (c ∷ cases) i h =
    (ground (arith, h.0), mark_case-BlockedBy tenant_id case_id status cases i h.1)

mark_case_blocks :
    (i : ProtectionIncident) (status : CaseStatus) (cases : List CaseRecord)
    → BlockedBy (mark_case i.tenant_id i.case_id true status cases) i
mark_case_blocks i status [] = tt
mark_case_blocks i status (c ∷ cases) = (ground arith, mark_case_blocks i status cases)

text_eq-join : (a b c : Text) → text_eq c a ≡ true → text_eq c b ≡ true → text_eq b a ≡ true
text_eq-join a b c e f = subst (λ u. text_eq u a ≡ true) (text_eq→eq c b f) e

-- Releasing the case of an incident keeps blocked what another one protects.
unmark-BlockedBy :
    (i k : ProtectionIncident) (status : CaseStatus) (cases : List CaseRecord)
    → (of_case i.tenant_id i.case_id k.tenant_id k.case_id && is_active_incident k.status) ≡ false
    → BlockedBy cases k
    → BlockedBy (mark_case i.tenant_id i.case_id false status cases) k
unmark-BlockedBy i k status [] n h = tt
unmark-BlockedBy i k status (c ∷ cases) n h = (
  ground (arith, n, h.0, text_eq-join i.case_id k.case_id c.case_id),
  unmark-BlockedBy i k status cases n h.1,
)

resolved-BlockedBy :
    (cases : List CaseRecord) (i : ProtectionIncident)
    → is_active_incident i.status ≡ false
    → BlockedBy cases i
resolved-BlockedBy [] i e = tt
resolved-BlockedBy (c ∷ cases) i e = (ground (arith, e), resolved-BlockedBy cases i e)

released :
    (i i' : ProtectionIncident) (status : CaseStatus) (cases : List CaseRecord)
    (incidents : List ProtectionIncident)
    → i'.id ≡ i.id
    → is_active_incident i'.status ≡ false
    → any (still_protects i) incidents ≡ false
    → All (BlockedBy cases) incidents
    → All
        (BlockedBy (mark_case i.tenant_id i.case_id false status cases))
        (write_incident i' incidents)
unfolding write_incident
released i i' status cases [] same e n h = tt
released i i' status cases (k ∷ incidents) same e n h =
    let none_else : still_protects i k ≡ false = ground (arith, n) in
    let rest : any (still_protects i) incidents ≡ false = ground (arith, n) in
    (
      elim (Bool-cases (k.id == i'.id)) [
        | inl hit ↦ rw hit (resolved-BlockedBy _ i' e)
        | inr miss ↦
            rw miss (unmark-BlockedBy i k status cases (ground (arith, none_else, miss, same)) h.0)
      ],
      released i i' status cases incidents same e rest h.1,
    )

write_incident-BlockedBy :
    (i' : ProtectionIncident) (db : ProtectionDb)
    → BlockedBy db.cases i'
    → IsProtected db
    → All (BlockedBy db.cases) (write_incident i' db.incidents)
unfolding write_incident
write_incident-BlockedBy i' db b h =
    All-update (BlockedBy db.cases) (λ (k : ProtectionIncident). k.id == i'.id) (λ _. i')
      db.incidents (λ _ _ _. b) h

settle_review-IsProtected :
    (decision : Decision) (i : ProtectionIncident) (now : ℕ) (db : ProtectionDb)
    → is_active_incident i.status ≡ true
    → BlockedBy db.cases i
    → IsProtected db
    → IsProtected (settle_review decision i now db).1
unfolding settle_review release
settle_review-IsProtected approve i now db a b h =
    elim (Bool-cases (any (still_protects i) db.incidents)) [
      | inl more ↦
          let done : ProtectionIncident = record i { status = resolved; resolved_at = some now } in
          rw (more, release)
            (write_incident-BlockedBy done db (resolved-BlockedBy db.cases done refl) h)
      | inr alone ↦
          rw (alone, release) (released i _ to_reassess db.cases db.incidents refl refl alone h)
    ]
settle_review-IsProtected reject i now db a b h =
    write_incident-BlockedBy _ db (All-map db.cases (λ c f p. f (ground (arith, a))) b) h
settle_review-IsProtected unknown i now db a b h =
    write_incident-BlockedBy _ db (All-map db.cases (λ c f p. f (ground (arith, a))) b) h

abbrev KeepsProtected : ProtectionIncident × ProtectionDb → Type 0
KeepsProtected w = IsProtected w.1

-- Where every case that an unresolved incident protects is blocked, a decision that returns, on the
-- incident that its key finds, keeps it so: it releases the case only where no other incident of the case is left.
pub decide_protection_resolution-IsProtected :
    (i : ProtectionIncident) (decision : Decision) (review_note : Text)
    (expected_version actor_id now : ℕ) (db : ProtectionDb)
    → first (λ (k : ProtectionIncident). k.id == i.id) db.incidents ≡ some i
    → IsProtected db
    → Returned
        (λ w. IsProtected w.1)
        (decide_protection_resolution i decision review_note expected_version actor_id now db)
unfolding decide_protection_resolution reviewed_incident
decide_protection_resolution-IsProtected i decision review_note expected_version actor_id now db
      found h =
    let mine =
      All-first (BlockedBy db.cases) (λ (k : ProtectionIncident). k.id == i.id) db.incidents h
        found in
    Returned-raise_if KeepsProtected (not (is_pending_review i.status)) resolution_not_pending _
      (λ p.
        Returned-raise_if KeepsProtected (not (i.version == expected_version))
          resolution_version_conflict _
          (λ _.
            Returned-raise_if KeepsProtected (option_eq i.proposed_by (some actor_id))
              maker_checker_conflict _
              (λ _.
                Returned-raise_if KeepsProtected (not (is_known decision))
                  invalid_resolution_decision _
                  (λ _.
                    Returned-or_raise KeepsProtected (protected_case db i.tenant_id i.case_id)
                      case_not_found _
                      (λ c _.
                        settle_review-IsProtected decision
                          (reviewed_incident i review_note actor_id now) now db (ground (arith, p))
                          mine h)))))

-- Where every case that an unresolved incident protects is blocked, opening an incident that returns
-- keeps it so, for the case of the new one as well.
pub open_protection_incident-IsProtected :
    (digest_of : OpeningFacts → ℕ) (r : OpeningFacts) (actor_id now : ℕ) (db : ProtectionDb)
    → IsProtected db
    → Returned (λ w. IsProtected w.1) (open_protection_incident digest_of r actor_id now db)
unfolding open_protection_incident replay_incident add_incident
open_protection_incident-IsProtected digest_of r actor_id now db h =
    Returned-or_raise KeepsProtected (category_policy r.category) invalid_protection_category _
      (λ policy _.
        Returned-or_raise KeepsProtected (protected_case db r.tenant_id r.case_id) case_not_found _
          (λ c _.
            let f : OpeningFacts = record r {
              source_event_id = strip r.source_event_id;
              reason = strip r.reason;
              owner = strip r.owner;
            } in
            let i = new_incident f policy c.status (digest_of f) actor_id db.next_id now in
            elim (Option-cases (find_incident db f.tenant_id f.source_event_id)) [
              | inr (existing, e) ↦
                  rw e (elim (Bool-cases (existing.opening_digest == digest_of f)) [
                    | inl same ↦ rw same h
                    | inr other ↦ rw other tt
                  ])
              | inl e ↦ rw e (
                  All-append (BlockedBy _) db.incidents _
                    (All-map db.incidents
                      (λ k b.
                        mark_case-BlockedBy i.tenant_id i.case_id policy.case_status db.cases k b)
                      h)
                    (mark_case_blocks i policy.case_status db.cases, tt))
            ]))
