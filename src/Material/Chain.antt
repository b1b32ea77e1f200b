-- ===== src/Material/Chain.antt =====
-- A version that was appended is the latest one of its series.
use luheng_fulfillops_cloud.Base.{
  ℕ, ◌+◌, ◌≡◌, refl, sym, subst, inl, inr, Bool, true, false, not, Option, none, some, List, [],
  ◌∷◌, ◌++◌, arith, first, first-append_new, first-update_kept, update, count_by, is_some, leb,
  Text, Returned, Returned->>=, Returned-ok, Returned-raise_if, Option-cases, ==_refl, ◌==◌, ◌||◌,
}
use luheng_fulfillops_cloud.Material.Rows.{
  CustomerMaterial, MaterialSeries, MaterialRevision, MaterialDb, Crypto, Keyring, not_latest,
  too_many_versions, already_in_history, version_changed,
}
use luheng_fulfillops_cloud.Material.Store.{
  MaterialCreate, find, decrypt_material, view, is_same_source, keep_material, store_material,
}
use luheng_fulfillops_cloud.Material.Versions.{
  VersionState, is_revision, is_series, root_of, version_state, latest_version_of, new_series,
  with_series, is_unchanged, add_revision, append_revision,
}
use luheng_fulfillops_cloud.Material.Recovered.{store_material-Returned}

-- The state of the version that follows `latest_version` in the series of `root`.
abbrev pub appended : (root latest_version id : ℕ) → VersionState
appended root latest_version id = record {
  root_id = root;
  version = latest_version + 1;
  latest_id = id;
  latest_version = latest_version + 1;
  is_latest = true;
}

add_revision-latest :
    (t root : ℕ) (s : MaterialSeries) (material : CustomerMaterial) (db : MaterialDb)
    → first (is_series t root) db.series ≡ some s
    → Returned
        (λ (w : CustomerMaterial × MaterialDb).
          version_state w.1 t w.0.id ≡ appended root s.version w.0.id)
        (add_revision t root s material db)
unfolding add_revision version_state
add_revision-latest t root s material db found =
    let Latest = λ (w : CustomerMaterial × MaterialDb).
      version_state w.1 t w.0.id ≡ appended root s.version w.0.id in
    Returned-raise_if Latest
      (material.id == root
        || is_some (first (is_revision t material.id) db.revisions)
        || is_some (first (is_series t material.id) db.series))
      already_in_history _
      (λ fresh.
        Returned-raise_if Latest (not (count_by (is_unchanged s) db.series == 1)) version_changed _
          (λ _.
            let none_yet : first (is_revision t material.id) db.revisions ≡ none =
              ground (arith, fresh) in
            let revision : MaterialRevision = record {
              tenant_id = t;
              root_id = root;
              material_id = material.id;
              parent_id = s.latest_id;
              version = s.version + 1;
            } in
            let f = λ (k : MaterialSeries). record k {
              latest_id = material.id;
              version = s.version + 1;
            } in
            let listed : first (is_revision t material.id) (db.revisions ++ revision ∷ [])
                ≡ some revision =
              first-append_new (is_revision t material.id) db.revisions revision none_yet
                (ground arith) in
            let self : is_unchanged s s ≡ true = ground arith in
            let moved : first (is_series t root) (update (is_unchanged s) f db.series)
                ≡ some (f s) =
              rw
                (
                  first-update_kept (is_series t root) (is_unchanged s) f db.series (λ _. refl),
                  found,
                  self,
                )
                refl in
            rw (listed, moved, ==_refl material.id) refl))

-- The series that is used stands in the table, at the version that was the latest one.
with_series_found :
    (db : MaterialDb) (t root : ℕ)
    → let r = with_series db t root in
      (first (is_series t root) r.1.series ≡ some r.0)
      × (r.0.version ≡ latest_version_of (first (is_series t root) db.series))
      × (r.1.revisions ≡ db.revisions)
unfolding with_series
with_series_found db t root = elim (Option-cases (first (is_series t root) db.series)) [
  | inr (s, e) ↦ rw (e, with_series) (e, refl, refl)
  | inl e ↦
      rw (e, with_series)
        (
          first-append_new (is_series t root) db.series (new_series t root db.next_id) e
              (ground arith),
          refl,
          refl,
        )
]

-- Storing a material writes no series and no revision.
abbrev KeepsChain : MaterialDb → CustomerMaterial × Bool × MaterialDb → Type 0
KeepsChain db w = (w.2.series ≡ db.series) × (w.2.revisions ≡ db.revisions)

module _ (crypto : Crypto) (keyring : Keyring) where
  view-KeepsChain :
      (row : CustomerMaterial) (replay : Bool) (db db' : MaterialDb)
      → db'.series ≡ db.series
      → db'.revisions ≡ db.revisions
      → Returned (KeepsChain db) (view crypto keyring row replay db')
  unfolding view
  view-KeepsChain row replay db db' a b =
      Returned->>= (KeepsChain db) (decrypt_material crypto keyring row row.tenant_id) _
        (λ _ _. (a, b))

  keep_material-KeepsChain :
      (row : CustomerMaterial) (db : MaterialDb)
      → Returned (KeepsChain db) (keep_material crypto keyring row db)
  unfolding keep_material
  keep_material-KeepsChain row db =
      elim (Option-cases
        (first (is_same_source row.tenant_id row.source_digest row.mapping_digest) db.materials)) [
          | inr (existing, e) ↦
              rw (e, keep_material) (view-KeepsChain existing true db db refl refl)
          | inl e ↦ rw (e, keep_material) (view-KeepsChain row false db _ refl refl)
        ]

  module _ (read_csv : Text → Option (List (List Text))) where
    -- A version that was appended to the history of a material is the latest one of its series, one after the
    -- version that was the latest, with the same root.
    pub append_revision_latest :
        (p : MaterialCreate) (expected ident t actor_id nonce : ℕ) (db : MaterialDb)
        → Returned
            (λ w.
              version_state w.1 t w.0.id
              ≡ appended
                  (version_state db t ident).root_id
                  (version_state db t ident).latest_version
                  w.0.id)
            (append_revision crypto keyring read_csv p expected ident t actor_id nonce db)
    unfolding append_revision version_state
    append_revision_latest p expected ident t actor_id nonce db =
        let root = root_of ident (first (is_revision t ident) db.revisions) in
        let (s, db₁) = with_series db t root in
        let (found, version, _) = with_series_found db t root in
        let before : VersionState = version_state db t ident in
        let Latest = λ (w : CustomerMaterial × MaterialDb).
          version_state w.1 t w.0.id ≡ appended before.root_id before.latest_version w.0.id in
        Returned->>= Latest (find db t ident) _ (λ _ _.
          Returned-raise_if Latest (not (expected == s.latest_id) || not (ident == s.latest_id))
            not_latest _
            (λ _. Returned-raise_if Latest (leb 50 s.version) too_many_versions _ (λ _.
              Returned->>= Latest (store_material crypto keyring read_csv p t actor_id nonce db₁) _
                (λ (material, replay, db₂) stored.
                  let (kept, _) =
                    Returned-ok (KeepsChain db₁) _
                      (store_material-Returned crypto keyring read_csv (KeepsChain db₁) p t actor_id
                        nonce db₁ (λ key raw case_count _ _. keep_material-KeepsChain _ db₁))
                      stored in
                  subst
                    (λ n.
                      Returned
                        (λ (w : CustomerMaterial × MaterialDb).
                          version_state w.1 t w.0.id ≡ appended root n w.0.id)
                        (add_revision t root s material db₂))
                    version
                    (add_revision-latest t root s material db₂
                      (subst (λ l. first (is_series t root) l ≡ some s) (sym kept) found))))))
