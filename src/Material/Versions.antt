-- ===== src/Material/Versions.antt =====
-- backend/app/material_versions.py: series of versions of a material.
use luheng_fulfillops_cloud.Base.{
  ℕ, ◌+◌, ◌&&◌, ◌||◌, Bool, true, not, Option, none, some, List, [], ◌∷◌, ◌++◌, leb, ◌==◌, first,
  update, select, count_by, order_by, is_some, Text, Result, ok, ◌>>=◌, ◌>>◌, raise_if,
}
use luheng_fulfillops_cloud.Material.Rows.{
  CustomerMaterial, MaterialSeries, MaterialRevision, MaterialCode, not_latest, too_many_versions,
  already_in_history, version_changed, MaterialDb, Crypto, Keyring,
}
use luheng_fulfillops_cloud.Material.Store.{MaterialCreate, find, decrypt_material, store_material}

abbrev pub is_revision : ℕ → ℕ → MaterialRevision → Bool
is_revision tenant_id material_id r = r.tenant_id == tenant_id && r.material_id == material_id

abbrev pub is_series : ℕ → ℕ → MaterialSeries → Bool
is_series tenant_id root_id s = s.tenant_id == tenant_id && s.root_id == root_id

pub record VersionState : Type 0 where
  pub root_id : ℕ
  pub version : ℕ
  pub latest_id : ℕ
  pub latest_version : ℕ
  pub is_latest : Bool

-- The root of the material and its version in the series.
abbrev pub root_of : ℕ → Option MaterialRevision → ℕ
root_of ident none = ident
root_of ident (some r) = r.root_id

abbrev pub version_of : Option MaterialRevision → ℕ
version_of none = 1
version_of (some r) = r.version

abbrev pub latest_of : ℕ → Option MaterialSeries → ℕ
latest_of root none = root
latest_of root (some s) = s.latest_id

abbrev pub latest_version_of : Option MaterialSeries → ℕ
latest_version_of none = 1
latest_version_of (some s) = s.version

abbrev pub is_latest_of : ℕ → Option MaterialSeries → Bool
is_latest_of ident none = true
is_latest_of ident (some s) = s.latest_id == ident

unfoldable pub version_state : MaterialDb → (tenant_id ident : ℕ) → VersionState
version_state db tenant_id ident =
    let revision = first (is_revision tenant_id ident) db.revisions in
    let root = root_of ident revision in
    let series = first (is_series tenant_id root) db.series in
    record {
      root_id = root;
      version = version_of revision;
      latest_id = latest_of root series;
      latest_version = latest_version_of series;
      is_latest = is_latest_of ident series;
    }

-- The series of a root, added where there is none.
abbrev pub new_series : (tenant_id root_id id : ℕ) → MaterialSeries
new_series tenant_id root_id id = record {
  id = id;
  tenant_id = tenant_id;
  root_id = root_id;
  latest_id = root_id;
  version = 1;
}

unfoldable pub with_series : MaterialDb → (tenant_id root_id : ℕ) → MaterialSeries × MaterialDb
with_series db tenant_id root_id = elim (first (is_series tenant_id root_id) db.series) [
  | some s ↦ (s, db)
  | none ↦
      let s = new_series tenant_id root_id db.next_id in
      (s, record db { series = db.series ++ s ∷ []; next_id = db.next_id + 1 })
]

-- `UPDATE material_series ... WHERE id, version and latest_id`
abbrev pub is_unchanged : MaterialSeries → MaterialSeries → Bool
is_unchanged s k = k.id == s.id && k.version == s.version && k.latest_id == s.latest_id

-- The new version at the end of its series.
unfoldable pub add_revision :
    (tenant_id root : ℕ)
    → MaterialSeries
    → CustomerMaterial
    → MaterialDb
    → Result MaterialCode (CustomerMaterial × MaterialDb)
add_revision tenant_id root s material db = do
  raise_if
      (material.id == root
        || is_some (first (is_revision tenant_id material.id) db.revisions)
        || is_some (first (is_series tenant_id material.id) db.series))
      already_in_history
  raise_if (not (count_by (is_unchanged s) db.series == 1)) version_changed
  ok (
    material,
    record db {
      series =
          update (is_unchanged s)
            (λ (k : MaterialSeries). record k { latest_id = material.id; version = s.version + 1 })
            db.series;
      revisions =
          db.revisions
          ++ record {
            tenant_id = tenant_id;
            root_id = root;
            material_id = material.id;
            parent_id = s.latest_id;
            version = s.version + 1;
          }
            ∷ [];
    },
  )

module _ (crypto : Crypto) (keyring : Keyring) where
  -- The material of a version, decrypted for its view.
  unfoldable pub version_view :
      MaterialDb → (tenant_id material_id version : ℕ) → Result MaterialCode (CustomerMaterial × ℕ)
  version_view db tenant_id material_id version = do
    row ← find db tenant_id material_id
    raw ← decrypt_material crypto keyring row row.tenant_id
    ok (row, version)

  unfoldable pub version_views :
      MaterialDb
      → (tenant_id : ℕ) → List MaterialRevision
      → Result MaterialCode (List (CustomerMaterial × ℕ))
  version_views db tenant_id [] = ok []
  version_views db tenant_id (r ∷ rs) =
      version_view db tenant_id r.material_id r.version >>= λ item.
      version_views db tenant_id rs >>= λ items. ok (item ∷ items)

  -- The state and the versions of a history, the root first.
  unfoldable pub history :
      MaterialDb
      → (tenant_id ident : ℕ) → Result MaterialCode (VersionState × List (CustomerMaterial × ℕ))
  history db tenant_id ident = do
    material ← find db tenant_id ident
    let state = version_state db tenant_id ident
    let revisions =
        order_by (λ (a b : MaterialRevision). leb a.version b.version)
          (select (λ (r : MaterialRevision). r.tenant_id == tenant_id && r.root_id == state.root_id)
            db.revisions)
    root ← version_view db tenant_id state.root_id 1
    items ← version_views db tenant_id revisions
    ok (state, root ∷ items)

module _ (crypto : Crypto) (keyring : Keyring) (read_csv : Text → Option (List (List Text))) where
  unfoldable pub append_revision :
      MaterialCreate
      → (expected_latest_id ident tenant_id actor_id nonce : ℕ) → MaterialDb
      → Result MaterialCode (CustomerMaterial × MaterialDb)
  append_revision p expected_latest_id ident tenant_id actor_id nonce db = do
    original ← find db tenant_id ident
    let root = root_of ident (first (is_revision tenant_id ident) db.revisions)
    let (s, db₁) = with_series db tenant_id root
    raise_if (not (expected_latest_id == s.latest_id) || not (ident == s.latest_id)) not_latest
    raise_if (leb 50 s.version) too_many_versions
    (material, replay, db₂) ← store_material crypto keyring read_csv p tenant_id actor_id nonce db₁
    add_revision tenant_id root s material db₂
