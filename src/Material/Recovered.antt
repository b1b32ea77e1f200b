-- ===== src/Material/Recovered.antt =====
-- What is stored is what is downloaded.
use luheng_fulfillops_cloud.Base.{
  ℕ, ◌+◌, ◌≡◌, refl, sym, subst, inl, inr, Bool, true, false, not, Option, none, some, List, [],
  ◌∷◌, ◌++◌, arith, first, first-append_new, length, Text, lower, starts_with, ok, Returned,
  Returned->>=, Returned-ok, Returned-raise_if, Returned-or_raise, Option-cases, ==_refl, ◌==◌,
  ◌&&◌, ◌||◌, ltb,
}
use luheng_fulfillops_cloud.Material.Rows.{
  is_csv, CustomerMaterial, MaterialDb, Aad, Crypto, Keyring, not_acknowledged, keyring_missing,
  encoding_invalid, size_invalid, extension_mismatch, attachment_invalid, mapping_not_allowed,
}
use luheng_fulfillops_cloud.Material.Store.{
  MaterialCreate, extension, ends_with, file_signature, count_rows, is_material, find,
  decrypt_material, new_material, keep_material, is_same_source, view, store_material,
  download_material,
}

-- Decryption with the key, the nonce and the data of an encryption gives back its content.
abbrev pub Decrypts : Crypto → Type 0
Decrypts crypto =
    (key nonce : ℕ) (raw : Text) (a : Aad)
    → crypto.decrypt key nonce (crypto.encrypt key nonce raw a) a ≡ some raw

module _ (crypto : Crypto) (keyring : Keyring) where
  decrypt_material-new_material :
      Decrypts crypto
      → (p : MaterialCreate) (raw : Text) (tenant_id actor_id key nonce case_count id : ℕ)
      → keyring.keys keyring.current ≡ some key
      → decrypt_material crypto keyring
          (new_material crypto keyring p raw tenant_id actor_id key nonce case_count id)
          tenant_id
        ≡ ok raw
  unfolding decrypt_material new_material
  decrypt_material-new_material law p raw tenant_id actor_id key nonce case_count id held =
      let same = ==_refl (crypto.mapping_sha p.mapping p.source_reference) in
      let whole = ==_refl (crypto.sha raw) in rw (same, held, law key nonce raw _, whole) refl

  module _ (read_csv : Text → Option (List (List Text))) where
    -- A material that was new is downloaded as it was given.
    abbrev IsRecovered : MaterialCreate → ℕ → CustomerMaterial × Bool × MaterialDb → Type 0
    IsRecovered p tenant_id w =
        w.1 ≡ false
        → (raw : Text) × (p.content ≡ some raw)
          × (download_material crypto keyring w.2 tenant_id w.0.id ≡ ok raw)

    view_replay :
        (p : MaterialCreate) (tenant_id : ℕ) (row : CustomerMaterial) (db : MaterialDb)
        → Returned (IsRecovered p tenant_id) (view crypto keyring row true db)
    unfolding view
    view_replay p tenant_id row db =
        Returned->>= (IsRecovered p tenant_id) (decrypt_material crypto keyring row row.tenant_id) _
          (λ _ _ e. absurd (cc e))

    view_new :
        Decrypts crypto
        → (p : MaterialCreate) (raw : Text) (tenant_id actor_id key nonce case_count : ℕ)
        → (db : MaterialDb) → p.content ≡ some raw
        → keyring.keys keyring.current ≡ some key
        → first (is_material tenant_id db.next_id) db.materials ≡ none
        → let row =
            new_material crypto keyring p raw tenant_id actor_id key nonce case_count db.next_id in
          (db' : MaterialDb)
          → db'.materials ≡ db.materials ++ row ∷ []
          → Returned (IsRecovered p tenant_id) (view crypto keyring row false db')
    unfolding view download_material find
    view_new law p raw tenant_id actor_id key nonce case_count db given held new db' added =
        let row =
          new_material crypto keyring p raw tenant_id actor_id key nonce case_count db.next_id in
        let found : first (is_material tenant_id row.id) db'.materials ≡ some row =
          subst (λ ms. first (is_material tenant_id row.id) ms ≡ some row) (sym added)
            (first-append_new (is_material tenant_id row.id) db.materials row
              (unfold new_material in new) (unfold new_material in ground arith)) in
        Returned->>= (IsRecovered p tenant_id) (decrypt_material crypto keyring row row.tenant_id) _
          (λ _ _ _. (
            raw,
            given,
            rw found (
                decrypt_material-new_material law p raw tenant_id actor_id key nonce case_count
                  db.next_id held),
          ))

    -- What every end of the operation makes so is so of what it returns.
    pub store_material-Returned {ℓ} :
        (P : CustomerMaterial × Bool × MaterialDb → Type ℓ) (p : MaterialCreate)
        (tenant_id actor_id nonce : ℕ) (db : MaterialDb)
        → ((key : ℕ) (raw : Text) (case_count : ℕ)
            → keyring.keys keyring.current ≡ some key
            → p.content ≡ some raw
            → Returned P (
                keep_material crypto keyring
                  (new_material crypto keyring p raw tenant_id actor_id key nonce case_count
                    db.next_id)
                  db))
        → Returned P (store_material crypto keyring read_csv p tenant_id actor_id nonce db)
    unfolding store_material
    store_material-Returned P p tenant_id actor_id nonce db ends =
        Returned-raise_if P (not p.acknowledged) not_acknowledged _ (λ _.
          Returned-or_raise P (keyring.keys keyring.current) keyring_missing _ (λ key held.
            Returned-or_raise P p.content encoding_invalid _ (λ raw given.
              Returned-raise_if P (length raw == 0 || ltb 1000000 (length raw)) size_invalid _ (λ _.
                Returned-raise_if P (not (ends_with (lower p.filename) (extension p.file_kind)))
                  extension_mismatch _
                  (λ _.
                    Returned-raise_if P (not (starts_with raw (file_signature p.file_kind)))
                      attachment_invalid _
                      (λ _.
                        Returned-raise_if P
                          (not (is_csv p.file_kind) && not (length p.mapping == 0))
                          mapping_not_allowed _
                          (λ _.
                            Returned->>= P (count_rows read_csv p.file_kind raw p.mapping) _
                              (λ case_count _. ends key raw case_count held given))))))))

    store_material-IsRecovered :
        Decrypts crypto
        → (p : MaterialCreate) (tenant_id actor_id nonce : ℕ) (db : MaterialDb)
        → first (is_material tenant_id db.next_id) db.materials ≡ none
        → Returned
            (IsRecovered p tenant_id)
            (store_material crypto keyring read_csv p tenant_id actor_id nonce db)
    store_material-IsRecovered law p tenant_id actor_id nonce db new =
        store_material-Returned (IsRecovered p tenant_id) p tenant_id actor_id nonce db
          (λ key raw case_count held given.
            let row =
              new_material crypto keyring p raw tenant_id actor_id key nonce case_count
                db.next_id in
            elim (Option-cases (
              first (is_same_source row.tenant_id row.source_digest row.mapping_digest)
                db.materials)) [
                  | inr (existing, e) ↦
                      unfold keep_material in
                      rw (e, keep_material) (view_replay p tenant_id existing db)
                  | inl e ↦
                      unfold keep_material in
                      rw (e, keep_material)
                        (view_new law p raw tenant_id actor_id key nonce case_count db given held
                          new
                          (record db {
                            materials = db.materials ++ row ∷ [];
                            next_id = db.next_id + 1;
                          })
                          refl)
                ])

    -- Where decryption gives back what was encrypted and the next key of the materials is free, a material that was
    -- stored and was new is downloaded as the bytes that were given.
    pub store_material_download :
        Decrypts crypto
        → (p : MaterialCreate) (raw : Text) (tenant_id actor_id nonce : ℕ) (db db' : MaterialDb)
          (row : CustomerMaterial)
        → p.content ≡ some raw
        → first (is_material tenant_id db.next_id) db.materials ≡ none
        → store_material crypto keyring read_csv p tenant_id actor_id nonce db
          ≡ ok (row, false, db')
        → download_material crypto keyring db' tenant_id row.id ≡ ok raw
    store_material_download law p raw tenant_id actor_id nonce db db' row given new stored =
        let (raw', given', read) =
          Returned-ok (IsRecovered p tenant_id) _
            (store_material-IsRecovered law p tenant_id actor_id nonce db new) stored refl in
        cc (given, given', read)
