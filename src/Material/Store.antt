-- ===== src/Material/Store.antt =====
-- `store_material`, `find` and `decrypt_material` of backend/app/customer_materials.py. Base64 is read before,
-- and the nonce of `os.urandom` is an argument.
use luheng_fulfillops_cloud.Base.{
  ℕ, ◌+◌, ◌&&◌, ◌||◌, Bool, true, false, not, Option, none, some, List, [], ◌∷◌, ◌++◌, ltb, ◌==◌,
  if◌then◌else◌, first, length, Text, lower, starts_with, codes, Result, ok, ◌>>=◌, ◌>>◌, raise_if,
  or_raise,
}
use mathlib.Core.List.{reverse}
use luheng_fulfillops_cloud.Material.Rows.{
  FileKind, csv, pdf, png, jpg, is_csv, Mapping, CustomerMaterial, MaterialCode, not_acknowledged,
  keyring_missing, encoding_invalid, size_invalid, extension_mismatch, attachment_invalid,
  mapping_not_allowed, material_not_found, metadata_changed, key_unavailable, content_changed,
  MaterialDb, Aad, Crypto, Keyring,
}
use luheng_fulfillops_cloud.Material.Csv.{MaterialRow, parse_rows}

-- `content` is what base64 decodes to, nothing where that raises.
pub record MaterialCreate : Type 0 where
  pub filename : Text
  pub source_reference : Text
  pub file_kind : FileKind
  pub content : Option Text
  pub mapping : Mapping
  pub acknowledged : Bool

abbrev pub extension : FileKind → Text
extension csv = codes ".csv"
extension pdf = codes ".pdf"
extension png = codes ".png"
extension jpg = codes ".jpg"

-- `text.endswith(suffix)`
abbrev pub ends_with : Text → Text → Bool
ends_with text suffix = starts_with (reverse text) (reverse suffix)

-- `signatures`
abbrev pub file_signature : FileKind → Text
file_signature csv = []
file_signature pdf = codes "%PDF-"
file_signature png = 137 ∷ 80 ∷ 78 ∷ 71 ∷ 13 ∷ 10 ∷ 26 ∷ 10 ∷ []
file_signature jpg = 255 ∷ 216 ∷ 255 ∷ []

unfoldable pub count_rows :
    (Text → Option (List (List Text))) → FileKind → Text → Mapping → Result MaterialCode ℕ
count_rows read_csv kind raw mapping =
    if is_csv kind
    then (parse_rows read_csv raw mapping >>= λ (rows : List MaterialRow). ok (length rows))
    else ok 0

-- `material_aad` of a row, for a tenant.
abbrev pub aad_of : ℕ → CustomerMaterial → Aad
aad_of tenant_id row = record {
  tenant_id = tenant_id;
  source_digest = row.source_digest;
  mapping_digest = row.mapping_digest;
  filename = row.filename;
  file_kind = row.file_kind;
  size_bytes = row.size_bytes;
  case_count = row.case_count;
}

abbrev pub is_material : ℕ → ℕ → CustomerMaterial → Bool
is_material tenant_id id m = m.tenant_id == tenant_id && m.id == id

unfoldable pub find :
    MaterialDb → (tenant_id material_id : ℕ) → Result MaterialCode CustomerMaterial
find db tenant_id material_id =
    or_raise (first (is_material tenant_id material_id) db.materials) material_not_found

abbrev pub is_same_source : ℕ → ℕ → ℕ → CustomerMaterial → Bool
is_same_source tenant_id digest md m =
    m.tenant_id == tenant_id && m.source_digest == digest && m.mapping_digest == md

module _ (crypto : Crypto) (keyring : Keyring) where
  unfoldable pub decrypt_material : CustomerMaterial → (tenant_id : ℕ) → Result MaterialCode Text
  decrypt_material row tenant_id = do
    raise_if (not (crypto.mapping_sha row.mapping row.source_reference == row.mapping_digest))
        metadata_changed
    key ← or_raise (keyring.keys row.key_version) key_unavailable
    raw ←
        or_raise (crypto.decrypt key row.nonce row.ciphertext (aad_of tenant_id row))
          content_changed
    raise_if (not (crypto.sha raw == row.source_digest)) content_changed
    ok raw

  -- The row as it is stored; its ciphertext is of the content with all else authenticated.
  unfoldable pub new_material :
      MaterialCreate → Text → (tenant_id actor_id key nonce case_count id : ℕ) → CustomerMaterial
  new_material p raw tenant_id actor_id key nonce case_count id =
      let row : CustomerMaterial = record {
        id = id;
        tenant_id = tenant_id;
        filename = p.filename;
        source_reference = p.source_reference;
        source_digest = crypto.sha raw;
        mapping_digest = crypto.mapping_sha p.mapping p.source_reference;
        file_kind = p.file_kind;
        size_bytes = length raw;
        key_version = keyring.current;
        nonce = nonce;
        ciphertext = [];
        mapping = p.mapping;
        case_count = case_count;
        created_by = actor_id;
      } in
      record row { ciphertext = crypto.encrypt key nonce raw (aad_of tenant_id row) }

  -- `view(row) | {"idempotent_replay": replay}`: a view decrypts the row first.
  unfoldable pub view :
      CustomerMaterial
      → Bool
      → MaterialDb
      → Result MaterialCode (CustomerMaterial × Bool × MaterialDb)
  view row replay db = do raw ← decrypt_material row row.tenant_id; ok (row, replay, db)

  -- The row is added, or the one of the same source is answered.
  unfoldable pub keep_material :
      CustomerMaterial → MaterialDb → Result MaterialCode (CustomerMaterial × Bool × MaterialDb)
  keep_material row db =
      elim (first (is_same_source row.tenant_id row.source_digest row.mapping_digest)
        db.materials) [
          | some existing ↦ view existing true db
          | none ↦
              view row false
                (record db { materials = db.materials ++ row ∷ []; next_id = db.next_id + 1 })
        ]

  module _ (read_csv : Text → Option (List (List Text))) where
    unfoldable pub store_material :
        MaterialCreate
        → (tenant_id actor_id nonce : ℕ) → MaterialDb
        → Result MaterialCode (CustomerMaterial × Bool × MaterialDb)
    store_material p tenant_id actor_id nonce db = do
      raise_if (not p.acknowledged) not_acknowledged
      key ← or_raise (keyring.keys keyring.current) keyring_missing
      raw ← or_raise p.content encoding_invalid
      raise_if (length raw == 0 || ltb 1000000 (length raw)) size_invalid
      raise_if (not (ends_with (lower p.filename) (extension p.file_kind))) extension_mismatch
      raise_if (not (starts_with raw (file_signature p.file_kind))) attachment_invalid
      raise_if (not (is_csv p.file_kind) && not (length p.mapping == 0)) mapping_not_allowed
      case_count ← count_rows read_csv p.file_kind raw p.mapping
      keep_material (new_material p raw tenant_id actor_id key nonce case_count db.next_id) db

  -- `download_material`: the bytes of the answer.
  unfoldable pub download_material :
      MaterialDb → (tenant_id material_id : ℕ) → Result MaterialCode Text
  download_material db tenant_id material_id = do
    row ← find db tenant_id material_id
    decrypt_material row tenant_id
