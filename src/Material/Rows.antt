-- ===== src/Material/Rows.antt =====
-- The tables of materials, `CustomerMaterial`, `MaterialSeries` and `MaterialRevision` of
-- backend/app/models.py, and the errors. Bytes and texts are lists of numbers.
use luheng_fulfillops_cloud.Base.{ℕ, Bool, true, false, Option, List, Text}

pub data FileKind : Type 0 where
  csv pdf png jpg : FileKind

abbrev pub is_csv : FileKind → Bool
is_csv csv = true
is_csv _ = false

abbrev pub Mapping : Type 0
Mapping = List (Text × Text)

pub record CustomerMaterial : Type 0 where
  pub id : ℕ
  pub tenant_id : ℕ
  pub filename : Text
  pub source_reference : Text
  pub source_digest : ℕ
  pub mapping_digest : ℕ
  pub file_kind : FileKind
  pub size_bytes : ℕ
  pub key_version : ℕ
  pub nonce : ℕ
  pub ciphertext : Text
  pub mapping : Mapping
  pub case_count : ℕ
  pub created_by : ℕ

pub record MaterialSeries : Type 0 where
  pub id : ℕ
  pub tenant_id : ℕ
  pub root_id : ℕ
  pub latest_id : ℕ
  pub version : ℕ

pub record MaterialRevision : Type 0 where
  pub tenant_id : ℕ
  pub root_id : ℕ
  pub material_id : ℕ
  pub parent_id : ℕ
  pub version : ℕ

pub data MaterialCode : Type 0 where
  not_acknowledged keyring_missing encoding_invalid size_invalid extension_mismatch : MaterialCode
  attachment_invalid mapping_not_allowed mapping_invalid csv_invalid : MaterialCode
  material_not_found metadata_changed key_unavailable content_changed : MaterialCode
  not_latest too_many_versions already_in_history version_changed : MaterialCode

pub record MaterialDb : Type 0 where
  pub materials : List CustomerMaterial
  pub series : List MaterialSeries
  pub revisions : List MaterialRevision
  pub next_id : ℕ

-- What is authenticated with the ciphertext, `material_aad`.
pub record Aad : Type 0 where
  pub tenant_id : ℕ
  pub source_digest : ℕ
  pub mapping_digest : ℕ
  pub filename : Text
  pub file_kind : FileKind
  pub size_bytes : ℕ
  pub case_count : ℕ

-- SHA-256 and AES-GCM, of hashlib and of cryptography. Decryption gives nothing where it raises.
pub record Crypto : Type 0 where
  pub sha : Text → ℕ
  pub mapping_sha : Mapping → Text → ℕ
  pub encrypt : (key nonce : ℕ) → Text → Aad → Text
  pub decrypt : (key nonce : ℕ) → Text → Aad → Option Text

-- The version of the key in use, and the keys of all versions.
pub record Keyring : Type 0 where
  pub current : ℕ
  pub keys : ℕ → Option ℕ
