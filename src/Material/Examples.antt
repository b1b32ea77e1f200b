-- ===== src/Material/Examples.antt =====
-- A table and two versions of an attachment: runs, and the theorems at them.
use luheng_fulfillops_cloud.Base.{
  ℕ, ◌+◌, ◌≡◌, refl, true, false, Option, none, some, List, [], ◌∷◌, length, Text, codes, lower,
  starts_with, text_eq, strip, Result, ok, err, Returned,
}
use luheng_fulfillops_cloud.Material.Rows.{
  csv, pdf, CustomerMaterial, MaterialCode, csv_invalid, MaterialDb, Crypto, Keyring,
}
use luheng_fulfillops_cloud.Material.Csv.{
  MaterialRow, is_case_id, is_amount, field_index, parse_row, parse_from, parse_table, parse_rows,
}
use luheng_fulfillops_cloud.Material.Table.{IsTable, parse_rows-IsTable}
use luheng_fulfillops_cloud.Material.Store.{
  MaterialCreate, find, count_rows, decrypt_material, new_material, view, keep_material,
  store_material, download_material,
}
use luheng_fulfillops_cloud.Material.Versions.{
  VersionState, version_state, with_series, add_revision, append_revision,
}
use luheng_fulfillops_cloud.Material.Recovered.{store_material_download}
use luheng_fulfillops_cloud.Material.Chain.{appended, append_revision_latest}

-- A digest that counts, and a cipher that writes the key and the nonce before the content.
abbrev crypto : Crypto
crypto = record {
  sha = length;
  mapping_sha = λ mapping source. length source;
  encrypt = λ key nonce raw aad. key ∷ nonce ∷ raw;
  decrypt = λ key nonce c aad. elim c [
    | [] ↦ none
    | ◌∷◌ k r ↦ elim r [ [] ↦ none | ◌∷◌ n raw ↦ some raw ]
  ];
}

abbrev keyring : Keyring
keyring = record { current = 2; keys = λ version. some (version + 40) }

abbrev header : List Text
header = codes "no" ∷ codes "paid" ∷ codes "back" ∷ []

abbrev read_csv : Text → Option (List (List Text))
read_csv raw = some (header ∷ (codes "C1" ∷ codes " 1200" ∷ codes "0" ∷ []) ∷ [])

-- A table whose second row has the case number of the first.
abbrev read_twice : Text → Option (List (List Text))
read_twice raw = some (
    header
    ∷ (codes "C1" ∷ codes "1200" ∷ codes "0" ∷ [])
    ∷ (codes "C1" ∷ codes "7" ∷ codes "0" ∷ [])
    ∷ [])

abbrev table : MaterialCreate
table = record {
  filename = codes "Cases.CSV";
  source_reference = codes "bank/2026";
  file_kind = csv;
  content = some (codes "no,paid,back");
  mapping =
      (codes "case_id", codes "no")
      ∷ (codes "payment_cents", codes "paid")
      ∷ (codes "refund_cents", codes "back")
      ∷ [];
  acknowledged = true;
}

abbrev letter : Text → MaterialCreate
letter raw = record {
  filename = codes "letter.pdf";
  source_reference = codes "court/7";
  file_kind = pdf;
  content = some raw;
  mapping = [];
  acknowledged = true;
}

abbrev first_text : Text
first_text = codes "%PDF-1"

abbrev second_text : Text
second_text = codes "%PDF-1.7"

abbrev empty_db : MaterialDb
empty_db = record { materials = []; series = []; revisions = []; next_id = 1 }

abbrev amounts_of : Result MaterialCode (List MaterialRow) → List ℕ
amounts_of (ok []) = []
amounts_of (ok (r ∷ rs)) = r.payment_cents ∷ r.refund_cents ∷ []
amounts_of (err _) = []

table_read : amounts_of (parse_rows read_csv (codes "no,paid,back") table.mapping) ≡ 1200 ∷ 0 ∷ []
unfolding parse_rows parse_table parse_from parse_row field_index is_case_id is_amount text_eq strip
table_read = refl

table_refused : parse_rows read_twice (codes "no,paid,back") table.mapping ≡ err csv_invalid
unfolding parse_rows parse_table parse_from parse_row field_index is_case_id is_amount text_eq strip
table_refused = refl

abbrev stored_row : CustomerMaterial
stored_row = new_material crypto keyring (letter first_text) first_text 1 9 42 5 0 1

abbrev stored_db : MaterialDb
stored_db = record empty_db { materials = stored_row ∷ []; next_id = 2 }

letter_stored :
    store_material crypto keyring read_csv (letter first_text) 1 9 5 empty_db
    ≡ ok (stored_row, false, stored_db)
unfolding store_material keep_material view decrypt_material new_material count_rows lower
    starts_with
letter_stored = refl

store_material_download_example :
    download_material crypto keyring stored_db 1 stored_row.id ≡ ok first_text
store_material_download_example =
    store_material_download crypto keyring read_csv (λ key nonce raw a. refl) (letter first_text)
      first_text 1 9 5 empty_db stored_db stored_row refl refl letter_stored

abbrev state_after : Result MaterialCode (CustomerMaterial × MaterialDb) → Option VersionState
state_after (ok w) = some (version_state w.1 1 w.0.id)
state_after (err _) = none

-- The second letter is version 2 of the first, of the key 3.
two_letters :
    state_after (append_revision crypto keyring read_csv (letter second_text) 1 1 1 9 6 stored_db)
    ≡ some (appended 1 1 3)
unfolding append_revision add_revision with_series version_state find store_material keep_material
    view decrypt_material new_material count_rows lower starts_with
two_letters = refl

append_revision_latest_example :
    Returned
      (λ (w : CustomerMaterial × MaterialDb).
        version_state w.1 1 w.0.id
        ≡ appended
            (version_state stored_db 1 1).root_id
            (version_state stored_db 1 1).latest_version
            w.0.id)
      (append_revision crypto keyring read_csv (letter second_text) 1 1 1 9 6 stored_db)
append_revision_latest_example =
    append_revision_latest crypto keyring read_csv (letter second_text) 1 1 1 9 6 stored_db

parse_rows-IsTable_example :
    Returned IsTable (parse_rows read_csv (codes "no,paid,back") table.mapping)
parse_rows-IsTable_example = parse_rows-IsTable read_csv (codes "no,paid,back") table.mapping
