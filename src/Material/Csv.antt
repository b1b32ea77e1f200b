-- ===== src/Material/Csv.antt =====
-- `parse_rows` of backend/app/customer_materials.py, on the rows that Python's csv.reader makes of the decoded
-- bytes, a parameter that gives nothing where decoding or the reader raises.
use luheng_fulfillops_cloud.Base.{
  ℕ, zero, suc, ◌+◌, ◌*◌, ◌-◌, ◌&&◌, ◌||◌, Bool, true, false, not, Option, none, some, List, [],
  ◌∷◌, leb, ltb, ◌==◌, if◌then◌else◌, any, all, length, map, Text, text_eq, strip, codes, Result,
  ok, err, ◌>>=◌, ◌>>◌, raise_if, or_raise,
}
use luheng_fulfillops_cloud.Material.Rows.{Mapping, MaterialCode, mapping_invalid, csv_invalid}

pub record MaterialRow : Type 0 where
  pub case_id : Text
  pub payment_cents : ℕ
  pub refund_cents : ℕ

abbrev is_digit : ℕ → Bool
is_digit c = leb 48 c && leb c 57

abbrev is_alnum : ℕ → Bool
is_alnum c = is_digit c || (leb 65 c && leb c 90) || (leb 97 c && leb c 122)

-- `[A-Za-z0-9][A-Za-z0-9_-]{0,39}`
unfoldable pub is_case_id : Text → Bool
is_case_id [] = false
is_case_id (c ∷ s) =
    is_alnum c && leb (length s) 39 && all (λ d. is_alnum d || d == 95 || d == 45) s

-- `0|[1-9][0-9]{0,15}`
unfoldable pub is_amount : Text → Bool
is_amount [] = false
is_amount (c ∷ s) =
    (c == 48 && length s == 0) || (leb 49 c && leb c 57 && leb (length s) 15 && all is_digit s)

-- `int(text)`, of decimal digits.
abbrev pub value_from : ℕ → Text → ℕ
value_from n [] = n
value_from n (c ∷ s) = value_from (n * 10 + (c - 48)) s

abbrev column : Mapping → Text → Option Text
column [] field = none
column ((f, h) ∷ rest) field = if text_eq f field then some h else column rest field

abbrev pub are_distinct : List Text → Bool
are_distinct [] = true
are_distinct (s ∷ ss) = not (any (text_eq s) ss) && are_distinct ss

-- `headers.index(h)`
abbrev index_of : List Text → Text → Option ℕ
index_of [] h = none
index_of (x ∷ xs) h =
    let rest = index_of xs h in
    if text_eq x h then some 0 else elim rest [ none ↦ none | some i ↦ some (suc i) ]

abbrev value_at : List Text → ℕ → Text
value_at [] i = []
value_at (v ∷ vs) zero = v
value_at (v ∷ vs) (suc i) = value_at vs i

abbrev pub cell : List Text → ℕ → Text
cell values i = strip (value_at values i)

-- Where the three fields stand, `indexes`.
pub record Indexes : Type 0 where
  pub case_id : ℕ
  pub payment_cents : ℕ
  pub refund_cents : ℕ

unfoldable pub field_index : Mapping → List Text → Text → Result MaterialCode ℕ
field_index mapping headers field = do
  h ← or_raise (column mapping field) mapping_invalid
  or_raise (index_of headers h) csv_invalid

unfoldable pub parse_row : List Text → Indexes → List Text → Result MaterialCode MaterialRow
parse_row seen at values = do
  let case_id = cell values at.case_id
  raise_if (not (is_case_id case_id) || any (text_eq case_id) seen) csv_invalid
  let payment = cell values at.payment_cents
  raise_if (not (is_amount payment) || ltb 9007199254740991 (value_from 0 payment)) csv_invalid
  let refund = cell values at.refund_cents
  raise_if (not (is_amount refund) || ltb 9007199254740991 (value_from 0 refund)) csv_invalid
  ok (record {
    case_id = case_id;
    payment_cents = value_from 0 payment;
    refund_cents = value_from 0 refund;
  })

-- The loop over the rows after the headers, with the number of the row, and the case numbers seen.
unfoldable pub parse_from :
    (number width : ℕ)
    → List Text
    → Indexes
    → List (List Text)
    → Result MaterialCode (List MaterialRow)
parse_from number width seen at [] = ok []
parse_from number width seen at (values ∷ rest) =
    raise_if (ltb 51 number || not (length values == width)) csv_invalid
    >> (parse_row seen at values >>= λ row.
        parse_from (number + 1) width (row.case_id ∷ seen) at rest >>= λ rows. ok (row ∷ rows))

abbrev pub is_header : Text → Bool
is_header h = not (length h == 0) && leb (length h) 80

unfoldable pub parse_table :
    Mapping → List Text → List (List Text) → Result MaterialCode (List MaterialRow)
parse_table mapping headers rest = do
  raise_if (ltb 30 (length headers) || not (are_distinct headers) || not (all is_header headers))
      csv_invalid
  raise_if (not (all (λ (m : Text × Text). any (text_eq m.1) headers) mapping)) csv_invalid
  case_id ← field_index mapping headers (codes "case_id")
  payment_cents ← field_index mapping headers (codes "payment_cents")
  refund_cents ← field_index mapping headers (codes "refund_cents")
  rows ←
      parse_from 2 (length headers) []
        (record { case_id = case_id; payment_cents = payment_cents; refund_cents = refund_cents })
        rest
  raise_if (length rows == 0) csv_invalid
  ok rows

abbrev is_some_column : Option Text → Bool
is_some_column none = false
is_some_column (some _) = true

-- `set(mapping) != FIELDS or len(set(mapping.values())) != 3`
abbrev pub is_full_mapping : Mapping → Bool
is_full_mapping mapping =
    length mapping == 3
    && is_some_column (column mapping (codes "case_id"))
    && is_some_column (column mapping (codes "payment_cents"))
    && is_some_column (column mapping (codes "refund_cents"))
    && are_distinct (map (λ (m : Text × Text). m.1) mapping)

unfoldable pub parse_rows :
    (Text → Option (List (List Text))) → Text → Mapping → Result MaterialCode (List MaterialRow)
parse_rows read_csv raw mapping = do
  raise_if (not (is_full_mapping mapping)) mapping_invalid
  table ← or_raise (read_csv raw) csv_invalid
  elim table [ [] ↦ err csv_invalid | ◌∷◌ headers rest ↦ parse_table mapping headers rest ]
