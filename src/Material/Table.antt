-- ===== src/Material/Table.antt =====
-- What `parse_rows` of backend/app/customer_materials.py lets through.
use luheng_fulfillops_cloud.Base.{
  ℕ, ◌+◌, ◌≡◌, ◌≤◌, true, false, not, Option, List, [], ◌∷◌, arith, ◌==◌, ◌||◌, ltb, any, all,
  length, Text, text_eq, codes, err, Returned, Returned->>=, Returned-raise_if, Returned-or_raise,
  Returned-ok,
}
use luheng_fulfillops_cloud.Material.Rows.{Mapping, csv_invalid, mapping_invalid}
use luheng_fulfillops_cloud.Material.Csv.{
  MaterialRow, value_from, cell, is_header, is_full_mapping, are_distinct, is_case_id, is_amount,
  Indexes, field_index, parse_row, parse_from, parse_table, parse_rows,
}

-- A case number of the allowed form that is not among those before, and two amounts that a float holds exactly.
abbrev IsRead : List Text → MaterialRow → Type 0
IsRead seen r =
    (is_case_id r.case_id ≡ true)
    × (any (text_eq r.case_id) seen ≡ false)
    × (r.payment_cents ≤ 9007199254740991)
    × (r.refund_cents ≤ 9007199254740991)

abbrev AreRead : List Text → List MaterialRow → Type 0
AreRead seen [] = Unit
AreRead seen (r ∷ rs) = IsRead seen r × AreRead (r.case_id ∷ seen) rs

parse_row-IsRead :
    (seen : List Text) (at : Indexes) (values : List Text)
    → Returned (IsRead seen) (parse_row seen at values)
unfolding parse_row
parse_row-IsRead seen at values =
    let case_id = cell values at.case_id in
    let payment = cell values at.payment_cents in
    let refund = cell values at.refund_cents in
    Returned-raise_if (IsRead seen) (not (is_case_id case_id) || any (text_eq case_id) seen)
      csv_invalid _
      (λ a.
        Returned-raise_if (IsRead seen)
          (not (is_amount payment) || ltb 9007199254740991 (value_from 0 payment)) csv_invalid _
          (λ b.
            Returned-raise_if (IsRead seen)
              (not (is_amount refund) || ltb 9007199254740991 (value_from 0 refund)) csv_invalid _
              (λ c. (ground (arith, a), ground (arith, a), ground (arith, b), ground (arith, c)))))

parse_from-AreRead :
    (number width : ℕ) (seen : List Text) (at : Indexes) (table : List (List Text))
    → number ≤ 52
    → Returned
        (λ rows. (length rows + number ≤ 52) × AreRead seen rows)
        (parse_from number width seen at table)
unfolding parse_from
parse_from-AreRead number width seen at [] h = (omega arith, tt)
parse_from-AreRead number width seen at (values ∷ rest) h =
    let P = λ (rows : List MaterialRow). (length rows + number ≤ 52) × AreRead seen rows in
    Returned-raise_if P (ltb 51 number || not (length values == width)) csv_invalid _ (λ within.
      Returned->>= P (parse_row seen at values) _ (λ row read.
        Returned->>= P (parse_from (number + 1) width (row.case_id ∷ seen) at rest) _ (λ rows those.
          let (short, valid) =
            Returned-ok
              (λ rows. (length rows + (number + 1) ≤ 52) × AreRead (row.case_id ∷ seen) rows) _
              (parse_from-AreRead (number + 1) width (row.case_id ∷ seen) at rest
                (ground (arith, within)))
              those in
          (
            omega arith,
            (Returned-ok (IsRead seen) _ (parse_row-IsRead seen at values) read, valid),
          ))))

abbrev pub IsTable : List MaterialRow → Type 0
IsTable rows = (1 ≤ length rows) × (length rows ≤ 50) × AreRead [] rows

parse_table-IsTable :
    (mapping : Mapping) (headers : List Text) (rest : List (List Text))
    → Returned IsTable (parse_table mapping headers rest)
unfolding parse_table
parse_table-IsTable mapping headers rest =
    Returned-raise_if IsTable
      (ltb 30 (length headers) || not (are_distinct headers) || not (all is_header headers))
      csv_invalid _
      (λ _.
        Returned-raise_if IsTable
          (not (all (λ (m : Text × Text). any (text_eq m.1) headers) mapping)) csv_invalid _
          (λ _. Returned->>= IsTable (field_index mapping headers (codes "case_id")) _ (λ case_id _.
            Returned->>= IsTable (field_index mapping headers (codes "payment_cents")) _
              (λ payment _.
                Returned->>= IsTable (field_index mapping headers (codes "refund_cents")) _
                  (λ refund _.
                    let at : Indexes = record {
                      case_id = case_id;
                      payment_cents = payment;
                      refund_cents = refund;
                    } in
                    Returned->>= IsTable (parse_from 2 (length headers) [] at rest) _ (λ rows read.
                      Returned-raise_if IsTable (length rows == 0) csv_invalid _ (λ some_row.
                        let (short, valid) =
                          Returned-ok (λ rows. (length rows + 2 ≤ 52) × AreRead [] rows) _
                            (parse_from-AreRead 2 (length headers) [] at rest (omega arith)) read in
                        (ground (arith, some_row), omega arith, valid))))))))

headed_rows :
    (mapping : Mapping) (table : List (List Text))
    → Returned IsTable
        (elim table [ [] ↦ err csv_invalid | ◌∷◌ headers rest ↦ parse_table mapping headers rest ])
headed_rows mapping [] = tt
headed_rows mapping (headers ∷ rest) = parse_table-IsTable mapping headers rest

-- A table that is read has from 1 to 50 rows, each with a case number of the allowed form that no row before it has,
-- and with amounts of at most 9007199254740991 cents.
pub parse_rows-IsTable :
    (read_csv : Text → Option (List (List Text))) (raw : Text) (mapping : Mapping)
    → Returned IsTable (parse_rows read_csv raw mapping)
unfolding parse_rows
parse_rows-IsTable read_csv raw mapping =
    Returned-raise_if IsTable (not (is_full_mapping mapping)) mapping_invalid _ (λ _.
      Returned-or_raise IsTable (read_csv raw) csv_invalid _ (λ table _. headed_rows mapping table))
