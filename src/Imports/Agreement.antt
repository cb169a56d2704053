-- ===== src/Imports/Agreement.antt =====
-- The two readers of canonical CSV files give the same answers.
use cloud_commitment_portfol.Base.{
  ℕ, suc, ◌≡◌, ◌∙◌, refl, sym, ap, ◌⊎◌, true, not, ◌==◌, Option, none, some, List, [], ◌∷◌, all,
  map, length, if_cases, Option-cases, inl, inr, length-map,
}
use cloud_commitment_portfol.Base.Text.{Text, codes}
use cloud_commitment_portfol.Base.Json.{str, member}
use cloud_commitment_portfol.Imports.{
  ImportProvider, ControlTotal, ErrorDetails, row_invalid, missing_columns, control_total_mismatch,
  rejected, ImportParseResult, parsed, quarantined, Platform,
}
use cloud_commitment_portfol.Imports.Csv.{parse_csv}
use cloud_commitment_portfol.Imports.Cells.{string_value, parse_tags}
use cloud_commitment_portfol.Imports.Totals.{
  MutableTotal, Entries, compare_totals, totals_from, expected_from, validate_control_totals,
  matches_candidate, get,
}
use cloud_commitment_portfol.Imports.Rows.{
  includes, HeaderResult, header_parsed, header_quarantined, validate_header, RowResult, row_parsed,
  row_error, usage_row, RowsResult, rows_parsed, rows_error, push_row, parse_rows, finish_rows,
}
use cloud_commitment_portfol.Imports.Columns.{
  distinct, header_of, member-from_entries, column_value-found, validate_header-tags,
}
use cloud_commitment_portfol.Imports.Synthetic
use cloud_commitment_portfol.Imports.Synthetic.{column_value, parse_synthetic_csv_import}
use cloud_commitment_portfol.Imports.Canonical
use cloud_commitment_portfol.Imports.Canonical.{
  from_entries, has_member, tail_cells, head_cell, parse_canonical_csv_import, parse_canonical_rows,
}

-- The answer of the canonical parser as the synthetic one gives it: the line of a row's error is
-- counted from the header, and comes without the warnings of the header.
abbrev pub restate : ImportParseResult → ImportParseResult
restate (parsed rows) = parsed rows
restate (quarantined count (row_invalid line name) warnings) =
    quarantined count (row_invalid (suc line) name) []
restate (quarantined count (missing_columns names) warnings) =
    quarantined count (missing_columns names) warnings
restate (quarantined count control_total_mismatch warnings) =
    quarantined count control_total_mismatch warnings
restate (quarantined count (rejected code) warnings) = quarantined count (rejected code) warnings

abbrev pub restate_option : Option ImportParseResult → Option ImportParseResult
restate_option none = none
restate_option (some r) = some (restate r)

abbrev next_line : RowsResult → RowsResult
next_line (rows_parsed rows) = rows_parsed rows
next_line (rows_error line name) = rows_error (suc line) name

push_row-next :
    (r : RowResult) (line : ℕ) (rest : RowsResult)
    → push_row r (suc line) (next_line rest) ≡ next_line (push_row r line rest)
push_row-next (row_error name) line rest = refl
push_row-next (row_parsed row) line (rows_parsed rows) = refl
push_row-next (row_parsed row) line (rows_error other name) = refl

parse_rows-next :
    {R R' : Type 0} (parse : R → RowResult) (parse' : R' → RowResult) (convert : R → R')
    → ((row : R) → parse row ≡ parse' (convert row))
    → (line : ℕ) (rows : List R)
    → parse_rows parse (suc line) rows ≡ next_line (parse_rows parse' line (map convert rows))
unfolding parse_rows
parse_rows-next parse parse' convert same line [] = refl
parse_rows-next parse parse' convert same line (row ∷ rows) =
    rw (same row, parse_rows-next parse parse' convert same (suc line) rows)
      (push_row-next (parse' (convert row)) line (parse_rows parse' (suc line) (map convert rows)))

-- The only error that the control totals give.
compare_totals-error :
    (actual : Entries MutableTotal) (expected : Entries ControlTotal)
    → (compare_totals actual expected ≡ none)
      ⊎ (compare_totals actual expected ≡ some control_total_mismatch)
unfolding compare_totals
compare_totals-error actual expected =
    if_cases Fails (not (length actual == length expected)) (λ e. inr refl)
      (λ e.
        if_cases Fails (all (λ (key, total). matches_candidate total (get key expected)) actual)
          (λ f. inl refl) (λ f. inr refl))
  where
    Fails : Option ErrorDetails → Type 0
    Fails o = (o ≡ none) ⊎ (o ≡ some control_total_mismatch)

finish_rows-next :
    (count : ℕ) (warnings : List Text) (expected : List ControlTotal) (r : RowsResult)
    → finish_rows count warnings [] expected (next_line r)
      ≡ restate_option (finish_rows count warnings warnings expected r)
unfolding finish_rows validate_control_totals
finish_rows-next count warnings expected (rows_error line name) = refl
finish_rows-next count warnings expected (rows_parsed rows) =
    elim (Option-cases (totals_from rows [])) [
      | inl e ↦ rw e refl
      | inr (actual, e) ↦ rw e (elim (compare_totals-error actual (expected_from expected [])) [
        | inl f ↦ rw f refl
        | inr f ↦ rw f refl
      ])
    ]

module _ (platform : Platform) (account_provider : ImportProvider) where
  parse_usage_row-same :
      (header row : List Text)
      → distinct header ≡ true
      → includes header (codes "tags") ≡ true
      → Synthetic.parse_usage_row platform account_provider header row
        ≡ Canonical.parse_usage_row platform account_provider (from_entries header row)
  unfolding Synthetic.parse_usage_row Canonical.parse_usage_row
  parse_usage_row-same header row h tagged =
      let values : column_value header row
          ≡ (λ c. string_value (member c (from_entries header row))) =
        λ i c.
          (column_value-found header row c
              ∙ ap string_value (sym (member-from_entries c header row h)))
            i in
      let tags : some (str (column_value header row (codes "tags")))
          ≡ member (codes "tags") (from_entries header row) =
        sym (member-from_entries (codes "tags") header row h ∙ rw tagged refl) in
      λ i. usage_row platform account_provider (values i) (parse_tags platform (tags i))

  with_header-same :
      (expected : List ControlTotal) (header row : List Text) (rows : List (List Text))
      (result : HeaderResult)
      → validate_header header ≡ result
      → distinct header ≡ true
      → Synthetic.with_header platform account_provider expected header (row ∷ rows) result
        ≡ restate_option
            (Canonical.with_header platform account_provider expected header (row ∷ rows) result)
  unfolding Canonical.parse_canonical_rows
  with_header-same expected header row rows (header_quarantined names) h d = refl
  with_header-same expected header row rows (header_parsed warnings) h d =
      let same =
        parse_rows-next (Synthetic.parse_usage_row platform account_provider header)
          (Canonical.parse_usage_row platform account_provider) (from_entries header)
          (λ r. parse_usage_row-same header r d (validate_header-tags header warnings h)) 1
          (row ∷ rows) in
      rw (same, length-map (from_entries header) rows)
        (finish_rows-next (length (row ∷ rows)) warnings expected (
          parse_rows (Canonical.parse_usage_row platform account_provider) 1
            (map (from_entries header) (row ∷ rows))))

  from_records-same :
      (expected : List ControlTotal) (records : List (List Text))
      → distinct (header_of records) ≡ true
      → Synthetic.from_records platform account_provider expected records
        ≡ restate_option (Canonical.from_records platform account_provider expected records)
  from_records-same expected [] d = refl
  from_records-same expected (header ∷ []) d = refl
  from_records-same expected (header ∷ row ∷ rows) d =
      with_header-same expected header row rows (validate_header header) refl d

  -- Where no column stands twice in the header, the synthetic parser gives for every text and all
  -- control totals the answer of the canonical one: the same rows, the same totals, the same fault,
  -- but for a row's error, whose line it counts from the header and which has no warnings.
  pub parse_synthetic_csv_import-same :
      (text : Text) (expected : List ControlTotal)
      → distinct (header_of (parse_csv text)) ≡ true
      → parse_synthetic_csv_import platform account_provider text expected
        ≡ restate_option (parse_canonical_csv_import platform account_provider text expected)
  unfolding parse_synthetic_csv_import parse_canonical_csv_import
  parse_synthetic_csv_import-same text expected d = from_records-same expected (parse_csv text) d
