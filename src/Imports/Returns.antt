-- ===== src/Imports/Returns.antt =====
-- Every import ends: with a fault, or with rows that are valid and match the control totals.
use cloud_commitment_portfol.Base.{
  ℕ, suc, ◌≡◌, ◌∙◌, refl, sym, ap, ◌&&◌, Option, none, some, List, [], ◌∷◌, map, length, All,
  if_cases, Option-cases, inl, inr, ltb,
}
use cloud_commitment_portfol.Base.Text.{Text, codes}
use cloud_commitment_portfol.Base.Json.{Json, Fields, member}
use cloud_commitment_portfol.Imports.{
  ImportProvider, UsageLineItem, ControlTotal, ErrorDetails, ImportParseResult, parsed, quarantined,
  Platform,
}
use cloud_commitment_portfol.Imports.Csv.{parse_csv}
use cloud_commitment_portfol.Imports.Cells.{as_fields, parse_tags, string_value}
use cloud_commitment_portfol.Imports.Totals.{
  MutableTotal, Entries, zero_total, or_else, get, set, row_key, add_row, totals_from,
  expected_from, compare_totals, validate_control_totals,
}
use cloud_commitment_portfol.Imports.Totals.Exact.{Matched, validate_control_totals-Matched}
use cloud_commitment_portfol.Imports.Rows.{
  RowResult, row_parsed, row_error, RowsResult, rows_parsed, rows_error, push_row, parse_rows,
  finish_rows, HeaderResult, header_parsed, header_quarantined, validate_header,
}
use cloud_commitment_portfol.Imports.Valid.{IsUsageRow, usage_row-IsUsageRow}
use cloud_commitment_portfol.Imports.Canonical.{
  from_entries, parse_usage_row, parse_canonical_rows, with_header, from_records, JsonFormat,
  is_manual, expected_schema, row_fields, has_schema, as_array, from_rows, from_object,
  ImportFormat, csv, parquet, json, parse_canonical_csv_import, parse_canonical_json_import,
  parse_canonical_usage_import,
}

-- What a result promises: parsed rows are rows of the account, they match the control totals, and
-- none is missing from the count.
pub Sound : ImportProvider → List ControlTotal → ImportParseResult → Type 0
Sound account expected (quarantined count details warnings) = Unit
Sound account expected (parsed p) =
    All (IsUsageRow account) p.rows
    × All (Matched p.rows expected) p.rows
    × (p.line_count ≡ length p.rows)

-- A computation that returns, with a sound result.
pub record Returns (account : ImportProvider) (expected : List ControlTotal)
    (o : Option ImportParseResult) : Type 0 where
  pub result : ImportParseResult
  pub returns : o ≡ some result
  pub is_sound : Sound account expected result

rejects :
    (account : ImportProvider) (expected : List ControlTotal) (count : ℕ) (details : ErrorDetails)
    (warnings : List Text)
    → Returns account expected (some (quarantined count details warnings))
unfolding Sound
rejects account expected count details warnings = record {
  result = quarantined count details warnings;
  returns = refl;
  is_sound = tt;
}

module _ (account : ImportProvider) where
  add_row-returns :
      (current : MutableTotal) (row : UsageLineItem)
      → IsUsageRow account row
      → (total : MutableTotal) × (add_row current row ≡ some total)
  unfolding add_row
  add_row-returns current row h =
      rw (h.reads_quantity, h.reads_on_demand, h.reads_realized, h.reads_applied) (_, refl)

  totals_from-returns :
      (rows : List UsageLineItem) (actual : Entries MutableTotal)
      → All (IsUsageRow account) rows
      → (after : Entries MutableTotal) × (totals_from rows actual ≡ some after)
  unfolding totals_from
  totals_from-returns [] actual h = (actual, refl)
  totals_from-returns (row ∷ rows) actual (h, hs) =
      let (current, added) =
        add_row-returns (or_else (get (row_key row) actual) zero_total) row h in
      rw added (totals_from-returns rows (set (row_key row) current actual) hs)

  module _ {R : Type 0} (parse : R → RowResult)
      (accepts : (r : R) (row : UsageLineItem)
        → parse r ≡ row_parsed row
        → IsUsageRow account row) where
    Rows : ℕ → RowsResult → Type 0
    Rows count (rows_error line name) = Unit
    Rows count (rows_parsed rows) = All (IsUsageRow account) rows × (length rows ≡ count)

    push_row-Rows :
        (r : RowResult) (line count : ℕ) (rest : RowsResult)
        → ((row : UsageLineItem) → r ≡ row_parsed row → IsUsageRow account row)
        → Rows count rest
        → Rows (suc count) (push_row r line rest)
    unfolding Rows
    push_row-Rows (row_error name) line count rest h k = tt
    push_row-Rows (row_parsed row) line count (rows_error other name) h k = tt
    push_row-Rows (row_parsed row) line count (rows_parsed rows) h (k, e) =
        ((h row refl, k), ap suc e)

    parse_rows-Rows : (line : ℕ) (rs : List R) → Rows (length rs) (parse_rows parse line rs)
    unfolding Rows parse_rows
    parse_rows-Rows line [] = (tt, refl)
    parse_rows-Rows line (r ∷ rs) =
        push_row-Rows (parse r) line (length rs) (parse_rows parse (suc line) rs) (accepts r)
          (parse_rows-Rows (suc line) rs)

    finish_rows-Returns :
        (count : ℕ) (warnings error_warnings : List Text) (expected : List ControlTotal)
        (r : RowsResult)
        → Rows count r
        → Returns account expected (finish_rows count warnings error_warnings expected r)
    unfolding finish_rows validate_control_totals Rows Sound
    finish_rows-Returns count warnings error_warnings expected (rows_error line name) h =
        rejects account expected count _ error_warnings
    finish_rows-Returns count warnings error_warnings expected (rows_parsed rows)
          (valid, all_rows) =
        let (actual, summed) = totals_from-returns rows [] valid in
        let checked = compare_totals actual (expected_from expected []) in
        let validated : validate_control_totals rows expected ≡ some checked = rw summed refl in
        elim (Option-cases checked) [
          | inl e ↦ record {
            result = parsed record { line_count = count; rows = rows; parser_warnings = warnings };
            returns = rw (summed, e) refl;
            is_sound = (
              valid,
              validate_control_totals-Matched rows expected (validated ∙ ap some e),
              sym all_rows,
            );
          }
          | inr (details, e) ↦ record {
            result = quarantined count details warnings;
            returns = rw (summed, e) refl;
            is_sound = tt;
          }
        ]

module _ (platform : Platform) (account : ImportProvider) (expected : List ControlTotal) where
  parse_canonical_rows-Returns :
      (rows : List Fields) (warnings : List Text)
      → Returns account expected (parse_canonical_rows platform account rows expected warnings)
  unfolding parse_canonical_rows
  parse_canonical_rows-Returns [] warnings = rejects account expected _ _ []
  parse_canonical_rows-Returns (row ∷ rows) warnings =
      finish_rows-Returns account parse accepts (length (row ∷ rows)) warnings warnings expected
        (parse_rows parse 1 (row ∷ rows)) (parse_rows-Rows account parse accepts 1 (row ∷ rows))
    where
      parse : Fields → RowResult
      parse = parse_usage_row platform account

      accepts :
          (fields : Fields) (r : UsageLineItem) → parse fields ≡ row_parsed r → IsUsageRow account r
      accepts fields r =
          usage_row-IsUsageRow platform account (λ column. string_value (member column fields)) r
            (parse_tags platform (member (codes "tags") fields))

  from_records-Returns :
      (records : List (List Text))
      → Returns account expected (from_records platform account expected records)
  from_records-Returns [] = rejects account expected _ _ []
  from_records-Returns (header ∷ []) = rejects account expected _ _ []
  from_records-Returns (header ∷ row ∷ rows) = go (validate_header header)
    where
      go :
          (result : HeaderResult)
          → Returns account expected
              (with_header platform account expected header (row ∷ rows) result)
      go (header_quarantined names) = rejects account expected _ _ []
      go (header_parsed warnings) =
          parse_canonical_rows-Returns (map (from_entries header) (row ∷ rows)) warnings

  from_rows-Returns :
      (format : JsonFormat) (rows : Option (List Json))
      → Returns account expected (from_rows platform account format expected rows)
  from_rows-Returns format none = rejects account expected _ _ []
  from_rows-Returns format (some rows) =
      if_cases (Returns account expected) (is_manual format && ltb 100 (length rows))
        (λ e. rejects account expected _ _ [])
        (λ e. parse_canonical_rows-Returns (map row_fields rows) [])

  from_object-Returns :
      (format : JsonFormat) (object : Option Fields)
      → Returns account expected (from_object platform account format expected object)
  from_object-Returns format none = rejects account expected _ _ []
  from_object-Returns format (some object) =
      if_cases (Returns account expected)
        (has_schema (member (codes "schema_version") object) (expected_schema format))
        (λ e. from_rows-Returns format (as_array (member (codes "rows") object)))
        (λ e. rejects account expected _ _ [])

  -- Every canonical import whose file the Parquet reader can read returns a result, in each format
  -- and for every content. Where it is parsed, each row is of the account, its quantity and amounts
  -- are numbers, its commitment is at most its on-demand cost, and its group matches a control
  -- total.
  pub parse_canonical_usage_import-Returns :
      (text : Text) (parquet_rows : List Fields) (format : ImportFormat)
      → Returns account expected
          (parse_canonical_usage_import platform account text (some parquet_rows) expected format)
  unfolding parse_canonical_usage_import parse_canonical_csv_import parse_canonical_json_import
  parse_canonical_usage_import-Returns text parquet_rows csv = from_records-Returns (parse_csv text)
  parse_canonical_usage_import-Returns text parquet_rows parquet =
      parse_canonical_rows-Returns parquet_rows []
  parse_canonical_usage_import-Returns text parquet_rows (json format) =
      from_object-Returns format (as_fields (platform.json_parse text))
