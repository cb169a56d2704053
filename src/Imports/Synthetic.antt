-- ===== src/Imports/Synthetic.antt =====
-- core/imports/synthetic-csv-parser.ts.
use cloud_commitment_portfol.Base.{Option, some, List, [], ◌∷◌, length, if◌then◌else◌}
use cloud_commitment_portfol.Base.Text.{Text, codes, text_eq}
use cloud_commitment_portfol.Base.Json.{str}
use cloud_commitment_portfol.Imports.{
  ImportProvider, ControlTotal, missing_columns, rejected, import_empty, ImportParseResult,
  quarantined, Platform,
}
use cloud_commitment_portfol.Imports.Csv.{parse_csv}
use cloud_commitment_portfol.Imports.Cells.{parse_tags}
use cloud_commitment_portfol.Imports.Rows.{
  HeaderResult, header_parsed, header_quarantined, validate_header, RowResult, usage_row,
  parse_rows, finish_rows,
}

-- `row[header.indexOf(column)] ?? ""`; the index -1 of a missing column gives "" too.
unfoldable pub column_value : List Text → List Text → Text → Text
column_value [] row column = []
column_value (name ∷ header) [] column = []
column_value (name ∷ header) (cell ∷ row) column =
    if text_eq name column then cell else column_value header row column

module _ (platform : Platform) (account_provider : ImportProvider) where
  -- `parseUsageRow`.
  unfoldable pub parse_usage_row : List Text → List Text → RowResult
  unfolding column_value usage_row parse_tags
  parse_usage_row header row =
      usage_row platform account_provider (column_value header row)
        (parse_tags platform (some (str (column_value header row (codes "tags")))))

  abbrev pub with_header :
      List ControlTotal → List Text → List (List Text) → HeaderResult → Option ImportParseResult
  with_header expected header rows (header_quarantined names) =
      some (quarantined (length rows) (missing_columns names) [])
  with_header expected header rows (header_parsed warnings) =
      finish_rows (length rows) warnings [] expected (parse_rows (parse_usage_row header) 2 rows)

  abbrev pub from_records : List ControlTotal → List (List Text) → Option ImportParseResult
  from_records expected [] = some (quarantined 0 (rejected import_empty) [])
  from_records expected (header ∷ []) = some (quarantined 0 (rejected import_empty) [])
  from_records expected (header ∷ row ∷ rows) =
      with_header expected header (row ∷ rows) (validate_header header)

  -- `parseSyntheticCsvImport`; `none` is a throw.
  unfoldable pub parse_synthetic_csv_import : Text → List ControlTotal → Option ImportParseResult
  unfolding parse_csv validate_header parse_usage_row parse_rows finish_rows
  parse_synthetic_csv_import text expected = from_records expected (parse_csv text)
