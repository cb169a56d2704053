-- ===== src/Imports/Canonical.antt =====
-- core/imports/canonical-usage-parser.ts; the Parquet reader is a parameter, the promise that it
-- returns stands as its value.
use cloud_commitment_portfol.Base.{
  Bool, true, false, ◌&&◌, Option, none, some, List, [], ◌∷◌, length, map, ltb, if◌then◌else◌,
  ◌>>=◌,
}
use cloud_commitment_portfol.Base.Text.{Text, codes, text_eq}
use cloud_commitment_portfol.Base.Json.{
  Json, Fields, end, field, null, bool, int, frac, str, arr, obj, items, member,
}
use cloud_commitment_portfol.Imports.{
  ImportProvider, ControlTotal, missing_columns, rejected, import_empty, import_schema_drift,
  import_manual_override_too_large, ImportParseResult, quarantined, Platform,
}
use cloud_commitment_portfol.Imports.Csv.{parse_csv}
use cloud_commitment_portfol.Imports.Cells.{string_value, as_fields, parse_tags}
use cloud_commitment_portfol.Imports.Rows.{
  HeaderResult, header_parsed, header_quarantined, validate_header, RowResult, usage_row,
  parse_rows, finish_rows,
}

abbrev pub has_member : Option Json → Bool
has_member none = false
has_member (some v) = true

-- `Object.fromEntries(header.map((name, index) => [name, row[index] ?? ""]))`: the last of two
-- entries with one name stays. The order of the names is not read.
abbrev pub head_cell : List Text → Text
head_cell [] = []
head_cell (cell ∷ row) = cell

abbrev pub tail_cells : List Text → List Text
tail_cells [] = []
tail_cells (cell ∷ row) = row

unfoldable pub from_entries : List Text → List Text → Fields
unfolding member
from_entries [] row = end
from_entries (name ∷ header) row =
    let rest = from_entries header (tail_cells row) in
    if has_member (member name rest) then rest else field name (str (head_cell row)) rest

pub data JsonFormat : Type 0 where
  json_api_snapshot manual_override : JsonFormat

abbrev pub expected_schema : JsonFormat → Text
expected_schema json_api_snapshot = codes "canonical_usage_snapshot:v1"
expected_schema manual_override = codes "manual_usage_override:v1"

abbrev pub is_manual : JsonFormat → Bool
is_manual json_api_snapshot = false
is_manual manual_override = true

-- `row && typeof row === "object" ? row : {}`; an array has no column either.
abbrev pub fields_or_empty : Option Fields → Fields
fields_or_empty none = end
fields_or_empty (some fields) = fields

abbrev pub row_fields : Json → Fields
row_fields row = fields_or_empty (as_fields (some row))

abbrev pub has_schema : Option Json → Text → Bool
has_schema none schema = false
has_schema (some (str t)) schema = text_eq t schema
has_schema (some null) schema = false
has_schema (some (bool b)) schema = false
has_schema (some (int n)) schema = false
has_schema (some (frac t)) schema = false
has_schema (some (arr vs)) schema = false
has_schema (some (obj fields)) schema = false

abbrev pub as_array : Option Json → Option (List Json)
as_array none = none
as_array (some (arr vs)) = some (items vs)
as_array (some (str t)) = none
as_array (some null) = none
as_array (some (bool b)) = none
as_array (some (int n)) = none
as_array (some (frac t)) = none
as_array (some (obj fields)) = none

pub data ImportFormat : Type 0 where
  csv parquet : ImportFormat
  json : JsonFormat → ImportFormat

module _ (platform : Platform) (account_provider : ImportProvider) where
  -- `parseUsageRow`.
  unfoldable pub parse_usage_row : Fields → RowResult
  unfolding usage_row parse_tags member
  parse_usage_row row =
      usage_row platform account_provider (λ column. string_value (member column row))
        (parse_tags platform (member (codes "tags") row))

  -- `parseCanonicalRows`.
  unfoldable pub parse_canonical_rows :
      List Fields → List ControlTotal → List Text → Option ImportParseResult
  unfolding parse_usage_row parse_rows finish_rows
  parse_canonical_rows [] expected warnings = some (quarantined 0 (rejected import_empty) [])
  parse_canonical_rows (row ∷ rows) expected warnings =
      finish_rows (length (row ∷ rows)) warnings warnings expected
        (parse_rows parse_usage_row 1 (row ∷ rows))

  abbrev pub with_header :
      List ControlTotal → List Text → List (List Text) → HeaderResult → Option ImportParseResult
  with_header expected header rows (header_quarantined names) =
      some (quarantined (length rows) (missing_columns names) [])
  with_header expected header rows (header_parsed warnings) =
      parse_canonical_rows (map (from_entries header) rows) expected warnings

  abbrev pub from_records : List ControlTotal → List (List Text) → Option ImportParseResult
  from_records expected [] = some (quarantined 0 (rejected import_empty) [])
  from_records expected (header ∷ []) = some (quarantined 0 (rejected import_empty) [])
  from_records expected (header ∷ row ∷ rows) =
      with_header expected header (row ∷ rows) (validate_header header)

  -- `parseCanonicalCsvImport`; `none` is a throw.
  unfoldable pub parse_canonical_csv_import : Text → List ControlTotal → Option ImportParseResult
  unfolding parse_csv validate_header from_entries parse_canonical_rows
  parse_canonical_csv_import text expected = from_records expected (parse_csv text)

  abbrev pub from_rows :
      JsonFormat → List ControlTotal → Option (List Json) → Option ImportParseResult
  from_rows format expected none = some (quarantined 0 (rejected import_schema_drift) [])
  from_rows format expected (some rows) =
      if is_manual format && ltb 100 (length rows)
      then some (quarantined 0 (rejected import_manual_override_too_large) [])
      else parse_canonical_rows (map row_fields rows) expected []

  abbrev pub from_object : JsonFormat → List ControlTotal → Option Fields → Option ImportParseResult
  from_object format expected none = some (quarantined 0 (rejected import_schema_drift) [])
  from_object format expected (some object) =
      if has_schema (member (codes "schema_version") object) (expected_schema format)
      then from_rows format expected (as_array (member (codes "rows") object))
      else some (quarantined 0 (rejected import_schema_drift) [])

  -- `parseCanonicalJsonImport`.
  unfoldable pub parse_canonical_json_import :
      Text → List ControlTotal → JsonFormat → Option ImportParseResult
  unfolding member parse_canonical_rows
  parse_canonical_json_import text expected format =
      from_object format expected (as_fields (platform.json_parse text))

  -- `parseCanonicalUsageImport`, on the text of the bytes and the rows that the Parquet reader
  -- finds in them, `none` if it throws.
  unfoldable pub parse_canonical_usage_import :
      Text → Option (List Fields) → List ControlTotal → ImportFormat → Option ImportParseResult
  unfolding parse_canonical_csv_import parse_canonical_rows parse_canonical_json_import
  parse_canonical_usage_import text parquet_rows expected csv =
      parse_canonical_csv_import text expected
  parse_canonical_usage_import text parquet_rows expected parquet =
      parquet_rows >>= λ rows. parse_canonical_rows rows expected []
  parse_canonical_usage_import text parquet_rows expected (json format) =
      parse_canonical_json_import text expected format
