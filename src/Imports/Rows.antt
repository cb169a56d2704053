-- ===== src/Imports/Rows.antt =====
-- The header and the rows of a usage file, as core/imports/canonical-usage-parser.ts and
-- core/imports/synthetic-csv-parser.ts read them.
use cloud_commitment_portfol.Base.{
  ℕ, suc, Bool, not, Option, none, some, List, [], ◌∷◌, filter, any, if◌then◌else◌, ◌>>=◌,
}
use cloud_commitment_portfol.Base.Int.{ltb_ℤ}
use cloud_commitment_portfol.Base.Text.{Text, codes, text_eq, big_int}
use cloud_commitment_portfol.Base.Json.{Fields}
use cloud_commitment_portfol.Imports.{
  ImportProvider, aws, azure, gcp, provider_text, UsageLineItem, ControlTotal, RowField,
  usage_period, required_field, ErrorDetails, row_invalid, ImportParseResult, parsed, quarantined,
  Platform,
}
use cloud_commitment_portfol.Imports.Cells.{decimal, integer, text_field, iso_date, ends_before}
use cloud_commitment_portfol.Imports.Totals.{validate_control_totals}

-- `REQUIRED_COLUMNS`.
abbrev pub required_columns : List Text
required_columns =
    codes "provider"
    ∷ codes "service_code"
    ∷ codes "sku"
    ∷ codes "region"
    ∷ codes "usage_start"
    ∷ codes "usage_end"
    ∷ codes "usage_quantity"
    ∷ codes "usage_unit"
    ∷ codes "on_demand_cost_cents"
    ∷ codes "realized_cost_cents"
    ∷ codes "commitment_applied_cents"
    ∷ codes "tags"
    ∷ []

-- `names.includes(name)`.
unfoldable pub includes : List Text → Text → Bool
includes names name = any (λ other. text_eq other name) names

pub data HeaderResult : Type 0 where
  header_parsed : List Text → HeaderResult
  header_quarantined : List Text → HeaderResult

abbrev pub header_result : List Text → List Text → HeaderResult
header_result [] extra = header_parsed extra
header_result (name ∷ names) extra = header_quarantined (name ∷ names)

-- `validateHeader`.
unfoldable pub validate_header : List Text → HeaderResult
unfolding includes
validate_header header =
    header_result (filter (λ column. not (includes header column)) required_columns)
      (filter (λ column. not (includes required_columns column)) header)

pub data RowResult : Type 0 where
  row_parsed : UsageLineItem → RowResult
  row_error : RowField → RowResult

-- `provider !== "aws" && …`, with the provider that the text names.
unfoldable pub provider_of : Text → Option ImportProvider
provider_of name =
    if text_eq name (provider_text aws)
    then some aws
    else if text_eq name (provider_text azure)
    then some azure
    else if text_eq name (provider_text gcp)
    then some gcp
    else none

-- A return or a throw of the `try` block.
abbrev pub caught : Option RowResult → RowResult
caught none = row_error required_field
caught (some result) = result

module _ (platform : Platform) (account_provider : ImportProvider) where
  -- The fields after the tags, each of which may throw.
  unfoldable pub build_row :
      (Text → Text) → ImportProvider → Text → Text → Text → Text → Text → Fields → Option RowResult
  unfolding text_field decimal
  build_row value provider usage_start usage_end on_demand realized applied tags = do
    service_code ← text_field platform (value (codes "service_code"))
    sku ← text_field platform (value (codes "sku"))
    region ← text_field platform (value (codes "region"))
    quantity ← decimal (value (codes "usage_quantity"))
    unit ← text_field platform (value (codes "usage_unit"))
    some (
        row_parsed record {
          provider = provider;
          service_code = service_code;
          sku = sku;
          region = region;
          usage_start = usage_start;
          usage_end = usage_end;
          usage_quantity = quantity;
          usage_unit = unit;
          on_demand_cost_cents = on_demand;
          realized_cost_cents = realized;
          commitment_applied_cents = applied;
          tags = tags;
        })

  abbrev pub row_with_tags :
      (Text → Text)
      → ImportProvider
      → Text
      → Text
      → Text
      → Text
      → Text
      → Option Fields
      → Option RowResult
  row_with_tags value provider usage_start usage_end on_demand realized applied none =
      some (row_error RowField.tags)
  row_with_tags value provider usage_start usage_end on_demand realized applied (some tags) =
      build_row value provider usage_start usage_end on_demand realized applied tags

  -- The three amounts and the tags.
  unfoldable pub row_with_period :
      (Text → Text) → Option Fields → ImportProvider → Text → Text → Option RowResult
  unfolding integer big_int build_row
  row_with_period value tags provider usage_start usage_end = do
    on_demand ← integer (value (codes "on_demand_cost_cents"))
    realized ← integer (value (codes "realized_cost_cents"))
    applied ← integer (value (codes "commitment_applied_cents"))
    applied_cents ← big_int applied
    on_demand_cents ← big_int on_demand
    if ltb_ℤ on_demand_cents applied_cents
        then some (row_error RowField.commitment_applied_cents)
        else row_with_tags value provider usage_start usage_end on_demand realized applied tags

  abbrev pub row_with_dates :
      (Text → Text) → Option Fields → ImportProvider → Option Text → Option Text → Option RowResult
  row_with_dates value tags provider none usage_end = some (row_error usage_period)
  row_with_dates value tags provider (some usage_start) none = some (row_error usage_period)
  row_with_dates value tags provider (some usage_start) (some usage_end) =
      if ends_before platform usage_end usage_start
      then some (row_error usage_period)
      else row_with_period value tags provider usage_start usage_end

  abbrev pub row_with_provider :
      (Text → Text) → Option Fields → Option ImportProvider → Option RowResult
  row_with_provider value tags none = some (row_error RowField.provider)
  row_with_provider value tags (some provider) =
      if not (text_eq (provider_text provider) (provider_text account_provider))
      then some (row_error RowField.provider)
      else row_with_dates value tags provider (iso_date platform (value (codes "usage_start")))
          (iso_date platform (value (codes "usage_end")))

  -- `parseUsageRow`, over the text of each column and the tags.
  unfoldable pub usage_row : (Text → Text) → Option Fields → RowResult
  unfolding provider_of iso_date ends_before row_with_period
  usage_row value tags =
      caught (row_with_provider value tags (provider_of (value (codes "provider"))))

-- What the loop over the rows ends with: all rows, or the first error with its line.
pub data RowsResult : Type 0 where
  rows_parsed : List UsageLineItem → RowsResult
  rows_error : ℕ → RowField → RowsResult

abbrev pub push_row : RowResult → ℕ → RowsResult → RowsResult
push_row (row_error name) line rest = rows_error line name
push_row (row_parsed row) line (rows_parsed rows) = rows_parsed (row ∷ rows)
push_row (row_parsed row) line (rows_error other name) = rows_error other name

-- The loop; `line` is the number of the first row.
unfoldable pub parse_rows : {R : Type 0} → (R → RowResult) → ℕ → List R → RowsResult
parse_rows parse line [] = rows_parsed []
parse_rows parse line (row ∷ rows) = push_row (parse row) line (parse_rows parse (suc line) rows)

abbrev pub accepted : ℕ → List UsageLineItem → List Text → Option ErrorDetails → ImportParseResult
accepted line_count rows warnings none =
    parsed record { line_count = line_count; rows = rows; parser_warnings = warnings }
accepted line_count rows warnings (some details) = quarantined line_count details warnings

-- After the loop: the control totals. `none` is a throw; `error_warnings` go with a row's error.
unfoldable pub finish_rows :
    ℕ → List Text → List Text → List ControlTotal → RowsResult → Option ImportParseResult
unfolding validate_control_totals
finish_rows line_count warnings error_warnings expected (rows_error line name) =
    some (quarantined line_count (row_invalid line name) error_warnings)
finish_rows line_count warnings error_warnings expected (rows_parsed rows) = do
  checked ← validate_control_totals rows expected
  some (accepted line_count rows warnings checked)
