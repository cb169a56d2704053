-- ===== src/Imports/AwsCur.antt =====
-- core/imports/aws-cur-csv-parser.ts.
pub mod Money
use cloud_commitment_portfol.Base.{
  ℕ, suc, ◌+◌, Bool, true, false, not, ◌&&◌, ◌||◌, ◌==◌, Option, none, some, List, [], ◌∷◌, ◌++◌,
  filter, any, all, length, drop, leb, if◌then◌else◌, ◌>>=◌,
}
use cloud_commitment_portfol.Base.Int.{ℤ, pos, ltb_ℤ, ◌+ℤ◌, ◌*ℤ◌, ◌-ℤ◌, quot}
use cloud_commitment_portfol.Base.Text.{
  Text, codes, text_eq, trim, split, pad_end, big_int, to_text,
}
use cloud_commitment_portfol.Base.Json.{Fields, end, field, str}
use cloud_commitment_portfol.Imports.{
  ImportProvider, aws, azure, gcp, ControlTotal, usage_period, ErrorDetails, missing_columns,
  rejected, import_empty, import_account_provider_mismatch, ImportParseResult, quarantined,
  Platform,
}
use cloud_commitment_portfol.Imports.Csv.{parse_csv}
use cloud_commitment_portfol.Imports.Cells.{
  is_digit, is_unsigned, decimal, is_empty, text_field, iso_date, ends_before,
}
use cloud_commitment_portfol.Imports.Rows.{
  includes, HeaderResult, header_parsed, header_quarantined, header_result, RowResult, row_parsed,
  row_error, caught, parse_rows, finish_rows,
}
use cloud_commitment_portfol.Imports.Synthetic.{column_value}

-- `REQUIRED_COLUMNS`.
abbrev pub required_columns : List Text
required_columns =
    codes "lineItem/UsageAccountId"
    ∷ codes "lineItem/ProductCode"
    ∷ codes "lineItem/UsageType"
    ∷ codes "product/region"
    ∷ codes "lineItem/UsageStartDate"
    ∷ codes "lineItem/UsageEndDate"
    ∷ codes "lineItem/UsageAmount"
    ∷ codes "lineItem/UsageUnit"
    ∷ codes "pricing/publicOnDemandCost"
    ∷ codes "lineItem/UnblendedCost"
    ∷ []

-- `KNOWN_OPTIONAL_COLUMNS`.
abbrev pub known_optional_columns : List Text
known_optional_columns =
    codes "savingsPlan/SavingsPlanEffectiveCost" ∷ codes "resourceTags/user:Environment" ∷ []

-- `validateHeader`.
unfoldable pub validate_header : List Text → HeaderResult
unfolding includes
validate_header header =
    header_result (filter (λ column. not (includes header column)) required_columns) (
      filter
        (λ column.
          not (includes required_columns column) && not (includes known_optional_columns column))
        header)

-- `MONEY_PATTERN` on the pieces between full stops, with the fraction that the destructuring takes.
unfoldable pub money_pieces : List Text → Option (Text × Text)
unfolding is_unsigned
money_pieces [] = none
money_pieces (whole ∷ []) = if is_unsigned 17 whole then some (whole, []) else none
money_pieces (whole ∷ fraction ∷ []) =
    if is_unsigned 17 whole
      && all is_digit fraction
      && leb 1 (length fraction)
      && leb (length fraction) 10
    then some (whole, fraction)
    else none
money_pieces (whole ∷ fraction ∷ more ∷ pieces) = none

abbrev pub scale : ℤ
scale = pos 10000000000

-- `((scaled * 100n + scale / 2n) / scale)`.
unfoldable pub cents_of_scaled : ℤ → ℤ
cents_of_scaled scaled = quot (scaled *ℤ pos 100 +ℤ quot scale (pos 2)) scale

abbrev pub cents_of_pieces : Text × Text → Option Text
cents_of_pieces (whole, fraction) = do
  w ← big_int whole
  f ← big_int (pad_end 10 b'0' fraction)
  some (to_text (cents_of_scaled (w *ℤ scale +ℤ f)))

-- `moneyCents`; `none` is a throw.
unfoldable pub money_cents : Text → Option Text
unfolding money_pieces cents_of_scaled
money_cents value = money_pieces (split b'.' (trim value)) >>= cents_of_pieces

-- `row[header.indexOf(column)]`; `none` is `undefined`.
unfoldable pub column_cell : List Text → List Text → Text → Option Text
column_cell [] row column = none
column_cell (name ∷ header) [] column = none
column_cell (name ∷ header) (cell ∷ row) column =
    if text_eq name column then some cell else column_cell header row column

-- `column.startsWith(prefix)`.
unfoldable pub starts_with : Text → Text → Bool
starts_with [] s = true
starts_with (c ∷ prefix) [] = false
starts_with (c ∷ prefix) (d ∷ s) = c == d && starts_with prefix s

abbrev pub tag_prefix : Text
tag_prefix = codes "resourceTags/user:"

unfoldable pub set_member : Text → Text → Fields → Fields
set_member key value end = field key (str value) end
set_member key value (field k v rest) =
    if text_eq k key then field k (str value) rest else field k v (set_member key value rest)

-- `result[key] = raw`; a text assigned to `__proto__` goes nowhere.
abbrev pub assign_tag : Text → Text → Fields → Fields
assign_tag key raw result =
    if text_eq key (codes "__proto__") then result else set_member key raw result

module _ (platform : Platform) where
  abbrev pub add_tag : Text → Option Text → Fields → Fields
  add_tag column none result = result
  add_tag column (some cell) result =
      let raw = trim (platform.normalize_nfc cell) in
      if is_empty raw then result else assign_tag (drop (length tag_prefix) column) raw result

  -- The loop of `tags`.
  unfoldable pub tags_from : List Text → List Text → List Text → Fields → Fields
  unfolding column_cell starts_with set_member
  tags_from header row [] result = result
  tags_from header row (column ∷ columns) result = tags_from header row columns (
      if starts_with tag_prefix column
      then add_tag column (column_cell header row column) result
      else result)

  -- `tags`.
  unfoldable pub tags : List Text → List Text → Fields
  unfolding tags_from
  tags header row = tags_from header row header end

  -- `a || b` on texts.
  abbrev pub or_text : Text → Text → Text
  or_text [] b = b
  or_text (c ∷ a) b = c ∷ a

  -- The costs and the other fields.
  unfoldable pub row_with_period : List Text → List Text → Text → Text → Option RowResult
  unfolding money_cents column_value big_int to_text text_field decimal tags
  row_with_period header row usage_start usage_end = do
    on_demand ← money_cents (column_value header row (codes "pricing/publicOnDemandCost"))
    realized ← money_cents (
        or_text (column_value header row (codes "savingsPlan/SavingsPlanEffectiveCost"))
          (column_value header row (codes "lineItem/UnblendedCost")))
    o ← big_int on_demand
    r ← big_int realized
    service_code ← text_field platform (column_value header row (codes "lineItem/ProductCode"))
    sku ← text_field platform (column_value header row (codes "lineItem/UsageType"))
    region ← text_field platform (column_value header row (codes "product/region"))
    quantity ← decimal (column_value header row (codes "lineItem/UsageAmount"))
    unit ← text_field platform (column_value header row (codes "lineItem/UsageUnit"))
    some (
        row_parsed record {
          provider = aws;
          service_code = service_code;
          sku = sku;
          region = region;
          usage_start = usage_start;
          usage_end = usage_end;
          usage_quantity = quantity;
          usage_unit = unit;
          on_demand_cost_cents = on_demand;
          realized_cost_cents = realized;
          commitment_applied_cents = if ltb_ℤ r o then to_text (o -ℤ r) else codes "0";
          tags = tags header row;
        })

  abbrev pub row_with_dates : List Text → List Text → Option Text → Option Text → Option RowResult
  row_with_dates header row none usage_end = some (row_error usage_period)
  row_with_dates header row (some usage_start) none = some (row_error usage_period)
  row_with_dates header row (some usage_start) (some usage_end) =
      if ends_before platform usage_end usage_start
      then some (row_error usage_period)
      else row_with_period header row usage_start usage_end

  -- `parseUsageRow`.
  unfoldable pub parse_usage_row : List Text → List Text → RowResult
  unfolding column_value iso_date ends_before row_with_period
  parse_usage_row header row = caught (
      row_with_dates header row
        (iso_date platform (column_value header row (codes "lineItem/UsageStartDate")))
        (iso_date platform (column_value header row (codes "lineItem/UsageEndDate"))))

  abbrev pub with_header :
      List ControlTotal → List Text → List (List Text) → HeaderResult → Option ImportParseResult
  with_header expected header rows (header_quarantined names) =
      some (quarantined (length rows) (missing_columns names) [])
  with_header expected header rows (header_parsed warnings) =
      finish_rows (length rows) warnings warnings expected
        (parse_rows (parse_usage_row header) 2 rows)

  abbrev pub from_records : List ControlTotal → List (List Text) → Option ImportParseResult
  from_records expected [] = some (quarantined 0 (rejected import_empty) [])
  from_records expected (header ∷ []) = some (quarantined 0 (rejected import_empty) [])
  from_records expected (header ∷ row ∷ rows) =
      with_header expected header (row ∷ rows) (validate_header header)

  abbrev pub is_aws : ImportProvider → Bool
  is_aws aws = true
  is_aws azure = false
  is_aws gcp = false

  -- `parseAwsCurCsvImport`; `none` is a throw.
  unfoldable pub parse_aws_cur_csv_import :
      ImportProvider → Text → List ControlTotal → Option ImportParseResult
  unfolding parse_csv validate_header parse_usage_row parse_rows finish_rows
  parse_aws_cur_csv_import account_provider text expected =
      if not (is_aws account_provider)
      then some (quarantined 0 (rejected import_account_provider_mismatch) [])
      else from_records expected (parse_csv text)
