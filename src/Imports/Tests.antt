-- ===== src/Imports/Tests.antt =====
-- A CSV file with quotes, a usage file that is accepted by both parsers, and amounts in cents.
use cloud_commitment_portfol.Base.{
  ltb, length, ◌≡◌, refl, true, Option, none, some, List, [], ◌∷◌, ◌++◌, map, All,
}
use cloud_commitment_portfol.Base.Int.{ℤ, pos, negsuc, ◌+ℤ◌, ◌*ℤ◌, quot, rem}
use cloud_commitment_portfol.Base.Text.{
  Text, codes, text_eq, is_space, trim_start, trim_end, trim, split, pad_start, pad_end,
  digits_from, nat_to_text, to_text, digit_value, parse_digits, parse_number, prefix_base, big_int,
}
use cloud_commitment_portfol.Base.Json.{end, member, obj}
use cloud_commitment_portfol.Imports.{aws, ControlTotal, UsageLineItem, parsed, Platform}
use cloud_commitment_portfol.Imports.Csv.{
  read_quoted, read_plain, read_unit, read_from, last_row, has_value, parse_csv,
}
use cloud_commitment_portfol.Imports.Csv.RoundTrip.{print_csv, row_of, parse_csv-print_csv}
use cloud_commitment_portfol.Imports.Cells.{
  is_unsigned, is_decimal_8, is_unsigned_integer, decimal, integer, has_control_character,
  fold_case, starts_with, has_word, has_secret, text_field, iso_date, ends_before, parse_tags,
  parse_scaled_decimal,
}
use cloud_commitment_portfol.Imports.Totals.{
  row_key, control_total_key, add_row, get, set, totals_from, expected_from, scaled_decimal_text,
  matches_total, compare_totals, validate_control_totals,
}
use cloud_commitment_portfol.Imports.Totals.Exact.{Matched, validate_control_totals-Matched}
use cloud_commitment_portfol.Imports.Rows.{
  includes, validate_header, provider_of, build_row, row_with_period, usage_row, parse_rows,
  finish_rows,
}
use cloud_commitment_portfol.Imports.Synthetic.{column_value, parse_synthetic_csv_import}
use cloud_commitment_portfol.Imports.Canonical.{
  from_entries, parse_canonical_csv_import, parse_canonical_rows, parse_canonical_usage_import, csv,
}
use cloud_commitment_portfol.Imports.Columns.{distinct, header_of}
use cloud_commitment_portfol.Imports.Agreement.{restate_option, parse_synthetic_csv_import-same}
use cloud_commitment_portfol.Imports.Returns.{Returns, parse_canonical_usage_import-Returns}
use cloud_commitment_portfol.Imports.AwsCur.{money_pieces, cents_of_scaled, money_cents}
use cloud_commitment_portfol.Imports.AwsCur.Money.{Money, money_cents-Money}
use cloud_commitment_portfol.Base.Action.{throw}
use cloud_commitment_portfol.Imports.Batches.{
  synthetic, canonical, Checks, CreateInput, Store, stored_item, object, imports_unavailable, fits,
  insert_items, schema_version, new_batch, update_batch, create_batch, parse_import,
  get_cloud_account, create_import,
}

texts : Unit {0}
unfolding text_eq is_space trim_start trim_end trim split pad_start pad_end digits_from nat_to_text
    to_text digit_value parse_digits parse_number prefix_base big_int ◌+ℤ◌ ◌*ℤ◌ quot rem member
texts = tt

parsers : Unit {0}
unfolding texts read_quoted read_plain read_unit read_from last_row has_value parse_csv is_unsigned
    is_decimal_8 is_unsigned_integer decimal integer has_control_character fold_case starts_with
    has_word has_secret text_field iso_date ends_before parse_tags parse_scaled_decimal row_key
    control_total_key add_row get set totals_from expected_from scaled_decimal_text matches_total
    compare_totals validate_control_totals includes validate_header provider_of build_row
    row_with_period usage_row parse_rows finish_rows column_value parse_synthetic_csv_import
    from_entries parse_canonical_rows parse_canonical_csv_import parse_canonical_usage_import
    money_pieces cents_of_scaled money_cents fits insert_items schema_version new_batch update_batch
    create_batch parse_import get_cloud_account create_import
parsers = tt

abbrev table : List (Text × List Text)
table = (codes "a\"b", codes "c,d" ∷ []) ∷ (codes "x\n", codes "" ∷ []) ∷ []

reads_quotes :
    parse_csv (codes "a,\"b\"\"\n\",\r\n\n,c")
    ≡ (codes "a" ∷ codes "b\"\n" ∷ [] ∷ []) ∷ ([] ∷ codes "c" ∷ []) ∷ []
unfolding parsers
reads_quotes = refl

csv_example : parse_csv (print_csv table) ≡ map row_of table
unfolding parsers
csv_example = parse_csv-print_csv table (refl, (refl, tt))

-- An engine whose dates are one digit, and whose JSON texts are all `{}`.
abbrev clock : Text → Option ℤ
clock [] = none
clock (c ∷ s) = some (pos c)

abbrev iso_text : ℤ → Text
iso_text (pos n) = n ∷ codes "026-01-01"
iso_text (negsuc n) = []

abbrev plain : Platform
plain = record {
  get_time = clock;
  to_iso_string = iso_text;
  normalize_nfc = λ text. text;
  json_parse = λ text. some (obj end);
  json_stringify = λ value. codes "{}";
}

abbrev item : UsageLineItem
item = record {
  provider = aws;
  service_code = codes "ec2";
  sku = codes "m5";
  region = codes "eu";
  usage_start = codes "2026-01-01";
  usage_end = codes "2026-01-02";
  usage_quantity = codes "1.50000000";
  usage_unit = codes "h";
  on_demand_cost_cents = codes "200";
  realized_cost_cents = codes "150";
  commitment_applied_cents = codes "50";
  tags = end;
}

abbrev control : ControlTotal
control = record {
  provider = aws;
  service_code = codes "ec2";
  region = codes "eu";
  month = codes "2026-01";
  line_count = codes "2";
  usage_quantity = codes "3.00000000";
  on_demand_cost_cents = codes "400";
  realized_cost_cents = codes "300";
  commitment_applied_cents = codes "100";
}

totals_accepted : validate_control_totals (item ∷ item ∷ []) (control ∷ []) ≡ some none
unfolding parsers
totals_accepted = refl

Matched_example : All (Matched (item ∷ item ∷ []) (control ∷ [])) (item ∷ item ∷ [])
Matched_example = validate_control_totals-Matched (item ∷ item ∷ []) (control ∷ []) totals_accepted

abbrev file : Text
file =
    codes "provider,service_code,sku,region,usage_start,usage_end,usage_quantity,usage_unit,"
    ++ codes "on_demand_cost_cents,realized_cost_cents,commitment_applied_cents,tags,note\n"
    ++ codes "aws,ec2,m5,eu,2,3,1.50000000,h,200,150,50,{},x\n"
    ++ codes "aws,ec2,m5,eu,2,3,1.50000000,h,200,150,50,{},\n"

header_names : distinct (header_of (parse_csv file)) ≡ true
unfolding parsers
header_names = refl

abbrev read_item : UsageLineItem
read_item = record item { usage_end = codes "3026-01-01" }

reads_file :
    parse_synthetic_csv_import plain aws file (control ∷ [])
    ≡ some (
        parsed record {
          line_count = 2;
          rows = read_item ∷ read_item ∷ [];
          parser_warnings = codes "note" ∷ [];
        })
unfolding parsers
reads_file = refl

same_example :
    parse_synthetic_csv_import plain aws file (control ∷ [])
    ≡ restate_option (parse_canonical_csv_import plain aws file (control ∷ []))
same_example = parse_synthetic_csv_import-same plain aws file (control ∷ []) header_names

Returns_example :
    Returns aws
      (control ∷ [])
      (parse_canonical_usage_import plain aws file (some []) (control ∷ []) csv)
Returns_example = parse_canonical_usage_import-Returns plain aws (control ∷ []) file [] csv

half_cent : money_cents (codes " 12.345 ") ≡ some (codes "1235")
unfolding parsers
half_cent = refl

Money_example : Money (codes " 12.345 ") (codes "1235")
Money_example = money_cents-Money (codes " 12.345 ") (codes "1235") half_cent

abbrev uploaded : CreateInput
uploaded = record {
  source = synthetic;
  format = canonical csv;
  object_uri = codes "u";
  cloud_account_id = codes "c";
  control_totals = control ∷ [];
}

abbrev before : Store
before = record {
  cloud_accounts =
      record { id = codes "c"; tenant_id = codes "t"; provider = aws; is_active = true } ∷ [];
  batches = [];
  line_items = [];
}

-- A database that takes ten characters of a SKU, and a hundred unknown columns at most.
abbrev checks : Checks
checks = record {
  takes_batch = λ b. ltb (length b.parser_warnings) 101;
  takes_item = λ row. ltb (length row.sku) 11;
}

stores_two :
    (create_import plain checks
      (codes "b")
      5
      (codes "t")
      none
      uploaded
      (object file none)
      before).1.line_items
    ≡ stored_item (codes "t") (codes "b") (codes "c") read_item
      ∷ stored_item (codes "t") (codes "b") (codes "c") read_item
      ∷ []
unfolding parsers
stores_two = refl

-- A database that takes no unknown column refuses the batch, and no row of the file is left.
throws_warnings :
    create_import plain
      (record checks { takes_batch = λ b. ltb (length b.parser_warnings) 1 })
      (codes "b")
      5
      (codes "t")
      none
      uploaded
      (object file none)
      before
    ≡ (throw imports_unavailable, before)
unfolding parsers
throws_warnings = refl

-- A quantity of 13 digits before the point is parsed, and stored nowhere.
abbrev large_file : Text
large_file =
    codes "provider,service_code,sku,region,usage_start,usage_end,usage_quantity,usage_unit,"
    ++ codes "on_demand_cost_cents,realized_cost_cents,commitment_applied_cents,tags\n"
    ++ codes "aws,ec2,m5,eu,2,3,1000000000000.00000000,h,200,150,50,{}\n"

abbrev large_control : ControlTotal
large_control = record control {
  line_count = codes "1";
  usage_quantity = codes "1000000000000.00000000";
  on_demand_cost_cents = codes "200";
  realized_cost_cents = codes "150";
  commitment_applied_cents = codes "50";
}

throws_large :
    create_import plain checks
      (codes "b")
      5
      (codes "t")
      none
      (record uploaded { control_totals = large_control ∷ [] })
      (object large_file none)
      before
    ≡ (throw imports_unavailable, before)
unfolding parsers
throws_large = refl

parses_large :
    parse_synthetic_csv_import plain aws large_file (large_control ∷ [])
    ≡ some (
        parsed record {
          line_count = 1;
          rows = record read_item { usage_quantity = codes "1000000000000.00000000" } ∷ [];
          parser_warnings = [];
        })
unfolding parsers
parses_large = refl
