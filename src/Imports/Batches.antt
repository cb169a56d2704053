-- ===== src/Imports/Batches.antt =====
-- core/imports/imports-repository.ts and createImport of core/imports/imports-service.ts: the rows
-- that an import leaves, under db/migrations/0010_create_import_batches.sql and
-- 0011_create_usage_line_items.sql. The bytes of the stored file stand as their text.
pub mod Stored
use cloud_commitment_portfol.Base.{
  ℕ, ◌^◌, Bool, true, false, not, ◌&&◌, ◌||◌, Option, none, some, List, [], ◌∷◌, ◌++◌, map, find?,
  any, length, if◌then◌else◌, ◌>>=◌,
}
use cloud_commitment_portfol.Base.Int.{ℤ, pos, ltb_ℤ}
use cloud_commitment_portfol.Base.Text.{Text, codes, text_eq, big_int}
use cloud_commitment_portfol.Base.Json.{Fields}
use cloud_commitment_portfol.Base.Action.{Result, ok, throw}
use cloud_commitment_portfol.Imports.{
  ImportProvider, ControlTotal, UsageLineItem, ErrorDetails, ParsedRows, ImportParseResult, parsed,
  quarantined, Platform,
}
use cloud_commitment_portfol.Imports.Cells.{parse_scaled_decimal}
use cloud_commitment_portfol.Imports.Synthetic.{parse_synthetic_csv_import}
use cloud_commitment_portfol.Imports.Canonical.{
  JsonFormat, json_api_snapshot, manual_override, ImportFormat, csv, parquet, json,
  parse_canonical_usage_import,
}
use cloud_commitment_portfol.Imports.AwsCur.{parse_aws_cur_csv_import}

pub data ImportSource : Type 0 where
  synthetic aws_cur azure_export gcp_export : ImportSource

-- `ImportFormat`, with the AWS format beside those that the canonical parser knows.
pub data CreateFormat : Type 0 where
  canonical : ImportFormat → CreateFormat
  native_cur : CreateFormat

pub data ImportStatus : Type 0 where
  queued processing completed failed quarantined_batch cancelled : ImportStatus

abbrev pub source_text : ImportSource → Text
source_text synthetic = codes "synthetic"
source_text aws_cur = codes "aws_cur"
source_text azure_export = codes "azure_export"
source_text gcp_export = codes "gcp_export"

abbrev pub format_text : CreateFormat → Text
format_text (canonical csv) = codes "csv"
format_text (canonical parquet) = codes "parquet"
format_text (canonical (json json_api_snapshot)) = codes "json_api_snapshot"
format_text (canonical (json manual_override)) = codes "manual_override"
format_text native_cur = codes "native_cur"

-- A row of `import_batches`; `none` in `error_details` is `{}`.
pub record ImportBatch : Type 0 where
  pub id : Text
  pub tenant_id : Text
  pub cloud_account_id : Text
  pub source : ImportSource
  pub format : CreateFormat
  pub status : ImportStatus
  pub object_uri : Text
  pub schema_version : Text
  pub line_count : ℕ
  pub error_details : Option ErrorDetails
  pub parser_warnings : List Text
  pub created_by_user_id : Option Text
  pub created_at : ℕ

-- A row of `usage_line_items`.
pub record StoredItem : Type 0 where
  pub tenant_id : Text
  pub import_batch_id : Text
  pub cloud_account_id : Text
  pub item : UsageLineItem

pub record CloudAccount : Type 0 where
  pub id : Text
  pub tenant_id : Text
  pub provider : ImportProvider
  pub is_active : Bool

pub record Store : Type 0 where
  pub cloud_accounts : List CloudAccount
  pub batches : List ImportBatch
  pub line_items : List StoredItem

-- `ImportCreateInput`.
pub record CreateInput : Type 0 where
  pub source : ImportSource
  pub format : CreateFormat
  pub object_uri : Text
  pub cloud_account_id : Text
  pub control_totals : List ControlTotal

abbrev pub below : Option ℤ → ℕ → Bool
below none bound = false
below (some n) bound = ltb_ℤ n (pos bound)

-- What is the database's: whether the CHECKs of `import_batches` and `jsonb` let a row through (such
-- as the octets of `parser_warnings`, at most 65536), and whether the texts, the times and the tags
-- of a line item are ones that its columns take (such as no U+0000 in `jsonb`).
pub record Checks : Type 0 where
  pub takes_batch : ImportBatch → Bool
  pub takes_item : UsageLineItem → Bool

-- What the columns of `usage_line_items` hold: NUMERIC(20,8) has 20 digits, 8 of them decimals, and
-- BIGINT ends at 2^63 - 1; the other columns are the database's to check.
unfoldable pub fits : Checks → UsageLineItem → Bool
unfolding parse_scaled_decimal big_int
fits checks row =
    checks.takes_item row
    && below (parse_scaled_decimal row.usage_quantity) (10 ^ 20)
    && below (big_int row.on_demand_cost_cents) (2 ^ 63)
    && below (big_int row.realized_cost_cents) (2 ^ 63)
    && below (big_int row.commitment_applied_cents) (2 ^ 63)

abbrev pub stored_item : Text → Text → Text → UsageLineItem → StoredItem
stored_item tenant_id batch_id account_id row = record {
  tenant_id = tenant_id;
  import_batch_id = batch_id;
  cloud_account_id = account_id;
  item = row;
}

-- The loop of INSERTs; `none` is the error of a value that a column cannot hold.
unfoldable pub insert_items :
    Checks → Text → Text → Text → List UsageLineItem → List StoredItem → Option (List StoredItem)
unfolding fits
insert_items checks tenant_id batch_id account_id [] items = some items
insert_items checks tenant_id batch_id account_id (row ∷ rows) items =
    let rest =
      insert_items checks tenant_id batch_id account_id rows
        (items ++ stored_item tenant_id batch_id account_id row ∷ []) in
    if fits checks row then rest else none

-- `schemaVersion`.
unfoldable pub schema_version : ImportSource → CreateFormat → Text
schema_version source format = source_text source ++ b'_' ∷ format_text format ++ codes ":v1"

-- The batch as it is inserted.
unfoldable pub new_batch : Text → ℕ → Text → Option Text → CreateInput → ImportBatch
unfolding schema_version
new_batch id now tenant_id user_id create = record {
  id = id;
  tenant_id = tenant_id;
  cloud_account_id = create.cloud_account_id;
  source = create.source;
  format = create.format;
  status = queued;
  object_uri = create.object_uri;
  schema_version = schema_version create.source create.format;
  line_count = 0;
  error_details = none;
  parser_warnings = [];
  created_by_user_id = user_id;
  created_at = now;
}

-- A row of `import_batches` that the database takes, or its error.
abbrev pub admitted : Checks → ImportBatch → Option ImportBatch
admitted checks batch = if checks.takes_batch batch then some batch else none

-- The four columns that `updateBatch` sets.
abbrev pub set_batch :
    ImportStatus → ℕ → Option ErrorDetails → List Text → ImportBatch → ImportBatch
set_batch status line_count details warnings batch = record batch {
  status = status;
  line_count = line_count;
  error_details = details;
  parser_warnings = warnings;
}

-- `updateBatch`, on the row that was inserted in the same transaction; `none` where a CHECK fails.
unfoldable pub update_batch :
    Checks → ImportStatus → ℕ → Option ErrorDetails → List Text → ImportBatch → Option ImportBatch
update_batch checks status line_count details warnings batch =
    admitted checks (set_batch status line_count details warnings batch)

abbrev pub with_batch : ImportBatch → List StoredItem → Store → ImportBatch × Store
with_batch batch items s =
    (batch, record s { batches = s.batches ++ batch ∷ []; line_items = items })

-- `createImport` of the repository, in its transaction, on a connection that holds; `none` is a
-- throw, after the ROLLBACK.
unfoldable pub create_batch :
    Checks
    → Text
    → ℕ
    → Text
    → Option Text
    → CreateInput
    → ImportParseResult
    → Store
    → Option (ImportBatch × Store)
unfolding insert_items new_batch update_batch
create_batch checks id now tenant_id user_id create (parsed p) s = do
  batch ← admitted checks (new_batch id now tenant_id user_id create)
  items ← insert_items checks tenant_id id create.cloud_account_id p.rows s.line_items
  updated ← update_batch checks completed p.line_count none p.parser_warnings batch
  some (with_batch updated items s)
create_batch checks id now tenant_id user_id create (quarantined count details warnings) s = do
  batch ← admitted checks (new_batch id now tenant_id user_id create)
  updated ← update_batch checks quarantined_batch count (some details) warnings batch
  some (with_batch updated s.line_items s)

-- `invalid_object` is the error of status 400 of the object store, passed on; `reader_error` is an
-- error of the Parquet reader, which leaves as it is, since `safe` does not stand around the parser.
pub data ImportError : Type 0 where
  not_found account_inactive object_missing invalid_object reader_error : ImportError
  imports_unavailable : ImportError

-- What a read of the object store gives: the text, with the rows if it is a Parquet file, or an
-- AppError of status 404 or 400, or any other error.
pub data ObjectRead : Type 0 where
  object : Text → Option (List Fields) → ObjectRead
  missing bad_request unreadable : ObjectRead

abbrev pub is_aws_csv : ImportSource → CreateFormat → Bool
is_aws_csv aws_cur (canonical csv) = true
is_aws_csv aws_cur native_cur = true
is_aws_csv aws_cur (canonical parquet) = false
is_aws_csv aws_cur (canonical (json format)) = false
is_aws_csv synthetic format = false
is_aws_csv azure_export format = false
is_aws_csv gcp_export format = false

abbrev pub is_synthetic_csv : ImportSource → CreateFormat → Bool
is_synthetic_csv synthetic (canonical csv) = true
is_synthetic_csv synthetic (canonical parquet) = false
is_synthetic_csv synthetic (canonical (json format)) = false
is_synthetic_csv synthetic native_cur = false
is_synthetic_csv aws_cur format = false
is_synthetic_csv azure_export format = false
is_synthetic_csv gcp_export format = false

module _ (platform : Platform) (checks : Checks) where
  -- The parser of a source and a format, from `createImport` of the service.
  unfoldable pub parse_import :
      ImportProvider → CreateInput → Text → Option (List Fields) → Option ImportParseResult
  unfolding parse_aws_cur_csv_import parse_synthetic_csv_import parse_canonical_usage_import
  parse_import provider create text parquet_rows = by_format create.format
    where
      by_format : CreateFormat → Option ImportParseResult
      by_format native_cur = parse_aws_cur_csv_import platform provider text create.control_totals
      by_format (canonical format) =
          if is_aws_csv create.source (canonical format)
          then parse_aws_cur_csv_import platform provider text create.control_totals
          else if is_synthetic_csv create.source (canonical format)
          then parse_synthetic_csv_import platform provider text create.control_totals
          else parse_canonical_usage_import platform provider text parquet_rows
              create.control_totals format

  abbrev pub or_throw :
      Store → Option (ImportBatch × Store) → Result ImportError ImportBatch × Store
  or_throw s none = (throw imports_unavailable, s)
  or_throw s (some (batch, s')) = (ok batch, s')

  abbrev pub store_parsed :
      Text
      → ℕ
      → Text
      → Option Text
      → CreateInput
      → Store
      → Option ImportParseResult
      → Result ImportError ImportBatch × Store
  store_parsed id now tenant_id user_id create s none = (throw reader_error, s)
  store_parsed id now tenant_id user_id create s (some result) =
      or_throw s (create_batch checks id now tenant_id user_id create result s)

  abbrev pub create_from_object :
      Text
      → ℕ
      → Text
      → Option Text
      → CreateInput
      → Store
      → ImportProvider
      → ObjectRead
      → Result ImportError ImportBatch × Store
  create_from_object id now tenant_id user_id create s provider missing = (throw object_missing, s)
  create_from_object id now tenant_id user_id create s provider bad_request =
      (throw invalid_object, s)
  create_from_object id now tenant_id user_id create s provider unreadable =
      (throw imports_unavailable, s)
  create_from_object id now tenant_id user_id create s provider (object text parquet_rows) =
      store_parsed id now tenant_id user_id create s
        (parse_import provider create text parquet_rows)

  abbrev pub create_for_account :
      Text
      → ℕ
      → Text
      → Option Text
      → CreateInput
      → Store
      → ObjectRead
      → Option CloudAccount
      → Result ImportError ImportBatch × Store
  create_for_account id now tenant_id user_id create s read none = (throw not_found, s)
  create_for_account id now tenant_id user_id create s read (some account) =
      if not account.is_active
      then (throw account_inactive, s)
      else create_from_object id now tenant_id user_id create s account.provider read

  -- `getCloudAccount`.
  unfoldable pub get_cloud_account : Text → Text → Store → Option CloudAccount
  get_cloud_account tenant_id id s =
      find? (λ a. text_eq a.tenant_id tenant_id && text_eq a.id id) s.cloud_accounts

  -- `createImport` of the service, on a parsed body; the hook and the log come after it.
  unfoldable pub create_import :
      Text
      → ℕ
      → Text
      → Option Text
      → CreateInput
      → ObjectRead
      → Store
      → Result ImportError ImportBatch × Store
  unfolding create_batch parse_import get_cloud_account
  create_import id now tenant_id user_id create read s =
      create_for_account id now tenant_id user_id create s read
        (get_cloud_account tenant_id create.cloud_account_id s)
