-- ===== src/Imports.antt =====
-- core/imports: the parsers of uploaded usage files, and core/imports/imports-types.ts.
pub mod Csv
pub mod Cells
pub mod Totals
pub mod Rows
pub mod Synthetic
pub mod Canonical
pub mod Columns
pub mod Agreement
pub mod Valid
pub mod Returns
pub mod AwsCur
pub mod Batches
mod Tests
use cloud_commitment_portfol.Base.{ℕ, Bool, true, false, Option, none, some, List, [], ◌∷◌}
use cloud_commitment_portfol.Base.Int.{ℤ}
use cloud_commitment_portfol.Base.Text.{Text, codes}
use cloud_commitment_portfol.Base.Json.{Json, Fields}

pub data ImportProvider : Type 0 where
  aws azure gcp : ImportProvider

abbrev pub provider_text : ImportProvider → Text
provider_text aws = codes "aws"
provider_text azure = codes "azure"
provider_text gcp = codes "gcp"

-- `ImportControlTotal`.
pub record ControlTotal : Type 0 where
  pub provider : ImportProvider
  pub service_code : Text
  pub region : Text
  pub month : Text
  pub line_count : Text
  pub usage_quantity : Text
  pub on_demand_cost_cents : Text
  pub realized_cost_cents : Text
  pub commitment_applied_cents : Text

-- `UsageLineItemInput`.
pub record UsageLineItem : Type 0 where
  pub provider : ImportProvider
  pub service_code : Text
  pub sku : Text
  pub region : Text
  pub usage_start : Text
  pub usage_end : Text
  pub usage_quantity : Text
  pub usage_unit : Text
  pub on_demand_cost_cents : Text
  pub realized_cost_cents : Text
  pub commitment_applied_cents : Text
  pub tags : Fields

-- The field that a rejected row is reported with.
pub data RowField : Type 0 where
  provider usage_period commitment_applied_cents tags required_field : RowField

-- The codes of `quarantine`; its messages are left out.
pub data QuarantineCode : Type 0 where
  import_empty import_schema_drift import_manual_override_too_large
        import_account_provider_mismatch :
      QuarantineCode

-- `errorDetails`.
pub data ErrorDetails : Type 0 where
  row_invalid : ℕ → RowField → ErrorDetails
  missing_columns : List Text → ErrorDetails
  control_total_mismatch : ErrorDetails
  rejected : QuarantineCode → ErrorDetails

-- `ParsedSyntheticCsv`; a parser warning is the field that is not known.
pub record ParsedRows : Type 0 where
  pub line_count : ℕ
  pub rows : List UsageLineItem
  pub parser_warnings : List Text

-- `ImportParseResult`.
pub data ImportParseResult : Type 0 where
  parsed : ParsedRows → ImportParseResult
  quarantined : ℕ → ErrorDetails → List Text → ImportParseResult

-- What the engine's library answers: `new Date(text).getTime()`, `none` for `NaN`; `toISOString`;
-- `normalize("NFC")`; `JSON.parse`, `none` for a throw; `JSON.stringify`.
pub record Platform : Type 0 where
  pub get_time : Text → Option ℤ
  pub to_iso_string : ℤ → Text
  pub normalize_nfc : Text → Text
  pub json_parse : Text → Option Json
  pub json_stringify : Json → Text
