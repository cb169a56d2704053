-- ===== src/Imports/Batches/Stored.antt =====
-- What a finished import leaves in the tables.
use cloud_commitment_portfol.Base.{
  ℕ, ◌≡◌, Bool, true, false, ◌&&◌, Option, none, some, List, [], ◌∷◌, ◌++◌, map, all,
}
use cloud_commitment_portfol.Base.Text.{Text}
use cloud_commitment_portfol.Base.Json.{Fields}
use cloud_commitment_portfol.Base.Action.{Result, ok, throw}
use cloud_commitment_portfol.Imports.{
  UsageLineItem, ErrorDetails, ParsedRows, ImportParseResult, parsed, quarantined, Platform,
}
use cloud_commitment_portfol.Imports.Batches.{
  ImportStatus, completed, quarantined_batch, ImportBatch, CloudAccount, Store, CreateInput, fits,
  stored_item, new_batch, create_batch, ImportError, imports_unavailable, ObjectRead, object,
  Checks, set_batch, parse_import, or_throw, get_cloud_account,
}

module _ (platform : Platform) (checks : Checks) (id : Text) (now : ℕ) (tenant_id : Text)
    (user_id : Option Text) (create : CreateInput) (read : ObjectRead) (s : Store) where
  abbrev pub inserted_batch : ImportBatch
  inserted_batch = new_batch id now tenant_id user_id create

  abbrev pub batch_with : ImportStatus → ℕ → Option ErrorDetails → List Text → ImportBatch
  batch_with status count details warnings = set_batch status count details warnings inserted_batch

  abbrev pub completed_batch : ParsedRows → ImportBatch
  completed_batch p = batch_with completed p.line_count none p.parser_warnings

  -- The store with one more batch and its lines.
  abbrev pub store_with : ImportBatch → List UsageLineItem → Store
  store_with batch rows = record s {
    batches = s.batches ++ batch ∷ [];
    line_items = s.line_items ++ map (stored_item tenant_id id create.cloud_account_id) rows;
  }

  -- The database takes the batch, as it is inserted and as it ends, and each of its rows.
  abbrev pub takes : ImportBatch → List UsageLineItem → Bool
  takes batch rows =
      checks.takes_batch inserted_batch && all (fits checks) rows && checks.takes_batch batch

  -- The account is there and active, the file was read, and its parser gave this result.
  pub record Parses (result : ImportParseResult) : Type 0 where
    pub account : CloudAccount
    pub text : Text
    pub parquet_rows : Option (List Fields)
    pub found : get_cloud_account platform checks tenant_id create.cloud_account_id s ≡ some account
    pub is_active : account.is_active ≡ true
    pub reads : read ≡ object text parquet_rows
    pub parses :
        parse_import platform checks account.provider create text parquet_rows ≡ some result

  pub data Finished : Result ImportError ImportBatch × Store → Type 0 where
    refused :
        (error : ImportError)
        → ((result : ImportParseResult) → Parses result → ⊥)
        → Finished (throw error, s)
    not_taken :
        (p : ParsedRows)
        → Parses (parsed p)
        → takes (completed_batch p) p.rows ≡ false
        → Finished (throw imports_unavailable, s)
    stored :
        (p : ParsedRows)
        → Parses (parsed p)
        → takes (completed_batch p) p.rows ≡ true
        → Finished (ok (completed_batch p), store_with (completed_batch p) p.rows)
    not_set_aside :
        (count : ℕ) (details : ErrorDetails) (warnings : List Text)
        → Parses (quarantined count details warnings)
        → takes (batch_with quarantined_batch count (some details) warnings) [] ≡ false
        → Finished (throw imports_unavailable, s)
    set_aside :
        (count : ℕ) (details : ErrorDetails) (warnings : List Text)
        → Parses (quarantined count details warnings)
        → takes (batch_with quarantined_batch count (some details) warnings) [] ≡ true
        → Finished (
          ok (batch_with quarantined_batch count (some details) warnings),
          record s {
            batches = s.batches ++ batch_with quarantined_batch count (some details) warnings ∷ [];
          },
        )

  abbrev Stores : ImportParseResult → Type 0
  Stores result =
      Finished
        (or_throw platform checks s (create_batch checks id now tenant_id user_id create result s))
