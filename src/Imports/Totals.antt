-- ===== src/Imports/Totals.antt =====
-- `validateControlTotals`, which the three parsers of core/imports each declare: the rows are added
-- up by provider, service, region and month and compared with the totals that the caller gave.
pub mod Exact
pub mod Sums
use cloud_commitment_portfol.Base.{
  ℕ, ◌+◌, Bool, true, false, not, ◌&&◌, ◌||◌, ◌==◌, Option, none, some, List, [], ◌∷◌, ◌++◌, all,
  length, take, if◌then◌else◌, ◌>>=◌,
}
use cloud_commitment_portfol.Base.Int.{ℤ, pos, ◌+ℤ◌, quot, rem}
use cloud_commitment_portfol.Base.Text.{Text, codes, text_eq, big_int, to_text, pad_start}
use cloud_commitment_portfol.Imports.{
  ImportProvider, provider_text, ControlTotal, UsageLineItem, ErrorDetails, control_total_mismatch,
}
use cloud_commitment_portfol.Imports.Cells.{parse_scaled_decimal}

-- `MutableTotal`, less the parts of its key, which nothing reads.
pub record MutableTotal : Type 0 where
  pub line_count : ℤ
  pub usage_quantity : ℤ
  pub on_demand_cost_cents : ℤ
  pub realized_cost_cents : ℤ
  pub commitment_applied_cents : ℤ

abbrev pub zero_total : MutableTotal
zero_total = record {
  line_count = pos 0;
  usage_quantity = pos 0;
  on_demand_cost_cents = pos 0;
  realized_cost_cents = pos 0;
  commitment_applied_cents = pos 0;
}

-- `totalKey`.
abbrev pub total_key : ImportProvider → Text → Text → Text → Text
total_key provider service_code region month =
    provider_text provider ++ 0 ∷ service_code ++ 0 ∷ region ++ 0 ∷ month

-- The key of a row; its month is `row.usageStart.slice(0, 7)`.
unfoldable pub row_key : UsageLineItem → Text
row_key row = total_key row.provider row.service_code row.region (take 7 row.usage_start)

-- `controlTotalKey`.
unfoldable pub control_total_key : ControlTotal → Text
control_total_key total = total_key total.provider total.service_code total.region total.month

-- The five `+=`; `none` where `BigInt` throws.
unfoldable pub add_row : MutableTotal → UsageLineItem → Option MutableTotal
unfolding parse_scaled_decimal big_int
add_row current row = do
  quantity ← parse_scaled_decimal row.usage_quantity
  on_demand ← big_int row.on_demand_cost_cents
  realized ← big_int row.realized_cost_cents
  applied ← big_int row.commitment_applied_cents
  some record {
    line_count = current.line_count +ℤ pos 1;
    usage_quantity = current.usage_quantity +ℤ quantity;
    on_demand_cost_cents = current.on_demand_cost_cents +ℤ on_demand;
    realized_cost_cents = current.realized_cost_cents +ℤ realized;
    commitment_applied_cents = current.commitment_applied_cents +ℤ applied;
  }

-- A `Map` by text, its entries in the order of insertion.
abbrev pub Entries : Type 0 → Type 0
Entries A = List (Text × A)

abbrev pub or_else : {A : Type 0} → Option A → A → A
or_else none a = a
or_else (some b) a = b

unfoldable pub get : {A : Type 0} → Text → Entries A → Option A
get key [] = none
get key ((k, a) ∷ entries) = if text_eq k key then some a else get key entries

unfoldable pub set : {A : Type 0} → Text → A → Entries A → Entries A
set key a [] = (key, a) ∷ []
set key a ((k, b) ∷ entries) =
    if text_eq k key then (k, a) ∷ entries else (k, b) ∷ set key a entries

-- The loop over the rows.
unfoldable pub totals_from :
    List UsageLineItem → Entries MutableTotal → Option (Entries MutableTotal)
unfolding get set add_row row_key
totals_from [] actual = some actual
totals_from (row ∷ rows) actual =
    add_row (or_else (get (row_key row) actual) zero_total) row >>= λ current.
    totals_from rows (set (row_key row) current actual)

-- `new Map(expected.map(…))`.
unfoldable pub expected_from : List ControlTotal → Entries ControlTotal → Entries ControlTotal
unfolding set control_total_key
expected_from [] entries = entries
expected_from (total ∷ totals) entries =
    expected_from totals (set (control_total_key total) total entries)

-- `scaledDecimalText`.
unfoldable pub scaled_decimal_text : ℤ → Text
scaled_decimal_text value =
    to_text (quot value (pos 100000000))
    ++ b'.' ∷ pad_start 8 b'0' (to_text (rem value (pos 100000000)))

-- `matchesTotal`.
unfoldable pub matches_total : MutableTotal → ControlTotal → Bool
unfolding scaled_decimal_text
matches_total actual expected =
    text_eq (to_text actual.line_count) expected.line_count
    && text_eq (scaled_decimal_text actual.usage_quantity) expected.usage_quantity
    && text_eq (to_text actual.on_demand_cost_cents) expected.on_demand_cost_cents
    && text_eq (to_text actual.realized_cost_cents) expected.realized_cost_cents
    && text_eq (to_text actual.commitment_applied_cents) expected.commitment_applied_cents

abbrev pub matches_candidate : MutableTotal → Option ControlTotal → Bool
matches_candidate total none = false
matches_candidate total (some candidate) = matches_total total candidate

-- The comparison of the two maps.
unfoldable pub compare_totals : Entries MutableTotal → Entries ControlTotal → Option ErrorDetails
unfolding get matches_total
compare_totals actual expected =
    if not (length actual == length expected)
    then some control_total_mismatch
    else if all (λ (key, total). matches_candidate total (get key expected)) actual
    then none
    else some control_total_mismatch

-- `validateControlTotals`; the outer `none` is a throw, the inner one the accepted rows.
unfoldable pub validate_control_totals :
    List UsageLineItem → List ControlTotal → Option (Option ErrorDetails)
unfolding totals_from expected_from compare_totals
validate_control_totals rows expected = do
  actual ← totals_from rows []
  some (compare_totals actual (expected_from expected []))
