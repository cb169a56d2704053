-- ===== src/Imports/Valid.antt =====
-- What the parsers let through: the rows that `parseUsageRow` accepts are rows of the account with
-- amounts that can be read, and reading them again never throws.
use cloud_commitment_portfol.Base.{
  ℕ, ◌≤◌, ◌≡◌, ◌≢◌, refl, ap, subst, true, not, ◌&&◌, ◌==◌, Option, none, some, List, [], ◌∷◌, all,
  All, length, if◌then◌else◌, if_cases, Bool-cases, >>=-eq-some, some_inj, inl, inr, arith,
}
use cloud_commitment_portfol.Base.Int.{ℤ, pos, ltb_ℤ, ◌*ℤ◌, ◌+ℤ◌}
use cloud_commitment_portfol.Base.Text.{Text, codes, text_eq, trim, split, big_int}
use cloud_commitment_portfol.Base.Text.Decimal.{IsDigit, big_int_of_IsDigit}
use cloud_commitment_portfol.Base.Json.{Fields}
use cloud_commitment_portfol.Imports.{
  ImportProvider, aws, azure, gcp, provider_text, UsageLineItem, commitment_applied_cents, Platform,
}
use cloud_commitment_portfol.Imports.Cells.{
  is_digit, is_unsigned, is_decimal_8, is_decimal_8_pieces, is_unsigned_integer, decimal, integer,
  text_field, iso_date, ends_before, scaled_of, parse_scaled_decimal,
}
use cloud_commitment_portfol.Imports.Rows.{
  RowResult, row_parsed, row_error, provider_of, caught, build_row, row_with_tags, row_with_period,
  row_with_dates, row_with_provider, usage_row,
}

pub all-IsDigit : (s : Text) → all is_digit s ≡ true → All IsDigit s
all-IsDigit [] h = tt
all-IsDigit (c ∷ s) h = ((ground arith, ground arith), all-IsDigit s (ground arith))

no_more : (s : Text) → length s ≡ 0 → All IsDigit s
no_more [] h = tt
no_more (c ∷ s) h = absurd (omega (arith, h))

pub is_unsigned-IsDigit :
    (extra : ℕ) (s : Text) → is_unsigned extra s ≡ true → All IsDigit s × (s ≢ [])
unfolding is_unsigned
is_unsigned-IsDigit extra [] h = absurd (cc)
is_unsigned-IsDigit extra (c ∷ s) h = elim (Bool-cases (c == b'0' && length s == 0)) [
  | inl e ↦ (((ground arith, ground arith), no_more s (ground arith)), λ p. cc)
  | inr e ↦ (((ground arith, ground arith), all-IsDigit s (ground arith)), λ p. cc)
]

-- What a pattern accepts, `BigInt` reads.
pub integer-big_int :
    (value t : Text) → integer value ≡ some t → (n : ℕ) × (big_int t ≡ some (pos n))
unfolding integer is_unsigned_integer
integer-big_int value t =
    if_cases (λ (o : Option Text). o ≡ some t → (n : ℕ) × (big_int t ≡ some (pos n)))
      (is_unsigned 18 (trim value))
      (λ e h.
        let (digits, any_digit) = is_unsigned-IsDigit 18 (trim value) e in
        subst (λ s. (n : ℕ) × (big_int s ≡ some (pos n))) (some_inj h)
          (big_int_of_IsDigit (trim value) digits any_digit))
      (λ e h. absurd (cc))

length-ne_nil : (s : Text) → length s ≡ 8 → s ≢ []
length-ne_nil [] h = absurd (omega (arith, h))
length-ne_nil (c ∷ s) h = λ p. cc

scaled_of_pieces :
    (pieces : List Text) → is_decimal_8_pieces pieces ≡ true → (q : ℤ) × (scaled_of pieces ≡ some q)
scaled_of_pieces [] h = absurd (cc)
scaled_of_pieces (whole ∷ []) h = absurd (cc)
scaled_of_pieces (whole ∷ fraction ∷ []) h =
    let unsigned : is_unsigned 19 whole ≡ true = ground arith in
    let digits : all is_digit fraction ≡ true = ground arith in
    let eight : length fraction ≡ 8 = ground arith in
    let (whole_digits, any_digit) = is_unsigned-IsDigit 19 whole unsigned in
    let (w, reads_whole) = big_int_of_IsDigit whole whole_digits any_digit in
    let (f, reads_fraction) =
      big_int_of_IsDigit fraction (all-IsDigit fraction digits) (length-ne_nil fraction eight) in
    (pos w *ℤ pos 100000000 +ℤ pos f, rw (reads_whole, reads_fraction) refl)
scaled_of_pieces (whole ∷ fraction ∷ more ∷ pieces) h = absurd (cc)

pub decimal-parse_scaled :
    (value t : Text) → decimal value ≡ some t → (q : ℤ) × (parse_scaled_decimal t ≡ some q)
unfolding decimal is_decimal_8 parse_scaled_decimal
decimal-parse_scaled value t =
    if_cases (λ (o : Option Text). o ≡ some t → (q : ℤ) × (parse_scaled_decimal t ≡ some q))
      (is_decimal_8_pieces (split b'.' (trim value)))
      (λ e h.
        subst (λ s. (q : ℤ) × (parse_scaled_decimal s ≡ some q)) (some_inj h)
          (scaled_of_pieces (split b'.' (trim value)) e))
      (λ e h. absurd (cc))

-- A row that the parser may return for an account.
pub record IsUsageRow (account : ImportProvider) (row : UsageLineItem) : Type 0 where
  pub of_account : row.provider ≡ account
  pub quantity : ℤ
  pub reads_quantity : parse_scaled_decimal row.usage_quantity ≡ some quantity
  pub on_demand : ℕ
  pub reads_on_demand : big_int row.on_demand_cost_cents ≡ some (pos on_demand)
  pub realized : ℕ
  pub reads_realized : big_int row.realized_cost_cents ≡ some (pos realized)
  pub applied : ℕ
  pub reads_applied : big_int row.commitment_applied_cents ≡ some (pos applied)
  pub applied_le : applied ≤ on_demand

provider_text_inj :
    (p q : ImportProvider) → text_eq (provider_text p) (provider_text q) ≡ true → p ≡ q
unfolding text_eq
provider_text_inj aws aws h = refl
provider_text_inj azure azure h = refl
provider_text_inj gcp gcp h = refl
provider_text_inj aws azure h = absurd (cc)
provider_text_inj aws gcp h = absurd (cc)
provider_text_inj azure aws h = absurd (cc)
provider_text_inj azure gcp h = absurd (cc)
provider_text_inj gcp aws h = absurd (cc)
provider_text_inj gcp azure h = absurd (cc)

row_parsed_inj : {a b : UsageLineItem} → row_parsed a ≡ row_parsed b → a ≡ b
row_parsed_inj h = cc

module _ (platform : Platform) (account : ImportProvider) (value : Text → Text)
    (row : UsageLineItem) where
  abbrev Accepts : Option RowResult → Type 0
  Accepts o = o ≡ some (row_parsed row) → IsUsageRow account row

  build_row-IsUsageRow :
      (p : ImportProvider) (usage_start usage_end on_demand realized applied : Text) (tags : Fields)
      (o r a : ℕ)
      → p ≡ account
      → big_int on_demand ≡ some (pos o)
      → big_int realized ≡ some (pos r)
      → big_int applied ≡ some (pos a)
      → a ≤ o
      → Accepts
          (build_row platform account value p usage_start usage_end on_demand realized applied tags)
  unfolding build_row
  build_row-IsUsageRow p usage_start usage_end on_demand realized applied tags o r a own ro rr ra le
        h =
      let (_, _, h1) = >>=-eq-some (text_field platform (value (codes "service_code"))) _ h in
      let (_, _, h2) = >>=-eq-some (text_field platform (value (codes "sku"))) _ h1 in
      let (_, _, h3) = >>=-eq-some (text_field platform (value (codes "region"))) _ h2 in
      let (quantity, reads, h4) = >>=-eq-some (decimal (value (codes "usage_quantity"))) _ h3 in
      let (_, _, h5) = >>=-eq-some (text_field platform (value (codes "usage_unit"))) _ h4 in
      let (q, scaled) = decimal-parse_scaled (value (codes "usage_quantity")) quantity reads in
      subst (IsUsageRow account) (row_parsed_inj (some_inj h5)) record {
        of_account = own;
        quantity = q;
        reads_quantity = scaled;
        on_demand = o;
        reads_on_demand = ro;
        realized = r;
        reads_realized = rr;
        applied = a;
        reads_applied = ra;
        applied_le = le;
      }

  costs-IsUsageRow :
      (tags : Option Fields) (p : ImportProvider)
      (usage_start usage_end on_demand realized applied : Text) (o r a : ℕ)
      → p ≡ account
      → big_int on_demand ≡ some (pos o)
      → big_int realized ≡ some (pos r)
      → big_int applied ≡ some (pos a)
      → Accepts (
          if ltb_ℤ (pos o) (pos a)
          then some (row_error commitment_applied_cents)
          else row_with_tags platform account value p usage_start usage_end on_demand realized
              applied tags)
  costs-IsUsageRow none p usage_start usage_end on_demand realized applied o r a own ro rr ra =
      if_cases Accepts (ltb_ℤ (pos o) (pos a)) (λ e h. absurd (cc)) (λ e h. absurd (cc))
  costs-IsUsageRow (some tags) p usage_start usage_end on_demand realized applied o r a own ro rr
        ra =
      if_cases Accepts (ltb_ℤ (pos o) (pos a)) (λ e h. absurd (cc))
        (λ e h.
          build_row-IsUsageRow p usage_start usage_end on_demand realized applied tags o r a own ro
            rr ra (ground arith) h)

  row_with_period-IsUsageRow :
      (tags : Option Fields) (p : ImportProvider) (usage_start usage_end : Text)
      → p ≡ account
      → Accepts (row_with_period platform account value tags p usage_start usage_end)
  unfolding row_with_period
  row_with_period-IsUsageRow tags p usage_start usage_end own h =
      let (on_demand, i, h1) = >>=-eq-some (integer (value (codes "on_demand_cost_cents"))) _ h in
      let (realized, j, h2) = >>=-eq-some (integer (value (codes "realized_cost_cents"))) _ h1 in
      let (applied, k, h3) =
        >>=-eq-some (integer (value (codes "commitment_applied_cents"))) _ h2 in
      let (o, ro) = integer-big_int (value (codes "on_demand_cost_cents")) on_demand i in
      let (r, rr) = integer-big_int (value (codes "realized_cost_cents")) realized j in
      let (a, ra) = integer-big_int (value (codes "commitment_applied_cents")) applied k in
      costs-IsUsageRow tags p usage_start usage_end on_demand realized applied o r a own ro rr ra
        (rw (ra, ro) at h3)

  row_with_dates-IsUsageRow :
      (tags : Option Fields) (p : ImportProvider) (usage_start usage_end : Option Text)
      → p ≡ account
      → Accepts (row_with_dates platform account value tags p usage_start usage_end)
  row_with_dates-IsUsageRow tags p none usage_end own = λ h. absurd (cc)
  row_with_dates-IsUsageRow tags p (some usage_start) none own = λ h. absurd (cc)
  row_with_dates-IsUsageRow tags p (some usage_start) (some usage_end) own =
      if_cases Accepts (ends_before platform usage_end usage_start) (λ e h. absurd (cc))
        (λ e. row_with_period-IsUsageRow tags p usage_start usage_end own)

  row_with_provider-IsUsageRow :
      (tags : Option Fields) (p : Option ImportProvider)
      → Accepts (row_with_provider platform account value tags p)
  row_with_provider-IsUsageRow tags none = λ h. absurd (cc)
  row_with_provider-IsUsageRow tags (some p) =
      if_cases Accepts (not (text_eq (provider_text p) (provider_text account)))
        (λ e h. absurd (cc))
        (λ e.
          row_with_dates-IsUsageRow tags p (iso_date platform (value (codes "usage_start")))
            (iso_date platform (value (codes "usage_end")))
            (provider_text_inj p account (ground arith)))

  caught-some : (o : Option RowResult) → caught o ≡ row_parsed row → o ≡ some (row_parsed row)
  caught-some none h = absurd (cc)
  caught-some (some r) h = ap some h

  pub usage_row-IsUsageRow :
      (tags : Option Fields)
      → usage_row platform account value tags ≡ row_parsed row
      → IsUsageRow account row
  unfolding usage_row
  usage_row-IsUsageRow tags h =
      let found = provider_of (value (codes "provider")) in
      row_with_provider-IsUsageRow tags found
        (caught-some (row_with_provider platform account value tags found) h)
