-- ===== src/Imports/Totals/Exact.antt =====
-- What accepted control totals say of the rows.
use cloud_commitment_portfol.Base.{
  ◌≡◌, ◌∙◌, refl, sym, ap, subst, Bool, true, not, ◌==◌, Option, none, some, List, [], ◌∷◌, filter,
  all, All, All-weaken, length, if_cases, Bool-cases, >>=-eq-some, some_inj, inl, inr, arith, ◌++◌,
  take,
}
use cloud_commitment_portfol.Base.Int.{ℤ, pos, quot, rem}
use cloud_commitment_portfol.Base.Text.{Text, text_eq, text_eq_iff, big_int, to_text, pad_start}
use cloud_commitment_portfol.Imports.{
  ControlTotal, UsageLineItem, ErrorDetails, ImportProvider, provider_text,
}
use cloud_commitment_portfol.Imports.Cells.{parse_scaled_decimal}
use cloud_commitment_portfol.Imports.Totals.Sums.{
  group_total, SumOf, Summed, group_total-Summed, get-set_same, get-set_other, Listed, get-Listed,
}
use cloud_commitment_portfol.Imports.Totals.{
  MutableTotal, zero_total, row_key, add_row, Entries, or_else, get, set, totals_from,
  expected_from, matches_total, matches_candidate, compare_totals, validate_control_totals,
  scaled_decimal_text, control_total_key,
}

-- The parts of a row that make its group, and those of a control total, with U+0000 between them.
abbrev pub group_of : ImportProvider → Text → Text → Text → Text
group_of provider service_code region month =
    provider_text provider ++ 0 ∷ service_code ++ 0 ∷ region ++ 0 ∷ month

abbrev pub group_of_row : UsageLineItem → Text
group_of_row row = group_of row.provider row.service_code row.region (take 7 row.usage_start)

abbrev pub in_group : Text → UsageLineItem → Bool
in_group key row = text_eq (group_of_row row) key

abbrev total_at : Text → Entries MutableTotal → MutableTotal
total_at key actual = or_else (get key actual) zero_total

-- The loop adds each row to the total of its own group.
totals_from-group :
    (key : Text) (rows : List UsageLineItem) (before after : Entries MutableTotal)
    → totals_from rows before ≡ some after
    → group_total (filter (in_group key) rows) (total_at key before) ≡ some (total_at key after)
unfolding totals_from row_key
totals_from-group key [] before after h = ap (λ m. some (total_at key m)) (some_inj h)
totals_from-group key (row ∷ rows) before after h =
    let (current, added, rest) = >>=-eq-some (add_row (total_at (row_key row) before) row) _ h in
    let next = totals_from-group key rows (set (row_key row) current before) after rest in
    elim (Bool-cases (in_group key row)) [
      | inl e ↦
          let p : row_key row ≡ key = (text_eq_iff (row_key row) key).0 e in
          let own : add_row (total_at key before) row ≡ some current =
            subst (λ k. add_row (total_at k before) row ≡ some current) p added in
          let same : total_at key (set (row_key row) current before) ≡ current =
            subst (λ k. total_at key (set k current before) ≡ current) (sym p)
              (ap (λ o. or_else o zero_total) (get-set_same key current before)) in
          rw (e, own)
            (subst (λ t. group_total (filter (in_group key) rows) t ≡ some (total_at key after))
              same next)
      | inr e ↦
          let same : total_at key (set (row_key row) current before) ≡ total_at key before =
            ap (λ o. or_else o zero_total) (get-set_other key (row_key row) current before e) in
          rw e (
            subst (λ t. group_total (filter (in_group key) rows) t ≡ some (total_at key after)) same
              next)
    ]

-- A key once set stays set, so that every row finds its group.
Present : Text → Entries MutableTotal → Type 0
Present key actual = (total : MutableTotal) × (get key actual ≡ some total)

Present-set :
    (key other : Text) (current : MutableTotal) (actual : Entries MutableTotal)
    → Present key actual
    → Present key (set other current actual)
unfolding Present
Present-set key other current actual (total, h) = elim (Bool-cases (text_eq other key)) [
  | inl e ↦
      let p : other ≡ key = (text_eq_iff other key).0 e in
      (
        current,
        subst (λ k. get key (set k current actual) ≡ some current) (sym p)
            (get-set_same key current actual),
      )
  | inr e ↦ (total, get-set_other key other current actual e ∙ h)
]

totals_from-keeps_Present :
    (key : Text) (rows : List UsageLineItem) (before after : Entries MutableTotal)
    → totals_from rows before ≡ some after
    → Present key before
    → Present key after
unfolding totals_from
totals_from-keeps_Present key [] before after h p = subst (Present key) (some_inj h) p
totals_from-keeps_Present key (row ∷ rows) before after h p =
    let (current, _, rest) = >>=-eq-some (add_row (total_at (row_key row) before) row) _ h in
    totals_from-keeps_Present key rows (set (row_key row) current before) after rest
      (Present-set key (row_key row) current before p)

totals_from-Present :
    (rows : List UsageLineItem) (before after : Entries MutableTotal)
    → totals_from rows before ≡ some after
    → All (λ row. Present (row_key row) after) rows
unfolding totals_from Present
totals_from-Present [] before after h = tt
totals_from-Present (row ∷ rows) before after h =
    let (current, _, rest) = >>=-eq-some (add_row (total_at (row_key row) before) row) _ h in
    (
      totals_from-keeps_Present (row_key row) rows (set (row_key row) current before) after rest
          (current, get-set_same (row_key row) current before),
      totals_from-Present rows (set (row_key row) current before) after rest,
    )

get-All :
    (test : Text → MutableTotal → Bool) (key : Text) (total : MutableTotal)
    (entries : Entries MutableTotal)
    → all (λ (k, t). test k t) entries ≡ true
    → get key entries ≡ some total
    → test key total ≡ true
unfolding get
get-All test key total [] h g = absurd (cc)
get-All test key total ((k, t) ∷ entries) h g = elim (Bool-cases (text_eq k key)) [
  | inl e ↦
      let p : k ≡ key = (text_eq_iff k key).0 e in
      let here : t ≡ total = some_inj (rw e at g) in
      let first : test k t ≡ true = ground arith in
      subst (λ x. test key x ≡ true) here (subst (λ x. test x t ≡ true) p first)
  | inr e ↦ get-All test key total entries (ground arith) (rw e at g)
]

compare_totals-accepts :
    (actual : Entries MutableTotal) (expected : Entries ControlTotal)
    → compare_totals actual expected ≡ none
    → all (λ (key, total). matches_candidate total (get key expected)) actual ≡ true
unfolding compare_totals
compare_totals-accepts actual expected =
    if_cases Accepted (not (length actual == length expected)) (λ e h. absurd (cc))
      (λ e.
        if_cases Accepted (all (λ (key, total). matches_candidate total (get key expected)) actual)
          (λ f h. f) (λ f h. absurd (cc)))
  where
    Accepted : Option ErrorDetails → Type 0
    Accepted o =
        o ≡ none → all (λ (key, total). matches_candidate total (get key expected)) actual ≡ true

-- A control total of the list, of the group of a row, with the five figures of the group: the number
-- of its rows, and the sum of their quantities, with 8 decimals, and of each of the three costs.
pub record Matched (rows : List UsageLineItem) (expected : List ControlTotal) (row : UsageLineItem)
    : Type 0 where
  pub candidate : ControlTotal
  pub before : List ControlTotal
  pub after : List ControlTotal
  pub is_listed : expected ≡ before ++ candidate ∷ after
  pub of_group :
      group_of candidate.provider candidate.service_code candidate.region candidate.month
      ≡ group_of_row row
  pub quantity : ℤ
  pub on_demand : ℤ
  pub realized : ℤ
  pub applied : ℤ
  pub lines_match :
      candidate.line_count ≡ to_text (pos (length (filter (in_group (group_of_row row)) rows)))
  pub quantity_matches :
      candidate.usage_quantity
      ≡ to_text (quot quantity (pos 100000000))
        ++ b'.' ∷ pad_start 8 b'0' (to_text (rem quantity (pos 100000000)))
  pub on_demand_matches : candidate.on_demand_cost_cents ≡ to_text on_demand
  pub realized_matches : candidate.realized_cost_cents ≡ to_text realized
  pub applied_matches : candidate.commitment_applied_cents ≡ to_text applied
  pub quantity_sum :
      SumOf
        (λ (r : UsageLineItem). parse_scaled_decimal r.usage_quantity)
        (filter (in_group (group_of_row row)) rows)
        quantity
  pub on_demand_sum :
      SumOf
        (λ (r : UsageLineItem). big_int r.on_demand_cost_cents)
        (filter (in_group (group_of_row row)) rows)
        on_demand
  pub realized_sum :
      SumOf
        (λ (r : UsageLineItem). big_int r.realized_cost_cents)
        (filter (in_group (group_of_row row)) rows)
        realized
  pub applied_sum :
      SumOf
        (λ (r : UsageLineItem). big_int r.commitment_applied_cents)
        (filter (in_group (group_of_row row)) rows)
        applied

matches_candidate-Matched :
    (total : MutableTotal) (candidate : Option ControlTotal)
    → matches_candidate total candidate ≡ true
    → (c : ControlTotal) × (candidate ≡ some c) × (matches_total total c ≡ true)
matches_candidate-Matched total none h = absurd (cc)
matches_candidate-Matched total (some c) h = (c, refl, h)

-- The texts that `matches_total` compares are equal.
record Texts (total : MutableTotal) (c : ControlTotal) : Type 0 where
  lines : c.line_count ≡ to_text total.line_count
  quantity :
      c.usage_quantity
      ≡ to_text (quot total.usage_quantity (pos 100000000))
        ++ b'.' ∷ pad_start 8 b'0' (to_text (rem total.usage_quantity (pos 100000000)))
  on_demand : c.on_demand_cost_cents ≡ to_text total.on_demand_cost_cents
  realized : c.realized_cost_cents ≡ to_text total.realized_cost_cents
  applied : c.commitment_applied_cents ≡ to_text total.commitment_applied_cents

matches_total-Texts :
    (total : MutableTotal) (c : ControlTotal) → matches_total total c ≡ true → Texts total c
unfolding matches_total scaled_decimal_text
matches_total-Texts total c h = record {
  lines = sym ((text_eq_iff _ _).0 (ground arith));
  quantity = sym ((text_eq_iff _ _).0 (ground arith));
  on_demand = sym ((text_eq_iff _ _).0 (ground arith));
  realized = sym ((text_eq_iff _ _).0 (ground arith));
  applied = sym ((text_eq_iff _ _).0 (ground arith));
}

total-Matched :
    (rows : List UsageLineItem) (expected : List ControlTotal) (row : UsageLineItem)
    (total : MutableTotal) (c : ControlTotal)
    → Summed (filter (in_group (group_of_row row)) rows) total
    → Listed (group_of_row row) expected c
    → Texts total c
    → Matched rows expected row
unfolding control_total_key
total-Matched rows expected row total c sums listed texts = record {
  candidate = c;
  before = listed.before;
  after = listed.after;
  is_listed = listed.is_listed;
  of_group = listed.has_key;
  quantity = total.usage_quantity;
  on_demand = total.on_demand_cost_cents;
  realized = total.realized_cost_cents;
  applied = total.commitment_applied_cents;
  lines_match = texts.lines ∙ ap to_text sums.lines;
  quantity_matches = texts.quantity;
  on_demand_matches = texts.on_demand;
  realized_matches = texts.realized;
  applied_matches = texts.applied;
  quantity_sum = sums.quantity;
  on_demand_sum = sums.on_demand;
  realized_sum = sums.realized;
  applied_sum = sums.applied;
}

-- Where the control totals are accepted, every row belongs to a control total of the list with the
-- provider, service, region and month of the row, whose five figures are those of all the rows of
-- this group: their number, and the sums of their quantities and of their three costs.
pub validate_control_totals-Matched :
    (rows : List UsageLineItem) (expected : List ControlTotal)
    → validate_control_totals rows expected ≡ some none
    → All (Matched rows expected) rows
unfolding validate_control_totals Present row_key
validate_control_totals-Matched rows expected h =
    let (actual, summed, compared) = >>=-eq-some (totals_from rows []) _ h in
    let accepted = compare_totals-accepts actual (expected_from expected []) (some_inj compared) in
    All-weaken
      (λ row (total, found).
        let key = group_of_row row in
        let matched =
          get-All (λ k t. matches_candidate t (get k (expected_from expected []))) key total actual
            accepted found in
        let (c, is_candidate, matches) =
          matches_candidate-Matched total (get key (expected_from expected [])) matched in
        total-Matched rows expected row total c
          (group_total-Summed (filter (in_group key) rows) total (
            totals_from-group key rows [] actual summed
            ∙ ap (λ o. some (or_else o zero_total)) found))
          (get-Listed key expected c is_candidate) (matches_total-Texts total c matches))
      rows (totals_from-Present rows [] actual summed)
