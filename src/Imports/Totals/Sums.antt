-- ===== src/Imports/Totals/Sums.antt =====
-- What the maps of `validateControlTotals` hold: the sums of a group, and the totals that were given.
use cloud_commitment_portfol.Base.{
  ℕ, suc, ◌≡◌, ◌∙◌, refl, sym, ap, subst, false, Option, some, List, [], ◌∷◌, ◌++◌, length,
  map_throws, if◌then◌else◌, Bool-cases, >>=-eq-some, some_inj, inl, inr, ◌⊎◌, ◌>>=◌,
}
use cloud_commitment_portfol.Base.Int.{ℤ, pos, ◌+ℤ◌, sum, int_laws}
use cloud_commitment_portfol.Base.Text.{Text, text_eq, text_eq_iff, big_int}
use cloud_commitment_portfol.Imports.{ControlTotal, UsageLineItem}
use cloud_commitment_portfol.Imports.Cells.{parse_scaled_decimal}
use cloud_commitment_portfol.Imports.Totals.{
  MutableTotal, zero_total, add_row, Entries, get, set, control_total_key, expected_from,
}

-- The total of a group, with no map: its rows one after the other.
abbrev pub group_total : List UsageLineItem → MutableTotal → Option MutableTotal
group_total [] total = some total
group_total (row ∷ rows) total = add_row total row >>= group_total rows

-- What one row adds.
record Adds (row : UsageLineItem) (t t' : MutableTotal) : Type 0 where
  quantity : ℤ
  on_demand : ℤ
  realized : ℤ
  applied : ℤ
  reads_quantity : parse_scaled_decimal row.usage_quantity ≡ some quantity
  reads_on_demand : big_int row.on_demand_cost_cents ≡ some on_demand
  reads_realized : big_int row.realized_cost_cents ≡ some realized
  reads_applied : big_int row.commitment_applied_cents ≡ some applied
  sums :
      record {
        line_count = t.line_count +ℤ pos 1;
        usage_quantity = t.usage_quantity +ℤ quantity;
        on_demand_cost_cents = t.on_demand_cost_cents +ℤ on_demand;
        realized_cost_cents = t.realized_cost_cents +ℤ realized;
        commitment_applied_cents = t.commitment_applied_cents +ℤ applied;
      }
      ≡ t'

add_row-Adds : (t t' : MutableTotal) (row : UsageLineItem) → add_row t row ≡ some t' → Adds row t t'
unfolding add_row
add_row-Adds t t' row h =
    let (q, e, h1) = >>=-eq-some (parse_scaled_decimal row.usage_quantity) _ h in
    let (o, f, h2) = >>=-eq-some (big_int row.on_demand_cost_cents) _ h1 in
    let (r, g, h3) = >>=-eq-some (big_int row.realized_cost_cents) _ h2 in
    let (a, k, h4) = >>=-eq-some (big_int row.commitment_applied_cents) _ h3 in
    record {
      quantity = q;
      on_demand = o;
      realized = r;
      applied = a;
      reads_quantity = e;
      reads_on_demand = f;
      reads_realized = g;
      reads_applied = k;
      sums = some_inj h4;
    }

plus_assoc : (a b c : ℤ) → a +ℤ b +ℤ c ≡ a +ℤ (b +ℤ c)
plus_assoc a b c = omega int_laws

zero_plus : (a : ℤ) → pos 0 +ℤ a ≡ a
zero_plus a = omega int_laws

one_more : (n : ℕ) → pos 1 +ℤ pos n ≡ pos (suc n)
one_more n = omega int_laws

-- The values that are read from every row, and their sum.
abbrev pub SumOf : (UsageLineItem → Option ℤ) → List UsageLineItem → ℤ → Type 0
SumOf read rows total =
    (values : List ℤ) × (map_throws read rows ≡ some values) × (total ≡ sum values)

module _ (column : MutableTotal → ℤ) (read : UsageLineItem → Option ℤ)
    (adds : (t t' : MutableTotal) (row : UsageLineItem)
      → Adds row t t'
      → (v : ℤ) × (read row ≡ some v) × (column t' ≡ column t +ℤ v)) where
  group_total-column :
      (rows : List UsageLineItem) (t t' : MutableTotal)
      → group_total rows t ≡ some t'
      → (values : List ℤ) × (map_throws read rows ≡ some values)
        × (column t' ≡ column t +ℤ sum values)
  group_total-column [] t t' h = ([], refl, ap column (sym (some_inj h)) ∙ omega int_laws)
  group_total-column (row ∷ rows) t t' h =
      let (t1, added, rest) = >>=-eq-some (add_row t row) _ h in
      let (v, reads, first) = adds t t1 row (add_row-Adds t t1 row added) in
      let (values, all_read, total) = group_total-column rows t1 t' rest in
      (
        v ∷ values,
        rw (reads, all_read) refl,
        total ∙ (ap (λ z. z +ℤ sum values) first ∙ plus_assoc (column t) v (sum values)),
      )

  group_total-SumOf :
      (rows : List UsageLineItem) (t' : MutableTotal)
      → column zero_total ≡ pos 0
      → group_total rows zero_total ≡ some t'
      → SumOf read rows (column t')
  group_total-SumOf rows t' zero h =
      let (values, all_read, total) = group_total-column rows zero_total t' h in
      (values, all_read, total ∙ (ap (λ z. z +ℤ sum values) zero ∙ zero_plus (sum values)))

group_total-lines :
    (rows : List UsageLineItem) (t t' : MutableTotal)
    → group_total rows t ≡ some t'
    → t'.line_count ≡ t.line_count +ℤ pos (length rows)
group_total-lines [] t t' h =
    ap (λ (u : MutableTotal). u.line_count) (sym (some_inj h)) ∙ omega int_laws
group_total-lines (row ∷ rows) t t' h =
    let (t1, added, rest) = >>=-eq-some (add_row t row) _ h in
    let first = ap (λ (u : MutableTotal). u.line_count) (add_row-Adds t t1 row added).sums in
    let others = group_total-lines rows t1 t' rest in
    let n = pos (length rows) in
    others
    ∙ (ap (λ z. z +ℤ n) (sym first)
        ∙ (plus_assoc t.line_count (pos 1) n
            ∙ ap (λ z. t.line_count +ℤ z) (one_more (length rows))))

-- A group and its total: the number of the rows, and the sum of each of the four columns.
pub record Summed (rows : List UsageLineItem) (total : MutableTotal) : Type 0 where
  pub lines : total.line_count ≡ pos (length rows)
  pub quantity :
      SumOf (λ (r : UsageLineItem). parse_scaled_decimal r.usage_quantity) rows total.usage_quantity
  pub on_demand :
      SumOf (λ (r : UsageLineItem). big_int r.on_demand_cost_cents) rows total.on_demand_cost_cents
  pub realized :
      SumOf (λ (r : UsageLineItem). big_int r.realized_cost_cents) rows total.realized_cost_cents
  pub applied :
      SumOf
        (λ (r : UsageLineItem). big_int r.commitment_applied_cents)
        rows
        total.commitment_applied_cents

pub group_total-Summed :
    (rows : List UsageLineItem) (total : MutableTotal)
    → group_total rows zero_total ≡ some total
    → Summed rows total
group_total-Summed rows total h = record {
  lines = group_total-lines rows zero_total total h ∙ omega int_laws;
  quantity =
      group_total-SumOf (λ t. t.usage_quantity) (λ r. parse_scaled_decimal r.usage_quantity)
        (λ t t' row a. (a.quantity, a.reads_quantity, sym (ap (λ u. u.usage_quantity) a.sums))) rows
        total refl h;
  on_demand =
      group_total-SumOf (λ t. t.on_demand_cost_cents) (λ r. big_int r.on_demand_cost_cents)
        (λ t t' row a.
          (a.on_demand, a.reads_on_demand, sym (ap (λ u. u.on_demand_cost_cents) a.sums)))
        rows total refl h;
  realized =
      group_total-SumOf (λ t. t.realized_cost_cents) (λ r. big_int r.realized_cost_cents)
        (λ t t' row a. (a.realized, a.reads_realized, sym (ap (λ u. u.realized_cost_cents) a.sums)))
        rows total refl h;
  applied =
      group_total-SumOf (λ t. t.commitment_applied_cents) (λ r. big_int r.commitment_applied_cents)
        (λ t t' row a.
          (a.applied, a.reads_applied, sym (ap (λ u. u.commitment_applied_cents) a.sums)))
        rows total refl h;
}

pub get-set_same :
    {A : Type 0} (key : Text) (a : A) (entries : Entries A) → get key (set key a entries) ≡ some a
unfolding get set
get-set_same key a [] = rw ((text_eq_iff key key).1 refl) refl
get-set_same key a ((k, b) ∷ entries) = elim (Bool-cases (text_eq k key)) [
  | inl e ↦ rw (e, e) refl
  | inr e ↦ rw (e, e) (get-set_same key a entries)
]

pub get-set_other :
    {A : Type 0} (key other : Text) (a : A) (entries : Entries A)
    → text_eq other key ≡ false
    → get key (set other a entries) ≡ get key entries
unfolding get set
get-set_other key other a [] h = rw h refl
get-set_other key other a ((k, b) ∷ entries) h = elim (Bool-cases (text_eq k other)) [
  | inl e ↦
      let q : text_eq k key ≡ false =
        subst (λ x. text_eq x key ≡ false) (sym ((text_eq_iff k other).0 e)) h in
      rw (e, q) refl
  | inr e ↦
      rw e (ap (λ r. if text_eq k key then some b else r) (get-set_other key other a entries h))
]

-- One of the totals that were given, under its key.
pub record Listed (key : Text) (expected : List ControlTotal) (c : ControlTotal) : Type 0 where
  pub before : List ControlTotal
  pub after : List ControlTotal
  pub is_listed : expected ≡ before ++ c ∷ after
  pub has_key : control_total_key c ≡ key

expected_from-Listed :
    (key : Text) (expected : List ControlTotal) (entries : Entries ControlTotal) (c : ControlTotal)
    → get key (expected_from expected entries) ≡ some c
    → Listed key expected c ⊎ (get key entries ≡ some c)
unfolding expected_from
expected_from-Listed key [] entries c h = inr h
expected_from-Listed key (first ∷ rest) entries c h =
    elim (expected_from-Listed key rest (set (control_total_key first) first entries) c h) [
      | inl l ↦ inl (record {
        before = first ∷ l.before;
        after = l.after;
        is_listed = ap (λ cs. first ∷ cs) l.is_listed;
        has_key = l.has_key;
      })
      | inr e ↦ elim (Bool-cases (text_eq (control_total_key first) key)) [
        | inl t ↦
            let same : control_total_key first ≡ key =
              (text_eq_iff (control_total_key first) key).0 t in
            let here : get key (set key first entries) ≡ some c =
              subst (λ k. get key (set k first entries) ≡ some c) same e in
            let is_first : first ≡ c = some_inj (sym (get-set_same key first entries) ∙ here) in
            inl (record {
              before = [];
              after = rest;
              is_listed = ap (λ x. x ∷ rest) is_first;
              has_key = subst (λ x. control_total_key x ≡ key) is_first same;
            })
        | inr t ↦ inr (sym (get-set_other key (control_total_key first) first entries t) ∙ e)
      ]
    ]

pub get-Listed :
    (key : Text) (expected : List ControlTotal) (c : ControlTotal)
    → get key (expected_from expected []) ≡ some c
    → Listed key expected c
unfolding get
get-Listed key expected c h = elim (expected_from-Listed key expected [] c h) [
  | inl l ↦ l
  | inr e ↦ absurd (cc)
]
