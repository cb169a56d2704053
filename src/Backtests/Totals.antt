-- ===== src/Backtests/Totals.antt =====
-- What `monthlyTotals` makes of the usage rows.
use cloud_commitment_portfol.Base.{
  ℕ, ◌≤◌, ◌≡◌, refl, sym, ◌∙◌, Option, some, List, [], ◌∷◌, map, map_throws, count, arith,
  Bool-cases, inl, inr, false, some_inj, ◌>>=◌, >>=-eq-some,
}
use cloud_commitment_portfol.Base.Int.{ℤ, ◌+ℤ◌, sum, int_laws}
use cloud_commitment_portfol.Base.Sort.{sum-sort, count-sort}
use cloud_commitment_portfol.Base.Text.{Text, text_eq, text_eq_iff, big_int}
use cloud_commitment_portfol.Backtests.Replay.{
  UsageMonth, MonthlyTotal, add_month, totals_from, compare_months, monthly_totals,
}

abbrev on_demand : MonthlyTotal → ℤ
on_demand t = t.on_demand_cost_cents

abbrev realized : MonthlyTotal → ℤ
realized t = t.realized_cost_cents

-- Adding an amount to one month adds it to the sums.
sum-add_month :
    (month : Text) (a b : ℤ) (totals : List MonthlyTotal)
    → (sum (map on_demand (add_month month a b totals)) ≡ sum (map on_demand totals) +ℤ a)
      × (sum (map realized (add_month month a b totals)) ≡ sum (map realized totals) +ℤ b)
unfolding add_month
sum-add_month month a b [] = (omega int_laws, omega int_laws)
sum-add_month month a b (t ∷ totals) = elim (Bool-cases (text_eq t.month month)) [
  | inl e ↦ rw e (omega int_laws, omega int_laws)
  | inr e ↦
      let (p, q) = sum-add_month month a b totals in rw (e, p, q) (omega int_laws, omega int_laws)
]

-- The two costs of a row, as integers.
abbrev pub costs_of : UsageMonth → Option (ℤ × ℤ)
costs_of row = do
  a ← big_int row.on_demand_cost_cents
  b ← big_int row.realized_cost_cents
  some (a, b)

sum-totals_from :
    (totals : List MonthlyTotal) (rows : List UsageMonth) (months : List MonthlyTotal)
    → totals_from totals rows ≡ some months
    → (costs : List (ℤ × ℤ)) × (map_throws costs_of rows ≡ some costs)
      × (sum (map on_demand months) ≡ sum (map on_demand totals) +ℤ sum (map (λ c. c.0) costs))
      × (sum (map realized months) ≡ sum (map realized totals) +ℤ sum (map (λ c. c.1) costs))
unfolding totals_from
sum-totals_from totals [] months h =
    ([], refl, rw (sym (some_inj h)) (omega int_laws), rw (sym (some_inj h)) (omega int_laws))
sum-totals_from totals (row ∷ rows) months h =
    let (a, read_a, h₁) = >>=-eq-some (big_int row.on_demand_cost_cents) _ h in
    let (b, read_b, h₂) = >>=-eq-some (big_int row.realized_cost_cents) _ h₁ in
    let (costs, read, p, q) = sum-totals_from (add_month row.month a b totals) rows months h₂ in
    let (r, s) = sum-add_month row.month a b totals in
    (
      (a, b) ∷ costs,
      (rw (read_a, read_b, read) refl),
      (rw (p, r) (omega int_laws)),
      (rw (q, s) (omega int_laws)),
    )

-- How many entries there are for a month.
abbrev pub entries : Text → List MonthlyTotal → ℕ
entries month totals = count (λ (t : MonthlyTotal). text_eq t.month month) totals

entries-add_other :
    (month other : Text) (a b : ℤ) (totals : List MonthlyTotal)
    → text_eq other month ≡ false
    → entries month (add_month other a b totals) ≡ entries month totals
unfolding add_month
entries-add_other month other a b [] h = rw h refl
entries-add_other month other a b (t ∷ totals) h = elim (Bool-cases (text_eq t.month other)) [
  | inl e ↦ rw e refl
  | inr e ↦ rw (e, entries-add_other month other a b totals h) refl
]

entries-add_month :
    (month other : Text) (a b : ℤ) (totals : List MonthlyTotal)
    → entries month totals ≤ 1
    → entries month (add_month other a b totals) ≤ 1
unfolding add_month
entries-add_month month other a b [] h = ground arith
entries-add_month month other a b (t ∷ totals) h = elim (Bool-cases (text_eq t.month other)) [
  | inl e ↦ rw e h
  | inr e ↦ rw e (elim (Bool-cases (text_eq t.month month)) [
    | inl same ↦
        let away : text_eq other month ≡ false = elim (Bool-cases (text_eq other month)) [
          | inl f ↦ absurd (
              let m = (text_eq_iff t.month month).0 same in
              let o = (text_eq_iff other month).0 f in
              let c = (text_eq_iff t.month other).1 (m ∙ sym o) in cc)
          | inr f ↦ f
        ] in
        rw (entries-add_other month other a b totals away) h
    | inr differs ↦
        let rest = entries-add_month month other a b totals (ground arith) in
        rw differs (omega arith)
  ])
]

entries-totals_from :
    (month : Text) (totals : List MonthlyTotal) (rows : List UsageMonth)
    (months : List MonthlyTotal)
    → entries month totals ≤ 1
    → totals_from totals rows ≡ some months
    → entries month months ≤ 1
unfolding totals_from
entries-totals_from month totals [] months few h = rw (sym (some_inj h)) few
entries-totals_from month totals (row ∷ rows) months few h =
    let (a, read_a, h₁) = >>=-eq-some (big_int row.on_demand_cost_cents) _ h in
    let (b, read_b, h₂) = >>=-eq-some (big_int row.realized_cost_cents) _ h₁ in
    entries-totals_from month (add_month row.month a b totals) rows months
      (entries-add_month month row.month a b totals few) h₂

-- The monthly totals, where every cost of the rows can be read, have at most one entry for each
-- month, and lose nothing: their costs add up to those of all rows.
pub monthly_totals-conserve :
    (month : Text) (rows : List UsageMonth) (months : List MonthlyTotal)
    → monthly_totals rows ≡ some months
    → (entries month months ≤ 1)
      × ((costs : List (ℤ × ℤ)) × (map_throws costs_of rows ≡ some costs)
          × (sum (map on_demand months) ≡ sum (map (λ c. c.0) costs))
          × (sum (map realized months) ≡ sum (map (λ c. c.1) costs)))
unfolding monthly_totals
monthly_totals-conserve month rows months h =
    let (unsorted, e, sorted) = >>=-eq-some (totals_from [] rows) _ h in
    let (costs, read, p, q) = sum-totals_from [] rows unsorted e in
    (
      rw (sym (some_inj sorted), count-sort compare_months)
          (entries-totals_from month [] rows unsorted (omega arith) e),
      (
        costs,
        read,
        rw (sym (some_inj sorted), sum-sort compare_months on_demand unsorted, p) (omega int_laws),
        rw (sym (some_inj sorted), sum-sort compare_months realized unsorted, q) (omega int_laws),
      ),
    )
