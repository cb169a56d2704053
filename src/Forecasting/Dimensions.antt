-- ===== src/Forecasting/Dimensions.antt =====
-- The histories of the dimensions, and the points made of them.
use cloud_commitment_portfol.Base.{
  ℕ, suc, ◌+◌, ◌*◌, ◌≤◌, ◌≡◌, ◌∙◌, refl, sym, ap, Bool, some, List, [], ◌∷◌, ◌++◌, map_throws,
  length, count, All, All-append, if_cases, length-append, length-map_throws, >>=-eq-some, some_inj,
  arith, subst, false, Bool-cases, inl, inr,
}
use cloud_commitment_portfol.Base.Text.{Text, text_eq, text_eq_iff}
use cloud_commitment_portfol.Forecasting.{
  ForecastUsageMonth, ForecastPoint, Dimension, dimension_key, push_month, dimensions_from,
  dimensions_by_key, forecast_point, forecast_points,
}

-- The rows of a history all have its key, and there is one at least.
abbrev pub IsHistory : Dimension → Type 0
IsHistory (key, history) =
    (1 ≤ length history) × All (λ (m : ForecastUsageMonth). dimension_key m ≡ key) history

abbrev pub rows_of : List Dimension → List ForecastUsageMonth
rows_of [] = []
rows_of ((key, history) ∷ dimensions) = history ++ rows_of dimensions

push_month-IsHistory :
    (key : Text) (month : ForecastUsageMonth) (ds : List Dimension)
    → dimension_key month ≡ key
    → All IsHistory ds
    → All IsHistory (push_month key month ds)
unfolding push_month
push_month-IsHistory key month [] e h = ((omega arith, (e, tt)), tt)
push_month-IsHistory key month ((k, history) ∷ ds) e ((n, same), h) =
    if_cases (All IsHistory) (text_eq k key)
      (λ t.
        let k_is : k ≡ key = (text_eq_iff k key).0 t in
        (
          (
            omega (arith, length-append history (month ∷ [])),
            All-append _ history (month ∷ []) same (e ∙ sym k_is, tt),
          ),
          h,
        ))
      (λ _. ((n, same), push_month-IsHistory key month ds e h))

module _ (p : ForecastUsageMonth → Bool) where
  count-append : (xs ys : List ForecastUsageMonth) → count p (xs ++ ys) ≡ count p xs + count p ys
  count-append [] ys = omega arith
  count-append (x ∷ xs) ys = omega (arith, count-append xs ys)

  count-push_month :
      (key : Text) (month : ForecastUsageMonth) (ds : List Dimension)
      → count p (rows_of (push_month key month ds)) ≡ count p (month ∷ []) + count p (rows_of ds)
  unfolding push_month
  count-push_month key month [] = omega arith
  count-push_month key month ((k, history) ∷ ds) =
      if_cases (λ t. count p (rows_of t) ≡ count p (month ∷ []) + count p (history ++ rows_of ds))
        (text_eq k key)
        (λ _. omega (
          arith,
          count-append (history ++ month ∷ []) (rows_of ds),
          count-append history (month ∷ []),
          count-append history (rows_of ds),
        ))
        (λ _. omega (
          arith,
          count-append history (rows_of (push_month key month ds)),
          count-append history (rows_of ds),
          count-push_month key month ds,
        ))

  count-dimensions_from :
      (ds : List Dimension) (months : List ForecastUsageMonth)
      → count p (rows_of (dimensions_from ds months)) ≡ count p months + count p (rows_of ds)
  unfolding dimensions_from
  count-dimensions_from ds [] = omega arith
  count-dimensions_from ds (m ∷ months) =
      count-dimensions_from (push_month (dimension_key m) m ds) months
      ∙ omega (arith, count-push_month (dimension_key m) m ds)

dimensions_from-IsHistory :
    (months : List ForecastUsageMonth) (ds : List Dimension)
    → All IsHistory ds
    → All IsHistory (dimensions_from ds months)
unfolding dimensions_from
dimensions_from-IsHistory [] ds h = h
dimensions_from-IsHistory (m ∷ months) ds h =
    dimensions_from-IsHistory months (push_month (dimension_key m) m ds)
      (push_month-IsHistory (dimension_key m) m ds refl h)

abbrev pub has_key : Text → Dimension → Bool
has_key key (k, _) = text_eq k key

-- A row adds no dimension but that of its own key.
count-push_other :
    (key other : Text) (month : ForecastUsageMonth) (ds : List Dimension)
    → text_eq other key ≡ false
    → count (has_key key) (push_month other month ds) ≡ count (has_key key) ds
unfolding push_month
count-push_other key other month [] h = rw h refl
count-push_other key other month ((k, history) ∷ ds) h =
    if_cases (λ t. count (has_key key) t ≡ count (has_key key) ((k, history) ∷ ds))
      (text_eq k other) (λ e. refl) (λ e. omega (arith, count-push_other key other month ds h))

text_eq-swap : (a b : Text) → text_eq a b ≡ false → text_eq b a ≡ false
text_eq-swap a b h = elim (Bool-cases (text_eq b a)) [
  | inl e ↦ absurd (let same = (text_eq_iff a b).1 (sym ((text_eq_iff b a).0 e)) in cc)
  | inr e ↦ e
]

count-push_key :
    (key other : Text) (month : ForecastUsageMonth) (ds : List Dimension)
    → count (has_key key) ds ≤ 1
    → count (has_key key) (push_month other month ds) ≤ 1
unfolding push_month
count-push_key key other month [] h = ground arith
count-push_key key other month ((k, history) ∷ ds) h =
    if_cases (λ t. count (has_key key) t ≤ 1) (text_eq k other) (λ e. h)
      (λ e. elim (Bool-cases (text_eq k key)) [
        | inl same ↦
            let apart : text_eq other key ≡ false =
              subst (λ t. text_eq other t ≡ false) ((text_eq_iff k key).0 same)
                (text_eq-swap k other e) in
            omega (arith, h, count-push_other key other month ds apart)
        | inr apart ↦
            let rest : count (has_key key) ds ≤ 1 = omega arith in
            rw apart (omega (arith, count-push_key key other month ds rest))
      ])

dimensions_from-unique_keys :
    (key : Text) (months : List ForecastUsageMonth) (ds : List Dimension)
    → count (has_key key) ds ≤ 1
    → count (has_key key) (dimensions_from ds months) ≤ 1
unfolding dimensions_from
dimensions_from-unique_keys key [] ds h = h
dimensions_from-unique_keys key (m ∷ months) ds h =
    dimensions_from-unique_keys key months (push_month (dimension_key m) m ds)
      (count-push_key key (dimension_key m) m ds h)

-- Grouping the usage rows by dimension loses none and adds none, whatever test counts them; no
-- history is empty, so that no average divides by zero; every row stands in the history of its own
-- key; and no two histories have the same key, so that the rows of a key stand together.
pub dimensions_by_key-groups :
    (p : ForecastUsageMonth → Bool) (months : List ForecastUsageMonth)
    → (count p (rows_of (dimensions_by_key months)) ≡ count p months)
      × All IsHistory (dimensions_by_key months)
      × ((key : Text) → count (has_key key) (dimensions_by_key months) ≤ 1)
unfolding dimensions_by_key
dimensions_by_key-groups p months = (
  count-dimensions_from p [] months ∙ omega arith,
  dimensions_from-IsHistory months [] tt,
  λ key. dimensions_from-unique_keys key months [] (omega arith),
)

one_more_row : (d m : ℕ) → m + d * m ≡ suc d * m
one_more_row d m = grind arith

-- A forecast that does not throw has one point for each dimension and month of the horizon.
pub length-forecast_points :
    (ds : List Dimension) (months : List Text) {points : List ForecastPoint}
    → forecast_points ds months ≡ some points
    → length points ≡ length ds * length months
unfolding forecast_points
length-forecast_points [] months h = sym (ap length (some_inj h)) ∙ omega arith
length-forecast_points ((key, history) ∷ ds) months h =
    let (some_points, e, h₁) = >>=-eq-some (map_throws (forecast_point key history) months) _ h in
    let (rest, f, h₂) = >>=-eq-some (forecast_points ds months) _ h₁ in
    let n = length-map_throws (forecast_point key history) months e in
    let m = length-forecast_points ds months f in
    let l = length-append some_points rest in
    sym (ap length (some_inj h₂)) ∙ (l ∙ (omega arith ∙ one_more_row (length ds) (length months)))
