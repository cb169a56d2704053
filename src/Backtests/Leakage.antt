-- ===== src/Backtests/Leakage.antt =====
-- What a month of the replay can depend on.
use cloud_commitment_portfol.Base.{
  none, Option, ℕ, zero, suc, ◌+◌, ◌≤◌, ◌≡◌, refl, sym, ap, ◌∙◌, some, List, [], ◌∷◌, ◌++◌, map,
  length, take, get_elem?, length-append, length-map, arith, if◌then◌else◌,
}
use mathlib.Core.List.{append-nil, append_assoc}
use cloud_commitment_portfol.Base.Int.{ℤ, pos, neg, ◌-ℤ◌, ltb_ℤ}
use cloud_commitment_portfol.Base.Text.{Text}
use cloud_commitment_portfol.Backtests.Replay.{
  Baseline, MonthlyTotal, ReplayMonth, commitment_for_baseline, month_before, replay_month,
  replay_from, replay_months, simulated_cost,
}

abbrev pub on_demand : MonthlyTotal → ℤ
on_demand m = m.on_demand_cost_cents

get_elem?-append {ℓ} :
    {A : Type ℓ} (xs ys : List A) (k : ℕ)
    → suc k ≤ length xs
    → get_elem? (xs ++ ys) k ≡ get_elem? xs k
get_elem?-append [] ys k h = absurd (omega arith)
get_elem?-append (x ∷ xs) ys zero h = refl
get_elem?-append (x ∷ xs) ys (suc k) h = get_elem?-append xs ys k (omega arith)

month_before-append :
    (xs ys : List MonthlyTotal) (k : ℕ)
    → k ≤ length xs
    → month_before (xs ++ ys) k ≡ month_before xs k
month_before-append xs ys zero h = refl
month_before-append xs ys (suc k) h = rw (get_elem?-append xs ys k h) refl

-- The name of the last month of a list.
abbrev pub last_month : List MonthlyTotal → Option Text
last_month [] = none
last_month (x ∷ []) = some x.month
last_month (x ∷ y ∷ xs) = last_month (y ∷ xs)

-- The month before the end of a list is its last one.
month_before-length : (xs : List MonthlyTotal) → month_before xs (length xs) ≡ last_month xs
month_before-length [] = refl
month_before-length (x ∷ []) = refl
month_before-length (x ∷ y ∷ xs) = month_before-length (y ∷ xs)

module _ (baseline : Baseline) (discount_bps : ℤ) where
  replay_from-append :
      (months : List MonthlyTotal) (prior : List ℤ) (xs ys : List MonthlyTotal)
      → replay_from baseline discount_bps months prior (xs ++ ys)
        ≡ replay_from baseline discount_bps months prior xs
          ++ replay_from baseline discount_bps months (prior ++ map on_demand xs) ys
  unfolding replay_from
  replay_from-append months prior [] ys = rw (append-nil prior) refl
  replay_from-append months prior (x ∷ xs) ys =
      ap (λ rs. replay_month baseline discount_bps months prior x ∷ rs)
        (replay_from-append months (prior ++ on_demand x ∷ []) xs ys
          ∙ ap
              (λ p.
                replay_from baseline discount_bps months (prior ++ on_demand x ∷ []) xs
                ++ replay_from baseline discount_bps months p ys)
              (append_assoc prior (on_demand x ∷ []) (map on_demand xs)))

  replay_month-local :
      (months months' : List MonthlyTotal) (prior : List ℤ) (month : MonthlyTotal)
      → month_before months (length prior) ≡ month_before months' (length prior)
      → replay_month baseline discount_bps months prior month
        ≡ replay_month baseline discount_bps months' prior month
  unfolding replay_month
  replay_month-local months months' prior month h = rw h refl

  -- The loop reads no month past those that it has been through.
  replay_from-local :
      (months later : List MonthlyTotal) (prior : List ℤ) (rest : List MonthlyTotal)
      → length prior + length rest ≤ length months
      → replay_from baseline discount_bps (months ++ later) prior rest
        ≡ replay_from baseline discount_bps months prior rest
  unfolding replay_from
  replay_from-local months later prior [] h = refl
  replay_from-local months later prior (x ∷ rest) h =
      let row =
        replay_month-local (months ++ later) months prior x
          (month_before-append months later (length prior) (omega arith)) in
      let rows =
        replay_from-local months later (prior ++ on_demand x ∷ []) rest
          (omega (arith, length-append prior (on_demand x ∷ []))) in
      cc

  length-replay_from :
      (months : List MonthlyTotal) (prior : List ℤ) (rest : List MonthlyTotal)
      → length (replay_from baseline discount_bps months prior rest) ≡ length rest
  unfolding replay_from
  length-replay_from months prior [] = refl
  length-replay_from months prior (x ∷ rest) = ap suc (length-replay_from months _ rest)

  get_elem?-past :
      (rs rs' : List ReplayMonth) (n : ℕ)
      → length rs ≡ n
      → get_elem? (rs ++ rs') n ≡ get_elem? rs' 0
  get_elem?-past [] rs' n h = rw (sym h) refl
  get_elem?-past (r ∷ rs) rs' zero h = absurd (omega arith)
  get_elem?-past (r ∷ rs) rs' (suc n) h = get_elem?-past rs rs' n (omega arith)

  take-append : (rs rs' : List ReplayMonth) (n : ℕ) → length rs ≡ n → take n (rs ++ rs') ≡ rs
  take-append [] rs' n h = rw (sym h) refl
  take-append (r ∷ rs) rs' zero h = absurd (omega arith)
  take-append (r ∷ rs) rs' (suc n) h = ap (λ t. r ∷ t) (take-append rs rs' n (omega arith))

  -- Later months have no influence: the replay of a longer history begins with the replay of the
  -- shorter one.
  pub replay_months-prefix :
      (before later : List MonthlyTotal)
      → take (length before) (replay_months baseline discount_bps (before ++ later))
        ≡ replay_months baseline discount_bps before
  unfolding replay_months
  replay_months-prefix before later =
      rw
        (
          replay_from-append (before ++ later) [] before later,
          replay_from-local before later [] before (omega arith),
        )
        (take-append (replay_from baseline discount_bps before [] before) _ (length before)
          (length-replay_from before [] before))

  -- The row of a month comes from that month and the months before it alone. Its commitment is that
  -- of the costs before it, whatever the month itself costs and whatever comes later, and its
  -- decision inputs name their number and the last of them; its costs are the month's own, its
  -- simulated cost is that of this commitment for the month's on-demand cost, its savings are the
  -- difference of the two, and its regret is what is lost by it.
  pub replay_months-no_leakage :
      (before : List MonthlyTotal) (month : MonthlyTotal) (later : List MonthlyTotal)
      → (row : ReplayMonth) × (get_elem?
            (replay_months baseline discount_bps (before ++ month ∷ later))
            (length before)
          ≡ some row)
        × (row.month ≡ month.month)
        × (row.simulated_commitment_cents ≡ commitment_for_baseline baseline (map on_demand before))
        × (row.prior_months_seen ≡ length before)
        × (row.latest_visible_month ≡ last_month before)
        × (row.on_demand_cost_cents ≡ month.on_demand_cost_cents)
        × (row.realized_cost_cents ≡ month.realized_cost_cents)
        × (row.simulated_cost_cents
            ≡ simulated_cost month.on_demand_cost_cents
                (commitment_for_baseline baseline (map on_demand before))
                discount_bps)
        × (row.simulated_savings_cents ≡ month.on_demand_cost_cents -ℤ row.simulated_cost_cents)
        × (row.regret_cents ≡ (
            if ltb_ℤ row.simulated_savings_cents (pos 0)
            then neg row.simulated_savings_cents
            else pos 0))
  unfolding replay_months replay_from replay_month
  replay_months-no_leakage before month later = (
    replay_month baseline discount_bps before (map on_demand before) month,
    (rw (replay_from-append (before ++ month ∷ later) [] before (month ∷ later)) (
        get_elem?-past _ _ (length before) (length-replay_from _ [] before)
        ∙ ap some (
            replay_month-local (before ++ month ∷ later) before (map on_demand before) month (
              month_before-append before (month ∷ later) _
                (omega (arith, length-map on_demand before)))))),
    refl,
    refl,
    length-map on_demand before,
    rw (length-map on_demand before) (month_before-length before),
    refl,
    refl,
    refl,
    refl,
    refl,
  )
