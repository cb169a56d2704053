-- ===== src/Backtests/Savings.antt =====
-- What a replay saves and loses.
use cloud_commitment_portfol.Base.{
  ℕ, ◌+◌, ◌*◌, ◌/◌, ◌-◌, ◌≤◌, ◌≡◌, refl, ◌∙◌, ◌⊎◌, inl, inr, List, [], ◌∷◌, map, All, ◌++◌,
  if◌then◌else◌, arith, Bool-cases,
}
use cloud_commitment_portfol.Base.Int.{
  ℤ, pos, negsuc, ◌+ℤ◌, ◌-ℤ◌, ◌*ℤ◌, neg, quot, ◌≤ℤ◌, sum, sum_from-eq-sum, int_laws, *ℤ_pos,
  quot_pos, eqb_ℤ, ltb_ℤ,
}
use cloud_commitment_portfol.Base.Json.{Fields}
use cloud_commitment_portfol.Backtests.Replay.{
  Baseline, no_commitment, last_month_steady_state, seventy_percent_utilization, MonthlyTotal,
  ReplayMonth, ReplayResult, total, commitment_for_baseline, simulated_cost, replay_month,
  replay_from, replay_months, replay_baseline, backtest_discount_bps, discount_of,
  configured_discount,
}
use cloud_commitment_portfol.Backtests.Artifact.{better, best_from, best_of, baseline_results}

abbrev savings : ReplayMonth → ℤ
savings r = r.simulated_savings_cents

abbrev cost : ReplayMonth → ℤ
cost r = r.simulated_cost_cents

abbrev regret : ReplayMonth → ℤ
regret r = r.regret_cents

total-eq-sum : (xs : List ℤ) → total xs ≡ sum xs
unfolding total
total-eq-sum xs = sum_from-eq-sum (pos 0) xs ∙ omega int_laws

abbrev on_demand : MonthlyTotal → ℤ
on_demand m = m.on_demand_cost_cents

balance_step :
    (s on c ss ons cs : ℤ) → s ≡ on -ℤ c → ss ≡ ons -ℤ cs → s +ℤ ss ≡ (on +ℤ ons) -ℤ (c +ℤ cs)
balance_step s on c ss ons cs h k = rw (h, k) (omega int_laws)

nonneg_step : (a b : ℤ) → pos 0 ≤ℤ a → pos 0 ≤ℤ b → pos 0 ≤ℤ a +ℤ b
nonneg_step a b h k = omega int_laws

cover_step : (s r ss rs : ℤ) → pos 0 ≤ℤ s +ℤ r → pos 0 ≤ℤ ss +ℤ rs → pos 0 ≤ℤ (s +ℤ ss) +ℤ (r +ℤ rs)
cover_step s r ss rs h k = omega int_laws

regret_bounds :
    (s : ℤ) → let r = if ltb_ℤ s (pos 0) then neg s else pos 0 in (pos 0 ≤ℤ r) × (pos 0 ≤ℤ s +ℤ r)
regret_bounds s = elim (Bool-cases (ltb_ℤ s (pos 0))) [
  | inl e ↦ rw e (grind int_laws, grind int_laws)
  | inr e ↦ rw e (grind int_laws, grind int_laws)
]

module _ (baseline : Baseline) (discount_bps : ℤ) (months : List MonthlyTotal) where
  row-balance :
      (prior : List ℤ) (month : MonthlyTotal)
      → let row = replay_month baseline discount_bps months prior month in
        (savings row ≡ on_demand month -ℤ cost row)
        × (pos 0 ≤ℤ regret row)
        × (pos 0 ≤ℤ savings row +ℤ regret row)
  unfolding replay_month
  row-balance prior month = let (a, b) = regret_bounds _ in (refl, a, b)

  -- The sums of the rows, by turns of the loop.
  rows-balance :
      (prior : List ℤ) (rest : List MonthlyTotal)
      → let rows = replay_from baseline discount_bps months prior rest in
        (sum (map savings rows) ≡ sum (map on_demand rest) -ℤ sum (map cost rows))
        × (pos 0 ≤ℤ sum (map regret rows))
        × (pos 0 ≤ℤ sum (map savings rows) +ℤ sum (map regret rows))
  unfolding replay_from
  rows-balance prior [] = (omega int_laws, omega int_laws, omega int_laws)
  rows-balance prior (m ∷ rest) =
      let (a, b, c) = row-balance prior m in
      let (a_rest, b_rest, c_rest) = rows-balance (prior ++ m.on_demand_cost_cents ∷ []) rest in
      (balance_step _ _ _ _ _ _ a a_rest, nonneg_step _ _ b b_rest, cover_step _ _ _ _ c c_rest)

-- The savings of a replay are what it would have cost on demand less what it costs, and the regret
-- is not negative, makes up for any loss and is reported as the downside.
pub replay_baseline-balances :
    (baseline : Baseline) (months : List MonthlyTotal) (discount_bps : ℤ)
    → let r = replay_baseline baseline months discount_bps in
      (r.simulated_savings_cents ≡ r.total_on_demand_cost_cents -ℤ r.simulated_total_cost_cents)
      × (pos 0 ≤ℤ r.regret_cents)
      × (pos 0 ≤ℤ r.simulated_savings_cents +ℤ r.regret_cents)
      × (r.downside_loss_cents ≡ r.regret_cents)
unfolding replay_baseline replay_months
replay_baseline-balances baseline months discount_bps =
    let (a, b, c) = rows-balance baseline discount_bps months [] months in
    rw (total-eq-sum, total-eq-sum, total-eq-sum, total-eq-sum) (a, b, c, refl)

no_savings_step : (a ss : ℤ) → ss ≡ pos 0 → (a -ℤ a) +ℤ ss ≡ pos 0
no_savings_step a ss h = rw h (omega int_laws)

no_commitment-rows :
    (months : List MonthlyTotal) (discount_bps : ℤ) (prior : List ℤ) (rest : List MonthlyTotal)
    → sum (map savings (replay_from no_commitment discount_bps months prior rest)) ≡ pos 0
unfolding replay_from replay_month commitment_for_baseline simulated_cost
no_commitment-rows months discount_bps prior [] = refl
no_commitment-rows months discount_bps [] (m ∷ rest) =
    no_savings_step m.on_demand_cost_cents _ (no_commitment-rows months discount_bps _ rest)
no_commitment-rows months discount_bps (a ∷ prior) (m ∷ rest) =
    no_savings_step m.on_demand_cost_cents _ (no_commitment-rows months discount_bps _ rest)

-- Nothing is committed, so nothing is saved or lost.
no_commitment-saves_nothing :
    (months : List MonthlyTotal) (discount_bps : ℤ)
    → (replay_baseline no_commitment months discount_bps).simulated_savings_cents ≡ pos 0
unfolding replay_baseline replay_months
no_commitment-saves_nothing months discount_bps =
    total-eq-sum _ ∙ no_commitment-rows months discount_bps [] months

better_lem :
    (x y : ReplayResult)
    → (x.simulated_savings_cents ≤ℤ (better x y).simulated_savings_cents)
      × (y.simulated_savings_cents ≤ℤ (better x y).simulated_savings_cents)
      × ((better x y ≡ x) ⊎ (better x y ≡ y))
unfolding better
better_lem x y = elim (Bool-cases (ltb_ℤ x.simulated_savings_cents y.simulated_savings_cents)) [
  | inl e ↦ rw e (ground arith, omega arith, inr refl)
  | inr e ↦ rw e (omega arith, ground arith, inl refl)
]

-- The best baseline of a backtest is one of the three that it replays, none of them saves more, and
-- it never loses money against buying on demand.
pub best_of-IsBest :
    (months : List MonthlyTotal) (discount_bps : ℤ)
    → let best = best_of months discount_bps in
      let results = baseline_results months discount_bps in
      All (λ (r : ReplayResult). r.simulated_savings_cents ≤ℤ best.simulated_savings_cents) results
      × (pos 0 ≤ℤ best.simulated_savings_cents)
      × ((best ≡ replay_baseline no_commitment months discount_bps)
          ⊎ ((best ≡ replay_baseline last_month_steady_state months discount_bps)
              ⊎ (best ≡ replay_baseline seventy_percent_utilization months discount_bps)))
unfolding best_of best_from baseline_results
best_of-IsBest months discount_bps =
    let none_saved = no_commitment-saves_nothing months discount_bps in
    let a = replay_baseline no_commitment months discount_bps in
    let b = replay_baseline last_month_steady_state months discount_bps in
    let c = replay_baseline seventy_percent_utilization months discount_bps in
    let (a_le, b_le, from_ab) = better_lem a b in
    let (ab_le, c_le, from_c) = better_lem (better a b) c in
    (
      (omega arith, (omega arith, (c_le, tt))),
      ground arith,
      elim from_c [
        | inl e ↦ elim from_ab [ inl f ↦ inl (e ∙ f) | inr f ↦ inr (inl (e ∙ f)) ]
        | inr e ↦ inr (inr e)
      ],
    )

charge : ℕ → ℕ → ℕ
charge c k = (c * k + 5000) / 10000

charge_pos :
    (c d : ℕ)
    → d ≤ 10000
    → quot (pos c *ℤ (pos 10000 -ℤ pos d) +ℤ pos 5000) (pos 10000) ≡ pos (charge c (10000 - d))
unfolding charge
charge_pos c d h =
    let e : pos 10000 -ℤ pos d ≡ pos (10000 - d) = omega int_laws in
    let f : pos (c * (10000 - d)) +ℤ pos 5000 ≡ pos (c * (10000 - d) + 5000) = omega int_laws in
    rw (e, *ℤ_pos, f) (quot_pos _ _)

charge_le : (c k : ℕ) → k ≤ 10000 → charge c k ≤ c
unfolding charge
charge_le c k h = let room : c * k ≤ c * 10000 = grind arith in omega arith

-- What a month costs under a commitment, where the amounts are not negative and the discount is at
-- most 10000 basis points: at least what the commitment leaves uncovered, and at most the larger
-- of the on-demand cost and the commitment.
pub simulated_cost-bounds :
    (on_demand commitment : ℤ) (discount_bps : ℤ)
    → pos 0 ≤ℤ on_demand
    → pos 0 ≤ℤ commitment
    → pos 0 ≤ℤ discount_bps
    → discount_bps ≤ℤ pos 10000
    → let c = simulated_cost on_demand commitment discount_bps in
      (on_demand -ℤ commitment ≤ℤ c)
      × (c ≤ℤ (if ltb_ℤ on_demand commitment then commitment else on_demand))
unfolding simulated_cost
simulated_cost-bounds (negsuc o) c d ho hc hd hm = absurd (omega arith)
simulated_cost-bounds (pos o) (negsuc c) d ho hc hd hm = absurd (omega arith)
simulated_cost-bounds (pos o) (pos c) (negsuc d) ho hc hd hm = absurd (omega arith)
simulated_cost-bounds (pos o) (pos c) (pos d) ho hc hd hm =
    let q = charge_le c (10000 - d) (omega arith) in
    let e = charge_pos c d (omega arith) in
    elim (Bool-cases (eqb_ℤ (pos c) (pos 0))) [
      | inl z ↦ rw z (omega int_laws, grind int_laws)
      | inr z ↦
          rw (z, e)
            (elim (Bool-cases (ltb_ℤ (pos o) (pos c))) [
              | inl l ↦ rw l (grind int_laws, grind int_laws)
              | inr l ↦ rw l (grind int_laws, grind int_laws)
            ])
    ]

discount_of-bounds : (v : ℤ) → (pos 0 ≤ℤ discount_of v) × (discount_of v ≤ℤ pos 10000)
discount_of-bounds v = ground arith

-- The discount that a snapshot gives is always within 0 and 10000 basis points.
backtest_discount_bps-bounds :
    (snapshot : Fields)
    → (pos 0 ≤ℤ backtest_discount_bps snapshot) × (backtest_discount_bps snapshot ≤ℤ pos 10000)
unfolding backtest_discount_bps
backtest_discount_bps-bounds snapshot = discount_of-bounds (configured_discount snapshot)
