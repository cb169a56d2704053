-- ===== src/Optimizer/Evaluate/Kernel.antt =====
-- What `evaluateItem` guarantees of a candidate: feasible exactly within the policy's limits,
-- amounts that are not negative, a risk band that fits, and utilizations between 0 and 100 %.
use cloud_commitment_portfol.Base.{
  Bool-cases, false, ◌⊎◌, inl, inr, ◌≡◌, refl, sym, ◌≢◌, ◌↔◌, true, Option, some, List, [], ◌∷◌,
  map, All, All-append, arith, >>=-eq-some, some_inj, bind_three, ◌>>◌,
}
use cloud_commitment_portfol.Base.Int.{ℤ, pos, ◌-ℤ◌, ◌≤ℤ◌, neg}
use cloud_commitment_portfol.Base.Sort.{sort, sort_big_int, All-sort}
use cloud_commitment_portfol.Base.Json.{Fields}
use cloud_commitment_portfol.Optimizer.Numeric.{Percentile, p95, percentile}
use cloud_commitment_portfol.Optimizer.Numeric.Bounds.{percentile-All}
use cloud_commitment_portfol.Optimizer.Types.{
  Provider, Instrument, aws_compute_savings_plan, aws_reserved_instance, azure_savings_plan,
  azure_reservation, gcp_committed_use_discount, high, WorkerRun, PriceItem, ForecastPoint,
  Candidate, PolicySnapshot,
}
use cloud_commitment_portfol.Optimizer.Policy.{policy_snapshot}
use cloud_commitment_portfol.Optimizer.Evaluate.{
  is_empty, binding_constraints, risk_band, loss_of, Economics, economics, candidate_of, evaluated,
  evaluate_item, flat_map_throws, require_instrument, optimizer_for, optimize_commitment_instrument,
  optimize_commitment_run, compare_candidates, item_economics, optimize_aws_compute_savings_plan,
  optimize_aws_reserved_instance, optimize_azure_savings_plan, optimize_azure_reservation,
  optimize_gcp_committed_use_discount,
}

pub percentile-nonneg :
    (vs : List ℤ) (pct : Percentile) → All (λ v. pos 0 ≤ℤ v) vs → pos 0 ≤ℤ percentile vs pct
percentile-nonneg [] pct a = unfold percentile in omega arith
percentile-nonneg (v ∷ vs) pct a = percentile-All (λ x. pos 0 ≤ℤ x) (v ∷ vs) pct (λ e. cc) a

map-loss_of-nonneg : (vs : List ℤ) → All (λ v. pos 0 ≤ℤ v) (map loss_of vs)
map-loss_of-nonneg [] = tt
map-loss_of-nonneg (v ∷ vs) = (unfold loss_of neg in ground arith, map-loss_of-nonneg vs)

-- The downside is never negative, whatever the costs.
pub p95_downside-nonneg :
    (costs : List ℤ) (monthly upfront penalty : ℤ)
    → pos 0 ≤ℤ (economics costs monthly upfront penalty).p95_downside
unfolding economics
p95_downside-nonneg costs monthly upfront penalty =
    percentile-nonneg _ p95 (All-sort sort_big_int (λ v. pos 0 ≤ℤ v) _ (map-loss_of-nonneg _))

-- What holds of every candidate that a run produces.
pub record IsSound (run : WorkerRun) (policy : PolicySnapshot) (c : Candidate) : Type 0 where
  pub same_provider : c.provider ≡ run.provider
  pub same_instrument : c.instrument ≡ run.instrument
  pub savings_nonneg : pos 0 ≤ℤ c.expected_savings_cents
  pub downside_nonneg : pos 0 ≤ℤ c.p95_downside_loss_cents
  pub within_limits :
      (c.feasible ≡ false)
      ⊎ ((c.p95_downside_loss_cents ≤ℤ policy.max_downside_loss_cents)
          × (policy.min_expected_savings_cents ≤ℤ c.expected_savings_cents)
          × (c.risk_band ≢ high))
  pub explained : (c.feasible ≡ true) ↔ (c.binding_constraints ≡ [])

is_empty_iff {ℓ} : {A : Type ℓ} (xs : List A) → (is_empty xs ≡ true) ↔ (xs ≡ [])
is_empty_iff [] = (λ _. refl, λ _. refl)
is_empty_iff (x ∷ xs) = (λ e. cc, λ e. cc)

-- No constraint binds exactly if the downside, the savings and the utilization gap are all within
-- the limits of the policy.
pub binding_constraints_iff :
    (policy : PolicySnapshot) (expected downside gap : ℤ)
    → (binding_constraints policy expected downside gap ≡ []) ↔ (
        (downside ≤ℤ policy.max_downside_loss_cents)
        × (policy.min_expected_savings_cents ≤ℤ expected)
        × (gap ≤ℤ policy.max_utilization_gap_bps))
unfolding binding_constraints
binding_constraints_iff policy expected downside gap = ground arith

-- The candidate is feasible exactly within the limits of the policy.
pub candidate_of-feasible_iff :
    (run : WorkerRun) (policy : PolicySnapshot) (point : ForecastPoint) (item : PriceItem)
    (e : Economics)
    → ((candidate_of run policy point item e).feasible ≡ true) ↔ (
        (e.p95_downside ≤ℤ policy.max_downside_loss_cents)
        × (policy.min_expected_savings_cents ≤ℤ e.expected)
        × (pos 10000 -ℤ e.utilization_p50 ≤ℤ policy.max_utilization_gap_bps))
unfolding candidate_of
candidate_of-feasible_iff run policy point item e =
    let (a, b) =
      binding_constraints_iff policy e.expected e.p95_downside (pos 10000 -ℤ e.utilization_p50) in
    let (c, d) =
      is_empty_iff
        (binding_constraints policy e.expected e.p95_downside (pos 10000 -ℤ e.utilization_p50)) in
    (λ h. a (c h), λ h. d (b h))

candidate_of-IsSound :
    (run : WorkerRun) (policy : PolicySnapshot) (point : ForecastPoint) (item : PriceItem)
    (e : Economics)
    → pos 0 ≤ℤ e.p95_downside
    → IsSound run policy (candidate_of run policy point item e)
unfolding candidate_of
candidate_of-IsSound run policy point item e h =
    let iff = candidate_of-feasible_iff run policy point item e in
    record {
      same_provider = refl;
      same_instrument = refl;
      savings_nonneg = ground arith;
      downside_nonneg = h;
      within_limits = elim (Bool-cases (candidate_of run policy point item e).feasible) [
        | inl f ↦ let (a, b, _) = iff.0 f in inr (a, ground arith, unfold risk_band in ground arith)
        | inr f ↦ inl f
      ];
      explained = is_empty_iff _;
    }

evaluated-IsSound :
    (run : WorkerRun) (policy : PolicySnapshot) (point : ForecastPoint) (item : PriceItem)
    (costs : List ℤ) (hourly upfront : ℤ)
    → All (IsSound run policy) (evaluated run policy point item costs hourly upfront)
unfolding evaluated item_economics
evaluated-IsSound run policy point item costs hourly upfront =
    let e = item_economics policy item costs hourly upfront in
    (candidate_of-IsSound run policy point item e (p95_downside-nonneg _ _ _ _), tt)

evaluate_item-IsSound :
    (run : WorkerRun) (policy : PolicySnapshot) (points : List ForecastPoint) (item : PriceItem)
    (cs : List Candidate)
    → evaluate_item run policy points item ≡ some cs
    → All (IsSound run policy) cs
unfolding evaluate_item
evaluate_item-IsSound run policy [] item cs h = rw (← some_inj h) tt
evaluate_item-IsSound run policy (point ∷ points) item cs h =
    let (costs, hourly, upfront, e) = bind_three _ _ _ (evaluated run policy point item) h in
    rw (← e) (evaluated-IsSound run policy point item costs hourly upfront)

flat_map_throws-All {ℓ κ μ} :
    {A : Type ℓ} {B : Type κ} (P : B → Type μ) (f : A → Option (List B))
    → ((x : A) (ys : List B) → f x ≡ some ys → All P ys)
    → (xs : List A) (zs : List B) → flat_map_throws f xs ≡ some zs
    → All P zs
unfolding flat_map_throws
flat_map_throws-All P f each [] zs h = rw (← some_inj h) tt
flat_map_throws-All P f each (x ∷ xs) zs h =
    let (ys, e, h') = >>=-eq-some (f x) _ h in
    let (ws, e', h'') = >>=-eq-some (flat_map_throws f xs) _ h' in
    rw (← some_inj h'') (All-append P ys ws (each x ys e) (flat_map_throws-All P f each xs ws e'))

require-bind :
    {A : Type 0} (run : WorkerRun) (p : Provider) (i : Instrument) (m : Option A) {a : A}
    → (require_instrument run p i >> m) ≡ some a
    → m ≡ some a
require-bind run p i m h = (>>=-eq-some (require_instrument run p i) (λ _. m) h).2

-- Whatever the instrument, a run that returns has gone through the common optimizer.
optimizer_for_lem :
    (i : Instrument) (run : WorkerRun) (snapshot forecast : Fields) (price_items : List PriceItem)
    (cs : List Candidate)
    → optimizer_for i run snapshot forecast price_items ≡ some cs
    → optimize_commitment_instrument run snapshot forecast price_items ≡ some cs
unfolding optimizer_for optimize_aws_compute_savings_plan optimize_aws_reserved_instance
    optimize_azure_savings_plan optimize_azure_reservation optimize_gcp_committed_use_discount
optimizer_for_lem aws_compute_savings_plan run s f ps cs h = require-bind run _ _ _ h
optimizer_for_lem aws_reserved_instance run s f ps cs h = require-bind run _ _ _ h
optimizer_for_lem azure_savings_plan run s f ps cs h = require-bind run _ _ _ h
optimizer_for_lem azure_reservation run s f ps cs h = require-bind run _ _ _ h
optimizer_for_lem gcp_committed_use_discount run s f ps cs h = require-bind run _ _ _ h

pub optimize_commitment_run_lem :
    (run : WorkerRun) (snapshot forecast : Fields) (price_items : List PriceItem)
    (cs : List Candidate)
    → optimize_commitment_run run snapshot forecast price_items ≡ some cs
    → (policy : PolicySnapshot) × (unsorted : List Candidate) × (policy_snapshot snapshot
        ≡ some policy)
      × All (IsSound run policy) unsorted
      × (cs ≡ sort compare_candidates unsorted)
unfolding optimize_commitment_run optimize_commitment_instrument
optimize_commitment_run_lem run snapshot forecast price_items cs h =
    let h' = optimizer_for_lem run.instrument run snapshot forecast price_items cs h in
    let (policy, e, h₁) = >>=-eq-some (policy_snapshot snapshot) _ h' in
    let (unsorted, e', h₂) = >>=-eq-some (flat_map_throws _ price_items) _ h₁ in
    (
      policy,
      unsorted,
      e,
      flat_map_throws-All (IsSound run policy) _
          (λ item ys k. evaluate_item-IsSound run policy _ item ys k) price_items unsorted e',
      sym (some_inj h₂),
    )

-- Every candidate of a run is sound: it has the run's provider and instrument, its expected savings
-- and downside loss are not negative, and if it is feasible it keeps within the downside limit of the policy, saves what the
-- policy asks for, is not in the high risk band and has no binding constraint.
pub optimize_commitment_run-IsSound :
    (run : WorkerRun) (snapshot forecast : Fields) (price_items : List PriceItem)
    (cs : List Candidate)
    → optimize_commitment_run run snapshot forecast price_items ≡ some cs
    → (policy : PolicySnapshot) × (policy_snapshot snapshot ≡ some policy)
      × All (IsSound run policy) cs
optimize_commitment_run-IsSound run snapshot forecast price_items cs h =
    let (policy, unsorted, e, sound, sorted) =
      optimize_commitment_run_lem run snapshot forecast price_items cs h in
    (policy, e, rw sorted (All-sort compare_candidates (IsSound run policy) unsorted sound))
