-- ===== src/Forecasting/Averages.antt =====
-- The rounding of the averages.
use cloud_commitment_portfol.Base.{
  ℕ, ◌<◌, ◌≡◌, ◌≢◌, ◌∙◌, refl, true, false, List, [], ◌∷◌, length, All, arith,
}
use cloud_commitment_portfol.Base.Int.{
  ℤ, pos, ◌+ℤ◌, ◌*ℤ◌, ◌≤ℤ◌, leb_ℤ, quot, sum, sum_from, sum_from-eq-sum, int_laws, eqb_ℤ,
}
use cloud_commitment_portfol.Optimizer.Numeric.{rounded_div}
use cloud_commitment_portfol.Optimizer.Numeric.Bounds.{rounded_div_nearest}
use cloud_commitment_portfol.Forecasting.{average_of}

sum-nonneg : (costs : List ℤ) → All (λ c. pos 0 ≤ℤ c) costs → pos 0 ≤ℤ sum costs
sum-nonneg [] h = omega arith
sum-nonneg (c ∷ costs) (p, h) = let r = sum-nonneg costs h in omega int_laws

rounded_div_nonneg :
    (n : ℤ) (d : ℕ)
    → pos 0 ≤ℤ n
    → 0 < d
    → rounded_div n (pos d) ≡ quot (n +ℤ quot (pos d) (pos 2)) (pos d)
unfolding rounded_div
rounded_div_nonneg n d h k =
    let e : eqb_ℤ (pos d) (pos 0) ≡ false = ground arith in
    let f : leb_ℤ (pos 0) n ≡ true = ground arith in rw (e, f) refl

-- The average of costs that are not negative is a nearest integer to their mean: twice its error,
-- times their number, is at most their number.
pub average_of-nearest :
    (costs : List ℤ)
    → costs ≢ []
    → All (λ c. pos 0 ≤ℤ c) costs
    → let n = pos (length costs) in
      (average_of costs *ℤ n *ℤ pos 2 ≤ℤ sum costs *ℤ pos 2 +ℤ n)
      × (sum costs *ℤ pos 2 ≤ℤ average_of costs *ℤ n *ℤ pos 2 +ℤ n)
unfolding average_of
average_of-nearest [] ne h = absurd (ne refl)
average_of-nearest (c ∷ costs) ne h =
    let total : sum_from (pos 0) (c ∷ costs) ≡ sum (c ∷ costs) =
      sum_from-eq-sum (pos 0) (c ∷ costs) ∙ omega int_laws in
    let e =
      rounded_div_nonneg (sum (c ∷ costs)) (length (c ∷ costs)) (sum-nonneg (c ∷ costs) h)
        (omega arith) in
    rw (total, ← e) (rounded_div_nearest (sum (c ∷ costs)) (length (c ∷ costs)) (omega arith))
