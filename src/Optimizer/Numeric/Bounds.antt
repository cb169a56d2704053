-- ===== src/Optimizer/Numeric/Bounds.antt =====
-- Nearest-rank percentiles, and how close rounding division comes to the quotient.
use native.Mathlib.Nat.{div-add-mod', mod-lt}
use cloud_commitment_portfol.Base.{
  ℕ, zero, suc, ◌+◌, ◌*◌, ◌/◌, ◌≤◌, ◌<◌, ◌≡◌, refl, ◌≢◌, List, [], ◌∷◌, length, get_or, count, All,
  arith,
}
use cloud_commitment_portfol.Base.Int.{
  ℤ, pos, negsuc, negsuc-eq-neg, neg-*ℤ_pos, *ℤ_pos, ◌+ℤ◌, ◌*ℤ◌, neg, quot, ◌≤ℤ◌, ltb_ℤ, leb_ℤ,
  int_laws,
}
use cloud_commitment_portfol.Base.Sort.{sort_big_int, Before, IsSorted}
use cloud_commitment_portfol.Optimizer.Numeric.{
  Percentile, p50, p95, percent, percentile_index, percentile, rounded_div,
}

pub percentile_index-lt : (pct : Percentile) (n : ℕ) → 0 < n → percentile_index pct n < n
unfolding percentile_index
percentile_index-lt p50 n k = omega arith
percentile_index-lt p95 n k = omega arith

All-get_or {ℓ κ} :
    {A : Type ℓ} (P : A → Type κ) (vs : List A) (i : ℕ) (d : A)
    → i < length vs
    → All P vs
    → P (get_or vs i d)
All-get_or P [] i d h a = elim h [ ]
All-get_or P (v ∷ vs) zero d h (p, a) = p
All-get_or P (v ∷ vs) (suc i) d h (p, a) = All-get_or P vs i d (omega arith) a

-- What holds of every value holds of a percentile of them.
pub percentile-All {ℓ} :
    (P : ℤ → Type ℓ) (vs : List ℤ) (pct : Percentile) → vs ≢ [] → All P vs → P (percentile vs pct)
unfolding percentile
percentile-All P [] pct ne a = absurd (ne refl)
percentile-All P (v ∷ vs) pct ne a =
    All-get_or P (v ∷ vs) (percentile_index pct (length (v ∷ vs))) (pos 0)
      (percentile_index-lt pct (length (v ∷ vs)) (omega arith)) a

pub le_of_Before : (a b : ℤ) → Before sort_big_int a b → a ≤ℤ b
unfolding sort_big_int
le_of_Before a b h = ground arith

count-below-least :
    (x : ℤ) (vs : List ℤ) → All (Before sort_big_int x) vs → count (λ v. ltb_ℤ v x) vs ≡ 0
count-below-least x [] h = refl
count-below-least x (v ∷ vs) h = ground (arith, le_of_Before x v, count-below-least x vs h.1)

-- In a sorted list more than `i` values are at most the one at `i`, and at most `i` are below it.
rank_of_get_or :
    (vs : List ℤ) (i : ℕ)
    → i < length vs
    → IsSorted sort_big_int vs
    → (i < count (λ v. leb_ℤ v (get_or vs i (pos 0))) vs)
      × (count (λ v. ltb_ℤ v (get_or vs i (pos 0))) vs ≤ i)
rank_of_get_or [] i h s = elim h [ ]
rank_of_get_or (v ∷ vs) zero h s = ground (arith, count-below-least v vs s.0)
rank_of_get_or (v ∷ vs) (suc i) h s =
    let k : i < length vs = omega arith in
    let (low, high) = rank_of_get_or vs i k s.1 in
    let least = le_of_Before v _ (All-get_or (Before sort_big_int v) vs i (pos 0) k s.0) in
    ground arith

index_rank :
    (pct : Percentile) (n c d : ℕ)
    → 0 < n
    → percentile_index pct n < c
    → d ≤ percentile_index pct n
    → (percent pct * n ≤ 100 * c) × (100 * d < percent pct * n)
unfolding percentile_index
index_rank p50 n c d k low high = (omega arith, omega arith)
index_rank p95 n c d k low high = (omega arith, omega arith)

-- The 50th and the 95th percentile of a sorted list that is not empty are its nearest-rank
-- percentiles: at least 50 or 95 per cent of the values are at most the result, and fewer than 50 or
-- 95 per cent are below it.
pub percentile_nearest_rank :
    (vs : List ℤ) (pct : Percentile)
    → vs ≢ []
    → IsSorted sort_big_int vs
    → (percent pct * length vs ≤ 100 * count (λ v. leb_ℤ v (percentile vs pct)) vs)
      × (100 * count (λ v. ltb_ℤ v (percentile vs pct)) vs < percent pct * length vs)
unfolding percentile
percentile_nearest_rank [] pct ne s = absurd (ne refl)
percentile_nearest_rank (v ∷ vs) pct ne s =
    let n : ℕ = length (v ∷ vs) in
    let (low, high) =
      rank_of_get_or (v ∷ vs) (percentile_index pct n) (percentile_index-lt pct n (omega arith))
        s in
    index_rank pct n _ _ (omega arith) low high

pub rounded_div_pos : (n d : ℕ) → 0 < d → rounded_div (pos n) (pos d) ≡ pos ((n + d / 2) / d)
unfolding rounded_div quot ◌+ℤ◌
rounded_div_pos n d h = ground arith

rounded_div_negsuc :
    (n d : ℕ) → 0 < d → rounded_div (negsuc n) (pos d) ≡ neg (pos ((suc n + d / 2) / d))
unfolding rounded_div quot ◌+ℤ◌ neg
rounded_div_negsuc n d h = ground arith

nearest :
    (n d : ℕ)
    → 0 < d
    → ((n + d / 2) / d * d * 2 ≤ n * 2 + d) × (n * 2 ≤ (n + d / 2) / d * d * 2 + d)
nearest n d h =
    let e = div-add-mod' (n + d / 2) d in let r = mod-lt (n + d / 2) h in (omega arith, omega arith)

-- Twice the product with the denominator, of a quotient that is not negative or its opposite.
double_pos : (q d : ℕ) → pos q *ℤ pos d *ℤ pos 2 ≡ pos (q * d * 2)
double_pos q d = rw (*ℤ_pos, *ℤ_pos)

double_neg : (q d : ℕ) → neg (pos q) *ℤ pos d *ℤ pos 2 ≡ neg (pos (q * d * 2))
double_neg q d = rw (neg-*ℤ_pos, neg-*ℤ_pos)

-- `roundedDiv` by a positive denominator is a nearest integer to the exact quotient, for numerators
-- of either sign: twice the error times the denominator is at most the denominator.
pub rounded_div_nearest :
    (n : ℤ) (d : ℕ)
    → 0 < d
    → let q = rounded_div n (pos d) in
      (q *ℤ pos d *ℤ pos 2 ≤ℤ n *ℤ pos 2 +ℤ pos d) × (n *ℤ pos 2 ≤ℤ q *ℤ pos d *ℤ pos 2 +ℤ pos d)
rounded_div_nearest (pos n) d h =
    rw (rounded_div_pos n d h, double_pos, *ℤ_pos)
      (let (a, b) = nearest n d h in (omega int_laws, omega int_laws))
rounded_div_nearest (negsuc n) d h =
    rw (rounded_div_negsuc n d h, double_neg, negsuc-eq-neg n, neg-*ℤ_pos)
      (let (a, b) = nearest (suc n) d h in (omega int_laws, omega int_laws))
