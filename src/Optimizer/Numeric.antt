-- ===== src/Optimizer/Numeric.antt =====
-- The helpers at the foot of core/optimizer-runs/optimizer-worker.ts: percentiles, rounding
-- division, means, and percentages as basis points.
pub mod Bounds
pub mod Percent
mod Tests
use cloud_commitment_portfol.Base.{
  ℕ, ◌+◌, ◌-◌, ◌*◌, ◌/◌, ◌≡◌, refl, List, [], ◌∷◌, ◌++◌, Option, none, some, length, get_or, take,
  ltb, if◌then◌else◌, ◌>>=◌,
}
use cloud_commitment_portfol.Base.Int.{
  ℤ, pos, negsuc, ◌+ℤ◌, ◌*ℤ◌, neg, quot, rem, ltb_ℤ, leb_ℤ, eqb_ℤ, sum_from,
}
use cloud_commitment_portfol.Base.Text.{Text, codes, split, pad_start, pad_end, big_int, to_text}

-- The two percentiles that the program takes.
pub data Percentile : Type 0 where
  p50 p95 : Percentile

abbrev pub percent : Percentile → ℕ
percent p50 = 50
percent p95 = 95

-- `Math.ceil((pct / 100) * length) - 1`, at least 0, for the percentages that the calls give. For
-- these two the product in floating point lies at or just below the exact one, and it has the same
-- ceiling; for others it may not, so that they are left out.
unfoldable pub percentile_index : Percentile → ℕ → ℕ
percentile_index pct n = (percent pct * n + 99) / 100 - 1

unfoldable pub percentile : List ℤ → Percentile → ℤ
unfolding percentile_index
percentile [] pct = pos 0
percentile (v ∷ vs) pct = get_or (v ∷ vs) (percentile_index pct (length (v ∷ vs))) (pos 0)

unfoldable pub rounded_div : ℤ → ℤ → ℤ
rounded_div numerator denominator =
    if eqb_ℤ denominator (pos 0)
    then pos 0
    else if leb_ℤ (pos 0) numerator
    then quot (numerator +ℤ quot denominator (pos 2)) denominator
    else neg (quot (neg numerator +ℤ quot denominator (pos 2)) denominator)

unfoldable pub mean_rounded : List ℤ → ℤ
unfolding rounded_div
mean_rounded [] = pos 0
mean_rounded (v ∷ vs) = rounded_div (sum_from (pos 0) (v ∷ vs)) (pos (length (v ∷ vs)))

unfoldable pub min_big_int : ℤ → ℤ → ℤ
min_big_int left right = if ltb_ℤ left right then left else right

min_from : ℤ → List ℤ → ℤ
min_from minimum [] = minimum
min_from minimum (v ∷ vs) = min_from (if ltb_ℤ v minimum then v else minimum) vs

-- `minBigInt(values)` on an array.
unfoldable pub min_of : List ℤ → ℤ
unfolding min_from
min_of [] = pos 0
min_of (v ∷ vs) = min_from v vs

max_from : ℤ → List ℤ → ℤ
max_from maximum [] = maximum
max_from maximum (v ∷ vs) = max_from (if ltb_ℤ maximum v then v else maximum) vs

unfoldable pub max_of : List ℤ → ℤ
unfolding max_from
max_of [] = pos 0
max_of (v ∷ vs) = max_from v vs

percent_parts : List Text → Option ℤ
percent_parts [] = none
percent_parts (whole ∷ []) = do
  w ← big_int whole
  f ← big_int (take 2 (pad_end 2 b'0' []))
  some (w *ℤ pos 100 +ℤ f)
percent_parts (whole ∷ fraction ∷ _) = do
  w ← big_int whole
  f ← big_int (take 2 (pad_end 2 b'0' fraction))
  some (w *ℤ pos 100 +ℤ f)

-- `none` is the SyntaxError of `BigInt`.
unfoldable pub decimal_percent_to_bps : Text → Option ℤ
unfolding percent_parts split pad_end big_int
decimal_percent_to_bps value = percent_parts (split b'.' value)

unfoldable pub format_bps : ℤ → Text
unfolding to_text pad_start
format_bps value =
    to_text (quot value (pos 100)) ++ (b'.' ∷ pad_start 2 b'0' (to_text (rem value (pos 100))))

numeric_tests :
    (percentile (pos 1 ∷ pos 2 ∷ pos 3 ∷ []) p50 ≡ pos 2)
    × (percentile (pos 1 ∷ pos 2 ∷ pos 3 ∷ []) p95 ≡ pos 3)
    × (rounded_div (negsuc 6) (pos 2) ≡ negsuc 3)
    × (decimal_percent_to_bps (codes "12.5") ≡ some (pos 1250))
    × (format_bps (pos 1205) ≡ codes "12.05")
unfolding percentile rounded_div decimal_percent_to_bps format_bps neg quot rem ◌+ℤ◌ ◌*ℤ◌
numeric_tests = (refl, refl, refl, refl, refl)
