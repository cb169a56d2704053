-- ===== src/Optimizer/Numeric/Tests.antt =====
-- The theorems on the numeric helpers at concrete values.
use cloud_commitment_portfol.Base.{◌*◌, ◌≤◌, ◌<◌, ◌≡◌, some, List, [], ◌∷◌, length, count, arith}
use cloud_commitment_portfol.Base.Int.{ℤ, pos, negsuc, ◌*ℤ◌, ◌+ℤ◌, ◌≤ℤ◌, leb_ℤ, ltb_ℤ}
use cloud_commitment_portfol.Base.Sort.{sort_big_int, IsSorted}
use cloud_commitment_portfol.Optimizer.Numeric.{
  p95, percentile, rounded_div, decimal_percent_to_bps, format_bps,
}
use cloud_commitment_portfol.Optimizer.Numeric.Bounds.{percentile_nearest_rank, rounded_div_nearest}
use cloud_commitment_portfol.Optimizer.Numeric.Percent.{decimal_percent_to_bps-format_bps}

abbrev costs : List ℤ
costs = negsuc 4 ∷ pos 3 ∷ pos 3 ∷ pos 8 ∷ []

costs-IsSorted : IsSorted sort_big_int costs
unfolding sort_big_int
costs-IsSorted = omega arith

percentile_nearest_rank_example :
    (95 * length costs ≤ 100 * count (λ v. leb_ℤ v (percentile costs p95)) costs)
    × (100 * count (λ v. ltb_ℤ v (percentile costs p95)) costs < 95 * length costs)
percentile_nearest_rank_example = percentile_nearest_rank costs p95 (λ e. cc) costs-IsSorted

rounded_div_nearest_example :
    let q = rounded_div (negsuc 6) (pos 2) in
    (q *ℤ pos 2 *ℤ pos 2 ≤ℤ negsuc 6 *ℤ pos 2 +ℤ pos 2)
    × (negsuc 6 *ℤ pos 2 ≤ℤ q *ℤ pos 2 *ℤ pos 2 +ℤ pos 2)
rounded_div_nearest_example = rounded_div_nearest (negsuc 6) 2 (omega arith)

format_bps_example : decimal_percent_to_bps (format_bps (pos 1205)) ≡ some (pos 1205)
format_bps_example = decimal_percent_to_bps-format_bps (pos 1205) (omega arith)
