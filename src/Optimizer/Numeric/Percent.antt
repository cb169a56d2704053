-- ===== src/Optimizer/Numeric/Percent.antt =====
-- `decimalPercentToBps` reads back what `formatBps` prints.
use cloud_commitment_portfol.Base.{
  ℕ, zero, suc, ◌/◌, ◌%◌, ◌<◌, ◌≡◌, refl, ap, Option, none, some, [], ◌∷◌, ◌++◌, Bool, true, false,
  ◌&&◌, All, all, take, leb, arith, ◌==◌,
}
use cloud_commitment_portfol.Base.Int.{ℤ, pos, negsuc, quot, rem, ◌≤ℤ◌, *ℤ_pos, int_laws}
use cloud_commitment_portfol.Base.Text.{Text, split, pad_start, pad_end, to_text, big_int}
use cloud_commitment_portfol.Base.Text.Decimal.{IsDigit, nat_to_text-IsDigit, big_int-to_text}
use cloud_commitment_portfol.Optimizer.Numeric.{decimal_percent_to_bps, format_bps}

split-digits : (s : Text) → All IsDigit s → split b'.' s ≡ s ∷ []
unfolding split
split-digits [] h = refl
split-digits (c ∷ s) (h, k) = rw (split-digits s k) (ground arith)

split-append :
    (s t : Text) → All IsDigit s → All IsDigit t → split b'.' (s ++ (b'.' ∷ t)) ≡ s ∷ t ∷ []
unfolding split
split-append [] t h k = rw (split-digits t k) refl
split-append (c ∷ s) t (h, j) k = rw (split-append s t j k) (ground arith)

-- The two digits of `n % 100n`.
abbrev fraction : ℕ → Text
fraction m = pad_start 2 b'0' (to_text (pos m))

abbrev reads : Option ℤ → ℕ → Bool
reads none m = false
reads (some (pos k)) m = k == m
reads (some (negsuc k)) m = false

reads-eq : (o : Option ℤ) (m : ℕ) → reads o m ≡ true → o ≡ some (pos m)
reads-eq none m h = cc
reads-eq (some (pos k)) m h = ground arith
reads-eq (some (negsuc k)) m h = cc

is_digit : ℕ → Bool
is_digit c = leb 48 c && leb c 57

All-all : (s : Text) → all is_digit s ≡ true → All IsDigit s
unfolding is_digit
All-all [] h = tt
All-all (c ∷ s) h = ground (arith, All-all s)

-- Over a small range, every value is checked by evaluation.
fraction_reads : ℕ → Bool
unfolding is_digit
fraction_reads m =
    reads (big_int (take 2 (pad_end 2 b'0' (fraction m)))) m && all is_digit (fraction m)

-- Whether a test passes for every remainder under a limit.
passes_under : (ℕ → Bool) → ℕ → Bool
passes_under test zero = true
passes_under test (suc limit) = passes_under test limit && test limit

passes_at_lem :
    (test : ℕ → Bool) (limit k : ℕ) → k < limit → passes_under test limit ≡ true → test k ≡ true
unfolding passes_under
passes_at_lem test zero k under passed = absurd (omega arith)
passes_at_lem test (suc limit) k under passed = ground (arith, passes_at_lem test limit k)

fractions_read : passes_under fraction_reads 100 ≡ true
unfolding passes_under fraction_reads big_int pad_start pad_end to_text
fractions_read = refl

fraction_reads_lem :
    (m : ℕ)
    → m < 100
    → (big_int (take 2 (pad_end 2 b'0' (fraction m))) ≡ some (pos m)) × All IsDigit (fraction m)
unfolding fraction_reads
fraction_reads_lem m h =
    let e = passes_at_lem fraction_reads 100 m h fractions_read in
    (reads-eq _ m (ground arith), All-all (fraction m) (ground arith))

-- Printing a number of basis points that is not negative and reading the text gives it back.
pub decimal_percent_to_bps-format_bps :
    (v : ℤ) → pos 0 ≤ℤ v → decimal_percent_to_bps (format_bps v) ≡ some v
unfolding decimal_percent_to_bps format_bps quot rem
decimal_percent_to_bps-format_bps (negsuc n) h = absurd (omega arith)
decimal_percent_to_bps-format_bps (pos n) h =
    let (read, digits) = fraction_reads_lem (n % 100) (omega arith) in
    rw
      (split-append (to_text (pos (n / 100))) (fraction (n % 100)) (to_text_digits (n / 100))
        digits)
      (rw (big_int-to_text (pos (n / 100)), read) (ap some (rw *ℤ_pos (omega int_laws))))
  where
    to_text_digits : (k : ℕ) → All IsDigit (to_text (pos k))
    to_text_digits k = unfold to_text in nat_to_text-IsDigit k
