-- ===== src/Imports/AwsCur/Money.antt =====
-- The amounts of an AWS report, which have up to ten decimals of a dollar, in whole cents.
use cloud_commitment_portfol.Base.{
  ℕ, zero, suc, ◌+◌, ◌*◌, ◌/◌, ◌-◌, ◌≤◌, ◌<◌, ◌≡◌, ◌≢◌, ◌∙◌, refl, sym, ap, subst, true, ◌&&◌,
  Option, some, List, [], ◌∷◌, all, All, All-append, replicate, length, leb, if_cases, >>=-eq-some,
  some_inj, arith,
}
use cloud_commitment_portfol.Base.Int.{pos, quot, ◌+ℤ◌, ◌*ℤ◌, *ℤ_pos, +ℤ_pos}
use cloud_commitment_portfol.Base.Text.{Text, trim, split, pad_end, big_int, to_text}
use cloud_commitment_portfol.Base.Text.Decimal.{IsDigit, big_int_of_IsDigit, big_int-to_text}
use cloud_commitment_portfol.Imports.Cells.{is_digit, is_unsigned}
use cloud_commitment_portfol.Imports.Valid.{is_unsigned-IsDigit, all-IsDigit}
use cloud_commitment_portfol.Imports.AwsCur.{
  money_pieces, cents_of_scaled, cents_of_pieces, money_cents,
}

-- The cents nearest to an amount of `scaled` ten-billionths of a dollar, a half cent going up.
pub record IsNearest (scaled cents : ℕ) : Type 0 where
  pub not_above : cents * 10000000000 ≤ scaled * 100 + 5000000000
  pub not_below : scaled * 100 + 5000000000 < (cents + 1) * 10000000000

cents_of_scaled-IsNearest :
    (scaled : ℕ) → (n : ℕ) × (cents_of_scaled (pos scaled) ≡ pos n) × IsNearest scaled n
unfolding cents_of_scaled quot
cents_of_scaled-IsNearest scaled = (
  (scaled * 100 + 5000000000) / 10000000000,
  rw (*ℤ_pos scaled 100, +ℤ_pos (scaled * 100) 5000000000) refl,
  record { not_above = omega arith; not_below = omega arith },
)

-- What `moneyCents` reads and writes: the whole and the fraction of the amount, up to ten digits of
-- it, and the cents.
pub record Money (value cents_text : Text) : Type 0 where
  pub whole_text : Text
  pub fraction_text : Text
  pub pieces : money_pieces (split b'.' (trim value)) ≡ some (whole_text, fraction_text)
  pub whole : ℕ
  pub reads_whole : big_int whole_text ≡ some (pos whole)
  pub fraction : ℕ
  pub reads_fraction : big_int (pad_end 10 b'0' fraction_text) ≡ some (pos fraction)
  pub cents : ℕ
  pub reads_cents : big_int cents_text ≡ some (pos cents)
  pub nearest : IsNearest (whole * 10000000000 + fraction) cents

replicate-IsDigit : (n : ℕ) → All IsDigit (replicate n b'0')
replicate-IsDigit zero = tt
replicate-IsDigit (suc n) = ((omega arith, omega arith), replicate-IsDigit n)

-- The digits of an accepted amount.
record Digits (whole fraction : Text) : Type 0 where
  whole_digits : All IsDigit whole
  any_digit : whole ≢ []
  fraction_digits : All IsDigit fraction

unsigned-Digits :
    (w f whole fraction : Text)
    → is_unsigned 17 w ≡ true
    → All IsDigit f
    → ◌≡◌ {A = Text × Text} (w, f) (whole, fraction)
    → Digits whole fraction
unsigned-Digits w f whole fraction e fraction_digits same =
    let (whole_digits, any_digit) = is_unsigned-IsDigit 17 w e in
    subst (λ (p : Text × Text). Digits p.0 p.1) same
      record {
        whole_digits = whole_digits;
        any_digit = any_digit;
        fraction_digits = fraction_digits;
      }

money_pieces-Digits :
    (pieces : List Text) (whole fraction : Text)
    → money_pieces pieces ≡ some (whole, fraction)
    → Digits whole fraction
unfolding money_pieces
money_pieces-Digits [] whole fraction = λ h. absurd (cc)
money_pieces-Digits (w ∷ []) whole fraction =
    if_cases (λ (o : Option (Text × Text)). o ≡ some (whole, fraction) → Digits whole fraction)
      (is_unsigned 17 w) (λ e h. unsigned-Digits w [] whole fraction e tt (some_inj h))
      (λ e h. absurd (cc))
money_pieces-Digits (w ∷ f ∷ []) whole fraction =
    if_cases (λ (o : Option (Text × Text)). o ≡ some (whole, fraction) → Digits whole fraction)
      (is_unsigned 17 w && all is_digit f && leb 1 (length f) && leb (length f) 10)
      (λ e h.
        unsigned-Digits w f whole fraction (ground arith) (all-IsDigit f (ground arith))
          (some_inj h))
      (λ e h. absurd (cc))
money_pieces-Digits (w ∷ f ∷ more ∷ pieces) whole fraction = λ h. absurd (cc)

pad_end-ne_nil : (f : Text) → pad_end 10 b'0' f ≢ []
unfolding pad_end
pad_end-ne_nil [] = λ p. cc
pad_end-ne_nil (c ∷ f) = λ p. cc

pad_end-IsDigit : (f : Text) → All IsDigit f → All IsDigit (pad_end 10 b'0' f)
unfolding pad_end
pad_end-IsDigit f h = All-append IsDigit f _ h (replicate-IsDigit (10 - length f))

-- The cents of an accepted amount are the cents nearest to the amount as it is written, with up to
-- ten decimals, a half cent going up; and they are read back as a number.
pub money_cents-Money :
    (value cents_text : Text) → money_cents value ≡ some cents_text → Money value cents_text
unfolding money_cents
money_cents-Money value cents_text h =
    let ((whole, fraction), pieces, h1) =
      >>=-eq-some (money_pieces (split b'.' (trim value))) cents_of_pieces h in
    let digits = money_pieces-Digits (split b'.' (trim value)) whole fraction pieces in
    let (w, reads_w) = big_int_of_IsDigit whole digits.whole_digits digits.any_digit in
    let (f, reads_f) =
      big_int_of_IsDigit (pad_end 10 b'0' fraction)
        (pad_end-IsDigit fraction digits.fraction_digits) (pad_end-ne_nil fraction) in
    let (n, rounds, nearest) = cents_of_scaled-IsNearest (w * 10000000000 + f) in
    let scaled : pos w *ℤ pos 10000000000 +ℤ pos f ≡ pos (w * 10000000000 + f) =
      rw (*ℤ_pos w 10000000000) (+ℤ_pos (w * 10000000000) f) in
    let written : to_text (pos n) ≡ cents_text =
      ap to_text (sym rounds ∙ ap cents_of_scaled (sym scaled))
      ∙ some_inj (rw (reads_w, reads_f) at h1) in
    record {
      whole_text = whole;
      fraction_text = fraction;
      pieces = pieces;
      whole = w;
      reads_whole = reads_w;
      fraction = f;
      reads_fraction = reads_f;
      cents = n;
      reads_cents = ap big_int (sym written) ∙ big_int-to_text (pos n);
      nearest = nearest;
    }
