-- ===== src/Base/Text/Decimal.antt =====
-- `BigInt(value.toString())` gives `value` back: a decimal text stands for the integer that it
-- was printed from.
use mathlib.Core.Path.{◌≡◌, refl, ap, ◌∙◌, subst}
use mathlib.Core.Logic.{◌≢◌, inl, inr}
use mathlib.Core.Bool.{false}
use mathlib.Core.Option
use mathlib.Core.Option.{Option, some}
use mathlib.Core.List.{[], ◌∷◌}
use Prim.Native.Nat.{ℕ, zero, suc, ◌+◌, ◌-◌, ◌*◌, ◌/◌, ◌%◌, ◌≤◌, ◌<◌}
use native.Mathlib.Omega.{arith}
use cloud_commitment_portfol.Base.Tests.{ltb, Bool-cases}
use cloud_commitment_portfol.Base.Lists.{All}
use cloud_commitment_portfol.Base.Int.{ℤ, pos, negsuc, sub_ℕ}
use cloud_commitment_portfol.Base.Text.{
  Text, is_space, trim_end, trim, digits_from, nat_to_text, to_text, digit_value, parse_digits,
  parse_number, prefix_base, parse_signed, parse_trimmed, big_int,
}

abbrev pub IsDigit : ℕ → Type 0
IsDigit c = (48 ≤ c) × (c ≤ 57)

digits_from-IsDigit : (f n : ℕ) (acc : Text) → All IsDigit acc → All IsDigit (digits_from f n acc)
unfolding digits_from
digits_from-IsDigit zero n acc h = h
digits_from-IsDigit (suc f) n acc h = elim (Bool-cases (ltb n 10)) [
  | inl e ↦ rw e ((ground arith, ground arith), h)
  | inr e ↦ rw e (digits_from-IsDigit f (n / 10) _ ((omega arith, omega arith), h))
]

digit_value_of_digit : (d : ℕ) → d < 10 → digit_value 10 (48 + d) ≡ some d
unfolding digit_value
digit_value_of_digit d h = ground arith

parse_digits-digit :
    (a d : ℕ) (acc : Text)
    → d < 10
    → parse_digits 10 a ((48 + d) ∷ acc) ≡ parse_digits 10 (a * 10 + d) acc
unfolding parse_digits
parse_digits-digit a d acc h = rw (digit_value_of_digit d h)

-- Reading back the digits of `n` from 0 is reading on from `n`.
parse_digits-digits_from :
    (f n : ℕ) (acc : Text) → n < f → parse_digits 10 0 (digits_from f n acc) ≡ parse_digits 10 n acc
unfolding digits_from
parse_digits-digits_from zero n acc h = absurd (omega arith)
parse_digits-digits_from (suc f) n acc h = elim (Bool-cases (ltb n 10)) [
  | inl e ↦ rw e (
      parse_digits-digit 0 n acc (ground arith)
      ∙ ap (λ k. parse_digits 10 k acc) (let e' : 0 * 10 + n ≡ n = omega arith in e'))
  | inr e ↦ rw e (
      parse_digits-digits_from f (n / 10) _ (ground arith)
      ∙ parse_digits-digit (n / 10) (n % 10) acc (omega arith)
      ∙ ap (λ k. parse_digits 10 k acc) (let e' : n / 10 * 10 + n % 10 ≡ n = omega arith in e'))
]

digits_from-ne-nil : (f n : ℕ) (acc : Text) → n < f → digits_from f n acc ≢ []
unfolding digits_from
digits_from-ne-nil zero n acc h = absurd (omega arith)
digits_from-ne-nil (suc f) n acc h =
    ground (arith, digits_from-ne-nil f (n / 10) ((48 + n % 10) ∷ acc))

parse_number_of_ne_nil : (b : ℕ) (s : Text) → s ≢ [] → parse_number b s ≡ parse_digits b 0 s
unfolding parse_number
parse_number_of_ne_nil b [] h = absurd (h refl)
parse_number_of_ne_nil b (c ∷ s) h = refl

parse_number-nat_to_text : (n : ℕ) → parse_number 10 (nat_to_text n) ≡ some n
unfolding nat_to_text
parse_number-nat_to_text n =
    parse_number_of_ne_nil 10 _ (digits_from-ne-nil (suc n) n [] (omega arith))
    ∙ parse_digits-digits_from (suc n) n [] (omega arith)
    ∙ unfold parse_digits in refl

pub nat_to_text-IsDigit : (n : ℕ) → All IsDigit (nat_to_text n)
unfolding nat_to_text
nat_to_text-IsDigit n = digits_from-IsDigit (suc n) n [] tt

is_space_of_IsDigit : (c : ℕ) → IsDigit c → is_space c ≡ false
unfolding is_space
is_space_of_IsDigit c h = ground arith

trim_end_of_IsDigit : (s : Text) → All IsDigit s → trim_end s ≡ s
unfolding trim_end
trim_end_of_IsDigit [] h = refl
trim_end_of_IsDigit (c ∷ []) (h, _) = rw (is_space_of_IsDigit c h)
trim_end_of_IsDigit (c ∷ d ∷ s) (h, k) = rw (trim_end_of_IsDigit (d ∷ s) k)

trim_of_IsDigit : (s : Text) → All IsDigit s → trim s ≡ s
unfolding trim
trim_of_IsDigit [] h = refl
trim_of_IsDigit (c ∷ s) (h, k) = rw (is_space_of_IsDigit c h) (trim_end_of_IsDigit (c ∷ s) (h, k))

parse_signed_of_IsDigit :
    (c : ℕ) (s : Text) {n : ℕ}
    → IsDigit c
    → parse_number 10 (c ∷ s) ≡ some n
    → parse_signed (c ∷ s) ≡ some (pos n)
unfolding parse_signed
parse_signed_of_IsDigit c s h e = ground arith

prefix_base_of_IsDigit : (z c : ℕ) → IsDigit c → prefix_base z c ≡ 0
unfolding prefix_base
prefix_base_of_IsDigit z c h = ground arith

parse_trimmed_of_IsDigit :
    (s : Text) {n : ℕ} → All IsDigit s → parse_number 10 s ≡ some n → parse_trimmed s ≡ some (pos n)
unfolding parse_trimmed
parse_trimmed_of_IsDigit [] h e = absurd (unfold parse_number in cc)
parse_trimmed_of_IsDigit (z ∷ []) h e = parse_signed_of_IsDigit z [] h.0 e
parse_trimmed_of_IsDigit (z ∷ c ∷ s) h e =
    rw (prefix_base_of_IsDigit z c h.1.0) (parse_signed_of_IsDigit z (c ∷ s) h.0 e)

big_int-nat_to_text : (n : ℕ) → big_int (nat_to_text n) ≡ some (pos n)
unfolding big_int
big_int-nat_to_text n =
    ap parse_trimmed (trim_of_IsDigit _ (nat_to_text-IsDigit n))
    ∙ parse_trimmed_of_IsDigit _ (nat_to_text-IsDigit n) (parse_number-nat_to_text n)

trim-minus : (s : Text) → All IsDigit s → s ≢ [] → trim (b'-' ∷ s) ≡ b'-' ∷ s
unfolding trim is_space
trim-minus [] h e = absurd (e refl)
trim-minus (c ∷ s) h e = rw (trim_end_of_IsDigit (c ∷ s) h)

parse_trimmed-minus :
    (s : Text) {n : ℕ}
    → parse_number 10 s ≡ some n
    → parse_trimmed (b'-' ∷ s) ≡ Option.map (sub_ℕ 0) (some n)
unfolding parse_trimmed parse_signed prefix_base
parse_trimmed-minus [] e = ap (Option.map (sub_ℕ 0)) e
parse_trimmed-minus (c ∷ s) e = ap (Option.map (sub_ℕ 0)) e

-- Printing a `bigint` with `toString` and reading the text with `BigInt` gives it back, for every
-- integer, negative ones included.
pub big_int-to_text : (a : ℤ) → big_int (to_text a) ≡ some a
unfolding to_text big_int
big_int-to_text (pos n) = big_int-nat_to_text n
big_int-to_text (negsuc n) =
    ap parse_trimmed (
      trim-minus (nat_to_text (suc n)) (nat_to_text-IsDigit (suc n))
        (digits_from-ne-nil (suc (suc n)) (suc n) [] (omega arith)))
    ∙ parse_trimmed-minus (nat_to_text (suc n)) (parse_number-nat_to_text (suc n))
    ∙ ground arith

parse_digits_of_IsDigit :
    (acc : ℕ) (s : Text) → All IsDigit s → (n : ℕ) × (parse_digits 10 acc s ≡ some n)
unfolding parse_digits
parse_digits_of_IsDigit acc [] h = (acc, refl)
parse_digits_of_IsDigit acc (c ∷ s) (digit, h) =
    let value : digit_value 10 c ≡ some (c - 48) =
      subst (λ d. digit_value 10 d ≡ some (c - 48)) (let e : 48 + (c - 48) ≡ c = omega arith in e)
        (digit_value_of_digit (c - 48) (omega arith)) in
    rw value (parse_digits_of_IsDigit (acc * 10 + (c - 48)) s h)

-- Digits are a number for `BigInt`, leading zeros included.
pub big_int_of_IsDigit : (s : Text) → All IsDigit s → s ≢ [] → (n : ℕ) × (big_int s ≡ some (pos n))
unfolding big_int
big_int_of_IsDigit s h e =
    let (n, reads) = parse_digits_of_IsDigit 0 s h in
    (
      n,
      ap parse_trimmed (trim_of_IsDigit s h)
          ∙ parse_trimmed_of_IsDigit s h (parse_number_of_ne_nil 10 s e ∙ reads),
    )
