-- ===== src/Base/Text.antt =====
-- TypeScript's `string` as the list of its code units, and the operations of the language's
-- library that the program applies to strings: `===`, `trim`, `split`, `padStart`, `padEnd`,
-- `slice(0, n)`, `toString` of a `bigint`, and `BigInt(text)`.
pub mod Decimal
pub mod Order
use Prim.Native.Nat.{ℕ, zero, suc, ◌+◌, ◌-◌, ◌*◌, ◌/◌, ◌%◌}
use Prim.Native.Char.{code}
use Prim.Native.String.{String}
use mathlib.Core.Path.{◌≡◌, refl, ap}
use mathlib.Core.Logic.{◌↔◌}
use mathlib.Core.Bool.{Bool, true, false, ◌&&◌, ◌||◌}
use mathlib.Core.Option
use mathlib.Core.Option.{Option, none, some}
use mathlib.Core.List.{List, [], ◌∷◌, ◌++◌}
use native.Mathlib.Omega.{arith}
use cloud_commitment_portfol.Base.Tests.{ltb, leb, ◌==◌, if◌then◌else◌, ◌>>=◌}
use cloud_commitment_portfol.Base.Lists.{length, replicate}
use cloud_commitment_portfol.Base.Int.{ℤ, pos, negsuc, sub_ℕ}

abbrev pub Text : Type 0
Text = List ℕ

-- A literal of the source.
abbrev pub codes : String → Text
codes String.[] = []
codes (String.◌∷◌ c s) = code c ∷ codes s

unfoldable pub text_eq : Text → Text → Bool
text_eq [] [] = true
text_eq [] (d ∷ t) = false
text_eq (c ∷ s) [] = false
text_eq (c ∷ s) (d ∷ t) = c == d && text_eq s t

pub text_eq_iff : (s t : Text) → (text_eq s t ≡ true) ↔ (s ≡ t)
unfolding text_eq
text_eq_iff [] [] = ground arith
text_eq_iff [] (d ∷ t) = ground arith
text_eq_iff (c ∷ s) [] = ground arith
text_eq_iff (c ∷ s) (d ∷ t) = ground (arith, text_eq_iff s t)

-- The order of code units, as `compareTo` of the comparators: negative, zero or positive.
unfoldable pub compare_text : Text → Text → ℤ
compare_text [] [] = pos 0
compare_text [] (d ∷ t) = negsuc 0
compare_text (c ∷ s) [] = pos 1
compare_text (c ∷ s) (d ∷ t) =
    if ltb c d then negsuc 0 else if ltb d c then pos 1 else compare_text s t

-- A white space or a line terminator of ECMAScript.
unfoldable pub is_space : ℕ → Bool
is_space c =
    (leb 9 c && leb c 13)
    || c == 32
    || c == 0xa0
    || c == 0x1680
    || (leb 0x2000 c && leb c 0x200a)
    || c == 0x2028
    || c == 0x2029
    || c == 0x202f
    || c == 0x205f
    || c == 0x3000
    || c == 0xfeff

unfoldable pub trim_start : Text → Text
trim_start [] = []
trim_start (c ∷ s) = if is_space c then trim_start s else c ∷ s

trim_end_cons : ℕ → Text → Text
trim_end_cons c [] = if is_space c then [] else c ∷ []
trim_end_cons c (d ∷ s) = c ∷ d ∷ s

unfoldable pub trim_end : Text → Text
unfolding trim_end_cons
trim_end [] = []
trim_end (c ∷ s) = trim_end_cons c (trim_end s)

unfoldable pub trim : Text → Text
unfolding trim_start trim_end
trim s = trim_end (trim_start s)

-- `text.split(c)` for one code unit `c`.
split_cons : ℕ → List Text → List Text
split_cons c [] = (c ∷ []) ∷ []
split_cons c (piece ∷ pieces) = (c ∷ piece) ∷ pieces

unfoldable pub split : ℕ → Text → List Text
unfolding split_cons
split sep [] = [] ∷ []
split sep (c ∷ s) = let rest = split sep s in if c == sep then [] ∷ rest else split_cons c rest

unfoldable pub pad_start : ℕ → ℕ → Text → Text
pad_start n c s = replicate (n - length s) c ++ s

unfoldable pub pad_end : ℕ → ℕ → Text → Text
pad_end n c s = s ++ replicate (n - length s) c

-- The digits of `n` in front of `acc`; the fuel is more than `n`.
unfoldable pub digits_from : ℕ → ℕ → Text → Text
digits_from zero n acc = acc
digits_from (suc fuel) n acc =
    let rest = digits_from fuel (n / 10) ((b'0' + n % 10) ∷ acc) in
    if ltb n 10 then (b'0' + n) ∷ acc else rest

unfoldable pub nat_to_text : ℕ → Text
unfolding digits_from
nat_to_text n = digits_from (suc n) n []

-- `value.toString()` of a `bigint`.
unfoldable pub to_text : ℤ → Text
unfolding nat_to_text
to_text (pos n) = nat_to_text n
to_text (negsuc n) = b'-' ∷ nat_to_text (suc n)

unfoldable pub digit_value : ℕ → ℕ → Option ℕ
digit_value base c =
    let d =
      if leb b'0' c && leb c b'9'
      then c - b'0'
      else if leb b'a' c && leb c b'f'
      then c - b'a' + 10
      else if leb b'A' c && leb c b'F'
      then c - b'A' + 10
      else base in
    if ltb d base then some d else none

unfoldable pub parse_digits : ℕ → ℕ → Text → Option ℕ
unfolding digit_value
parse_digits base acc [] = some acc
parse_digits base acc (c ∷ s) = digit_value base c >>= λ d. parse_digits base (acc * base + d) s

unfoldable pub parse_number : ℕ → Text → Option ℕ
unfolding parse_digits
parse_number base [] = none
parse_number base (c ∷ s) = parse_digits base 0 (c ∷ s)

-- The base that a prefix `0b`, `0o` or `0x` names; 0 if there is none.
unfoldable pub prefix_base : ℕ → ℕ → ℕ
prefix_base z c =
    if z == b'0'
    then if c == b'x' || c == b'X'
      then 16
      else if c == b'o' || c == b'O'
      then 8
      else if c == b'b' || c == b'B'
      then 2
      else 0
    else 0

parse_signed : Text → Option ℤ
parse_signed [] = some (pos 0)
parse_signed (c ∷ s) =
    if c == b'-'
    then Option.map (sub_ℕ 0) (parse_number 10 s)
    else if c == b'+'
    then Option.map pos (parse_number 10 s)
    else Option.map pos (parse_number 10 (c ∷ s))

parse_trimmed : Text → Option ℤ
parse_trimmed [] = parse_signed []
parse_trimmed (z ∷ []) = parse_signed (z ∷ [])
parse_trimmed (z ∷ c ∷ s) =
    if prefix_base z c == 0
    then parse_signed (z ∷ c ∷ s)
    else Option.map pos (parse_number (prefix_base z c) s)

-- `BigInt(text)`; `none` is its SyntaxError.
unfoldable pub big_int : Text → Option ℤ
unfolding parse_trimmed parse_signed parse_number prefix_base trim is_space
big_int s = parse_trimmed (trim s)

big_int_tests :
    (big_int (codes " -42\n") ≡ some (negsuc 41))
    × (big_int (codes "0x1F") ≡ some (pos 31))
    × (big_int [] ≡ some (pos 0))
    × (big_int (codes "1_0") ≡ none)
    × (big_int (codes "-") ≡ none)
    × (to_text (negsuc 1204) ≡ codes "-1205")
unfolding big_int to_text
big_int_tests = (refl, refl, refl, refl, refl, refl)
