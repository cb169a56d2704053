-- ===== src/Imports/Cells.antt =====
-- The readers of single fields, which core/imports/canonical-usage-parser.ts,
-- synthetic-csv-parser.ts and aws-cur-csv-parser.ts each declare. `none` is a throw.
use cloud_commitment_portfol.Base.{
  ℕ, ◌+◌, Bool, true, false, ◌&&◌, ◌||◌, ◌==◌, Option, none, some, List, [], ◌∷◌, all, any, length,
  leb, if◌then◌else◌, ◌>>=◌,
}
use cloud_commitment_portfol.Base.Int.{ℤ, pos, ◌+ℤ◌, ◌*ℤ◌, leb_ℤ}
use cloud_commitment_portfol.Base.Text.{Text, codes, trim, split, big_int}
use cloud_commitment_portfol.Base.Json.{Json, Fields, null, bool, int, frac, str, arr, obj}
use cloud_commitment_portfol.Imports.{Platform}

abbrev pub is_digit : ℕ → Bool
is_digit c = leb b'0' c && leb c b'9'

-- `0|[1-9][0-9]{0,extra}`.
unfoldable pub is_unsigned : ℕ → Text → Bool
is_unsigned extra [] = false
is_unsigned extra (c ∷ s) =
    (c == b'0' && length s == 0)
    || (leb b'1' c && leb c b'9' && all is_digit s && leb (length s) extra)

-- `DECIMAL_8_PATTERN`, on the pieces between full stops.
abbrev pub is_decimal_8_pieces : List Text → Bool
is_decimal_8_pieces [] = false
is_decimal_8_pieces (whole ∷ []) = false
is_decimal_8_pieces (whole ∷ fraction ∷ []) =
    is_unsigned 19 whole && all is_digit fraction && length fraction == 8
is_decimal_8_pieces (whole ∷ fraction ∷ more ∷ pieces) = false

unfoldable pub is_decimal_8 : Text → Bool
unfolding is_unsigned split
is_decimal_8 s = is_decimal_8_pieces (split b'.' s)

-- `UNSIGNED_INTEGER_PATTERN`.
unfoldable pub is_unsigned_integer : Text → Bool
unfolding is_unsigned
is_unsigned_integer s = is_unsigned 18 s

-- `decimal`.
unfoldable pub decimal : Text → Option Text
unfolding is_decimal_8
decimal value = if is_decimal_8 (trim value) then some (trim value) else none

-- `integer`.
unfoldable pub integer : Text → Option Text
unfolding is_unsigned_integer
integer value = if is_unsigned_integer (trim value) then some (trim value) else none

-- `hasControlCharacter`; a code point above the code units is none.
unfoldable pub has_control_character : Text → Bool
has_control_character value = any (λ c. leb c 0x1f || (leb 0x7f c && leb c 0x9f)) value

abbrev pub is_empty : Text → Bool
is_empty [] = true
is_empty (c ∷ s) = false

-- A letter in any case, as the flags `iu` compare it: two letters outside ASCII fold to `s`, `k`.
unfoldable pub fold_case : ℕ → ℕ
fold_case c =
    if leb b'A' c && leb c b'Z'
    then c + 32
    else if c == 0x17f
    then b's'
    else if c == 0x212a
    then b'k'
    else c

unfoldable pub starts_with : Text → Text → Bool
unfolding fold_case
starts_with [] s = true
starts_with (c ∷ word) [] = false
starts_with (c ∷ word) (d ∷ s) = c == fold_case d && starts_with word s

unfoldable pub has_word : Text → Text → Bool
unfolding starts_with
has_word word [] = starts_with word []
has_word word (c ∷ s) = starts_with word (c ∷ s) || has_word word s

-- `/password|secret|token|credential/iu`.
unfoldable pub has_secret : Text → Bool
unfolding has_word
has_secret s =
    has_word (codes "password") s
    || has_word (codes "secret") s
    || has_word (codes "token") s
    || has_word (codes "credential") s

-- `stringValue`.
abbrev pub string_value : Option Json → Text
string_value none = []
string_value (some (str t)) = t
string_value (some null) = []
string_value (some (bool b)) = []
string_value (some (int n)) = []
string_value (some (frac t)) = []
string_value (some (arr vs)) = []
string_value (some (obj fields)) = []

-- `parsed && typeof parsed === "object" && !Array.isArray(parsed)`.
abbrev pub as_fields : Option Json → Option Fields
as_fields none = none
as_fields (some (obj fields)) = some fields
as_fields (some null) = none
as_fields (some (bool b)) = none
as_fields (some (int n)) = none
as_fields (some (frac t)) = none
as_fields (some (str t)) = none
as_fields (some (arr vs)) = none

module _ (platform : Platform) where
  -- `text`.
  unfoldable pub text_field : Text → Option Text
  unfolding has_control_character
  text_field value =
      let trimmed = trim (platform.normalize_nfc value) in
      if is_empty trimmed || has_control_character trimmed then none else some trimmed

  -- `isoDate`; `none` is `null`.
  abbrev pub iso_of : Option ℤ → Option Text
  iso_of none = none
  iso_of (some time) = some (platform.to_iso_string time)

  unfoldable pub iso_date : Text → Option Text
  iso_date value = iso_of (platform.get_time value)

  abbrev pub time_le : Option ℤ → Option ℤ → Bool
  time_le none b = false
  time_le (some a) none = false
  time_le (some a) (some b) = leb_ℤ a b

  -- `Date.parse(usageEnd) <= Date.parse(usageStart)`.
  unfoldable pub ends_before : Text → Text → Bool
  ends_before usage_end usage_start =
      time_le (platform.get_time usage_end) (platform.get_time usage_start)

  abbrev pub without_secret : Option Fields → Option Fields
  without_secret none = none
  without_secret (some fields) =
      if has_secret (platform.json_stringify (obj fields)) then none else some fields

  -- The value that `parseTags` looks at.
  abbrev pub tags_value : Option Json → Option Json
  tags_value none = none
  tags_value (some (str t)) = platform.json_parse t
  tags_value (some null) = some null
  tags_value (some (bool b)) = some (bool b)
  tags_value (some (int n)) = some (int n)
  tags_value (some (frac t)) = some (frac t)
  tags_value (some (arr vs)) = some (arr vs)
  tags_value (some (obj fields)) = some (obj fields)

  -- `parseTags`; `none` is `null`.
  unfoldable pub parse_tags : Option Json → Option Fields
  unfolding has_secret
  parse_tags value = without_secret (as_fields (tags_value value))

-- `parseScaledDecimal`: `BigInt(undefined)` throws too.
abbrev pub scaled_of : List Text → Option ℤ
scaled_of [] = none
scaled_of (whole ∷ []) = none
scaled_of (whole ∷ fraction ∷ pieces) = do
  w ← big_int whole
  f ← big_int fraction
  some (w *ℤ pos 100000000 +ℤ f)

unfoldable pub parse_scaled_decimal : Text → Option ℤ
unfolding split big_int
parse_scaled_decimal value = scaled_of (split b'.' value)
