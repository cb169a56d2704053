-- ===== src/Imports/Csv.antt =====
-- core/imports/csv.ts: the reader of comma-separated text, a machine over the code units.
pub mod RoundTrip
use cloud_commitment_portfol.Base.{
  ℕ, Bool, true, false, not, ◌&&◌, ◌||◌, ◌==◌, Option, none, some, List, [], ◌∷◌, ◌++◌, filter, any,
  head?, if◌then◌else◌,
}
use cloud_commitment_portfol.Base.Text.{Text, text_eq, trim}

-- The variables of the loop. `skips` is the second `index += 1` after a doubled quote.
pub record Reader : Type 0 where
  pub rows : List (List Text)
  pub row : List Text
  pub cell : Text
  pub quoted : Bool
  pub skips : Bool

abbrev pub quote : ℕ
quote = 34

abbrev pub is_quote : Option ℕ → Bool
is_quote none = false
is_quote (some c) = c == quote

-- `row.push(cell); cell = ""`.
abbrev pub end_cell : Reader → Reader
end_cell s = record s { row = s.row ++ s.cell ∷ []; cell = [] }

-- `row.push(cell); rows.push(row); row = []; cell = ""`.
abbrev pub end_row : Reader → Reader
end_row s = record s { rows = s.rows ++ (s.row ++ s.cell ∷ []) ∷ []; row = []; cell = [] }

abbrev pub add_unit : ℕ → Reader → Reader
add_unit c s = record s { cell = s.cell ++ c ∷ [] }

-- A character inside quotes, and the one after it.
unfoldable pub read_quoted : ℕ → Option ℕ → Reader → Reader
read_quoted c next s =
    if c == quote && is_quote next
    then record s { cell = s.cell ++ quote ∷ []; skips = true }
    else if c == quote
    then record s { quoted = false }
    else add_unit c s

unfoldable pub read_plain : ℕ → Reader → Reader
read_plain c s =
    if c == quote
    then record s { quoted = true }
    else if c == 44
    then end_cell s
    else if c == 10
    then end_row s
    else if not (c == 13)
    then add_unit c s
    else s

unfoldable pub read_unit : ℕ → Option ℕ → Reader → Reader
unfolding read_quoted read_plain
read_unit c next s =
    if s.skips
    then record s { skips = false }
    else if s.quoted
    then read_quoted c next s
    else read_plain c s

-- The loop.
unfoldable pub read_from : Text → Reader → Reader
unfolding read_unit
read_from [] s = s
read_from (c ∷ text) s = read_from text (read_unit c (head? text) s)

abbrev pub is_nil : {A : Type 0} → List A → Bool
is_nil [] = true
is_nil (x ∷ xs) = false

-- The last row, where the text does not end its line.
unfoldable pub last_row : Reader → List (List Text)
last_row s =
    if not (is_nil s.cell) || not (is_nil s.row)
    then s.rows ++ (s.row ++ s.cell ∷ []) ∷ []
    else s.rows

abbrev pub start : Reader
start = record { rows = []; row = []; cell = []; quoted = false; skips = false }

-- `record.some((value) => value.trim() !== "")`.
unfoldable pub has_value : List Text → Bool
has_value row = any (λ value. not (is_nil (trim value))) row

-- `parseCsv`.
unfoldable pub parse_csv : Text → List (List Text)
unfolding read_from last_row has_value
parse_csv text = filter has_value (last_row (read_from text start))
