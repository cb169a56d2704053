-- ===== src/Imports/Csv/RoundTrip.antt =====
-- A table that is written with every cell in quotes is read back as it was.
use cloud_commitment_portfol.Base.{
  ℕ, ◌≡◌, ◌∙◌, refl, sym, ap, Bool, true, false, ◌==◌, Option, some, List, [], ◌∷◌, ◌++◌, map,
  filter, head?, All, if◌then◌else◌, Bool-cases, inl, inr, arith,
}
use mathlib.Core.List.{append-nil, append_assoc}
use cloud_commitment_portfol.Base.Text.{Text}
use cloud_commitment_portfol.Imports.Csv.{
  Reader, quote, read_quoted, read_plain, read_unit, read_from, last_row, has_value, parse_csv,
}

-- A cell between quotes, its own quotes doubled, in front of `rest`.
abbrev pub print_units : Text → Text → Text
print_units [] rest = quote ∷ rest
print_units (c ∷ cell) rest =
    if c == quote then quote ∷ quote ∷ print_units cell rest else c ∷ print_units cell rest

abbrev pub print_cell : Text → Text → Text
print_cell cell rest = quote ∷ print_units cell rest

abbrev pub print_row : Text → List Text → Text → Text
print_row cell [] rest = print_cell cell (10 ∷ rest)
print_row cell (next ∷ cells) rest = print_cell cell (44 ∷ print_row next cells rest)

-- A table; a row has at least one cell.
abbrev pub print_csv : List (Text × List Text) → Text
print_csv [] = []
print_csv ((cell, cells) ∷ rows) = print_row cell cells (print_csv rows)

abbrev reader : List (List Text) → List Text → Text → Bool → Reader
reader rows row cell quoted = record {
  rows = rows;
  row = row;
  cell = cell;
  quoted = quoted;
  skips = false;
}

module _ (rows : List (List Text)) (row : List Text) where
  closes :
      (read : Text) (d : ℕ)
      → (d == quote) ≡ false
      → read_unit quote (some d) (reader rows row read true) ≡ reader rows row read false
  unfolding read_unit read_quoted
  closes read d h = rw h refl

  passes :
      (read : Text) (c : ℕ) (next : Option ℕ)
      → (c == quote) ≡ false
      → read_unit c next (reader rows row read true) ≡ reader rows row (read ++ c ∷ []) true
  unfolding read_unit read_quoted
  passes read c next h = rw h refl

  -- A cell up to the end of its quotes.
  read_from-print_units :
      (cell read : Text) (d : ℕ) (rest : Text)
      → (d == quote) ≡ false
      → read_from (print_units cell (d ∷ rest)) (reader rows row read true)
        ≡ read_from (d ∷ rest) (reader rows row (read ++ cell) false)
  unfolding read_from read_unit read_quoted
  read_from-print_units [] read d rest h =
      ap (read_from (d ∷ rest))
        (closes read d h ∙ ap (λ x. reader rows row x false) (sym (append-nil read)))
  read_from-print_units (c ∷ cell) read d rest h = elim (Bool-cases (c == quote)) [
    | inl e ↦
        let p : c ≡ quote = ground arith in
        rw (e, p)
          (read_from-print_units cell (read ++ quote ∷ []) d rest h
            ∙ ap (λ x. read_from (d ∷ rest) (reader rows row x false))
                (append_assoc read (quote ∷ []) cell))
    | inr e ↦ rw e (
        ap (read_from (print_units cell (d ∷ rest)))
          (passes read c (head? (print_units cell (d ∷ rest))) e)
        ∙ read_from-print_units cell (read ++ c ∷ []) d rest h
        ∙ ap (λ x. read_from (d ∷ rest) (reader rows row x false))
            (append_assoc read (c ∷ []) cell))
  ]

  read_from-print_cell :
      (cell : Text) (d : ℕ) (rest : Text)
      → (d == quote) ≡ false
      → read_from (print_cell cell (d ∷ rest)) (reader rows row [] false)
        ≡ read_from (d ∷ rest) (reader rows row cell false)
  unfolding read_from read_unit read_plain
  read_from-print_cell cell d rest h = read_from-print_units cell [] d rest h

module _ (rows : List (List Text)) where
  read_from-print_row :
      (row : List Text) (cell : Text) (cells : List Text) (rest : Text)
      → read_from (print_row cell cells rest) (reader rows row [] false)
        ≡ read_from rest (reader (rows ++ (row ++ cell ∷ cells) ∷ []) [] [] false)
  unfolding read_from read_unit read_plain
  read_from-print_row row cell [] rest = read_from-print_cell rows row cell 10 rest refl
  read_from-print_row row cell (next ∷ cells) rest =
      read_from-print_cell rows row cell 44 (print_row next cells rest) refl
      ∙ read_from-print_row (row ++ cell ∷ []) next cells rest
      ∙ ap (λ r. read_from rest (reader (rows ++ r ∷ []) [] [] false))
          (append_assoc row (cell ∷ []) (next ∷ cells))

abbrev pub row_of : Text × List Text → List Text
row_of (cell, cells) = cell ∷ cells

read_from-print_csv :
    (read : List (List Text)) (table : List (Text × List Text))
    → read_from (print_csv table) (reader read [] [] false)
      ≡ reader (read ++ map row_of table) [] [] false
unfolding read_from
read_from-print_csv read [] = ap (λ r. reader r [] [] false) (sym (append-nil read))
read_from-print_csv read ((cell, cells) ∷ table) =
    read_from-print_row read [] cell cells (print_csv table)
    ∙ read_from-print_csv (read ++ (cell ∷ cells) ∷ []) table
    ∙ ap (λ r. reader r [] [] false) (append_assoc read ((cell ∷ cells) ∷ []) (map row_of table))

filter-All :
    (p : List Text → Bool) (rows : List (List Text))
    → All (λ r. p r ≡ true) rows
    → filter p rows ≡ rows
filter-All p [] h = refl
filter-All p (r ∷ rows) (e, h) = rw e (ap (λ rs. r ∷ rs) (filter-All p rows h))

-- A table whose rows all have a cell that is not blank is read back as it was from its text, every
-- cell between quotes with its own quotes doubled, whatever characters the cells have.
pub parse_csv-print_csv :
    (table : List (Text × List Text))
    → All (λ r. has_value r ≡ true) (map row_of table)
    → parse_csv (print_csv table) ≡ map row_of table
unfolding parse_csv last_row
parse_csv-print_csv table h =
    ap (λ s. filter has_value (last_row s)) (read_from-print_csv [] table)
    ∙ filter-All has_value (map row_of table) h
