-- ===== src/Imports/Columns.antt =====
-- The two ways to find the cell of a column: the first index of its name, or a member of an object
-- made of the row.
use cloud_commitment_portfol.Base.{
  ◌≡◌, ◌∙◌, refl, sym, ap, Bool, true, false, not, ◌&&◌, Option, none, some, List, [], ◌∷◌, filter,
  All, if◌then◌else◌, Bool-cases, inl, inr, arith,
}
use cloud_commitment_portfol.Base.Text.{Text, codes, text_eq}
use cloud_commitment_portfol.Base.Json.{Json, str, member}
use cloud_commitment_portfol.Imports.Cells.{string_value}
use cloud_commitment_portfol.Imports.Rows.{
  required_columns, includes, header_parsed, header_result, validate_header,
}
use cloud_commitment_portfol.Imports.Synthetic.{column_value}
use cloud_commitment_portfol.Imports.Canonical.{from_entries, tail_cells, head_cell}

-- No name stands twice.
abbrev pub distinct : List Text → Bool
distinct [] = true
distinct (name ∷ names) = not (includes names name) && distinct names

abbrev pub header_of : List (List Text) → List Text
header_of [] = []
header_of (header ∷ rows) = header

column_value-nil : (header : List Text) (column : Text) → column_value header [] column ≡ []
unfolding column_value
column_value-nil [] column = refl
column_value-nil (name ∷ header) column = refl

module _ (name column : Text) (header : List Text) where
  column_value-head :
      (row : List Text)
      → text_eq name column ≡ true
      → column_value (name ∷ header) row column ≡ head_cell row
  unfolding column_value
  column_value-head [] e = refl
  column_value-head (cell ∷ row) e = rw e refl

  column_value-tail :
      (row : List Text)
      → text_eq name column ≡ false
      → column_value (name ∷ header) row column ≡ column_value header (tail_cells row) column
  unfolding column_value
  column_value-tail [] e = sym (column_value-nil header column)
  column_value-tail (cell ∷ row) e = rw e refl

abbrev pub found_column : List Text → List Text → Text → Option Json
found_column header row column =
    if includes header column then some (str (column_value header row column)) else none

-- Under distinct names the object of a row has, for each name, the cell that the first index finds.
pub member-from_entries :
    (column : Text) (header row : List Text)
    → distinct header ≡ true
    → member column (from_entries header row) ≡ found_column header row column
unfolding from_entries member includes column_value
member-from_entries column [] row h = refl
member-from_entries column (name ∷ header) row h =
    let fresh : includes header name ≡ false = ground arith in
    let others : distinct header ≡ true = ground arith in
    let absent : member name (from_entries header (tail_cells row)) ≡ none =
      member-from_entries name header (tail_cells row) others ∙ rw fresh refl in
    rw absent (elim (Bool-cases (text_eq name column)) [
      | inl e ↦ rw e (ap (λ v. some (str v)) (sym (column_value-head name column header row e)))
      | inr e ↦ rw e (
          member-from_entries column header (tail_cells row) others
          ∙ ap (λ v. if includes header column then some (str v) else none)
              (sym (column_value-tail name column header row e)))
    ])

column_value-absent :
    (header row : List Text) (column : Text)
    → includes header column ≡ false
    → column_value header row column ≡ []
unfolding column_value includes
column_value-absent [] row column h = refl
column_value-absent (name ∷ header) [] column h = refl
column_value-absent (name ∷ header) (cell ∷ row) column h =
    let apart : text_eq name column ≡ false = ground arith in
    rw apart (column_value-absent header row column (ground arith))

pub column_value-found :
    (header row : List Text) (column : Text)
    → column_value header row column ≡ string_value (found_column header row column)
column_value-found header row column = elim (Bool-cases (includes header column)) [
  | inl e ↦ rw e refl
  | inr e ↦ rw e (column_value-absent header row column e)
]

filter-nil :
    {A : Type 0} (p : A → Bool) (xs : List A) → filter p xs ≡ [] → All (λ x. p x ≡ false) xs
filter-nil p [] h = tt
filter-nil p (x ∷ xs) h = elim (Bool-cases (p x)) [
  | inl e ↦ absurd (let h' : x ∷ filter p xs ≡ [] = rw e at h in cc)
  | inr e ↦ (e, filter-nil p xs (rw e at h))
]

header_result-nil :
    (missing extra warnings : List Text)
    → header_result missing extra ≡ header_parsed warnings
    → missing ≡ []
header_result-nil [] extra warnings h = refl
header_result-nil (name ∷ names) extra warnings h = absurd (cc)

-- A header that passes has the column of the tags.
pub validate_header-tags :
    (header warnings : List Text)
    → validate_header header ≡ header_parsed warnings
    → includes header (codes "tags") ≡ true
unfolding validate_header
validate_header-tags header warnings h =
    let (_, (_, (_, (_, (_, (_, (_, (_, (_, (_, (_, (present, _)))))))))))) =
      filter-nil (λ column. not (includes header column)) required_columns
        (header_result-nil _ _ warnings h) in
    ground arith
