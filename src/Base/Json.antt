-- ===== src/Base/Json.antt =====
-- The values that `JSON.parse` gives and `JSON.stringify` takes, and the readers `objectAt`,
-- `stringAt` and `integerAt` of the workers, which fall back where a member has another type.
use mathlib.Core.Bool.{Bool}
use mathlib.Core.Option.{Option, none, some}
use mathlib.Core.List.{List, [], ◌∷◌}
use cloud_commitment_portfol.Base.Tests.{if◌then◌else◌}
use cloud_commitment_portfol.Base.Int.{ℤ}
use cloud_commitment_portfol.Base.Text.{Text, codes, text_eq}

mutual
  -- `int` is a number with an integer value, `frac` any other number, by its digits.
  pub data Json : Type 0 where
    null : Json
    bool : Bool → Json
    int : ℤ → Json
    frac : Text → Json
    str : Text → Json
    arr : Items → Json
    obj : Fields → Json

  pub data Items : Type 0 where
    nil : Items
    cons : Json → Items → Items

  -- `Record<string, unknown>`.
  pub data Fields : Type 0 where
    end : Fields
    field : Text → Json → Fields → Fields

-- `source[key]`; `none` is `undefined`.
unfoldable pub member : Text → Fields → Option Json
member key end = none
member key (field k v rest) = if text_eq k key then some v else member key rest

abbrev pub items : Items → List Json
items nil = []
items (cons v vs) = v ∷ items vs

abbrev pub of_items : List Json → Items
of_items [] = nil
of_items (v ∷ vs) = cons v (of_items vs)

abbrev pub as_object : Option Json → Fields
as_object none = end
as_object (some (obj fields)) = fields
as_object (some null) = end
as_object (some (bool b)) = end
as_object (some (int n)) = end
as_object (some (frac t)) = end
as_object (some (str t)) = end
as_object (some (arr vs)) = end

unfoldable pub object_at : Fields → Text → Fields
unfolding member
object_at source key = as_object (member key source)

abbrev pub as_string : Option Json → Text
as_string none = codes "0"
as_string (some (str t)) = t
as_string (some null) = codes "0"
as_string (some (bool b)) = codes "0"
as_string (some (int n)) = codes "0"
as_string (some (frac t)) = codes "0"
as_string (some (arr vs)) = codes "0"
as_string (some (obj fields)) = codes "0"

unfoldable pub string_at : Fields → Text → Text
unfolding member
string_at source key = as_string (member key source)

abbrev pub as_integer : Option Json → ℤ → ℤ
as_integer none fallback = fallback
as_integer (some (int n)) fallback = n
as_integer (some null) fallback = fallback
as_integer (some (bool b)) fallback = fallback
as_integer (some (frac t)) fallback = fallback
as_integer (some (str t)) fallback = fallback
as_integer (some (arr vs)) fallback = fallback
as_integer (some (obj fields)) fallback = fallback

unfoldable pub integer_at : Fields → Text → ℤ → ℤ
unfolding member
integer_at source key fallback = as_integer (member key source) fallback
