-- ===== src/Prelude/Json.antt =====
-- JSON values, the objects that Python reads as `dict[str, object]`, and decimal numerals.
use Prim.Native.Nat.{ℕ, zero, suc}
use Prim.Native.String.{String, ◌++◌ as append, slice}
use mathlib.Core.Logic.{ite}
use mathlib.Core.Bool.{Bool}
use mathlib.Core.List.{List, [], ◌∷◌}
use dayjaview.Prelude.Tests.{◌==◌, if◌then◌else◌}
use dayjaview.Prelude.Text.{String-discrete}

mutual
  pub data Json : Type 0 where
    null : Json
    boolean : Bool → Json
    natural : ℕ → Json
    -- a negative number or a fraction, by its text
    other_number : String → Json
    text : String → Json
    array : JsonList → Json
    object : JsonObject → Json

  pub data JsonList : Type 0 where
    end : JsonList
    item : Json → JsonList → JsonList

  -- the fields in insertion order
  pub data JsonObject : Type 0 where
    no_field : JsonObject
    field : String → Json → JsonObject → JsonObject

-- `{**o, name: value}`
unfoldable pub with_field : String → Json → JsonObject → JsonObject
unfolding String-discrete
with_field name value no_field = field name value no_field
with_field name value (field n v o) =
    ite (String-discrete n name) (field n value o) (field n v (with_field name value o))

-- The decimal digits of a number, the last one first.
unfoldable pub bump : List ℕ → List ℕ
bump [] = 1 ∷ []
bump (d ∷ ds) = let rest = bump ds in if d == 9 then 0 ∷ rest else suc d ∷ ds

unfoldable pub digits : ℕ → List ℕ
unfolding bump
digits zero = []
digits (suc n) = bump (digits n)

unfoldable pub digit_text : ℕ → String
digit_text d = slice "0123456789" d (suc d)

-- The numeral of the digits, with zeros in front where there are fewer than `width`.
unfoldable pub padded : ℕ → List ℕ → String
unfolding digit_text
padded zero [] = ""
padded (suc width) [] = append (padded width []) "0"
padded zero (d ∷ ds) = append (padded zero ds) (digit_text d)
padded (suc width) (d ∷ ds) = append (padded width ds) (digit_text d)
