-- ===== src/Parsers/Texts.antt =====
-- class BaseParser (momosecpp/src/BaseParser.cpp): texts turned into values, and the attributes of
-- an element. `istringstream >>` belongs to the C++ library and is a parameter.
use Prim.Native.String.{String}
use text.Mathlib.Text.{◌==◌ as str_eq}
use mathlib.Core.Option.{map as map_option}
use simulations.Base.{
  ℕ, Bool, true, false, ◌&&◌, ◌||◌, if◌then◌else◌, List, [], ◌∷◌, Option, none, some, ℤ, pos,
  negsuc, ltb_ℤ, leb_ℤ, length, get_elem?,
}
use simulations.Floats.{Floating}

-- `none` is a failed extraction.
pub record Extraction (F : Floating) : Type 0 where
  pub int_of : String → Option ℤ
  pub float_of : String → Option F.Float

abbrev pub or_else : {A : Type 0} → A → Option A → A
or_else a none = a
or_else a (some b) = b

module _ {F : Floating} (X : Extraction F) where
  unfoldable pub string_to_int : String → ℤ
  string_to_int s = or_else (negsuc 0) (X.int_of s)

  unfoldable pub string_to_float : String → F.Float
  string_to_float s = or_else (F.of_int (negsuc 0)) (X.float_of s)

unfoldable pub string_to_bool : String → Bool
string_to_bool s =
    if str_eq s "true" || str_eq s "TRUE"
    then true
    else if str_eq s "false" || str_eq s "FALSE"
    then false
    else false

-- The array of names and values in turn, ended by a null pointer, as a list of pairs.
abbrev pub Attrs : Type 0
Attrs = List (String × String)

unfoldable pub get_attr_from_name : Attrs → String → String
get_attr_from_name [] name = ""
get_attr_from_name ((key, value) ∷ attrs) name =
    if str_eq key name then value else get_attr_from_name attrs name

unfoldable pub get_attr_count : Attrs → ℕ
get_attr_count attrs = length attrs

abbrev pub value_at : Attrs → ℤ → Option (String × String)
value_at attrs (pos k) = get_elem? attrs k
value_at attrs (negsuc k) = none

abbrev pub within : Attrs → ℤ → Bool
within attrs id = leb_ℤ (pos 0) id && ltb_ℤ id (pos (get_attr_count attrs))

-- A read outside the array is undefined behaviour.
unfoldable pub get_attr_from_id : Attrs → ℤ → Option String
unfolding get_attr_count
get_attr_from_id attrs id =
    if within attrs id then map_option (λ p. p.1) (value_at attrs id) else some ""

unfoldable pub get_attr_name_from_id : Attrs → ℤ → Option String
unfolding get_attr_count
get_attr_name_from_id attrs id =
    if within attrs id then map_option (λ p. p.0) (value_at attrs id) else some ""
