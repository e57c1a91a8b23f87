-- ===== src/Parsers/Written.antt =====
-- What ScenarioParser (momosecpp/src/ScenarioParser.cpp) reads of the elements that toXml writes
-- (Scenario/Writing.antt): the attributes one by one.
pub mod Buildings
pub mod Texts
pub mod Spots
pub mod Scene
use Prim.Native.String.{String}
use text.Mathlib.Text.{◌==◌ as str_eq}
use text.Mathlib.TextEquality.{eq_iff}
use text.Mathlib.TextPositions.{eq_refl}
use simulations.Base.{
  ◌≡◌, ◌⊎◌, refl, sym, ap, subst, ◌∙◌, Bool, true, false, not, ◌||◌, if◌then◌else◌, ℤ, pos, negsuc,
  eqb_ℤ, eqb_ℤ_iff, List, [], ◌∷◌, some, none, inl, inr, Bool-cases, arith,
}
use simulations.Floats.{Floating}
use simulations.Node.{Color, color}
use simulations.Scenario.Shapes.{ScenCircle, ScenRectangle}
use simulations.Scenario.Queries.{
  Shape, circle, rectangle, Building, HotSpot, ScenText, Scenario, init_building, set_attenuation,
}
use simulations.Scenario.Writing.{
  Printing, written_if, differs, paint_attrs, circle_attrs, rectangle_attrs, building_to_xml,
}
use simulations.Parsers.Texts.{
  Extraction, Attrs, string_to_int, string_to_float, get_attr_from_name,
}
use simulations.Parsers.Colors.{NoComma, get_color, color_text, get_color-color_text}
use simulations.Parsers.Scenes.{
  unless_empty, furnish, create_scen_circle, create_scen_rectangle, create_scen_text,
  create_hot_spot,
}

-- Blue and green in each other's place.
abbrev pub mirror : Color → Color
mirror c = color c.red c.blue c.green

pub get-written_other :
    (b : Bool) (key value name : String) (rest : Attrs)
    → str_eq key name ≡ false
    → get_attr_from_name (written_if b key value rest) name ≡ get_attr_from_name rest name
unfolding get_attr_from_name written_if
get-written_other true key value name rest e = rw e refl
get-written_other false key value name rest e = refl

pub get-written_self :
    (b : Bool) (key value : String) (rest : Attrs)
    → get_attr_from_name (written_if b key value rest) key
      ≡ (if b then value else get_attr_from_name rest key)
unfolding get_attr_from_name written_if
get-written_self true key value rest = rw (eq_refl key) refl
get-written_self false key value rest = refl

not_same : (c d : Color) → differs c d ≡ false → c ≡ d
not_same c d e =
    ground (arith, eqb_ℤ_iff c.red d.red, eqb_ℤ_iff c.green d.green, eqb_ℤ_iff c.blue d.blue)

-- What is relied on of the two libraries: integers come back from their text, which has no comma,
-- and an empty text is no number.
pub record IsReading {F : Floating} (X : Extraction F) (O : Printing F) : Type 0 where
  pub reads : (n : ℤ) → X.int_of (O.print_int n) ≡ some n
  pub plain : (n : ℤ) → NoComma (O.print_int n)
  pub blank : X.float_of "" ≡ none

module _ {F : Floating} (X : Extraction F) (O : Printing F) where
  -- The number comes back from its text, as few digits of it as that has.
  abbrev pub IsRead : F.Float → Type 0
  IsRead x = X.float_of (O.print_float x) ≡ some x

  pub color_back :
      IsReading X O
      → (c d : Color) → mirror d ≡ d
      → get_color X (if differs c d then color_text O.print_int c else "") d ≡ mirror c
  unfolding get_color
  color_back ints c d same = elim (Bool-cases (differs c d)) [
    | inl e ↦ rw e (get_color-color_text X O.print_int c d ints.reads ints.plain)
    | inr e ↦ rw e (sym same ∙ ap mirror (sym (not_same c d e)))
  ]

  pub float_back :
      (s : String) (x : F.Float) → s ≡ O.print_float x → IsRead x → string_to_float X s ≡ x
  unfolding string_to_float
  float_back s x e h = rw (e, h) refl

  pub name_back :
      (s name : String)
      → s ≡ (if not (str_eq name "") then name else "")
      → unless_empty s s "" ≡ name
  unfolding unless_empty
  name_back s name e = elim (Bool-cases (str_eq name "")) [
    | inl h ↦ let empty : name ≡ "" = ground (arith, eq_iff name "") in rw (e, h) (sym empty)
    | inr h ↦ rw (e, h, h) refl
  ]

  -- An attribute that is written unless it is the default, as numbers compare: it is read back, and
  -- is the default if it compares so.
  abbrev pub IsOptional : F.Float → F.Float → Type 0
  IsOptional x d = IsRead x × ((F.feq x d ≡ false) ⊎ (x ≡ d))

  pub printed : IsReading X O → (x : F.Float) → IsRead x → str_eq (O.print_float x) "" ≡ false
  printed ok x read = elim (Bool-cases (str_eq (O.print_float x) "")) [
    | inl e ↦
        let empty : O.print_float x ≡ "" = ground (arith, eq_iff (O.print_float x) "") in
        cc (sym ok.blank ∙ ap X.float_of (sym empty) ∙ read)
    | inr e ↦ e
  ]

  pub optional_back :
      (g : F.Float → F.Float) (s : String) (x d : F.Float)
      → IsReading X O
      → IsOptional x d
      → g x ≡ x
      → s ≡ (if not (F.feq x d) then O.print_float x else "")
      → unless_empty s (g (string_to_float X s)) d ≡ x
  unfolding unless_empty string_to_float
  optional_back g s x d ok (read, inl other) fixed e = rw (e, other, printed ok x read, read) fixed
  optional_back g s x d ok (read, inr same) fixed e = elim (Bool-cases (F.feq x d)) [
    | inl h ↦ rw (e, h) (sym same)
    | inr h ↦ rw (e, h, printed ok x read, read) fixed
  ]
