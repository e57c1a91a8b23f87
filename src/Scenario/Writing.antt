-- ===== src/Scenario/Writing.antt =====
-- toXml of class Scenario (momosecpp/src/Scenario.cpp) and of the elements of a scenario. An
-- element is its name with its attributes. The text around them, which puts no value between
-- escapes, is output; so is the end of an element, which the parser does not read.
use Prim.Native.String.{String}
use text.Mathlib.Text.{◌==◌ as str_eq}
use simulations.Base.{
  Bool, not, ◌||◌, if◌then◌else◌, ℤ, pos, negsuc, eqb_ℤ, List, [], ◌∷◌, ◌++◌, Option, none, some,
  get_elem?, map,
}
use simulations.Floats.{Floating}
use simulations.Node.{Color, color}
use simulations.Scenario.Shapes.{ScenCircle, ScenRectangle}
use simulations.Scenario.Queries.{
  Shape, circle, rectangle, Building, Connection, HotSpot, ScenText, Scenario,
}
use simulations.Parsers.Texts.{Attrs}
use simulations.Parsers.Colors.{color_text}

-- `ostream <<` on numbers, which belongs to the C++ library.
pub record Printing (F : Floating) : Type 0 where
  pub print_int : ℤ → String
  pub print_float : F.Float → String

abbrev pub Tag : Type 0
Tag = String × Attrs

-- `if (test) out << ...`
unfoldable pub written_if : Bool → String → String → Attrs → Attrs
written_if test key value rest = if test then (key, value) ∷ rest else rest

abbrev pub differs : Color → Color → Bool
differs c d = not (eqb_ℤ c.red d.red) || not (eqb_ℤ c.green d.green) || not (eqb_ℤ c.blue d.blue)

module _ {F : Floating} (O : Printing F) where
  open O use {print_int, print_float}

  -- The colours and the attenuation of a building.
  abbrev pub paint_attrs : Building F → Attrs
  paint_attrs b =
      written_if (differs b.fill (color (pos 128) (pos 128) (pos 128))) "fill"
        (color_text print_int b.fill)
        (written_if (differs b.border (color (pos 255) (pos 0) (pos 0))) "border"
          (color_text print_int b.border) (("attenuation", print_float b.attenuation) ∷ []))

  abbrev pub circle_attrs : ScenCircle F → Building F → Attrs
  circle_attrs s b =
      ("x", print_float s.p.x)
      ∷ ("y", print_float s.p.y)
      ∷ ("radius", print_float s.radius)
      ∷ written_if (not (str_eq b.name "")) "name" b.name (paint_attrs b)

  abbrev pub rectangle_attrs : ScenRectangle F → Building F → Attrs
  rectangle_attrs s b =
      ("x", print_float s.p.x)
      ∷ ("y", print_float s.p.y)
      ∷ ("width", print_float s.width)
      ∷ ("height", print_float s.height)
      ∷ written_if (not (str_eq b.name "")) "name" b.name (
          written_if (not (F.feq s.rot_angle (F.of_int (pos 0)))) "rotation"
            (print_float s.rot_angle) (paint_attrs b))

  abbrev shape_to_xml : Shape F → Building F → Tag
  shape_to_xml (circle s) b = ("Circle", circle_attrs s b)
  shape_to_xml (rectangle s) b = ("Rect", rectangle_attrs s b)

  unfoldable pub building_to_xml : Building F → Tag
  unfolding written_if
  building_to_xml b = shape_to_xml b.shape b

  unfoldable pub text_to_xml : ScenText F → Tag
  unfolding written_if
  text_to_xml t = (
    "Text",
    ("x", print_float t.p.x)
        ∷ ("y", print_float t.p.y)
        ∷ ("str", t.str)
        ∷ written_if (differs t.point_color (color (negsuc 0) (negsuc 0) (negsuc 0))) "pointColor"
            (color_text print_int t.point_color)
            (written_if (differs t.str_color (color (pos 0) (pos 0) (pos 0))) "strColor"
              (color_text print_int t.str_color)
              (written_if (not (F.feq t.rot (F.of_int (pos 0)))) "rotation" (print_float t.rot) (
                written_if (not (F.feq t.scale (F.of_int (pos 1)))) "scale" (print_float t.scale)
                  []))),
  )

  unfoldable pub hot_spot_to_xml : HotSpot F → Tag
  hot_spot_to_xml s = (
    "HotSpot",
    ("ID", print_int s.id)
        ∷ ("x", print_float s.p.x)
        ∷ ("y", print_float s.p.y)
        ∷ ("radius", print_float s.radius)
        ∷ [],
  )

  unfoldable pub connection_to_xml : ℤ → ℤ → F.Float → Tag
  connection_to_xml start_id end_id weight = (
    "Connection",
    ("startSpot", print_int start_id)
        ∷ ("endSpot", print_int end_id)
        ∷ ("weight", print_float weight)
        ∷ [],
  )

  abbrev end_to_xml : ℤ → Option (HotSpot F) → F.Float → List Tag → List Tag
  end_to_xml start_id none weight rest = rest
  end_to_xml start_id (some s) weight rest = connection_to_xml start_id s.id weight ∷ rest

  -- addConnectionsXml, with toXml of each connection. All end at spots of the scenario.
  unfoldable pub connections_to_xml : List (HotSpot F) → ℤ → List (Connection F) → List Tag
  unfolding connection_to_xml
  connections_to_xml spots start_id [] = []
  connections_to_xml spots start_id (c ∷ cs) =
      end_to_xml start_id (get_elem? spots c.end_spot) c.weight
        (connections_to_xml spots start_id cs)

  unfoldable pub spots_to_xml : List (HotSpot F) → List (HotSpot F) → List Tag
  unfolding connections_to_xml
  spots_to_xml spots [] = []
  spots_to_xml spots (s ∷ rest) =
      connections_to_xml spots s.id s.connections ++ spots_to_xml spots rest

  unfoldable pub hot_spot_list_to_xml : List (HotSpot F) → List Tag
  unfolding hot_spot_to_xml spots_to_xml
  hot_spot_list_to_xml spots = map hot_spot_to_xml spots ++ spots_to_xml spots spots

  unfoldable pub scenario_to_xml : Scenario F → List Tag
  unfolding building_to_xml hot_spot_list_to_xml text_to_xml
  scenario_to_xml s =
      (
        "Scenario",
        ("width", print_float s.width)
            ∷ ("height", print_float s.height)
            ∷ ("border", print_int s.border_type)
            ∷ [],
      )
      ∷ (map building_to_xml s.buildings
          ++ (hot_spot_list_to_xml s.hot_spots ++ map text_to_xml s.texts))
