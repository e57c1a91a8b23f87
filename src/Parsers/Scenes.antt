-- ===== src/Parsers/Scenes.antt =====
-- class ScenarioParser (momosecpp/src/ScenarioParser.cpp), class TimeScenarioParser
-- (momosecpp/src/TimeScenarioParser.cpp) and class ConfigSimParser (momosecpp/src/ConfigSimParser.cpp):
-- they read the attributes of the elements, and no text.
pub mod Graph
use Prim.Native.String.{String}
use text.Mathlib.Text.{◌==◌ as str_eq}
use mathlib.Core.Option.{map as map_option}
use simulations.Base.{
  ℕ, suc, Bool, true, false, not, ◌&&◌, if◌then◌else◌, ℤ, pos, negsuc, eqb_ℤ, List, [], ◌∷◌, ◌++◌,
  Option, none, some, get_elem?, set,
}
use simulations.Floats.{Floating}
use simulations.Geometry.{Point2D, point}
use simulations.Node.{Color, color}
use simulations.Scenario.Shapes.{ScenCircle, ScenRectangle}
use simulations.Scenario.Queries.{
  Shape, circle, rectangle, Building, Connection, HotSpot, ScenText, Scenario, init_building,
  set_attenuation,
}
use simulations.Simulation.Clock.{SimTime, init_sim_time}
use simulations.Parsers.Texts.{
  Extraction, Attrs, string_to_int, string_to_float, get_attr_from_name,
}
use simulations.Parsers.Colors.{get_color}

-- `none` is the null pointer.
pub record ScenarioParser (F : Floating) : Type 0 where
  pub scenario : Option (Scenario F)
  pub scenario_file : Bool

pub record TimeScenarioParser (F : Floating) : Type 0 where
  pub base : ScenarioParser F
  pub sim_time : Option (SimTime F)

pub record ConfigSimParser (F : Floating) : Type 0 where
  pub base : TimeScenarioParser F
  pub config_file : Bool
  pub mod_build_names : List String
  pub rec_build_names : List String

unfoldable pub init_scenario_parser : (F : Floating) → ScenarioParser F
init_scenario_parser F = record { scenario = none; scenario_file = false }

unfoldable pub init_time_parser : (F : Floating) → TimeScenarioParser F
unfolding init_scenario_parser
init_time_parser F = record { base = init_scenario_parser F; sim_time = none }

unfoldable pub init_config_parser : (F : Floating) → ConfigSimParser F
unfolding init_time_parser
init_config_parser F = record {
  base = init_time_parser F;
  config_file = false;
  mod_build_names = [];
  rec_build_names = [];
}

-- `if (str == key) { ... }`, the braces being `update`
abbrev pub on_name : {P : Type 0} → String → String → P → P → P
on_name name key update p = if str_eq name key then update else p

unfoldable pub unless_empty : {A : Type 0} → String → A → A → A
unless_empty s update a = if str_eq s "" then a else update

-- The place of the first hot spot of that number, which getHotSpot returns.
unfoldable pub find_spot : {F : Floating} → List (HotSpot F) → ℤ → Option ℕ
find_spot [] id = none
find_spot (s ∷ spots) id =
    let rest = map_option suc (find_spot spots id) in if eqb_ℤ s.id id then some 0 else rest

module _ {F : Floating} where
  abbrev pub mark_file : String → ScenarioParser F → ScenarioParser F
  mark_file name p = on_name name "ScenarioInfo" (record p { scenario_file = true }) p

  abbrev pub new_scenario : String → Scenario F → ScenarioParser F → ScenarioParser F
  new_scenario name s p = on_name name "Scenario" (record p { scenario = some s }) p

  abbrev pub edit_at :
      String → String → (Scenario F → Scenario F) → ScenarioParser F → ScenarioParser F
  edit_at name key f p = on_name name key (record p { scenario = map_option f p.scenario }) p

  unfoldable pub init_scenario : F.Float → F.Float → ℤ → Scenario F
  init_scenario w h border = record {
    buildings = [];
    hot_spots = [];
    texts = [];
    width = w;
    height = h;
    border_type = border;
  }

  unfoldable pub add_building : Building F → Scenario F → Scenario F
  add_building b s = record s { buildings = s.buildings ++ b ∷ [] }

  unfoldable pub add_hot_spot : HotSpot F → Scenario F → Scenario F
  add_hot_spot h s = record s { hot_spots = s.hot_spots ++ h ∷ [] }

  unfoldable pub add_scen_text : ScenText F → Scenario F → Scenario F
  add_scen_text t s = record s { texts = s.texts ++ t ∷ [] }

  abbrev pub connect_from :
      Option (HotSpot F) → List (HotSpot F) → ℕ → Connection F → List (HotSpot F)
  connect_from none spots i c = spots
  connect_from (some s) spots i c = set spots i (record s { connections = s.connections ++ c ∷ [] })

  abbrev pub connect : List (HotSpot F) → Option ℕ → Option ℕ → F.Float → List (HotSpot F)
  connect spots (some i) (some j) w =
      connect_from (get_elem? spots i) spots i (record { end_spot = j; weight = w })
  connect spots _ _ w = spots

  unfoldable pub add_connection : ℤ → ℤ → F.Float → Scenario F → Scenario F
  unfolding find_spot
  add_connection start_id end_id weight s = record s {
    hot_spots =
        connect s.hot_spots (find_spot s.hot_spots start_id) (find_spot s.hot_spots end_id) weight;
  }

module _ {F : Floating} (X : Extraction F) (attrs : Attrs) where
  attr : String → String
  unfolding get_attr_from_name
  attr name = get_attr_from_name attrs name

  unfoldable pub float_attr : String → F.Float
  unfolding attr string_to_float
  float_attr name = string_to_float X (attr name)

  unfoldable pub int_attr : String → ℤ
  unfolding attr string_to_int
  int_attr name = string_to_int X (attr name)

  place_attr : Point2D F
  unfolding float_attr
  place_attr = point F (float_attr "x") (float_attr "y")

  unfoldable pub create_scenario : Scenario F
  unfolding float_attr int_attr init_scenario
  create_scenario = init_scenario (float_attr "width") (float_attr "height") (int_attr "border")

  unfoldable pub create_scen_text : ScenText F
  unfolding float_attr attr place_attr get_color unless_empty
  create_scen_text =
      let rot = float_attr "rotation" in
      let factor = float_attr "scale" in
      let nil = F.of_int (pos 0) in
      record {
        p = place_attr;
        str = attr "str";
        point_color = get_color X (attr "pointColor") (color (negsuc 0) (negsuc 0) (negsuc 0));
        str_color = get_color X (attr "strColor") (color (pos 0) (pos 0) (pos 0));
        rot = unless_empty (attr "rotation") (if not (F.feq rot nil) then rot else nil) nil;
        scale =
            unless_empty (attr "scale") (if F.flt nil factor then factor else F.of_int (pos 1))
              (F.of_int (pos 1));
      }

  -- What createScenCircle and createScenRectangle share.
  unfoldable pub furnish : Building F → Building F
  unfolding attr float_attr get_color set_attenuation unless_empty
  furnish b = record (set_attenuation F b (float_attr "attenuation")) {
    name = unless_empty (attr "name") (attr "name") b.name;
    fill = get_color X (attr "fill") (color (pos 128) (pos 128) (pos 128));
    border = get_color X (attr "border") (color (pos 255) (pos 0) (pos 0));
  }

  unfoldable pub create_scen_circle : Building F
  unfolding furnish init_building float_attr place_attr
  create_scen_circle =
      furnish (init_building F (circle (record { p = place_attr; radius = float_attr "radius" })))

  unfoldable pub create_scen_rectangle : Building F
  unfolding furnish init_building float_attr place_attr attr unless_empty
  create_scen_rectangle = furnish (
      init_building F (
        rectangle (record {
          p = place_attr;
          width = float_attr "width";
          height = float_attr "height";
          rot_angle = unless_empty (attr "rotation") (float_attr "rotation") (F.of_int (pos 0));
        })))

  unfoldable pub create_hot_spot : HotSpot F
  unfolding float_attr int_attr place_attr
  create_hot_spot = record {
    p = place_attr;
    radius = float_attr "radius";
    id = int_attr "ID";
    connections = [];
  }

  unfoldable pub create_connection : Scenario F → Scenario F
  unfolding int_attr float_attr add_connection
  create_connection s =
      add_connection (int_attr "startSpot") (int_attr "endSpot") (float_attr "weight") s

  unfoldable pub create_sim_time : SimTime F
  unfolding float_attr int_attr init_sim_time
  create_sim_time = init_sim_time F (float_attr "Time") (float_attr "dt") (int_attr "Loops")

  -- The tests on the name, in order; a scenario that is missing is not edited.
  unfoldable pub scenario_start_element : String → ScenarioParser F → ScenarioParser F
  unfolding create_scenario create_scen_text create_scen_circle create_scen_rectangle
      create_hot_spot create_connection add_building add_hot_spot add_scen_text
  scenario_start_element name p0 = edit_at name "Connection" create_connection (
      edit_at name "HotSpot" (add_hot_spot create_hot_spot) (
        edit_at name "Text" (add_scen_text create_scen_text) (
          edit_at name "Circle" (add_building create_scen_circle) (
            edit_at name "Rect" (add_building create_scen_rectangle)
              (new_scenario name create_scenario (mark_file name p0))))))

  unfoldable pub time_start_element : String → TimeScenarioParser F → TimeScenarioParser F
  unfolding scenario_start_element create_sim_time
  time_start_element name p0 =
      let p1 = record p0 { base = scenario_start_element name p0.base } in
      on_name name "SimTime" (record p1 { sim_time = some create_sim_time }) p1

  -- addModBuildName and addRecBuildName
  abbrev add_name : List String → List String
  add_name names = unless_empty (attr "name") (names ++ attr "name" ∷ []) names

  unfoldable pub config_start_element : String → ConfigSimParser F → ConfigSimParser F
  unfolding time_start_element attr unless_empty
  config_start_element name p0 =
      let p1 = record p0 { base = time_start_element name p0.base } in
      let p2 = on_name name "ConfigInfo" (record p1 { config_file = true }) p1 in
      let p3 =
        on_name name "ModBuilder" (record p2 { mod_build_names = add_name p2.mod_build_names })
          p2 in
      on_name name "RecBuilder" (record p3 { rec_build_names = add_name p3.rec_build_names }) p3
