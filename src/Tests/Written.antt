-- ===== src/Tests/Written.antt =====
-- The theorem on the elements of a scenario, at a small one.
use simulations.Base.{ℕ, ◌≡◌, refl, List, [], ◌∷◌, some, ℤ, pos, negsuc, inl, inr, arith}
use simulations.Floats.{milli}
use simulations.Geometry.{point}
use simulations.Node.{color}
use simulations.Scenario.Queries.{
  circle, rectangle, Building, Connection, HotSpot, ScenText, Scenario,
}
use simulations.Scenario.Writing.{scenario_to_xml}
use simulations.Parsers.Scenes.{init_scenario_parser}
use simulations.Parsers.Scenes.Graph.{parse_scenes}
use simulations.Parsers.Written.Scene.{
  ScenarioIsRead, mirrored_scenario, parse_scenes-scenario_to_xml,
}
use simulations.Tests.Unary.{unary, printing, printing-IsReading}

abbrev tower : Building milli
tower = record {
  shape = circle (record { p = point milli (pos 1000) (pos 2000); radius = pos 1000 });
  attenuation = pos 1000;
  name = "tower";
  fill = color (pos 1) (pos 2) (pos 3);
  border = color (pos 255) (pos 0) (pos 0);
}

abbrev hall : Building milli
hall = record {
  shape = rectangle (record {
    p = point milli (pos 4000) (negsuc 999);
    width = pos 3000;
    height = pos 2000;
    rot_angle = pos 2000;
  });
  attenuation = pos 0;
  name = "";
  fill = color (pos 128) (pos 128) (pos 128);
  border = color (pos 0) (pos 1) (pos 0);
}

abbrev to_spot : ℕ → ℤ → Connection milli
to_spot j w = record { end_spot = j; weight = w }

abbrev spot : ℤ → List (Connection milli) → HotSpot milli
spot id js = record {
  p = point milli (pos 1000) (pos 1000);
  radius = pos 1000;
  id = id;
  connections = js;
}

abbrev label : ScenText milli
label = record {
  p = point milli (pos 0) (pos 2000);
  str = "north";
  point_color = color (negsuc 0) (negsuc 0) (negsuc 0);
  str_color = color (pos 0) (pos 4) (pos 0);
  rot = pos 0;
  scale = pos 2000;
}

abbrev town : Scenario milli
town = record {
  buildings = tower ∷ hall ∷ [];
  hot_spots =
      spot (pos 7) (to_spot 1 (pos 3000) ∷ to_spot 0 (pos 0) ∷ [])
      ∷ spot (pos 5) (to_spot 0 (pos 2000) ∷ [])
      ∷ [];
  texts = label ∷ [];
  width = pos 9000;
  height = pos 8000;
  border_type = pos 1;
}

town-IsRead : ScenarioIsRead unary printing town
town-IsRead = record {
  width = refl;
  height = refl;
  buildings = (
    ((refl, refl, refl), refl, (refl, refl)),
    (((refl, refl, refl, refl, (refl, inl refl)), refl, (refl, refl)), tt),
  );
  spots = ((refl, refl, refl, (refl, (refl, tt))), ((refl, refl, refl, (refl, tt)), tt));
  texts = ((refl, refl, (refl, inr refl), (refl, inl refl), refl), tt);
  distinct = ((refl, tt), (tt, tt));
  linked = omega arith;
}

parse_scenes-scenario_to_xml_example :
    parse_scenes unary (scenario_to_xml printing town) (init_scenario_parser milli)
    ≡ record (init_scenario_parser milli) { scenario = some (mirrored_scenario town) }
parse_scenes-scenario_to_xml_example =
    parse_scenes-scenario_to_xml unary printing town (init_scenario_parser milli) printing-IsReading
      town-IsRead
