-- ===== src/Tests/Configs.antt =====
-- The theorems on the parsers, at small documents. Numbers are written in unary: `+111` is 3.
use Prim.Native.String.{String}
use simulations.Base.{
  ℕ, ◌≡◌, refl, true, false, arith, some, List, [], ◌∷◌, pos, negsuc, pos_part, length, AllFrom,
}
use simulations.Floats.{milli, milli-IsOrdered}
use simulations.Scenario.Queries.{Scenario, HotSpot, Connection}
use simulations.Mobility.Route.{IsGraph}
use simulations.Messages.Node.{MessageNode}
use simulations.Messages.Model.{MessageModel, setup}
use simulations.Messages.Model.Setup.{IsReady}
use simulations.Messages.Model.Build.{create, create-IsReady}
use simulations.Parsers.Texts.{Attrs}
use simulations.Parsers.Document.{Element, parse, document_events, fill_fields}
use simulations.Parsers.Tables.{◌&◌, put_field}
use simulations.Parsers.Messages.{MessageModelParser, message_handler}
use simulations.Parsers.Messages.Table.{message_fields, message_document}
use simulations.Parsers.Ranges.{IsChecked, getters-IsChecked}
use simulations.Parsers.Failures.{IsDefaulted, conversion_failure-IsDefaulted}
use simulations.Geometry.{point}
use simulations.Parsers.Scenes.{
  init_scenario_parser, scenario_start_element, create_scenario, create_hot_spot, create_connection,
  int_attr, float_attr, add_hot_spot, add_connection, find_spot, init_scenario,
}
use simulations.Parsers.Scenes.Graph.{parse_scenes-IsGraph}
use simulations.Tests.Unary.{unary}
use simulations.Tests.Sample.{still, two_model}
use simulations.Tests.Rounding.{milli-IsRounding}

abbrev memory : MessageModelParser milli
memory = record {
  base = record {
    num_nodes = pos 2;
    node_radius = pos 500;
    antenna_radius = pos 10000;
    is_physical = false;
    is_thinker = false;
    act_tag = negsuc 0;
  };
  pause_time = pos 0;
  v_min = pos 0;
  v_max = pos 5000;
  probability = pos 2000;
  node_trust_distance = negsuc 4;
  msg_trust_distance = pos 1;
  node_exchange_num = pos 0;
  msg_exchange_num = pos 3;
  percent_adversaries = pos 500;
  adversary_probability = pos 1500;
  adversary_msg_creation_probability = pos 100;
  collaborator_msg_creation_probability = negsuc 0;
  use_friendships = true;
}

abbrev element : String → String → Element
element name text = record { name = name; text = text; after = "\n" ∷ [] }

abbrev document : List Element
document = element "numNodes" "+11" ∷ element "nn" "+11" ∷ element "perc_adversaries" "+1" ∷ []

message_document_example :
    parse (message_handler unary) (document_events "model" ("\n" ∷ []) document) memory
    ≡ fill_fields (put_field (message_fields unary)) document memory
message_document_example =
    message_document unary "model" ("\n" ∷ []) document memory
      (refl & refl & refl & refl & refl & refl & refl & refl & refl & refl & refl & refl & refl
        & refl & refl & refl & refl & refl & tt)
      refl

getters-IsChecked_example : IsChecked memory
getters-IsChecked_example = getters-IsChecked milli-IsOrdered refl memory

conversion_failure-IsDefaulted_example : IsDefaulted unary "many" memory
conversion_failure-IsDefaulted_example =
    conversion_failure-IsDefaulted unary "many" memory refl refl refl

abbrev spot_attrs : Attrs
spot_attrs = ("x", "+1") ∷ ("y", "+11") ∷ []

create-IsReady_example :
    (m : MessageModel milli) × (nodes : List (MessageNode milli)) × (rng : ℕ) × (setup still
        (create two_model memory)
        (pos 100)
        (pos 100)
        []
        0
      ≡ some (m, nodes, rng))
    × (length nodes ≡ pos_part memory.base.num_nodes)
    × AllFrom
        (IsReady (pos_part memory.base.num_nodes) (create two_model memory).num_adversaries)
        0
        nodes
create-IsReady_example =
    create-IsReady milli-IsRounding still two_model memory (pos 100) (pos 100) 0 milli-IsOrdered
      refl refl (omega arith)

abbrev town_document : List (String × Attrs)
town_document =
    ("ScenarioInfo", [])
    ∷ ("Scenario", ("width", "+1111") ∷ ("height", "+1111") ∷ [])
    ∷ ("HotSpot", ("ID", "+1") ∷ [])
    ∷ ("HotSpot", ("ID", "+11") ∷ [])
    ∷ ("Connection", ("startSpot", "+1") ∷ ("endSpot", "+11") ∷ ("weight", "+111") ∷ [])
    ∷ []

abbrev spot_of : ℕ → List (Connection milli) → HotSpot milli
spot_of k ends = record {
  p = point milli (negsuc 999) (negsuc 999);
  radius = negsuc 999;
  id = pos k;
  connections = ends;
}

abbrev town : Scenario milli
town = record {
  buildings = [];
  hot_spots = spot_of 1 (record { end_spot = 1; weight = pos 3000 } ∷ []) ∷ spot_of 2 [] ∷ [];
  texts = [];
  width = pos 4000;
  height = pos 4000;
  border_type = negsuc 0;
}

parse_scenes-IsGraph_example : IsGraph town.hot_spots
unfolding init_scenario_parser scenario_start_element create_scenario create_hot_spot
    create_connection int_attr float_attr add_hot_spot add_connection find_spot init_scenario
parse_scenes-IsGraph_example = parse_scenes-IsGraph unary town_document town refl
