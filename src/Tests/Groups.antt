-- ===== src/Tests/Groups.antt =====
-- The theorems on groups of nodes and on the setup of their models, at small inputs.
use simulations.Base.{
  ℕ, some, none, ◌+◌, ◌≤◌, ◌<◌, ◌≡◌, ◌⊎◌, refl, true, false, List, [], ◌∷◌, ℤ, pos, All, length,
}
use simulations.Floats.{milli, milli-IsOrdered}
use simulations.Geometry.{point}
use simulations.Node.{Node}
use simulations.Scenario.Queries.{HotSpot}
use simulations.Era.{EraNode}
use simulations.Era.Walk.{EraModel, era_step}
use simulations.Era.Walk.Route.{Routed, StayRouted, era_step-StayRouted}
use simulations.Messages.Waypoint.{
  WaypointMessageNode, message_waypoint_think, view, waypoint_of, message_waypoint_think-view,
}
use simulations.Mobility.Walk.{waypoint_think}
use simulations.Mobility.Guide.{extent_of}
use simulations.Mobility.Guide.Extents.{Covers, extent_of-Covers, extent_of-y_min}
use simulations.Mobility.Setups.{SimpleModel, random_walk_setup, length-random_walk_setup}
use simulations.Tests.Sample.{still, body_at, sender_node}

abbrev high : ℤ → ℤ → Node milli
high x y = record (body_at x) { position = point milli x y }

abbrev crowd : List (Node milli)
crowd = high (pos 3000) (pos 9000) ∷ high (pos 1000) (pos 5000) ∷ high (pos 4000) (pos 7000) ∷ []

extent_of-Covers_example : All (Covers milli-IsOrdered (extent_of milli crowd)) crowd
extent_of-Covers_example = extent_of-Covers milli-IsOrdered crowd

extent_of-y_min_example : (extent_of milli crowd).y_min ≡ pos 9000
extent_of-y_min_example =
    extent_of-y_min milli-IsOrdered (high (pos 3000) (pos 9000))
      (high (pos 1000) (pos 5000) ∷ high (pos 4000) (pos 7000) ∷ []) (refl, (refl, (refl, tt)))

abbrev walkers : SimpleModel milli
walkers = record {
  num_nodes = pos 40;
  node_radius = pos 500;
  antenna_radius = pos 5000;
  pause_time = pos 1000;
  v_min = pos 0;
  v_max = pos 5000;
  physical = false;
}

length-random_walk_setup_example :
    ((40 < 30) × (length (random_walk_setup walkers) ≡ 30))
    ⊎ ((30 ≤ 40)
        × (length (random_walk_setup walkers) ≤ 40)
        × (40 < length (random_walk_setup walkers) + 30))
length-random_walk_setup_example = length-random_walk_setup walkers 40 refl

abbrev traveller : WaypointMessageNode milli
traveller = record {
  node = record sender_node { local_time = pos 3000 };
  pause = true;
  target = point milli (pos 0) (pos 0);
}

message_waypoint_think-view_example :
    view still (message_waypoint_think still traveller (pos 20000) (pos 20000) (pos 1000) 0)
    ≡ waypoint_think milli still (waypoint_of still traveller) (pos 20000) (pos 20000) (pos 1000) 0
message_waypoint_think-view_example =
    message_waypoint_think-view still traveller (pos 20000) (pos 20000) (pos 1000) 0

abbrev stop : HotSpot milli
stop = record {
  p = point milli (pos 8000) (pos 0);
  radius = pos 1000;
  id = pos 7;
  connections = [];
}

abbrev wanderer : EraNode milli
wanderer = record {
  handle = 0;
  kind = 3;
  local_time = pos 6000;
  pause_in_spot = true;
  target_spot = none;
  body = body_at (pos 0);
}

abbrev era : EraModel milli
era = record {
  num_nodes = pos 1;
  antenna_radius = pos 5000;
  nodes = wanderer ∷ [];
  guide = record {
    reference_point = point milli (pos 0) (pos 0);
    target = point milli (pos 0) (pos 0);
    pause = true;
    local_time = pos 0;
    pause_time = pos 1000;
    v_min = pos 0;
    v_max = pos 5000;
  };
  local_model_time = pos 0;
  coloring_interval = pos 10000;
}

wanderer-Routed : Routed 1 wanderer
wanderer-Routed = record { known = tt; bound = λ e. cc }

era_step-StayRouted_example :
    (r : EraModel milli × ℕ) × (era_step still (stop ∷ []) era (pos 20000) (pos 20000) (pos 1000) 0
      ≡ some r)
    × StayRouted 1 era.nodes r.0.nodes
era_step-StayRouted_example =
    era_step-StayRouted still (stop ∷ []) era (pos 20000) (pos 20000) (pos 1000) 0 (tt, tt)
      (wanderer-Routed, tt)
