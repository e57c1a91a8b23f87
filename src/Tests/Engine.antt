-- ===== src/Tests/Engine.antt =====
-- The theorems on the main loop, the physics and the scenario, at small inputs.
use simulations.Base.{
  ℕ, suc, ◌+◌, ◌≤◌, ◌≡◌, refl, Bool, true, false, List, [], ◌∷◌, ℤ, pos, arith, some, none, length,
  All, In, ◌⊎◌, ◌+ℤ◌,
}
use simulations.Floats.{milli, milli-IsOrdered}
use simulations.Geometry.{point, vector, Ray2D}
use simulations.Node.{Node, color}
use simulations.Scenario.Queries.{Building, Scenario, circle, hits, get_first_collision}
use simulations.Scenario.Nearest
use simulations.Simulation.Clock.{SimTime, to_hundredths, up_time, down_time, set_time}
use simulations.Simulation.Cycle.{AiManager, simulation_cicle}
use simulations.Simulation.Ending.{
  ticks, bodies, Passes, simulation_cicle-ends, simulation_cicle-stuck,
}
use simulations.Simulation.Physics.{
  PhysicalObject, PhysicEngine, node_at, fixed, node_intersect, animate_physic,
}
use simulations.Simulation.Collision
use simulations.Simulation.Totality.{MovedInTurn, animate_physic-total}
use simulations.Tests.Sample.{body_at}

-- The state counts thoughts and records.
abbrev counter : AiManager milli ℕ
counter = record { thinkers = (λ st w. suc w) ∷ []; thinkers_models = [] }

abbrev recorders : List (SimTime milli → ℕ → ℕ)
recorders = (λ st w. w + 10) ∷ []

abbrev physic : ℕ → ℕ
physic w = w

abbrev always : ℕ → Bool
always i = true

-- Three seconds in steps of one second.
abbrev seconds : SimTime milli
seconds = record { total = pos 3000; dt = pos 1000; n = pos 3; loop = pos 0; time = pos 0 }

simulation_cicle-ends_example :
    (n : ℕ) × (simulation_cicle counter recorders physic always 9 seconds 0
      ≡ some
          (down_time milli (ticks n seconds), bodies counter recorders physic always n seconds 0))
    × (n ≤ 4)
    × Passes counter recorders physic always 0 n seconds
unfolding up_time set_time to_hundredths ◌+ℤ◌
simulation_cicle-ends_example =
    simulation_cicle-ends counter recorders physic always 4 9 seconds 0 refl (omega arith)

-- Steps of four milliseconds are rounded away.
abbrev stuck : SimTime milli
stuck = record { total = pos 3000; dt = pos 4; n = pos 750; loop = pos 0; time = pos 0 }

simulation_cicle-stuck_example :
    simulation_cicle counter recorders physic always 1000 stuck 0 ≡ none
unfolding to_hundredths ◌+ℤ◌
simulation_cicle-stuck_example =
    simulation_cicle-stuck counter recorders physic always 1000 stuck 0 refl refl (λ i. refl)

abbrev nodes : List (Node milli)
nodes = body_at (pos 0) ∷ body_at (pos 2000) ∷ []

abbrev objects : List (PhysicalObject milli)
objects = node_at 0 ∷ node_at 1 ∷ []

abbrev moving : Node milli
moving = body_at (pos 0)

abbrev pts : List ℤ
pts = node_intersect (body_at (pos 2000)) moving ∷ []

abbrev pillar : Building milli
pillar = record {
  shape = circle (record { p = point milli (pos 5000) (pos 0); radius = pos 1000 });
  attenuation = pos 500;
  name = "pillar";
  fill = color (pos 128) (pos 128) (pos 128);
  border = color (pos 255) (pos 0) (pos 0);
}

abbrev small : Scenario milli
small = record {
  buildings = pillar ∷ [];
  hot_spots = [];
  texts = [];
  width = pos 20000;
  height = pos 20000;
  border_type = pos 1;
}

abbrev engine : PhysicEngine milli
engine = record { nodes = nodes; physical_objs = fixed pillar.shape ∷ objects }

animate_physic-total_example :
    (e' : PhysicEngine milli) × (animate_physic small engine ≡ some e')
    × MovedInTurn (pos 1) engine.physical_objs [] nodes e'.nodes
    × (length e'.nodes ≡ 2)
    × (e'.physical_objs ≡ fixed pillar.shape ∷ objects)
animate_physic-total_example =
    animate_physic-total small engine (tt, (omega arith, (omega arith, tt)))

abbrev ray : Ray2D milli
ray = record { o = point milli (pos 0) (pos 0); d = vector milli (pos 8000) (pos 0) }

get_first_collision-nearest_example :
    ((get_first_collision (pillar ∷ []) ray ≡ none)
      × All (λ c. hits milli (Nearest.meets milli-IsOrdered ray c) ≡ false) (pillar ∷ []))
    ⊎ ((b : Building milli) × (get_first_collision (pillar ∷ []) ray ≡ some b)
        × In b (pillar ∷ [])
        × (hits milli (Nearest.meets milli-IsOrdered ray b) ≡ true)
        × Nearest.IsFirst milli-IsOrdered ray (Nearest.meets milli-IsOrdered ray b) (pillar ∷ []))
get_first_collision-nearest_example =
    Nearest.get_first_collision-nearest milli-IsOrdered ray (pillar ∷ [])
