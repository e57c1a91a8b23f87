-- ===== src/Tests/Movement.antt =====
-- The theorems on the movement of the nodes, at two hot spots that are connected both ways.
use simulations.Base.{ℕ, ◌≡◌, refl, false, List, [], ◌∷◌, ℤ, pos, arith, some, get_elem?}
use simulations.Floats.{milli, milli-IsOrdered}
use simulations.Geometry.{point}
use simulations.Scenario.Queries.{HotSpot}
use simulations.Mobility.HotSpots.{HotSpotNode, away, nearest_spot, spot_think}
use simulations.Mobility.Spots.{IsNearest, nearest_spot-IsNearest}
use simulations.Mobility.Route.{IsRouted, spot_think-IsRouted}
use simulations.Tests.Sample.{still, body_at}

abbrev spot : ℤ → ℕ → HotSpot milli
spot x k = record {
  p = point milli x (pos 0);
  radius = pos 1000;
  id = pos 7;
  connections = record { end_spot = k; weight = pos 1000 } ∷ [];
}

abbrev spots : List (HotSpot milli)
spots = spot (pos 8000) 1 ∷ spot (pos 3000) 0 ∷ []

nearest_spot-IsNearest_example :
    (k : ℕ) × (t : HotSpot milli) × (nearest_spot spots (point milli (pos 0) (pos 0)) ≡ some k)
    × (get_elem? spots k ≡ some t)
    × IsNearest milli-IsOrdered
        (point milli (pos 0) (pos 0))
        (away (point milli (pos 0) (pos 0)) t)
        spots
nearest_spot-IsNearest_example =
    nearest_spot-IsNearest milli-IsOrdered (point milli (pos 0) (pos 0)) (spot (pos 8000) 1)
      (spot (pos 3000) 0 ∷ [])

abbrev visitor : HotSpotNode milli
visitor = record {
  walker = record {
    body = body_at (pos 0);
    local_time = pos 5000;
    pause_time = pos 2000;
    v_min = pos 1000;
    v_max = pos 5000;
  };
  pause = false;
  target_spot = some 1;
}

visitor-IsRouted : IsRouted 2 visitor
visitor-IsRouted = record { known = omega arith; bound = λ e. (1, refl) }

spot_think-IsRouted_example :
    (r : HotSpotNode milli × ℕ) × (spot_think still spots visitor (pos 1000) 0 ≡ some r)
    × IsRouted 2 r.0
spot_think-IsRouted_example =
    spot_think-IsRouted still spots visitor (pos 1000) 0
      ((omega arith, tt), ((omega arith, tt), tt)) visitor-IsRouted
