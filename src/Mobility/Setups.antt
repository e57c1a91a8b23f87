-- ===== src/Mobility/Setups.antt =====
-- The models of simple nodes: momosecpp/src/SimpleModel.cpp, and the setup of RandomWalkModel.cpp,
-- RandomWaypointModel.cpp and HotSpotModel.cpp. A model is asked for a number of nodes.
use simulations.Base.{
  ℕ, zero, suc, ◌+◌, ◌*◌, ◌/◌, ◌≤◌, ◌<◌, ◌≡◌, ◌∙◌, ◌⊎◌, inl, inr, refl, ap, arith, Bool, true,
  false, none, List, [], ◌++◌, if◌then◌else◌, ◌==◌, length, length-append, ℤ, pos, negsuc, pos_part,
}
use simulations.Floats.{Floating}
use simulations.Geometry.{point}
use simulations.Node.{Node, color, init_node, set_antenna_radius}
use simulations.Mobility.Walk.{Walker, Waypoint}
use simulations.Mobility.HotSpots.{HotSpotNode}
use simulations.Mobility.Groups.{each_from, line_node}

pub record SimpleModel (F : Floating) : Type 0 where
  pub num_nodes : ℤ
  pub node_radius : F.Float
  pub antenna_radius : F.Float
  pub pause_time : F.Float
  pub v_min : F.Float
  pub v_max : F.Float
  pub physical : Bool

-- numNodes/30, which is cut towards zero, with 1 for 0. A negative number runs no loop.
unfoldable pub num_groups : ℤ → ℕ
num_groups (pos n) = if (n / 30) == 0 then 1 else n / 30
num_groups (negsuc n) = if (suc n / 30) == 0 then 1 else 0

unfoldable pub init_simple_model : (F : Floating) → SimpleModel F
init_simple_model F = record {
  num_nodes = pos 10;
  node_radius = F.literal (pos 5) 1;
  antenna_radius = F.fmul (F.literal (pos 5) 1) (F.of_int (pos 10));
  pause_time = F.of_int (pos 1);
  v_min = F.of_int (pos 0);
  v_max = F.of_int (pos 5);
  physical = false;
}

module _ {F : Floating} where
  open F use {Float, of_int}

  unfoldable pub simple_set_model :
      SimpleModel F
      → (num_nodes : ℤ) (node_radius antenna_radius pause_time v_min v_max : Float)
        (physical : Bool)
      → SimpleModel F
  simple_set_model m n nr ar pause lo hi phys = record m {
    num_nodes = n;
    node_radius = nr;
    antenna_radius = ar;
    pause_time = pause;
    v_min = lo;
    v_max = hi;
    physical = phys;
  }

  abbrev pub walker_of : SimpleModel F → Node F → Walker F
  walker_of m body = record {
    body = body;
    local_time = of_int (pos 0);
    pause_time = m.pause_time;
    v_min = m.v_min;
    v_max = m.v_max;
  }

  unfoldable pub grid_node : SimpleModel F → ℕ → ℕ → Walker F
  unfolding init_node set_antenna_radius
  grid_node m i j = walker_of m (
      set_antenna_radius F
        (record (init_node F (point F (of_int (pos (j + 25))) (of_int (pos (i + 25))))
          m.node_radius) { tint = color (pos 0) (pos 0) (pos 255) })
        m.antenna_radius)

  -- The outer loop of RandomWalkModel::setup, from group `i`.
  unfoldable pub grid_from : SimpleModel F → ℕ → ℕ → List (Walker F)
  unfolding grid_node
  grid_from m i zero = []
  grid_from m i (suc left) = each_from (grid_node m i) 0 30 ++ grid_from m (suc i) left

  unfoldable pub random_walk_setup : SimpleModel F → List (Walker F)
  unfolding grid_from num_groups
  random_walk_setup m = grid_from m 0 (num_groups m.num_nodes)

  unfoldable pub random_waypoint_setup : SimpleModel F → List (Waypoint F)
  unfolding line_node
  random_waypoint_setup m =
      each_from
        (λ i. record {
          walker =
              walker_of m
                (line_node F m.node_radius m.antenna_radius (color (pos 0) (pos 255) (pos 255)) i);
          pause = true;
          target = point F (of_int (pos 0)) (of_int (pos 0));
        })
        0 (pos_part m.num_nodes)

  unfoldable pub hot_spot_setup : SimpleModel F → List (HotSpotNode F)
  unfolding line_node
  hot_spot_setup m =
      each_from
        (λ i. record {
          walker =
              walker_of m
                (line_node F m.node_radius m.antenna_radius (color (pos 255) (pos 255) (pos 0)) i);
          pause = true;
          target_spot = none;
        })
        0 (pos_part m.num_nodes)

groups_cases :
    (n : ℕ) → ((n < 30) × (num_groups (pos n) ≡ 1)) ⊎ ((30 ≤ n) × (num_groups (pos n) ≡ n / 30))
unfolding num_groups
groups_cases n = ground arith

length-each_from : {A : Type 0} (make : ℕ → A) (i left : ℕ) → length (each_from make i left) ≡ left
length-each_from make i zero = refl
length-each_from make i (suc left) = ap suc (length-each_from make (suc i) left)

module _ {F : Floating} where
  length-grid_from : (m : SimpleModel F) (i left : ℕ) → length (grid_from m i left) ≡ 30 * left
  unfolding grid_from
  length-grid_from m i zero = refl
  length-grid_from m i (suc left) = omega (
    arith,
    length-append (each_from (grid_node m i) 0 30) (grid_from m (suc i) left),
    length-each_from (grid_node m i) 0 30,
    length-grid_from m (suc i) left,
  )

  -- Asked for a number of nodes that is not negative, the setup of a RandomWalkModel makes 30
  -- nodes if it is below 30, and else at most as many as asked for, by less than 30 too few.
  pub length-random_walk_setup :
      (m : SimpleModel F) (n : ℕ)
      → m.num_nodes ≡ pos n
      → ((n < 30) × (length (random_walk_setup m) ≡ 30))
        ⊎ ((30 ≤ n) × (length (random_walk_setup m) ≤ n) × (n < length (random_walk_setup m) + 30))
  unfolding random_walk_setup
  length-random_walk_setup m n asked =
      let made : length (random_walk_setup m) ≡ 30 * num_groups (pos n) =
        length-grid_from m 0 (num_groups m.num_nodes) ∙ ap (λ k. 30 * num_groups k) asked in
      elim (groups_cases n) [
        | inl (few, one) ↦ inl (few, rw (made, one) refl)
        | inr (many, groups) ↦ inr (many, omega (arith, made, groups), omega (arith, made, groups))
      ]
