-- ===== src/Era/Walk.antt =====
-- The movement in the Era model: momosecpp/src/EraNode.cpp, whose walks are those of the nomadic, the
-- random-walk and the hot-spot nodes, and setup, think and coloring of momosecpp/src/EraModel.cpp.
pub mod Route
use simulations.Base.{
  ◌+◌, ℕ, zero, suc, ◌||◌, ◌==◌, Bool, true, false, if◌then◌else◌, List, [], ◌∷◌, ◌++◌, map, Option,
  none, some, ℤ, pos, pos_part,
}
use simulations.Floats.{Floating}
use simulations.Random.{Random}
use simulations.Geometry.{Point2D, point}
use simulations.Node.{Node, init_node, set_antenna_radius}
use simulations.Messages.Node.{◌>>=◌}
use simulations.Scenario.Queries.{HotSpot}
use simulations.Mobility.Walk.{random_velocity}
use simulations.Mobility.HotSpots.{HotSpotNode, spot_move}
use simulations.Mobility.Guide.{Guide, middle_point, move_reference_point}
use simulations.Mobility.Groups.{Follower, nomadic_node_think, each_from}
use simulations.Era.{EraNode, role_assignment}

pub record EraModel (F : Floating) : Type 0 where
  pub num_nodes : ℤ
  pub antenna_radius : F.Float
  pub nodes : List (EraNode F)
  pub guide : Guide F
  pub local_model_time : F.Float
  pub coloring_interval : F.Float

-- nodeRadius is stored and never read.
unfoldable pub init_era_model :
    (F : Floating) (num_nodes : ℤ)
    (antenna_radius pause_time coloring_interval v_min v_max : F.Float)
    → EraModel F
init_era_model F num_nodes antenna_radius pause_time coloring_interval v_min v_max = record {
  num_nodes = num_nodes;
  antenna_radius = antenna_radius;
  nodes = [];
  guide = record {
    reference_point = point F (F.of_int (pos 0)) (F.of_int (pos 0));
    target = point F (F.of_int (pos 0)) (F.of_int (pos 0));
    pause = true;
    local_time = F.of_int (pos 0);
    pause_time = pause_time;
    v_min = v_min;
    v_max = v_max;
  };
  local_model_time = F.of_int (pos 0);
  coloring_interval = coloring_interval;
}

module _ {F : Floating} where
  open F use {Float, of_int, literal, fadd, flt}

  -- The members that only the constructor sets: vMin, vMax, pauseInSpotTime, and alpha.
  abbrev pub spot_view : EraNode F → HotSpotNode F
  spot_view n = record {
    walker = record {
      body = n.body;
      local_time = n.local_time;
      pause_time = of_int (pos 5);
      v_min = of_int (pos 0);
      v_max = of_int (pos 5);
    };
    pause = n.pause_in_spot;
    target_spot = n.target_spot;
  }

  abbrev pub put_spot : EraNode F → HotSpotNode F → EraNode F
  put_spot n h = record n {
    body = h.walker.body;
    local_time = h.walker.local_time;
    pause_in_spot = h.pause;
    target_spot = h.target_spot;
  }

  abbrev pub follower_of : EraNode F → Follower F
  follower_of n = record {
    body = n.body;
    v_min = of_int (pos 0);
    v_max = of_int (pos 5);
    alpha = literal (pos 8) 1;
  }

  -- The radius is 0.5, whatever the model was asked for.
  unfoldable pub init_era_node : Float → ℕ → EraNode F
  unfolding init_node set_antenna_radius
  init_era_node antenna i =
      let p = of_int (pos (5 + i)) in
      record {
        handle = i;
        kind = 1;
        local_time = of_int (pos 0);
        pause_in_spot = true;
        target_spot = none;
        body = set_antenna_radius F (init_node F (point F p p) (literal (pos 5) 1)) antenna;
      }

  unfoldable pub era_setup : EraModel F → EraModel F
  unfolding init_era_node middle_point role_assignment
  era_setup m =
      let nodes = m.nodes ++ each_from (init_era_node m.antenna_radius) 0 (pos_part m.num_nodes) in
      record m {
        nodes = role_assignment nodes;
        guide = record m.guide { reference_point = middle_point F (map (λ n. n.body) nodes) };
      }

  unfoldable pub coloring : EraModel F → Float → EraModel F
  unfolding role_assignment
  coloring m dt =
      let m' =
        if flt m.coloring_interval m.local_model_time
        then record m { nodes = role_assignment m.nodes; local_model_time = of_int (pos 0) }
        else m in
      record m' { local_model_time = fadd m'.local_model_time dt }

module _ {F : Floating} (R : Random) where
  open F use {Float, of_int, fadd, flt}

  unfoldable pub nomadic_walk : EraNode F → Point2D F → Float → R.Rng → EraNode F × R.Rng
  unfolding nomadic_node_think
  nomadic_walk n ref_point dt rng =
      let (f, rng') = nomadic_node_think R (follower_of n) ref_point dt rng in
      (record n { body = f.body }, rng')

  unfoldable pub random_walk : EraNode F → Float → R.Rng → EraNode F × R.Rng
  unfolding random_velocity
  random_walk n dt rng =
      let (v, rng') = random_velocity F R (of_int (pos 0)) (of_int (pos 5)) dt rng in
      if flt (of_int (pos 1)) n.local_time || n.body.collided
      then (record n { body = record n.body { v = v }; local_time = of_int (pos 0) }, rng')
      else (n, rng)

  unfoldable pub hot_spot_walk :
      List (HotSpot F) → EraNode F → Float → R.Rng → Option (EraNode F × R.Rng)
  unfolding spot_move
  hot_spot_walk spots n dt rng =
      spot_move R spots (spot_view n) dt rng >>= λ r. some (put_spot n r.0, r.1)

  unfoldable pub era_walk :
      List (HotSpot F) → Point2D F → EraNode F → Float → R.Rng → Option (EraNode F × R.Rng)
  unfolding nomadic_walk random_walk hot_spot_walk
  era_walk spots ref_point n dt rng =
      let hot = hot_spot_walk spots n dt rng in
      if n.kind == 1
      then some (nomadic_walk n ref_point dt rng)
      else if n.kind == 2
      then some (random_walk n dt rng)
      else hot

  abbrev pub tick_node : Float → EraNode F × R.Rng → EraNode F × R.Rng
  tick_node dt r = (record r.0 { local_time = fadd r.0.local_time dt }, r.1)

  -- EraNode::think
  unfoldable pub era_node_think :
      List (HotSpot F) → Point2D F → EraNode F → Float → R.Rng → Option (EraNode F × R.Rng)
  unfolding era_walk
  era_node_think spots ref_point n dt rng =
      era_walk spots ref_point n dt rng >>= λ r. some (tick_node dt r)

  -- EraModel::think
  unfoldable pub era_think : EraModel F → Float → Float → Float → R.Rng → EraModel F × R.Rng
  unfolding coloring move_reference_point
  era_think m width height dt rng =
      let colored = coloring m dt in
      let (g, rng') = move_reference_point R colored.guide width height dt rng in
      (record colored { guide = g }, rng')

  -- AiManager::animateAI, on the nodes
  unfoldable pub era_move_all :
      List (HotSpot F)
      → Point2D F
      → List (EraNode F)
      → Float
      → R.Rng
      → Option (List (EraNode F) × R.Rng)
  unfolding era_node_think
  era_move_all spots ref_point [] dt rng = some ([], rng)
  era_move_all spots ref_point (n ∷ nodes) dt rng = era_node_think spots ref_point n dt rng >>= λ r.
      era_move_all spots ref_point nodes dt r.1 >>= λ rest. some (r.0 ∷ rest.0, rest.1)

  unfoldable pub era_step :
      List (HotSpot F) → EraModel F → Float → Float → Float → R.Rng → Option (EraModel F × R.Rng)
  unfolding era_think era_move_all
  era_step spots m width height dt rng =
      let (m', rng') = era_think m width height dt rng in
      era_move_all spots m'.guide.reference_point m'.nodes dt rng' >>= λ r.
      some (record m' { nodes = r.0 }, r.1)
