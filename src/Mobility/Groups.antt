-- ===== src/Mobility/Groups.antt =====
-- The nodes that follow something: momosecpp/src/NomadicNode.cpp, which follows a reference point, and
-- momosecpp/src/PursueNode.cpp, which follows a node; and the models of both.
use simulations.Base.{
  ℕ, zero, suc, ◌+◌, Bool, true, false, List, [], ◌∷◌, ◌++◌, if◌then◌else◌, map, ℤ, pos, pos_part,
}
use simulations.Floats.{Floating}
use simulations.Random.{Random, rand_between}
use simulations.Geometry.{Point2D, Vector2D, point, vector, minus, plus, scaled, normalize}
use simulations.Node.{Node, Color, color, init_node, set_antenna_radius}
use simulations.Mobility.Walk.{Waypoint, signed_draw, random_velocity}
use simulations.Mobility.Guide.{Guide, middle_point, move_reference_point}

-- NomadicNode and PursueNode, less what they follow.
pub record Follower (F : Floating) : Type 0 where
  pub body : Node F
  pub v_min : F.Float
  pub v_max : F.Float
  pub alpha : F.Float

pub record NomadicModel (F : Floating) : Type 0 where
  pub num_nodes : ℤ
  pub node_radius : F.Float
  pub antenna_radius : F.Float
  pub alpha : F.Float
  pub physical : Bool
  pub guide : Guide F
  pub nodes : List (Follower F)

pub record PursueModel (F : Floating) : Type 0 where
  pub num_nodes : ℤ
  pub node_radius : F.Float
  pub antenna_radius : F.Float
  pub alpha : F.Float
  pub v_min : F.Float
  pub v_max : F.Float
  pub target_radius : F.Float
  pub physical : Bool

-- The nodes of the loop `for(int i=0;i<numNodes;i++)`, from `i`.
abbrev pub each_from : {A : Type 0} → (ℕ → A) → ℕ → ℕ → List A
each_from make i zero = []
each_from make i (suc left) = make i ∷ each_from make (suc i) left

module _ (F : Floating) where
  open F use {Float, of_int, literal, fmul}

  -- A new node at (5 + i, 5 + i), with its colour and antenna.
  unfoldable pub line_node : Float → Float → Color → ℕ → Node F
  unfolding init_node set_antenna_radius
  line_node radius antenna tint i =
      let p = of_int (pos (5 + i)) in
      set_antenna_radius F (record (init_node F (point F p p) radius) { tint = tint }) antenna

  unfoldable pub init_nomadic_model : NomadicModel F → NomadicModel F
  init_nomadic_model memory = record memory {
    alpha = literal (pos 7) 1;
    physical = false;
    guide = record {
      reference_point = point F (of_int (pos 0)) (of_int (pos 0));
      target = point F (of_int (pos 0)) (of_int (pos 0));
      pause = true;
      local_time = of_int (pos 0);
      pause_time = of_int (pos 5);
      v_min = of_int (pos 1);
      v_max = of_int (pos 5);
    };
    nodes = [];
  }

  unfoldable pub init_pursue_model : PursueModel F
  init_pursue_model = record {
    num_nodes = pos 10;
    node_radius = literal (pos 5) 1;
    antenna_radius = fmul (literal (pos 5) 1) (of_int (pos 10));
    alpha = literal (pos 5) 1;
    v_min = of_int (pos 0);
    v_max = of_int (pos 5);
    target_radius = literal (pos 5) 1;
    physical = false;
  }

module _ {F : Floating} where
  open F use {Float, of_int}

  unfoldable pub nomadic_set_model :
      NomadicModel F
      → (num_nodes : ℤ) (node_radius antenna_radius alpha v_min v_max pause_time : Float)
        (physical : Bool)
      → NomadicModel F
  nomadic_set_model m n nr ar a lo hi pause phys = record m {
    num_nodes = n;
    node_radius = nr;
    antenna_radius = ar;
    alpha = a;
    physical = phys;
    guide = record m.guide { v_min = lo; v_max = hi; pause_time = pause };
  }

  nomadic_node : NomadicModel F → ℕ → Follower F
  unfolding line_node
  nomadic_node m i = record {
    body = line_node F m.node_radius m.antenna_radius (color (pos 0) (pos 128) (pos 255)) i;
    v_min = m.guide.v_min;
    v_max = m.guide.v_max;
    alpha = m.alpha;
  }

  unfoldable pub nomadic_setup : NomadicModel F → NomadicModel F
  unfolding nomadic_node middle_point
  nomadic_setup m =
      let nodes = m.nodes ++ each_from (nomadic_node m) 0 (pos_part m.num_nodes) in
      record m {
        nodes = nodes;
        guide = record m.guide { reference_point = middle_point F (map (λ n. n.body) nodes) };
      }

  unfoldable pub pursue_set_model :
      PursueModel F
      → (num_nodes : ℤ) (node_radius antenna_radius alpha v_min v_max target_radius : Float)
        (physical : Bool)
      → PursueModel F
  pursue_set_model m n nr ar a lo hi tr phys = record m {
    num_nodes = n;
    node_radius = nr;
    antenna_radius = ar;
    alpha = a;
    v_min = lo;
    v_max = hi;
    target_radius = tr;
    physical = phys;
  }

  pursue_node : PursueModel F → ℕ → Follower F
  unfolding line_node
  pursue_node m i = record {
    body = line_node F m.node_radius m.antenna_radius (color (pos 255) (pos 0) (pos 255)) i;
    v_min = m.v_min;
    v_max = m.v_max;
    alpha = m.alpha;
  }

  -- The node that is pursued, which is a waypoint node, and those that pursue it.
  unfoldable pub pursue_setup : PursueModel F → Waypoint F × List (Follower F)
  unfolding pursue_node init_node set_antenna_radius
  pursue_setup m = (
    record {
      walker = record {
        body =
            set_antenna_radius F
              (record (init_node F (point F (of_int (pos 15)) (of_int (pos 10))) m.target_radius) {
                tint = color (pos 0) (pos 0) (pos 0);
              })
              m.antenna_radius;
        local_time = of_int (pos 0);
        pause_time = F.literal (pos 1) 0;
        v_min = of_int (pos 0);
        v_max = of_int (pos 5);
      };
      pause = true;
      target = point F (of_int (pos 0)) (of_int (pos 0));
    },
    each_from (pursue_node m) 0 (pos_part m.num_nodes),
  )

module _ {F : Floating} (R : Random) where
  open F use {Float, of_int, fsub}

  unfoldable pub random_unit_vector : Follower F → R.Rng → Vector2D F × R.Rng
  unfolding signed_draw
  random_unit_vector n rng =
      let (a, rng') = signed_draw F R n.v_min n.v_max rng in
      let (b, rng'') = signed_draw F R n.v_min n.v_max rng' in (vector F a b, rng'')

  -- The way to the point and a random way, weighted by alpha.
  follow : Follower F → Point2D F → Float → R.Rng → Vector2D F × R.Rng
  unfolding random_unit_vector
  follow n ref_point dt rng =
      let (velocity, rng') = rand_between F R n.v_min n.v_max rng in
      let to_target = scaled F (normalize F (minus F ref_point n.body.position)) velocity in
      let (random, rng'') = random_unit_vector n rng' in
      let rest = scaled F (scaled F random velocity) (fsub (of_int (pos 1)) n.alpha) in
      (scaled F (plus F (scaled F to_target n.alpha) rest) dt, rng'')

  unfoldable pub nomadic_node_think : Follower F → Point2D F → Float → R.Rng → Follower F × R.Rng
  unfolding follow random_velocity
  nomadic_node_think n ref_point dt rng =
      let (v, rng') =
        if n.body.collided
        then random_velocity F R n.v_min n.v_max dt rng
        else follow n ref_point dt rng in
      (record n { body = record n.body { v = v } }, rng')

  unfoldable pub pursue_node_think : Follower F → Node F → Float → R.Rng → Follower F × R.Rng
  unfolding nomadic_node_think
  pursue_node_think n reference dt rng = nomadic_node_think n reference.position dt rng

  unfoldable pub nomadic_think :
      NomadicModel F → Float → Float → Float → R.Rng → NomadicModel F × R.Rng
  unfolding move_reference_point
  nomadic_think m width height dt rng =
      let (g, rng') = move_reference_point R m.guide width height dt rng in
      (record m { guide = g }, rng')
