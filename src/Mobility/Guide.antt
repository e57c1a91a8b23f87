-- ===== src/Mobility/Guide.antt =====
-- The reference point that a group of nodes follows: NomadicModel (momosecpp/src/NomadicModel.cpp),
-- and the methods of the same names in momosecpp/src/EraModel.cpp, which are the same code.
pub mod Extents
use simulations.Base.{Bool, true, false, List, [], ◌∷◌, if◌then◌else◌, pos}
use simulations.Floats.{Floating}
use simulations.Random.{Random, rand_between}
use simulations.Geometry.{
  Point2D, Vector2D, point, distance, translate, minus, scaled, unit_vector, get_length,
}
use simulations.Node.{Node}
use simulations.Mobility.Walk.{generate_target}

pub record Guide (F : Floating) : Type 0 where
  pub reference_point : Point2D F
  pub target : Point2D F
  pub pause : Bool
  pub local_time : F.Float
  pub pause_time : F.Float
  pub v_min : F.Float
  pub v_max : F.Float

pub record Extent (F : Floating) : Type 0 where
  pub x_min : F.Float
  pub x_max : F.Float
  pub y_min : F.Float
  pub y_max : F.Float

module _ (F : Floating) where
  open F use {Float, of_int, fadd, fmul, fdiv, flt, fle}

  -- The body of the loop of middlePoint. The third test compares `y` with `x_min`, as it then is.
  unfoldable pub extend : Extent F → Node F → Extent F
  extend e n =
      let x_min = if flt n.position.x e.x_min then n.position.x else e.x_min in
      record {
        x_min = x_min;
        x_max = if flt e.x_max n.position.x then n.position.x else e.x_max;
        y_min = if flt n.position.y x_min then n.position.y else e.y_min;
        y_max = if flt e.y_max n.position.y then n.position.y else e.y_max;
      }

  unfoldable pub extend_all : Extent F → List (Node F) → Extent F
  unfolding extend
  extend_all e [] = e
  extend_all e (n ∷ nodes) = extend_all (extend e n) nodes

  abbrev pub at_node : Node F → Extent F
  at_node n = record {
    x_min = n.position.x;
    x_max = n.position.x;
    y_min = n.position.y;
    y_max = n.position.y;
  }

  unfoldable pub extent_of : List (Node F) → Extent F
  unfolding extend_all
  extent_of [] = record {
    x_min = of_int (pos 0);
    x_max = of_int (pos 0);
    y_min = of_int (pos 0);
    y_max = of_int (pos 0);
  }
  extent_of (n ∷ nodes) = extend_all (at_node n) (n ∷ nodes)

  unfoldable pub middle_point : List (Node F) → Point2D F
  unfolding extent_of
  middle_point nodes =
      let e = extent_of nodes in
      point F (fdiv (fadd e.x_min e.x_max) (of_int (pos 2)))
        (fdiv (fadd e.y_min e.y_max) (of_int (pos 2)))

module _ {F : Floating} (R : Random) where
  open F use {Float, of_int, fadd, flt, fle}

  -- finalDist<=1
  arrive : Guide F → Guide F
  arrive g =
      if fle (distance F g.reference_point g.target) (of_int (pos 1))
      then record g { pause = true; local_time = of_int (pos 0) }
      else g

  unfoldable pub guide_move_to_target : Guide F → Float → R.Rng → Guide F × R.Rng
  unfolding arrive
  guide_move_to_target g dt rng =
      let to_target = minus F g.target g.reference_point in
      let (velocity, rng') = rand_between F R g.v_min g.v_max rng in
      let act = scaled F (scaled F (unit_vector F to_target) velocity) dt in
      let near = fle (distance F g.reference_point g.target) (get_length F act) in
      let p = translate F g.reference_point (if near then to_target else act) in
      (arrive (record g { reference_point = p }), rng')

  unfoldable pub guide_generate_target : Guide F → Float → Float → R.Rng → Guide F × R.Rng
  guide_generate_target g width height rng =
      let (p, rng') = generate_target F R width height rng in (record g { target = p }, rng')

  guide_set_out : Guide F → Float → Float → Float → R.Rng → Guide F × R.Rng
  unfolding guide_generate_target guide_move_to_target
  guide_set_out g width height dt rng =
      let (g', rng') = guide_generate_target (record g { pause = false }) width height rng in
      guide_move_to_target g' dt rng'

  guide_step : Guide F → Float → Float → Float → R.Rng → Guide F × R.Rng
  unfolding guide_set_out guide_move_to_target
  guide_step g width height dt rng =
      if g.pause
      then if flt g.pause_time g.local_time then guide_set_out g width height dt rng else (g, rng)
      else guide_move_to_target g dt rng

  -- NomadicModel::think and EraModel::moveReferencePoint
  unfoldable pub move_reference_point : Guide F → Float → Float → Float → R.Rng → Guide F × R.Rng
  unfolding guide_step
  move_reference_point g width height dt rng =
      let (g', rng') = guide_step g width height dt rng in
      (record g' { local_time = fadd g'.local_time dt }, rng')
