-- ===== src/Scenario/Queries.antt =====
-- class Scenario of momosecpp/src/Scenario.cpp, and class Building of momosecpp/src/Building.cpp.
use Prim.Native.String.{String}
use simulations.Base.{
  ℕ, Bool, ◌&&◌, if◌then◌else◌, ℤ, pos, eqb_ℤ, List, [], ◌∷◌, Option, some, none,
}
use simulations.Floats.{Floating}
use simulations.Geometry.{Point2D, Ray2D, between}
use simulations.Node.{Node, Color, color}
use simulations.Scenario.Shapes.{
  ScenCircle, ScenRectangle, circle_ray_intersect, circle_node_overlap, circle_point_overlap,
  rectangle_ray_intersect, rectangle_node_overlap, rectangle_point_overlap,
}

pub data Shape (F : Floating) : Type 0 where
  circle : ScenCircle F → Shape F
  rectangle : ScenRectangle F → Shape F

pub record Building (F : Floating) : Type 0 where
  pub shape : Shape F
  pub attenuation : F.Float
  pub name : String
  pub fill : Color
  pub border : Color

-- A connection of the spot that holds it, which is its startSpot. The end spot is known by its place
-- among the hot spots.
pub record Connection (F : Floating) : Type 0 where
  pub end_spot : ℕ
  pub weight : F.Float

pub record HotSpot (F : Floating) : Type 0 where
  pub p : Point2D F
  pub radius : F.Float
  pub id : ℤ
  pub connections : List (Connection F)

pub record ScenText (F : Floating) : Type 0 where
  pub p : Point2D F
  pub str : String
  pub point_color : Color
  pub str_color : Color
  pub rot : F.Float
  pub scale : F.Float

pub record Scenario (F : Floating) : Type 0 where
  pub buildings : List (Building F)
  pub hot_spots : List (HotSpot F)
  pub texts : List (ScenText F)
  pub width : F.Float
  pub height : F.Float
  pub border_type : ℤ

unfoldable pub init_building : (F : Floating) → Shape F → Building F
init_building F s = record {
  shape = s;
  attenuation = F.of_int (pos 0);
  name = "";
  fill = color (pos 128) (pos 128) (pos 128);
  border = color (pos 255) (pos 0) (pos 0);
}

-- Building::setAttenuation
unfoldable pub set_attenuation : (F : Floating) → Building F → F.Float → Building F
set_attenuation F b a = record b {
  attenuation =
      if F.flt (F.of_int (pos 1)) a
      then F.of_int (pos 1)
      else if F.flt a (F.of_int (pos 0))
      then F.of_int (pos 0)
      else a;
}

-- The test that calcCollision and getFirstCollision make on a parameter of the ray.
unfoldable pub hits : (F : Floating) → F.Float → Bool
hits F t = F.fle (F.of_int (pos 0)) t && F.fle t (F.of_int (pos 1))

module _ {F : Floating} where
  unfoldable pub shape_ray_intersect : Shape F → Ray2D F → F.Float
  unfolding circle_ray_intersect rectangle_ray_intersect
  shape_ray_intersect (circle s) ray = circle_ray_intersect F s ray
  shape_ray_intersect (rectangle s) ray = rectangle_ray_intersect F s ray

  unfoldable pub shape_node_overlap : Shape F → Node F → Bool
  unfolding circle_node_overlap rectangle_node_overlap
  shape_node_overlap (circle s) n = circle_node_overlap F s n
  shape_node_overlap (rectangle s) n = rectangle_node_overlap F s n

  unfoldable pub shape_point_overlap : Shape F → Point2D F → Bool
  unfolding circle_point_overlap rectangle_point_overlap
  shape_point_overlap (circle s) q = circle_point_overlap F s q
  shape_point_overlap (rectangle s) q = rectangle_point_overlap F s q

  unfoldable pub get_hot_spot : List (HotSpot F) → ℤ → Option (HotSpot F)
  get_hot_spot [] id = none
  get_hot_spot (s ∷ spots) id =
      let rest = get_hot_spot spots id in if eqb_ℤ s.id id then some s else rest

  unfoldable pub point_overlap : List (Building F) → Point2D F → Option (Building F)
  unfolding shape_point_overlap
  point_overlap [] q = none
  point_overlap (b ∷ bs) q =
      let rest = point_overlap bs q in if shape_point_overlap b.shape q then some b else rest

  unfoldable pub node_overlap : List (Building F) → Node F → Option (Building F)
  unfolding shape_node_overlap
  node_overlap [] n = none
  node_overlap (b ∷ bs) n =
      let rest = node_overlap bs n in if shape_node_overlap b.shape n then some b else rest

  unfoldable pub calc_collision : Building F → Ray2D F → Bool
  unfolding shape_ray_intersect hits
  calc_collision b ray = hits F (shape_ray_intersect b.shape ray)

  unfoldable pub get_collisions : List (Building F) → Ray2D F → List (Building F)
  unfolding calc_collision
  get_collisions [] ray = []
  get_collisions (b ∷ bs) ray =
      let rest = get_collisions bs ray in if calc_collision b ray then b ∷ rest else rest

  unfoldable pub sum_attenuation : List (Building F) → Ray2D F → F.Float → F.Float
  unfolding calc_collision
  sum_attenuation [] ray acc = acc
  sum_attenuation (b ∷ bs) ray acc =
      sum_attenuation bs ray (if calc_collision b ray then F.fadd acc b.attenuation else acc)

  unfoldable pub get_attenuation : List (Building F) → Point2D F → Point2D F → F.Float
  unfolding sum_attenuation
  get_attenuation bs start end =
      let ray : Ray2D F = record { o = start; d = between F start end } in
      let total = sum_attenuation bs ray (F.of_int (pos 0)) in
      if F.flt total (F.of_int (pos 1)) then total else F.of_int (pos 1)

  -- One step of the loop of getFirstCollision, on the parameter of the next building.
  unfoldable pub nearer :
      Building F → F.Float → Option (Building F) × F.Float → Option (Building F) × F.Float
  unfolding hits
  nearer b t (first, t_min) = if hits F t && F.fle t t_min then (some b, t) else (first, t_min)

  unfoldable pub first_loop :
      List (Building F) → Ray2D F → Option (Building F) × F.Float → Option (Building F) × F.Float
  unfolding nearer shape_ray_intersect
  first_loop [] ray best = best
  first_loop (b ∷ bs) ray best = first_loop bs ray (nearer b (shape_ray_intersect b.shape ray) best)

  unfoldable pub get_first_collision : List (Building F) → Ray2D F → Option (Building F)
  unfolding first_loop
  get_first_collision bs ray = (first_loop bs ray (none, F.of_int (pos 1))).0
