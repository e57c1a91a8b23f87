-- ===== src/Scenario/Shapes.antt =====
-- momosecpp/src/ScenCircle.cpp and momosecpp/src/ScenRectangle.cpp.
use simulations.Base.{Bool, ◌&&◌, ◌||◌, if◌then◌else◌, pos, negsuc, not}
use simulations.Floats.{Floating}
use simulations.Geometry.{
  Point2D, Vector2D, Ray2D, point, vector, between, distance, translate, scaled, scalar_product,
  normalize, is_zero, rotate_point, rotate_vector,
}
use simulations.Node.{Node, move_by}

pub record ScenCircle (F : Floating) : Type 0 where
  pub p : Point2D F
  pub radius : F.Float

pub record ScenRectangle (F : Floating) : Type 0 where
  pub p : Point2D F
  pub width : F.Float
  pub height : F.Float
  pub rot_angle : F.Float

module _ (F : Floating) where
  open F use {Float, of_int, literal, fadd, fsub, fmul, fdiv, fneg, flt, fle, feq, sqrt, fabs}

  minus_one : Float
  minus_one = of_int (negsuc 0)

  -- The root of the quadratic, from the coefficients `a`, `b` and the discriminant.
  circle_root : Float → Float → Float → Float
  circle_root a b delta = fabs (fdiv (fsub (fneg b) (sqrt delta)) (fmul (of_int (pos 2)) a))

  circle_quadratic : Float → Float → Float → Float
  unfolding circle_root minus_one
  circle_quadratic a b c =
      let delta = fsub (fmul b b) (fmul (fmul (of_int (pos 4)) a) c) in
      if flt delta (of_int (pos 0)) then minus_one else circle_root a b delta

  unfoldable pub circle_ray_intersect : ScenCircle F → Ray2D F → Float
  unfolding circle_quadratic minus_one
  circle_ray_intersect s ray =
      let d = between F s.p ray.o in
      let vd = scalar_product F ray.d d in
      if is_zero F ray.d
      then minus_one
      else if flt (of_int (pos 0)) vd
      then minus_one
      else circle_quadratic (scalar_product F ray.d ray.d) (fmul (of_int (pos 2)) vd)
          (fsub (scalar_product F d d) (fmul s.radius s.radius))

  unfoldable pub circle_node_overlap : ScenCircle F → Node F → Bool
  circle_node_overlap s n = fle (distance F s.p n.position) (fadd s.radius n.radius)

  unfoldable pub circle_point_overlap : ScenCircle F → Point2D F → Bool
  circle_point_overlap s q = fle (distance F s.p q) s.radius

  push_out : ScenCircle F → Node F → Node F
  push_out s n =
      move_by F n
        (scaled F (normalize F (between F s.p n.position)) (fadd n.radius (literal (pos 1) 2)))

  -- A node that overlaps is pushed out; the ray is that of the node as it then is.
  unfoldable pub circle_intersect : ScenCircle F → Node F → Node F × Float
  unfolding push_out circle_node_overlap circle_ray_intersect
  circle_intersect s n =
      let n' = if circle_node_overlap s n then push_out s n else n in
      (
        n',
        circle_ray_intersect (record { p = s.p; radius = fadd s.radius n'.radius })
            (record { o = n'.position; d = n'.v }),
      )

  to_local : ScenRectangle F → Point2D F → Point2D F
  to_local s q =
      rotate_point F (translate F q (vector F (fneg s.p.x) (fneg s.p.y))) (fneg s.rot_angle)

  unfoldable pub transform_ray : ScenRectangle F → Ray2D F → Ray2D F
  unfolding to_local
  transform_ray s ray = record {
    o = to_local s ray.o;
    d = rotate_vector F ray.d (fneg s.rot_angle);
  }

  -- The entry and the exit of one axis, of a side of the length `size`.
  enter : Float → Float → Float → Float
  enter size o d =
      if fle (of_int (pos 0)) d then fdiv (fsub (of_int (pos 0)) o) d else fdiv (fsub size o) d

  leave : Float → Float → Float → Float
  leave size o d =
      if fle (of_int (pos 0)) d then fdiv (fsub size o) d else fdiv (fsub (of_int (pos 0)) o) d

  unfoldable pub ray_box_internal_intersect : ScenRectangle F → Ray2D F → Float
  unfolding enter leave minus_one
  ray_box_internal_intersect s r =
      let t_min = enter s.width r.o.x r.d.x in
      let t_max = leave s.width r.o.x r.d.x in
      let ty_min = enter s.height r.o.y r.d.y in
      let ty_max = leave s.height r.o.y r.d.y in
      if flt ty_max t_min || flt t_max ty_min
      then minus_one
      else if flt t_min ty_min
      then ty_min
      else t_min

  -- A ray along one axis: within the other side, it meets the side of the length `size`.
  along : Float → Float → Float → Float → Float → Float
  unfolding enter minus_one
  along across size a o d =
      if fle (of_int (pos 0)) a && fle a across then enter size o d else minus_one

  unfoldable pub ray_local_intersect : ScenRectangle F → Ray2D F → Float
  unfolding along minus_one ray_box_internal_intersect
  ray_local_intersect s ray =
      if feq ray.d.x (of_int (pos 0))
      then if not (feq ray.d.y (of_int (pos 0)))
        then along s.width s.height ray.o.x ray.o.y ray.d.y
        else minus_one
      else if feq ray.d.y (of_int (pos 0))
      then along s.height s.width ray.o.y ray.o.x ray.d.x
      else ray_box_internal_intersect s ray

  unfoldable pub rectangle_ray_intersect : ScenRectangle F → Ray2D F → Float
  unfolding transform_ray ray_local_intersect
  rectangle_ray_intersect s ray = ray_local_intersect s (transform_ray s ray)

  unfoldable pub rectangle_node_overlap : ScenRectangle F → Node F → Bool
  unfolding to_local
  rectangle_node_overlap s n =
      let q = to_local s n.position in
      (fle (fneg n.radius) q.x && fle q.x (fadd s.width n.radius))
      && (fle (fneg n.radius) q.y && fle q.y (fadd s.height n.radius))

  unfoldable pub rectangle_point_overlap : ScenRectangle F → Point2D F → Bool
  unfolding to_local
  rectangle_point_overlap s q =
      let l = to_local s q in
      (fle (of_int (pos 0)) l.x && fle l.x s.width)
      && (fle (of_int (pos 0)) l.y && fle l.y s.height)

  -- A later test overwrites what an earlier one set; a new Vector2D is (0, 1).
  unfoldable pub calc_shift : ScenRectangle F → Point2D F → Float → Vector2D F
  calc_shift s q radius =
      let nil = of_int (pos 0) in
      let turn = λ (w : Vector2D F). rotate_vector F w s.rot_angle in
      if fle s.height q.y
      then turn (vector F nil radius)
      else if fle q.y nil
      then turn (vector F nil (fneg radius))
      else if fle s.width q.x
      then turn (vector F radius nil)
      else if fle q.x nil
      then turn (vector F (fneg radius) nil)
      else vector F nil (of_int (pos 1))

  shift_out : ScenRectangle F → Node F → Node F
  unfolding calc_shift to_local
  shift_out s n =
      move_by F n (calc_shift s (to_local s n.position) (fadd n.radius (literal (pos 1) 2)))

  unfoldable pub rectangle_intersect : ScenRectangle F → Node F → Node F × Float
  unfolding shift_out rectangle_node_overlap transform_ray ray_local_intersect
  rectangle_intersect s n =
      let n' = if rectangle_node_overlap s n then shift_out s n else n in
      let r = n'.radius in
      let bound : ScenRectangle F = record {
        p = point F (fsub s.p.x r) (fsub s.p.y r);
        width = fadd s.width (fmul r (of_int (pos 2)));
        height = fadd s.height (fmul r (of_int (pos 2)));
        rot_angle = of_int (pos 0);
      } in
      let ray = transform_ray s (record { o = n'.position; d = n'.v }) in
      (
        n',
        ray_local_intersect bound
            (record { o = point F (fadd ray.o.x r) (fadd ray.o.y r); d = ray.d }),
      )
