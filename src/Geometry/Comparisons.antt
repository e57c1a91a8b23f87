-- ===== src/Geometry/Comparisons.antt =====
-- The comparisons and the updates in place of momosecpp/src/Point2D.cpp and Vector2D.cpp, and
-- Ray2D::pointOnRay (momosecpp/src/Ray2D.cpp).
use simulations.Base.{pos, negsuc, Bool, true, false, not, ◌&&◌, ◌||◌, if◌then◌else◌, ◌≡◌, arith}
use simulations.Floats.{Floating}
use simulations.Geometry.{Point2D, Vector2D, Ray2D, vector}

module _ (F : Floating) where
  open F use {Float, of_int, fadd, fsub, fdiv, feq}

  unfoldable pub eq_point : Point2D F → Point2D F → Bool
  eq_point p q = if feq p.x q.x && feq p.y q.y then true else false

  unfoldable pub ne_point : Point2D F → Point2D F → Bool
  ne_point p q = if not (feq p.x q.x) || not (feq p.y q.y) then true else false

  unfoldable pub eq_vector : Vector2D F → Vector2D F → Bool
  eq_vector v w = if feq v.x w.x && feq v.y w.y then true else false

  unfoldable pub ne_vector : Vector2D F → Vector2D F → Bool
  ne_vector v w = if not (feq v.x w.x) || not (feq v.y w.y) then true else false

  -- operator+= and operator-=
  unfoldable pub increase : Vector2D F → Vector2D F → Vector2D F
  increase v w = vector F (fadd v.x w.x) (fadd v.y w.y)

  unfoldable pub decrease : Vector2D F → Vector2D F → Vector2D F
  decrease v w = vector F (fsub v.x w.x) (fsub v.y w.y)

  -- The parameter of a point of the ray, or -1.
  unfoldable pub point_on_ray : Ray2D F → Point2D F → Float
  point_on_ray ray p =
      let nil = of_int (pos 0) in
      let none_such = of_int (negsuc 0) in
      let tx = fdiv (fsub p.x ray.o.x) ray.d.x in
      let ty = fdiv (fsub p.y ray.o.y) ray.d.y in
      if feq ray.d.x nil
      then if not (feq ray.o.x p.x) then none_such else if feq ray.d.y nil then none_such else ty
      else if feq ray.d.y nil
      then if not (feq ray.o.y p.y) then none_such else if feq ray.d.x nil then none_such else tx
      else if feq tx ty
      then tx
      else none_such

  -- The two comparisons of points are each other's negation.
  pub ne_point-eq_point : (p q : Point2D F) → ne_point p q ≡ not (eq_point p q)
  unfolding ne_point eq_point
  ne_point-eq_point p q = ground arith

  pub ne_vector-eq_vector : (v w : Vector2D F) → ne_vector v w ≡ not (eq_vector v w)
  unfolding ne_vector eq_vector
  ne_vector-eq_vector v w = ground arith
