-- ===== src/Geometry.antt =====
-- Points, vectors and rays: momosecpp/src/include/Point2D.h, Vector2D.h, Ray2D.h and the files of
-- the same names under momosecpp/src. `F` is the machine's floating-point arithmetic.
pub mod Comparisons
use simulations.Base.{pos, Bool, ◌&&◌, if◌then◌else◌}
use simulations.Floats.{Floating}

pub record Point2D (F : Floating) : Type 0 where
  pub x : F.Float
  pub y : F.Float

pub record Vector2D (F : Floating) : Type 0 where
  pub x : F.Float
  pub y : F.Float

-- `o + t * d`
pub record Ray2D (F : Floating) : Type 0 where
  pub o : Point2D F
  pub d : Vector2D F

module _ (F : Floating) where
  open F use {
    Float, of_int, literal_d, fadd, fsub, fmul, fdiv, feq, widen, narrow, dmul, ddiv, deq, sqrt,
    cos, sin, square,
  }

  abbrev pub point : Float → Float → Point2D F
  point a b = record { x = a; y = b }

  abbrev pub vector : Float → Float → Vector2D F
  vector a b = record { x = a; y = b }

  -- Vector2D(tail, head)
  unfoldable pub between : Point2D F → Point2D F → Vector2D F
  between tail head = vector (fsub head.x tail.x) (fsub head.y tail.y)

  -- The calls of <cmath> are those of its `float` overloads.
  root_of_squares : Float → Float → Float
  root_of_squares a b = sqrt (fadd (fmul a a) (fmul b b))

  unfoldable pub distance : Point2D F → Point2D F → Float
  unfolding root_of_squares
  distance p q = root_of_squares (fsub q.x p.x) (fsub q.y p.y)

  unfoldable pub norm : Vector2D F → Float
  unfolding root_of_squares
  norm v = root_of_squares v.x v.y

  unfoldable pub get_length : Vector2D F → Float
  get_length v = sqrt (fadd (square v.x) (square v.y))

  unfoldable pub translate : Point2D F → Vector2D F → Point2D F
  translate p v = point (fadd p.x v.x) (fadd p.y v.y)

  unfoldable pub minus : Point2D F → Point2D F → Vector2D F
  minus p q = vector (fsub p.x q.x) (fsub p.y q.y)

  unfoldable pub plus : Vector2D F → Vector2D F → Vector2D F
  plus v w = vector (fadd v.x w.x) (fadd v.y w.y)

  unfoldable pub scaled : Vector2D F → Float → Vector2D F
  scaled v t = vector (fmul v.x t) (fmul v.y t)

  unfoldable pub scalar_product : Vector2D F → Vector2D F → Float
  scalar_product v w = fadd (fmul v.x w.x) (fmul v.y w.y)

  unfoldable pub normalize : Vector2D F → Vector2D F
  unfolding get_length
  normalize v =
      if feq (get_length v) (of_int (pos 0))
      then v
      else vector (fdiv v.x (get_length v)) (fdiv v.y (get_length v))

  unfoldable pub unit_vector : Vector2D F → Vector2D F
  unfolding norm
  unit_vector v =
      if feq (norm v) (of_int (pos 0))
      then vector (of_int (pos 0)) (of_int (pos 0))
      else vector (fdiv v.x (norm v)) (fdiv v.y (norm v))

  unfoldable pub is_zero : Vector2D F → Bool
  is_zero v = deq (widen v.x) (literal_d (pos 0) 1) && deq (widen v.y) (literal_d (pos 0) 1)

  -- The angle is in degrees; M_PI is written to the digits that a `double` holds.
  radians : Float → Float
  radians angle =
      narrow
        (dmul (widen angle) (ddiv (literal_d (pos 3141592653589793) 15) (literal_d (pos 180) 0)))

  rotated_x : Float → Float → Float → Float
  unfolding radians
  rotated_x a b angle = let rad = radians angle in fsub (fmul a (cos rad)) (fmul b (sin rad))

  rotated_y : Float → Float → Float → Float
  unfolding radians
  rotated_y a b angle = let rad = radians angle in fadd (fmul a (sin rad)) (fmul b (cos rad))

  unfoldable pub rotate_point : Point2D F → Float → Point2D F
  unfolding rotated_x rotated_y
  rotate_point p angle = point (rotated_x p.x p.y angle) (rotated_y p.x p.y angle)

  unfoldable pub rotate_vector : Vector2D F → Float → Vector2D F
  unfolding rotated_x rotated_y
  rotate_vector v angle = vector (rotated_x v.x v.y angle) (rotated_y v.x v.y angle)
