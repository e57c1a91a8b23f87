-- ===== src/Node.antt =====
-- The moving node: class Node of momosecpp/src/include/Node.h and momosecpp/src/Node.cpp, with the
-- colours of momosecpp/src/include/Color.h.
use simulations.Base.{ℤ, pos, Bool, false, if◌then◌else◌}
use simulations.Floats.{Floating}
use simulations.Geometry.{Point2D, Vector2D, point, vector, distance, translate}

pub record Color : Type 0 where
  pub red : ℤ
  pub green : ℤ
  pub blue : ℤ

abbrev pub color : ℤ → ℤ → ℤ → Color
color r g b = record { red = r; green = g; blue = b }

pub record Node (F : Floating) : Type 0 where
  pub position : Point2D F
  pub v : Vector2D F
  pub radius : F.Float
  pub antenna_radius : F.Float
  pub collided : Bool
  pub tint : Color

module _ (F : Floating) where
  open F use {
    Float, of_int, literal, fadd, fmul, flt, fle, widen, narrow, literal_d, dadd, ddiv, floor,
    of_int_d, trunc,
  }

  -- A radius below a centimetre is raised to it; the antenna takes the radius that was asked for.
  unfoldable pub init_node : Point2D F → Float → Node F
  init_node p r = record {
    position = p;
    v = vector F (literal (pos 0) 1) (literal (pos 0) 1);
    radius = if flt r (literal (pos 1) 2) then literal (pos 1) 2 else r;
    antenna_radius = fmul r (of_int (pos 10));
    collided = false;
    tint = color (pos 0) (pos 0) (pos 255);
  }

  unfoldable pub set_antenna_radius : Node F → Float → Node F
  set_antenna_radius n r = record n {
    antenna_radius = if flt r (of_int (pos 0)) then of_int (pos 0) else r;
  }

  -- (float)(floor((int)((c * 1000.0f) + 0.5)) / 1000.0f)
  unfoldable pub to_milli : Float → Float
  to_milli c = narrow (
      ddiv
        (floor
          (of_int_d (trunc (dadd (widen (fmul c (literal (pos 1000) 0))) (literal_d (pos 5) 1)))))
        (widen (literal (pos 1000) 0)))

  unfoldable pub round_mm : Node F → Node F
  unfolding to_milli
  round_mm n = record n { position = point F (to_milli n.position.x) (to_milli n.position.y) }

  -- setPosition(const Point2D &)
  unfoldable pub place : Node F → Point2D F → Node F
  unfolding round_mm
  place n p = round_mm (record n { position = p })

  -- setPosition(const Vector2D &)
  unfoldable pub move_by : Node F → Vector2D F → Node F
  unfolding round_mm
  move_by n w = round_mm (record n { position = translate F n.position w })

  unfoldable pub node_overlap : Node F → Node F → Bool
  node_overlap n m = fle (distance F n.position m.position) (fadd n.radius m.radius)

  unfoldable pub point_overlap : Node F → Point2D F → Bool
  point_overlap n p = fle (distance F n.position p) n.radius
