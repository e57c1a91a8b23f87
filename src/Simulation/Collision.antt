-- ===== src/Simulation/Collision.antt =====
-- What collisionDetection (momosecpp/src/PhysicEngine.cpp) finds.
use simulations.Base.{
  ℕ, ◌≡◌, true, false, List, [], ◌∷◌, if◌then◌else◌, Option, some, pos, ◌⊎◌, All, In,
}
use simulations.Floats.{Floating, IsOrdered}
use simulations.Messages.Node.{◌>>=◌}
use simulations.Node.{Node}
use simulations.Scenario.Queries.{hits}
use simulations.Simulation.Physics.{PhysicalObject, intersect, is_self, closer}

-- The least of the hits that are below `t`, as the loop finds it.
abbrev pub nearest : (F : Floating) → F.Float → List F.Float → F.Float
nearest F t [] = t
nearest F t (pt ∷ pts) = nearest F (closer F t pt) pts

module _ (F : Floating) (ordered : IsOrdered F) where
  -- No hit is before `t`.
  abbrev pub IsFirst : F.Float → List F.Float → Type 0
  IsFirst t pts = All (λ pt. (hits F pt ≡ true) → F.flt pt t ≡ false) pts

  -- `r` is `t`, and no hit is before it; or the first of the hits, and before `t`.
  abbrev pub Outcome : F.Float → List F.Float → F.Float → Type 0
  Outcome t pts r =
      ((r ≡ t) × IsFirst t pts)
      ⊎ (In r pts × (hits F r ≡ true) × (F.flt r t ≡ true) × IsFirst r pts)

module _ {F : Floating} where
  abbrev pub also : F.Float → Node F × List F.Float → Option (Node F × List F.Float)
  also pt (n, pts) = some (n, pt ∷ pts)

  abbrev pub pick : F.Float → Node F × List F.Float → Option (Node F × F.Float)
  pick t (n, pts) = some (n, nearest F t pts)

  -- The node as each tested object leaves it, and the parameters that the objects give.
  unfoldable pub trials :
      List (Node F) → ℕ → List (PhysicalObject F) → Node F → Option (Node F × List F.Float)
  trials nodes i [] n = some (n, [])
  trials nodes i (obj ∷ objs) n =
      let skipped = trials nodes i objs n in
      let tested = intersect nodes obj n >>= λ p. trials nodes i objs p.0 >>= also p.1 in
      if is_self i obj then skipped else tested

  first_of : F.Float → F.Float → Option (Node F × List F.Float) → Option (Node F × F.Float)
  first_of t pt o = o >>= also pt >>= pick t

module _ {F : Floating} (ordered : IsOrdered F) where
  -- FLT_MAX is above 1, and at most itself.
  abbrev pub IsLarge : Type 0
  IsLarge = (F.flt (F.of_int (pos 1)) F.flt_max ≡ true) × (F.fle F.flt_max F.flt_max ≡ true)
