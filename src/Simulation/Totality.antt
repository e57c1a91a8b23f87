-- ===== src/Simulation/Totality.antt =====
-- The loop of animatePhysic over the nodes (momosecpp/src/PhysicEngine.cpp).
use simulations.Base.{
  if◌then◌else◌, eqb_ℤ, pos, ℕ, suc, ◌+◌, ◌<◌, ◌≡◌, refl, sym, ◌∙◌, subst, ap, List, [], ◌∷◌, ◌++◌,
  append_assoc, some, Bool, length-append, get_elem?-middle, set-middle, Bool-cases, inl, inr,
  arith, All, ℤ, set, length,
}
use simulations.Floats.{Floating}
use simulations.Geometry.{point}
use simulations.Messages.Receive.Merge.{get_elem?-some}
use simulations.Node.{Node, place}
use simulations.Scenario.Queries.{Scenario}
use simulations.Simulation.Physics.{
  PhysicalObject, node_at, fixed, PhysicEngine, intersect, is_self, closer, detect_loop,
  after_detection, collision_detection, settle, animate_node, animate_loop, animate_physic,
  border_collision, found_at, shape_intersect, node_intersect,
}

-- A thousandth on, where a coordinate is no further from 0 than the radius.
abbrev pub off_zero : (F : Floating) → F.Float → F.Float → F.Float
off_zero F a radius = if F.fle a radius then F.fadd a (F.literal (pos 1) 3) else a

module _ {F : Floating} where
  -- A pointer to a node is to one of the engine.
  abbrev pub PointsInto : ℕ → PhysicalObject F → Type 0
  PointsInto count (node_at j) = j < count
  PointsInto count (fixed s) = Unit

  intersect-some :
      (nodes : List (Node F)) (obj : PhysicalObject F) (n : Node F)
      → PointsInto (length nodes) obj
      → (r : Node F × F.Float) × (intersect nodes obj n ≡ some r)
  unfolding intersect found_at
  intersect-some nodes (node_at j) n h =
      let (m, at) = get_elem?-some nodes j h in ((n, node_intersect m n), rw at refl)
  intersect-some nodes (fixed s) n h = (shape_intersect s n, refl)

  detect_loop-some :
      (nodes : List (Node F)) (i : ℕ) (objs : List (PhysicalObject F)) (n : Node F) (t : F.Float)
      → All (PointsInto (length nodes)) objs
      → (r : Node F × F.Float) × (detect_loop nodes i objs n t ≡ some r)
  unfolding detect_loop
  detect_loop-some nodes i [] n t h = ((n, t), refl)
  detect_loop-some nodes i (obj ∷ objs) n t (into, rest) = elim (Bool-cases (is_self i obj)) [
    | inl e ↦ rw e (detect_loop-some nodes i objs n t rest)
    | inr e ↦
        let (p, found) = intersect-some nodes obj n into in
        rw (e, found) (detect_loop-some nodes i objs p.0 (closer F t p.1) rest)
  ]

  collision_detection-some :
      (nodes : List (Node F)) (objs : List (PhysicalObject F)) (i : ℕ) (n : Node F)
      → All (PointsInto (length nodes)) objs
      → (moved : Node F × Bool) × (collision_detection nodes objs i n ≡ some moved)
  unfolding collision_detection
  collision_detection-some nodes objs i n into =
      let (r, found) = detect_loop-some nodes i objs n F.flt_max into in
      (after_detection r, rw found refl)

  -- The node with the mark of its collision, and off the borders at 0 if the border's type is 0.
  abbrev pub settled : ℤ → Node F × Bool → Node F
  settled border_type (n, collision) =
      let marked = record n { collided = collision } in
      if eqb_ℤ border_type (pos 0)
      then place F marked
          (point F (off_zero F n.position.x n.radius) (off_zero F n.position.y n.radius))
      else marked

  settle-settled :
      (border_type : ℤ) (moved : Node F × Bool)
      → settle border_type moved ≡ settled border_type moved
  unfolding settle border_collision
  settle-settled border_type moved = refl

  -- Each node in turn meets the earlier ones, `done`, where they are after their moves, and the
  -- later ones where they were; the collision that it finds settles where it is afterwards.
  abbrev pub MovedInTurn :
      ℤ → List (PhysicalObject F) → List (Node F) → List (Node F) → List (Node F) → Type 0
  MovedInTurn border_type objs done [] [] = Unit
  MovedInTurn border_type objs done [] (n' ∷ after) = ⊥
  MovedInTurn border_type objs done (n ∷ rest) [] = ⊥
  MovedInTurn border_type objs done (n ∷ rest) (n' ∷ after) =
      ((moved : Node F × Bool) × (collision_detection (done ++ n ∷ rest) objs (length done) n
          ≡ some moved)
        × (n' ≡ settled border_type moved))
      × MovedInTurn border_type objs (done ++ n' ∷ []) rest after

  animate_loop-MovedInTurn :
      (border_type : ℤ) (objs : List (PhysicalObject F)) (done rest : List (Node F))
      → All (PointsInto (length done + length rest)) objs
      → (after : List (Node F)) × (animate_loop border_type objs
            (length rest)
            (length done)
            (done ++ rest)
          ≡ some (done ++ after))
        × (length after ≡ length rest)
        × MovedInTurn border_type objs done rest after
  unfolding animate_loop animate_node
  animate_loop-MovedInTurn border_type objs done [] into = ([], refl, refl, tt)
  animate_loop-MovedInTurn border_type objs done (n ∷ rest) into =
      let before = done ++ n ∷ rest in
      let i = length done in
      let (moved, found) =
        collision_detection-some before objs i n
          (subst (λ c. All (PointsInto c) objs) (sym (length-append done (n ∷ rest))) into) in
      let n' = settle border_type moved in
      let next = done ++ n' ∷ [] in
      let size : length next ≡ suc i = omega (arith, length-append done (n' ∷ [])) in
      let total : length next + length rest ≡ i + suc (length rest) = omega (arith, size) in
      let (after, looped, kept, turns) =
        animate_loop-MovedInTurn border_type objs next rest
          (subst (λ c. All (PointsInto c) objs) (sym total) into) in
      let put : set before i n' ≡ next ++ rest =
        set-middle done rest n n' ∙ sym (append_assoc done (n' ∷ []) rest) in
      let later =
        ap (λ k. animate_loop border_type objs (length rest) k (next ++ rest)) (sym size)
        ∙ looped
        ∙ ap some (append_assoc done (n' ∷ []) after) in
      (
        n' ∷ after,
        rw (get_elem?-middle done rest n, found, put) later,
        ap suc kept,
        ((moved, found, settle-settled border_type moved), turns),
      )

  -- animatePhysic of an engine whose objects point to its own nodes, or are shapes, ends without
  -- a fault and moves each node once, in order: collisionDetection of a node finds the nodes
  -- before it where they have moved to, and those after it where they were; the node is where
  -- that leaves it, with the mark of a collision if there was one, and, if the type of the border
  -- is 0, a thousandth on in each coordinate that is no further from 0 than its radius. The
  -- number of nodes and the objects are as before.
  pub animate_physic-total :
      (s : Scenario F) (e : PhysicEngine F)
      → All (PointsInto (length e.nodes)) e.physical_objs
      → (e' : PhysicEngine F) × (animate_physic s e ≡ some e')
        × MovedInTurn s.border_type e.physical_objs [] e.nodes e'.nodes
        × (length e'.nodes ≡ length e.nodes)
        × (e'.physical_objs ≡ e.physical_objs)
  unfolding animate_physic
  animate_physic-total s e into =
      let here : length e.nodes ≡ 0 + length e.nodes = omega arith in
      let (nodes, done, size, turns) =
        animate_loop-MovedInTurn s.border_type e.physical_objs [] e.nodes
          (subst (λ c. All (PointsInto c) e.physical_objs) here into) in
      (record e { nodes = nodes }, rw done refl, turns, size, refl)
