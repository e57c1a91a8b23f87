-- ===== src/Simulation/Physics.antt =====
-- momosecpp/src/PhysicEngine.cpp, with the objects that it tests a node against.
use simulations.Base.{
  ℕ, zero, suc, Bool, true, false, ◌&&◌, List, [], ◌∷◌, ◌++◌, if◌then◌else◌, Option, some, none, ℤ,
  pos, negsuc, get_elem?, set, ◌==◌, eqb_ℤ, map, length,
}
use simulations.Floats.{Floating}
use simulations.Geometry.{point, scaled}
use simulations.Messages.Node.{◌>>=◌}
use simulations.Node.{Node, place, move_by}
use simulations.Scenario.Shapes.{circle_ray_intersect, circle_intersect, rectangle_intersect}
use simulations.Scenario.Queries.{Shape, circle, rectangle, Building, Scenario, hits}

-- A physical object: a node of the engine, by its place among the nodes, or a shape.
pub data PhysicalObject (F : Floating) : Type 0 where
  node_at : ℕ → PhysicalObject F
  fixed : Shape F → PhysicalObject F

-- The nodes that other parts point to are in `nodes`; `physical_objs` refers to them.
pub record PhysicEngine (F : Floating) : Type 0 where
  pub nodes : List (Node F)
  pub physical_objs : List (PhysicalObject F)

-- if(((pt>=0)&&(pt<=1))&&(pt<t)) t=pt;
unfoldable pub closer : (F : Floating) → F.Float → F.Float → F.Float
unfolding hits
closer F t pt = if hits F pt && F.flt pt t then pt else t

-- A hundredth back, but not behind the start.
unfoldable pub step_back : (F : Floating) → F.Float → F.Float
step_back F t =
    if F.flt (F.literal (pos 1) 2) t then F.fsub t (F.literal (pos 1) 2) else F.of_int (pos 0)

module _ {F : Floating} where
  unfoldable pub add_buildings : PhysicEngine F → List (Building F) → PhysicEngine F
  add_buildings e buildings = record e {
    physical_objs = e.physical_objs ++ map (λ b. fixed b.shape) buildings;
  }

  wall : F.Float → F.Float → F.Float → F.Float → PhysicalObject F
  wall a b w h =
      fixed (
        rectangle (record { p = point F a b; width = w; height = h; rot_angle = F.of_int (pos 0) }))

  unfoldable pub four_walls : F.Float → F.Float → List (PhysicalObject F)
  unfolding wall
  four_walls w h =
      let nil = F.of_int (pos 0) in
      let two = F.of_int (pos 2) in
      let back = F.of_int (negsuc 1) in
      wall nil back (F.fadd w two) two
      ∷ wall w nil two (F.fadd h two)
      ∷ wall back h (F.fadd w two) two
      ∷ wall back back two (F.fadd h two)
      ∷ []

  -- BOUNDED is 0.
  unfoldable pub set_border : PhysicEngine F → Scenario F → PhysicEngine F
  unfolding four_walls
  set_border e s =
      if eqb_ℤ s.border_type (pos 0)
      then record e { physical_objs = e.physical_objs ++ four_walls s.width s.height }
      else e

  -- Node::intersect, where `other` is the object.
  unfoldable pub node_intersect : Node F → Node F → F.Float
  unfolding circle_ray_intersect
  node_intersect other n =
      circle_ray_intersect F (record { p = other.position; radius = F.fadd other.radius n.radius })
        (record { o = n.position; d = n.v })

  unfoldable pub shape_intersect : Shape F → Node F → Node F × F.Float
  unfolding circle_intersect rectangle_intersect
  shape_intersect (circle s) n = circle_intersect F s n
  shape_intersect (rectangle s) n = rectangle_intersect F s n

  unfoldable pub found_at : Option (Node F) → Node F → Option (Node F × F.Float)
  unfolding node_intersect
  found_at none n = none
  found_at (some other) n = some (n, node_intersect other n)

  -- physicalObj->intersect(node), which may move the node; `none` is a pointer to no node.
  unfoldable pub intersect : List (Node F) → PhysicalObject F → Node F → Option (Node F × F.Float)
  unfolding found_at shape_intersect
  intersect nodes (node_at j) n = found_at (get_elem? nodes j) n
  intersect nodes (fixed s) n = some (shape_intersect s n)

  -- node!=physicalObj
  unfoldable pub is_self : ℕ → PhysicalObject F → Bool
  is_self i (node_at j) = i == j
  is_self i (fixed s) = false

  -- The loop of collisionDetection, for node `i`; it skips the node itself.
  unfoldable pub detect_loop :
      List (Node F) → ℕ → List (PhysicalObject F) → Node F → F.Float → Option (Node F × F.Float)
  unfolding intersect is_self closer
  detect_loop nodes i [] n t = some (n, t)
  detect_loop nodes i (obj ∷ objs) n t =
      let skipped = detect_loop nodes i objs n t in
      let tested = intersect nodes obj n >>= λ p. detect_loop nodes i objs p.0 (closer F t p.1) in
      if is_self i obj then skipped else tested

  -- The node stops a hundredth before the hit; with no hit it moves on.
  unfoldable pub after_detection : Node F × F.Float → Node F × Bool
  unfolding hits step_back
  after_detection (n, t) =
      if hits F t
      then (move_by F n (scaled F n.v (step_back F t)), true)
      else (move_by F n n.v, false)

  unfoldable pub collision_detection :
      List (Node F) → List (PhysicalObject F) → ℕ → Node F → Option (Node F × Bool)
  unfolding detect_loop after_detection
  collision_detection nodes objs i n =
      detect_loop nodes i objs n F.flt_max >>= λ found. some (after_detection found)

  unfoldable pub border_collision : Node F → Node F
  border_collision n =
      let milli = F.literal (pos 1) 3 in
      let x = if F.fle n.position.x n.radius then F.fadd n.position.x milli else n.position.x in
      let y = if F.fle n.position.y n.radius then F.fadd n.position.y milli else n.position.y in
      place F n (point F x y)

  -- setCollision, and the border of a bounded scenario.
  unfoldable pub settle : ℤ → Node F × Bool → Node F
  unfolding border_collision
  settle border_type (n, collision) =
      let marked = record n { collided = collision } in
      if eqb_ℤ border_type (pos 0) then border_collision marked else marked

  unfoldable pub animate_node :
      ℤ → List (PhysicalObject F) → ℕ → List (Node F) → Option (List (Node F))
  unfolding collision_detection settle
  animate_node border_type objs i nodes = get_elem? nodes i >>= λ n.
      collision_detection nodes objs i n >>= λ moved. some (set nodes i (settle border_type moved))

  -- The nodes in turn: a later node meets the earlier ones where they are then.
  unfoldable pub animate_loop :
      ℤ → List (PhysicalObject F) → ℕ → ℕ → List (Node F) → Option (List (Node F))
  unfolding animate_node
  animate_loop border_type objs zero i nodes = some nodes
  animate_loop border_type objs (suc left) i nodes =
      animate_node border_type objs i nodes >>= animate_loop border_type objs left (suc i)

  unfoldable pub animate_physic : Scenario F → PhysicEngine F → Option (PhysicEngine F)
  unfolding animate_loop
  animate_physic s e =
      animate_loop s.border_type e.physical_objs (length e.nodes) 0 e.nodes >>= λ nodes.
      some (record e { nodes = nodes })
