-- ===== src/Mobility/Walk.antt =====
-- The random walk and the random waypoint node. Of two calls of rand in one product the left one
-- is made first.
use simulations.Base.{ℕ, Bool, true, false, ◌||◌, if◌then◌else◌, pos, negsuc, ltb, ◌%◌}
use simulations.Floats.{Floating}
use simulations.Random.{Random, unit_float, rand_between}
use simulations.Geometry.{
  Point2D, Vector2D, point, vector, distance, translate, minus, scaled, unit_vector, get_length,
}
use simulations.Node.{Node}

-- The members of SimpleNode and of its subclasses.
pub record Walker (F : Floating) : Type 0 where
  pub body : Node F
  pub local_time : F.Float
  pub pause_time : F.Float
  pub v_min : F.Float
  pub v_max : F.Float

pub record Waypoint (F : Floating) : Type 0 where
  pub walker : Walker F
  pub pause : Bool
  pub target : Point2D F

module _ (F : Floating) (R : Random) where
  open F use {Float, of_int, fadd, fmul, flt, fle}

  -- rand()%2<1?(-1):(1)
  unfoldable pub sign : ℕ → Float
  sign r = if ltb (r % 2) 1 then of_int (negsuc 0) else of_int (pos 1)

  unfoldable pub signed_draw : Float → Float → R.Rng → Float × R.Rng
  unfolding rand_between sign
  signed_draw lo hi rng =
      let (a, rng') = rand_between F R lo hi rng in
      let (r, rng'') = R.rand rng' in (fmul a (sign r), rng'')

  -- A new velocity, for a time step `dt`.
  unfoldable pub random_velocity : Float → Float → Float → R.Rng → Vector2D F × R.Rng
  unfolding signed_draw
  random_velocity lo hi dt rng =
      let (a, rng') = signed_draw lo hi rng in
      let (b, rng'') = signed_draw lo hi rng' in (scaled F (vector F a b) dt, rng'')

  abbrev pub with_velocity : Walker F → Vector2D F → Walker F
  with_velocity w v = record w { body = record w.body { v = v } }

  abbrev pub tick : Walker F → Float → Walker F
  tick w dt = record w { local_time = fadd w.local_time dt }

  -- RandomWalkNode::randomMove
  unfoldable pub random_move : Walker F → Float → R.Rng → Walker F × R.Rng
  unfolding random_velocity
  random_move w dt rng =
      let (v, rng') = random_velocity w.v_min w.v_max dt rng in
      if fle w.pause_time w.local_time || w.body.collided
      then (tick (record (with_velocity w v) { local_time = of_int (pos 0) }) dt, rng')
      else (tick w dt, rng)

  -- The velocity of a node on its way: up to the target, or a step of random length towards it.
  unfoldable pub heading : Walker F → Point2D F → Float → R.Rng → Vector2D F × R.Rng
  unfolding rand_between unit_vector
  heading w target dt rng =
      let to_target = minus F target w.body.position in
      let (velocity, rng') = rand_between F R w.v_min w.v_max rng in
      let act = scaled F (scaled F (unit_vector F to_target) velocity) dt in
      (if fle (distance F w.body.position target) (get_length F act) then to_target else act, rng')

  -- finalDist<=getRadius()
  unfoldable pub arrives : Walker F → Vector2D F → Point2D F → Bool
  arrives w v target = fle (distance F (translate F w.body.position v) target) w.body.radius

  -- RandomWaypointNode::moveToTarget
  unfoldable pub move_to_target : Waypoint F → Float → R.Rng → Waypoint F × R.Rng
  unfolding heading arrives
  move_to_target n dt rng =
      let (v, rng') = heading n.walker n.target dt rng in
      let w = with_velocity n.walker v in
      if arrives n.walker v n.target
      then (record n { walker = record w { local_time = of_int (pos 0) }; pause = true }, rng')
      else (record n { walker = w }, rng')

  unfoldable pub generate_target : Float → Float → R.Rng → Point2D F × R.Rng
  unfolding unit_float
  generate_target width height rng =
      let (r, rng') = R.rand rng in
      let (s, rng'') = R.rand rng' in
      (point F (fmul (unit_float F R r) width) (fmul (unit_float F R s) height), rng'')

  -- The pause of a node: it stands, or takes a new target.
  unfoldable pub waypoint_pause : Waypoint F → Float → Float → Float → R.Rng → Waypoint F × R.Rng
  unfolding generate_target move_to_target
  waypoint_pause n width height dt rng =
      let (target, rng') = generate_target width height rng in
      if flt n.walker.local_time n.walker.pause_time
      then (
        record n { walker = with_velocity n.walker (vector F (of_int (pos 0)) (of_int (pos 0))) },
        rng,
      )
      else move_to_target (record n { pause = false; target = target }) dt rng'

  unfoldable pub waypoint_move : Waypoint F → Float → Float → Float → R.Rng → Waypoint F × R.Rng
  unfolding waypoint_pause move_to_target random_velocity
  waypoint_move n width height dt rng =
      let (v, rng') = random_velocity n.walker.v_min n.walker.v_max dt rng in
      if n.walker.body.collided
      then (record n { walker = with_velocity n.walker v }, rng')
      else if n.pause
      then waypoint_pause n width height dt rng
      else move_to_target n dt rng

  -- RandomWaypointNode::think
  unfoldable pub waypoint_think : Waypoint F → Float → Float → Float → R.Rng → Waypoint F × R.Rng
  unfolding waypoint_move
  waypoint_think n width height dt rng =
      let (n', rng') = waypoint_move n width height dt rng in
      (record n' { walker = tick n'.walker dt }, rng')
