-- ===== src/Messages/Waypoint.antt =====
-- class RandomWaypointMessageNode (momosecpp/src/RandomWaypointMessageNode.cpp), and
-- CreateMessageNode of momosecpp/src/RandomWaypointMessageModel.cpp.
use simulations.Base.{Bool, true, false, ◌≡◌, refl, ap, Bool-cases, inl, inr, if◌then◌else◌, pos}
use simulations.Floats.{Floating}
use simulations.Random.{Random, unit_float, rand_between}
use simulations.Geometry.{
  Point2D, Vector2D, point, vector, distance, translate, minus, scaled, unit_vector, get_length,
}
use simulations.Node.{init_node}
use simulations.Messages.Node.{MessageNode, init_message_node}
use simulations.Messages.Model.{MessageModel}
use simulations.Mobility.Walk.{
  Walker, Waypoint, random_velocity, heading, arrives, move_to_target, generate_target,
  waypoint_move, waypoint_pause, waypoint_think, tick,
}

pub record WaypointMessageNode (F : Floating) : Type 0 where
  pub node : MessageNode F
  pub pause : Bool
  pub target : Point2D F

module _ {F : Floating} (R : Random) where
  open F use {Float, of_int, fadd, fmul, flt, fle}

  unfoldable pub create_waypoint_node :
      MessageModel F → Float → Float → R.Rng → WaypointMessageNode F × R.Rng
  unfolding init_message_node init_node unit_float
  create_waypoint_node m width height rng =
      let (r, rng') = R.rand rng in
      let (s, rng'') = R.rand rng' in
      let p = point F (fmul (unit_float F R r) width) (fmul (unit_float F R s) height) in
      (
        record {
          node = record (init_message_node (init_node F p m.node_radius) m.next_node_id) {
            local_time = of_int (pos 0);
          };
          pause = true;
          target = point F (of_int (pos 0)) (of_int (pos 0));
        },
        rng'',
      )

  abbrev with_v : WaypointMessageNode F → Vector2D F → WaypointMessageNode F
  with_v n v = record n { node = record n.node { body = record n.node.body { v = v } } }

  -- finalDist<=getRadius(), after the velocity is set
  stop_near : WaypointMessageNode F → WaypointMessageNode F
  stop_near n =
      let body = n.node.body in
      if fle (distance F (translate F body.position body.v) n.target) body.radius
      then record n { node = record n.node { local_time = of_int (pos 0) }; pause = true }
      else n

  unfoldable pub message_move_to_target :
      WaypointMessageNode F → Float → R.Rng → WaypointMessageNode F × R.Rng
  unfolding stop_near
  message_move_to_target n dt rng =
      let to_target = minus F n.target n.node.body.position in
      let (velocity, rng') = rand_between F R n.node.v_min n.node.v_max rng in
      let act = scaled F (scaled F (unit_vector F to_target) velocity) dt in
      let near = fle (distance F n.node.body.position n.target) (get_length F act) in
      (stop_near (with_v n (if near then to_target else act)), rng')

  unfoldable pub message_generate_target :
      WaypointMessageNode F → Float → Float → R.Rng → WaypointMessageNode F × R.Rng
  message_generate_target n width height rng =
      let (p, rng') = generate_target F R width height rng in (record n { target = p }, rng')

  set_off : WaypointMessageNode F → Float → Float → Float → R.Rng → WaypointMessageNode F × R.Rng
  unfolding message_generate_target message_move_to_target
  set_off n width height dt rng =
      let (n', rng') = message_generate_target (record n { pause = false }) width height rng in
      message_move_to_target n' dt rng'

  bounce : WaypointMessageNode F → Float → R.Rng → WaypointMessageNode F × R.Rng
  unfolding random_velocity
  bounce n dt rng =
      let (v, rng') = random_velocity F R n.node.v_min n.node.v_max dt rng in (with_v n v, rng')

  message_waypoint_move :
      WaypointMessageNode F → Float → Float → Float → R.Rng → WaypointMessageNode F × R.Rng
  unfolding bounce set_off message_move_to_target
  message_waypoint_move n width height dt rng =
      if n.node.body.collided
      then bounce n dt rng
      else if n.pause
      then if flt n.node.local_time n.node.pause_time
        then (with_v n (vector F (of_int (pos 0)) (of_int (pos 0))), rng)
        else set_off n width height dt rng
      else message_move_to_target n dt rng

  unfoldable pub message_waypoint_think :
      WaypointMessageNode F → Float → Float → Float → R.Rng → WaypointMessageNode F × R.Rng
  unfolding message_waypoint_move
  message_waypoint_think n width height dt rng =
      let (n', rng') = message_waypoint_move n width height dt rng in
      (record n' { node = record n'.node { local_time = fadd n'.node.local_time dt } }, rng')

  -- The node without its messages.
  abbrev pub as_walker : MessageNode F → Walker F
  as_walker n = record {
    body = n.body;
    local_time = n.local_time;
    pause_time = n.pause_time;
    v_min = n.v_min;
    v_max = n.v_max;
  }

  abbrev pub waypoint_of : WaypointMessageNode F → Waypoint F
  waypoint_of n = record { walker = as_walker n.node; pause = n.pause; target = n.target }

  abbrev pub view : WaypointMessageNode F × R.Rng → Waypoint F × R.Rng
  view r = (waypoint_of r.0, r.1)

  stop_near-view :
      (n : WaypointMessageNode F) (v : Vector2D F) (rng : R.Rng)
      → view (stop_near (with_v n v), rng) ≡ (
          if arrives F R (as_walker n.node) v n.target
          then (
            record (waypoint_of (with_v n v)) {
              walker = record (as_walker (with_v n v).node) { local_time = of_int (pos 0) };
              pause = true;
            },
            rng,
          )
          else (waypoint_of (with_v n v), rng))
  unfolding stop_near arrives
  stop_near-view n v rng =
      elim (Bool-cases
        (fle (distance F (translate F n.node.body.position v) n.target) n.node.body.radius)) [
          | inl e ↦ rw e refl
          | inr e ↦ rw e refl
        ]

  message_move_to_target-view :
      (n : WaypointMessageNode F) (dt : Float) (rng : R.Rng)
      → view (message_move_to_target n dt rng) ≡ move_to_target F R (waypoint_of n) dt rng
  unfolding message_move_to_target move_to_target heading
  message_move_to_target-view n dt rng =
      let h = heading F R (as_walker n.node) n.target dt rng in stop_near-view n h.0 h.1

  either_view :
      (b : Bool) (x y : WaypointMessageNode F × R.Rng) (x' y' : Waypoint F × R.Rng)
      → view x ≡ x'
      → view y ≡ y'
      → view (if b then x else y) ≡ (if b then x' else y')
  either_view true x y x' y' h k = h
  either_view false x y x' y' h k = k

  message_waypoint_move-view :
      (n : WaypointMessageNode F) (width height dt : Float) (rng : R.Rng)
      → view (message_waypoint_move n width height dt rng)
        ≡ waypoint_move F R (waypoint_of n) width height dt rng
  unfolding message_waypoint_move waypoint_move waypoint_pause message_generate_target
  message_waypoint_move-view n width height dt rng =
      let w = waypoint_of n in
      let t = generate_target F R width height rng in
      let n' = record n { pause = false; target = t.0 } in
      let still = vector F (of_int (pos 0)) (of_int (pos 0)) in
      let going = message_move_to_target n dt rng in
      let leaving = message_move_to_target n' dt t.1 in
      let early = flt n.node.local_time n.node.pause_time in
      let pausing = if early then (with_v n still, rng) else leaving in
      let pausing' =
        if early
        then (waypoint_of (with_v n still), rng)
        else move_to_target F R (waypoint_of n') dt t.1 in
      let bounced = bounce n dt rng in
      either_view n.node.body.collided bounced (if n.pause then pausing else going) (view bounced)
        (if n.pause then pausing' else move_to_target F R w dt rng) refl
        (either_view n.pause pausing going pausing' (move_to_target F R w dt rng)
          (either_view early (with_v n still, rng) leaving (waypoint_of (with_v n still), rng)
            (move_to_target F R (waypoint_of n') dt t.1) refl
            (message_move_to_target-view n' dt t.1))
          (message_move_to_target-view n dt rng))

  -- A step of a RandomWaypointMessageNode, seen without its messages, is the step of the
  -- RandomWaypointNode that it is then, with the same draws of random numbers.
  pub message_waypoint_think-view :
      (n : WaypointMessageNode F) (width height dt : Float) (rng : R.Rng)
      → view (message_waypoint_think n width height dt rng)
        ≡ waypoint_think F R (waypoint_of n) width height dt rng
  unfolding message_waypoint_think waypoint_think
  message_waypoint_think-view n width height dt rng =
      ap (λ r. (record r.0 { walker = tick F R r.0.walker dt }, r.1))
        (message_waypoint_move-view n width height dt rng)
