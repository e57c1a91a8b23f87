-- ===== src/Mobility/HotSpots.antt =====
-- momosecpp/src/HotSpotNode.cpp. A hot spot is its place in the vector; `none` as a result is a null
-- pointer, or a pointer to no spot, that is followed.
use simulations.Base.{
  ℕ, suc, Bool, true, false, if◌then◌else◌, pos, List, [], ◌∷◌, Option, some, none, get_elem?,
}
use simulations.Floats.{Floating}
use simulations.Random.{Random}
use simulations.Geometry.{Point2D, vector, distance}
use simulations.Messages.Node.{◌>>=◌}
use simulations.Scenario.Queries.{HotSpot, Connection}
use simulations.Mobility.Walk.{Walker, random_velocity, with_velocity, tick, heading, arrives}

pub record HotSpotNode (F : Floating) : Type 0 where
  pub walker : Walker F
  pub pause : Bool
  pub target_spot : Option ℕ

-- The end of the first connection.
abbrev pub first_end : {F : Floating} → List (Connection F) → Option ℕ
first_end [] = none
first_end (c ∷ cs) = some c.end_spot

module _ {F : Floating} where
  -- The distance of a position from a spot.
  abbrev pub away : Point2D F → HotSpot F → F.Float
  away q s = distance F q s.p

  -- The loop of nearestSpot, from place `i`.
  unfoldable pub near_loop : Point2D F → ℕ → List (HotSpot F) → ℕ × F.Float → ℕ × F.Float
  near_loop q i [] best = best
  near_loop q i (s ∷ spots) best =
      near_loop q (suc i) spots (if F.flt (away q s) best.1 then (i, away q s) else best)

  unfoldable pub nearest_spot : List (HotSpot F) → Point2D F → Option ℕ
  unfolding near_loop
  nearest_spot [] q = none
  nearest_spot (s ∷ spots) q = some (near_loop q 0 (s ∷ spots) (0, away q s)).0

  unfoldable pub next_spot : List (HotSpot F) → Point2D F → Option ℕ → Option (Option ℕ)
  unfolding nearest_spot
  next_spot spots q none = some (nearest_spot spots q)
  next_spot spots q (some k) = get_elem? spots k >>= λ s. some (first_end s.connections)

module _ {F : Floating} (R : Random) where
  -- moveToTarget, at the target that the node has.
  unfoldable pub walk_to : HotSpotNode F → Point2D F → F.Float → R.Rng → HotSpotNode F × R.Rng
  unfolding heading arrives
  walk_to n target dt rng =
      let (v, rng') = heading F R n.walker target dt rng in
      let w = with_velocity F R n.walker v in
      if arrives F R n.walker v target
      then (record n { walker = record w { local_time = F.of_int (pos 0) }; pause = true }, rng')
      else (record n { walker = w }, rng')

  unfoldable pub target_of : List (HotSpot F) → Option ℕ → Option (HotSpot F)
  target_of spots none = none
  target_of spots (some k) = get_elem? spots k

  unfoldable pub spot_move_to_target :
      List (HotSpot F) → HotSpotNode F → F.Float → R.Rng → Option (HotSpotNode F × R.Rng)
  unfolding walk_to target_of
  spot_move_to_target spots n dt rng =
      target_of spots n.target_spot >>= λ s. some (walk_to n s.p dt rng)

  -- targetSpot=nextSpot(), and the way on, if there is one.
  unfoldable pub set_out :
      List (HotSpot F) → HotSpotNode F → Option ℕ → F.Float → R.Rng → Option (HotSpotNode F × R.Rng)
  unfolding spot_move_to_target
  set_out spots n none dt rng = some (record n { pause = true; target_spot = none }, rng)
  set_out spots n (some k) dt rng =
      spot_move_to_target spots (record n { pause = false; target_spot = some k }) dt rng

  unfoldable pub wait :
      List (HotSpot F) → HotSpotNode F → F.Float → R.Rng → Option (HotSpotNode F × R.Rng)
  unfolding next_spot set_out
  wait spots n dt rng =
      let stands = record n {
        walker = with_velocity F R n.walker (vector F (F.of_int (pos 0)) (F.of_int (pos 0)));
      } in
      let leaves =
        next_spot spots n.walker.body.position n.target_spot >>= λ t. set_out spots n t dt rng in
      if F.flt n.walker.local_time n.walker.pause_time then some (stands, rng) else leaves

  -- resolveCollision
  unfoldable pub resolve_collision : HotSpotNode F → F.Float → R.Rng → HotSpotNode F × R.Rng
  unfolding random_velocity
  resolve_collision n dt rng =
      let (v, rng') = random_velocity F R n.walker.v_min n.walker.v_max dt rng in
      (record n { walker = with_velocity F R n.walker v }, rng')

  unfoldable pub spot_move :
      List (HotSpot F) → HotSpotNode F → F.Float → R.Rng → Option (HotSpotNode F × R.Rng)
  unfolding wait resolve_collision spot_move_to_target
  spot_move spots n dt rng =
      let hit = some (resolve_collision n dt rng) in
      let waits = wait spots n dt rng in
      let walks = spot_move_to_target spots n dt rng in
      if n.walker.body.collided then hit else if n.pause then waits else walks

  -- HotSpotNode::think
  unfoldable pub spot_think :
      List (HotSpot F) → HotSpotNode F → F.Float → R.Rng → Option (HotSpotNode F × R.Rng)
  unfolding spot_move
  spot_think spots n dt rng = spot_move spots n dt rng >>= λ moved.
      some (record moved.0 { walker = tick F R moved.0.walker dt }, moved.1)
