-- ===== src/Mobility/Route.antt =====
-- The target of a hot-spot node (momosecpp/src/HotSpotNode.cpp).
use simulations.Base.{
  ℕ, suc, ◌+◌, ◌<◌, ◌≡◌, refl, sym, ap, ◌∙◌, subst, Bool, true, false, List, [], ◌∷◌, if◌then◌else◌,
  Option, some, none, arith, All, All-elem, length,
}
use simulations.Floats.{Floating}
use simulations.Random.{Random}
use simulations.Geometry.{Point2D}
use simulations.Messages.Node.{◌>>=◌}
use simulations.Messages.Receive.Merge.{get_elem?-some}
use simulations.Scenario.Queries.{Connection, HotSpot}
use simulations.Mobility.Walk.{tick, arrives}
use simulations.Mobility.HotSpots.{
  HotSpotNode, away, near_loop, nearest_spot, first_end, next_spot, walk_to, target_of,
  spot_move_to_target, set_out, wait, resolve_collision, spot_move, spot_think,
}

abbrev pub IsPlace : ℕ → Option ℕ → Type 0
IsPlace count none = Unit {0}
IsPlace count (some k) = k < count

either_lt :
    {A : Type 0} (b : Bool) (x y : ℕ × A) (count : ℕ)
    → x.0 < count
    → y.0 < count
    → (if b then x else y).0 < count
either_lt true x y count h k = h
either_lt false x y count h k = k

first_end-IsPlace :
    {F : Floating} (count : ℕ) (cs : List (Connection F))
    → All (λ c. c.end_spot < count) cs
    → IsPlace count (first_end cs)
first_end-IsPlace count [] h = tt
first_end-IsPlace count (c ∷ cs) h = h.0

module _ {F : Floating} where
  -- The connections of each spot end at spots.
  abbrev pub IsGraph : List (HotSpot F) → Type 0
  IsGraph spots = All (λ s. All (λ c. c.end_spot < length spots) s.connections) spots

  -- The target, if there is one, is a spot; a node that walks has one.
  pub record IsRouted (count : ℕ) (n : HotSpotNode F) : Type 0 where
    pub known : IsPlace count n.target_spot
    pub bound : (n.pause ≡ false) → (k : ℕ) × (n.target_spot ≡ some k)

  near_loop-lt :
      (q : Point2D F) (i : ℕ) (spots : List (HotSpot F)) (best : ℕ × F.Float) (count : ℕ)
      → best.0 < count
      → i + length spots ≡ count
      → (near_loop q i spots best).0 < count
  unfolding near_loop
  near_loop-lt q i [] best count h e = h
  near_loop-lt q i (s ∷ spots) best count h e =
      near_loop-lt q (suc i) spots (if F.flt (away q s) best.1 then (i, away q s) else best) count
        (either_lt (F.flt (away q s) best.1) (i, away q s) best count (omega arith) h) (omega arith)

  nearest_spot-IsPlace :
      (spots : List (HotSpot F)) (q : Point2D F) → IsPlace (length spots) (nearest_spot spots q)
  unfolding nearest_spot
  nearest_spot-IsPlace [] q = tt
  nearest_spot-IsPlace (s ∷ spots) q =
      near_loop-lt q 0 (s ∷ spots) (0, away q s) (suc (length spots)) (omega arith) (omega arith)

  next_spot-some :
      (spots : List (HotSpot F)) (q : Point2D F) (t : Option ℕ)
      → IsGraph spots
      → IsPlace (length spots) t
      → (t' : Option ℕ) × (next_spot spots q t ≡ some t') × IsPlace (length spots) t'
  unfolding next_spot
  next_spot-some spots q none g h = (nearest_spot spots q, refl, nearest_spot-IsPlace spots q)
  next_spot-some spots q (some k) g h =
      let (s, at) = get_elem?-some spots k h in
      (
        first_end s.connections,
        rw at refl,
        first_end-IsPlace (length spots) s.connections
            (All-elem (λ s. All (λ c. c.end_spot < length spots) s.connections) spots k s g at),
      )

module _ {F : Floating} (R : Random) where
  -- A result of the right kind: some state whose node is routed.
  abbrev pub Goes : ℕ → Option (HotSpotNode F × R.Rng) → Type 0
  Goes count o = (r : HotSpotNode F × R.Rng) × (o ≡ some r) × IsRouted count r.0

  either-IsRouted :
      (count : ℕ) (b : Bool) (x y : HotSpotNode F × R.Rng)
      → IsRouted count x.0
      → IsRouted count y.0
      → IsRouted count (if b then x else y).0
  either-IsRouted count true x y h k = h
  either-IsRouted count false x y h k = k

  walk_to-IsRouted :
      (count : ℕ) (n : HotSpotNode F) (target : Point2D F) (dt : F.Float) (rng : R.Rng)
      → IsRouted count n
      → IsRouted count (walk_to R n target dt rng).0
  unfolding walk_to
  walk_to-IsRouted count n target dt rng h =
      either-IsRouted count (arrives F R n.walker _ target) _ _
        (record { known = h.known; bound = λ e. absurd (ground arith) })
        (record { known = h.known; bound = h.bound })

  spot_move_to_target-Goes :
      (spots : List (HotSpot F)) (n : HotSpotNode F) (dt : F.Float) (rng : R.Rng) (k : ℕ)
      → IsRouted (length spots) n
      → n.target_spot ≡ some k
      → Goes (length spots) (spot_move_to_target R spots n dt rng)
  unfolding spot_move_to_target target_of
  spot_move_to_target-Goes spots n dt rng k h e =
      let within : k < length spots = subst (IsPlace (length spots)) e h.known in
      let (s, at) = get_elem?-some spots k within in
      (
        walk_to R n s.p dt rng,
        ap (λ t. target_of R spots t >>= λ s. some (walk_to R n s.p dt rng)) e
            ∙ ap (λ o. o >>= λ s. some (walk_to R n s.p dt rng)) at,
        walk_to-IsRouted (length spots) n s.p dt rng h,
      )

  set_out-Goes :
      (spots : List (HotSpot F)) (n : HotSpotNode F) (t : Option ℕ) (dt : F.Float) (rng : R.Rng)
      → IsPlace (length spots) t
      → Goes (length spots) (set_out R spots n t dt rng)
  unfolding set_out
  set_out-Goes spots n none dt rng h = (
    (record n { pause = true; target_spot = none }, rng),
    refl,
    record { known = tt; bound = λ e. absurd (ground arith) },
  )
  set_out-Goes spots n (some k) dt rng h =
      spot_move_to_target-Goes spots (record n { pause = false; target_spot = some k }) dt rng k
        (record { known = h; bound = λ e. (k, refl) }) refl

  either_Goes :
      (count : ℕ) (b : Bool) (x y : Option (HotSpotNode F × R.Rng))
      → ((b ≡ true) → Goes count x)
      → ((b ≡ false) → Goes count y)
      → Goes count (if b then x else y)
  either_Goes count true x y h k = h refl
  either_Goes count false x y h k = k refl

  wait-Goes :
      (spots : List (HotSpot F)) (n : HotSpotNode F) (dt : F.Float) (rng : R.Rng)
      → IsGraph spots
      → IsRouted (length spots) n
      → Goes (length spots) (wait R spots n dt rng)
  unfolding wait
  wait-Goes spots n dt rng g h =
      let (t, found, place) = next_spot-some spots n.walker.body.position n.target_spot g h.known in
      either_Goes (length spots) (F.flt n.walker.local_time n.walker.pause_time) _ _
        (λ e. (_, refl, record { known = h.known; bound = h.bound }))
        (λ e.
          subst (λ o. Goes (length spots) (o >>= λ t. set_out R spots n t dt rng)) (sym found)
            (set_out-Goes spots n t dt rng place))

  pub spot_move-Goes :
      (spots : List (HotSpot F)) (n : HotSpotNode F) (dt : F.Float) (rng : R.Rng)
      → IsGraph spots
      → IsRouted (length spots) n
      → Goes (length spots) (spot_move R spots n dt rng)
  unfolding spot_move resolve_collision
  spot_move-Goes spots n dt rng g h =
      either_Goes (length spots) n.walker.body.collided _ _
        (λ e. (_, refl, record { known = h.known; bound = h.bound }))
        (λ e.
          either_Goes (length spots) n.pause _ _ (λ p. wait-Goes spots n dt rng g h)
            (λ p. let (k, at) = h.bound p in spot_move_to_target-Goes spots n dt rng k h at))

  -- In a graph of hot spots whose connections end at its spots, a step of a hot-spot node follows
  -- no null pointer, if the target that the node may have is a spot and the node has one unless
  -- it pauses; and the step keeps that so.
  pub spot_think-IsRouted :
      (spots : List (HotSpot F)) (n : HotSpotNode F) (dt : F.Float) (rng : R.Rng)
      → IsGraph spots
      → IsRouted (length spots) n
      → (r : HotSpotNode F × R.Rng) × (spot_think R spots n dt rng ≡ some r)
        × IsRouted (length spots) r.0
  unfolding spot_think
  spot_think-IsRouted spots n dt rng g h =
      let (r, moved, routed) = spot_move-Goes spots n dt rng g h in
      (
        (record r.0 { walker = tick F R r.0.walker dt }, r.1),
        ap
            (λ o.
              o >>= λ moved. some (record moved.0 { walker = tick F R moved.0.walker dt }, moved.1))
            moved,
        record { known = routed.known; bound = routed.bound },
      )
