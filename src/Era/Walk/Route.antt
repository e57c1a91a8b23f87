-- ===== src/Era/Walk/Route.antt =====
-- The hot spots that the nodes of the Era model go to (Era/Walk.antt).
use simulations.Base.{
  ℕ, zero, suc, ◌||◌, ◌==◌, ◌≡◌, refl, ap, ◌∙◌, Bool, true, false, if◌then◌else◌, List, [], ◌∷◌,
  Option, some, All, length,
}
use simulations.Floats.{Floating}
use simulations.Random.{Random}
use simulations.Geometry.{Point2D}
use simulations.Messages.Node.{◌>>=◌}
use simulations.Scenario.Queries.{HotSpot}
use simulations.Mobility.Route.{IsGraph, IsRouted, spot_move-Goes}
use simulations.Era.{EraNode, is_in, set_type_node, set_type, role_assignment}
use simulations.Era.Walk.{
  EraModel, spot_view, put_spot, coloring, nomadic_walk, random_walk, hot_spot_walk, era_walk,
  tick_node, era_node_think, era_think, era_move_all, era_step,
}

module _ {F : Floating} where
  abbrev pub Routed : ℕ → EraNode F → Type 0
  Routed count n = IsRouted count (spot_view n)

  set_type_node-Routed :
      (count : ℕ) (n : EraNode F) (k : ℕ) → Routed count n → Routed count (set_type_node n k)
  unfolding set_type_node
  set_type_node-Routed count n zero h = record { known = h.known; bound = h.bound }
  set_type_node-Routed count n (suc zero) h = record { known = h.known; bound = h.bound }
  set_type_node-Routed count n (suc (suc zero)) h = record { known = h.known; bound = h.bound }
  set_type_node-Routed count n (suc (suc (suc k))) h = record { known = h.known; bound = h.bound }

  either-Routed :
      (count : ℕ) (b : Bool) (x y : EraNode F)
      → Routed count x
      → Routed count y
      → Routed count (if b then x else y)
  either-Routed count true x y h k = h
  either-Routed count false x y h k = k

  set_type-Routed :
      (count : ℕ) (nodes input : List (EraNode F)) (k : ℕ)
      → All (Routed count) nodes
      → All (Routed count) (set_type nodes input k)
  unfolding set_type
  set_type-Routed count [] input k h = tt
  set_type-Routed count (n ∷ nodes) input k h = (
    either-Routed count (is_in n input) (set_type_node n k) n (set_type_node-Routed count n k h.0)
        h.0,
    set_type-Routed count nodes input k h.1,
  )

  length-set_type :
      (nodes input : List (EraNode F)) (k : ℕ) → length (set_type nodes input k) ≡ length nodes
  unfolding set_type
  length-set_type [] input k = refl
  length-set_type (n ∷ nodes) input k = ap suc (length-set_type nodes input k)

  -- As many nodes as before, each routed.
  abbrev pub StayRouted : ℕ → List (EraNode F) → List (EraNode F) → Type 0
  StayRouted count nodes nodes' = (length nodes' ≡ length nodes) × All (Routed count) nodes'

  role_assignment-Routed :
      (count : ℕ) (nodes : List (EraNode F))
      → All (Routed count) nodes
      → StayRouted count nodes (role_assignment nodes)
  unfolding role_assignment
  role_assignment-Routed count nodes h = (
    length-set_type _ _ 3 ∙ length-set_type _ _ 2 ∙ length-set_type nodes _ 1,
    set_type-Routed count _ _ 3 (set_type-Routed count _ _ 2 (set_type-Routed count nodes _ 1 h)),
  )

  either-StayRouted :
      (count : ℕ) (b : Bool) (nodes : List (EraNode F)) (x y : EraModel F)
      → StayRouted count nodes x.nodes
      → StayRouted count nodes y.nodes
      → StayRouted count nodes (if b then x else y).nodes
  either-StayRouted count true nodes x y h k = h
  either-StayRouted count false nodes x y h k = k

  coloring-StayRouted :
      (count : ℕ) (m : EraModel F) (dt : F.Float)
      → All (Routed count) m.nodes
      → StayRouted count m.nodes (coloring m dt).nodes
  unfolding coloring
  coloring-StayRouted count m dt h =
      either-StayRouted count (F.flt m.coloring_interval m.local_model_time) m.nodes _ m
        (role_assignment-Routed count m.nodes h) (refl, h)

module _ {F : Floating} (R : Random) where
  abbrev Walks : ℕ → Option (EraNode F × R.Rng) → Type 0
  Walks count o = (r : EraNode F × R.Rng) × (o ≡ some r) × Routed count r.0

  either-Walks :
      (count : ℕ) (b : Bool) (x y : Option (EraNode F × R.Rng))
      → Walks count x
      → Walks count y
      → Walks count (if b then x else y)
  either-Walks count true x y h k = h
  either-Walks count false x y h k = k

  either_pair :
      (count : ℕ) (b : Bool) (x y : EraNode F × R.Rng)
      → Routed count x.0
      → Routed count y.0
      → Routed count (if b then x else y).0
  either_pair count true x y h k = h
  either_pair count false x y h k = k

  random_walk-Routed :
      (count : ℕ) (n : EraNode F) (dt : F.Float) (rng : R.Rng)
      → Routed count n
      → Routed count (random_walk R n dt rng).0
  unfolding random_walk
  random_walk-Routed count n dt rng h =
      either_pair count (F.flt (F.of_int _) n.local_time || n.body.collided) _ (n, rng)
        (record { known = h.known; bound = h.bound }) h

  hot_spot_walk-Walks :
      (spots : List (HotSpot F)) (n : EraNode F) (dt : F.Float) (rng : R.Rng)
      → IsGraph spots
      → Routed (length spots) n
      → Walks (length spots) (hot_spot_walk R spots n dt rng)
  unfolding hot_spot_walk
  hot_spot_walk-Walks spots n dt rng g h =
      let (r, moved, routed) = spot_move-Goes R spots (spot_view n) dt rng g h in
      (
        (put_spot n r.0, r.1),
        ap (λ o. o >>= λ s. some (put_spot n s.0, s.1)) moved,
        record { known = routed.known; bound = routed.bound },
      )

  era_node_think-Walks :
      (spots : List (HotSpot F)) (p : Point2D F) (n : EraNode F) (dt : F.Float) (rng : R.Rng)
      → IsGraph spots
      → Routed (length spots) n
      → Walks (length spots) (era_node_think R spots p n dt rng)
  unfolding era_node_think era_walk nomadic_walk
  era_node_think-Walks spots p n dt rng g h =
      let count = length spots in
      let hot = hot_spot_walk-Walks spots n dt rng g h in
      let random : Walks count (some (random_walk R n dt rng)) =
        (random_walk R n dt rng, refl, random_walk-Routed count n dt rng h) in
      let nomadic : Walks count (some (nomadic_walk R n p dt rng)) =
        (nomadic_walk R n p dt rng, refl, record { known = h.known; bound = h.bound }) in
      let (r, walked, routed) =
        either-Walks count (n.kind == 1) _ _ nomadic
          (either-Walks count (n.kind == 2) _ _ random hot) in
      (
        tick_node R dt r,
        ap (λ o. o >>= λ s. some (tick_node R dt s)) walked,
        record { known = routed.known; bound = routed.bound },
      )

  era_move_all-StayRouted :
      (spots : List (HotSpot F)) (p : Point2D F) (nodes : List (EraNode F)) (dt : F.Float)
      (rng : R.Rng)
      → IsGraph spots
      → All (Routed (length spots)) nodes
      → (r : List (EraNode F) × R.Rng) × (era_move_all R spots p nodes dt rng ≡ some r)
        × StayRouted (length spots) nodes r.0
  unfolding era_move_all
  era_move_all-StayRouted spots p [] dt rng g h = (([], rng), refl, (refl, tt))
  era_move_all-StayRouted spots p (n ∷ nodes) dt rng g h =
      let (r, walked, routed) = era_node_think-Walks spots p n dt rng g h.0 in
      let (rest, moved, (long, all)) = era_move_all-StayRouted spots p nodes dt r.1 g h.1 in
      ((r.0 ∷ rest.0, rest.1), rw (walked, moved) refl, (ap suc long, (routed, all)))

  -- In a graph of hot spots whose connections end at its spots, a step of the AI manager on the
  -- Era model, in which the model colours its nodes and moves its reference point and then every
  -- node walks as its type has it, follows no null pointer, if each node's target, if it has one,
  -- is a spot and it has one unless it pauses; the nodes are then as many as before, and this
  -- holds of each.
  pub era_step-StayRouted :
      (spots : List (HotSpot F)) (m : EraModel F) (width height dt : F.Float) (rng : R.Rng)
      → IsGraph spots
      → All (Routed (length spots)) m.nodes
      → (r : EraModel F × R.Rng) × (era_step R spots m width height dt rng ≡ some r)
        × StayRouted (length spots) m.nodes r.0.nodes
  unfolding era_step era_think
  era_step-StayRouted spots m width height dt rng g h =
      let (same, colored) = coloring-StayRouted (length spots) m dt h in
      let (thought, rng') = era_think R m width height dt rng in
      let (r, moved, (long, all)) =
        era_move_all-StayRouted spots thought.guide.reference_point thought.nodes dt rng' g
          colored in
      (
        (record thought { nodes = r.0 }, r.1),
        ap (λ o. o >>= λ s. some (record thought { nodes = s.0 }, s.1)) moved,
        (long ∙ same, all),
      )
