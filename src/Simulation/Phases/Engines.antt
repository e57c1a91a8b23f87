-- ===== src/Simulation/Phases/Engines.antt =====
-- What setupAI and setupPhysic (momosecpp/src/Simulation.cpp) put into the two managers.
use mathlib.Core.Path.{ap₂}
use simulations.Base.{
  ℕ, zero, suc, ◌+◌, ◌≤◌, ◌≡◌, refl, sym, ap, ◌∙◌, Bool, true, false, if◌then◌else◌, List, [], ◌∷◌,
  ◌++◌, append_assoc, append-nil, map, keep, length, length-append, All, All-append, some, arith,
  pos, eqb_ℤ, Bool-cases, inl, inr,
}
use simulations.Floats.{Floating}
use simulations.Node.{Node}
use simulations.Scenario.Queries.{Building, Scenario}
use simulations.Simulation.Clock.{SimTime}
use simulations.Simulation.Cycle.{AiManager, add_thinkers}
use simulations.Simulation.Physics.{
  PhysicEngine, PhysicalObject, node_at, fixed, add_buildings, set_border, animate_physic,
  four_walls,
}
use simulations.Simulation.Totality.{PointsInto, MovedInTurn, animate_physic-total}
use simulations.Simulation.Phases.{
  Model, consecutive, init_engine, add_nodes, add_physical_nodes, init_ai_manager,
  add_thinker_model, setup_ai, add_models, setup_physic,
}

places_known :
    (F : Floating) (start count total : ℕ)
    → start + count ≤ total
    → All (PointsInto {F = F} total) (map node_at (consecutive start count))
places_known F start zero total h = tt
places_known F start (suc count) total h =
    (omega arith, places_known F (suc start) count total (omega arith))

module _ {F : Floating} where
  abbrev AreKnown : PhysicEngine F → Type 0
  AreKnown e = All (PointsInto {F = F} (length e.nodes)) e.physical_objs

  later_known :
      (n m : ℕ) (objs : List (PhysicalObject F))
      → n ≤ m
      → All (PointsInto n) objs
      → All (PointsInto m) objs
  later_known n m [] h k = tt
  later_known n m (node_at j ∷ objs) h k = (omega arith, later_known n m objs h k.1)
  later_known n m (fixed s ∷ objs) h k = (tt, later_known n m objs h k.1)

  shapes_known :
      (n : ℕ) (bs : List (Building F)) → All (PointsInto {F = F} n) (map (λ b. fixed b.shape) bs)
  shapes_known n [] = tt
  shapes_known n (b ∷ bs) = (tt, shapes_known n bs)

  set_border-AreKnown :
      (e : PhysicEngine F) (s : Scenario F) → AreKnown e → AreKnown (set_border e s)
  unfolding set_border
  set_border-AreKnown e s h = elim (Bool-cases (eqb_ℤ s.border_type (pos 0))) [
    | inl b ↦
        rw b
          (All-append (PointsInto (length e.nodes)) e.physical_objs _ h (tt, (tt, (tt, (tt, tt)))))
    | inr b ↦ rw b h
  ]

  length-set_border : (e : PhysicEngine F) (s : Scenario F) → (set_border e s).nodes ≡ e.nodes
  unfolding set_border
  length-set_border e s = elim (Bool-cases (eqb_ℤ s.border_type (pos 0))) [
    | inl b ↦ rw b refl
    | inr b ↦ rw b refl
  ]

  either_known :
      (b : Bool) (e f : PhysicEngine F) → AreKnown e → AreKnown f → AreKnown (if b then e else f)
  either_known true e f h k = h
  either_known false e f h k = k

  either_nodes :
      (b : Bool) (e f : PhysicEngine F) → e.nodes ≡ f.nodes → (if b then e else f).nodes ≡ f.nodes
  either_nodes true e f h = h
  either_nodes false e f h = refl

  either_objects :
      (b : Bool) (e : PhysicEngine F) (objs : List (PhysicalObject F))
      → (if b then record e { physical_objs = e.physical_objs ++ objs } else e).physical_objs
        ≡ e.physical_objs ++ (if b then objs else [])
  either_objects true e objs = refl
  either_objects false e objs = sym (append-nil e.physical_objs)

  -- The walls of a bounded scenario, whose type of border is 0.
  abbrev pub walls_of : Scenario F → List (PhysicalObject F)
  walls_of s = if eqb_ℤ s.border_type (pos 0) then four_walls s.width s.height else []

  objects-set_border :
      (e : PhysicEngine F) (s : Scenario F)
      → (set_border e s).physical_objs ≡ e.physical_objs ++ walls_of s
  unfolding set_border
  objects-set_border e s =
      either_objects (eqb_ℤ s.border_type (pos 0)) e (four_walls s.width s.height)

module _ {F : Floating} {W : Type 0} where
  -- The nodes of the models, in order.
  abbrev pub nodes_of : List (Model F W) → W → List (Node F)
  nodes_of [] w = []
  nodes_of (m ∷ ms) w = m.nodes w ++ nodes_of ms w

  abbrev pub thinks_of : List (Model F W) → W → List (SimTime F → W → W)
  thinks_of [] w = []
  thinks_of (m ∷ ms) w = m.node_thinks w ++ thinks_of ms w

  add_models-AreKnown :
      (models : List (Model F W)) (e : PhysicEngine F) (w : W)
      → AreKnown e
      → AreKnown (add_models e models w)
  unfolding add_models add_nodes add_physical_nodes
  add_models-AreKnown [] e w h = h
  add_models-AreKnown (m ∷ ms) e w h =
      let news = m.nodes w in
      let total = length (e.nodes ++ news) in
      let added = add_nodes e news in
      let size : total ≡ length e.nodes + length news = length-append e.nodes news in
      let old = later_known (length e.nodes) total e.physical_objs (omega (arith, size)) h in
      let new = places_known F (length e.nodes) (length news) total (omega (arith, size)) in
      add_models-AreKnown ms _ w (
        either_known m.physical (add_physical_nodes added (length e.nodes) (length news)) added
          (All-append (PointsInto total) e.physical_objs _ old new) old)

  nodes-add_models :
      (models : List (Model F W)) (e : PhysicEngine F) (w : W)
      → (add_models e models w).nodes ≡ e.nodes ++ nodes_of models w
  unfolding add_models add_nodes add_physical_nodes
  nodes-add_models [] e w = sym (append-nil e.nodes)
  nodes-add_models (m ∷ ms) e w =
      let news = m.nodes w in
      let added = add_nodes e news in
      let objects = add_physical_nodes added (length e.nodes) (length news) in
      nodes-add_models ms (if m.physical then objects else added) w
      ∙ ap (λ ns. ns ++ nodes_of ms w) (either_nodes m.physical objects added refl)
      ∙ append_assoc e.nodes news (nodes_of ms w)

  -- The objects of the models from node `i` on: pointers to the nodes of the physical ones.
  abbrev pub pointers_from : ℕ → List (Model F W) → W → List (PhysicalObject F)
  pointers_from i [] w = []
  pointers_from i (m ∷ ms) w =
      (if m.physical then map node_at (consecutive i (length (m.nodes w))) else [])
      ++ pointers_from (i + length (m.nodes w)) ms w

  objects-add_models :
      (models : List (Model F W)) (e : PhysicEngine F) (w : W)
      → (add_models e models w).physical_objs
        ≡ e.physical_objs ++ pointers_from (length e.nodes) models w
  unfolding add_models add_nodes add_physical_nodes
  objects-add_models [] e w = sym (append-nil e.physical_objs)
  objects-add_models (m ∷ ms) e w =
      let news = m.nodes w in
      let added = add_nodes e news in
      let places = map node_at (consecutive (length e.nodes) (length news)) in
      let objects = add_physical_nodes added (length e.nodes) (length news) in
      let chosen = if m.physical then objects else added in
      let size : length chosen.nodes ≡ length e.nodes + length news =
        ap length (either_nodes m.physical objects added refl) ∙ length-append e.nodes news in
      objects-add_models ms chosen w
      ∙ ap₂ (λ os k. os ++ pointers_from k ms w) (either_objects m.physical added places) size
      ∙ append_assoc e.physical_objs (if m.physical then places else []) _

  -- The engine that setupPhysic makes has the nodes of the models, in order, and as objects those
  -- of the physical models, each by its place, then the buildings, then the four walls if the
  -- border's type is 0; animatePhysic ends on it without a fault, and moves each node once, in
  -- order.
  pub setup_physic-total :
      (models : List (Model F W)) (s : Scenario F) (w : W)
      → let e : PhysicEngine F = setup_physic init_engine models s w in
        (e.nodes ≡ nodes_of models w)
        × (e.physical_objs
            ≡ pointers_from 0 models w ++ (map (λ b. fixed b.shape) s.buildings ++ walls_of s))
        × ((e' : PhysicEngine F) × (animate_physic s e ≡ some e')
            × MovedInTurn s.border_type e.physical_objs [] e.nodes e'.nodes)
  unfolding setup_physic add_buildings init_engine
  setup_physic-total models s w =
      let e = add_models init_engine models w in
      let built = add_buildings e s.buildings in
      let blocks = map (λ b. fixed b.shape) s.buildings in
      let known =
        All-append (PointsInto (length e.nodes)) e.physical_objs _
          (add_models-AreKnown models init_engine w tt)
          (shapes_known (length e.nodes) s.buildings) in
      let (e', moved, turns, size, same) =
        animate_physic-total s (set_border built s) (set_border-AreKnown built s known) in
      (
        length-set_border built s ∙ nodes-add_models models init_engine w,
        objects-set_border built s
            ∙ append_assoc e.physical_objs blocks (walls_of s)
            ∙ ap (λ os. os ++ (blocks ++ walls_of s)) (objects-add_models models init_engine w),
        (e', moved, turns),
      )

  setup_ai-lists :
      (models : List (Model F W)) (ai : AiManager F W) (w : W)
      → ((setup_ai ai models w).thinkers ≡ ai.thinkers ++ thinks_of models w)
        × ((setup_ai ai models w).thinkers_models
            ≡ ai.thinkers_models ++ map (λ m. m.think) (keep (λ m. m.thinker) models))
  unfolding setup_ai add_thinkers add_thinker_model
  setup_ai-lists [] ai w = (sym (append-nil ai.thinkers), sym (append-nil ai.thinkers_models))
  setup_ai-lists (m ∷ ms) ai w =
      let added = add_thinkers ai (m.node_thinks w) in
      elim (Bool-cases m.thinker) [
        | inl e ↦
            let (ts, ms') = setup_ai-lists ms (add_thinker_model added m) w in
            (
              rw e (ts ∙ append_assoc ai.thinkers (m.node_thinks w) (thinks_of ms w)),
              rw e (
                  ms'
                  ∙ append_assoc ai.thinkers_models (m.think ∷ [])
                      (map (λ k. k.think) (keep (λ k. k.thinker) ms))),
            )
        | inr e ↦
            let (ts, ms') = setup_ai-lists ms added w in
            (rw e (ts ∙ append_assoc ai.thinkers (m.node_thinks w) (thinks_of ms w)), rw e ms')
      ]

  -- The AI manager that setupAI should make: the nodes of all models, and the models that think.
  abbrev pub full_manager : List (Model F W) → W → AiManager F W
  full_manager models w = record {
    thinkers = thinks_of models w;
    thinkers_models = map (λ m. m.think) (keep (λ m. m.thinker) models);
  }

  pub setup_ai-full :
      (models : List (Model F W)) (w : W)
      → setup_ai init_ai_manager models w ≡ full_manager models w
  unfolding init_ai_manager
  setup_ai-full models w =
      let (ts, ms) = setup_ai-lists models init_ai_manager w in
      λ i. record { thinkers = ts i; thinkers_models = ms i }
