-- ===== src/Simulation/Phases.antt =====
-- The phases of momosecpp/src/Simulation.cpp around its main loop: setupModels, setupAI, setupPhysic,
-- setupRecorders and endSimulation, and run. `W` is the state of the models, nodes and recorders.
-- What the phases print is not modelled.
pub mod Engines
pub mod Run
use simulations.Base.{
  ℕ, zero, suc, ◌+◌, Bool, List, [], ◌∷◌, ◌++◌, if◌then◌else◌, Option, none, some, map, length,
}
use simulations.Floats.{Floating}
use simulations.Node.{Node}
use simulations.Scenario.Queries.{Scenario}
use simulations.Simulation.Clock.{SimTime}
use simulations.Simulation.Cycle.{AiManager, add_thinkers, in_turn, simulation_cicle}
use simulations.Simulation.Physics.{
  PhysicEngine, PhysicalObject, node_at, add_buildings, set_border,
}

-- The virtual methods of a class of models, and its flags. `node_thinks` are the think methods of
-- its nodes, and `nodes` the nodes, as they are in a state.
pub record Model (F : Floating) (W : Type 0) : Type 0 where
  pub setup : SimTime F → W → W
  pub think : SimTime F → W → W
  pub nodes : W → List (Node F)
  pub node_thinks : W → List (SimTime F → W → W)
  pub physical : Bool
  pub thinker : Bool

pub record DataRecorder (F : Floating) (W : Type 0) : Type 0 where
  pub setup : SimTime F → W → W
  pub record_data : SimTime F → W → W
  pub close : W → W

abbrev pub consecutive : ℕ → ℕ → List ℕ
consecutive start zero = []
consecutive start (suc n) = start ∷ consecutive (suc start) n

module _ {F : Floating} where
  unfoldable pub init_engine : PhysicEngine F
  init_engine = record { nodes = []; physical_objs = [] }

  unfoldable pub add_nodes : PhysicEngine F → List (Node F) → PhysicEngine F
  add_nodes e new_nodes = record e { nodes = e.nodes ++ new_nodes }

  -- The nodes are the last ones that were added, so they are known by their places.
  unfoldable pub add_physical_nodes : PhysicEngine F → ℕ → ℕ → PhysicEngine F
  add_physical_nodes e start count = record e {
    physical_objs = e.physical_objs ++ map node_at (consecutive start count);
  }

module _ {F : Floating} {W : Type 0} where
  unfoldable pub setup_models : List (Model F W) → SimTime F → W → W
  unfolding in_turn
  setup_models models st w = in_turn (map (λ m. m.setup) models) st w

  unfoldable pub init_ai_manager : AiManager F W
  init_ai_manager = record { thinkers = []; thinkers_models = [] }

  unfoldable pub add_thinker_model : AiManager F W → Model F W → AiManager F W
  add_thinker_model ai m = record ai { thinkers_models = ai.thinkers_models ++ m.think ∷ [] }

  unfoldable pub setup_ai : AiManager F W → List (Model F W) → W → AiManager F W
  unfolding add_thinkers add_thinker_model
  setup_ai ai [] w = ai
  setup_ai ai (m ∷ ms) w =
      let added = add_thinkers ai (m.node_thinks w) in
      setup_ai (if m.thinker then add_thinker_model added m else added) ms w

  -- The loop of setupPhysic over the models.
  unfoldable pub add_models : PhysicEngine F → List (Model F W) → W → PhysicEngine F
  unfolding add_nodes add_physical_nodes
  add_models e [] w = e
  add_models e (m ∷ ms) w =
      let added = add_nodes e (m.nodes w) in
      let objects = add_physical_nodes added (length e.nodes) (length (m.nodes w)) in
      add_models (if m.physical then objects else added) ms w

  unfoldable pub setup_physic : PhysicEngine F → List (Model F W) → Scenario F → W → PhysicEngine F
  unfolding add_models add_buildings set_border
  setup_physic e models s w = set_border (add_buildings (add_models e models w) s.buildings) s

  unfoldable pub setup_recorders : List (DataRecorder F W) → SimTime F → W → W
  unfolding in_turn
  setup_recorders recorders st w = in_turn (map (λ r. r.setup) recorders) st w

  unfoldable pub end_simulation : List (DataRecorder F W) → W → W
  end_simulation [] w = w
  end_simulation (r ∷ rs) w = end_simulation rs (r.close w)

  unfoldable pub close_run :
      List (DataRecorder F W) → Option (SimTime F × W) → Option (SimTime F × W)
  unfolding end_simulation
  close_run recorders none = none
  close_run recorders (some (st, w)) = some (st, end_simulation recorders w)

  -- `animate` is animatePhysic on the state, with the engine that setupPhysic makes.
  module _ (models : List (Model F W)) (recorders : List (DataRecorder F W)) (s : Scenario F)
      (animate : PhysicEngine F → W → W) (running : ℕ → Bool) where
    unfoldable pub cicle_from : ℕ → SimTime F → W → W → Option (SimTime F × W)
    unfolding setup_ai init_ai_manager setup_physic init_engine simulation_cicle
    cicle_from fuel st made ready =
        simulation_cicle (setup_ai init_ai_manager models made) (map (λ r. r.record_data) recorders)
          (animate (setup_physic init_engine models s made)) running fuel st ready

    unfoldable pub run : ℕ → SimTime F → W → Option (SimTime F × W)
    unfolding setup_models setup_recorders cicle_from close_run
    run fuel st w =
        let made = setup_models models st w in
        close_run recorders (cicle_from fuel st made (setup_recorders recorders st made))
