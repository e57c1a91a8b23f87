-- ===== src/Simulation/Phases/Run.antt =====
-- Simulation::run (momosecpp/src/Simulation.cpp) from its setup to its end.
use simulations.Base.{ℕ, Bool, List, map}
use simulations.Floats.{Floating}
use simulations.Scenario.Queries.{Scenario}
use simulations.Simulation.Clock.{SimTime, down_time}
use simulations.Simulation.Ending.{ticks, bodies}
use simulations.Simulation.Physics.{PhysicEngine}
use simulations.Simulation.Phases.{
  Model, DataRecorder, init_engine, setup_models, setup_physic, setup_recorders, end_simulation,
}
use simulations.Simulation.Phases.Engines.{full_manager}

module _ {F : Floating} {W : Type 0} (models : List (Model F W))
    (recorders : List (DataRecorder F W)) (s : Scenario F) (animate : PhysicEngine F → W → W)
    (running : ℕ → Bool) where
  abbrev pub record_datas : List (SimTime F → W → W)
  record_datas = map (λ r. r.record_data) recorders

  -- The end of a run of `n` iterations: the recorders are closed after them, in order.
  abbrev pub run_end : ℕ → SimTime F → W → SimTime F × W
  run_end n st w =
      let made = setup_models models st w in
      (
        down_time F (ticks n st),
        end_simulation recorders (
            bodies (full_manager models made) record_datas
              (animate (setup_physic init_engine models s made)) running n st
              (setup_recorders recorders st made)),
      )
