-- ===== src/Tests/Runs.antt =====
-- The theorems on the phases of a simulation, at small inputs.
use simulations.Base.{ℕ, ◌*◌, ◌≡◌, Bool, true, false, List, [], ◌∷◌, ◌++◌, pos, some, length}
use simulations.Floats.{milli}
use simulations.Scenario.Queries.{Scenario}
use simulations.Simulation.Clock.{SimTime}
use simulations.Simulation.Physics.{PhysicEngine, animate_physic}
use simulations.Simulation.Phases.{Model, DataRecorder, init_engine, setup_physic}
use simulations.Simulation.Phases.Engines.{nodes_of, pointers_from, walls_of, setup_physic-total}
use simulations.Simulation.Totality.{MovedInTurn}
use simulations.Tests.Sample.{body_at}

-- The state is the log of what is called.
abbrev Log : Type 0
Log = List ℕ

abbrev logged : ℕ → SimTime milli → Log → Log
logged k st w = w ++ k ∷ []

abbrev walkers : Model milli Log
walkers = record {
  setup = logged 1;
  think = logged 2;
  nodes = λ w. body_at (pos 0) ∷ body_at (pos 2000) ∷ [];
  node_thinks = λ w. logged 3 ∷ logged 4 ∷ [];
  physical = true;
  thinker = false;
}

abbrev leaders : Model milli Log
leaders = record {
  setup = logged 5;
  think = logged 6;
  nodes = λ w. body_at (pos 9000) ∷ [];
  node_thinks = λ w. logged 7 ∷ [];
  physical = false;
  thinker = true;
}

abbrev models : List (Model milli Log)
models = walkers ∷ leaders ∷ []

abbrev recorders : List (DataRecorder milli Log)
recorders = record { setup = logged 10; record_data = logged 11; close = λ w. w ++ 12 ∷ [] } ∷ []

abbrev field : Scenario milli
field = record {
  buildings = [];
  hot_spots = [];
  texts = [];
  width = pos 20000;
  height = pos 20000;
  border_type = pos 0;
}

setup_physic-total_example :
    let e : PhysicEngine milli = setup_physic init_engine models field [] in
    (e.nodes ≡ nodes_of models [])
    × (e.physical_objs ≡ pointers_from 0 models [] ++ ([] ++ walls_of field))
    × ((e' : PhysicEngine milli) × (animate_physic field e ≡ some e')
        × MovedInTurn (pos 0) e.physical_objs [] e.nodes e'.nodes)
setup_physic-total_example = setup_physic-total models field []

-- Two seconds in steps of one.
abbrev seconds : SimTime milli
seconds = record { total = pos 2000; dt = pos 1000; n = pos 2; loop = pos 0; time = pos 0 }

abbrev moved : PhysicEngine milli → Log → Log
moved e w = w ++ length e.nodes * 100 ∷ []

abbrev always : ℕ → Bool
always i = true
