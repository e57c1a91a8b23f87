-- ===== src/Manager/Setup/Created.antt =====
-- How createSimulation (momosecpp/src/SimulationManager.cpp) ends.
use Prim.Native.Char.{Char}
use simulations.Base.{◌≡◌, true, false, List, Option, none, some, In, All}
use simulations.Floats.{Floating}
use simulations.Scenario.Queries.{Scenario}
use simulations.Simulation.Clock.{SimTime}
use simulations.Parsers.Scenes.{ConfigSimParser}
use simulations.Manager.Builders.{Builder, get_build_vector}
use simulations.Manager.Setup.{
  config_unread, not_config, no_time, bad_time, no_scenario, models_unread, recorders_unread,
  Creation, created, aborted, Parts, is_bad_time,
}
use simulations.Manager.Setup.Loaded.{Unreadable, Loaded}

module _ {F : Floating} {P : Type 0} (read : List Char → P → Option P) (cfg_file_name : List Char)
    (models recorders : List (Builder P)) where
  abbrev pub found_models : ConfigSimParser F → List (Builder P)
  found_models c = get_build_vector models c.mod_build_names

  abbrev pub found_recorders : ConfigSimParser F → List (Builder P)
  found_recorders c = get_build_vector recorders c.rec_build_names

  -- What a main file that was read has to do with the end of createSimulation.
  abbrev pub Explains : ConfigSimParser F → Creation (Parts F P) → Type 0
  Explains c (created s) =
      (c.config_file ≡ true)
      × (c.base.sim_time ≡ some s.sim_time)
      × (is_bad_time s.sim_time ≡ false)
      × (c.base.base.scenario ≡ some s.scenario)
      × All (Loaded read cfg_file_name s.models_builders) (found_models c)
      × All (Loaded read cfg_file_name s.recorders_builders) (found_recorders c)
  Explains c (aborted config_unread) = ⊥
  Explains c (aborted not_config) = c.config_file ≡ false
  Explains c (aborted no_time) = c.base.sim_time ≡ none
  Explains c (aborted bad_time) =
      (st : SimTime F) × (c.base.sim_time ≡ some st) × (is_bad_time st ≡ true)
  Explains c (aborted no_scenario) = c.base.base.scenario ≡ none
  Explains c (aborted models_unread) =
      (b : Builder P) × In b (found_models c) × Unreadable read cfg_file_name b
  Explains c (aborted recorders_unread) =
      (b : Builder P) × In b (found_recorders c) × Unreadable read cfg_file_name b

  abbrev pub Ends : Option (ConfigSimParser F) → Creation (Parts F P) → Type 0
  Ends none r = r ≡ aborted config_unread
  Ends (some c) r = Explains c r
