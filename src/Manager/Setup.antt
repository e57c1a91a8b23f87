-- ===== src/Manager/Setup.antt =====
-- The setup of all builders of a configuration, and createSimulation, in class SimulationManager
-- (momosecpp/src/SimulationManager.cpp). A found builder points into the registry, where it is the
-- first of its name; a configuration may name it twice.
pub mod Loaded
pub mod Created
use Prim.Native.Char.{Char}
use Prim.Native.String.{String}
use text.Mathlib.Text.{◌==◌ as str_eq}
use simulations.Base.{
  Bool, ◌||◌, not, if◌then◌else◌, List, [], ◌∷◌, Option, none, some, ℤ, pos, leb_ℤ,
}
use simulations.Floats.{Floating}
use simulations.Messages.Node.{◌>>=◌}
use simulations.Scenario.Queries.{Scenario}
use simulations.Simulation.Clock.{SimTime}
use simulations.Parsers.Scenes.{ConfigSimParser}
use simulations.Manager.Builders.{Builder, search_name, get_build_vector, setup_builder}

-- The reasons for which the program ends; each has its message.
pub data Failure : Type 0 where
  config_unread not_config no_time bad_time no_scenario models_unread recorders_unread : Failure

pub data Creation (A : Type 0) : Type 0 where
  created : A → Creation A
  aborted : Failure → Creation A

module _ {P : Type 0} where
  -- A write through the pointer to the builder of that name.
  unfoldable pub store_builder : Builder P → List (Builder P) → List (Builder P)
  store_builder b [] = []
  store_builder b (c ∷ cs) = if str_eq b.name c.name then b ∷ cs else c ∷ store_builder b cs

  module _ (read : List Char → P → Option P) (cfg_file_name : List Char) where
    -- `none` is the end of the program by `exit`.
    unfoldable pub setup_all : List (Builder P) → List (Builder P) → Option (List (Builder P))
    unfolding search_name store_builder setup_builder
    setup_all [] registered = some registered
    setup_all (b ∷ bs) registered = do
      now ← search_name registered b.name
      after ← setup_builder read now cfg_file_name
      setup_all bs (store_builder after registered)

    unfoldable pub setup_builders : List String → List (Builder P) → Option (List (Builder P))
    unfolding get_build_vector setup_all
    setup_builders names registered = setup_all (get_build_vector registered names) registered

-- The parts that a simulation is made of: the models and the recorders come from the builders found.
pub record Parts (F : Floating) (P : Type 0) : Type 0 where
  pub scenario : Scenario F
  pub sim_time : SimTime F
  pub models_builders : List (Builder P)
  pub recorders_builders : List (Builder P)

-- The test of ctrlSimTime.
unfoldable pub is_bad_time : {F : Floating} → SimTime F → Bool
is_bad_time {F} st =
    leb_ℤ st.n (pos 0) || F.fle st.dt (F.of_int (pos 0)) || F.fle st.total (F.of_int (pos 0))

module _ {F : Floating} {P : Type 0} (read : List Char → P → Option P)
    (cfg_file_name : List Char) where
  abbrev pub with_recorders :
      Scenario F → SimTime F → List (Builder P) → Option (List (Builder P)) → Creation (Parts F P)
  with_recorders s st ms none = aborted recorders_unread
  with_recorders s st ms (some rs) =
      created
        (record { scenario = s; sim_time = st; models_builders = ms; recorders_builders = rs })

  abbrev pub with_models :
      Scenario F
      → SimTime F
      → Option (List (Builder P))
      → Option (List (Builder P))
      → Creation (Parts F P)
  with_models s st none rs = aborted models_unread
  with_models s st (some ms) rs = with_recorders s st ms rs

  abbrev pub with_scenario :
      Option (Scenario F)
      → SimTime F
      → Option (List (Builder P))
      → Option (List (Builder P))
      → Creation (Parts F P)
  with_scenario none st ms rs = aborted no_scenario
  with_scenario (some s) st ms rs = with_models s st ms rs

  abbrev pub with_time :
      Option (SimTime F)
      → Option (Scenario F)
      → Option (List (Builder P))
      → Option (List (Builder P))
      → Creation (Parts F P)
  with_time none s ms rs = aborted no_time
  with_time (some st) s ms rs =
      if is_bad_time st then aborted bad_time else with_scenario s st ms rs

  abbrev pub with_config :
      ConfigSimParser F
      → Option (List (Builder P))
      → Option (List (Builder P))
      → Creation (Parts F P)
  with_config c ms rs =
      if c.config_file
      then with_time c.base.sim_time c.base.base.scenario ms rs
      else aborted not_config

  -- `parsed` is the parser after the main file, or `none` if that cannot be opened. The builders
  -- are set up only when the tests before have passed.
  unfoldable pub create_simulation :
      List (Builder P) → List (Builder P) → Option (ConfigSimParser F) → Creation (Parts F P)
  unfolding setup_builders is_bad_time
  create_simulation models recorders none = aborted config_unread
  create_simulation models recorders (some c) =
      with_config c (setup_builders read cfg_file_name c.mod_build_names models)
        (setup_builders read cfg_file_name c.rec_build_names recorders)
