-- ===== src/Manager/Builders.antt =====
-- class SimulationManager (momosecpp/src/SimulationManager.cpp): the search of the builders that a
-- configuration names among those the system registers, and the reading of the configuration file of
-- a builder. `P` is the state of a builder's parser, and `read` is parseXMLFile, whose file and XML
-- reader are outside the model: `none` is a file that cannot be opened.
use Prim.Native.Char.{Char}
use Prim.Native.String.{String}
use text.Mathlib.Text.{◌==◌ as str_eq}
use simulations.Base.{if◌then◌else◌, List, [], ◌∷◌, Option, none, some}
use simulations.Manager.Paths.{get_cfg_file_path}

-- A builder without a parser has no configuration file.
pub record Builder (P : Type 0) : Type 0 where
  pub name : String
  pub config_parser : Option P

unfoldable pub registered_models : List String
registered_models =
    "Random Walk Message Model" ∷ "Random walk Model" ∷ "Random waypoint Model"
    ∷ "Random_Waypoint_Message_Model" ∷ "ERA Model" ∷ "Hot-Spot Model" ∷ "Nomadic Model"
    ∷ "Pursue Model" ∷ []

unfoldable pub registered_recorders : List String
registered_recorders = "Viewer recorder" ∷ "Message_recorder" ∷ []

module _ {P : Type 0} where
  unfoldable pub search_name : List (Builder P) → String → Option (Builder P)
  search_name [] name = none
  search_name (b ∷ bs) name = if str_eq name b.name then some b else search_name bs name

  -- A name that is not found is skipped, with a warning.
  unfoldable pub push_found : Option (Builder P) → List (Builder P) → List (Builder P)
  push_found none bs = bs
  push_found (some b) bs = b ∷ bs

  unfoldable pub get_build_vector : List (Builder P) → List String → List (Builder P)
  unfolding search_name push_found
  get_build_vector registered [] = []
  get_build_vector registered (name ∷ names) =
      push_found (search_name registered name) (get_build_vector registered names)

  module _ (read : List Char → P → Option P) where
    unfoldable pub keep_parsed : Builder P → Option P → Option (Builder P)
    keep_parsed b none = none
    keep_parsed b (some p) = some (record b { config_parser = some p })

    unfoldable pub parse_config : Builder P → Option P → List Char → Option (Builder P)
    unfolding keep_parsed get_cfg_file_path
    parse_config b none cfg_file_name = some b
    parse_config b (some p) cfg_file_name =
        keep_parsed b (read (get_cfg_file_path b.name cfg_file_name) p)

    -- `none` is the end of the program by `exit`.
    unfoldable pub setup_builder : Builder P → List Char → Option (Builder P)
    unfolding parse_config
    setup_builder b cfg_file_name = parse_config b b.config_parser cfg_file_name
