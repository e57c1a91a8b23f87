-- ===== src/Tests/Loading.antt =====
-- The theorems on the loading of a configuration, at small inputs.
use Prim.Native.Char.{Char, code}
use Prim.Native.String.{String}
use simulations.Manager.Files.{bufsize, joined, feed_all, parse_xml_file, parse_xml_file-fed}
use simulations.Base.{
  All, length, ◌<◌, arith, Bool, true, pos, false, ◌+ℤ◌, true, ℕ, suc, ◌==◌, if◌then◌else◌, ◌≡◌,
  refl, ◌++◌, List, [], ◌∷◌, Option, none, some,
}
use simulations.Parsers.Texts.{string_to_bool}
use simulations.Parsers.Document.{parse, events}
use simulations.Parsers.Recorders.{
  init_recorder_parser, recorder_start_element, recorder_character_data, recorder_settings,
  recorder_handler,
}
use simulations.Floats.{milli}
use simulations.Simulation.Clock.{init_sim_time}
use simulations.Parsers.Scenes.{ConfigSimParser, init_scenario}
use simulations.Manager.Setup.{aborted, models_unread, setup_builders, create_simulation}
use simulations.Manager.Paths.{chars, folder, get_cfg_file_path, get_cfg_file_path-beside}
use simulations.Manager.Builders.{Builder, setup_builder}

beside_config :
    get_cfg_file_path "ERA Model" (chars "conf/run.xml") ≡ chars "conf/ERA Model-run.xml"
unfolding get_cfg_file_path
beside_config = refl

get_cfg_file_path-beside_example :
    (get_cfg_file_path "ERA Model" (chars "run.xml")
      ≡ (chars "ERA Model" ++ chars "-") ++ chars "run.xml")
    × (get_cfg_file_path "ERA Model" (folder (chars "conf") "/" ++ chars "run.xml")
        ≡ folder (chars "conf") "/" ++ ((chars "ERA Model" ++ chars "-") ++ chars "run.xml"))
get_cfg_file_path-beside_example =
    get_cfg_file_path-beside "ERA Model" (chars "conf") (chars "run.xml") "/" refl
      (refl, (refl, (refl, (refl, (refl, (refl, (refl, tt)))))))

-- What a parser has read, and what its model is made of, are numbers.
abbrev with_parser : String → ℕ → Builder ℕ
with_parser name p = record { name = name; config_parser = some p }

abbrev without_parser : String → Builder ℕ
without_parser name = record { name = name; config_parser = none }

abbrev registered : List (Builder ℕ)
registered = with_parser "ERA Model" 0 ∷ without_parser "Hot-Spot Model" ∷ []

abbrev asked : List String
asked = "Hot-Spot Model" ∷ "Unknown Model" ∷ "ERA Model" ∷ []

-- There are only files whose path starts with `E`.
abbrev read_file : List Char → ℕ → Option ℕ
read_file [] p = none
read_file (c ∷ path) p = if code c == b'E' then some (suc p) else none

-- A configuration that names one builder twice: its parser reads the file twice.
abbrev config : ConfigSimParser milli
config = record {
  base = record {
    base = record {
      scenario = some (init_scenario (pos 9000) (pos 9000) (pos 1));
      scenario_file = false;
    };
    sim_time = some (init_sim_time milli (pos 3000) (pos 1000) (pos 3));
  };
  config_file = true;
  mod_build_names = "ERA Model" ∷ "Hot-Spot Model" ∷ "ERA Model" ∷ [];
  rec_build_names = "No recorder" ∷ [];
}

twice_parsed :
    setup_builders read_file (chars "run.xml") config.mod_build_names registered
    ≡ some (with_parser "ERA Model" 2 ∷ without_parser "Hot-Spot Model" ∷ [])
unfolding setup_builders
twice_parsed = refl

models_missing :
    create_simulation read_file (chars "conf/run.xml") registered [] (some config)
    ≡ aborted models_unread
unfolding create_simulation init_sim_time ◌+ℤ◌
models_missing = refl

era_parsed :
    setup_builder read_file (with_parser "ERA Model" 0) (chars "run.xml")
    ≡ some (with_parser "ERA Model" 1)
unfolding setup_builder
era_parsed = refl

no_parser :
    setup_builder read_file (without_parser "Pursue Model") (chars "run.xml")
    ≡ some (without_parser "Pursue Model")
unfolding setup_builder
no_parser = refl

no_file : setup_builder read_file (with_parser "ERA Model" 0) (chars "conf/run.xml") ≡ none
unfolding setup_builder
no_file = refl

recorder_read :
    recorder_settings (
      parse recorder_handler
        (events (
          record { name = "filePath"; text = "out.xml"; after = [] }
          ∷ record { name = "compressOutput"; text = "TRUE"; after = "~" ∷ [] }
          ∷ []))
        init_recorder_parser)
    ≡ ("out.xml", true)
unfolding parse recorder_settings recorder_start_element recorder_character_data
    init_recorder_parser string_to_bool
recorder_read = refl

-- The XML reader keeps the sizes of its blocks, and their marks.
abbrev kept_sizes : List ℕ → Bool → List (ℕ × Bool) → List (ℕ × Bool)
kept_sizes block done e = e ++ (length block, done) ∷ []

parse_xml_file-fed_example :
    (bs : List (List ℕ)) × (last : List ℕ) × (parse_xml_file kept_sizes 2 (some (7 ∷ 8 ∷ 9 ∷ [])) []
      ≡ some (some (kept_sizes last true (feed_all kept_sizes bs []))))
    × (joined bs ++ last ≡ 7 ∷ 8 ∷ 9 ∷ [])
    × All (λ b. length b ≡ bufsize) bs
    × (length last < bufsize)
parse_xml_file-fed_example = parse_xml_file-fed kept_sizes 2 (7 ∷ 8 ∷ 9 ∷ []) [] (omega arith)
