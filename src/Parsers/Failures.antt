-- ===== src/Parsers/Failures.antt =====
-- What a MessageModelParser makes of a text that is no number.
use Prim.Native.String.{String}
use simulations.Base.{pos, negsuc, ◌≡◌, refl, true, false, none}
use simulations.Floats.{Floating}
use simulations.Parsers.Texts.{Extraction, string_to_int, string_to_float}
use simulations.Parsers.Models.{model_start_element, model_character_data}
use simulations.Parsers.Messages.{MessageModelParser, message_start_element, message_character_data}
use simulations.Parsers.Getters.{
  get_v_max, get_v_min, get_pause_time, get_probability, get_node_trust_distance,
  get_msg_trust_distance, get_node_exchange_num, get_msg_exchange_num, get_percent_adversaries,
  get_adversary_probability, get_adversary_msg_creation_probability,
  get_collaborator_msg_creation_probability, get_use_friendships,
}

module _ {F : Floating} (X : Extraction F) (s : String) (p : MessageModelParser F) where
  -- The parser after an element of this name, with the text `s`.
  abbrev pub after : String → MessageModelParser F
  after name = message_character_data X s (message_start_element name p)

  -- The number of nodes and the two radii have no getter that checks them.
  pub record IsDefaulted : Type 0 where
    pub num_nodes : (after "nn").base.num_nodes ≡ negsuc 0
    pub node_radius : (after "nr").base.node_radius ≡ F.of_int (negsuc 0)
    pub antenna_radius : (after "ar").base.antenna_radius ≡ F.of_int (negsuc 0)
    pub v_max : get_v_max (after "vMax") ≡ F.of_int (pos 0)
    pub v_min : get_v_min (after "vMin") ≡ F.of_int (pos 0)
    pub pause_time : get_pause_time (after "pauseTime") ≡ F.of_int (pos 0)
    pub probability : get_probability (after "prob") ≡ F.of_int (pos 0)
    pub node_trust_distance : get_node_trust_distance (after "nodetd") ≡ pos 0
    pub msg_trust_distance : get_msg_trust_distance (after "msgtd") ≡ pos 0
    pub node_exchange_num : get_node_exchange_num (after "nodeexnum") ≡ pos 1
    pub msg_exchange_num : get_msg_exchange_num (after "msgexnum") ≡ pos 1
    pub percent_adversaries : get_percent_adversaries (after "perc_adversaries") ≡ F.of_int (pos 0)
    pub adversary_probability :
        get_adversary_probability (after "adversary_prob") ≡ F.of_int (pos 0)
    pub adversary_msg_creation_probability :
        get_adversary_msg_creation_probability (after "advers_msg_prob") ≡ F.of_int (pos 0)
    pub collaborator_msg_creation_probability :
        get_collaborator_msg_creation_probability (after "collab_msg_prob") ≡ F.of_int (pos 0)
    pub use_friendships : get_use_friendships (after "use_f") ≡ false

  -- A text that is neither an integer nor a `float`, where -1 is below 0, leaves -1 as the number
  -- of nodes and as the radii, which have no checked getter, while every other getter of the
  -- message model's parser returns its least value: 0 for speeds, times, probabilities and trust
  -- distances, 1 for the exchange numbers, and false for the friendships.
  pub conversion_failure-IsDefaulted :
      X.int_of s ≡ none
      → X.float_of s ≡ none
      → F.flt (F.of_int (negsuc 0)) (F.of_int (pos 0)) ≡ true
      → IsDefaulted
  unfolding message_character_data message_start_element model_character_data model_start_element
      string_to_int string_to_float get_v_max get_v_min get_pause_time get_probability
      get_node_trust_distance get_msg_trust_distance get_node_exchange_num get_msg_exchange_num
      get_percent_adversaries get_adversary_probability get_adversary_msg_creation_probability
      get_collaborator_msg_creation_probability get_use_friendships
  conversion_failure-IsDefaulted no_int no_float below = record {
    num_nodes = rw no_int refl;
    node_radius = rw no_float refl;
    antenna_radius = rw no_float refl;
    v_max = rw (no_float, below) refl;
    v_min = rw (no_float, below) refl;
    pause_time = rw (no_float, below) refl;
    probability = rw (no_float, below) refl;
    node_trust_distance = rw no_int refl;
    msg_trust_distance = rw no_int refl;
    node_exchange_num = rw no_int refl;
    msg_exchange_num = rw no_int refl;
    percent_adversaries = rw (no_float, below) refl;
    adversary_probability = rw (no_float, below) refl;
    adversary_msg_creation_probability = rw (no_float, below) refl;
    collaborator_msg_creation_probability = rw (no_float, below) refl;
    use_friendships = rw no_int refl;
  }
