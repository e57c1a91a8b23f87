-- ===== src/Parsers/Messages.antt =====
-- class MessageModelParser (momosecpp/src/MessageModelParser.cpp, momosecpp/src/include/MessageModelParser.h).
pub mod Table
use Prim.Native.String.{String}
use simulations.Base.{
  ℤ, pos, negsuc, Bool, eqb_ℤ, ltb_ℤ, if◌then◌else◌, ◌≡◌, refl, sym, ap, subst, ◌∙◌, List, [], ◌∷◌,
  ◌++◌, map,
}
use simulations.Floats.{Floating}
use simulations.Parsers.Texts.{Extraction, string_to_int, string_to_float}
use simulations.Parsers.Document.{
  Handler, Reading, Element, parse, events, fill_fields, parse-fill_fields,
}
use simulations.Parsers.Tables.{◌&◌, Fields, Unknown, put_field, put_field_sound, put_field-keeps}
use simulations.Parsers.Models.{
  ModelParser, init_model_parser, tag_if, at_tag, model_start_element, model_character_data,
  model_fields,
}

-- `base` is the part of the class above.
pub record MessageModelParser (F : Floating) : Type 0 where
  pub base : ModelParser F
  pub pause_time : F.Float
  pub v_min : F.Float
  pub v_max : F.Float
  pub probability : F.Float
  pub node_trust_distance : ℤ
  pub msg_trust_distance : ℤ
  pub node_exchange_num : ℤ
  pub msg_exchange_num : ℤ
  pub percent_adversaries : F.Float
  pub adversary_probability : F.Float
  pub adversary_msg_creation_probability : F.Float
  pub collaborator_msg_creation_probability : F.Float
  pub use_friendships : Bool

-- The constructor leaves its own fields as they were in memory.
unfoldable pub init_message_parser : {F : Floating} → MessageModelParser F → MessageModelParser F
unfolding init_model_parser
init_message_parser {F} memory = record memory { base = init_model_parser F }

abbrev message_tag : String → ℤ → ℤ
message_tag name act = tag_if name "use_f" (pos 17) (
    tag_if name "collab_msg_prob" (pos 16) (
      tag_if name "advers_msg_prob" (pos 15) (
        tag_if name "adversary_prob" (pos 14) (
          tag_if name "perc_adversaries" (pos 13) (
            tag_if name "msgexnum" (pos 12) (
              tag_if name "nodeexnum" (pos 11) (
                tag_if name "msgtd" (pos 10) (
                  tag_if name "nodetd" (pos 9) (
                    tag_if name "prob" (pos 8) (
                      tag_if name "vMax" (pos 7) (
                        tag_if name "vMin" (pos 6)
                          (tag_if name "pauseTime" (pos 5) (act)))))))))))))

module _ {F : Floating} where
  abbrev pub waits : ℤ → MessageModelParser F → MessageModelParser F
  waits tag p = record p { base = record p.base { act_tag = tag } }

  unfoldable pub message_start_element : String → MessageModelParser F → MessageModelParser F
  unfolding model_start_element
  message_start_element name p =
      let b = model_start_element name p.base in
      record p { base = record b { act_tag = message_tag name b.act_tag } }

  module _ (X : Extraction F) where
    abbrev take_pause_time : String → MessageModelParser F → MessageModelParser F
    take_pause_time s p =
        at_tag p.base.act_tag (pos 5)
          (waits (negsuc 0) (record p { pause_time = string_to_float X s })) p

    abbrev take_v_min : String → MessageModelParser F → MessageModelParser F
    take_v_min s p =
        at_tag p.base.act_tag (pos 6) (waits (negsuc 0) (record p { v_min = string_to_float X s }))
          p

    abbrev take_v_max : String → MessageModelParser F → MessageModelParser F
    take_v_max s p =
        at_tag p.base.act_tag (pos 7) (waits (negsuc 0) (record p { v_max = string_to_float X s }))
          p

    abbrev take_probability : String → MessageModelParser F → MessageModelParser F
    take_probability s p =
        at_tag p.base.act_tag (pos 8)
          (waits (negsuc 0) (record p { probability = string_to_float X s })) p

    abbrev take_node_trust_distance : String → MessageModelParser F → MessageModelParser F
    take_node_trust_distance s p =
        at_tag p.base.act_tag (pos 9)
          (waits (negsuc 0) (record p { node_trust_distance = string_to_int X s })) p

    abbrev take_msg_trust_distance : String → MessageModelParser F → MessageModelParser F
    take_msg_trust_distance s p =
        at_tag p.base.act_tag (pos 10)
          (waits (negsuc 0) (record p { msg_trust_distance = string_to_int X s })) p

    abbrev take_node_exchange_num : String → MessageModelParser F → MessageModelParser F
    take_node_exchange_num s p =
        at_tag p.base.act_tag (pos 11)
          (waits (negsuc 0) (record p { node_exchange_num = string_to_int X s })) p

    abbrev take_msg_exchange_num : String → MessageModelParser F → MessageModelParser F
    take_msg_exchange_num s p =
        at_tag p.base.act_tag (pos 12)
          (waits (negsuc 0) (record p { msg_exchange_num = string_to_int X s })) p

    abbrev take_percent_adversaries : String → MessageModelParser F → MessageModelParser F
    take_percent_adversaries s p =
        at_tag p.base.act_tag (pos 13)
          (waits (negsuc 0) (record p { percent_adversaries = string_to_float X s })) p

    abbrev take_adversary_probability : String → MessageModelParser F → MessageModelParser F
    take_adversary_probability s p =
        at_tag p.base.act_tag (pos 14)
          (waits (negsuc 0) (record p { adversary_probability = string_to_float X s })) p

    abbrev take_adversary_msg_creation_probability :
        String → MessageModelParser F → MessageModelParser F
    take_adversary_msg_creation_probability s p =
        at_tag p.base.act_tag (pos 15)
          (waits (negsuc 0) (record p { adversary_msg_creation_probability = string_to_float X s }))
          p

    abbrev take_collaborator_msg_creation_probability :
        String → MessageModelParser F → MessageModelParser F
    take_collaborator_msg_creation_probability s p =
        at_tag p.base.act_tag (pos 16)
          (waits (negsuc 0)
            (record p { collaborator_msg_creation_probability = string_to_float X s }))
          p

    abbrev take_use_friendships : String → MessageModelParser F → MessageModelParser F
    take_use_friendships s p =
        at_tag p.base.act_tag (pos 17)
          (waits (negsuc 0) (record p { use_friendships = eqb_ℤ (string_to_int X s) (pos 1) })) p

    unfoldable pub message_character_data : String → MessageModelParser F → MessageModelParser F
    unfolding model_character_data
    message_character_data s p = take_use_friendships s (
        take_collaborator_msg_creation_probability s (
          take_adversary_msg_creation_probability s (
            take_adversary_probability s (
              take_percent_adversaries s (
                take_msg_exchange_num s (
                  take_node_exchange_num s (
                    take_msg_trust_distance s (
                      take_node_trust_distance s (
                        take_probability s (
                          take_v_max s (
                            take_v_min s (
                              take_pause_time s
                                (record p { base = model_character_data X s p.base })))))))))))))

    abbrev pub message_handler : Handler (MessageModelParser F)
    message_handler = record {
      on_start_element = message_start_element;
      on_character_data = message_character_data;
    }
