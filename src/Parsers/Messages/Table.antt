-- ===== src/Parsers/Messages/Table.antt =====
-- What a MessageModelParser makes of a document: each element sets the field of its name.
use Prim.Native.String.{String}
use simulations.Base.{pos, negsuc, eqb_ℤ, ◌≡◌, refl, sym, ap, subst, ◌∙◌, List, [], ◌∷◌, ◌++◌, map}
use simulations.Floats.{Floating}
use simulations.Parsers.Texts.{Extraction, string_to_int, string_to_float}
use simulations.Parsers.Document.{
  Reading, Element, parse, document_events, fill_fields, parse-document_events,
}
use simulations.Parsers.Tables.{◌&◌, Fields, Unknown, put_field, put_field_sound, put_field-keeps}
use simulations.Parsers.Models.{model_start_element, model_character_data, model_fields}
use simulations.Parsers.Messages.{
  MessageModelParser, waits, message_start_element, message_character_data, message_handler,
}

module _ {F : Floating} (X : Extraction F) where
  -- The fields of the class above, and its own.
  abbrev pub message_fields : Fields (MessageModelParser F)
  message_fields =
      map (λ f. (f.0, λ s p. record p { base = f.1 s p.base })) (model_fields X)
      ++ ("pauseTime", λ s p. record p { pause_time = string_to_float X s })
        ∷ ("vMin", λ s p. record p { v_min = string_to_float X s })
        ∷ ("vMax", λ s p. record p { v_max = string_to_float X s })
        ∷ ("prob", λ s p. record p { probability = string_to_float X s })
        ∷ ("nodetd", λ s p. record p { node_trust_distance = string_to_int X s })
        ∷ ("msgtd", λ s p. record p { msg_trust_distance = string_to_int X s })
        ∷ ("nodeexnum", λ s p. record p { node_exchange_num = string_to_int X s })
        ∷ ("msgexnum", λ s p. record p { msg_exchange_num = string_to_int X s })
        ∷ ("perc_adversaries", λ s p. record p { percent_adversaries = string_to_float X s })
        ∷ ("adversary_prob", λ s p. record p { adversary_probability = string_to_float X s })
        ∷ (
          "advers_msg_prob",
          λ s p. record p { adversary_msg_creation_probability = string_to_float X s },
        )
        ∷ (
          "collab_msg_prob",
          λ s p. record p { collaborator_msg_creation_probability = string_to_float X s },
        )
        ∷ ("use_f", λ s p. record p { use_friendships = eqb_ℤ (string_to_int X s) (pos 1) })
        ∷ []

  abbrev pub MessageIdle : MessageModelParser F → Type 0
  MessageIdle p = p.base.act_tag ≡ negsuc 0

  settled : {p : MessageModelParser F} → MessageIdle p → waits (negsuc 0) p ≡ p
  settled {p} idle = ap (λ t. waits t p) (sym idle)

  start-Unknown :
      (name : String) (p : MessageModelParser F)
      → Unknown name message_fields
      → message_start_element name p ≡ p
  unfolding message_start_element model_start_element
  start-Unknown name p h =
      rw
        (
          h.0, h.1.0, h.1.1.0, h.1.1.1.0, h.1.1.1.1.0, h.1.1.1.1.1.0, h.1.1.1.1.1.1.0,
          h.1.1.1.1.1.1.1.0, h.1.1.1.1.1.1.1.1.0, h.1.1.1.1.1.1.1.1.1.0, h.1.1.1.1.1.1.1.1.1.1.0,
          h.1.1.1.1.1.1.1.1.1.1.1.0, h.1.1.1.1.1.1.1.1.1.1.1.1.0, h.1.1.1.1.1.1.1.1.1.1.1.1.1.0,
          h.1.1.1.1.1.1.1.1.1.1.1.1.1.1.0, h.1.1.1.1.1.1.1.1.1.1.1.1.1.1.1.0,
          h.1.1.1.1.1.1.1.1.1.1.1.1.1.1.1.1.0, h.1.1.1.1.1.1.1.1.1.1.1.1.1.1.1.1.1.0,
        )
        refl

  pass_text :
      (s : String) (p : MessageModelParser F) → MessageIdle p → message_character_data X s p ≡ p
  unfolding message_character_data model_character_data
  pass_text s p idle = subst (λ q. message_character_data X s q ≡ q) (settled idle) refl

  one_known :
      (name s : String) (p : MessageModelParser F)
      → MessageIdle p
      → (Unknown name message_fields
          → message_character_data X s (message_start_element name p) ≡ p)
      → message_character_data X s (message_start_element name p)
        ≡ put_field message_fields name s p
  unfolding message_character_data model_character_data message_start_element model_start_element
  one_known name s p idle = put_field_sound (message_handler X) name s p message_fields (
      settled idle
      & settled idle
      & settled idle
      & settled idle
      & settled idle
      & settled idle
      & settled idle
      & settled idle
      & settled idle
      & settled idle
      & settled idle
      & settled idle
      & settled idle
      & settled idle
      & settled idle
      & settled idle
      & settled idle
      & settled idle
      & tt)

  pub message_reading : Reading (message_handler X) (put_field message_fields) MessageIdle
  message_reading = record {
    stays = λ name s p idle. put_field-keeps MessageIdle name s p message_fields idle (
        idle & idle & idle & idle & idle & idle & idle & idle & idle & idle & idle & idle & idle
        & idle & idle & idle & idle & idle & tt);
    pass = pass_text;
    one_element = λ name s p idle.
        one_known name s p idle
          (λ h. ap (message_character_data X s) (start-Unknown name p h) ∙ pass_text s p idle);
  }

  -- A parser of message models that waits for no text, run over the events of a document whose
  -- root has a name that is no field's and holds elements that have their text in one piece, and
  -- texts between them, does what setting the field of each element's name does, element by
  -- element: an unknown name and the texts between the elements change nothing.
  pub message_document :
      (root : String) (before : List String) (es : List Element) (p : MessageModelParser F)
      → Unknown root message_fields
      → MessageIdle p
      → parse (message_handler X) (document_events root before es) p
        ≡ fill_fields (put_field message_fields) es p
  message_document root before es p no_field idle =
      parse-document_events message_reading root before es p idle (start-Unknown root p no_field)
