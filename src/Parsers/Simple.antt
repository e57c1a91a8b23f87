-- ===== src/Parsers/Simple.antt =====
-- class SimpleModelParser (momosecpp/src/SimpleModelParser.cpp, momosecpp/src/include/SimpleModelParser.h).
use Prim.Native.String.{String}
use simulations.Base.{
  ℤ, pos, negsuc, if◌then◌else◌, ◌≡◌, refl, sym, ap, subst, ◌∙◌, List, [], ◌∷◌, ◌++◌, map,
}
use simulations.Floats.{Floating}
use simulations.Parsers.Texts.{Extraction, string_to_float}
use simulations.Parsers.Document.{
  Handler, Reading, Element, parse, events, fill_fields, parse-fill_fields,
}
use simulations.Parsers.Tables.{◌&◌, Fields, Unknown, put_field, put_field_sound, put_field-keeps}
use simulations.Parsers.Models.{
  ModelParser, init_model_parser, tag_if, at_tag, model_start_element, model_character_data,
  model_fields,
}

-- `base` is the part of the class above.
pub record SimpleModelParser (F : Floating) : Type 0 where
  pub base : ModelParser F
  pub pause_time : F.Float
  pub v_min : F.Float
  pub v_max : F.Float

unfoldable pub init_simple_parser : (F : Floating) → SimpleModelParser F
unfolding init_model_parser
init_simple_parser F = record {
  base = init_model_parser F;
  pause_time = F.of_int (pos 0);
  v_min = F.of_int (pos 0);
  v_max = F.of_int (pos 5);
}

abbrev simple_tag : String → ℤ → ℤ
simple_tag name act =
    tag_if name "vMax" (pos 7) (tag_if name "vMin" (pos 6) (tag_if name "pauseTime" (pos 5) (act)))

module _ {F : Floating} where
  abbrev pub waits : ℤ → SimpleModelParser F → SimpleModelParser F
  waits tag p = record p { base = record p.base { act_tag = tag } }

  unfoldable pub simple_start_element : String → SimpleModelParser F → SimpleModelParser F
  unfolding model_start_element
  simple_start_element name p =
      let b = model_start_element name p.base in
      record p { base = record b { act_tag = simple_tag name b.act_tag } }

  unfoldable pub simple_get_v_max : SimpleModelParser F → F.Float
  simple_get_v_max p = if F.flt p.v_max (F.of_int (pos 0)) then F.of_int (pos 0) else p.v_max

  unfoldable pub simple_get_v_min : SimpleModelParser F → F.Float
  simple_get_v_min p = if F.flt p.v_min (F.of_int (pos 0)) then F.of_int (pos 0) else p.v_min

  unfoldable pub simple_get_pause_time : SimpleModelParser F → F.Float
  simple_get_pause_time p =
      if F.flt p.pause_time (F.of_int (pos 0)) then F.of_int (pos 0) else p.pause_time

  module _ (X : Extraction F) where
    abbrev take_pause_time : String → SimpleModelParser F → SimpleModelParser F
    take_pause_time s p =
        at_tag p.base.act_tag (pos 5)
          (waits (negsuc 0) (record p { pause_time = string_to_float X s })) p

    abbrev take_v_min : String → SimpleModelParser F → SimpleModelParser F
    take_v_min s p =
        at_tag p.base.act_tag (pos 6) (waits (negsuc 0) (record p { v_min = string_to_float X s }))
          p

    abbrev take_v_max : String → SimpleModelParser F → SimpleModelParser F
    take_v_max s p =
        at_tag p.base.act_tag (pos 7) (waits (negsuc 0) (record p { v_max = string_to_float X s }))
          p

    unfoldable pub simple_character_data : String → SimpleModelParser F → SimpleModelParser F
    unfolding model_character_data
    simple_character_data s p =
        take_v_max s
          (take_v_min s (take_pause_time s (record p { base = model_character_data X s p.base })))

    abbrev pub simple_handler : Handler (SimpleModelParser F)
    simple_handler = record {
      on_start_element = simple_start_element;
      on_character_data = simple_character_data;
    }

    -- The fields of the class above, and its own.
    abbrev pub simple_fields : Fields (SimpleModelParser F)
    simple_fields =
        map (λ f. (f.0, λ s p. record p { base = f.1 s p.base })) (model_fields X)
        ++ ("pauseTime", λ s p. record p { pause_time = string_to_float X s })
          ∷ ("vMin", λ s p. record p { v_min = string_to_float X s })
          ∷ ("vMax", λ s p. record p { v_max = string_to_float X s })
          ∷ []

    abbrev pub SimpleIdle : SimpleModelParser F → Type 0
    SimpleIdle p = p.base.act_tag ≡ negsuc 0

    settled : {p : SimpleModelParser F} → SimpleIdle p → waits (negsuc 0) p ≡ p
    settled {p} idle = ap (λ t. waits t p) (sym idle)

    start-Unknown :
        (name : String) (p : SimpleModelParser F)
        → Unknown name simple_fields
        → simple_start_element name p ≡ p
    unfolding simple_start_element model_start_element
    start-Unknown name p h =
        rw
          (
            h.0, h.1.0, h.1.1.0, h.1.1.1.0, h.1.1.1.1.0, h.1.1.1.1.1.0, h.1.1.1.1.1.1.0,
            h.1.1.1.1.1.1.1.0,
          )
          refl

    pass_text :
        (s : String) (p : SimpleModelParser F) → SimpleIdle p → simple_character_data s p ≡ p
    unfolding simple_character_data model_character_data
    pass_text s p idle = subst (λ q. simple_character_data s q ≡ q) (settled idle) refl

    one_known :
        (name s : String) (p : SimpleModelParser F)
        → SimpleIdle p
        → (Unknown name simple_fields → simple_character_data s (simple_start_element name p) ≡ p)
        → simple_character_data s (simple_start_element name p) ≡ put_field simple_fields name s p
    unfolding simple_character_data model_character_data simple_start_element model_start_element
    one_known name s p idle = put_field_sound simple_handler name s p simple_fields (
        settled idle
        & settled idle
        & settled idle
        & settled idle
        & settled idle
        & settled idle
        & settled idle
        & settled idle
        & tt)

    pub simple_reading : Reading simple_handler (put_field simple_fields) SimpleIdle
    simple_reading = record {
      stays = λ name s p idle.
          put_field-keeps SimpleIdle name s p simple_fields idle
            (idle & idle & idle & idle & idle & idle & idle & idle & tt);
      pass = pass_text;
      one_element = λ name s p idle.
          one_known name s p idle
            (λ h. ap (simple_character_data s) (start-Unknown name p h) ∙ pass_text s p idle);
    }

    -- A document sets the fields of its elements in order, and those of no other name.
    pub simple_document :
        (es : List Element) (p : SimpleModelParser F)
        → SimpleIdle p
        → parse simple_handler (events es) p ≡ fill_fields (put_field simple_fields) es p
    simple_document = parse-fill_fields simple_reading
