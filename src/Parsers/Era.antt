-- ===== src/Parsers/Era.antt =====
-- class EraModelParser (momosecpp/src/EraModelParser.cpp, momosecpp/src/include/EraModelParser.h). Its field `alpha` is
-- never set and is left out.
use Prim.Native.String.{String}
use simulations.Base.{
  ℤ, pos, negsuc, if◌then◌else◌, ◌≡◌, refl, sym, ap, subst, ◌∙◌, List, [], ◌∷◌, ◌++◌, map,
}
use simulations.Floats.{Floating}
use simulations.Parsers.Texts.{Extraction, string_to_float}
use simulations.Parsers.Document.{
  Handler, Reading, Element, parse, events, fill_fields, parse-fill_fields,
}
use simulations.Parsers.Tables.{◌&◌, Fields, Unknown, put_field, put_field_sound, put_field-keeps}
use simulations.Parsers.Models.{
  ModelParser, init_model_parser, tag_if, at_tag, model_start_element, model_character_data,
  model_fields,
}

-- `base` is the part of the class above.
pub record EraModelParser (F : Floating) : Type 0 where
  pub base : ModelParser F
  pub v_min : F.Float
  pub v_max : F.Float
  pub pause_time : F.Float
  pub col_interval : F.Float

unfoldable pub init_era_parser : (F : Floating) → EraModelParser F
unfolding init_model_parser
init_era_parser F = record {
  base = init_model_parser F;
  v_min = F.of_int (pos 0);
  v_max = F.of_int (pos 5);
  pause_time = F.of_int (pos 1);
  col_interval = F.of_int (pos 0);
}

abbrev era_tag : String → ℤ → ℤ
era_tag name act = tag_if name "pauseTime" (pos 8) (
    tag_if name "vMax" (pos 7)
      (tag_if name "vMin" (pos 6) (tag_if name "colInterval" (pos 5) (act))))

module _ {F : Floating} where
  abbrev pub waits : ℤ → EraModelParser F → EraModelParser F
  waits tag p = record p { base = record p.base { act_tag = tag } }

  unfoldable pub era_start_element : String → EraModelParser F → EraModelParser F
  unfolding model_start_element
  era_start_element name p =
      let b = model_start_element name p.base in
      record p { base = record b { act_tag = era_tag name b.act_tag } }

  unfoldable pub era_get_v_max : EraModelParser F → F.Float
  era_get_v_max p = if F.flt p.v_max (F.of_int (pos 0)) then F.of_int (pos 0) else p.v_max

  unfoldable pub era_get_v_min : EraModelParser F → F.Float
  era_get_v_min p = if F.flt p.v_min (F.of_int (pos 0)) then F.of_int (pos 0) else p.v_min

  unfoldable pub era_get_pause_time : EraModelParser F → F.Float
  era_get_pause_time p =
      if F.flt p.pause_time (F.of_int (pos 0)) then F.of_int (pos 0) else p.pause_time

  unfoldable pub era_get_col_interval : EraModelParser F → F.Float
  era_get_col_interval p =
      if F.flt p.col_interval (F.of_int (pos 0)) then F.of_int (pos 0) else p.col_interval

  module _ (X : Extraction F) where
    abbrev take_col_interval : String → EraModelParser F → EraModelParser F
    take_col_interval s p =
        at_tag p.base.act_tag (pos 5)
          (waits (negsuc 0) (record p { col_interval = string_to_float X s })) p

    abbrev take_v_min : String → EraModelParser F → EraModelParser F
    take_v_min s p =
        at_tag p.base.act_tag (pos 6) (waits (negsuc 0) (record p { v_min = string_to_float X s }))
          p

    abbrev take_v_max : String → EraModelParser F → EraModelParser F
    take_v_max s p =
        at_tag p.base.act_tag (pos 7) (waits (negsuc 0) (record p { v_max = string_to_float X s }))
          p

    abbrev take_pause_time : String → EraModelParser F → EraModelParser F
    take_pause_time s p =
        at_tag p.base.act_tag (pos 8)
          (waits (negsuc 0) (record p { pause_time = string_to_float X s })) p

    unfoldable pub era_character_data : String → EraModelParser F → EraModelParser F
    unfolding model_character_data
    era_character_data s p = take_pause_time s (
        take_v_max s (
          take_v_min s (take_col_interval s (record p { base = model_character_data X s p.base }))))

    abbrev pub era_handler : Handler (EraModelParser F)
    era_handler = record {
      on_start_element = era_start_element;
      on_character_data = era_character_data;
    }

    -- The fields of the class above, and its own.
    abbrev pub era_fields : Fields (EraModelParser F)
    era_fields =
        map (λ f. (f.0, λ s p. record p { base = f.1 s p.base })) (model_fields X)
        ++ ("colInterval", λ s p. record p { col_interval = string_to_float X s })
          ∷ ("vMin", λ s p. record p { v_min = string_to_float X s })
          ∷ ("vMax", λ s p. record p { v_max = string_to_float X s })
          ∷ ("pauseTime", λ s p. record p { pause_time = string_to_float X s })
          ∷ []

    abbrev pub EraIdle : EraModelParser F → Type 0
    EraIdle p = p.base.act_tag ≡ negsuc 0

    settled : {p : EraModelParser F} → EraIdle p → waits (negsuc 0) p ≡ p
    settled {p} idle = ap (λ t. waits t p) (sym idle)

    start-Unknown :
        (name : String) (p : EraModelParser F)
        → Unknown name era_fields
        → era_start_element name p ≡ p
    unfolding era_start_element model_start_element
    start-Unknown name p h =
        rw
          (
            h.0, h.1.0, h.1.1.0, h.1.1.1.0, h.1.1.1.1.0, h.1.1.1.1.1.0, h.1.1.1.1.1.1.0,
            h.1.1.1.1.1.1.1.0, h.1.1.1.1.1.1.1.1.0,
          )
          refl

    pass_text : (s : String) (p : EraModelParser F) → EraIdle p → era_character_data s p ≡ p
    unfolding era_character_data model_character_data
    pass_text s p idle = subst (λ q. era_character_data s q ≡ q) (settled idle) refl

    one_known :
        (name s : String) (p : EraModelParser F)
        → EraIdle p
        → (Unknown name era_fields → era_character_data s (era_start_element name p) ≡ p)
        → era_character_data s (era_start_element name p) ≡ put_field era_fields name s p
    unfolding era_character_data model_character_data era_start_element model_start_element
    one_known name s p idle = put_field_sound era_handler name s p era_fields (
        settled idle
        & settled idle
        & settled idle
        & settled idle
        & settled idle
        & settled idle
        & settled idle
        & settled idle
        & settled idle
        & tt)

    pub era_reading : Reading era_handler (put_field era_fields) EraIdle
    era_reading = record {
      stays = λ name s p idle.
          put_field-keeps EraIdle name s p era_fields idle
            (idle & idle & idle & idle & idle & idle & idle & idle & idle & tt);
      pass = pass_text;
      one_element = λ name s p idle.
          one_known name s p idle
            (λ h. ap (era_character_data s) (start-Unknown name p h) ∙ pass_text s p idle);
    }

    -- A document sets the fields of its elements in order, and those of no other name.
    pub era_document :
        (es : List Element) (p : EraModelParser F)
        → EraIdle p
        → parse era_handler (events es) p ≡ fill_fields (put_field era_fields) es p
    era_document = parse-fill_fields era_reading
