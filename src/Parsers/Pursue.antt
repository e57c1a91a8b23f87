-- ===== src/Parsers/Pursue.antt =====
-- class PursueModelParser (momosecpp/src/PursueModelParser.cpp, momosecpp/src/include/PursueModelParser.h).
use Prim.Native.String.{String}
use simulations.Base.{
  ℤ, pos, negsuc, if◌then◌else◌, ◌≡◌, refl, sym, ap, subst, ◌∙◌, List, [], ◌∷◌, ◌++◌, map,
}
use simulations.Floats.{Floating}
use simulations.Parsers.Texts.{Extraction, string_to_float}
use simulations.Parsers.Document.{
  Handler, Reading, Element, parse, events, fill_fields, parse-fill_fields,
}
use simulations.Parsers.Tables.{◌&◌, Fields, Unknown, put_field, put_field_sound, put_field-keeps}
use simulations.Parsers.Models.{
  ModelParser, init_model_parser, tag_if, at_tag, model_start_element, model_character_data,
  model_fields,
}

-- `base` is the part of the class above.
pub record PursueModelParser (F : Floating) : Type 0 where
  pub base : ModelParser F
  pub alpha : F.Float
  pub v_min : F.Float
  pub v_max : F.Float
  pub target_radius : F.Float

unfoldable pub init_pursue_parser : (F : Floating) → PursueModelParser F
unfolding init_model_parser
init_pursue_parser F = record {
  base = init_model_parser F;
  alpha = F.literal (pos 5) 1;
  v_min = F.of_int (pos 0);
  v_max = F.of_int (pos 5);
  target_radius = F.literal (pos 5) 1;
}

abbrev pursue_tag : String → ℤ → ℤ
pursue_tag name act =
    tag_if name "targetRadius" (pos 8)
      (tag_if name "vMax" (pos 7) (tag_if name "vMin" (pos 6) (tag_if name "alpha" (pos 5) (act))))

module _ {F : Floating} where
  abbrev pub waits : ℤ → PursueModelParser F → PursueModelParser F
  waits tag p = record p { base = record p.base { act_tag = tag } }

  unfoldable pub pursue_start_element : String → PursueModelParser F → PursueModelParser F
  unfolding model_start_element
  pursue_start_element name p =
      let b = model_start_element name p.base in
      record p { base = record b { act_tag = pursue_tag name b.act_tag } }

  unfoldable pub pursue_get_v_max : PursueModelParser F → F.Float
  pursue_get_v_max p = if F.flt p.v_max (F.of_int (pos 0)) then F.of_int (pos 0) else p.v_max

  unfoldable pub pursue_get_v_min : PursueModelParser F → F.Float
  pursue_get_v_min p = if F.flt p.v_min (F.of_int (pos 0)) then F.of_int (pos 0) else p.v_min

  unfoldable pub pursue_get_alpha : PursueModelParser F → F.Float
  pursue_get_alpha p =
      if F.flt p.alpha (F.of_int (pos 0))
      then F.of_int (pos 0)
      else if F.flt (F.of_int (pos 1)) p.alpha
      then F.of_int (pos 1)
      else p.alpha

  unfoldable pub pursue_get_target_radius : PursueModelParser F → F.Float
  pursue_get_target_radius p =
      if F.dlt (F.widen p.target_radius) (F.literal_d (pos 1) 2)
      then F.narrow (F.literal_d (pos 1) 2)
      else p.target_radius

  module _ (X : Extraction F) where
    abbrev take_alpha : String → PursueModelParser F → PursueModelParser F
    take_alpha s p =
        at_tag p.base.act_tag (pos 5) (waits (negsuc 0) (record p { alpha = string_to_float X s }))
          p

    abbrev take_v_min : String → PursueModelParser F → PursueModelParser F
    take_v_min s p =
        at_tag p.base.act_tag (pos 6) (waits (negsuc 0) (record p { v_min = string_to_float X s }))
          p

    abbrev take_v_max : String → PursueModelParser F → PursueModelParser F
    take_v_max s p =
        at_tag p.base.act_tag (pos 7) (waits (negsuc 0) (record p { v_max = string_to_float X s }))
          p

    abbrev take_target_radius : String → PursueModelParser F → PursueModelParser F
    take_target_radius s p =
        at_tag p.base.act_tag (pos 8)
          (waits (negsuc 0) (record p { target_radius = string_to_float X s })) p

    unfoldable pub pursue_character_data : String → PursueModelParser F → PursueModelParser F
    unfolding model_character_data
    pursue_character_data s p = take_target_radius s (
        take_v_max s
          (take_v_min s (take_alpha s (record p { base = model_character_data X s p.base }))))

    abbrev pub pursue_handler : Handler (PursueModelParser F)
    pursue_handler = record {
      on_start_element = pursue_start_element;
      on_character_data = pursue_character_data;
    }

    -- The fields of the class above, and its own.
    abbrev pub pursue_fields : Fields (PursueModelParser F)
    pursue_fields =
        map (λ f. (f.0, λ s p. record p { base = f.1 s p.base })) (model_fields X)
        ++ ("alpha", λ s p. record p { alpha = string_to_float X s })
          ∷ ("vMin", λ s p. record p { v_min = string_to_float X s })
          ∷ ("vMax", λ s p. record p { v_max = string_to_float X s })
          ∷ ("targetRadius", λ s p. record p { target_radius = string_to_float X s })
          ∷ []

    abbrev pub PursueIdle : PursueModelParser F → Type 0
    PursueIdle p = p.base.act_tag ≡ negsuc 0

    settled : {p : PursueModelParser F} → PursueIdle p → waits (negsuc 0) p ≡ p
    settled {p} idle = ap (λ t. waits t p) (sym idle)

    start-Unknown :
        (name : String) (p : PursueModelParser F)
        → Unknown name pursue_fields
        → pursue_start_element name p ≡ p
    unfolding pursue_start_element model_start_element
    start-Unknown name p h =
        rw
          (
            h.0, h.1.0, h.1.1.0, h.1.1.1.0, h.1.1.1.1.0, h.1.1.1.1.1.0, h.1.1.1.1.1.1.0,
            h.1.1.1.1.1.1.1.0, h.1.1.1.1.1.1.1.1.0,
          )
          refl

    pass_text :
        (s : String) (p : PursueModelParser F) → PursueIdle p → pursue_character_data s p ≡ p
    unfolding pursue_character_data model_character_data
    pass_text s p idle = subst (λ q. pursue_character_data s q ≡ q) (settled idle) refl

    one_known :
        (name s : String) (p : PursueModelParser F)
        → PursueIdle p
        → (Unknown name pursue_fields → pursue_character_data s (pursue_start_element name p) ≡ p)
        → pursue_character_data s (pursue_start_element name p) ≡ put_field pursue_fields name s p
    unfolding pursue_character_data model_character_data pursue_start_element model_start_element
    one_known name s p idle = put_field_sound pursue_handler name s p pursue_fields (
        settled idle
        & settled idle
        & settled idle
        & settled idle
        & settled idle
        & settled idle
        & settled idle
        & settled idle
        & settled idle
        & tt)

    pub pursue_reading : Reading pursue_handler (put_field pursue_fields) PursueIdle
    pursue_reading = record {
      stays = λ name s p idle.
          put_field-keeps PursueIdle name s p pursue_fields idle
            (idle & idle & idle & idle & idle & idle & idle & idle & idle & tt);
      pass = pass_text;
      one_element = λ name s p idle.
          one_known name s p idle
            (λ h. ap (pursue_character_data s) (start-Unknown name p h) ∙ pass_text s p idle);
    }

    -- A document sets the fields of its elements in order, and those of no other name.
    pub pursue_document :
        (es : List Element) (p : PursueModelParser F)
        → PursueIdle p
        → parse pursue_handler (events es) p ≡ fill_fields (put_field pursue_fields) es p
    pursue_document = parse-fill_fields pursue_reading
