-- ===== src/Parsers/Nomadic.antt =====
-- class NomadicModelParser (momosecpp/src/NomadicModelParser.cpp, momosecpp/src/include/NomadicModelParser.h).
use Prim.Native.String.{String}
use simulations.Base.{
  ℤ, pos, negsuc, if◌then◌else◌, ◌≡◌, refl, sym, ap, subst, ◌∙◌, List, [], ◌∷◌, ◌++◌, map,
}
use simulations.Floats.{Floating}
use simulations.Parsers.Texts.{Extraction, string_to_float}
use simulations.Parsers.Document.{
  Handler, Reading, Element, parse, events, fill_fields, parse-fill_fields,
}
use simulations.Parsers.Tables.{◌&◌, Fields, Unknown, put_field, put_field_sound, put_field-keeps}
use simulations.Parsers.Models.{
  ModelParser, init_model_parser, tag_if, at_tag, model_start_element, model_character_data,
  model_fields,
}

-- `base` is the part of the class above.
pub record NomadicModelParser (F : Floating) : Type 0 where
  pub base : ModelParser F
  pub alpha : F.Float
  pub v_min : F.Float
  pub v_max : F.Float
  pub pause_time : F.Float

unfoldable pub init_nomadic_parser : (F : Floating) → NomadicModelParser F
unfolding init_model_parser
init_nomadic_parser F = record {
  base = init_model_parser F;
  alpha = F.literal (pos 5) 1;
  v_min = F.of_int (pos 0);
  v_max = F.of_int (pos 5);
  pause_time = F.of_int (pos 1);
}

abbrev nomadic_tag : String → ℤ → ℤ
nomadic_tag name act =
    tag_if name "pauseTime" (pos 8)
      (tag_if name "vMax" (pos 7) (tag_if name "vMin" (pos 6) (tag_if name "alpha" (pos 5) (act))))

module _ {F : Floating} where
  abbrev pub waits : ℤ → NomadicModelParser F → NomadicModelParser F
  waits tag p = record p { base = record p.base { act_tag = tag } }

  unfoldable pub nomadic_start_element : String → NomadicModelParser F → NomadicModelParser F
  unfolding model_start_element
  nomadic_start_element name p =
      let b = model_start_element name p.base in
      record p { base = record b { act_tag = nomadic_tag name b.act_tag } }

  unfoldable pub nomadic_get_v_max : NomadicModelParser F → F.Float
  nomadic_get_v_max p = if F.flt p.v_max (F.of_int (pos 0)) then F.of_int (pos 0) else p.v_max

  unfoldable pub nomadic_get_v_min : NomadicModelParser F → F.Float
  nomadic_get_v_min p = if F.flt p.v_min (F.of_int (pos 0)) then F.of_int (pos 0) else p.v_min

  unfoldable pub nomadic_get_alpha : NomadicModelParser F → F.Float
  nomadic_get_alpha p =
      if F.flt p.alpha (F.of_int (pos 0))
      then F.of_int (pos 0)
      else if F.flt (F.of_int (pos 1)) p.alpha
      then F.of_int (pos 1)
      else p.alpha

  unfoldable pub nomadic_get_pause_time : NomadicModelParser F → F.Float
  nomadic_get_pause_time p =
      if F.flt p.pause_time (F.of_int (pos 0)) then F.of_int (pos 0) else p.pause_time

  module _ (X : Extraction F) where
    abbrev take_alpha : String → NomadicModelParser F → NomadicModelParser F
    take_alpha s p =
        at_tag p.base.act_tag (pos 5) (waits (negsuc 0) (record p { alpha = string_to_float X s }))
          p

    abbrev take_v_min : String → NomadicModelParser F → NomadicModelParser F
    take_v_min s p =
        at_tag p.base.act_tag (pos 6) (waits (negsuc 0) (record p { v_min = string_to_float X s }))
          p

    abbrev take_v_max : String → NomadicModelParser F → NomadicModelParser F
    take_v_max s p =
        at_tag p.base.act_tag (pos 7) (waits (negsuc 0) (record p { v_max = string_to_float X s }))
          p

    abbrev take_pause_time : String → NomadicModelParser F → NomadicModelParser F
    take_pause_time s p =
        at_tag p.base.act_tag (pos 8)
          (waits (negsuc 0) (record p { pause_time = string_to_float X s })) p

    unfoldable pub nomadic_character_data : String → NomadicModelParser F → NomadicModelParser F
    unfolding model_character_data
    nomadic_character_data s p = take_pause_time s (
        take_v_max s
          (take_v_min s (take_alpha s (record p { base = model_character_data X s p.base }))))

    abbrev pub nomadic_handler : Handler (NomadicModelParser F)
    nomadic_handler = record {
      on_start_element = nomadic_start_element;
      on_character_data = nomadic_character_data;
    }

    -- The fields of the class above, and its own.
    abbrev pub nomadic_fields : Fields (NomadicModelParser F)
    nomadic_fields =
        map (λ f. (f.0, λ s p. record p { base = f.1 s p.base })) (model_fields X)
        ++ ("alpha", λ s p. record p { alpha = string_to_float X s })
          ∷ ("vMin", λ s p. record p { v_min = string_to_float X s })
          ∷ ("vMax", λ s p. record p { v_max = string_to_float X s })
          ∷ ("pauseTime", λ s p. record p { pause_time = string_to_float X s })
          ∷ []

    abbrev pub NomadicIdle : NomadicModelParser F → Type 0
    NomadicIdle p = p.base.act_tag ≡ negsuc 0

    settled : {p : NomadicModelParser F} → NomadicIdle p → waits (negsuc 0) p ≡ p
    settled {p} idle = ap (λ t. waits t p) (sym idle)

    start-Unknown :
        (name : String) (p : NomadicModelParser F)
        → Unknown name nomadic_fields
        → nomadic_start_element name p ≡ p
    unfolding nomadic_start_element model_start_element
    start-Unknown name p h =
        rw
          (
            h.0, h.1.0, h.1.1.0, h.1.1.1.0, h.1.1.1.1.0, h.1.1.1.1.1.0, h.1.1.1.1.1.1.0,
            h.1.1.1.1.1.1.1.0, h.1.1.1.1.1.1.1.1.0,
          )
          refl

    pass_text :
        (s : String) (p : NomadicModelParser F) → NomadicIdle p → nomadic_character_data s p ≡ p
    unfolding nomadic_character_data model_character_data
    pass_text s p idle = subst (λ q. nomadic_character_data s q ≡ q) (settled idle) refl

    one_known :
        (name s : String) (p : NomadicModelParser F)
        → NomadicIdle p
        → (Unknown name nomadic_fields
            → nomadic_character_data s (nomadic_start_element name p) ≡ p)
        → nomadic_character_data s (nomadic_start_element name p)
          ≡ put_field nomadic_fields name s p
    unfolding nomadic_character_data model_character_data nomadic_start_element model_start_element
    one_known name s p idle = put_field_sound nomadic_handler name s p nomadic_fields (
        settled idle
        & settled idle
        & settled idle
        & settled idle
        & settled idle
        & settled idle
        & settled idle
        & settled idle
        & settled idle
        & tt)

    pub nomadic_reading : Reading nomadic_handler (put_field nomadic_fields) NomadicIdle
    nomadic_reading = record {
      stays = λ name s p idle.
          put_field-keeps NomadicIdle name s p nomadic_fields idle
            (idle & idle & idle & idle & idle & idle & idle & idle & idle & tt);
      pass = pass_text;
      one_element = λ name s p idle.
          one_known name s p idle
            (λ h. ap (nomadic_character_data s) (start-Unknown name p h) ∙ pass_text s p idle);
    }

    -- A document sets the fields of its elements in order, and those of no other name.
    pub nomadic_document :
        (es : List Element) (p : NomadicModelParser F)
        → NomadicIdle p
        → parse nomadic_handler (events es) p ≡ fill_fields (put_field nomadic_fields) es p
    nomadic_document = parse-fill_fields nomadic_reading
