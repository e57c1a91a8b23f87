-- ===== src/Parsers/Models.antt =====
-- class ModelParser (momosecpp/src/ModelParser.cpp, momosecpp/src/include/ModelParser.h) and class
-- SimpleModelParser (momosecpp/src/SimpleModelParser.cpp) under it.
use Prim.Native.String.{String}
use text.Mathlib.Text.{◌==◌ as str_eq}
use simulations.Base.{
  ℤ, pos, negsuc, eqb_ℤ, Bool, false, if◌then◌else◌, ◌≡◌, refl, sym, ap, [], ◌∷◌,
}
use simulations.Floats.{Floating}
use simulations.Parsers.Texts.{Extraction, string_to_int, string_to_float, string_to_bool}
use simulations.Parsers.Document.{Handler, Reading}
use simulations.Parsers.Tables.{◌&◌, Fields, put_field, put_field_sound, put_field-keeps}

-- `act_tag` is the element that waits for its text, -1 for none.
pub record ModelParser (F : Floating) : Type 0 where
  pub num_nodes : ℤ
  pub node_radius : F.Float
  pub antenna_radius : F.Float
  pub is_physical : Bool
  pub is_thinker : Bool
  pub act_tag : ℤ

unfoldable pub init_model_parser : (F : Floating) → ModelParser F
init_model_parser F = record {
  num_nodes = pos 0;
  node_radius = F.of_int (pos 1);
  antenna_radius = F.of_int (pos 10);
  is_physical = false;
  is_thinker = false;
  act_tag = negsuc 0;
}

-- `if (str == key) actTag = tag;`
abbrev pub tag_if : String → String → ℤ → ℤ → ℤ
tag_if name key tag act = if str_eq name key then tag else act

-- `if (actTag == tag) { ... actTag = -1; }`, the braces being `update`
abbrev pub at_tag : {P : Type 0} → ℤ → ℤ → P → P → P
at_tag act tag update p = if eqb_ℤ act tag then update else p

abbrev model_tag : String → ℤ → ℤ
model_tag name act = tag_if name "isThink" (pos 4) (
    tag_if name "isPhy" (pos 3)
      (tag_if name "ar" (pos 2) (tag_if name "nr" (pos 1) (tag_if name "nn" (pos 0) act))))

module _ {F : Floating} where
  unfoldable pub model_start_element : String → ModelParser F → ModelParser F
  model_start_element name p = record p { act_tag = model_tag name p.act_tag }

  module _ (X : Extraction F) where
    abbrev take_num_nodes : String → ModelParser F → ModelParser F
    take_num_nodes s p =
        at_tag p.act_tag (pos 0) (record p { num_nodes = string_to_int X s; act_tag = negsuc 0 }) p

    abbrev take_node_radius : String → ModelParser F → ModelParser F
    take_node_radius s p =
        at_tag p.act_tag (pos 1)
          (record p { node_radius = string_to_float X s; act_tag = negsuc 0 }) p

    abbrev take_antenna_radius : String → ModelParser F → ModelParser F
    take_antenna_radius s p =
        at_tag p.act_tag (pos 2)
          (record p { antenna_radius = string_to_float X s; act_tag = negsuc 0 }) p

    abbrev take_is_physical : String → ModelParser F → ModelParser F
    take_is_physical s p =
        at_tag p.act_tag (pos 3) (record p { is_physical = string_to_bool s; act_tag = negsuc 0 }) p

    abbrev take_is_thinker : String → ModelParser F → ModelParser F
    take_is_thinker s p =
        at_tag p.act_tag (pos 4) (record p { is_thinker = string_to_bool s; act_tag = negsuc 0 }) p

    unfoldable pub model_character_data : String → ModelParser F → ModelParser F
    model_character_data s p =
        take_is_thinker s
          (take_is_physical s (take_antenna_radius s (take_node_radius s (take_num_nodes s p))))

    abbrev pub model_handler : Handler (ModelParser F)
    model_handler = record {
      on_start_element = model_start_element;
      on_character_data = model_character_data;
    }

    abbrev pub model_fields : Fields (ModelParser F)
    model_fields =
        ("nn", λ s p. record p { num_nodes = string_to_int X s })
        ∷ ("nr", λ s p. record p { node_radius = string_to_float X s })
        ∷ ("ar", λ s p. record p { antenna_radius = string_to_float X s })
        ∷ ("isPhy", λ s p. record p { is_physical = string_to_bool s })
        ∷ ("isThink", λ s p. record p { is_thinker = string_to_bool s })
        ∷ []

    settled : {p : ModelParser F} → p.act_tag ≡ negsuc 0 → record p { act_tag = negsuc 0 } ≡ p
    settled {p} idle = ap (λ t. record p { act_tag = t }) (sym idle)

    pub model_reading : Reading model_handler (put_field model_fields) (λ p. p.act_tag ≡ negsuc 0)
    unfolding model_character_data model_start_element
    model_reading = record {
      stays = λ name s p idle.
          put_field-keeps (λ q. q.act_tag ≡ negsuc 0) name s p model_fields idle
            (idle & idle & idle & idle & idle & tt);
      pass = λ s p idle. rw idle refl;
      one_element = λ name s p idle.
          put_field_sound model_handler name s p model_fields
            (settled idle & settled idle & settled idle & settled idle & settled idle & tt)
            (λ h. rw (h.0, h.1.0, h.1.1.0, h.1.1.1.0, h.1.1.1.1.0, idle) refl);
    }
