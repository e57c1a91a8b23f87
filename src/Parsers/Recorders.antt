-- ===== src/Parsers/Recorders.antt =====
-- class ViewerRecorderParser (momosecpp/src/ViewerRecorderParser.cpp,
-- momosecpp/src/include/ViewerRecorderParser.h), which the builders of both recorders use, and what
-- those builders pass on.
use Prim.Native.String.{String}
use simulations.Base.{ℤ, pos, negsuc, Bool, false, ◌≡◌, refl, sym, ap, [], ◌∷◌}
use simulations.Parsers.Texts.{string_to_bool}
use simulations.Parsers.Document.{Handler, Reading}
use simulations.Parsers.Tables.{◌&◌, Fields, put_field, put_field_sound, put_field-keeps}
use simulations.Parsers.Models.{tag_if, at_tag}

pub record RecorderParser : Type 0 where
  pub file_path : String
  pub compress_output : Bool
  pub act_tag : ℤ

unfoldable pub init_recorder_parser : RecorderParser
init_recorder_parser = record {
  file_path = "./viewerRecorderOutput.xml";
  compress_output = false;
  act_tag = negsuc 0;
}

unfoldable pub recorder_start_element : String → RecorderParser → RecorderParser
recorder_start_element name p = record p {
  act_tag = tag_if name "compressOutput" (pos 1) (tag_if name "filePath" (pos 0) p.act_tag);
}

abbrev take_file_path : String → RecorderParser → RecorderParser
take_file_path s p = at_tag p.act_tag (pos 0) (record p { file_path = s; act_tag = negsuc 0 }) p

abbrev take_compress_output : String → RecorderParser → RecorderParser
take_compress_output s p =
    at_tag p.act_tag (pos 1) (record p { compress_output = string_to_bool s; act_tag = negsuc 0 }) p

unfoldable pub recorder_character_data : String → RecorderParser → RecorderParser
recorder_character_data s p = take_compress_output s (take_file_path s p)

-- The settings that a builder gives the recorder it makes.
unfoldable pub recorder_settings : RecorderParser → String × Bool
recorder_settings p = (p.file_path, p.compress_output)

abbrev pub recorder_handler : Handler RecorderParser
recorder_handler = record {
  on_start_element = recorder_start_element;
  on_character_data = recorder_character_data;
}

abbrev pub recorder_fields : Fields RecorderParser
recorder_fields =
    ("filePath", λ s p. record p { file_path = s })
    ∷ ("compressOutput", λ s p. record p { compress_output = string_to_bool s })
    ∷ []

settled : {p : RecorderParser} → p.act_tag ≡ negsuc 0 → record p { act_tag = negsuc 0 } ≡ p
settled {p} idle = ap (λ t. record p { act_tag = t }) (sym idle)

pub recorder_reading :
    Reading recorder_handler (put_field recorder_fields) (λ p. p.act_tag ≡ negsuc 0)
unfolding recorder_character_data recorder_start_element
recorder_reading = record {
  stays = λ name s p idle.
      put_field-keeps (λ q. q.act_tag ≡ negsuc 0) name s p recorder_fields idle (idle & idle & tt);
  pass = λ s p idle. rw idle refl;
  one_element = λ name s p idle.
      put_field_sound recorder_handler name s p recorder_fields (settled idle & settled idle & tt)
        (λ h. rw (h.0, h.1.0, idle) refl);
}
