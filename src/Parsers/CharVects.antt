-- ===== src/Parsers/CharVects.antt =====
-- Utils::convertStrToCharVect (momosecpp/src/Utils.cpp), and the two functions xmlCharVectToString
-- of class BaseParser (momosecpp/src/BaseParser.cpp). A block of memory is the list of its bytes; the
-- allocation does not fail.
use simulations.Base.{
  ℕ, zero, suc, ◌==◌, ◌≡◌, refl, ap, false, if◌then◌else◌, List, [], ◌∷◌, ◌++◌, Option, none, some,
  All, length,
}
use mathlib.Core.Option.{map as map_option}

unfoldable pub convert_str_to_char_vect : List ℕ → List ℕ
convert_str_to_char_vect str = str ++ 0 ∷ []

-- Up to the byte 0; `none` is a read past the block.
unfoldable pub xml_char_vect_to_string : List ℕ → Option (List ℕ)
xml_char_vect_to_string [] = none
xml_char_vect_to_string (c ∷ cs) =
    let rest = map_option (λ str. c ∷ str) (xml_char_vect_to_string cs) in
    if c == 0 then some [] else rest

unfoldable pub xml_chars_to_string : List ℕ → ℕ → Option (List ℕ)
xml_chars_to_string cs zero = some []
xml_chars_to_string [] (suc len) = none
xml_chars_to_string (c ∷ cs) (suc len) = map_option (λ str. c ∷ str) (xml_chars_to_string cs len)

-- A text without the byte 0 comes back from its block.
pub xml_char_vect_to_string-convert :
    (str : List ℕ)
    → All (λ c. (c == 0) ≡ false) str
    → xml_char_vect_to_string (convert_str_to_char_vect str) ≡ some str
unfolding xml_char_vect_to_string convert_str_to_char_vect
xml_char_vect_to_string-convert [] h = refl
xml_char_vect_to_string-convert (c ∷ str) h =
    rw h.0 (ap (map_option (λ s. c ∷ s)) (xml_char_vect_to_string-convert str h.1))

-- As many bytes as there are of it come back too, whatever follows.
pub xml_chars_to_string-prefix :
    (str rest : List ℕ) → xml_chars_to_string (str ++ rest) (length str) ≡ some str
unfolding xml_chars_to_string
xml_chars_to_string-prefix [] rest = refl
xml_chars_to_string-prefix (c ∷ str) rest =
    ap (map_option (λ s. c ∷ s)) (xml_chars_to_string-prefix str rest)
