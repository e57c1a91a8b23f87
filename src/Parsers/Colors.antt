-- ===== src/Parsers/Colors.antt =====
-- ScenarioParser::getColor and extractValue (momosecpp/src/ScenarioParser.cpp): a colour is a text of
-- three numbers with commas between them.
use Prim.Native.Char.{Char, code}
use Prim.Native.String.{String, ◌++◌ as ◌<>◌}
use Prim.Native.String.append
use text.Mathlib.Text.{◌==◌ as str_eq}
use text.Mathlib.TextEquality.{eq_iff}
use text.Mathlib.TextLemmas.{cons-ne-nil}
use simulations.Base.{
  ℕ, zero, suc, ◌+◌, ◌==◌, ◌≡◌, refl, ap, ◌∙◌, false, if◌then◌else◌, ℤ, some, arith,
}
use simulations.Floats.{Floating}
use simulations.Node.{Color, color}
use simulations.Parsers.Texts.{Extraction, string_to_int}

abbrev pub text_length : String → ℕ
text_length String.[] = 0
text_length (String.◌∷◌ c s) = suc (text_length s)

abbrev pub text_drop : ℕ → String → String
text_drop zero s = s
text_drop (suc n) String.[] = ""
text_drop (suc n) (String.◌∷◌ c s) = text_drop n s

abbrev pub until_comma : String → String
until_comma String.[] = ""
until_comma (String.◌∷◌ c s) =
    let rest = until_comma s in if code c == b',' then "" else String.◌∷◌ c rest

unfoldable pub extract_value : String → ℕ → String
extract_value s start = until_comma (text_drop start s)

module _ {F : Floating} (X : Extraction F) where
  -- The third and the second value change places: `Color(red,blue,green)`.
  unfoldable pub get_color : String → Color → Color
  unfolding extract_value string_to_int
  get_color s basic =
      let first = extract_value s 0 in
      let total = text_length first + 1 in
      let second = extract_value s total in
      let total' = total + (text_length second + 1) in
      let third = extract_value s total' in
      if str_eq s ""
      then basic
      else color (string_to_int X first) (string_to_int X third) (string_to_int X second)

abbrev pub NoComma : String → Type 0
NoComma String.[] = Unit
NoComma (String.◌∷◌ c s) = ((code c == b',') ≡ false) × NoComma s

nil_comma : (rest : String) → String.[] <> ("," <> rest) ≡ String.◌∷◌ "," rest
nil_comma rest =
    (λ i. append.nil ("," <> rest) i)
    ∙ (λ i. append.cons "," String.[] rest i)
    ∙ (λ i. String.◌∷◌ "," (append.nil rest i))

cons_append : (c : Char) (a b : String) → String.◌∷◌ c a <> b ≡ String.◌∷◌ c (a <> b)
cons_append c a b = λ i. append.cons c a b i

before_comma : (a rest : String) → NoComma a → until_comma (a <> ("," <> rest)) ≡ a
before_comma String.[] rest h = ap until_comma (nil_comma rest)
before_comma (String.◌∷◌ c a) rest h =
    ap until_comma (cons_append c a ("," <> rest))
    ∙ rw h.0 (ap (String.◌∷◌ c) (before_comma a rest h.1))

until_comma_all : (a : String) → NoComma a → until_comma a ≡ a
until_comma_all String.[] h = refl
until_comma_all (String.◌∷◌ c a) h = rw h.0 (ap (String.◌∷◌ c) (until_comma_all a h.1))

after_comma :
    (k : ℕ) (a rest : String)
    → text_drop (text_length a + 1 + k) (a <> ("," <> rest)) ≡ text_drop k rest
after_comma k String.[] rest =
    let sum : text_length "" + 1 + k ≡ suc k = omega arith in
    ap (λ n. text_drop n (String.[] <> ("," <> rest))) sum ∙ ap (text_drop (suc k)) (nil_comma rest)
after_comma k (String.◌∷◌ c a) rest =
    let sum : text_length (String.◌∷◌ c a) + 1 + k ≡ suc (text_length a + 1 + k) = omega arith in
    ap (λ n. text_drop n (String.◌∷◌ c a <> ("," <> rest))) sum
    ∙ ap (text_drop (suc (text_length a + 1 + k))) (cons_append c a ("," <> rest))
    ∙ after_comma k a rest

-- A text that goes on after a comma is not empty.
cons_not_empty : (c : Char) (s : String) → str_eq (String.◌∷◌ c s) "" ≡ false
cons_not_empty c s = ground (arith, eq_iff (String.◌∷◌ c s) "", cons-ne-nil c s)

not_empty : (a rest : String) → str_eq (a <> ("," <> rest)) "" ≡ false
not_empty String.[] rest = ap (λ s. str_eq s "") (nil_comma rest) ∙ cons_not_empty "," rest
not_empty (String.◌∷◌ c a) rest =
    ap (λ s. str_eq s "") (cons_append c a ("," <> rest)) ∙ cons_not_empty c (a <> ("," <> rest))

abbrev pub color_text : (ℤ → String) → Color → String
color_text print c = print c.red <> ("," <> (print c.green <> ("," <> print c.blue)))

module _ {F : Floating} (X : Extraction F) where
  -- If integers are read back from their text, which has no comma, then getColor of the text
  -- `red,green,blue` of a colour, as toXml writes it, is that colour with green and blue in each
  -- other's place.
  pub get_color-color_text :
      (print : ℤ → String) (c basic : Color)
      → ((n : ℤ) → X.int_of (print n) ≡ some n)
      → ((n : ℤ) → NoComma (print n))
      → get_color X (color_text print c) basic ≡ color c.red c.blue c.green
  unfolding get_color extract_value string_to_int
  get_color-color_text print c basic reads plain =
      let r = print c.red in
      let g = print c.green in
      let b = print c.blue in
      let one : until_comma (color_text print c) ≡ r =
        before_comma r (g <> ("," <> b)) (plain c.red) in
      let zero_more : text_length r + 1 ≡ text_length r + 1 + 0 = omega arith in
      let two : until_comma (text_drop (text_length r + 1) (color_text print c)) ≡ g =
        ap (λ n. until_comma (text_drop n (color_text print c))) zero_more
        ∙ ap until_comma (after_comma 0 r (g <> ("," <> b)))
        ∙ before_comma g b (plain c.green) in
      let more : text_length g + 1 ≡ text_length g + 1 + 0 = omega arith in
      let three : until_comma
            (text_drop (text_length r + 1 + (text_length g + 1)) (color_text print c))
          ≡ b =
        ap until_comma (after_comma (text_length g + 1) r (g <> ("," <> b)))
        ∙ ap (λ n. until_comma (text_drop n (g <> ("," <> b)))) more
        ∙ ap until_comma (after_comma 0 g b)
        ∙ until_comma_all b (plain c.blue) in
      rw (not_empty r (g <> ("," <> b)), one, two, three, reads c.red, reads c.green, reads c.blue)
        refl
