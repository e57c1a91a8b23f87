-- ===== src/Parsers/Document.antt =====
-- What a parser of elements promises, apart from its code: a document is read by setting, for each
-- of its elements in order, the field that the element's name stands for.
use Prim.Native.String.{String}
use simulations.Base.{◌≡◌, refl, ap, ◌∙◌, List, [], ◌∷◌, ◌++◌}

-- OnStartElement and OnCharacterData of a class of parsers. Its OnEndElement does nothing.
pub record Handler (P : Type 0) : Type 0 where
  pub on_start_element : String → P → P
  pub on_character_data : String → P → P

pub data Event : Type 0 where
  start_element character_data end_element : String → Event

module _ {P : Type 0} (h : Handler P) where
  abbrev pub handle : Event → P → P
  handle (start_element name) p = h.on_start_element name p
  handle (character_data text) p = h.on_character_data text p
  handle (end_element name) p = p

  unfoldable pub parse : List Event → P → P
  parse [] p = p
  parse (e ∷ es) p = parse es (handle e p)

-- An element with its text in one piece, and the texts that follow it up to the next element.
pub record Element : Type 0 where
  pub name : String
  pub text : String
  pub after : List String

abbrev texts : List String → List Event
texts [] = []
texts (t ∷ ts) = character_data t ∷ texts ts

abbrev pub events : List Element → List Event
events [] = []
events (e ∷ es) =
    start_element e.name ∷ character_data e.text ∷ end_element e.name ∷ texts e.after ++ events es

-- A document whose root holds a text and then these elements, each of which holds a text only.
abbrev pub document_events : String → List String → List Element → List Event
document_events root before es =
    start_element root ∷ texts before ++ (events es ++ end_element root ∷ [])

-- The contract: `set_field` says which field an element sets, and to what, and while the parser is
-- `Idle`, no element waiting for its text, a text is passed over.
pub record Reading {P : Type 0} (h : Handler P) (set_field : String → String → P → P)
    (Idle : P → Type 0) : Type 0 where
  pub stays : (name text : String) (p : P) → Idle p → Idle (set_field name text p)
  pub pass : (text : String) (p : P) → Idle p → h.on_character_data text p ≡ p
  pub one_element :
      (name text : String) (p : P)
      → Idle p
      → h.on_character_data text (h.on_start_element name p) ≡ set_field name text p

abbrev pub fill_fields : {P : Type 0} → (String → String → P → P) → List Element → P → P
fill_fields set_field [] p = p
fill_fields set_field (e ∷ es) p = fill_fields set_field es (set_field e.name e.text p)

module _ {P : Type 0} (h : Handler P) where
  parse-append : (xs ys : List Event) (p : P) → parse h (xs ++ ys) p ≡ parse h ys (parse h xs p)
  unfolding parse
  parse-append [] ys p = refl
  parse-append (e ∷ xs) ys p = parse-append xs ys (handle h e p)

module _ {P : Type 0} {h : Handler P} {set_field : String → String → P → P} {Idle : P → Type 0}
    (reading : Reading h set_field Idle) where
  parse-texts :
      (ts : List String) (rest : List Event) (p : P)
      → Idle p
      → parse h (texts ts ++ rest) p ≡ parse h rest p
  unfolding parse
  parse-texts [] rest p idle = refl
  parse-texts (t ∷ ts) rest p idle =
      ap (parse h (texts ts ++ rest)) (reading.pass t p idle) ∙ parse-texts ts rest p idle

  pub parse-fill_fields :
      (es : List Element) (p : P) → Idle p → parse h (events es) p ≡ fill_fields set_field es p
  unfolding parse
  parse-fill_fields [] p idle = refl
  parse-fill_fields (e ∷ es) p idle =
      let q = set_field e.name e.text p in
      let idle' = reading.stays e.name e.text p idle in
      ap (parse h (texts e.after ++ events es)) (reading.one_element e.name e.text p idle)
      ∙ parse-texts e.after (events es) q idle'
      ∙ parse-fill_fields es q idle'

  -- The root is passed over if its name stands for no field.
  pub parse-document_events :
      (root : String) (before : List String) (es : List Element) (p : P)
      → Idle p
      → h.on_start_element root p ≡ p
      → parse h (document_events root before es) p ≡ fill_fields set_field es p
  unfolding parse
  parse-document_events root before es p idle passed =
      let rest = events es ++ end_element root ∷ [] in
      ap (parse h (texts before ++ rest)) passed
      ∙ parse-texts before rest p idle
      ∙ parse-append h (events es) (end_element root ∷ []) p
      ∙ parse-fill_fields es p idle
