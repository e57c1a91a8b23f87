-- ===== src/Parsers/Tables.antt =====
-- A contract of Parsers/Document.antt given as a table: the fields of a class of parsers by the names
-- of their elements.
use Prim.Native.String.{String}
use text.Mathlib.Text.{◌==◌ as str_eq}
use text.Mathlib.TextEquality.{eq_iff}
use simulations.Base.{
  arith, ◌≡◌, sym, subst, false, List, [], ◌∷◌, All, Bool-cases, if◌then◌else◌, inl, inr,
}
use simulations.Parsers.Document.{Handler}

-- Pairs nested to the right, written as a row.
infixr 20 ◌&◌
abbrev pub ◌&◌ {ℓ κ} : {A : Type ℓ} {B : Type κ} → A → B → A × B
a & b = (a, b)

abbrev pub Fields : Type 0 → Type 0
Fields P = List (String × (String → P → P))

module _ {P : Type 0} where
  -- The first field of that name takes the text; no other field changes.
  abbrev pub put_field : Fields P → String → String → P → P
  put_field [] name text p = p
  put_field ((key, put) ∷ fs) name text p =
      if str_eq name key then put text p else put_field fs name text p

  abbrev pub Unknown : String → Fields P → Type 0
  Unknown name fs = All (λ f. str_eq name f.0 ≡ false) fs

  pub put_field_sound :
      (h : Handler P) (name text : String) (p : P) (fs : Fields P)
      → All (λ f. h.on_character_data text (h.on_start_element f.0 p) ≡ f.1 text p) fs
      → (Unknown name fs → h.on_character_data text (h.on_start_element name p) ≡ p)
      → h.on_character_data text (h.on_start_element name p) ≡ put_field fs name text p
  put_field_sound h name text p [] known unknown = unknown tt
  put_field_sound h name text p ((key, put) ∷ fs) known unknown =
      elim (Bool-cases (str_eq name key)) [
        | inl e ↦
            let same : name ≡ key = ground (arith, eq_iff name key) in
            rw e (
              subst (λ s. h.on_character_data text (h.on_start_element s p) ≡ put text p) (sym same)
                known.0)
        | inr e ↦ rw e (put_field_sound h name text p fs known.1 (λ rest. unknown (e, rest)))
      ]

  pub put_field-keeps :
      (Q : P → Type 0) (name text : String) (p : P) (fs : Fields P)
      → Q p
      → All (λ f. Q (f.1 text p)) fs
      → Q (put_field fs name text p)
  put_field-keeps Q name text p [] same rest = same
  put_field-keeps Q name text p ((key, put) ∷ fs) same rest = elim (Bool-cases (str_eq name key)) [
    | inl e ↦ rw e rest.0
    | inr e ↦ rw e (put_field-keeps Q name text p fs same rest.1)
  ]
