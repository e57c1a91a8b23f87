-- ===== src/Parsers/Attributes.antt =====
-- The three ways to an attribute (Parsers/Texts.antt) agree.
use Prim.Native.String.{String}
use text.Mathlib.Text.{◌==◌ as str_eq}
use text.Mathlib.TextPositions.{eq_refl}
use simulations.Base.{
  ℕ, zero, suc, ◌<◌, ◌≡◌, refl, true, false, arith, [], ◌∷◌, some, length, get_elem?, Apart,
  All-elem, pos,
}
use simulations.Parsers.Texts.{
  Attrs, get_attr_from_name, get_attr_count, get_attr_from_id, get_attr_name_from_id, within,
}

-- XML allows an attribute once in an element.
abbrev pub Distinct : Attrs → Type 0
Distinct attrs = Apart (λ a b. str_eq a.0 b.0 ≡ false) attrs

pair_at :
    (attrs : Attrs) (k : ℕ)
    → Distinct attrs
    → k < length attrs
    → (a : String × String) × (get_elem? attrs k ≡ some a) × (get_attr_from_name attrs a.0 ≡ a.1)
unfolding get_attr_from_name
pair_at [] k distinct h = absurd (elim h [ ])
pair_at ((key, value) ∷ attrs) zero distinct h = ((key, value), refl, rw (eq_refl key) refl)
pair_at ((key, value) ∷ attrs) (suc k) distinct h =
    let (a, place, found) = pair_at attrs k distinct.1 (omega arith) in
    let other : str_eq key a.0 ≡ false =
      All-elem (λ b. str_eq key b.0 ≡ false) attrs k a distinct.0 place in
    (a, place, rw other found)

within_pos : (attrs : Attrs) (k : ℕ) → k < length attrs → within attrs (pos k) ≡ true
unfolding get_attr_count
within_pos attrs k h = ground arith

-- In an element whose attributes have different names, the attribute of a number within the count
-- has a name, and getAttrFromID of the number is getAttrFromName of that name.
pub get_attr_from_name-id :
    (attrs : Attrs) (k : ℕ)
    → Distinct attrs
    → k < length attrs
    → (name : String) × (get_attr_name_from_id attrs (pos k) ≡ some name)
      × (get_attr_from_id attrs (pos k) ≡ some (get_attr_from_name attrs name))
unfolding get_attr_from_id get_attr_name_from_id
get_attr_from_name-id attrs k distinct h =
    let (a, place, found) = pair_at attrs k distinct h in
    (a.0, rw (within_pos attrs k h, place) refl, rw (within_pos attrs k h, place, found) refl)
