-- ===== src/Manager/Known.antt =====
-- The search of the builders of a configuration (momosecpp/src/SimulationManager.cpp).
use Prim.Native.String.{String}
use text.Mathlib.Text.{◌==◌ as str_eq}
use text.Mathlib.TextEquality.{eq_iff}
use simulations.Base.{
  ◌≡◌, ◌⊎◌, inl, inr, refl, sym, ap, ◌∙◌, arith, Bool, true, false, if◌then◌else◌, List, [], ◌∷◌,
  none, some, map, keep, In, All, Bool-cases,
}
use simulations.Manager.Builders.{Builder, search_name, push_found, get_build_vector}

abbrev pub listed : List String → String → Bool
listed [] name = false
listed (n ∷ ns) name = if str_eq name n then true else listed ns name

module _ {P : Type 0} where
  abbrev pub builder_name : Builder P → String
  builder_name b = b.name

  abbrev pub names_of : List (Builder P) → List String
  names_of bs = map builder_name bs

  -- What the search of a name gives.
  abbrev pub Finds : List (Builder P) → String → Type 0
  Finds registered name =
      ((b : Builder P) × (search_name registered name ≡ some b)
        × (b.name ≡ name)
        × In b registered
        × (listed (names_of registered) name ≡ true))
      ⊎ ((search_name registered name ≡ none) × (listed (names_of registered) name ≡ false))

  search_rest-Finds :
      (b : Builder P) (bs : List (Builder P)) (name : String)
      → str_eq name b.name ≡ false
      → Finds bs name
      → Finds (b ∷ bs) name
  unfolding search_name
  search_rest-Finds b bs name e (inl (b', found, same, at, known)) =
      inl (b', rw e found, same, inr at, rw e known)
  search_rest-Finds b bs name e (inr (found, known)) = inr (rw e found, rw e known)

  pub search_name-Finds : (registered : List (Builder P)) (name : String) → Finds registered name
  unfolding search_name
  search_name-Finds [] name = inr (refl, refl)
  search_name-Finds (b ∷ bs) name = elim (Bool-cases (str_eq name b.name)) [
    | inl e ↦
        let same : name ≡ b.name = ground (arith, eq_iff name b.name) in
        inl (b, rw e refl, sym same, inl refl, rw e refl)
    | inr e ↦ search_rest-Finds b bs name e (search_name-Finds bs name)
  ]

  abbrev Selects : List (Builder P) → List String → Type 0
  Selects registered names =
      (names_of (get_build_vector registered names) ≡ keep (listed (names_of registered)) names)
      × All (λ b. In b registered) (get_build_vector registered names)

  push_found-Selects :
      (registered : List (Builder P)) (name : String) (names : List String)
      → Finds registered name
      → Selects registered names
      → Selects registered (name ∷ names)
  unfolding get_build_vector push_found
  push_found-Selects registered name names (inl (b, found, same, at, known)) (e, among) = (
    rw (found, known)
        (ap (λ ns. b.name ∷ ns) e ∙ ap (λ n. n ∷ keep (listed (names_of registered)) names) same),
    rw found (at, among),
  )
  push_found-Selects registered name names (inr (found, known)) (e, among) =
      (rw (found, known) e, rw found among)

  -- The builders that are found are registered ones, and their names are, in order, the names of
  -- the configuration that some registered builder has.
  pub get_build_vector-Selects :
      (registered : List (Builder P)) (names : List String)
      → (names_of (get_build_vector registered names) ≡ keep (listed (names_of registered)) names)
        × All (λ b. In b registered) (get_build_vector registered names)
  unfolding get_build_vector
  get_build_vector-Selects registered [] = (refl, tt)
  get_build_vector-Selects registered (name ∷ names) =
      push_found-Selects registered name names (search_name-Finds registered name)
        (get_build_vector-Selects registered names)
