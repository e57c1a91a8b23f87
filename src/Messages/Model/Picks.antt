-- ===== src/Messages/Model/Picks.antt =====
-- The random places that MessageModel::think (momosecpp/src/MessageModel.cpp) picks.
use simulations.Base.{
  ℕ, zero, suc, ◌+◌, ◌≤◌, ◌<◌, ◌≡◌, refl, subst, ap, ◌∙◌, ◌⊎◌, inl, inr, none, some, get_elem?,
  length, List, [], ◌∷◌, ℤ, pos, negsuc, arith,
}
use simulations.Floats.{Floating}
use simulations.Random.{Random}
use simulations.Messages.Model.{get_place}

-- The place is none of a list of this length.
abbrev pub Outside : ℤ → ℕ → Type 0
Outside (pos k) size = size ≤ k
Outside (negsuc k) size = Unit

-- The share of RAND_MAX that a value is, times the number of places, cut towards zero.
abbrev pub share_of : (F : Floating) → Random → ℕ → ℕ → ℤ
share_of F R r size =
    F.trunc_f (F.fmul (F.fdiv (F.of_int (pos r)) (F.of_int (pos R.rand_max))) (F.of_int (pos size)))

-- The generator after `k` draws.
abbrev pub drawn : (R : Random) → ℕ → R.Rng → R.Rng
drawn R zero rng = rng
drawn R (suc k) rng = drawn R k (R.rand rng).1

-- One of the next `draws` values of the generator gives a place outside a list that is not empty
-- and has at most `count` elements.
abbrev pub PicksOutside : (F : Floating) (R : Random) → ℕ → R.Rng → ℕ → Type 0
PicksOutside F R count rng draws =
    (k : ℕ) × (size : ℕ) × (k < draws)
    × (0 < size)
    × (size ≤ count)
    × Outside (share_of F R (R.rand (drawn R k rng)).0 size) size

drawn-drawn : (R : Random) (n k : ℕ) (rng : R.Rng) → drawn R k (drawn R n rng) ≡ drawn R (n + k) rng
drawn-drawn R zero k rng = let same : k ≡ 0 + k = omega arith in ap (λ j. drawn R j rng) same
drawn-drawn R (suc n) k rng =
    let same : suc (n + k) ≡ suc n + k = omega arith in
    drawn-drawn R n k (R.rand rng).1 ∙ ap (λ j. drawn R j rng) same

module _ (F : Floating) (R : Random) (count : ℕ) where
  pub PicksOutside-drawn :
      (n : ℕ) (rng : R.Rng) (draws : ℕ)
      → PicksOutside F R count (drawn R n rng) draws
      → PicksOutside F R count rng (n + draws)
  PicksOutside-drawn n rng draws (k, size, early, some_places, few, out) = (
    n + k,
    size,
    omega (arith, early),
    some_places,
    few,
    subst (λ r. Outside (share_of F R (R.rand r).0 size) size) (drawn-drawn R n k rng) out,
  )

  pub PicksOutside-later :
      (rng rng' : R.Rng) (draws : ℕ)
      → (rng' ≡ rng) ⊎ (rng' ≡ (R.rand rng).1)
      → PicksOutside F R count rng' draws
      → PicksOutside F R count rng (suc draws)
  PicksOutside-later rng rng' draws (inl e) out =
      let (k, size, early, some_places, few, beyond) =
        subst (λ r. PicksOutside F R count r draws) e out in
      (k, size, omega (arith, early), some_places, few, beyond)
  PicksOutside-later rng rng' draws (inr e) out =
      let (k, size, early, some_places, few, beyond) =
        subst (λ r. PicksOutside F R count r draws) e out in
      (suc k, size, omega (arith, early), some_places, few, beyond)

get_elem?-cases :
    {A : Type 0} (xs : List A) (k : ℕ)
    → ((x : A) × (get_elem? xs k ≡ some x)) ⊎ ((get_elem? xs k ≡ none) × (length xs ≤ k))
get_elem?-cases [] k = inr (refl, omega arith)
get_elem?-cases (x ∷ xs) zero = inl (x, refl)
get_elem?-cases (x ∷ xs) (suc k) = elim (get_elem?-cases xs k) [
  | inl found ↦ inl found
  | inr (e, out) ↦ inr (e, omega (arith, out))
]

pub get_place-cases :
    (js : List ℕ) (i : ℤ)
    → ((k : ℕ) × (place : ℕ) × (get_place js i ≡ some place) × (get_elem? js k ≡ some place))
      ⊎ ((get_place js i ≡ none) × Outside i (length js))
get_place-cases js (pos k) = elim (get_elem?-cases js k) [
  | inl (place, e) ↦ inl (k, place, e, e)
  | inr out ↦ inr out
]
get_place-cases js (negsuc k) = inr (refl, tt)
