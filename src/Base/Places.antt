-- ===== src/Base/Places.antt =====
-- Predicates on the elements of a list together with their places.
use Prim.Native.Nat.{ℕ, zero, suc, ◌+◌}
use mathlib.Core.Path.{◌≡◌, subst}
use mathlib.Core.Bool.{Bool, true, false}
use mathlib.Core.Option.{some}
use mathlib.Core.List.{List, [], ◌∷◌, ◌++◌}
use native.Mathlib.Omega.{arith}
use simulations.Base.Tests.{if◌then◌else◌}
use simulations.Base.Lists.{get_elem?, set, length}
use simulations.Base.Membership.{All}

-- A predicate on the elements of a list and their places, counted from `i`.
abbrev pub AllFrom {ℓ κ} : {A : Type ℓ} → (ℕ → A → Type κ) → ℕ → List A → Type κ
AllFrom P i [] = Unit
AllFrom P i (x ∷ xs) = P i x × AllFrom P (suc i) xs

module _ {ℓ κ} {A : Type ℓ} (P : ℕ → A → Type κ) where
  pub AllFrom-get :
      (i k : ℕ) (xs : List A) (x : A) → AllFrom P i xs → get_elem? xs k ≡ some x → P (i + k) x
  AllFrom-get i k [] x h e = cc
  AllFrom-get i zero (y ∷ xs) x h e =
      let same : y ≡ x = ground arith in
      let place : i ≡ i + 0 = omega arith in subst (P (i + 0)) same (subst (λ j. P j y) place h.0)
  AllFrom-get i (suc k) (y ∷ xs) x h e =
      let place : suc i + k ≡ i + suc k = omega arith in
      subst (λ j. P j x) place (AllFrom-get (suc i) k xs x h.1 e)

  pub AllFrom-set :
      (i k : ℕ) (xs : List A) (x : A) → AllFrom P i xs → P (i + k) x → AllFrom P i (set xs k x)
  AllFrom-set i k [] x h p = tt
  AllFrom-set i zero (y ∷ xs) x h p =
      let place : i + 0 ≡ i = omega arith in (subst (λ j. P j x) place p, h.1)
  AllFrom-set i (suc k) (y ∷ xs) x h p =
      let place : i + suc k ≡ suc i + k = omega arith in
      (h.0, AllFrom-set (suc i) k xs x h.1 (subst (λ j. P j x) place p))

  -- The same from place 0.
  pub AllFrom-get_zero :
      (k : ℕ) (xs : List A) (x : A) → AllFrom P 0 xs → get_elem? xs k ≡ some x → P k x
  AllFrom-get_zero k xs x h e =
      let place : 0 + k ≡ k = omega arith in subst (λ j. P j x) place (AllFrom-get 0 k xs x h e)

  pub AllFrom-set_zero :
      (k : ℕ) (xs : List A) (x : A) → AllFrom P 0 xs → P k x → AllFrom P 0 (set xs k x)
  AllFrom-set_zero k xs x h p =
      let place : k ≡ 0 + k = omega arith in AllFrom-set 0 k xs x h (subst (λ j. P j x) place p)

  pub AllFrom-append :
      (i : ℕ) (xs : List A) (x : A)
      → AllFrom P i xs
      → P (i + length xs) x
      → AllFrom P i (xs ++ x ∷ [])
  AllFrom-append i [] x h p =
      let place : i + 0 ≡ i = omega arith in (subst (λ j. P j x) place p, tt)
  AllFrom-append i (y ∷ xs) x h p =
      let place : i + suc (length xs) ≡ suc i + length xs = omega arith in
      (h.0, AllFrom-append (suc i) xs x h.1 (subst (λ j. P j x) place p))

pub All-elem {ℓ κ} :
    {A : Type ℓ} (P : A → Type κ) (xs : List A) (k : ℕ) (x : A)
    → All P xs
    → get_elem? xs k ≡ some x
    → P x
All-elem P [] k x h e = cc
All-elem P (y ∷ xs) zero x h e = let same : y ≡ x = ground arith in subst P same h.0
All-elem P (y ∷ xs) (suc k) x h e = All-elem P xs k x h.1 e

pub All-if_cons {ℓ κ} :
    {A : Type ℓ} (P : A → Type κ) (b : Bool) (x : A) (xs : List A)
    → P x
    → All P xs
    → All P (if b then x ∷ xs else xs)
All-if_cons P true x xs h hs = (h, hs)
All-if_cons P false x xs h hs = hs

pub All-set {ℓ κ} :
    {A : Type ℓ} (P : A → Type κ) (xs : List A) (k : ℕ) (x : A)
    → All P xs
    → P x
    → All P (set xs k x)
All-set P [] k x h p = tt
All-set P (y ∷ xs) zero x h p = (p, h.1)
All-set P (y ∷ xs) (suc k) x h p = (h.0, All-set P xs k x h.1 p)
