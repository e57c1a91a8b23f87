-- ===== src/Base/Uuids.antt =====
-- Lists of keys: membership as a test, and lists without repetition.
use mathlib.Core.List.{reverse, reverse-cons, append-nil}
use Prim.Native.Nat.{ℕ}
use mathlib.Core.Path.{◌≡◌, refl, ◌∙◌, sym}
use mathlib.Core.Logic.{inl, inr}
use mathlib.Core.Bool.{Bool, true, false, ◌||◌, ◌&&◌, not}
use mathlib.Core.List.{List, [], ◌∷◌, ◌++◌}
use native.Mathlib.Omega.{arith}
use simulations.Base.Tests.{if◌then◌else◌, ◌==◌, Bool-cases}
use simulations.Base.Lists.{keep}
use simulations.Base.Membership.{keep-append}

abbrev pub contains : ℕ → List ℕ → Bool
contains u [] = false
contains u (x ∷ xs) = if u == x then true else contains u xs

abbrev pub Nodup : List ℕ → Type 0
Nodup [] = Unit {0}
Nodup (x ∷ xs) = (contains x xs ≡ false) × Nodup xs

pub contains-append :
    (u : ℕ) (xs ys : List ℕ) → contains u (xs ++ ys) ≡ contains u xs || contains u ys
contains-append u [] ys = refl
contains-append u (x ∷ xs) ys = ground (arith, contains-append u xs ys)

pub contains-reverse : (u : ℕ) (xs : List ℕ) → contains u (reverse xs) ≡ contains u xs
contains-reverse u [] = refl
contains-reverse u (x ∷ xs) =
    rw (reverse-cons x xs)
      (ground (arith, contains-append u (reverse xs) (x ∷ []), contains-reverse u xs))

pub Nodup-snoc : (xs : List ℕ) (y : ℕ) → Nodup xs → contains y xs ≡ false → Nodup (xs ++ y ∷ [])
Nodup-snoc [] y h f = (refl, tt)
Nodup-snoc (x ∷ xs) y h f = ground (arith, contains-append x xs (y ∷ []), Nodup-snoc xs y)

pub Nodup-reverse : (xs : List ℕ) → Nodup xs → Nodup (reverse xs)
Nodup-reverse [] h = tt
Nodup-reverse (x ∷ xs) h =
    rw (reverse-cons x xs)
      (Nodup-snoc (reverse xs) x (Nodup-reverse xs h.1) (contains-reverse x xs ∙ h.0))

-- The list without `u`.
abbrev pub without : ℕ → List ℕ → List ℕ
without u = keep (λ x. not (x == u))

pub without-none : (u : ℕ) (xs : List ℕ) → contains u xs ≡ false → without u xs ≡ xs
without-none u [] h = refl
without-none u (x ∷ xs) h = ground (arith, without-none u xs)

pub contains-without :
    (u v : ℕ) (xs : List ℕ) → contains u (without v xs) ≡ not (u == v) && contains u xs
contains-without u v [] = ground arith
contains-without u v (x ∷ xs) = ground (arith, contains-without u v xs)

pub Nodup-without : (u : ℕ) (xs : List ℕ) → Nodup xs → Nodup (without u xs)
Nodup-without u [] h = tt
Nodup-without u (x ∷ xs) h = ground (arith, Nodup-without u xs, contains-without x u xs)

pub keep-reverse {ℓ} :
    {A : Type ℓ} (p : A → Bool) (xs : List A) → keep p (reverse xs) ≡ reverse (keep p xs)
keep-reverse p [] = refl
keep-reverse p (x ∷ xs) =
    rw (reverse-cons x xs, keep-append p (reverse xs) (x ∷ []), keep-reverse p xs)
      (elim (Bool-cases (p x)) [
        | inl e ↦ rw e (sym (reverse-cons x (keep p xs)))
        | inr e ↦ rw e (append-nil (reverse (keep p xs)))
      ])
