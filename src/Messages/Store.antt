-- ===== src/Messages/Store.antt =====
-- `std::map` with keys of type `long`: an association list in ascending order of the keys, as an
-- iterator walks it. `insert` keeps the entry of a key that is there.
use simulations.Base.{
  ℕ, ◌<◌, ◌≤◌, suc, ◌≡◌, refl, ◌≢◌, Bool, true, false, Option, none, some, List, [], ◌∷◌, arith,
  ltb, ◌==◌, if◌then◌else◌, All, ==_iff, Bool-cases, inl, inr, sym,
}
use mathlib.Core.Path.{subst₂}

module _ {ℓ} {V : Type ℓ} where
  abbrev pub lookup : ℕ → List (ℕ × V) → Option V
  lookup k [] = none
  lookup k ((j, v) ∷ m) = if k == j then some v else lookup k m

  abbrev pub has_key : ℕ → List (ℕ × V) → Bool
  has_key k [] = false
  has_key k ((j, v) ∷ m) = if k == j then true else has_key k m

  unfoldable pub insert : ℕ → V → List (ℕ × V) → List (ℕ × V)
  insert k v [] = (k, v) ∷ []
  insert k v ((j, w) ∷ m) =
      if k == j then (j, w) ∷ m else if ltb k j then (k, v) ∷ (j, w) ∷ m else (j, w) ∷ insert k v m

  -- Each key is above `n`, and the keys ascend.
  abbrev pub Above : ℕ → List (ℕ × V) → Type 0
  Above n [] = Unit {0}
  Above n ((j, v) ∷ m) = (n ≤ j) × Above (suc j) m

  has_key-Above : (k n : ℕ) (m : List (ℕ × V)) → Above n m → k < n → has_key k m ≡ false
  has_key-Above k n [] a h = refl
  has_key-Above k n ((j, v) ∷ m) a h = ground (arith, has_key-Above k (suc j) m)

  lookup-Above : (k n : ℕ) (m : List (ℕ × V)) → Above n m → k < n → lookup k m ≡ none
  lookup-Above k n [] a h = refl
  lookup-Above k n ((j, v) ∷ m) a h = ground (arith, lookup-Above k (suc j) m)

  Above-insert : (n k : ℕ) (v : V) (m : List (ℕ × V)) → Above n m → n ≤ k → Above n (insert k v m)
  unfolding insert
  Above-insert n k v [] a h = ground arith
  Above-insert n k v ((j, w) ∷ m) a h = ground (arith, Above-insert (suc j) k v m)

  abbrev pub IsAscending : List (ℕ × V) → Type 0
  IsAscending m = Above 0 m

  pub insert-IsAscending :
      (k : ℕ) (v : V) (m : List (ℕ × V)) → IsAscending m → IsAscending (insert k v m)
  insert-IsAscending k v m a = Above-insert 0 k v m a (omega arith)

  pub lookup-insert_self_new :
      (k : ℕ) (v : V) (m : List (ℕ × V)) → has_key k m ≡ false → lookup k (insert k v m) ≡ some v
  unfolding insert
  lookup-insert_self_new k v [] h = ground arith
  lookup-insert_self_new k v ((j, w) ∷ m) h = ground (arith, lookup-insert_self_new k v m)

  insert_old-Above :
      (n k : ℕ) (v : V) (m : List (ℕ × V)) → Above n m → has_key k m ≡ true → insert k v m ≡ m
  unfolding insert
  insert_old-Above n k v [] a h = ground arith
  insert_old-Above n k v ((j, w) ∷ m) a h =
      ground (arith, insert_old-Above (suc j) k v m, has_key-Above k (suc j) m)

  -- A key that is there keeps its entry, and the map is as it was.
  pub insert_old :
      (k : ℕ) (v : V) (m : List (ℕ × V)) → IsAscending m → has_key k m ≡ true → insert k v m ≡ m
  insert_old k v m a h = insert_old-Above 0 k v m a h

  pub lookup-insert_ne :
      (j k : ℕ) (v : V) (m : List (ℕ × V)) → j ≢ k → lookup j (insert k v m) ≡ lookup j m
  unfolding insert
  lookup-insert_ne j k v [] h = ground arith
  lookup-insert_ne j k v ((i, w) ∷ m) h = ground (arith, lookup-insert_ne j k v m)

  pub has_key-insert :
      (j k : ℕ) (v : V) (m : List (ℕ × V))
      → has_key j (insert k v m) ≡ (if j == k then true else has_key j m)
  unfolding insert
  has_key-insert j k v [] = refl
  has_key-insert j k v ((i, w) ∷ m) = ground (arith, has_key-insert j k v m)

  pub lookup_of_has_key :
      (k : ℕ) (m : List (ℕ × V)) → has_key k m ≡ true → (v : V) × (lookup k m ≡ some v)
  lookup_of_has_key k [] h = ground arith
  lookup_of_has_key k ((j, v) ∷ m) h = elim (Bool-cases (k == j)) [
    | inl e ↦ (v, rw e)
    | inr e ↦ let (w, f) = lookup_of_has_key k m (rw e at h) in (w, rw e f)
  ]

module _ {ℓ κ} {V : Type ℓ} (P : ℕ × V → Type κ) where
  pub All-insert : (k : ℕ) (v : V) (m : List (ℕ × V)) → P (k, v) → All P m → All P (insert k v m)
  unfolding insert
  All-insert k v [] p h = (p, tt)
  All-insert k v ((j, w) ∷ m) p h = elim (Bool-cases (k == j)) [
    | inl e ↦ rw e h
    | inr e ↦ rw e (elim (Bool-cases (ltb k j)) [
      | inl below ↦ rw below (p, h)
      | inr above ↦ rw above (h.0, All-insert k v m p h.1)
    ])
  ]

  pub All-lookup : (k : ℕ) (v : V) (m : List (ℕ × V)) → All P m → lookup k m ≡ some v → P (k, v)
  All-lookup k v [] h e = cc
  All-lookup k v ((j, w) ∷ m) h e = elim (Bool-cases (k == j)) [
    | inl hit ↦
        let same : w ≡ v = ground arith in
        subst₂ (λ a b. P (a, b)) (sym ((==_iff k j).0 hit)) same h.0
    | inr miss ↦ All-lookup k v m h.1 (rw miss at e)
  ]
