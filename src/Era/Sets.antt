-- ===== src/Era/Sets.antt =====
-- What generateIndMaximalSet and removeFrom compute.
use simulations.Base.{
  ℕ, zero, suc, ◌+◌, ◌≡◌, refl, sym, subst, ◌∙◌, ap, true, false, List, [], ◌∷◌, ◌++◌,
  if◌then◌else◌, ◌==◌, length, ℤ, pos, negsuc, get_elem?, some, none, All, All-append, Apart, In,
  In-append_left, In-append_right, Bool-cases, inl, inr, ◌⊎◌, arith, ◌<◌,
}
use simulations.Floats.{Floating}
use simulations.Era.{
  EraNode, is_visible, is_seen, extend_set, clamp_index, from_first, generate_ind_maximal_set,
}

Apart-snoc :
    {A : Type 0} (R : A → A → Type 0) (xs : List A) (x : A)
    → Apart R xs
    → All (λ y. R y x) xs
    → Apart R (xs ++ x ∷ [])
Apart-snoc R [] x h all = (tt, tt)
Apart-snoc R (y ∷ ys) x h all =
    (All-append (R y) ys (x ∷ []) h.0 (all.0, tt), Apart-snoc R ys x h.1 all.1)

module _ {F : Floating} where
  -- An earlier node of the set sees no later one.
  abbrev pub IsIndependent : List (EraNode F) → Type 0
  IsIndependent = Apart (λ m n. is_visible m n ≡ false)

  -- The set has the node, or a node that sees it.
  abbrev pub IsCovered : List (EraNode F) → EraNode F → Type 0
  IsCovered set n = In n set ⊎ ((m : EraNode F) × In m set × (is_visible m n ≡ true))

  unseen :
      (set : List (EraNode F)) (n : EraNode F)
      → is_seen set n ≡ false
      → All (λ m. is_visible m n ≡ false) set
  unfolding is_seen
  unseen [] n e = tt
  unseen (m ∷ ms) n e = elim (Bool-cases (is_visible m n)) [
    | inl v ↦ ground arith
    | inr v ↦ (v, unseen ms n (ground arith))
  ]

  seen : (set : List (EraNode F)) (n : EraNode F) → is_seen set n ≡ true → IsCovered set n
  unfolding is_seen
  seen [] n e = absurd (ground arith)
  seen (m ∷ ms) n e = elim (Bool-cases (is_visible m n)) [
    | inl v ↦ inr (m, inl refl, v)
    | inr v ↦ elim (seen ms n (ground arith)) [
      | inl i ↦ inl (inr i)
      | inr (k, i, sees) ↦ inr (k, inr i, sees)
    ]
  ]

  IsCovered-append :
      (set : List (EraNode F)) (x n : EraNode F) → IsCovered set n → IsCovered (set ++ x ∷ []) n
  IsCovered-append set x n (inl m) = inl (In-append_left n set (x ∷ []) m)
  IsCovered-append set x n (inr (k, m, v)) = inr (k, In-append_left k set (x ∷ []) m, v)

  step_set : ℕ → ℕ → List (EraNode F) → EraNode F → List (EraNode F)
  step_set index i set n = if i == index then set else if is_seen set n then set else set ++ n ∷ []

  step_set-IsIndependent :
      (index i : ℕ) (set : List (EraNode F)) (n : EraNode F)
      → IsIndependent set
      → IsIndependent (step_set index i set n)
  unfolding step_set
  step_set-IsIndependent index i set n h = elim (Bool-cases (i == index)) [
    | inl e ↦ rw e h
    | inr e ↦ elim (Bool-cases (is_seen set n)) [
      | inl s ↦ rw (e, s) h
      | inr s ↦ rw (e, s) (Apart-snoc (λ m k. is_visible m k ≡ false) set n h (unseen set n s))
    ]
  ]

  pub extend_set-IsIndependent :
      (index i : ℕ) (rest set : List (EraNode F))
      → IsIndependent set
      → IsIndependent (extend_set index i rest set)
  unfolding extend_set step_set
  extend_set-IsIndependent index i [] set h = h
  extend_set-IsIndependent index i (n ∷ rest) set h =
      extend_set-IsIndependent index (i + 1) rest (step_set index i set n)
        (step_set-IsIndependent index i set n h)

  step_set-grows :
      (index i : ℕ) (set : List (EraNode F)) (x n : EraNode F)
      → IsCovered set n
      → IsCovered (step_set index i set x) n
  unfolding step_set
  step_set-grows index i set x n h = elim (Bool-cases (i == index)) [
    | inl e ↦ rw e h
    | inr e ↦ elim (Bool-cases (is_seen set x)) [
      | inl s ↦ rw (e, s) h
      | inr s ↦ rw (e, s) (IsCovered-append set x n h)
    ]
  ]

  extend_set-grows :
      (index i : ℕ) (rest set : List (EraNode F)) (n : EraNode F)
      → IsCovered set n
      → IsCovered (extend_set index i rest set) n
  unfolding extend_set step_set
  extend_set-grows index i [] set n h = h
  extend_set-grows index i (x ∷ rest) set n h =
      extend_set-grows index (i + 1) rest (step_set index i set x) n
        (step_set-grows index i set x n h)

  step_set_self :
      (index i : ℕ) (set : List (EraNode F)) (n : EraNode F)
      → ((i ≡ index) → IsCovered set n)
      → IsCovered (step_set index i set n) n
  unfolding step_set
  step_set_self index i set n h = elim (Bool-cases (i == index)) [
    | inl e ↦ rw e (h (ground arith))
    | inr e ↦ elim (Bool-cases (is_seen set n)) [
      | inl s ↦ rw (e, s) (seen set n s)
      | inr s ↦ rw (e, s) (inl (In-append_right n set (n ∷ []) (inl refl)))
    ]
  ]

  -- Every node is covered, if the one that the loop skips is covered before.
  extend_set-IsCovered :
      (index i k : ℕ) (rest set : List (EraNode F)) (n : EraNode F)
      → get_elem? rest k ≡ some n
      → ((i + k ≡ index) → IsCovered set n)
      → IsCovered (extend_set index i rest set) n
  unfolding extend_set step_set
  extend_set-IsCovered index i k [] set n e h = absurd (ground arith)
  extend_set-IsCovered index i zero (x ∷ rest) set n e h =
      let same : x ≡ n = ground arith in
      let first : IsCovered (step_set index i set n) n =
        step_set_self index i set n (λ p. h (omega (arith, p))) in
      extend_set-grows index (i + 1) rest (step_set index i set x) n
        (subst (λ y. IsCovered (step_set index i set y) n) (sym same) first)
  extend_set-IsCovered index i (suc k) (x ∷ rest) set n e h =
      extend_set-IsCovered index (i + 1) k rest (step_set index i set x) n e
        (λ p. step_set-grows index i set x n (h (omega (arith, p))))

  clamp_index-lt :
      (index : ℤ) (n : EraNode F) (ns : List (EraNode F))
      → clamp_index index (length (n ∷ ns)) < length (n ∷ ns)
  unfolding clamp_index
  clamp_index-lt (pos k) n ns = ground arith
  clamp_index-lt (negsuc k) n ns = ground arith

  get-some :
      (k : ℕ) (ns : List (EraNode F)) → k < length ns → (n : EraNode F) × (get_elem? ns k ≡ some n)
  get-some k [] h = absurd (omega arith)
  get-some zero (n ∷ ns) h = (n, refl)
  get-some (suc k) (n ∷ ns) h = get-some k ns (omega arith)

  get-nil : (k : ℕ) → get_elem? {A = EraNode F} [] k ≡ none
  get-nil zero = refl
  get-nil (suc k) = refl

  -- generateIndMaximalSet returns a set in which no node sees a later one.
  pub generate-IsIndependent :
      (input_set : List (EraNode F)) (index : ℤ)
      → IsIndependent (generate_ind_maximal_set input_set index)
  unfolding generate_ind_maximal_set from_first
  generate-IsIndependent [] index =
      subst (λ o. IsIndependent (from_first (clamp_index index 0) o []))
        (sym (get-nil (clamp_index index 0))) tt
  generate-IsIndependent (n ∷ ns) index =
      let k = clamp_index index (length (n ∷ ns)) in
      let (first, e) = get-some k (n ∷ ns) (clamp_index-lt index n ns) in
      subst (λ o. IsIndependent (from_first k o (n ∷ ns))) (sym e)
        (extend_set-IsIndependent k 0 (n ∷ ns) (first ∷ []) (tt, tt))

  -- generateIndMaximalSet returns a maximal set: each node that it was given is in the set, or a
  -- node of the set sees it.
  pub generate-IsCovered :
      (input_set : List (EraNode F)) (index : ℤ) (k : ℕ) (n : EraNode F)
      → get_elem? input_set k ≡ some n
      → IsCovered (generate_ind_maximal_set input_set index) n
  unfolding generate_ind_maximal_set from_first
  generate-IsCovered [] index k n e = absurd (ground arith)
  generate-IsCovered (m ∷ ms) index k n at =
      let c = clamp_index index (length (m ∷ ms)) in
      let (first, e) = get-some c (m ∷ ms) (clamp_index-lt index m ms) in
      subst (λ o. IsCovered (from_first c o (m ∷ ms)) n) (sym e)
        (extend_set-IsCovered c 0 k (m ∷ ms) (first ∷ []) n at (λ p.
          let place : k ≡ c = omega (arith, p) in
          let same : n ≡ first = ground (arith, sym at ∙ ap (get_elem? (m ∷ ms)) place ∙ e) in
          inl (inl same)))
