-- ===== src/Era/Types.antt =====
-- What roleAssignament (momosecpp/src/EraModel.cpp) does, apart from its code: which nodes get which
-- type.
use mathlib.Core.Path.{fun_ext}
use simulations.Base.{
  ℕ, suc, ◌+◌, ◌≡◌, refl, subst, ◌∙◌, ap, Bool, true, false, not, ◌&&◌, List, [], ◌∷◌, keep,
  if◌then◌else◌, ◌==◌, pos, map, Bool-cases, inl, inr, arith, ◌⊎◌, get_elem?, some, AllFrom,
  contains,
}
use simulations.Floats.{Floating}
use simulations.Node.{Color, color}
use simulations.Era.{
  EraNode, is_visible, is_in, is_ind_maximal, sees_other, some_sees, remove_from, clamp_index,
  from_first, generate_ind_maximal_set, second_set, set_type_node, role_assignment,
}
use simulations.Era.Roles.{first_set, left_over, role_assignment-set_type}

module _ {F : Floating} where
  -- No node sees one at another place.
  abbrev pub NoneSees : List (EraNode F) → Type 0
  NoneSees v =
      AllFrom (λ k n. AllFrom (λ l m. ((l == k) ≡ true) ⊎ (is_visible n m ≡ false)) 0 v) 0 v

  -- Some node sees one at another place.
  abbrev pub SomeSees : List (EraNode F) → Type 0
  SomeSees v =
      (k : ℕ) × (n : EraNode F) × (l : ℕ) × (m : EraNode F) × (get_elem? v k ≡ some n)
      × (get_elem? v l ≡ some m)
      × ((l == k) ≡ false)
      × (is_visible n m ≡ true)

  sees_other-no :
      (n : EraNode F) (i j : ℕ) (ms : List (EraNode F))
      → sees_other n i j ms ≡ false
      → AllFrom (λ l m. ((l == i) ≡ true) ⊎ (is_visible n m ≡ false)) j ms
  unfolding sees_other
  sees_other-no n i j [] e = tt
  sees_other-no n i j (m ∷ ms) e =
      let next : j + 1 ≡ suc j = omega arith in
      let P = λ (l : ℕ) (k : EraNode F). ((l == i) ≡ true) ⊎ (is_visible n k ≡ false) in
      elim (Bool-cases (j == i)) [
        | inl same ↦ (
          inl same,
          subst (λ k. AllFrom P k ms) next (sees_other-no n i (j + 1) ms (ground arith)),
        )
        | inr other ↦ elim (Bool-cases (is_visible n m)) [
          | inl sees ↦ absurd (ground arith)
          | inr blind ↦ (
            inr blind,
            subst (λ k. AllFrom P k ms) next (sees_other-no n i (j + 1) ms (ground arith)),
          )
        ]
      ]

  sees_other-yes :
      (n : EraNode F) (i j : ℕ) (ms : List (EraNode F))
      → sees_other n i j ms ≡ true
      → (l : ℕ) × (m : EraNode F) × (get_elem? ms l ≡ some m)
        × ((j + l == i) ≡ false)
        × (is_visible n m ≡ true)
  unfolding sees_other
  sees_other-yes n i j [] e = absurd (ground arith)
  sees_other-yes n i j (m ∷ ms) e = elim (Bool-cases (not (j == i) && is_visible n m)) [
    | inl hit ↦ (0, m, refl, ground arith, ground arith)
    | inr miss ↦
        let (l, k, at, apart, sees) = sees_other-yes n i (j + 1) ms (ground arith) in
        (suc l, k, at, ground arith, sees)
  ]

  some_sees-no :
      (i : ℕ) (rest all : List (EraNode F))
      → some_sees i rest all ≡ false
      → AllFrom (λ k n. sees_other n k 0 all ≡ false) i rest
  unfolding some_sees
  some_sees-no i [] all e = tt
  some_sees-no i (n ∷ rest) all e =
      let next : i + 1 ≡ suc i = omega arith in
      (
        ground arith,
        subst (λ k. AllFrom (λ l m. sees_other m l 0 all ≡ false) k rest) next
            (some_sees-no (i + 1) rest all (ground arith)),
      )

  some_sees-yes :
      (i : ℕ) (rest all : List (EraNode F))
      → some_sees i rest all ≡ true
      → (k : ℕ) × (n : EraNode F) × (get_elem? rest k ≡ some n)
        × (sees_other n (i + k) 0 all ≡ true)
  unfolding some_sees
  some_sees-yes i [] all e = absurd (ground arith)
  some_sees-yes i (n ∷ rest) all e = elim (Bool-cases (sees_other n i 0 all)) [
    | inl hit ↦
        let here : i ≡ i + 0 = omega arith in
        (0, n, refl, subst (λ k. sees_other n k 0 all ≡ true) here hit)
    | inr miss ↦
        let (k, m, at, sees) = some_sees-yes (i + 1) rest all (ground arith) in
        let there : i + 1 + k ≡ i + suc k = omega arith in
        (suc k, m, at, subst (λ l. sees_other m l 0 all ≡ true) there sees)
  ]

  AllFrom-imp :
      (P Q : ℕ → EraNode F → Type 0) (i : ℕ) (ns : List (EraNode F))
      → ((k : ℕ) (n : EraNode F) → P k n → Q k n)
      → AllFrom P i ns
      → AllFrom Q i ns
  AllFrom-imp P Q i [] f h = tt
  AllFrom-imp P Q i (n ∷ ns) f h = (f i n h.0, AllFrom-imp P Q (suc i) ns f h.1)

  -- The second set for the nodes that the first one leaves.
  abbrev pub IsSecond : List (EraNode F) → List (EraNode F) → Type 0
  IsSecond v second =
      (NoneSees v × (second ≡ [])) ⊎ (SomeSees v × (second ≡ generate_ind_maximal_set v (pos 0)))

  second_set-IsSecond : (v : List (EraNode F)) → IsSecond v (second_set v)
  unfolding second_set is_ind_maximal generate_ind_maximal_set from_first clamp_index
  second_set-IsSecond [] = inl (tt, refl)
  second_set-IsSecond (n ∷ ns) = elim (Bool-cases (some_sees 0 (n ∷ ns) (n ∷ ns))) [
    | inl e ↦
        let (k, m, at, sees) = some_sees-yes 0 (n ∷ ns) (n ∷ ns) e in
        let (l, o, at', apart, visible) = sees_other-yes m (0 + k) 0 (n ∷ ns) sees in
        inr ((k, m, l, o, at, at', ground arith, visible), rw e refl)
    | inr e ↦ inl (
      AllFrom-imp (λ k m. sees_other m k 0 (n ∷ ns) ≡ false) _ 0 (n ∷ ns)
          (λ k m. sees_other-no m k 0 (n ∷ ns)) (some_sees-no 0 (n ∷ ns) (n ∷ ns) e),
      rw e refl,
    )
  ]

  -- A node is the same as another if its address is.
  abbrev pub is_listed : EraNode F → List (EraNode F) → Bool
  is_listed n ks = contains n.handle (map (λ k. k.handle) ks)

  is_in-listed : (n : EraNode F) (ks : List (EraNode F)) → is_in n ks ≡ is_listed n ks
  unfolding is_in
  is_in-listed n [] = refl
  is_in-listed n (k ∷ ks) = ground (arith, is_in-listed n ks)

  abbrev pub left_by : List (EraNode F) → List (EraNode F) → List (EraNode F)
  left_by nodes first = keep (λ n. not (is_listed n first)) nodes

  remove_from-left_by :
      (nodes first : List (EraNode F)) → remove_from nodes first ≡ left_by nodes first
  unfolding remove_from
  remove_from-left_by [] first = refl
  remove_from-left_by (n ∷ nodes) first =
      let rest = remove_from-left_by nodes first in
      elim (Bool-cases (is_listed n first)) [
        | inl e ↦ let f = is_in-listed n first ∙ e in rw (e, f) rest
        | inr e ↦ let f = is_in-listed n first ∙ e in rw (e, f) (ap (λ ks. n ∷ ks) rest)
      ]

  abbrev pub typed : EraNode F → ℕ → Color → EraNode F
  typed n kind tint = record n { kind = kind; body = record n.body { tint = tint } }

  -- Yellow, red and blue.
  abbrev pub in_role : List (EraNode F) → List (EraNode F) → EraNode F → EraNode F
  in_role first second n =
      if is_listed n first
      then typed n 1 (color (pos 255) (pos 255) (pos 0))
      else if is_listed n second
      then typed n 2 (color (pos 255) (pos 0) (pos 0))
      else typed n 3 (color (pos 0) (pos 0) (pos 255))

  set_type_node-in_role :
      (first second : List (EraNode F)) (n : EraNode F)
      → set_type_node n (if is_in n first then 1 else if is_in n second then 2 else 3)
        ≡ in_role first second n
  unfolding set_type_node
  set_type_node-in_role first second n =
      rw (is_in-listed n first, is_in-listed n second)
        (elim (Bool-cases (is_listed n first)) [
          | inl e ↦ rw e refl
          | inr e ↦ elim (Bool-cases (is_listed n second)) [
            | inl f ↦ rw (e, f) refl
            | inr f ↦ rw (e, f) refl
          ]
        ])

  -- roleAssignament makes the nodes of the first independent set yellow and gives them the type
  -- 1. If, of the nodes it leaves, some node sees another, those of the maximal set of them
  -- become red, of type 2; if none does, there are no such nodes. The others become blue, of type
  -- 3. The nodes keep their order and are otherwise unchanged.
  pub role_assignment-role :
      (nodes : List (EraNode F))
      → (second : List (EraNode F)) × IsSecond (left_by nodes (first_set nodes)) second
        × (role_assignment nodes ≡ map (in_role (first_set nodes) second) nodes)
  role_assignment-role nodes =
      let second = second_set (left_over nodes) in
      (
        second,
        subst (λ v. IsSecond v second) (remove_from-left_by nodes (first_set nodes))
            (second_set-IsSecond (left_over nodes)),
        role_assignment-set_type nodes
            ∙ ap (λ f. map f nodes) (fun_ext (set_type_node-in_role (first_set nodes) second)),
      )
