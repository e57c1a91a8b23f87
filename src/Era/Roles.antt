-- ===== src/Era/Roles.antt =====
-- The types that roleAssignament gives.
use mathlib.Core.Path.{ap₂}
use simulations.Base.{
  ℕ, zero, suc, ◌+◌, ◌≡◌, refl, sym, subst, ◌∙◌, ap, Bool, true, false, not, ◌&&◌, List, [], ◌∷◌,
  ◌++◌, if◌then◌else◌, ◌==◌, ℤ, pos, map, Bool-cases, inl, inr, arith, In, ◌⊎◌, get_elem?, some,
  Option-cases, length,
}
use simulations.Floats.{Floating}
use simulations.Era.{
  EraNode, is_in, is_seen, is_ind_maximal, clamp_index, from_first, remove_from, extend_set,
  generate_ind_maximal_set, second_set, set_type_node, set_type, clone_vector, role_assignment,
}

module _ {F : Floating} where
  same_handle :
      (n k : EraNode F) (ns : List (EraNode F)) → n.handle ≡ k.handle → is_in n ns ≡ is_in k ns
  unfolding is_in
  same_handle n k [] e = refl
  same_handle n k (m ∷ ms) e = let rest = same_handle n k ms e in rw (e, rest) refl

  keep_or_drop :
      (from out : List (EraNode F)) (k n : EraNode F)
      → is_in n (remove_from from out) ≡ is_in n from && not (is_in n out)
      → is_in n (if is_in k out then remove_from from out else k ∷ remove_from from out)
        ≡ is_in n (k ∷ from) && not (is_in n out)
  unfolding is_in
  keep_or_drop from out k n h = elim (Bool-cases (n.handle == k.handle)) [
    | inl e ↦
        let same : is_in n out ≡ is_in k out = same_handle n k out (ground arith) in
        elim (Bool-cases (is_in k out)) [
          | inl out_of ↦
              let fact : (n.handle == k.handle) ≡ true = e in
              let gone : is_in n out ≡ true = same ∙ out_of in
              rw (out_of, e, gone) (ground (arith, h, gone))
          | inr kept ↦ rw (kept, e, same, kept) refl
        ]
    | inr e ↦ elim (Bool-cases (is_in k out)) [
      | inl out_of ↦ rw (out_of, e) h
      | inr kept ↦ rw (kept, e) h
    ]
  ]

  -- removeFrom keeps exactly the nodes of the first vector that are not in the second.
  pub is_in-remove_from :
      (from out : List (EraNode F)) (n : EraNode F)
      → is_in n (remove_from from out) ≡ is_in n from && not (is_in n out)
  unfolding is_in remove_from
  is_in-remove_from [] out n = refl
  is_in-remove_from (k ∷ from) out n = keep_or_drop from out k n (is_in-remove_from from out n)

  is_in_self : (nodes : List (EraNode F)) (n : EraNode F) → In n nodes → is_in n nodes ≡ true
  unfolding is_in
  is_in_self [] n m = absurd m
  is_in_self (k ∷ ks) n (inl e) =
      let same : n.handle ≡ k.handle = ap (λ m. m.handle) e in ground arith
  is_in_self (k ∷ ks) n (inr m) = ground (arith, is_in_self ks n m)

  is_in-append :
      (n k : EraNode F) (ns : List (EraNode F))
      → is_in n (ns ++ k ∷ []) ≡ true
      → (is_in n ns ≡ true) ⊎ (n.handle ≡ k.handle)
  unfolding is_in
  is_in-append n k [] h = elim (Bool-cases (n.handle == k.handle)) [
    | inl e ↦ inr (ground arith)
    | inr e ↦ absurd (ground arith)
  ]
  is_in-append n k (m ∷ ms) h = elim (Bool-cases (n.handle == m.handle)) [
    | inl e ↦ inl (rw e refl)
    | inr e ↦ elim (is_in-append n k ms (ground arith)) [ inl r ↦ inl (rw e r) | inr s ↦ inr s ]
  ]

  within_step :
      (b c : Bool) (set : List (EraNode F)) (n k : EraNode F) (rest : List (EraNode F))
      → is_in n (if b then set else if c then set else set ++ k ∷ []) ≡ true
      → (is_in n set ≡ true) ⊎ (is_in n (k ∷ rest) ≡ true)
  unfolding is_in
  within_step true c set n k rest h = inl h
  within_step false true set n k rest h = inl h
  within_step false false set n k rest h = elim (is_in-append n k set h) [
    | inl s ↦ inl s
    | inr e ↦ inr (ground arith)
  ]

  -- The set has no node but those that it was given.
  extend_set-within :
      (index i : ℕ) (rest set : List (EraNode F)) (n : EraNode F)
      → is_in n (extend_set index i rest set) ≡ true
      → (is_in n set ≡ true) ⊎ (is_in n rest ≡ true)
  unfolding extend_set is_in
  extend_set-within index i [] set n h = inl h
  extend_set-within index i (k ∷ rest) set n h =
      elim (extend_set-within index (i + 1) rest
        (if i == index then set else if is_seen set k then set else set ++ k ∷ []) n h) [
          | inl s ↦ within_step (i == index) (is_seen set k) set n k rest s
          | inr r ↦ inr (ground arith)
        ]

  get-is_in :
      (k : ℕ) (ns : List (EraNode F)) (m n : EraNode F)
      → get_elem? ns k ≡ some m
      → n.handle ≡ m.handle
      → is_in n ns ≡ true
  unfolding is_in
  get-is_in k [] m n e h = absurd (ground arith)
  get-is_in zero (x ∷ ns) m n e h =
      let same : m ≡ x = ground arith in
      let handles : n.handle ≡ x.handle = h ∙ ap (λ y. y.handle) same in ground arith
  get-is_in (suc k) (x ∷ ns) m n e h = let rest = get-is_in k ns m n e h in ground arith

  only : (n m : EraNode F) → is_in n (m ∷ []) ≡ true → n.handle ≡ m.handle
  unfolding is_in
  only n m h = elim (Bool-cases (n.handle == m.handle)) [
    | inl e ↦ ground arith
    | inr e ↦ absurd (ground arith)
  ]

  nothing : (n : EraNode F) → is_in n [] ≡ false
  unfolding is_in
  nothing n = refl

  pub generate-within :
      (input_set : List (EraNode F)) (index : ℤ) (n : EraNode F)
      → is_in n (generate_ind_maximal_set input_set index) ≡ true
      → is_in n input_set ≡ true
  unfolding generate_ind_maximal_set from_first
  generate-within input_set index n h =
      let k = clamp_index index (length input_set) in
      elim (Option-cases (get_elem? input_set k)) [
        | inl e ↦
            let empty : is_in n [] ≡ true =
              subst (λ o. is_in n (from_first k o input_set) ≡ true) e h in
            absurd (ground (arith, nothing n))
        | inr (m, e) ↦
            let inside : is_in n (extend_set k 0 input_set (m ∷ [])) ≡ true =
              subst (λ o. is_in n (from_first k o input_set) ≡ true) e h in
            elim (extend_set-within k 0 input_set (m ∷ []) n inside) [
              | inl s ↦ get-is_in k input_set m n e (only n m s)
              | inr r ↦ r
            ]
      ]

  choose-within :
      (b : Bool) (v ns : List (EraNode F)) (n : EraNode F)
      → ((is_in n ns ≡ true) → is_in n v ≡ true)
      → is_in n (if b then [] else ns) ≡ true
      → is_in n v ≡ true
  choose-within true v ns n f h = absurd (ground (arith, nothing n))
  choose-within false v ns n f h = f h

  second_set-within :
      (v : List (EraNode F)) (n : EraNode F) → is_in n (second_set v) ≡ true → is_in n v ≡ true
  unfolding second_set
  second_set-within v n h =
      choose-within (is_ind_maximal v) v (generate_ind_maximal_set v (pos 0)) n
        (generate-within v (pos 0) n) h

  -- The first set, what it leaves, and the type of a node.
  abbrev pub first_set : List (EraNode F) → List (EraNode F)
  first_set nodes = generate_ind_maximal_set nodes (pos 0)

  abbrev pub left_over : List (EraNode F) → List (EraNode F)
  left_over nodes = remove_from nodes (first_set nodes)

  abbrev pub role : List (EraNode F) → EraNode F → ℕ
  role nodes n =
      if is_in n (first_set nodes)
      then 1
      else if is_in n (second_set (left_over nodes))
      then 2
      else 3

  put : List (EraNode F) → ℕ → EraNode F → EraNode F
  put set type n = if is_in n set then set_type_node n type else n

  put-yes :
      (set : List (EraNode F)) (type : ℕ) (n : EraNode F)
      → is_in n set ≡ true
      → put set type n ≡ set_type_node n type
  unfolding put
  put-yes set type n e = ap (λ b. if b then set_type_node n type else n) e

  put-no :
      (set : List (EraNode F)) (type : ℕ) (n : EraNode F) → is_in n set ≡ false → put set type n ≡ n
  unfolding put
  put-no set type n e = ap (λ b. if b then set_type_node n type else n) e

  settle : (a b c : List (EraNode F)) → EraNode F → EraNode F
  settle a b c n = put c 3 (put b 2 (put a 1 n))

  set_type-settle :
      (a b c nodes : List (EraNode F))
      → set_type (set_type (set_type nodes a 1) b 2) c 3 ≡ map (settle a b c) nodes
  unfolding set_type settle put
  set_type-settle a b c [] = refl
  set_type-settle a b c (n ∷ nodes) = ap (λ ns. settle a b c n ∷ ns) (set_type-settle a b c nodes)

  handle_one : (n : EraNode F) (ns : List (EraNode F)) → is_in (set_type_node n 1) ns ≡ is_in n ns
  unfolding set_type_node
  handle_one n ns = same_handle (set_type_node n 1) n ns refl

  handle_two : (n : EraNode F) (ns : List (EraNode F)) → is_in (set_type_node n 2) ns ≡ is_in n ns
  unfolding set_type_node
  handle_two n ns = same_handle (set_type_node n 2) n ns refl

  settle-others :
      (b c : List (EraNode F)) (n : EraNode F)
      → is_in n c ≡ not (is_in n b)
      → put c 3 (put b 2 n) ≡ set_type_node n (if is_in n b then 2 else 3)
  settle-others b c n rest = elim (Bool-cases (is_in n b)) [
    | inl eb ↦
        let ec : is_in n c ≡ false = ground arith in
        ap (put c 3) (put-yes b 2 n eb)
        ∙ put-no c 3 (set_type_node n 2) (handle_two n c ∙ ec)
        ∙ ap (λ t. set_type_node n (if t then 2 else 3)) (sym eb)
    | inr eb ↦
        let ec : is_in n c ≡ true = ground arith in
        ap (put c 3) (put-no b 2 n eb)
        ∙ put-yes c 3 n ec
        ∙ ap (λ t. set_type_node n (if t then 2 else 3)) (sym eb)
  ]

  settle-role :
      (a b c : List (EraNode F)) (n : EraNode F)
      → ((is_in n b ≡ true) → is_in n a ≡ false)
      → is_in n c ≡ not (is_in n a) && not (is_in n b)
      → settle a b c n ≡ set_type_node n (if is_in n a then 1 else if is_in n b then 2 else 3)
  unfolding settle
  settle-role a b c n apart rest = elim (Bool-cases (is_in n a)) [
    | inl ea ↦
        let eb : is_in n b ≡ false = ground arith in
        let ec : is_in n c ≡ false = ground arith in
        let one = set_type_node n 1 in
        ap (λ k. put c 3 (put b 2 k)) (put-yes a 1 n ea)
        ∙ ap (put c 3) (put-no b 2 one (handle_one n b ∙ eb))
        ∙ put-no c 3 one (handle_one n c ∙ ec)
        ∙ ap (λ t. set_type_node n (if t then 1 else if is_in n b then 2 else 3)) (sym ea)
    | inr ea ↦
        ap (λ k. put c 3 (put b 2 k)) (put-no a 1 n ea)
        ∙ settle-others b c n (rest ∙ ap (λ t. not t && not (is_in n b)) ea)
        ∙ ap (λ t. set_type_node n (if t then 1 else if is_in n b then 2 else 3)) (sym ea)
  ]

  third_set : List (EraNode F) → List (EraNode F)
  third_set nodes = remove_from (left_over nodes) (second_set (left_over nodes))

  in_model :
      (nodes : List (EraNode F)) (n : EraNode F)
      → is_in n nodes ≡ true
      → settle (first_set nodes) (second_set (left_over nodes)) (third_set nodes) n
        ≡ set_type_node n (role nodes n)
  unfolding third_set
  in_model nodes n h =
      let a = first_set nodes in
      let v = left_over nodes in
      let b = second_set v in
      let left : is_in n v ≡ not (is_in n a) =
        is_in-remove_from nodes a n ∙ ap (λ t. t && not (is_in n a)) h in
      settle-role a b (remove_from v b) n (λ e. ground (arith, left, second_set-within v n e))
        (is_in-remove_from v b n ∙ ap (λ t. t && not (is_in n b)) left)

  map-settle :
      (nodes ns : List (EraNode F))
      → ((n : EraNode F) → In n ns → In n nodes)
      → map (settle (first_set nodes) (second_set (left_over nodes)) (third_set nodes)) ns
        ≡ map (λ n. set_type_node n (role nodes n)) ns
  map-settle nodes [] f = refl
  map-settle nodes (n ∷ ns) f =
      ap₂ (λ k ks. k ∷ ks) (in_model nodes n (is_in_self nodes n (f n (inl refl))))
        (map-settle nodes ns (λ k m. f k (inr m)))

  pub role_assignment-set_type :
      (nodes : List (EraNode F))
      → role_assignment nodes ≡ map (λ n. set_type_node n (role nodes n)) nodes
  unfolding role_assignment clone_vector third_set
  role_assignment-set_type nodes =
      set_type-settle (first_set nodes) (second_set (left_over nodes)) (third_set nodes) nodes
      ∙ map-settle nodes nodes (λ n m. m)
