-- ===== src/Messages/Model/Steps.antt =====
-- The parts of a step of the model (MessageModel::think of momosecpp/src/MessageModel.cpp).
use simulations.Base.{
  ℕ, zero, suc, ◌+◌, ◌≤◌, ◌<◌, ◌≡◌, refl, sym, ap, ◌∙◌, Bool, true, false, not, ◌&&◌, ◌==◌, ◌⊎◌,
  none, some, List, [], ◌∷◌, if◌then◌else◌, arith, length, set, length-set, All, All-map, AllFrom,
  AllFrom-get_zero, AllFrom-set_zero, All-elem, All-if_cons, Bool-cases, inl, inr,
}
use simulations.Floats.{Floating}
use simulations.Random.{Random, IsShuffling, unit_float}
use simulations.Messages.Node.{
  MessageNode, MessageData, int_max, ◌>>=◌, create_new_message, distance_to,
}
use simulations.Messages.Receive.Merge.{get_elem?-some}
use simulations.Messages.Model.{
  MessageModel, wants_to_create, create_messages, potentials, pick_index, push_to_one,
  push_loop_all, after_shuffle, merge_all,
}
use simulations.Messages.Model.Picks.{drawn, PicksOutside, PicksOutside-later, get_place-cases}
use simulations.Messages.Model.Known.{
  IsValid, IsValid-mono, create_new_message-IsValid, merge_messages-IsValid,
}
use simulations.Messages.Model.Pushed.{push_messages_to-IsValid}

-- The counter of each node.
abbrev pub made_by : {F : Floating} → List (MessageNode F) → ℕ → ℕ
made_by [] s = 0
made_by (n ∷ nodes) zero = n.next_message_id
made_by (n ∷ nodes) (suc s) = made_by nodes s

-- All nodes are valid, with the counters that they hold.
abbrev pub AllValid : {F : Floating} → List (MessageNode F) → Type 0
AllValid nodes = AllFrom (IsValid (length nodes) (made_by nodes)) 0 nodes

module _ {F : Floating} (R : Random) (m : MessageModel F) (now : F.Float) where
  pub length-create :
      (nodes : List (MessageNode F)) (rng : R.Rng)
      → length (create_messages R m now nodes rng).0 ≡ length nodes
  unfolding create_messages
  length-create [] rng = refl
  length-create (n ∷ nodes) rng = ap suc (length-create nodes (R.rand rng).1)

  pub create_messages-drawn :
      (nodes : List (MessageNode F)) (rng : R.Rng)
      → (create_messages R m now nodes rng).1 ≡ drawn R (length nodes) rng
  unfolding create_messages
  create_messages-drawn [] rng = refl
  create_messages-drawn (n ∷ nodes) rng = create_messages-drawn nodes (R.rand rng).1

  pub made_by-create :
      (nodes : List (MessageNode F)) (rng : R.Rng) (s : ℕ)
      → made_by nodes s ≤ made_by (create_messages R m now nodes rng).0 s
  unfolding create_messages create_new_message
  made_by-create [] rng s = omega arith
  made_by-create (n ∷ nodes) rng zero =
      elim (Bool-cases (wants_to_create R m n.node_type (R.rand rng).0)) [
        | inl t ↦ rw t (omega arith)
        | inr f ↦ rw f (omega arith)
      ]
  made_by-create (n ∷ nodes) rng (suc s) = made_by-create nodes (R.rand rng).1 s

  create_if-IsValid :
      (count : ℕ) (made made' : ℕ → ℕ) (i : ℕ) (n : MessageNode F) (b : Bool)
      → ((s : ℕ) → made s < int_max)
      → ((s : ℕ) → made s ≤ made' s)
      → (if b then create_new_message now n else n).next_message_id ≡ made' i
      → IsValid count made i n
      → IsValid count made' i (if b then create_new_message now n else n)
  unfolding create_new_message
  create_if-IsValid count made made' i n true small grow e v =
      create_new_message-IsValid now count made made' i n small grow (omega (arith, v.counted)) v
  create_if-IsValid count made made' i n false small grow e v =
      IsValid-mono count made made' i n grow (sym e ∙ v.counted) v

  pub create_messages-IsValid :
      (count : ℕ) (made made' : ℕ → ℕ) (i : ℕ) (nodes : List (MessageNode F)) (rng : R.Rng)
      → ((s : ℕ) → made s < int_max)
      → ((s : ℕ) → made s ≤ made' s)
      → ((s : ℕ)
          → s < length nodes
          → made_by (create_messages R m now nodes rng).0 s ≡ made' (i + s))
      → AllFrom (IsValid count made) i nodes
      → AllFrom (IsValid count made') i (create_messages R m now nodes rng).0
  unfolding create_messages
  create_messages-IsValid count made made' i [] rng small grow at v = tt
  create_messages-IsValid count made made' i (n ∷ nodes) rng small grow at v =
      let here : i + 0 ≡ i = omega arith in
      (
        create_if-IsValid count made made' i n (wants_to_create R m n.node_type (R.rand rng).0)
            small grow (at 0 (omega arith) ∙ ap made' here) v.0,
        create_messages-IsValid count made made' (suc i) nodes (R.rand rng).1 small grow
            (λ s h.
              let there : i + suc s ≡ suc i + s = omega arith in
              at (suc s) (omega arith) ∙ ap made' there)
            v.1,
      )

  potentials-below :
      (i : ℕ) (n : MessageNode F) (j : ℕ) (nodes : List (MessageNode F))
      → All (λ k. k < j + length nodes) (potentials R m i n j nodes)
  unfolding potentials
  potentials-below i n j [] = tt
  potentials-below i n j (that ∷ nodes) =
      All-if_cons (λ k. k < j + suc (length nodes)) _ j (potentials R m i n (suc j) nodes)
        (omega arith)
        (All-map (λ k. k < suc j + length nodes) (λ k. k < j + suc (length nodes))
          (λ k h. omega arith) (potentials R m i n (suc j) nodes)
          (potentials-below i n (suc j) nodes))

  length-potentials :
      (i : ℕ) (n : MessageNode F) (j : ℕ) (nodes : List (MessageNode F))
      → length (potentials R m i n j nodes) ≤ length nodes
  unfolding potentials
  length-potentials i n j [] = omega arith
  length-potentials i n j (that ∷ nodes) =
      let rest = length-potentials i n (suc j) nodes in
      elim (Bool-cases (not (j == i) && F.fle (distance_to n that) m.exchange_distance)) [
        | inl e ↦ rw e (omega (arith, rest))
        | inr e ↦ rw e (omega (arith, rest))
      ]

  module _ (count : ℕ) (made : ℕ → ℕ) where
    abbrev AreValid : List (MessageNode F) → Type 0
    AreValid = AllFrom (IsValid count made) 0

    push_to_one-IsValid :
        (i : ℕ) (n : MessageNode F) (nodes : List (MessageNode F)) (js : List ℕ) (rng : R.Rng)
        → length nodes ≡ count
        → IsValid count made i n
        → AreValid nodes
        → All (λ k. k < count) js
        → length js ≤ count
        → ((nodes' : List (MessageNode F)) × (rng' : R.Rng) × (push_to_one R m nodes n js rng
              ≡ some (nodes', rng'))
            × AreValid nodes'
            × (length nodes' ≡ count)
            × ((rng' ≡ rng) ⊎ (rng' ≡ (R.rand rng).1)))
          ⊎ ((push_to_one R m nodes n js rng ≡ none) × PicksOutside F R count rng 1)
    unfolding push_to_one pick_index unit_float
    push_to_one-IsValid i n nodes [] rng size v all below few =
        inl (nodes, rng, refl, all, size, inl refl)
    push_to_one-IsValid i n nodes (j ∷ js) rng size v all below few =
        elim (get_place-cases (j ∷ js) (pick_index F R (R.rand rng).0 (length (j ∷ js)))) [
          | inr (e, out) ↦ inr (rw e refl, (0, length (j ∷ js), omega arith, omega arith, few, out))
          | inl (k, place, at, e) ↦
              let place_below = All-elem (λ p. p < count) (j ∷ js) k place below e in
              let (that, f) = get_elem?-some nodes place (omega arith) in
              let (that', g, w) =
                push_messages_to-IsValid count made i place m.msg_exchange_num m.use_friendships n
                  that v (AllFrom-get_zero (IsValid count made) place nodes that all f) in
              inl (
                set nodes place that',
                (R.rand rng).1,
                rw (at, f) (ap (λ o. o >>= λ t. some (set nodes place t, (R.rand rng).1)) g),
                AllFrom-set_zero (IsValid count made) place nodes that' all w,
                length-set nodes place that' ∙ size,
                inr refl,
              )
        ]

    pub push_loop_all-IsValid :
        (left i : ℕ) (nodes : List (MessageNode F)) (rng : R.Rng)
        → i + left ≤ count
        → length nodes ≡ count
        → AreValid nodes
        → ((nodes' : List (MessageNode F)) × (rng' : R.Rng) × (push_loop_all R m left i nodes rng
              ≡ some (nodes', rng'))
            × AreValid nodes'
            × (length nodes' ≡ count))
          ⊎ ((push_loop_all R m left i nodes rng ≡ none) × PicksOutside F R count rng left)
    unfolding push_loop_all
    push_loop_all-IsValid zero i nodes rng within size all = inl (nodes, rng, refl, all, size)
    push_loop_all-IsValid (suc left) i nodes rng within size all =
        let (n, e) = get_elem?-some nodes i (omega arith) in
        let js = potentials R m i n 0 nodes in
        elim (push_to_one-IsValid i n nodes js rng size
          (AllFrom-get_zero (IsValid count made) i nodes n all e) all
          (All-map (λ k. k < 0 + length nodes) (λ k. k < count) (λ k h. omega arith) js
            (potentials-below i n 0 nodes))
          (omega (arith, length-potentials i n 0 nodes))) [
            | inr (f, (k, places, early, some_places, few, out)) ↦
                inr (rw (e, f) refl, (k, places, omega (arith, early), some_places, few, out))
            | inl (nodes', rng', f, all', size', moved) ↦
                elim (push_loop_all-IsValid left (suc i) nodes' rng' (omega arith) size' all') [
                  | inr (g, out) ↦
                      inr (rw (e, f) g, PicksOutside-later F R count rng rng' left moved out)
                  | inl (nodes'', rng'', g, all'', size'') ↦
                      inl (nodes'', rng'', rw (e, f) g, all'', size'')
                ]
          ]

  pub merge_all-IsValid :
      (count : ℕ) (made : ℕ → ℕ) (i : ℕ) (nodes : List (MessageNode F)) (rng : R.Rng)
      → IsShuffling R
      → AllFrom (IsValid count made) i nodes
      → AllFrom (IsValid count made) i (merge_all R now nodes rng).0
        × (length (merge_all R now nodes rng).0 ≡ length nodes)
  unfolding merge_all
  merge_all-IsValid count made i [] rng sh all = (tt, refl)
  merge_all-IsValid count made i (n ∷ nodes) rng sh all =
      let rest =
        merge_all-IsValid count made (suc i) nodes (after_shuffle R n.temp_messages rng) sh all.1 in
      (
        (
          merge_messages-IsValid now _ count made i n (λ xs. sh.shuffle-perm (MessageData F) rng xs)
              all.0,
          rest.0,
        ),
        ap suc rest.1,
      )
