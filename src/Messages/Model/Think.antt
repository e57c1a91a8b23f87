-- ===== src/Messages/Model/Think.antt =====
-- One time step of the model as a whole.
use simulations.Base.{
  ℕ, zero, suc, ◌+◌, ◌≤◌, ◌<◌, ◌≡◌, refl, sym, subst, ap, ◌∙◌, ◌⊎◌, inl, inr, none, some, List, [],
  ◌∷◌, arith, length, AllFrom,
}
use mathlib.Core.Path.{fun_ext, subst₂}
use native.Mathlib.Decide.{dec_lt}
use simulations.Floats.{Floating}
use simulations.Random.{Random, IsShuffling}
use simulations.Messages.Node.{MessageNode, int_max}
use simulations.Messages.Model.{MessageModel, create_messages, merge_all, think}
use simulations.Messages.Model.Known.{IsValid}
use simulations.Messages.Model.Picks.{PicksOutside, PicksOutside-drawn}
use simulations.Messages.Model.Steps.{
  made_by, AllValid, create_messages-drawn, length-create, made_by-create, create_messages-IsValid,
  push_loop_all-IsValid, merge_all-IsValid,
}

module _ {F : Floating} where
  made_by_beyond : (nodes : List (MessageNode F)) (s : ℕ) → length nodes ≤ s → made_by nodes s ≡ 0
  made_by_beyond [] s h = refl
  made_by_beyond (n ∷ nodes) zero h = absurd (omega arith)
  made_by_beyond (n ∷ nodes) (suc s) h = made_by_beyond nodes s (omega arith)

  made_by_valid :
      (count : ℕ) (made : ℕ → ℕ) (i : ℕ) (nodes : List (MessageNode F)) (s : ℕ)
      → AllFrom (IsValid count made) i nodes
      → s < length nodes
      → made_by nodes s ≡ made (i + s)
  made_by_valid count made i [] s v h = absurd (omega arith)
  made_by_valid count made i (n ∷ nodes) zero v h =
      let here : i ≡ i + 0 = omega arith in v.0.counted ∙ ap made here
  made_by_valid count made i (n ∷ nodes) (suc s) v h =
      let there : suc i + s ≡ i + suc s = omega arith in
      made_by_valid count made (suc i) nodes s v.1 (omega arith) ∙ ap made there

  -- Valid nodes hold the counters that they are valid for.
  pub made_by-AllValid :
      (made nodes : List (MessageNode F))
      → length nodes ≡ length made
      → AllFrom (IsValid (length made) (made_by made)) 0 nodes
      → (made_by nodes ≡ made_by made) × AllValid nodes
  made_by-AllValid made nodes size v =
      (same, subst₂ (λ k f. AllFrom (IsValid k f) 0 nodes) (sym size) (sym same) v)
    where
      at : (s : ℕ) → made_by nodes s ≡ made_by made s
      at s = elim (dec_lt s (length nodes)) [
        | yes below ↦
            let here : 0 + s ≡ s = omega arith in
            made_by_valid (length made) (made_by made) 0 nodes s v below ∙ ap (made_by made) here
        | no above ↦
            made_by_beyond nodes s (omega arith) ∙ sym (made_by_beyond made s (omega arith))
      ]

      same : made_by nodes ≡ made_by made
      same = fun_ext at

module _ {F : Floating} (R : Random) (m : MessageModel F) (now : F.Float) where
  -- A step of the model (think), from valid nodes that are as many as the model counts and whose
  -- counters are below INT_MAX, and where `random_shuffle` permutes, ends in valid nodes, as many
  -- as before, and no counter has fallen; or it faults, and then one of the generator's next
  -- values, of which there are at most two for each node, gives a place past the end of a list of
  -- neighbours.
  pub think-AllValid :
      (nodes : List (MessageNode F)) (rng : R.Rng)
      → IsShuffling R
      → m.num_nodes ≡ length nodes
      → ((s : ℕ) → made_by nodes s < int_max)
      → AllValid nodes
      → ((nodes' : List (MessageNode F)) × (rng' : R.Rng) × (think R m now nodes rng
            ≡ some (nodes', rng'))
          × AllValid nodes'
          × (length nodes' ≡ length nodes)
          × ((s : ℕ) → made_by nodes s ≤ made_by nodes' s))
        ⊎ ((think R m now nodes rng ≡ none)
            × PicksOutside F R (length nodes) rng (length nodes + length nodes))
  unfolding think
  think-AllValid nodes rng shuffling size small v =
      let created = (create_messages R m now nodes rng).0 in
      let made = made_by created in
      let same_length = length-create R m now nodes rng in
      let grown = made_by-create R m now nodes rng in
      let first =
        create_messages-IsValid R m now (length nodes) (made_by nodes) made 0 nodes rng small grown
          (λ s h. let here : s ≡ 0 + s = omega arith in ap made here) v in
      elim (push_loop_all-IsValid R m now (length nodes) made m.num_nodes 0 created
        (create_messages R m now nodes rng).1 (omega arith) same_length first) [
          | inr (e, out) ↦ inr (
            rw e refl,
            PicksOutside-drawn F R (length nodes) (length nodes) rng (length nodes) (
                subst₂ (λ r k. PicksOutside F R (length nodes) r k)
                  (create_messages-drawn R m now nodes rng) size out),
          )
          | inl (pushed, rng', e, second, size') ↦
              let third =
                merge_all-IsValid R m now (length nodes) made 0 pushed rng' shuffling second in
              let merged = (merge_all R now pushed rng').0 in
              let (counters, valid) =
                made_by-AllValid created merged (third.1 ∙ size' ∙ sym same_length)
                  (subst (λ k. AllFrom (IsValid k made) 0 merged) (sym same_length) third.0) in
              inl (
                merged,
                (merge_all R now pushed rng').1,
                rw e refl,
                valid,
                third.1 ∙ size',
                λ s. subst (λ f. made_by nodes s ≤ f s) (sym counters) (grown s),
              )
        ]
