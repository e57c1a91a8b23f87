-- ===== src/Messages/Model/Unique.antt =====
-- The uuids that createNewMessage (momosecpp/src/MessageNode.cpp) gives in a model
-- (momosecpp/src/MessageModel.cpp).
use simulations.Base.{
  ℕ, ◌<◌, ◌≡◌, refl, sym, ◌∙◌, ap, true, false, some, List, [], ◌∷◌, ◌++◌, AllFrom-get_zero,
  get_elem?, length, arith, pos, Bool-cases, inl, inr,
}
use simulations.Floats.{Floating}
use simulations.Messages.Store.{
  lookup, has_key, lookup_of_has_key, All-lookup, lookup-insert_self_new,
}
use simulations.Messages.Node.{
  MessageNode, next_uuid, int_max, create_new_message, has_received_message, insert_message,
}
use simulations.Messages.Model.Known.{IsValid, Stored, uuid-injective}
use simulations.Messages.Model.Steps.{AllValid, made_by}

module _ {F : Floating} where
  next_uuid-unknown :
      (nodes : List (MessageNode F)) (i j : ℕ) (n m : MessageNode F)
      → AllValid nodes
      → ((s : ℕ) → made_by nodes s < int_max)
      → get_elem? nodes i ≡ some n
      → get_elem? nodes j ≡ some m
      → has_key (next_uuid n) m.message_map ≡ false
  next_uuid-unknown nodes i j n m v small at at' =
      let made = made_by nodes in
      let valid = IsValid (length nodes) made in
      let maker = AllFrom-get_zero valid i nodes n v at in
      let holder = AllFrom-get_zero valid j nodes m v at' in
      elim (Bool-cases (has_key (next_uuid n) m.message_map)) [
        | inr e ↦ e
        | inl e ↦
            let (msg, found) = lookup_of_has_key (next_uuid n) m.message_map e in
            let (uuid, (below, k, numbered, few)) =
              All-lookup (Stored (length nodes) made) (next_uuid n) msg m.message_map holder.stored
                found in
            let own : made n.node_id ≡ made i = ap made maker.id in
            let (same, equal) =
              uuid-injective n.node_id msg.sender n.next_message_id k
                (omega (arith, maker.counted, small i)) (omega (arith, few, small msg.sender))
                (sym uuid ∙ numbered) in
            let counter : made msg.sender ≡ made i = ap made (sym same) ∙ own in
            absurd (omega (arith, maker.counted, counter, few, equal))
      ]

  -- In a valid model whose counters are below INT_MAX, createNewMessage of a node puts at the
  -- back of its messages a uuid that no node of the model has received, itself included, and in
  -- its map, under that uuid, an outgoing message of that node, created now, with the latency 0.
  pub create_new_message_unique :
      (now : F.Float) (nodes : List (MessageNode F)) (i j : ℕ) (n m : MessageNode F)
      → AllValid nodes
      → ((s : ℕ) → made_by nodes s < int_max)
      → get_elem? nodes i ≡ some n
      → get_elem? nodes j ≡ some m
      → (u : ℕ) × ((create_new_message now n).messages ≡ n.messages ++ u ∷ [])
        × (lookup u (create_new_message now n).message_map
            ≡ some (record {
              uuid = u;
              sender = i;
              latency = F.of_int (pos 0);
              creation_time = now;
              outgoing = true;
            }))
        × (has_received_message m u ≡ false)
  unfolding create_new_message insert_message has_received_message
  create_new_message_unique now nodes i j n m v small at at' =
      let maker = AllFrom-get_zero (IsValid (length nodes) (made_by nodes)) i nodes n v at in
      (
        next_uuid n,
        refl,
        lookup-insert_self_new (next_uuid n) _ n.message_map
              (next_uuid-unknown nodes i i n n v small at at)
            ∙ ap
                (λ k. some (record {
                  uuid = next_uuid n;
                  sender = k;
                  latency = F.of_int (pos 0);
                  creation_time = now;
                  outgoing = true;
                }))
                maker.id,
        next_uuid-unknown nodes i j n m v small at at',
      )
