-- ===== src/Messages/Push.antt =====
-- MessageNode::pushMessagesTo (momosecpp/src/MessageNode.cpp): the batch of messages that a node
-- sends, newest first, and its assignment to the receiver.
pub mod Batch
use mathlib.Core.List.{reverse}
use simulations.Base.{
  ℕ, suc, ◌+◌, Bool, true, false, not, ◌&&◌, ◌||◌, Option, none, some, List, [], ◌∷◌, ◌++◌, ◌==◌,
  if◌then◌else◌, ℤ, negsuc, eqb_ℤ,
}
use simulations.Floats.{Floating}
use simulations.Messages.Node.{
  MessageNode, MessageData, NodeType, collaborator, adversary, is_collaborator, ◌>>=◌,
  assign_temp_messages,
}
use simulations.Messages.Friends.{trust_distance}
use simulations.Messages.Store.{lookup}

-- The test of the first loop, at the trust distance of the message's sender.
abbrev pub passes_first : NodeType → Bool → ℤ → Bool
passes_first type use_friendships d =
    not (eqb_ℤ d (negsuc 0)) || (is_collaborator type && not use_friendships)

-- The test of the second loop.
abbrev pub passes_second : ℤ → Bool
passes_second d = eqb_ℤ d (negsuc 0)

module _ {F : Floating} where
  -- One of the two loops over `messages` from the back: the uuids that are left, the batch and the
  -- number of messages sent so far.
  unfoldable pub push_loop :
      MessageNode F
      → (ℤ → Bool)
      → ℕ
      → List ℕ
      → List (MessageData F)
      → ℕ
      → Option (List (MessageData F) × ℕ)
  push_loop n passes limit [] batch sent = some (batch, sent)
  push_loop n passes limit (uuid ∷ rest) batch sent = elim (sent == limit) [
    | true ↦ some (batch, sent)
    | false ↦ lookup uuid n.message_map >>= λ msg. trust_distance n msg.sender >>= λ d.
        push_loop n passes limit rest (if passes d then batch ++ msg ∷ [] else batch)
          (if passes d then suc sent else sent)
  ]

  -- The two loops of pushMessagesTo, for a node of the given type.
  unfoldable pub batch_for : NodeType → MessageNode F → ℕ → Bool → Option (List (MessageData F))
  unfolding push_loop
  batch_for type n limit use_friendships =
      push_loop n (passes_first type use_friendships) limit (reverse n.messages) [] 0
      >>= λ (batch, sent).
          if is_collaborator type && use_friendships
          then (push_loop n passes_second limit (reverse n.messages) batch sent
              >>= λ (batch', sent'). some batch')
          else some batch

  -- `that_temp_msgs` at the end of pushMessagesTo.
  unfoldable pub batch_to_push : MessageNode F → ℕ → Bool → Option (List (MessageData F))
  unfolding batch_for
  batch_to_push n limit use_friendships = batch_for n.node_type n limit use_friendships

  unfoldable pub push_messages_to :
      MessageNode F → MessageNode F → ℕ → Bool → Option (MessageNode F)
  unfolding batch_to_push
  push_messages_to n that limit use_friendships =
      batch_to_push n limit use_friendships >>= λ batch. some (assign_temp_messages that batch)
