-- ===== src/Tests/Nodes.antt =====
-- The theorems on the messages of a node, at the sample nodes.
use mathlib.Core.List.{reverse}
use simulations.Base.{
  ℕ, ◌<◌, ◌≡◌, refl, true, ◌||◌, List, [], ◌∷◌, ◌++◌, ℤ, pos, negsuc, arith, some, contains,
  if◌then◌else◌, length, get_elem?, without, take, drop,
}
use simulations.Floats.{milli}
use simulations.Messages.Node.{
  MessageNode, MessageData, adversary, collaborator, create_new_message, receive_message,
  has_received_message, merge_messages,
}
use simulations.Messages.Store.{insert}
use simulations.Messages.Friends.{init_trust, trust_distance}
use simulations.Messages.Friends.Table.{init_trust-table, expected_trust}
use simulations.Messages.Push.{batch_to_push}
use simulations.Messages.Push.Batch.{batch_to_push-take, to_send}
use simulations.Messages.Receive.{
  IsConsistent, received, create_new_message-IsConsistent, receive_message-messages,
  receive_message-map, receive_message-IsConsistent,
}
use simulations.Messages.Receive.Order.{others, newest, merge_messages-order}
use simulations.Messages.Receive.Merge.{uuids, has_received-merge}
use simulations.Tests.Sample.{
  sender_node, other_node, first_message, second_message, sender_node-IsConsistent,
  other_node-IsConsistent,
}

now : ℤ
now = pos 3000

create_new_message-IsConsistent_example : IsConsistent (create_new_message now sender_node)
create_new_message-IsConsistent_example =
    create_new_message-IsConsistent now sender_node sender_node-IsConsistent refl

-- The sender gets its own message back: the record stays, the uuid moves to the back.
receive_message-messages_example :
    (receive_message now sender_node first_message).messages ≡ without 0 (0 ∷ []) ++ 0 ∷ []
receive_message-messages_example =
    receive_message-messages now sender_node first_message sender_node-IsConsistent

receive_message-map_example :
    (receive_message now other_node first_message).message_map
    ≡ (if has_received_message other_node 0 then [] else insert 0 (received now first_message) [])
receive_message-map_example =
    receive_message-map now other_node first_message other_node-IsConsistent

receive_message-IsConsistent_example : IsConsistent (receive_message now sender_node second_message)
receive_message-IsConsistent_example =
    receive_message-IsConsistent now sender_node second_message sender_node-IsConsistent

abbrev pending : List (MessageData milli)
pending = first_message ∷ second_message ∷ []

abbrev loaded : MessageNode milli
loaded = record other_node { temp_messages = some pending }

loaded-IsConsistent : IsConsistent loaded
loaded-IsConsistent = record { ascending = tt; distinct = tt; agree = λ u. refl }

-- The shuffle leaves the messages in their order: the first one is lost.
has_received-merge_example :
    has_received_message (merge_messages now (λ temp. temp) loaded) 0
    ≡ has_received_message loaded 0 || contains 0 (uuids (drop 1 pending))
has_received-merge_example =
    has_received-merge now (λ temp. temp) loaded pending 0 loaded-IsConsistent refl

merge_messages-order_example :
    (merge_messages now (λ temp. temp) loaded).messages
    ≡ others (uuids (reverse (drop 1 pending))) loaded.messages
      ++ newest (uuids (reverse (drop 1 pending)))
merge_messages-order_example =
    merge_messages-order now (λ temp. temp) loaded pending loaded-IsConsistent refl

batch_to_push-take_example :
    batch_to_push sender_node 3 true
    ≡ some (take 3 (to_send adversary true ((first_message, pos 0) ∷ [])))
unfolding trust_distance
batch_to_push-take_example =
    batch_to_push-take sender_node 3 true ((first_message, pos 0) ∷ []) (refl, refl, tt)

init_trust-table_example :
    (ts : List ℤ) × (init_trust collaborator 2 3 1 ≡ some ts)
    × (length ts ≡ 3)
    × ((j : ℕ) → j < 3 → get_elem? ts j ≡ some (expected_trust collaborator 2 1 j))
init_trust-table_example = init_trust-table collaborator 2 3 1 (omega arith) (omega arith)

abbrev table : List ℤ
table = negsuc 0 ∷ pos 1 ∷ pos 0 ∷ []
