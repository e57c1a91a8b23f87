-- ===== src/Messages/Node.antt =====
-- class MessageNode (momosecpp/src/include/MessageNode.h, momosecpp/src/MessageNode.cpp) and class
-- MessageData (momosecpp/src/MessageData.cpp).
--
-- A pointer to a node is the node's id, its place in the model's vector; `none` is a crash or an
-- undefined read: a null message, or an index outside `trust_distances` (which is null, here empty,
-- until `init_friendships`). The uuids are natural numbers: ids and counters start at 0.
use mathlib.Core.List.{reverse}
use simulations.Base.{
  ℕ, zero, suc, ◌+◌, ◌-◌, ◌*◌, Bool, true, false, Option, none, some, List, [], ◌∷◌, ◌++◌, ◌==◌,
  if◌then◌else◌, length, get_elem?, ℤ, pos,
}
use simulations.Floats.{Floating}
use simulations.Geometry.{distance}
use simulations.Node.{Node}
use simulations.Messages.Store.{insert, has_key}

infixl 5 ◌>>=◌
abbrev pub ◌>>=◌ {ℓ κ} : {A : Type ℓ} {B : Type κ} → Option A → (A → Option B) → Option B
none >>= f = none
some a >>= f = f a

pub data NodeType : Type 0 where
  collaborator adversary : NodeType

abbrev pub is_collaborator : NodeType → Bool
is_collaborator collaborator = true
is_collaborator adversary = false

-- INT_MAX, the value of MAX_MESSAGES
abbrev pub int_max : ℕ
int_max = 2147483647

module _ (F : Floating) where
  open F use {Float, of_int, fsub}

  pub record MessageData : Type 0 where
    pub uuid : ℕ
    pub sender : ℕ
    pub latency : Float
    pub creation_time : Float
    pub outgoing : Bool

  pub record MessageNode : Type 0 where
    pub body : Node F
    pub open body use *
    pub node_id : ℕ
    pub next_message_id : ℕ
    pub local_time : Float
    pub pause_time : Float
    pub v_max : Float
    pub v_min : Float
    pub messages : List ℕ
    pub message_map : List (ℕ × MessageData)
    pub num_nodes : ℕ
    pub node_type : NodeType
    pub temp_messages : Option (List MessageData)
    pub trust_distances : List ℤ

-- The scan from the back erases the last occurrence: here the list is given back to front.
unfoldable pub erase_first : ℕ → List ℕ → List ℕ
erase_first u [] = []
erase_first u (x ∷ xs) = if x == u then xs else x ∷ erase_first u xs

module _ {F : Floating} where
  open F use {Float, of_int, fsub}

  -- `local_time` is set by the subclasses; `num_nodes`, the type and the table have no value until
  -- setType and initFriendships write them.
  unfoldable pub init_message_node : Node F → ℕ → MessageNode F
  init_message_node body node_id = record {
    body = body;
    node_id = node_id;
    next_message_id = 0;
    local_time = of_int (pos 0);
    pause_time = of_int (pos 1);
    v_max = of_int (pos 5);
    v_min = of_int (pos 0);
    messages = [];
    message_map = [];
    num_nodes = 0;
    node_type = collaborator;
    temp_messages = none;
    trust_distances = [];
  }

  unfoldable pub insert_message : MessageNode F → MessageData F → MessageNode F
  insert_message n msg = record n {
    messages = n.messages ++ msg.uuid ∷ [];
    message_map = insert msg.uuid msg n.message_map;
  }

  abbrev pub next_uuid : MessageNode F → ℕ
  next_uuid n = n.node_id * int_max + n.next_message_id

  unfoldable pub create_new_message : Float → MessageNode F → MessageNode F
  unfolding insert_message
  create_new_message now n =
      insert_message (record n { next_message_id = n.next_message_id + 1 })
        (record {
          uuid = next_uuid n;
          sender = n.node_id;
          latency = of_int (pos 0);
          creation_time = now;
          outgoing = true;
        })

  unfoldable pub num_received_messages : List (ℕ × MessageData F) → ℕ
  num_received_messages [] = 0
  num_received_messages ((u, msg) ∷ rest) =
      num_received_messages rest + (if msg.outgoing then 0 else 1)

  unfoldable pub distance_to : MessageNode F → MessageNode F → Float
  distance_to n that = distance F n.position that.position

  unfoldable pub has_received_message : MessageNode F → ℕ → Bool
  has_received_message n uuid = has_key uuid n.message_map

  unfoldable pub receive_message : Float → MessageNode F → MessageData F → MessageNode F
  unfolding insert_message has_received_message
  receive_message now n msg =
      insert_message
        (record n {
          messages =
              if has_received_message n msg.uuid
              then reverse (erase_first msg.uuid (reverse n.messages))
              else n.messages;
        })
        (record {
          uuid = msg.uuid;
          sender = msg.sender;
          latency = fsub now msg.creation_time;
          creation_time = msg.creation_time;
          outgoing = false;
        })

  unfoldable pub assign_temp_messages : MessageNode F → List (MessageData F) → MessageNode F
  assign_temp_messages n batch = record n {
    temp_messages = elim n.temp_messages [ none ↦ some batch | some old ↦ some (old ++ batch) ];
  }

  -- ReceiveMessage at `(*temp_messages)[i]`, which is in range.
  unfoldable pub receive_at : Float → Option (MessageData F) → MessageNode F → MessageNode F
  receive_at now none n = n
  receive_at now (some msg) n = receive_message now n msg

  -- The loop of mergeMessages, `i` downwards to 1.
  unfoldable pub merge_loop : Float → List (MessageData F) → ℕ → MessageNode F → MessageNode F
  unfolding receive_at
  merge_loop now temp zero n = n
  merge_loop now temp (suc i) n = merge_loop now temp i (receive_at now (get_elem? temp (suc i)) n)

  unfoldable pub merge_pending :
      Float
      → (List (MessageData F) → List (MessageData F))
      → Option (List (MessageData F))
      → MessageNode F
      → MessageNode F
  unfolding merge_loop
  merge_pending now shuffled none n = n
  merge_pending now shuffled (some temp) n =
      record (merge_loop now (shuffled temp) (length (shuffled temp) - 1) n) {
        temp_messages = none;
      }

  -- `random_shuffle` permutes its argument: `shuffled` is the function that it applies.
  unfoldable pub merge_messages :
      Float → (List (MessageData F) → List (MessageData F)) → MessageNode F → MessageNode F
  unfolding merge_pending
  merge_messages now shuffled n = merge_pending now shuffled n.temp_messages n
