-- ===== src/Messages/Recorder.antt =====
-- class MessageRecorder (momosecpp/src/MessageRecorder.cpp): which rows it writes at the end of a
-- simulation. The file itself, and its compression, are not modelled: a row is a value.
pub mod Window
pub mod Latest
use simulations.Base.{
  ℕ, zero, suc, ◌+◌, ◌≡◌, Bool, true, false, not, ◌&&◌, List, [], ◌∷◌, ◌++◌, if◌then◌else◌, length,
  drop, ℤ, pos,
}
use simulations.Floats.{Floating}
use simulations.Messages.Node.{MessageNode, MessageData, is_collaborator}

pub record Row (F : Floating) : Type 0 where
  pub uuid : ℕ
  pub latency : F.Float
  pub sender : ℕ
  pub recipient : ℕ

-- 0.2 * max_creation_time and 0.8 * max_creation_time
unfoldable pub min_time : (F : Floating) → F.Float → F.Float
min_time F latest = F.narrow (F.dmul (F.literal_d (pos 2) 1) (F.widen latest))

unfoldable pub max_time : (F : Floating) → F.Float → F.Float
max_time F latest = F.narrow (F.dmul (F.literal_d (pos 8) 1) (F.widen latest))

module _ {F : Floating} where
  -- setupNodes and addNodesToVector: the nodes of all models, in order.
  unfoldable pub setup_nodes : List (List (MessageNode F)) → List (MessageNode F)
  setup_nodes [] = []
  setup_nodes (nodes ∷ models) = nodes ++ setup_nodes models

  -- writeBaseNode
  unfoldable pub count_adversaries : List (MessageNode F) → ℕ
  count_adversaries [] = 0
  count_adversaries (n ∷ nodes) =
      count_adversaries nodes + (if is_collaborator n.node_type then 0 else 1)

  unfoldable pub max_in_map : F.Float → List (ℕ × MessageData F) → F.Float
  max_in_map acc [] = acc
  max_in_map acc ((u, msg) ∷ entries) =
      max_in_map (if F.flt acc msg.creation_time then msg.creation_time else acc) entries

  unfoldable pub max_creation_time : F.Float → List (MessageNode F) → F.Float
  unfolding max_in_map
  max_creation_time acc [] = acc
  max_creation_time acc (n ∷ nodes) = max_creation_time (max_in_map acc n.message_map) nodes

  unfoldable pub is_recorded : F.Float → F.Float → MessageData F → Bool
  is_recorded lo hi msg =
      not msg.outgoing && (F.flt lo msg.creation_time && F.flt msg.creation_time hi)

  abbrev pub row_of : MessageNode F → MessageData F → Row F
  row_of n msg = record {
    uuid = msg.uuid;
    latency = msg.latency;
    sender = msg.sender;
    recipient = n.node_id;
  }

  unfoldable pub rows_of_map :
      F.Float → F.Float → MessageNode F → List (ℕ × MessageData F) → List (Row F)
  unfolding is_recorded
  rows_of_map lo hi n [] = []
  rows_of_map lo hi n ((u, msg) ∷ entries) =
      let rest = rows_of_map lo hi n entries in
      if is_recorded lo hi msg then row_of n msg ∷ rest else rest

  unfoldable pub rows_of_nodes : F.Float → F.Float → List (MessageNode F) → List (Row F)
  unfolding rows_of_map
  rows_of_nodes lo hi [] = []
  rows_of_nodes lo hi (n ∷ nodes) = rows_of_map lo hi n n.message_map ++ rows_of_nodes lo hi nodes

  -- The loop over the rows starts at `nodes->begin() + num_adversaries`.
  unfoldable pub write_message_info : List (MessageNode F) → List (Row F)
  unfolding count_adversaries max_creation_time min_time max_time rows_of_nodes
  write_message_info nodes =
      let latest = max_creation_time (F.of_int (pos 0)) nodes in
      rows_of_nodes (min_time F latest) (max_time F latest) (drop (count_adversaries nodes) nodes)
