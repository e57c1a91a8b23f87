-- ===== src/Messages/Model.antt =====
-- class MessageModel (momosecpp/src/MessageModel.cpp) with CreateMessageNode of
-- momosecpp/src/RandomWalkMessageModel.cpp: `setup` builds the nodes, and `think` is one time step,
-- in which messages are created, pushed to one neighbour each, and merged. `none` is undefined
-- behaviour: a read outside a vector, or a fault of a node.
pub mod Known
pub mod Pushed
pub mod Picks
pub mod Steps
pub mod Think
pub mod Setup
pub mod Unique
pub mod Build
use simulations.Base.{
  ℕ, zero, suc, ◌+◌, Bool, true, false, not, ◌&&◌, ◌||◌, Option, none, some, List, [], ◌∷◌, ◌++◌,
  ◌==◌, ltb, if◌then◌else◌, length, get_elem?, set, ℤ, pos, negsuc,
}
use simulations.Floats.{Floating}
use simulations.Random.{Random, unit_float}
use simulations.Geometry.{point}
use simulations.Node.{init_node, set_antenna_radius}
use simulations.Messages.Node.{
  MessageNode, MessageData, NodeType, collaborator, adversary, is_collaborator, ◌>>=◌,
  init_message_node, create_new_message, merge_messages, distance_to,
}
use simulations.Messages.Friends.{init_friendships}
use simulations.Messages.Push.{push_messages_to}

-- `last_node_id` of the source is `next_node_id - 1`.
pub record MessageModel (F : Floating) : Type 0 where
  pub num_nodes : ℕ
  pub node_radius : F.Float
  pub antenna_radius : F.Float
  pub pause_time : F.Float
  pub v_min : F.Float
  pub v_max : F.Float
  pub next_node_id : ℕ
  pub exchange_distance : F.Float
  pub probability : F.Float
  pub node_trust_distance : ℕ
  pub msg_trust_distance : ℕ
  pub node_exchange_num : ℕ
  pub msg_exchange_num : ℕ
  pub num_adversaries : ℕ
  pub adversary_probability : F.Double
  pub adversary_msg_creation_probability : F.Double
  pub collaborator_msg_creation_probability : F.Double
  pub use_friendships : Bool

-- (int)(((float) rand()) / RAND_MAX * potentials.size())
unfoldable pub pick_index : (F : Floating) → Random → ℕ → ℕ → ℤ
unfolding unit_float
pick_index F R r size = F.trunc_f (F.fmul (unit_float F R r) (F.of_int (pos size)))

abbrev pub get_place : List ℕ → ℤ → Option ℕ
get_place js (pos k) = get_elem? js k
get_place js (negsuc k) = none

module _ {F : Floating} (R : Random) where
  -- RandomWalkMessageModel::CreateMessageNode, in a scenario of the given width and height.
  unfoldable pub create_message_node :
      MessageModel F → F.Float → F.Float → R.Rng → MessageNode F × R.Rng
  unfolding init_message_node init_node unit_float
  create_message_node m width height rng =
      let (r, rng') = R.rand rng in
      let (s, rng'') = R.rand rng' in
      let px = F.fmul (unit_float F R r) width in
      let py = F.fmul (unit_float F R s) height in
      (init_message_node (init_node F (point F px py) m.node_radius) m.next_node_id, rng'')

  -- `if (i < num_adversaries) setType(ADVERSARY); else setType(COLLABORATOR);`
  unfoldable pub set_type : MessageNode F → ℕ → ℕ → MessageNode F
  set_type n i num_adversaries = record n {
    node_type = if ltb i num_adversaries then adversary else collaborator;
  }

  -- One round of the loop of `setup`: the model with its counter, and the node.
  unfoldable pub setup_node :
      MessageModel F → F.Float → F.Float → ℕ → R.Rng → Option (MessageNode F × R.Rng)
  unfolding create_message_node set_type init_friendships
  setup_node m width height i rng =
      let (n, rng') = create_message_node m width height rng in
      let placed = record n { body = set_antenna_radius F n.body m.antenna_radius } in
      init_friendships (set_type placed i m.num_adversaries) m.num_nodes m.num_adversaries >>= λ n'.
      some (n', rng')

  unfoldable pub setup_loop :
      MessageModel F
      → F.Float
      → F.Float
      → ℕ
      → ℕ
      → List (MessageNode F)
      → R.Rng
      → Option (MessageModel F × List (MessageNode F) × R.Rng)
  unfolding setup_node
  setup_loop m width height zero i nodes rng = some (m, nodes, rng)
  setup_loop m width height (suc left) i nodes rng =
      setup_node m width height i rng >>= λ (n, rng').
      setup_loop (record m { next_node_id = suc m.next_node_id }) width height left (suc i)
        (nodes ++ n ∷ []) rng'

  unfoldable pub setup :
      MessageModel F
      → F.Float
      → F.Float
      → List (MessageNode F)
      → R.Rng
      → Option (MessageModel F × List (MessageNode F) × R.Rng)
  unfolding setup_loop
  setup m width height nodes rng = setup_loop m width height m.num_nodes 0 nodes rng

  unfoldable pub wants_to_create : MessageModel F → NodeType → ℕ → Bool
  unfolding unit_float
  wants_to_create m type r =
      let random = F.widen (unit_float F R r) in
      (not (is_collaborator type) && F.dlt random m.adversary_msg_creation_probability)
      || (is_collaborator type && F.dlt random m.collaborator_msg_creation_probability)

  -- The loops of `think` run over the `numNodes` nodes that `setup` made.
  unfoldable pub create_messages :
      MessageModel F → F.Float → List (MessageNode F) → R.Rng → List (MessageNode F) × R.Rng
  unfolding wants_to_create create_new_message
  create_messages m now [] rng = ([], rng)
  create_messages m now (n ∷ nodes) rng =
      let (r, rng') = R.rand rng in
      let rest = create_messages m now nodes rng' in
      ((if wants_to_create m n.node_type r then create_new_message now n else n) ∷ rest.0, rest.1)

  -- The places, from `j` on, of the nodes within the exchange distance of node `i`, which is `n`.
  unfoldable pub potentials : MessageModel F → ℕ → MessageNode F → ℕ → List (MessageNode F) → List ℕ
  unfolding distance_to
  potentials m i n j [] = []
  potentials m i n j (that ∷ nodes) =
      let rest = potentials m i n (suc j) nodes in
      if not (j == i) && F.fle (distance_to n that) m.exchange_distance then j ∷ rest else rest

  unfoldable pub push_to_one :
      MessageModel F
      → List (MessageNode F)
      → MessageNode F
      → List ℕ
      → R.Rng
      → Option (List (MessageNode F) × R.Rng)
  unfolding pick_index push_messages_to
  push_to_one m nodes n [] rng = some (nodes, rng)
  push_to_one m nodes n (j ∷ js) rng =
      let (r, rng') = R.rand rng in
      get_place (j ∷ js) (pick_index F R r (length (j ∷ js))) >>= λ k. get_elem? nodes k >>= λ that.
      push_messages_to n that m.msg_exchange_num m.use_friendships >>= λ that'.
      some (set nodes k that', rng')

  unfoldable pub push_loop_all :
      MessageModel F → ℕ → ℕ → List (MessageNode F) → R.Rng → Option (List (MessageNode F) × R.Rng)
  unfolding push_to_one potentials
  push_loop_all m zero i nodes rng = some (nodes, rng)
  push_loop_all m (suc left) i nodes rng = get_elem? nodes i >>= λ n.
      push_to_one m nodes n (potentials m i n 0 nodes) rng >>= λ (nodes', rng').
      push_loop_all m left (suc i) nodes' rng'

  -- The generator moves only where there is something to shuffle.
  abbrev pub after_shuffle : Option (List (MessageData F)) → R.Rng → R.Rng
  after_shuffle none rng = rng
  after_shuffle (some temp) rng = (R.shuffle (MessageData F) rng temp).1

  unfoldable pub merge_all : F.Float → List (MessageNode F) → R.Rng → List (MessageNode F) × R.Rng
  unfolding merge_messages
  merge_all now [] rng = ([], rng)
  merge_all now (n ∷ nodes) rng =
      let rest = merge_all now nodes (after_shuffle n.temp_messages rng) in
      (merge_messages now (λ temp. (R.shuffle (MessageData F) rng temp).0) n ∷ rest.0, rest.1)

  unfoldable pub think :
      MessageModel F
      → F.Float
      → List (MessageNode F)
      → R.Rng
      → Option (List (MessageNode F) × R.Rng)
  unfolding create_messages push_loop_all merge_all
  think m now nodes rng =
      let (created, rng') = create_messages m now nodes rng in
      push_loop_all m m.num_nodes 0 created rng' >>= λ (pushed, rng'').
      some (merge_all now pushed rng'')
