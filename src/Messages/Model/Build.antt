-- ===== src/Messages/Model/Build.antt =====
-- RandomWalkMessageModelBuilder::create (momosecpp/src/RandomWalkMessageModelBuilder.cpp) and
-- MessageModel::setModel (momosecpp/src/MessageModel.cpp): the model from its configuration.
use simulations.Base.{
  ◌^◌, ◌≤◌, ◌≡◌, refl, true, false, Bool, some, List, [], length, AllFrom, if◌then◌else◌, ℤ, pos,
  pos_part,
}
use simulations.Floats.{Floating, IsOrdered}
use simulations.Random.{Random}
use simulations.Messages.Node.{MessageNode}
use simulations.Messages.Model.{MessageModel, setup}
use simulations.Messages.Model.Setup.{IsReady, setup-IsReady}
use simulations.Parsers.Messages.{MessageModelParser}
use simulations.Parsers.Getters.{
  get_v_max, get_v_min, get_pause_time, get_probability, get_node_trust_distance,
  get_msg_trust_distance, get_node_exchange_num, get_msg_exchange_num, get_percent_adversaries,
  get_adversary_probability, get_adversary_msg_creation_probability,
  get_collaborator_msg_creation_probability, get_use_friendships,
}
use simulations.Parsers.Ranges.{InUnit, getters-IsChecked}

-- The arguments of setModel, less the property of being physical, which it does not use.
pub record Settings (F : Floating) : Type 0 where
  pub num_nodes : ℤ
  pub node_radius : F.Float
  pub antenna_radius : F.Float
  pub pause_time : F.Float
  pub v_min : F.Float
  pub v_max : F.Float
  pub probability : F.Float
  pub node_trust_distance : ℤ
  pub msg_trust_distance : ℤ
  pub node_exchange_num : ℤ
  pub msg_exchange_num : ℤ
  pub percent_adversaries : F.Float
  pub adversary_probability : F.Float
  pub adversary_msg_creation_probability : F.Float
  pub collaborator_msg_creation_probability : F.Float
  pub use_friendships : Bool

-- `percent_adversaries * numNodes`, as an `int`
unfoldable pub adversaries : (F : Floating) → F.Float → ℤ → ℤ
adversaries F percent count = F.trunc_f (F.fmul percent (F.of_int count))

module _ {F : Floating} where
  -- A negative number of nodes makes none, as 0 does. The seed of the generator is no part of it.
  unfoldable pub set_model : MessageModel F → Settings F → MessageModel F
  unfolding adversaries
  set_model m s = record m {
    num_nodes = pos_part s.num_nodes;
    node_radius = s.node_radius;
    antenna_radius = s.antenna_radius;
    pause_time = s.pause_time;
    v_min = s.v_min;
    v_max = s.v_max;
    exchange_distance = s.antenna_radius;
    probability = s.probability;
    node_trust_distance = pos_part s.node_trust_distance;
    msg_trust_distance = pos_part s.msg_trust_distance;
    node_exchange_num = pos_part s.node_exchange_num;
    msg_exchange_num = pos_part s.msg_exchange_num;
    num_adversaries = pos_part (adversaries F s.percent_adversaries s.num_nodes);
    adversary_probability = F.widen s.adversary_probability;
    adversary_msg_creation_probability = F.widen s.adversary_msg_creation_probability;
    collaborator_msg_creation_probability = F.widen s.collaborator_msg_creation_probability;
    use_friendships = s.use_friendships;
  }

  -- The new model's memory, with what the constructors of MessageModel set in it.
  unfoldable pub init_message_model : MessageModel F → MessageModel F
  init_message_model memory = record memory { next_node_id = 0 }

  unfoldable pub create : MessageModel F → MessageModelParser F → MessageModel F
  unfolding set_model init_message_model get_v_max get_v_min get_pause_time get_probability
      get_node_trust_distance get_msg_trust_distance get_node_exchange_num get_msg_exchange_num
      get_percent_adversaries get_adversary_probability get_adversary_msg_creation_probability
      get_collaborator_msg_creation_probability get_use_friendships
  create memory p = set_model (init_message_model memory) (record {
    num_nodes = p.base.num_nodes;
    node_radius = p.base.node_radius;
    antenna_radius = p.base.antenna_radius;
    pause_time = get_pause_time p;
    v_min = get_v_min p;
    v_max = get_v_max p;
    probability = get_probability p;
    node_trust_distance = get_node_trust_distance p;
    msg_trust_distance = get_msg_trust_distance p;
    node_exchange_num = get_node_exchange_num p;
    msg_exchange_num = get_msg_exchange_num p;
    percent_adversaries = get_percent_adversaries p;
    adversary_probability = get_adversary_probability p;
    adversary_msg_creation_probability = get_adversary_msg_creation_probability p;
    collaborator_msg_creation_probability = get_collaborator_msg_creation_probability p;
    use_friendships = get_use_friendships p;
  })

-- What IEEE 754 says of numbers, that is of values which are equal to themselves, and of the part of
-- an `int` that a `float` holds exactly.
pub record IsRounding (F : Floating) : Type 0 where
  pub ends :
      (F.feq (F.of_int (pos 0)) (F.of_int (pos 0)) ≡ true)
      × (F.feq (F.of_int (pos 1)) (F.of_int (pos 1)) ≡ true)
  pub not_less :
      (a b : F.Float) → F.feq a a ≡ true → F.feq b b ≡ true → F.flt a b ≡ false → F.fle b a ≡ true
  pub share :
      (q : F.Float) (n : ℤ)
      → F.fle (F.of_int (pos 0)) q ≡ true
      → F.fle q (F.of_int (pos 1)) ≡ true
      → pos_part n ≤ 2 ^ 24
      → pos_part (F.trunc_f (F.fmul q (F.of_int n))) ≤ pos_part n

module _ {F : Floating} (rounding : IsRounding F) where
  either_number :
      (low high : Bool) (a : F.Float)
      → F.feq a a ≡ true
      → let q : F.Float = if low then F.of_int (pos 0) else if high then F.of_int (pos 1) else a in
        F.feq q q ≡ true
  either_number true high a h = rounding.ends.0
  either_number false true a h = rounding.ends.1
  either_number false false a h = h

  percent_number :
      (p : MessageModelParser F)
      → F.feq p.percent_adversaries p.percent_adversaries ≡ true
      → F.feq (get_percent_adversaries p) (get_percent_adversaries p) ≡ true
  unfolding get_percent_adversaries
  percent_number p h =
      either_number (F.flt p.percent_adversaries (F.of_int (pos 0)))
        (F.flt (F.of_int (pos 1)) p.percent_adversaries) p.percent_adversaries h

  create_few :
      (memory : MessageModel F) (p : MessageModelParser F)
      → IsOrdered F
      → F.flt (F.of_int (pos 1)) (F.of_int (pos 0)) ≡ false
      → F.feq p.percent_adversaries p.percent_adversaries ≡ true
      → pos_part p.base.num_nodes ≤ 2 ^ 24
      → (create memory p).num_adversaries ≤ (create memory p).num_nodes
  unfolding create set_model adversaries
  create_few memory p order apart number small =
      let q = get_percent_adversaries p in
      let checked : InUnit F q = (getters-IsChecked order apart p).percent_adversaries in
      let here : F.feq q q ≡ true = percent_number p number in
      rounding.share q p.base.num_nodes
        (rounding.not_less q (F.of_int (pos 0)) here rounding.ends.0 checked.0)
        (rounding.not_less (F.of_int (pos 1)) q rounding.ends.1 here checked.1) small

  -- If the comparisons are ordered, 1 is not below 0, `float` rounds as IEEE 754 has it, the
  -- percentage of adversaries is a number and there are at most 2^24 nodes, the model that the
  -- builder makes from its parser is set up without a fault: as many nodes as the parser read,
  -- none for a negative number, each ready, with the adversaries first.
  pub create-IsReady :
      (R : Random) (memory : MessageModel F) (p : MessageModelParser F) (width height : F.Float)
      (rng : R.Rng)
      → IsOrdered F
      → F.flt (F.of_int (pos 1)) (F.of_int (pos 0)) ≡ false
      → F.feq p.percent_adversaries p.percent_adversaries ≡ true
      → pos_part p.base.num_nodes ≤ 2 ^ 24
      → (m : MessageModel F) × (nodes : List (MessageNode F)) × (rng' : R.Rng) × (setup R
            (create memory p)
            width
            height
            []
            rng
          ≡ some (m, nodes, rng'))
        × (length nodes ≡ pos_part p.base.num_nodes)
        × AllFrom (IsReady (pos_part p.base.num_nodes) (create memory p).num_adversaries) 0 nodes
  unfolding create set_model init_message_model
  create-IsReady R memory p width height rng order apart number small =
      setup-IsReady R (create memory p) width height rng refl
        (create_few memory p order apart number small)
