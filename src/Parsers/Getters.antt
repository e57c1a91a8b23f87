-- ===== src/Parsers/Getters.antt =====
-- The getters of class MessageModelParser (momosecpp/src/MessageModelParser.cpp).
use simulations.Base.{ℤ, pos, Bool, ltb_ℤ, if◌then◌else◌}
use simulations.Floats.{Floating}
use simulations.Parsers.Messages.{MessageModelParser}

module _ {F : Floating} where
  unfoldable pub get_v_max : MessageModelParser F → F.Float
  get_v_max p = if F.flt p.v_max (F.of_int (pos 0)) then F.of_int (pos 0) else p.v_max

  unfoldable pub get_v_min : MessageModelParser F → F.Float
  get_v_min p = if F.flt p.v_min (F.of_int (pos 0)) then F.of_int (pos 0) else p.v_min

  unfoldable pub get_pause_time : MessageModelParser F → F.Float
  get_pause_time p =
      if F.flt p.pause_time (F.of_int (pos 0)) then F.of_int (pos 0) else p.pause_time

  unfoldable pub get_probability : MessageModelParser F → F.Float
  get_probability p =
      if F.flt p.probability (F.of_int (pos 0))
      then F.of_int (pos 0)
      else if F.flt (F.of_int (pos 1)) p.probability
      then F.of_int (pos 0)
      else p.probability

  unfoldable pub get_node_trust_distance : MessageModelParser F → ℤ
  get_node_trust_distance p =
      if ltb_ℤ p.node_trust_distance (pos 0) then pos 0 else p.node_trust_distance

  unfoldable pub get_msg_trust_distance : MessageModelParser F → ℤ
  get_msg_trust_distance p =
      if ltb_ℤ p.msg_trust_distance (pos 0) then pos 0 else p.msg_trust_distance

  unfoldable pub get_node_exchange_num : MessageModelParser F → ℤ
  get_node_exchange_num p = if ltb_ℤ p.node_exchange_num (pos 1) then pos 1 else p.node_exchange_num

  unfoldable pub get_msg_exchange_num : MessageModelParser F → ℤ
  get_msg_exchange_num p = if ltb_ℤ p.msg_exchange_num (pos 1) then pos 1 else p.msg_exchange_num

  unfoldable pub get_percent_adversaries : MessageModelParser F → F.Float
  get_percent_adversaries p =
      if F.flt p.percent_adversaries (F.of_int (pos 0))
      then F.of_int (pos 0)
      else if F.flt (F.of_int (pos 1)) p.percent_adversaries
      then F.of_int (pos 1)
      else p.percent_adversaries

  unfoldable pub get_adversary_probability : MessageModelParser F → F.Float
  get_adversary_probability p =
      if F.flt p.adversary_probability (F.of_int (pos 0))
      then F.of_int (pos 0)
      else if F.flt (F.of_int (pos 1)) p.adversary_probability
      then F.of_int (pos 1)
      else p.adversary_probability

  unfoldable pub get_adversary_msg_creation_probability : MessageModelParser F → F.Float
  get_adversary_msg_creation_probability p =
      if F.flt p.adversary_msg_creation_probability (F.of_int (pos 0))
      then F.of_int (pos 0)
      else if F.flt (F.of_int (pos 1)) p.adversary_msg_creation_probability
      then F.of_int (pos 1)
      else p.adversary_msg_creation_probability

  unfoldable pub get_collaborator_msg_creation_probability : MessageModelParser F → F.Float
  get_collaborator_msg_creation_probability p =
      if F.flt p.collaborator_msg_creation_probability (F.of_int (pos 0))
      then F.of_int (pos 0)
      else if F.flt (F.of_int (pos 1)) p.collaborator_msg_creation_probability
      then F.of_int (pos 1)
      else p.collaborator_msg_creation_probability

  unfoldable pub get_use_friendships : MessageModelParser F → Bool
  get_use_friendships p = p.use_friendships
