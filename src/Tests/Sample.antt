-- ===== src/Tests/Sample.antt =====
-- Concrete inputs: a generator that always returns 0, and two nodes of which one has sent a message.
use mathlib.Core.List.Permᴰ
use simulations.Base.{
  ℕ, zero, suc, ◌<◌, refl, true, false, List, [], ◌∷◌, ℤ, pos, negsuc, arith, none, ◌%◌,
}
use simulations.Floats.{milli}
use simulations.Random.{Random, IsShuffling}
use simulations.Geometry.{point, vector}
use simulations.Node.{Node, color}
use simulations.Messages.Node.{MessageNode, MessageData, collaborator, adversary, int_max}
use simulations.Messages.Receive.{IsConsistent}
use simulations.Messages.Model.{MessageModel}
use simulations.Messages.Model.Known.{IsValid}
use simulations.Messages.Model.Steps.{AllValid, made_by}

abbrev pub still : Random
still = record { Rng = ℕ; rand = λ r. (0, suc r); rand_max = 1; shuffle = λ A r xs. (xs, suc r) }

-- A generator that goes through 0 to 3, where 3 is RAND_MAX.
abbrev pub counting : Random
counting = record {
  Rng = ℕ;
  rand = λ r. (r % 4, suc r);
  rand_max = 3;
  shuffle = λ A r xs. (xs, suc r);
}

pub counting-IsShuffling : IsShuffling counting
counting-IsShuffling = record { shuffle-perm = λ A r xs. Permᴰ.refl xs }

abbrev pub body_at : ℤ → Node milli
body_at x = record {
  position = point milli x (pos 0);
  v = vector milli (pos 500) (pos 0);
  radius = pos 500;
  antenna_radius = pos 10000;
  collided = false;
  tint = color (pos 0) (pos 0) (pos 255);
}

abbrev pub first_message : MessageData milli
first_message = record {
  uuid = 0;
  sender = 0;
  latency = pos 0;
  creation_time = pos 1000;
  outgoing = true;
}

abbrev pub second_message : MessageData milli
second_message = record {
  uuid = int_max;
  sender = 1;
  latency = pos 0;
  creation_time = pos 2000;
  outgoing = true;
}

abbrev pub sender_node : MessageNode milli
sender_node = record {
  body = body_at (pos 0);
  node_id = 0;
  next_message_id = 1;
  local_time = pos 0;
  pause_time = pos 1000;
  v_max = pos 5000;
  v_min = pos 0;
  messages = 0 ∷ [];
  message_map = (0, first_message) ∷ [];
  num_nodes = 2;
  node_type = adversary;
  temp_messages = none;
  trust_distances = pos 0 ∷ negsuc 0 ∷ [];
}

abbrev pub other_node : MessageNode milli
other_node = record {
  body = body_at (pos 2000);
  node_id = 1;
  next_message_id = 0;
  local_time = pos 0;
  pause_time = pos 1000;
  v_max = pos 5000;
  v_min = pos 0;
  messages = [];
  message_map = [];
  num_nodes = 2;
  node_type = collaborator;
  temp_messages = none;
  trust_distances = negsuc 0 ∷ pos 0 ∷ [];
}

abbrev pub two_nodes : List (MessageNode milli)
two_nodes = sender_node ∷ other_node ∷ []

abbrev pub two_model : MessageModel milli
two_model = record {
  num_nodes = 2;
  node_radius = pos 500;
  antenna_radius = pos 10000;
  pause_time = pos 1000;
  v_min = pos 0;
  v_max = pos 5000;
  next_node_id = 0;
  exchange_distance = pos 10000;
  probability = pos 0;
  node_trust_distance = 0;
  msg_trust_distance = 0;
  node_exchange_num = 1;
  msg_exchange_num = 3;
  num_adversaries = 1;
  adversary_probability = pos 0;
  adversary_msg_creation_probability = pos 100;
  collaborator_msg_creation_probability = pos 100;
  use_friendships = true;
}

pub sender_node-IsConsistent : IsConsistent sender_node
sender_node-IsConsistent = record {
  ascending = (omega arith, tt);
  distinct = (refl, tt);
  agree = λ u. ground arith;
}

pub other_node-IsConsistent : IsConsistent other_node
other_node-IsConsistent = record { ascending = tt; distinct = tt; agree = λ u. refl }

sender_node-IsValid : IsValid 2 (made_by two_nodes) 0 sender_node
sender_node-IsValid = record {
  id = refl;
  in_range = omega arith;
  counted = refl;
  trusts = refl;
  consistent = sender_node-IsConsistent;
  stored = ((refl, (omega arith, 0, refl, omega arith)), tt);
  pending = tt;
}

other_node-IsValid : IsValid 2 (made_by two_nodes) 1 other_node
other_node-IsValid = record {
  id = refl;
  in_range = omega arith;
  counted = refl;
  trusts = refl;
  consistent = other_node-IsConsistent;
  stored = tt;
  pending = tt;
}

pub two_nodes-AllValid : AllValid two_nodes
two_nodes-AllValid = (sender_node-IsValid, (other_node-IsValid, tt))

pub two_nodes-small : (s : ℕ) → made_by two_nodes s < int_max
two_nodes-small zero = omega arith
two_nodes-small (suc zero) = omega arith
two_nodes-small (suc (suc s)) = omega arith
