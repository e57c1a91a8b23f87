-- ===== src/Messages/Friends.antt =====
-- The trust table of a node: initFriendships, setFriendship, numFriends and trustDistance of
-- momosecpp/src/MessageNode.cpp, as functions of the array `trust_distances`.
pub mod Table
pub mod Count
use simulations.Base.{
  ℕ, zero, suc, ◌+◌, ◌-◌, ◌≤◌, ◌<◌, ◌≡◌, refl, ◌≢◌, inl, inr, Option, none, some, List, [], ◌∷◌,
  ltb, ◌==◌, if◌then◌else◌, length, get_elem?, set, replicate, length-replicate, length-set, arith,
  get_elem?-set_self, get_elem?-set_ne, Bool, true, false, Bool-cases, ℤ, pos, negsuc, eqb_ℤ, ◌∙◌,
  ◌⊎◌,
}
use simulations.Floats.{Floating}
use simulations.Messages.Node.{
  MessageNode, NodeType, collaborator, adversary, ◌>>=◌, is_collaborator,
}

-- A write outside the array is undefined.
unfoldable pub write : List ℤ → ℕ → ℤ → Option (List ℤ)
write ts i v = if ltb i (length ts) then some (set ts i v) else none

-- `for (int i = lo; i < lo + count; i++) trust_distances[i] = v`
unfoldable pub fill : ℕ → ℕ → ℤ → List ℤ → Option (List ℤ)
unfolding write
fill lo zero v ts = some ts
fill lo (suc count) v ts = write ts lo v >>= λ ts'. fill (lo + 1) count v ts'

-- The values that the two loops write below and above `num_adversaries`.
abbrev pub first_value : NodeType → ℤ
first_value adversary = pos 1
first_value collaborator = negsuc 0

abbrev pub second_value : NodeType → ℤ
second_value adversary = negsuc 0
second_value collaborator = pos 1

unfoldable pub init_trust : NodeType → ℕ → ℕ → ℕ → Option (List ℤ)
unfolding fill write
init_trust type node_id num_nodes num_adversaries =
    fill 0 num_adversaries (first_value type) (replicate num_nodes (pos 0)) >>= λ ts.
    fill num_adversaries (num_nodes - num_adversaries) (second_value type) ts >>= λ ts'.
    write ts' node_id (pos 0)

-- the number of cells that hold 1
unfoldable pub num_friends : List ℤ → ℕ
num_friends [] = 0
num_friends (t ∷ ts) = num_friends ts + (if eqb_ℤ t (pos 1) then 1 else 0)

module _ {F : Floating} where
  unfoldable pub init_friendships : MessageNode F → ℕ → ℕ → Option (MessageNode F)
  unfolding init_trust
  init_friendships n num_nodes num_adversaries =
      init_trust n.node_type n.node_id num_nodes num_adversaries >>= λ ts.
      some (record n { num_nodes = num_nodes; trust_distances = ts })

  -- `status` is not read.
  unfoldable pub set_friendship : MessageNode F → ℕ → Bool → Option (MessageNode F)
  unfolding write
  set_friendship n friend_num status =
      write n.trust_distances friend_num (pos 1) >>= λ ts. some (record n { trust_distances = ts })

  unfoldable pub trust_distance : MessageNode F → ℕ → Option ℤ
  trust_distance n that = get_elem? n.trust_distances that
