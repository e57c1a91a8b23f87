-- ===== src/Era.antt =====
-- The Era model: the role assignment of momosecpp/src/EraModel.cpp on the nodes of
-- momosecpp/src/EraNode.cpp.
pub mod Sets
pub mod Roles
pub mod Types
pub mod Walk
use simulations.Base.{
  ℕ, zero, suc, ◌+◌, ◌≡◌, Bool, true, false, not, ◌&&◌, List, [], ◌∷◌, ◌++◌, if◌then◌else◌, ltb,
  ◌==◌, length, ℤ, pos, negsuc, get_elem?, Option, some, none,
}
use simulations.Floats.{Floating}
use simulations.Geometry.{Point2D, distance}
use simulations.Node.{Node, Color, color}

-- A node, as `type` has it, and the hot spot it goes to. `handle` is its address: two pointers are
-- equal exactly if their handles are.
pub record EraNode (F : Floating) : Type 0 where
  pub handle : ℕ
  pub kind : ℕ
  pub local_time : F.Float
  pub pause_in_spot : Bool
  pub target_spot : Option ℕ
  pub body : Node F

-- if((index<0)||(index>=inputSet.size())) index=0;
unfoldable pub clamp_index : ℤ → ℕ → ℕ
clamp_index (pos k) size = if ltb k size then k else 0
clamp_index (negsuc k) size = 0

module _ {F : Floating} where
  -- EraModel::isVisible
  unfoldable pub is_visible : EraNode F → EraNode F → Bool
  is_visible node target =
      F.fle (distance F node.body.position target.body.position) node.body.antenna_radius

  -- The inner loop of removeFrom: `*i==*j` compares pointers.
  unfoldable pub is_in : EraNode F → List (EraNode F) → Bool
  is_in n [] = false
  is_in n (k ∷ ks) = let rest = is_in n ks in if n.handle == k.handle then true else rest

  unfoldable pub remove_from : List (EraNode F) → List (EraNode F) → List (EraNode F)
  unfolding is_in
  remove_from [] out = []
  remove_from (n ∷ from) out =
      let rest = remove_from from out in if is_in n out then rest else n ∷ rest

  -- The inner loop of generateIndMaximalSet: some node of the set sees the candidate.
  unfoldable pub is_seen : List (EraNode F) → EraNode F → Bool
  unfolding is_visible
  is_seen [] n = false
  is_seen (m ∷ ms) n = let rest = is_seen ms n in if is_visible m n then true else rest

  -- Its outer loop, from place `i`.
  unfoldable pub extend_set : ℕ → ℕ → List (EraNode F) → List (EraNode F) → List (EraNode F)
  unfolding is_seen
  extend_set index i [] set = set
  extend_set index i (n ∷ rest) set =
      extend_set index (i + 1) rest
        (if i == index then set else if is_seen set n then set else set ++ n ∷ [])

  from_first : ℕ → Option (EraNode F) → List (EraNode F) → List (EraNode F)
  unfolding extend_set
  from_first index none input_set = []
  from_first index (some n) input_set = extend_set index 0 input_set (n ∷ [])

  unfoldable pub generate_ind_maximal_set : List (EraNode F) → ℤ → List (EraNode F)
  unfolding clamp_index from_first
  generate_ind_maximal_set input_set index =
      let k = clamp_index index (length input_set) in from_first k (get_elem? input_set k) input_set

  -- isIndMaximal: its loops over `i` and `j`, where `sees_other` is the loop over `j`.
  unfoldable pub sees_other : EraNode F → ℕ → ℕ → List (EraNode F) → Bool
  unfolding is_visible
  sees_other n i j [] = false
  sees_other n i j (m ∷ ms) =
      let rest = sees_other n i (j + 1) ms in
      if j == i then rest else if is_visible n m then true else rest

  unfoldable pub some_sees : ℕ → List (EraNode F) → List (EraNode F) → Bool
  unfolding sees_other
  some_sees i [] all = false
  some_sees i (n ∷ rest) all =
      let later = some_sees (i + 1) rest all in if sees_other n i 0 all then true else later

  unfoldable pub is_ind_maximal : List (EraNode F) → Bool
  unfolding some_sees
  is_ind_maximal [] = false
  is_ind_maximal (n ∷ ns) = not (some_sees 0 (n ∷ ns) (n ∷ ns))

  -- EraNode::setType
  unfoldable pub set_type_node : EraNode F → ℕ → EraNode F
  set_type_node n (suc zero) = record n {
    kind = 1;
    body = record n.body { tint = color (pos 255) (pos 255) (pos 0) };
  }
  set_type_node n (suc (suc zero)) = record n {
    kind = 2;
    body = record n.body { tint = color (pos 255) (pos 0) (pos 0) };
  }
  set_type_node n k = record n {
    kind = 3;
    body = record n.body { tint = color (pos 0) (pos 0) (pos 255) };
  }

  -- setType: the nodes of the model that the vector points to get the type.
  unfoldable pub set_type : List (EraNode F) → List (EraNode F) → ℕ → List (EraNode F)
  unfolding is_in set_type_node
  set_type [] input_set type = []
  set_type (n ∷ nodes) input_set type =
      (if is_in n input_set then set_type_node n type else n) ∷ set_type nodes input_set type

  -- cloneVector copies the nodes of the model, not its argument, which is always the same vector.
  unfoldable pub clone_vector : List (EraNode F) → List (EraNode F) → List (EraNode F)
  clone_vector nodes input_nodes = nodes

  unfoldable pub second_set : List (EraNode F) → List (EraNode F)
  unfolding is_ind_maximal generate_ind_maximal_set
  second_set v = if is_ind_maximal v then [] else generate_ind_maximal_set v (pos 0)

  -- roleAssignament: of V, the first set I gets the type 1, the second I1 the type 2, the rest the
  -- type 3. Removing an empty set, or giving it a type, changes nothing, as the tests of the source
  -- on `size()>0` have it.
  unfoldable pub role_assignment : List (EraNode F) → List (EraNode F)
  unfolding generate_ind_maximal_set remove_from set_type clone_vector second_set
  role_assignment nodes =
      let v = clone_vector nodes nodes in
      let i = generate_ind_maximal_set v (pos 0) in
      let v' = remove_from v i in
      let i' = second_set v' in
      let v'' = remove_from v' i' in set_type (set_type (set_type nodes i 1) i' 2) v'' 3
