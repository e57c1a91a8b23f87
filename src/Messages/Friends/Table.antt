-- ===== src/Messages/Friends/Table.antt =====
-- What initFriendships leaves in the trust table.
use simulations.Base.{
  ℕ, zero, suc, ◌+◌, ◌-◌, ◌≤◌, ◌<◌, ◌≡◌, refl, sym, subst, ◌∙◌, some, List, ltb, ◌==◌,
  if◌then◌else◌, length, get_elem?, set, replicate, length-replicate, length-set, arith,
  get_elem?-set_self, get_elem?-set_ne, Bool, true, false, ℤ, pos, negsuc,
}
use native.Mathlib.Decide.{dec_lt, ℕ_discrete}
use simulations.Messages.Node.{NodeType, collaborator, adversary}
use simulations.Messages.Friends.{write, fill, first_value, second_value, init_trust}

pub write-some : (ts : List ℤ) (i : ℕ) (v : ℤ) → i < length ts → write ts i v ≡ some (set ts i v)
unfolding write
write-some ts i v h = ground arith

-- Within the array the loop ends, and writes its cells and no other.
pub fill-some :
    (lo count : ℕ) (v : ℤ) (ts : List ℤ)
    → lo + count ≤ length ts
    → (us : List ℤ) × (fill lo count v ts ≡ some us)
      × (length us ≡ length ts)
      × ((j : ℕ) → j < lo → get_elem? us j ≡ get_elem? ts j)
      × ((j : ℕ) → lo ≤ j → j < lo + count → get_elem? us j ≡ some v)
      × ((j : ℕ) → lo + count ≤ j → get_elem? us j ≡ get_elem? ts j)
unfolding fill
fill-some lo zero v ts h = (ts, refl, refl, λ j _. refl, λ j a b. absurd (omega arith), λ j _. refl)
fill-some lo (suc count) v ts h =
    let below = fill-some (lo + 1) count v (set ts lo v) (omega (arith, length-set ts lo v)) in
    let (us, ends, size, before, inside, after) = below in
    (
      us,
      rw (write-some ts lo v (omega arith)) ends,
      size ∙ length-set ts lo v,
      λ j b. before j (omega arith) ∙ get_elem?-set_ne ts lo j v (λ e. omega arith),
      λ j a b. elim (dec_lt lo j) [
        | yes above ↦ inside j (omega arith) (omega arith)
        | no here ↦
            let same : lo ≡ j = omega arith in
            subst (λ i. get_elem? us i ≡ some v) same
              (before lo (omega arith) ∙ get_elem?-set_self ts lo v (omega arith))
      ],
      λ j a. after j (omega arith) ∙ get_elem?-set_ne ts lo j v (λ e. omega arith),
    )

-- The first `num_adversaries` nodes are adversaries.
abbrev pub type_at : ℕ → ℕ → NodeType
type_at num_adversaries j = if ltb j num_adversaries then adversary else collaborator

abbrev pub same_type : NodeType → NodeType → Bool
same_type collaborator collaborator = true
same_type adversary adversary = true
same_type _ _ = false

-- 0 for the node itself, 1 for a node of its own type, -1 for any other.
abbrev pub expected_trust : NodeType → ℕ → ℕ → ℕ → ℤ
expected_trust type node_id num_adversaries j =
    if j == node_id
    then pos 0
    else if same_type type (type_at num_adversaries j)
    then pos 1
    else negsuc 0

cell_value :
    (type : NodeType) (num_adversaries j : ℕ)
    → (if ltb j num_adversaries then first_value type else second_value type)
      ≡ (if same_type type (type_at num_adversaries j) then pos 1 else negsuc 0)
cell_value collaborator a j = ground arith
cell_value adversary a j = ground arith

-- With at most as many adversaries as nodes, and a node among them, the trust table is built
-- without a write outside the array, has one cell for each node, and each cell holds the expected
-- trust: 0 for the node itself, 1 for a node of its type and -1 for another.
pub init_trust-table :
    (type : NodeType) (node_id num_nodes num_adversaries : ℕ)
    → num_adversaries ≤ num_nodes
    → node_id < num_nodes
    → (ts : List ℤ) × (init_trust type node_id num_nodes num_adversaries ≡ some ts)
      × (length ts ≡ num_nodes)
      × ((j : ℕ)
          → j < num_nodes
          → get_elem? ts j ≡ some (expected_trust type node_id num_adversaries j))
unfolding init_trust
init_trust-table type node_id num_nodes a h k =
    let size0 = length-replicate num_nodes (pos 0) in
    let (ts, ends, size, before, inside, after) =
      fill-some 0 a (first_value type) (replicate num_nodes (pos 0)) (omega arith) in
    let (us, ends', size', before', inside', after') =
      fill-some a (num_nodes - a) (second_value type) ts (omega arith) in
    (
      set us node_id (pos 0),
      rw (ends, ends') (write-some us node_id (pos 0) (omega arith)),
      length-set us node_id (pos 0) ∙ size' ∙ size ∙ size0,
      λ j below. elim (ℕ_discrete j node_id) [
        | yes e ↦ ground (arith, get_elem?-set_self us node_id (pos 0) (omega arith))
        | no other ↦
            get_elem?-set_ne us node_id j (pos 0) (λ e. other (sym e))
            ∙ ground (arith, before' j, inside j, inside' j, cell_value type a j)
      ],
    )

-- Friendship is symmetric: two nodes of one model trust one another alike.
pub expected_trust_comm :
    (num_adversaries i j : ℕ)
    → expected_trust (type_at num_adversaries i) i num_adversaries j
      ≡ expected_trust (type_at num_adversaries j) j num_adversaries i
expected_trust_comm a i j = ground arith
