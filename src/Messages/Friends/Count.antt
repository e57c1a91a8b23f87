-- ===== src/Messages/Friends/Count.antt =====
-- How many friends initFriendships gives a node.
use simulations.Base.{
  ℕ, zero, suc, ◌+◌, ◌-◌, ◌≤◌, ◌<◌, ◌≡◌, refl, ◌∙◌, some, List, [], ◌∷◌, ltb, if◌then◌else◌, length,
  get_elem?, set, replicate, length-replicate, length-set, arith, get_elem?-set_ne, ℤ, pos, eqb_ℤ,
}
use simulations.Messages.Friends.{fill, first_value, second_value, init_trust, num_friends}
use simulations.Messages.Friends.Table.{write-some, fill-some, type_at}

abbrev friend : ℤ → ℕ
friend t = if eqb_ℤ t (pos 1) then 1 else 0

num_friends-replicate : (n : ℕ) → num_friends (replicate n (pos 0)) ≡ 0
unfolding num_friends
num_friends-replicate zero = refl
num_friends-replicate (suc n) = omega (arith, num_friends-replicate n)

get_elem?-replicate : (n j : ℕ) → j < n → get_elem? (replicate n (pos 0)) j ≡ some (pos 0)
get_elem?-replicate zero j h = elim h [ ]
get_elem?-replicate (suc n) zero h = refl
get_elem?-replicate (suc n) (suc j) h = get_elem?-replicate n j (omega arith)

num_friends-set :
    (ts : List ℤ) (i : ℕ) (t v : ℤ)
    → get_elem? ts i ≡ some t
    → num_friends (set ts i v) + friend t ≡ num_friends ts + friend v
unfolding num_friends
num_friends-set [] i t v h = ground arith
num_friends-set (x ∷ ts) zero t v h = ground arith
num_friends-set (x ∷ ts) (suc i) t v h = omega (arith, num_friends-set ts i t v h)

-- Over cells that hold 0 the loop makes one friend for each cell, if it writes 1.
num_friends-fill :
    (lo count : ℕ) (v : ℤ) (ts us : List ℤ)
    → lo + count ≤ length ts
    → ((j : ℕ) → lo ≤ j → j < lo + count → get_elem? ts j ≡ some (pos 0))
    → fill lo count v ts ≡ some us
    → num_friends us ≡ num_friends ts + (if eqb_ℤ v (pos 1) then count else 0)
unfolding fill
num_friends-fill lo zero v ts us h z e = ground arith
num_friends-fill lo (suc count) v ts us h z e =
    let step = num_friends-set ts lo (pos 0) v (z lo (omega arith) (omega arith)) in
    let rest =
      num_friends-fill (lo + 1) count v (set ts lo v) us (omega (arith, length-set ts lo v))
        (λ j a b.
          get_elem?-set_ne ts lo j v (λ same. omega arith) ∙ z j (omega arith) (omega arith))
        (rw (write-some ts lo v (omega arith)) at e) in
    ground arith

-- With at most as many adversaries as nodes, and a node among them whose type is that of its
-- place, numFriends of the table that is built counts the other nodes of the node's type.
pub num_friends-init_trust :
    (num_adversaries node_id num_nodes : ℕ) (ts : List ℤ)
    → num_adversaries ≤ num_nodes
    → node_id < num_nodes
    → init_trust (type_at num_adversaries node_id) node_id num_nodes num_adversaries ≡ some ts
    → num_friends ts + 1
      ≡ (if ltb node_id num_adversaries then num_adversaries else num_nodes - num_adversaries)
unfolding init_trust
num_friends-init_trust a id n ts h k e =
    let type = type_at a id in
    let zeros = replicate n (pos 0) in
    let size0 = length-replicate n (pos 0) in
    let (us, ends, size, before, inside, after) =
      fill-some 0 a (first_value type) zeros (omega arith) in
    let (ws, ends', size', before', inside', after') =
      fill-some a (n - a) (second_value type) us (omega arith) in
    let first =
      num_friends-fill 0 a (first_value type) zeros us (omega arith)
        (λ j p q. get_elem?-replicate n j (omega arith)) ends in
    let second =
      num_friends-fill a (n - a) (second_value type) us ws (omega arith)
        (λ j p q. after j (omega arith) ∙ get_elem?-replicate n j (omega arith)) ends' in
    let last = rw (ends, ends', write-some ws id (pos 0) (omega arith)) at e in
    let own : get_elem? ws id ≡ some (pos 1) = ground (arith, before' id, inside id, inside' id) in
    let drop = num_friends-set ws id (pos 1) (pos 0) own in ground (arith, num_friends-replicate n)
