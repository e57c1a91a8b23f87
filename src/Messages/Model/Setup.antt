-- ===== src/Messages/Model/Setup.antt =====
-- MessageModel::setup: the nodes that it makes.
use simulations.Base.{
  ℕ, zero, suc, ◌+◌, ◌≤◌, ◌<◌, ◌≡◌, refl, subst, ap, some, List, [], ◌∷◌, ◌++◌, arith, length,
  length-append, get_elem?, AllFrom, AllFrom-append,
}
use simulations.Floats.{Floating}
use simulations.Random.{Random}
use simulations.Node.{set_antenna_radius}
use simulations.Messages.Node.{MessageNode}
use simulations.Messages.Friends.Table.{type_at, expected_trust, init_trust-table}
use simulations.Messages.Model.{
  MessageModel, create_message_node, set_type, setup_node, setup_loop, setup,
}
use simulations.Messages.Model.Known.{IsValid}

module _ {F : Floating} where
  -- Node `i` as `setup` leaves it: valid with no message made, of the type of its place, and with
  -- the trust of its type in every other node.
  pub record IsReady (count num_adversaries : ℕ) (i : ℕ) (n : MessageNode F) : Type 0 where
    pub valid : IsValid count (λ s. 0) i n
    pub typed : n.node_type ≡ type_at num_adversaries i
    pub table :
        (j : ℕ)
        → j < count
        → get_elem? n.trust_distances j
          ≡ some (expected_trust (type_at num_adversaries i) i num_adversaries j)

module _ {F : Floating} (R : Random) where
  setup_node-IsReady :
      (m : MessageModel F) (width height : F.Float) (i : ℕ) (rng : R.Rng)
      → m.next_node_id ≡ i
      → i < m.num_nodes
      → m.num_adversaries ≤ m.num_nodes
      → (n : MessageNode F) × (rng' : R.Rng) × (setup_node R m width height i rng ≡ some (n, rng'))
        × IsReady m.num_nodes m.num_adversaries i n
  unfolding setup_node
  setup_node-IsReady m width height i rng id within few =
      let (created, rng') = create_message_node R m width height rng in
      let placed = record created { body = set_antenna_radius F created.body m.antenna_radius } in
      let (ts, e, size, table) =
        init_trust-table (type_at m.num_adversaries i) m.next_node_id m.num_nodes m.num_adversaries
          few (rw id within) in
      (
        record (set_type R placed i m.num_adversaries) {
          num_nodes = m.num_nodes;
          trust_distances = ts;
        },
        rng',
        rw e,
        record {
          valid = record {
            id = id;
            in_range = within;
            counted = refl;
            trusts = size;
            consistent = record { ascending = tt; distinct = tt; agree = λ u. refl };
            stored = tt;
            pending = tt;
          };
          typed = refl;
          table =
              subst
                (λ k.
                  (j : ℕ)
                  → j < m.num_nodes
                  → get_elem? ts j
                    ≡ some (expected_trust (type_at m.num_adversaries i) k m.num_adversaries j))
                id table;
        },
      )

  setup_loop-IsReady :
      (m : MessageModel F) (width height : F.Float) (left i : ℕ) (nodes : List (MessageNode F))
      (rng : R.Rng)
      → m.next_node_id ≡ i
      → i + left ≡ m.num_nodes
      → m.num_adversaries ≤ m.num_nodes
      → length nodes ≡ i
      → AllFrom (IsReady m.num_nodes m.num_adversaries) 0 nodes
      → (m' : MessageModel F) × (nodes' : List (MessageNode F)) × (rng' : R.Rng) × (setup_loop R m
            width height left i nodes rng
          ≡ some (m', nodes', rng'))
        × (length nodes' ≡ m.num_nodes)
        × AllFrom (IsReady m.num_nodes m.num_adversaries) 0 nodes'
  unfolding setup_loop
  setup_loop-IsReady m width height zero i nodes rng id total few size all =
      (m, nodes, rng, refl, omega arith, all)
  setup_loop-IsReady m width height (suc left) i nodes rng id total few size all =
      let (n, rng', e, ready) = setup_node-IsReady m width height i rng id (omega arith) few in
      let place : i ≡ 0 + length nodes = omega arith in
      let (m', nodes', rng'', f, size', all') =
        setup_loop-IsReady (record m { next_node_id = suc m.next_node_id }) width height left
          (suc i) (nodes ++ n ∷ []) rng' (ap suc id) (omega arith) few
          (omega (arith, length-append nodes (n ∷ [])))
          (AllFrom-append (IsReady m.num_nodes m.num_adversaries) 0 nodes n all
            (subst (λ k. IsReady m.num_nodes m.num_adversaries k n) place ready)) in
      (m', nodes', rng'', rw e f, size', all')

  -- With at most as many adversaries as nodes, a model without a node so far is set up without a
  -- fault: as many nodes as were asked for, each valid, of the type of its place, and with the
  -- trust that its type has in each other node.
  pub setup-IsReady :
      (m : MessageModel F) (width height : F.Float) (rng : R.Rng)
      → m.next_node_id ≡ 0
      → m.num_adversaries ≤ m.num_nodes
      → (m' : MessageModel F) × (nodes : List (MessageNode F)) × (rng' : R.Rng) × (setup R m width
            height [] rng
          ≡ some (m', nodes, rng'))
        × (length nodes ≡ m.num_nodes)
        × AllFrom (IsReady m.num_nodes m.num_adversaries) 0 nodes
  unfolding setup
  setup-IsReady m width height rng id few =
      setup_loop-IsReady m width height m.num_nodes 0 [] rng id (omega arith) few refl tt
