-- ===== src/Messages/Model/Known.antt =====
-- The invariant of the nodes of a MessageModel (momosecpp/src/MessageModel.cpp), by operation of a node.
use mathlib.Core.List.{reverse, Permᴰ}
use mathlib.Core.List.Permᴰ
use simulations.Base.{
  ℕ, ◌+◌, ◌*◌, ◌≤◌, ◌<◌, ◌≡◌, refl, sym, subst, ap, ◌∙◌, false, Option, none, some, List, [], ◌∷◌,
  ◌++◌, arith, length, All, All-append, All-map, drop, Bool-cases, inl, inr,
}
use simulations.Floats.{Floating}
use simulations.Messages.Store.{has_key, lookup, lookup_of_has_key, All-lookup, All-insert}
use simulations.Messages.Node.{
  MessageNode, MessageData, int_max, create_new_message, receive_message, insert_message,
  assign_temp_messages, merge_messages, merge_pending, next_uuid,
}
use simulations.Messages.Receive.{
  IsConsistent, create_new_message-IsConsistent, receive_message-IsConsistent, received,
}
use simulations.Messages.Receive.Merge.{receive_all, cleared, merge_pending-receive_all}

-- Two uuids agree only if senders and counters do.
pub uuid-injective :
    (s t k l : ℕ)
    → k < int_max
    → l < int_max
    → s * int_max + k ≡ t * int_max + l
    → (s ≡ t) × (k ≡ l)
uuid-injective s t k l hk hl e = omega arith

pub All-perm {κ} :
    {A : Type 0} (P : A → Type κ) {xs ys : List A} → Permᴰ xs ys → All P ys → All P xs
All-perm P Permᴰ.nil h = tt
All-perm P (Permᴰ.cons e p) h = (subst P (sym e) h.0, All-perm P p h.1)
All-perm P (Permᴰ.swap e f) h = (subst P (sym e) h.1.0, (subst P (sym f) h.0, h.1.1))
All-perm P (Permᴰ.trans p q) h = All-perm P p (All-perm P q h)

All-drop {κ} : {A : Type 0} (P : A → Type κ) (xs : List A) → All P xs → All P (drop 1 xs)
All-drop P [] h = tt
All-drop P (x ∷ xs) h = h.1

module _ {F : Floating} where
  -- A message that its sender has made: `made s` is the sender's counter, and the sender is one of
  -- the `count` nodes.
  abbrev pub Known : ℕ → (ℕ → ℕ) → MessageData F → Type 0
  Known count made m =
      (m.sender < count) × (k : ℕ) × (m.uuid ≡ m.sender * int_max + k) × (k < made m.sender)

  -- The messages of the map, each under its uuid.
  abbrev pub Stored : ℕ → (ℕ → ℕ) → ℕ × MessageData F → Type 0
  Stored count made (u, m) = (m.uuid ≡ u) × Known count made m

  abbrev pub Pending : ℕ → (ℕ → ℕ) → Option (List (MessageData F)) → Type 0
  Pending count made none = Unit {0}
  Pending count made (some temp) = All (Known count made) temp

  -- Node `i` of `count` nodes.
  pub record IsValid (count : ℕ) (made : ℕ → ℕ) (i : ℕ) (n : MessageNode F) : Type 0 where
    pub id : n.node_id ≡ i
    pub in_range : i < count
    pub counted : n.next_message_id ≡ made i
    pub trusts : length n.trust_distances ≡ count
    pub consistent : IsConsistent n
    pub stored : All (Stored count made) n.message_map
    pub pending : Pending count made n.temp_messages

  Known-mono :
      (count : ℕ) (made made' : ℕ → ℕ)
      → ((s : ℕ) → made s ≤ made' s)
      → (m : MessageData F) → Known count made m
      → Known count made' m
  Known-mono count made made' grow m (a, k, e, l) = (a, k, e, omega (arith, grow m.sender))

  Stored-mono :
      (count : ℕ) (made made' : ℕ → ℕ)
      → ((s : ℕ) → made s ≤ made' s)
      → (p : ℕ × MessageData F) → Stored count made p
      → Stored count made' p
  Stored-mono count made made' grow (u, m) (e, k) = (e, Known-mono count made made' grow m k)

  Pending-mono :
      (count : ℕ) (made made' : ℕ → ℕ)
      → ((s : ℕ) → made s ≤ made' s)
      → (o : Option (List (MessageData F))) → Pending count made o
      → Pending count made' o
  Pending-mono count made made' grow none h = tt
  Pending-mono count made made' grow (some temp) h =
      All-map (Known count made) (Known count made') (Known-mono count made made' grow) temp h

  pub IsValid-mono :
      (count : ℕ) (made made' : ℕ → ℕ) (i : ℕ) (n : MessageNode F)
      → ((s : ℕ) → made s ≤ made' s)
      → made' i ≡ made i
      → IsValid count made i n
      → IsValid count made' i n
  IsValid-mono count made made' i n grow same v = record {
    id = v.id;
    in_range = v.in_range;
    counted = v.counted ∙ sym same;
    trusts = v.trusts;
    consistent = v.consistent;
    stored =
        All-map (Stored count made) (Stored count made') (Stored-mono count made made' grow)
          n.message_map v.stored;
    pending = Pending-mono count made made' grow n.temp_messages v.pending;
  }

  -- As long as no counter has reached INT_MAX the next uuid is new to the node.
  next_uuid-new :
      (count : ℕ) (made : ℕ → ℕ) (i : ℕ) (n : MessageNode F)
      → ((s : ℕ) → made s < int_max)
      → IsValid count made i n
      → has_key (next_uuid n) n.message_map ≡ false
  next_uuid-new count made i n small v = elim (Bool-cases (has_key (next_uuid n) n.message_map)) [
    | inl old ↦
        let (m, e) = lookup_of_has_key (next_uuid n) n.message_map old in
        let (same, within, k, is, below) = stored_at n.message_map m v.stored e in
        absurd (clash m.sender k m.uuid same is below)
    | inr new ↦ new
  ]
    where
      stored_at :
          (entries : List (ℕ × MessageData F)) (m : MessageData F)
          → All (Stored count made) entries
          → lookup (next_uuid n) entries ≡ some m
          → (m.uuid ≡ next_uuid n)
            × (m.sender < count)
            × (k : ℕ) × (m.uuid ≡ m.sender * int_max + k)
            × (k < made m.sender)
      stored_at entries m all e =
          let (same, known) = All-lookup (Stored count made) (next_uuid n) m entries all e in
          (same, known.0, known.1, known.2, known.3)

      clash : (s k u : ℕ) → u ≡ next_uuid n → u ≡ s * int_max + k → k < made s → ⊥
      clash s k u e f below =
          let (same, equal) =
            uuid-injective n.node_id s n.next_message_id k (rw v.counted (small i))
              (omega (arith, small s)) (sym e ∙ f) in
          let g : made s ≡ made i = ap made (sym same ∙ v.id) in omega (arith, v.counted)

  pub create_new_message-IsValid :
      (now : F.Float) (count : ℕ) (made made' : ℕ → ℕ) (i : ℕ) (n : MessageNode F)
      → ((s : ℕ) → made s < int_max)
      → ((s : ℕ) → made s ≤ made' s)
      → made' i ≡ made i + 1
      → IsValid count made i n
      → IsValid count made' i (create_new_message now n)
  unfolding create_new_message
  create_new_message-IsValid now count made made' i n small grow next v = record {
    id = v.id;
    in_range = v.in_range;
    counted = omega (arith, v.counted);
    trusts = v.trusts;
    consistent =
        create_new_message-IsConsistent now n v.consistent (next_uuid-new count made i n small v);
    stored =
        All-insert (Stored count made') (next_uuid n) _ n.message_map
          (
            refl,
            (rw v.id v.in_range, n.next_message_id, refl, (rw v.id (omega (arith, v.counted)))),
          )
          (All-map (Stored count made) (Stored count made') (Stored-mono count made made' grow)
            n.message_map v.stored);
    pending = Pending-mono count made made' grow n.temp_messages v.pending;
  }

  pub receive_message-IsValid :
      (now : F.Float) (count : ℕ) (made : ℕ → ℕ) (i : ℕ) (n : MessageNode F) (m : MessageData F)
      → Known count made m
      → IsValid count made i n
      → IsValid count made i (receive_message now n m)
  unfolding receive_message insert_message
  receive_message-IsValid now count made i n m k v = record {
    id = v.id;
    in_range = v.in_range;
    counted = v.counted;
    trusts = v.trusts;
    consistent = receive_message-IsConsistent now n m v.consistent;
    stored =
        All-insert (Stored count made) m.uuid (received now m) n.message_map (refl, k) v.stored;
    pending = v.pending;
  }

  receive_all-IsValid :
      (now : F.Float) (count : ℕ) (made : ℕ → ℕ) (i : ℕ) (msgs : List (MessageData F))
      (n : MessageNode F)
      → All (Known count made) msgs
      → IsValid count made i n
      → IsValid count made i (receive_all now msgs n)
  receive_all-IsValid now count made i [] n k v = v
  receive_all-IsValid now count made i (m ∷ msgs) n k v =
      receive_all-IsValid now count made i msgs (receive_message now n m) k.1
        (receive_message-IsValid now count made i n m k.0 v)

  cleared-IsValid :
      (count : ℕ) (made : ℕ → ℕ) (i : ℕ) (n : MessageNode F)
      → IsValid count made i n
      → IsValid count made i (cleared n)
  unfolding cleared
  cleared-IsValid count made i n v = record {
    id = v.id;
    in_range = v.in_range;
    counted = v.counted;
    trusts = v.trusts;
    consistent = record {
      ascending = v.consistent.ascending;
      distinct = v.consistent.distinct;
      agree = v.consistent.agree;
    };
    stored = v.stored;
    pending = tt;
  }

  merge_pending-IsValid :
      (now : F.Float) (shuffled : List (MessageData F) → List (MessageData F)) (count : ℕ)
      (made : ℕ → ℕ) (i : ℕ) (o : Option (List (MessageData F))) (n : MessageNode F)
      → ((xs : List (MessageData F)) → Permᴰ (shuffled xs) xs)
      → Pending count made o
      → IsValid count made i n
      → IsValid count made i (merge_pending now shuffled o n)
  unfolding merge_pending
  merge_pending-IsValid now shuffled count made i none n perm k v = v
  merge_pending-IsValid now shuffled count made i (some temp) n perm k v =
      subst (IsValid count made i) (sym (merge_pending-receive_all now shuffled temp n)) (
        cleared-IsValid count made i _ (
          receive_all-IsValid now count made i (reverse (drop 1 (shuffled temp))) n
            (All-perm P (Permᴰ.reverse (drop 1 (shuffled temp)))
              (All-drop P (shuffled temp) (All-perm P (perm temp) k)))
            v))
    where
      P : MessageData F → Type 0
      P = Known count made

  pub merge_messages-IsValid :
      (now : F.Float) (shuffled : List (MessageData F) → List (MessageData F)) (count : ℕ)
      (made : ℕ → ℕ) (i : ℕ) (n : MessageNode F)
      → ((xs : List (MessageData F)) → Permᴰ (shuffled xs) xs)
      → IsValid count made i n
      → IsValid count made i (merge_messages now shuffled n)
  unfolding merge_messages
  merge_messages-IsValid now shuffled count made i n perm v =
      merge_pending-IsValid now shuffled count made i n.temp_messages n perm v.pending v

  pub assign_temp_messages-IsValid :
      (count : ℕ) (made : ℕ → ℕ) (i : ℕ) (n : MessageNode F) (batch : List (MessageData F))
      → All (Known count made) batch
      → IsValid count made i n
      → IsValid count made i (assign_temp_messages n batch)
  unfolding assign_temp_messages
  assign_temp_messages-IsValid count made i n batch k v = record {
    id = v.id;
    in_range = v.in_range;
    counted = v.counted;
    trusts = v.trusts;
    consistent = record {
      ascending = v.consistent.ascending;
      distinct = v.consistent.distinct;
      agree = v.consistent.agree;
    };
    stored = v.stored;
    pending = joined n.temp_messages v.pending;
  }
    where
      joined :
          (o : Option (List (MessageData F)))
          → Pending count made o
          → Pending count made (elim o [ none ↦ some batch | some old ↦ some (old ++ batch) ])
      joined none h = k
      joined (some old) h = All-append (Known count made) old batch h k
