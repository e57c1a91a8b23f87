-- ===== src/Messages/Receive.antt =====
-- What createNewMessage, ReceiveMessage and mergeMessages do to the messages of a node.
pub mod Merge
pub mod Order
use mathlib.Core.List.{reverse, reverse-reverse}
use simulations.Base.{
  ℕ, zero, suc, ◌+◌, ◌-◌, ◌*◌, ◌≤◌, ◌<◌, ◌≡◌, refl, sym, ap, ◌∙◌, Bool, true, false, not, ◌&&◌,
  ◌||◌, Option, none, some, List, [], ◌∷◌, ◌++◌, ◌==◌, if◌then◌else◌, arith, Bool-cases, inl, inr,
  contains, Nodup, contains-append, contains-reverse, Nodup-snoc, Nodup-reverse, without,
  without-none, contains-without, Nodup-without, keep-reverse, All, keep, ==_iff, length,
}
use simulations.Floats.{Floating}
use simulations.Messages.Store.{
  lookup, has_key, insert, IsAscending, insert-IsAscending, insert_old, has_key-insert,
}
use simulations.Messages.Node.{
  MessageNode, MessageData, insert_message, create_new_message, next_uuid, has_received_message,
  erase_first, receive_message, num_received_messages,
}

erase_first-without : (u : ℕ) (xs : List ℕ) → Nodup xs → erase_first u xs ≡ without u xs
unfolding erase_first
erase_first-without u [] h = refl
erase_first-without u (x ∷ xs) h = ground (arith, erase_first-without u xs h.1, without-none u xs)

-- Erasing the last occurrence removes the uuid, since it occurs once.
erase_last-without :
    (u : ℕ) (xs : List ℕ) → Nodup xs → reverse (erase_first u (reverse xs)) ≡ without u xs
erase_last-without u xs h =
    ap reverse (erase_first-without u (reverse xs) (Nodup-reverse xs h))
    ∙ ap reverse (keep-reverse (λ x. not (x == u)) xs)
    ∙ reverse-reverse (without u xs)

module _ {F : Floating} where
  open F use {Float, fsub, of_int}

  -- `messages` lists each key of the map once.
  pub record IsConsistent (n : MessageNode F) : Type 0 where
    pub ascending : IsAscending n.message_map
    pub distinct : Nodup n.messages
    pub agree : (u : ℕ) → contains u n.messages ≡ has_key u n.message_map

  -- The record that ReceiveMessage makes.
  abbrev pub received : Float → MessageData F → MessageData F
  received now msg = record {
    uuid = msg.uuid;
    sender = msg.sender;
    latency = fsub now msg.creation_time;
    creation_time = msg.creation_time;
    outgoing = false;
  }

  insert_message-IsConsistent :
      (n : MessageNode F) (msg : MessageData F) (others : List ℕ)
      → IsAscending n.message_map
      → Nodup others
      → contains msg.uuid others ≡ false
      → ((u : ℕ) → (u == msg.uuid) ≡ false → contains u others ≡ has_key u n.message_map)
      → n.messages ≡ others
      → IsConsistent (insert_message n msg)
  unfolding insert_message
  insert_message-IsConsistent n msg others a d f g e = record {
    ascending = insert-IsAscending msg.uuid msg n.message_map a;
    distinct = rw e (Nodup-snoc others msg.uuid d f);
    agree = λ u. rw e (
        ground (
          arith,
          contains-append u others (msg.uuid ∷ []),
          has_key-insert u msg.uuid msg n.message_map,
          g u,
        ));
  }

  -- createNewMessage keeps a consistent node consistent, provided that the new uuid is not in its
  -- map.
  pub create_new_message-IsConsistent :
      (now : Float) (n : MessageNode F)
      → IsConsistent n
      → has_key (next_uuid n) n.message_map ≡ false
      → IsConsistent (create_new_message now n)
  unfolding create_new_message
  create_new_message-IsConsistent now n c h =
      insert_message-IsConsistent (record n { next_message_id = n.next_message_id + 1 }) _
        n.messages c.ascending c.distinct (c.agree (next_uuid n) ∙ h) (λ u e. c.agree u) refl

  -- When a consistent node receives a message, the uuid moves to the back of `messages`, whether
  -- it was there or not.
  pub receive_message-messages :
      (now : Float) (n : MessageNode F) (msg : MessageData F)
      → IsConsistent n
      → (receive_message now n msg).messages ≡ without msg.uuid n.messages ++ msg.uuid ∷ []
  unfolding receive_message
  receive_message-messages now n msg c = elim (Bool-cases (has_key msg.uuid n.message_map)) [
    | inl old ↦
        rw old (ap (λ xs. xs ++ msg.uuid ∷ []) (erase_last-without msg.uuid n.messages c.distinct))
    | inr new ↦ rw new (
        ap (λ xs. xs ++ msg.uuid ∷ [])
          (sym (without-none msg.uuid n.messages (c.agree msg.uuid ∙ new))))
  ]

  -- When a consistent node receives a message, the map gets its record if the uuid is new; else
  -- the map is unchanged, and the message keeps its first record.
  pub receive_message-map :
      (now : Float) (n : MessageNode F) (msg : MessageData F)
      → IsConsistent n
      → (receive_message now n msg).message_map ≡ (
          if has_received_message n msg.uuid
          then n.message_map
          else insert msg.uuid (received now msg) n.message_map)
  unfolding receive_message
  receive_message-map now n msg c = elim (Bool-cases (has_key msg.uuid n.message_map)) [
    | inl old ↦ rw old (insert_old msg.uuid (received now msg) n.message_map c.ascending old)
    | inr new ↦ rw new
  ]

  -- ReceiveMessage keeps a consistent node consistent: its map ascending, no uuid listed twice,
  -- and the uuids listed those of the map.
  pub receive_message-IsConsistent :
      (now : Float) (n : MessageNode F) (msg : MessageData F)
      → IsConsistent n
      → IsConsistent (receive_message now n msg)
  unfolding has_received_message
  receive_message-IsConsistent now n msg c = record {
    ascending = rw (receive_message-map now n msg c) (grown n.message_map c.ascending);
    distinct = rw (receive_message-messages now n msg c) (
        Nodup-snoc (without msg.uuid n.messages) msg.uuid
          (Nodup-without msg.uuid n.messages c.distinct) absent);
    agree = λ u.
        rw (receive_message-messages now n msg c, receive_message-map now n msg c)
          (ground (
            arith,
            contains-append u (without msg.uuid n.messages) (msg.uuid ∷ []),
            contains-without u msg.uuid n.messages,
            has_key-insert u msg.uuid (received now msg) n.message_map,
            c.agree u,
          ));
  }
    where
      absent : contains msg.uuid (without msg.uuid n.messages) ≡ false
      absent = ground (arith, contains-without msg.uuid msg.uuid n.messages)

      grown :
          (m : List (ℕ × MessageData F))
          → IsAscending m
          → IsAscending
              (if has_key msg.uuid n.message_map then m else insert msg.uuid (received now msg) m)
      grown m a = elim (Bool-cases (has_key msg.uuid n.message_map)) [
        | inl old ↦ rw old a
        | inr new ↦ rw new (insert-IsAscending msg.uuid (received now msg) m a)
      ]

  num_received-insert :
      (k : ℕ) (msg : MessageData F) (m : List (ℕ × MessageData F))
      → has_key k m ≡ false
      → num_received_messages (insert k msg m)
        ≡ num_received_messages m + (if msg.outgoing then 0 else 1)
  unfolding num_received_messages insert
  num_received-insert k msg [] h = omega arith
  num_received-insert k msg ((j, w) ∷ m) h = ground (arith, num_received-insert k msg m)

  -- A reception by a consistent node counts once in numReceivedMessages: a repeated message, and
  -- one that the node sent itself, do not count.
  pub num_received-receive :
      (now : Float) (n : MessageNode F) (msg : MessageData F)
      → IsConsistent n
      → num_received_messages (receive_message now n msg).message_map
        ≡ num_received_messages n.message_map + (if has_received_message n msg.uuid then 0 else 1)
  unfolding has_received_message
  num_received-receive now n msg c =
      rw (receive_message-map now n msg c) (elim (Bool-cases (has_key msg.uuid n.message_map)) [
        | inl old ↦ rw old (omega arith)
        | inr new ↦ rw new (num_received-insert msg.uuid (received now msg) n.message_map new)
      ])
