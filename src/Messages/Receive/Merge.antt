-- ===== src/Messages/Receive/Merge.antt =====
-- mergeMessages: which of the pending messages reach a node.
use mathlib.Core.List.{reverse, reverse-append, reverse-cons}
use simulations.Base.{
  ℕ, zero, suc, ◌-◌, ◌≤◌, ◌<◌, ◌≡◌, refl, sym, ap, ◌∙◌, true, ◌||◌, Option, none, some, List, [],
  ◌∷◌, ◌++◌, ◌==◌, if◌then◌else◌, arith, contains, length, get_elem?, drop, take, contains-append,
}
use simulations.Floats.{Floating}
use simulations.Messages.Store.{has_key-insert}
use simulations.Messages.Node.{
  MessageNode, MessageData, has_received_message, receive_message, receive_at, merge_loop,
  merge_pending, merge_messages,
}
use simulations.Messages.Receive.{
  IsConsistent, received, receive_message-map, receive_message-IsConsistent,
}

pub get_elem?-some {ℓ} :
    {A : Type ℓ} (xs : List A) (i : ℕ) → i < length xs → (x : A) × (get_elem? xs i ≡ some x)
get_elem?-some [] i h = absurd (omega arith)
get_elem?-some (x ∷ xs) zero h = (x, refl)
get_elem?-some (x ∷ xs) (suc i) h = get_elem?-some xs i (omega arith)

take-suc {ℓ} :
    {A : Type ℓ} (xs : List A) (i : ℕ) (x : A)
    → get_elem? xs i ≡ some x
    → take (suc i) xs ≡ take i xs ++ x ∷ []
take-suc [] i x e = cc
take-suc (y ∷ xs) zero x e = ground arith
take-suc (y ∷ xs) (suc i) x e = ap (λ l. y ∷ l) (take-suc xs i x e)

take-length {ℓ} : {A : Type ℓ} (xs : List A) → take (length xs) xs ≡ xs
take-length [] = refl
take-length (x ∷ xs) = ap (λ l. x ∷ l) (take-length xs)

module _ {F : Floating} where
  abbrev pub receive_all : F.Float → List (MessageData F) → MessageNode F → MessageNode F
  receive_all now [] n = n
  receive_all now (msg ∷ msgs) n = receive_all now msgs (receive_message now n msg)

  abbrev pub uuids : List (MessageData F) → List ℕ
  uuids [] = []
  uuids (msg ∷ msgs) = msg.uuid ∷ uuids msgs

  pub receive_all-IsConsistent :
      (now : F.Float) (msgs : List (MessageData F)) (n : MessageNode F)
      → IsConsistent n
      → IsConsistent (receive_all now msgs n)
  receive_all-IsConsistent now [] n c = c
  receive_all-IsConsistent now (msg ∷ msgs) n c =
      receive_all-IsConsistent now msgs (receive_message now n msg)
        (receive_message-IsConsistent now n msg c)

  has_received-receive :
      (now : F.Float) (n : MessageNode F) (msg : MessageData F) (u : ℕ)
      → IsConsistent n
      → has_received_message (receive_message now n msg) u
        ≡ (if u == msg.uuid then true else has_received_message n u)
  unfolding has_received_message
  has_received-receive now n msg u c =
      rw (receive_message-map now n msg c)
        (ground (arith, has_key-insert u msg.uuid (received now msg) n.message_map))

  has_received-receive_all :
      (now : F.Float) (msgs : List (MessageData F)) (n : MessageNode F) (u : ℕ)
      → IsConsistent n
      → has_received_message (receive_all now msgs n) u
        ≡ has_received_message n u || contains u (uuids msgs)
  has_received-receive_all now [] n u c = ground arith
  has_received-receive_all now (msg ∷ msgs) n u c =
      has_received-receive_all now msgs (receive_message now n msg) u
        (receive_message-IsConsistent now n msg c)
      ∙ rw (has_received-receive now n msg u c) (ground arith)

  abbrev pub at_front : Option (MessageData F) → List (MessageData F) → List (MessageData F)
  at_front none msgs = msgs
  at_front (some msg) msgs = msg ∷ msgs

  -- The elements at the places i, i - 1, …, 1.
  abbrev pub downward : List (MessageData F) → ℕ → List (MessageData F)
  downward temp zero = []
  downward temp (suc i) = at_front (get_elem? temp (suc i)) (downward temp i)

  receive_at-front :
      (now : F.Float) (o : Option (MessageData F)) (msgs : List (MessageData F)) (n : MessageNode F)
      → receive_all now msgs (receive_at now o n) ≡ receive_all now (at_front o msgs) n
  unfolding receive_at
  receive_at-front now none msgs n = refl
  receive_at-front now (some msg) msgs n = refl

  merge_loop-receive_all :
      (now : F.Float) (temp : List (MessageData F)) (i : ℕ) (n : MessageNode F)
      → merge_loop now temp i n ≡ receive_all now (downward temp i) n
  unfolding merge_loop
  merge_loop-receive_all now temp zero n = refl
  merge_loop-receive_all now temp (suc i) n =
      merge_loop-receive_all now temp i (receive_at now (get_elem? temp (suc i)) n)
      ∙ receive_at-front now (get_elem? temp (suc i)) (downward temp i) n

  downward-reverse :
      (x : MessageData F) (xs : List (MessageData F)) (i : ℕ)
      → i ≤ length xs
      → downward (x ∷ xs) i ≡ reverse (take i xs)
  downward-reverse x xs zero h = refl
  downward-reverse x xs (suc i) h =
      let (msg, e) = get_elem?-some xs i h in
      ap (λ o. at_front o (downward (x ∷ xs) i)) e
      ∙ ap (λ l. msg ∷ l) (downward-reverse x xs i (omega arith))
      ∙ sym (reverse-append (take i xs) (msg ∷ []))
      ∙ ap reverse (sym (take-suc xs i msg e))

  downward-drop : (t : List (MessageData F)) → downward t (length t - 1) ≡ reverse (drop 1 t)
  downward-drop [] = refl
  downward-drop (x ∷ xs) =
      let last : suc (length xs) - 1 ≡ length xs = omega arith in
      ap (downward (x ∷ xs)) last
      ∙ downward-reverse x xs (length xs) (omega arith)
      ∙ ap reverse (take-length xs)

  unfoldable pub cleared : MessageNode F → MessageNode F
  cleared n = record n { temp_messages = none }

  pub merge_pending-receive_all :
      (now : F.Float) (shuffled : List (MessageData F) → List (MessageData F))
      (temp : List (MessageData F)) (n : MessageNode F)
      → merge_pending now shuffled (some temp) n
        ≡ cleared (receive_all now (reverse (drop 1 (shuffled temp))) n)
  unfolding merge_pending cleared
  merge_pending-receive_all now shuffled temp n = ap cleared (
      merge_loop-receive_all now (shuffled temp) (length (shuffled temp) - 1) n
      ∙ ap (λ l. receive_all now l n) (downward-drop (shuffled temp)))

  -- The loop stops before index 0: all but the first of the shuffled messages are received, the
  -- last of them first.
  pub merge_messages-receive_all :
      (now : F.Float) (shuffled : List (MessageData F) → List (MessageData F)) (n : MessageNode F)
      (temp : List (MessageData F))
      → n.temp_messages ≡ some temp
      → merge_messages now shuffled n
        ≡ cleared (receive_all now (reverse (drop 1 (shuffled temp))) n)
  unfolding merge_messages
  merge_messages-receive_all now shuffled n temp e =
      ap (λ o. merge_pending now shuffled o n) e ∙ merge_pending-receive_all now shuffled temp n

  uuids-append : (xs ys : List (MessageData F)) → uuids (xs ++ ys) ≡ uuids xs ++ uuids ys
  uuids-append [] ys = refl
  uuids-append (x ∷ xs) ys = ap (λ l. x.uuid ∷ l) (uuids-append xs ys)

  contains-uuids-reverse :
      (u : ℕ) (xs : List (MessageData F)) → contains u (uuids (reverse xs)) ≡ contains u (uuids xs)
  contains-uuids-reverse u [] = refl
  contains-uuids-reverse u (x ∷ xs) =
      ap (λ l. contains u (uuids l)) (reverse-cons x xs)
      ∙ ap (contains u) (uuids-append (reverse xs) (x ∷ []))
      ∙ ground
          (arith, contains-append u (uuids (reverse xs)) (x.uuid ∷ []), contains-uuids-reverse u xs)

  -- After mergeMessages, a consistent node with pending messages has received a uuid exactly if
  -- it had before, or the uuid is that of one of the shuffled pending messages after the first.
  pub has_received-merge :
      (now : F.Float) (shuffled : List (MessageData F) → List (MessageData F)) (n : MessageNode F)
      (temp : List (MessageData F)) (u : ℕ)
      → IsConsistent n
      → n.temp_messages ≡ some temp
      → has_received_message (merge_messages now shuffled n) u
        ≡ has_received_message n u || contains u (uuids (drop 1 (shuffled temp)))
  unfolding cleared has_received_message
  has_received-merge now shuffled n temp u c e =
      ap (λ m. has_received_message m u) (merge_messages-receive_all now shuffled n temp e)
      ∙ has_received-receive_all now (reverse (drop 1 (shuffled temp))) n u c
      ∙ ap (λ b. has_received_message n u || b) (contains-uuids-reverse u (drop 1 (shuffled temp)))
