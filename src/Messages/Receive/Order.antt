-- ===== src/Messages/Receive/Order.antt =====
-- The order of the messages of a node after mergeMessages (momosecpp/src/MessageNode.cpp).
use mathlib.Core.List.{reverse}
use simulations.Base.{
  ℕ, ◌≡◌, refl, sym, ap, ◌∙◌, not, some, List, [], ◌∷◌, ◌++◌, append_assoc, append-nil, contains,
  keep, keep-append, without, drop, if◌then◌else◌, Bool-cases, inl, inr, ◌==◌,
}
use simulations.Floats.{Floating}
use simulations.Messages.Node.{MessageNode, MessageData, receive_message, merge_messages}
use simulations.Messages.Receive.{
  IsConsistent, receive_message-messages, receive_message-IsConsistent,
}
use simulations.Messages.Receive.Merge.{receive_all, uuids, cleared, merge_messages-receive_all}

-- The uuids that are none of `us`.
abbrev pub others : List ℕ → List ℕ → List ℕ
others us = keep (λ x. not (contains x us))

-- Each uuid once, where it occurs last.
abbrev pub newest : List ℕ → List ℕ
newest [] = []
newest (u ∷ us) = if contains u us then newest us else u ∷ newest us

others-without : (u : ℕ) (us xs : List ℕ) → others us (without u xs) ≡ others (u ∷ us) xs
others-without u us [] = refl
others-without u us (x ∷ xs) =
    let rest = others-without u us xs in
    elim (Bool-cases (x == u)) [
      | inl e ↦ rw e rest
      | inr e ↦ elim (Bool-cases (contains x us)) [
        | inl f ↦ rw (e, f) rest
        | inr f ↦ rw (e, f) (ap (λ ys. x ∷ ys) rest)
      ]
    ]

others-none : (xs : List ℕ) → others [] xs ≡ xs
others-none [] = refl
others-none (x ∷ xs) = ap (λ ys. x ∷ ys) (others-none xs)

others-newest :
    (u : ℕ) (us ys : List ℕ) → ys ++ others us (u ∷ []) ++ newest us ≡ ys ++ newest (u ∷ us)
others-newest u us ys = elim (Bool-cases (contains u us)) [
  | inl e ↦ rw e (ap (λ zs. zs ++ newest us) (append-nil ys))
  | inr e ↦ rw e (append_assoc ys (u ∷ []) (newest us))
]

module _ {F : Floating} where
  receive_all-messages :
      (now : F.Float) (msgs : List (MessageData F)) (n : MessageNode F)
      → IsConsistent n
      → (receive_all now msgs n).messages ≡ others (uuids msgs) n.messages ++ newest (uuids msgs)
  receive_all-messages now [] n c = sym (append-nil (others [] n.messages) ∙ others-none n.messages)
  receive_all-messages now (msg ∷ msgs) n c =
      let us = uuids msgs in
      let u = msg.uuid in
      receive_all-messages now msgs (receive_message now n msg)
        (receive_message-IsConsistent now n msg c)
      ∙ ap (λ xs. others us xs ++ newest us) (receive_message-messages now n msg c)
      ∙ ap (λ xs. xs ++ newest us)
          (keep-append (λ x. not (contains x us)) (without u n.messages) (u ∷ []))
      ∙ ap (λ ys. ys ++ others us (u ∷ []) ++ newest us) (others-without u us n.messages)
      ∙ others-newest u us (others (u ∷ us) n.messages)

  -- A consistent node with pending messages that merges them lists, in this order, the uuids it
  -- had that are none of those it receives, and then the received ones, each once, where it was
  -- received last. The received ones are the shuffled pending messages but for the first, from
  -- the last one on.
  pub merge_messages-order :
      (now : F.Float) (shuffled : List (MessageData F) → List (MessageData F)) (n : MessageNode F)
      (temp : List (MessageData F))
      → IsConsistent n
      → n.temp_messages ≡ some temp
      → let received : List ℕ = uuids (reverse (drop 1 (shuffled temp))) in
        (merge_messages now shuffled n).messages ≡ others received n.messages ++ newest received
  unfolding cleared
  merge_messages-order now shuffled n temp c e =
      ap (λ m. m.messages) (merge_messages-receive_all now shuffled n temp e)
      ∙ receive_all-messages now (reverse (drop 1 (shuffled temp))) n c
