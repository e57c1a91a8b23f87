-- ===== src/Messages/Push/Batch.antt =====
-- The batch of pushMessagesTo (momosecpp/src/MessageNode.cpp).
use mathlib.Core.List.{reverse}
use simulations.Base.{
  ℕ, zero, suc, ◌+◌, ◌-◌, ◌≡◌, refl, Bool, true, false, not, some, List, [], ◌∷◌, ◌++◌, ◌==◌,
  if◌then◌else◌, ℤ, negsuc, eqb_ℤ, take, length, arith, append_assoc, append-nil, Bool-cases, inl,
  inr, length-take-le, ◌∙◌, ap, sym,
}
use mathlib.Core.Path.{ap₂, fun_ext}
use simulations.Floats.{Floating}
use simulations.Messages.Node.{MessageNode, MessageData, NodeType, collaborator, adversary}
use simulations.Messages.Friends.{trust_distance}
use simulations.Messages.Store.{lookup}
use simulations.Messages.Push.{passes_first, passes_second, push_loop, batch_for, batch_to_push}

-- A sender at the distance -1 is no friend.
abbrev pub is_stranger : ℤ → Bool
is_stranger d = eqb_ℤ d (negsuc 0)

module _ {F : Floating} where
  -- Each uuid has its message, whose sender has its trust distance.
  abbrev pub Found : MessageNode F → List ℕ → List (MessageData F × ℤ) → Type 0
  Found n [] [] = Unit {0}
  Found n [] (p ∷ ps) = ⊥
  Found n (u ∷ us) [] = ⊥
  Found n (u ∷ us) ((m, d) ∷ ps) =
      (lookup u n.message_map ≡ some m) × (trust_distance n m.sender ≡ some d) × Found n us ps

  abbrev pub wanted : (ℤ → Bool) → List (MessageData F × ℤ) → List (MessageData F)
  wanted passes [] = []
  wanted passes ((m, d) ∷ ps) = let rest = wanted passes ps in if passes d then m ∷ rest else rest

  -- An adversary sends the messages of its friends. So does a collaborator first, if it uses
  -- friendships, and then the others; else it sends any message.
  abbrev pub to_send : NodeType → Bool → List (MessageData F × ℤ) → List (MessageData F)
  to_send adversary use_friendships ps = wanted (λ d. not (is_stranger d)) ps
  to_send collaborator true ps = wanted (λ d. not (is_stranger d)) ps ++ wanted is_stranger ps
  to_send collaborator false ps = wanted (λ d. true) ps

  take-nil : (k : ℕ) → take {A = MessageData F} k [] ≡ []
  take-nil zero = refl
  take-nil (suc k) = refl

  -- A loop takes what its test passes, up to what is left of the limit.
  push_loop-take :
      (n : MessageNode F) (passes : ℤ → Bool) (limit room : ℕ) (us : List ℕ)
      (ps : List (MessageData F × ℤ)) (batch : List (MessageData F)) (sent : ℕ)
      → Found n us ps
      → sent + room ≡ limit
      → push_loop n passes limit us batch sent
        ≡ some (batch ++ take room (wanted passes ps), sent + length (take room (wanted passes ps)))
  unfolding push_loop
  push_loop-take n passes limit room [] [] batch sent f h =
      rw (take-nil room, append-nil batch) (ap (λ k. some (batch, k)) (omega arith))
  push_loop-take n passes limit room [] (p ∷ ps) batch sent f h = absurd f
  push_loop-take n passes limit room (u ∷ us) [] batch sent f h = absurd f
  push_loop-take n passes limit zero (u ∷ us) ((m, d) ∷ ps) batch sent f h =
      let full : (sent == limit) ≡ true = ground arith in
      rw (full, push_loop) (rw (append-nil batch) (ap (λ k. some (batch, k)) (omega arith)))
  push_loop-take n passes limit (suc room) (u ∷ us) ((m, d) ∷ ps) batch sent f h =
      let open_ : (sent == limit) ≡ false = ground arith in
      rw (open_, push_loop)
        (rw (f.0, f.1)
          (elim (Bool-cases (passes d)) [
            | inl hit ↦ rw hit (
                push_loop-take n passes limit room us ps (batch ++ m ∷ []) (suc sent) f.2
                  (omega arith)
                ∙ ap₂ (λ xs k. some (xs, k)) (append_assoc batch (m ∷ []) _) (omega arith))
            | inr miss ↦ rw miss (push_loop-take n passes limit (suc room) us ps batch sent f.2 h)
          ]))

  take-append :
      (k : ℕ) (xs ys : List (MessageData F))
      → take k (xs ++ ys) ≡ take k xs ++ take (k - length (take k xs)) ys
  take-append zero xs ys = refl
  take-append (suc k) [] ys = let same : suc k ≡ suc k - 0 = omega arith in ap (λ j. take j ys) same
  take-append (suc k) (x ∷ xs) ys =
      let same : k - length (take k xs) ≡ suc k - suc (length (take k xs)) = omega arith in
      ap (λ l. x ∷ l) (take-append k xs ys ∙ ap (λ j. take k xs ++ take j ys) same)

  wanted-ext :
      (p q : ℤ → Bool)
      → ((d : ℤ) → p d ≡ q d)
      → (ps : List (MessageData F × ℤ)) → wanted p ps ≡ wanted q ps
  wanted-ext p q same ps = ap (λ r. wanted r ps) (fun_ext same)

  first_loop :
      (n : MessageNode F) (passes passes' : ℤ → Bool) (limit : ℕ) (ps : List (MessageData F × ℤ))
      → Found n (reverse n.messages) ps
      → ((d : ℤ) → passes d ≡ passes' d)
      → push_loop n passes limit (reverse n.messages) [] 0
        ≡ some (take limit (wanted passes' ps), length (take limit (wanted passes' ps)))
  first_loop n passes passes' limit ps f same =
      push_loop-take n passes limit limit (reverse n.messages) ps [] 0 f (omega arith)
      ∙ rw (wanted-ext passes passes' same ps)
          (ap (λ k. some (take limit (wanted passes' ps), k)) (omega arith))

  batch_for-take :
      (type : NodeType) (n : MessageNode F) (limit : ℕ) (use_friendships : Bool)
      (ps : List (MessageData F × ℤ))
      → Found n (reverse n.messages) ps
      → batch_for type n limit use_friendships ≡ some (take limit (to_send type use_friendships ps))
  unfolding batch_for
  batch_for-take adversary n limit uf ps f = rw (
      first_loop n (passes_first adversary uf) (λ d. not (is_stranger d)) limit ps f
        (λ d. ground arith))
  batch_for-take collaborator n limit false ps f =
      rw (first_loop n (passes_first collaborator false) (λ d. true) limit ps f (λ d. ground arith))
  batch_for-take collaborator n limit true ps f =
      let friends = wanted (λ d. not (is_stranger d)) ps in
      let others = wanted is_stranger ps in
      let sent = length (take limit friends) in
      rw
        (first_loop n (passes_first collaborator true) (λ d. not (is_stranger d)) limit ps f
          (λ d. ground arith))
        (rw
          (push_loop-take n passes_second limit (limit - sent) (reverse n.messages) ps
            (take limit friends) sent f (omega (arith, length-take-le limit friends)))
          (ap some (sym (take-append limit friends others))))

  -- If the messages of the node, newest first, are found in its map and their senders in its
  -- table, the batch that pushMessagesTo builds is what the node wants to send, cut at the limit:
  -- for a collaborator that uses friendships its friends' messages and then the others, for one
  -- that does not all messages, for an adversary its friends' messages.
  pub batch_to_push-take :
      (n : MessageNode F) (limit : ℕ) (use_friendships : Bool) (ps : List (MessageData F × ℤ))
      → Found n (reverse n.messages) ps
      → batch_to_push n limit use_friendships
        ≡ some (take limit (to_send n.node_type use_friendships ps))
  unfolding batch_to_push
  batch_to_push-take n limit uf ps f = batch_for-take n.node_type n limit uf ps f
