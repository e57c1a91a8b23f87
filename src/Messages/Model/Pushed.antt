-- ===== src/Messages/Model/Pushed.antt =====
-- A push between two nodes of a model (pushMessagesTo of momosecpp/src/MessageNode.cpp).
use mathlib.Core.List.{reverse}
use mathlib.Core.List.Permᴰ
use simulations.Base.{
  ℕ, zero, suc, ◌≡◌, sym, ap, ◌∙◌, Bool, true, false, some, List, [], ◌∷◌, arith, length, All,
  All-append, All-map, ℤ, Bool-cases, inl, inr, contains, take,
}
use simulations.Floats.{Floating}
use simulations.Messages.Store.{has_key, lookup_of_has_key, All-lookup}
use simulations.Messages.Node.{
  MessageNode, MessageData, assign_temp_messages, NodeType, collaborator, adversary, ◌>>=◌,
}
use simulations.Messages.Friends.{trust_distance}
use simulations.Messages.Push.{push_messages_to}
use simulations.Messages.Push.Batch.{Found, wanted, to_send, batch_to_push-take}
use simulations.Messages.Receive.Merge.{get_elem?-some}
use simulations.Messages.Model.Known.{
  Known, Stored, IsValid, All-perm, assign_temp_messages-IsValid,
}

All-contains : (xs : List ℕ) → All (λ u. contains u xs ≡ true) xs
All-contains [] = tt
All-contains (x ∷ xs) = (
  ground arith,
  All-map (λ u. contains u xs ≡ true) (λ u. contains u (x ∷ xs) ≡ true) (λ u h. ground arith) xs
      (All-contains xs),
)

All-take {κ} : {A : Type 0} (P : A → Type κ) (k : ℕ) (xs : List A) → All P xs → All P (take k xs)
All-take P zero xs h = tt
All-take P (suc k) [] h = tt
All-take P (suc k) (x ∷ xs) h = (h.0, All-take P k xs h.1)

module _ {F : Floating} (count : ℕ) (made : ℕ → ℕ) where
  abbrev KnownPair : MessageData F × ℤ → Type 0
  KnownPair (m, d) = Known count made m

  -- Each uuid that the node lists resolves to a known message and a trust distance.
  Found-messages :
      (n : MessageNode F) (us : List ℕ)
      → length n.trust_distances ≡ count
      → All (Stored count made) n.message_map
      → All (λ u. has_key u n.message_map ≡ true) us
      → (ps : List (MessageData F × ℤ)) × Found n us ps × All KnownPair ps
  unfolding trust_distance
  Found-messages n [] size st h = ([], tt, tt)
  Found-messages n (u ∷ us) size st h =
      let (m, e) = lookup_of_has_key u n.message_map h.0 in
      let known = All-lookup (Stored count made) u m n.message_map st e in
      let (d, f) = get_elem?-some n.trust_distances m.sender (rw size known.1.0) in
      let (ps, found, all) = Found-messages n us size st h.1 in
      ((m, d) ∷ ps, (e, f, found), (known.1, all))

  All-wanted :
      (passes : ℤ → Bool) (ps : List (MessageData F × ℤ))
      → All KnownPair ps
      → All (Known count made) (wanted passes ps)
  All-wanted passes [] h = tt
  All-wanted passes ((m, d) ∷ ps) h = elim (Bool-cases (passes d)) [
    | inl hit ↦ rw hit (h.0, All-wanted passes ps h.1)
    | inr miss ↦ rw miss (All-wanted passes ps h.1)
  ]

  All-to_send :
      (type : NodeType) (use_friendships : Bool) (ps : List (MessageData F × ℤ))
      → All KnownPair ps
      → All (Known count made) (to_send type use_friendships ps)
  All-to_send adversary uf ps h = All-wanted _ ps h
  All-to_send collaborator true ps h =
      All-append (Known count made) _ _ (All-wanted _ ps h) (All-wanted _ ps h)
  All-to_send collaborator false ps h = All-wanted (λ d. true) ps h

  pub push_messages_to-IsValid :
      (i j limit : ℕ) (use_friendships : Bool) (n that : MessageNode F)
      → IsValid count made i n
      → IsValid count made j that
      → (that' : MessageNode F) × (push_messages_to n that limit use_friendships ≡ some that')
        × IsValid count made j that'
  unfolding push_messages_to
  push_messages_to-IsValid i j limit uf n that v w =
      let present =
        All-map (λ u. contains u n.messages ≡ true) (λ u. has_key u n.message_map ≡ true)
          (λ u h. sym (v.consistent.agree u) ∙ h) n.messages (All-contains n.messages) in
      let (ps, found, known) =
        Found-messages n (reverse n.messages) v.trusts v.stored
          (All-perm (λ u. has_key u n.message_map ≡ true) (Permᴰ.reverse n.messages) present) in
      let batch = take limit (to_send n.node_type uf ps) in
      (
        assign_temp_messages that batch,
        ap (λ b. b >>= λ sent. some (assign_temp_messages that sent))
            (batch_to_push-take n limit uf ps found),
        assign_temp_messages-IsValid count made j that batch
            (All-take (Known count made) limit _ (All-to_send n.node_type uf ps known)) w,
      )
