-- ===== src/Messages/Recorder/Window.antt =====
-- The rows that the recorder writes.
use simulations.Base.{
  ℕ, suc, ◌+◌, ◌≤◌, ◌≡◌, refl, sym, ap, subst, Bool, true, false, List, [], ◌∷◌, if◌then◌else◌,
  drop, pos, keep, arith, AllFrom, In, In-append_cases, In-append_left, In-append_right, Bool-cases,
  inl, inr, ltb, ◌⊎◌,
}
use simulations.Floats.{Floating, IsOrdered}
use simulations.Messages.Node.{MessageNode, MessageData, is_collaborator, adversary, collaborator}
use simulations.Messages.Friends.Table.{type_at}
use simulations.Messages.Recorder.Latest.{IsLatest, max_creation_time-IsLatest}
use simulations.Messages.Recorder.{
  Row, row_of, count_adversaries, max_creation_time, min_time, max_time, is_recorded, rows_of_map,
  rows_of_nodes, write_message_info,
}

module _ {F : Floating} where
  -- Node `i` is an adversary exactly if it comes before `num_adversaries`.
  abbrev pub IsTyped : ℕ → ℕ → MessageNode F → Type 0
  IsTyped num_adversaries i n = n.node_type ≡ type_at num_adversaries i

  abbrev pub are_collaborators : List (MessageNode F) → List (MessageNode F)
  are_collaborators = keep (λ n. is_collaborator n.node_type)

  count_from :
      (a i : ℕ) (nodes : List (MessageNode F))
      → AllFrom (IsTyped a) i nodes
      → a ≤ i
      → (count_adversaries nodes ≡ 0) × (are_collaborators nodes ≡ nodes)
  unfolding count_adversaries
  count_from a i [] t h = (refl, refl)
  count_from a i (n ∷ nodes) t h =
      let rest = count_from a (suc i) nodes t.1 (omega arith) in
      let type : n.node_type ≡ collaborator = ground arith in ground arith

  -- The adversaries come first, so the loop that skips `num_adversaries` nodes skips the
  -- adversaries.
  drop-adversaries :
      (a i : ℕ) (nodes : List (MessageNode F))
      → AllFrom (IsTyped a) i nodes
      → drop (count_adversaries nodes) nodes ≡ are_collaborators nodes
  unfolding count_adversaries
  drop-adversaries a i [] t = refl
  drop-adversaries a i (n ∷ nodes) t = elim (Bool-cases (ltb i a)) [
    | inl early ↦
        let type : n.node_type ≡ adversary = ground arith in
        let rest = drop-adversaries a (suc i) nodes t.1 in
        let skip : count_adversaries nodes + 1 ≡ suc (count_adversaries nodes) = omega arith in
        rw (type, skip) rest
    | inr late ↦
        let none = count_from a i (n ∷ nodes) t (ground arith) in
        subst (λ k. drop k (n ∷ nodes) ≡ are_collaborators (n ∷ nodes)) (sym none.0) (sym none.1)
  ]

In-if_cons :
    {A : Type 0} (b : Bool) (x y : A) (ys : List A)
    → In x (if b then y ∷ ys else ys)
    → ((b ≡ true) × (x ≡ y)) ⊎ In x ys
In-if_cons true x y ys (inl e) = inl (refl, e)
In-if_cons true x y ys (inr m) = inr m
In-if_cons false x y ys m = inr m

module _ {F : Floating} (lo hi : F.Float) where
  -- The node has received the message, which was created strictly between `lo` and `hi`.
  abbrev pub IsReceivedWithin : MessageData F → Type 0
  IsReceivedWithin msg =
      (msg.outgoing ≡ false)
      × (F.flt lo msg.creation_time ≡ true)
      × (F.flt msg.creation_time hi ≡ true)

  recorded : (msg : MessageData F) → IsReceivedWithin msg → is_recorded lo hi msg ≡ true
  unfolding is_recorded
  recorded msg h = rw (h.0, h.1, h.2) refl

  recorded_only : (msg : MessageData F) → is_recorded lo hi msg ≡ true → IsReceivedWithin msg
  unfolding is_recorded
  recorded_only msg e = (ground arith, ground arith, ground arith)

  -- A received message of the map, and its row.
  abbrev pub FromMap : MessageNode F → List (ℕ × MessageData F) → Row F → Type 0
  FromMap n entries row =
      (u : ℕ) × (msg : MessageData F) × In (u, msg) entries
      × IsReceivedWithin msg
      × (row ≡ record {
        uuid = msg.uuid;
        latency = msg.latency;
        sender = msg.sender;
        recipient = n.node_id;
      })

  abbrev pub FromNodes : List (MessageNode F) → Row F → Type 0
  FromNodes nodes row = (n : MessageNode F) × In n nodes × FromMap n n.message_map row

  later :
      (n : MessageNode F) (e : ℕ × MessageData F) (entries : List (ℕ × MessageData F)) (row : Row F)
      → FromMap n entries row
      → FromMap n (e ∷ entries) row
  later n e entries row (u, msg, m, ok, same) = (u, msg, inr m, ok, same)

  rows_of_map_sound :
      (n : MessageNode F) (entries : List (ℕ × MessageData F)) (row : Row F)
      → In row (rows_of_map lo hi n entries)
      → FromMap n entries row
  unfolding rows_of_map
  rows_of_map_sound n [] row m = absurd m
  rows_of_map_sound n ((u, msg) ∷ entries) row m =
      elim (In-if_cons (is_recorded lo hi msg) row (row_of n msg) (rows_of_map lo hi n entries) m) [
        | inl (ok, same) ↦ (u, msg, inl refl, recorded_only msg ok, same)
        | inr rest ↦ later n (u, msg) entries row (rows_of_map_sound n entries row rest)
      ]

  rows_of_map_complete :
      (n : MessageNode F) (entries : List (ℕ × MessageData F)) (u : ℕ) (msg : MessageData F)
      → In (u, msg) entries
      → is_recorded lo hi msg ≡ true
      → In (row_of n msg) (rows_of_map lo hi n entries)
  unfolding rows_of_map
  rows_of_map_complete n [] u msg m ok = absurd m
  rows_of_map_complete n ((v, other) ∷ entries) u msg (inl e) ok =
      let same : msg ≡ other = ap (λ p. p.1) e in
      let first : is_recorded lo hi other ≡ true =
        subst (λ o. is_recorded lo hi o ≡ true) same ok in
      rw first (inl (ap (row_of n) same))
  rows_of_map_complete n ((v, other) ∷ entries) u msg (inr m) ok =
      let rest = rows_of_map_complete n entries u msg m ok in
      elim (Bool-cases (is_recorded lo hi other)) [
        | inl passes ↦ rw passes (inr rest)
        | inr fails ↦ rw fails rest
      ]

  rows_of_nodes_sound :
      (nodes : List (MessageNode F)) (row : Row F)
      → In row (rows_of_nodes lo hi nodes)
      → FromNodes nodes row
  unfolding rows_of_nodes
  rows_of_nodes_sound [] row m = absurd m
  rows_of_nodes_sound (n ∷ nodes) row m =
      elim (In-append_cases row (rows_of_map lo hi n n.message_map) (rows_of_nodes lo hi nodes) m) [
        | inl here ↦ (n, inl refl, rows_of_map_sound n n.message_map row here)
        | inr there ↦
            let (k, within, from) = rows_of_nodes_sound nodes row there in (k, inr within, from)
      ]

  rows_of_nodes_complete :
      (nodes : List (MessageNode F)) (row : Row F)
      → FromNodes nodes row
      → In row (rows_of_nodes lo hi nodes)
  unfolding rows_of_nodes
  rows_of_nodes_complete [] row (n, m, from) = absurd m
  rows_of_nodes_complete (k ∷ nodes) row (n, inl e, (u, msg, m, ok, same)) =
      let here : In row (rows_of_map lo hi n n.message_map) =
        subst (λ r. In r (rows_of_map lo hi n n.message_map)) (sym same)
          (rows_of_map_complete n n.message_map u msg m (recorded msg ok)) in
      In-append_left row (rows_of_map lo hi k k.message_map) (rows_of_nodes lo hi nodes)
        (subst (λ j. In row (rows_of_map lo hi j j.message_map)) e here)
  rows_of_nodes_complete (k ∷ nodes) row (n, inr m, from) =
      In-append_right row (rows_of_map lo hi k k.message_map) (rows_of_nodes lo hi nodes)
        (rows_of_nodes_complete nodes row (n, m, from))

-- The fifth and the four fifths of a time.
abbrev pub fifth : (F : Floating) → F.Float → F.Float
fifth F t = F.narrow (F.dmul (F.literal_d (pos 2) 1) (F.widen t))

abbrev pub four_fifths : (F : Floating) → F.Float → F.Float
four_fifths F t = F.narrow (F.dmul (F.literal_d (pos 8) 1) (F.widen t))

module _ {F : Floating} where
  -- If the comparisons are ordered, and the first `a` nodes are the adversaries and the others
  -- are not, then a row is written exactly if it has the uuid, latency and sender of a message in
  -- a collaborator's map, and the collaborator as its recipient, where the message was received
  -- and was created strictly between 0.2 and 0.8 times the latest creation time, or 0 where that
  -- is later.
  pub write_message_info-rows :
      (a : ℕ) (nodes : List (MessageNode F)) (row : Row F)
      → IsOrdered F
      → AllFrom (IsTyped a) 0 nodes
      → (latest : F.Float) × IsLatest F latest nodes
        × (In row (write_message_info nodes)
            → FromNodes (fifth F latest) (four_fifths F latest) (are_collaborators nodes) row)
        × (FromNodes (fifth F latest) (four_fifths F latest) (are_collaborators nodes) row
            → In row (write_message_info nodes))
  unfolding write_message_info min_time max_time
  write_message_info-rows a nodes row order typed =
      let latest = max_creation_time (F.of_int (pos 0)) nodes in
      let lo = min_time F latest in
      let hi = max_time F latest in
      let skip = drop-adversaries a 0 nodes typed in
      (
        latest,
        max_creation_time-IsLatest order nodes,
        λ m.
            rows_of_nodes_sound lo hi (are_collaborators nodes) row
              (subst (λ ns. In row (rows_of_nodes lo hi ns)) skip m),
        λ from.
            subst (λ ns. In row (rows_of_nodes lo hi ns)) (sym skip)
              (rows_of_nodes_complete lo hi (are_collaborators nodes) row from),
      )
