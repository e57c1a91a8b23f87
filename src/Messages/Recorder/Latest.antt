-- ===== src/Messages/Recorder/Latest.antt =====
-- The latest creation time that writeBaseNode (momosecpp/src/MessageRecorder.cpp) finds.
use simulations.Base.{
  ℕ, ◌≡◌, refl, sym, subst, ◌∙◌, ◌⊎◌, inl, inr, true, false, if◌then◌else◌, List, [], ◌∷◌, pos,
  arith, All, All-map, In, Bool-cases,
}
use simulations.Floats.{Floating, IsOrdered}
use simulations.Messages.Node.{MessageNode, MessageData}
use simulations.Messages.Recorder.{max_in_map, max_creation_time}

module _ (F : Floating) where
  abbrev Entry : Type 0
  Entry = ℕ × MessageData F

  abbrev pub IsNotAfter : F.Float → List Entry → Type 0
  IsNotAfter t = All (λ e. F.flt t e.1.creation_time ≡ false)

  -- A message of some node was created then.
  abbrev pub IsCreation : F.Float → List (MessageNode F) → Type 0
  IsCreation t nodes =
      (n : MessageNode F) × In n nodes × (e : Entry) × In e n.message_map × (t ≡ e.1.creation_time)

  -- The latest creation time of the messages that the nodes hold, 0 at least.
  abbrev pub IsLatest : F.Float → List (MessageNode F) → Type 0
  IsLatest t nodes =
      ((t ≡ F.of_int (pos 0)) ⊎ IsCreation t nodes)
      × (All (λ n. IsNotAfter t n.message_map) nodes)
      × ((t ≡ F.of_int (pos 0)) ⊎ (F.flt (F.of_int (pos 0)) t ≡ true))

  abbrev Grows : F.Float → F.Float → Type 0
  Grows acc t = (t ≡ acc) ⊎ (F.flt acc t ≡ true)

  abbrev larger : F.Float → F.Float → F.Float
  larger acc c = if F.flt acc c then c else acc

module _ {F : Floating} where
  max_in_map_found :
      (acc : F.Float) (entries : List (Entry F))
      → (max_in_map acc entries ≡ acc)
        ⊎ ((e : Entry F) × In e entries × (max_in_map acc entries ≡ e.1.creation_time))
  unfolding max_in_map
  max_in_map_found acc [] = inl refl
  max_in_map_found acc ((u, msg) ∷ entries) =
      elim (max_in_map_found (larger F acc msg.creation_time) entries) [
        | inr (e, within, at) ↦ inr (e, inr within, at)
        | inl same ↦ elim (Bool-cases (F.flt acc msg.creation_time)) [
          | inl later ↦ inr ((u, msg), inl refl, same ∙ rw later refl)
          | inr earlier ↦ inl (same ∙ rw earlier refl)
        ]
      ]

  max_creation_time_found :
      (acc : F.Float) (nodes : List (MessageNode F))
      → (max_creation_time acc nodes ≡ acc) ⊎ IsCreation F (max_creation_time acc nodes) nodes
  unfolding max_creation_time
  max_creation_time_found acc [] = inl refl
  max_creation_time_found acc (n ∷ nodes) =
      elim (max_creation_time_found (max_in_map acc n.message_map) nodes) [
        | inr (k, within, e, held, at) ↦ inr (k, inr within, e, held, at)
        | inl same ↦ elim (max_in_map_found acc n.message_map) [
          | inl kept ↦ inl (same ∙ kept)
          | inr (e, within, at) ↦ inr (n, inl refl, e, within, same ∙ at)
        ]
      ]

module _ {F : Floating} (order : IsOrdered F) where
  larger-Grows : (acc c : F.Float) → Grows F acc (larger F acc c)
  larger-Grows acc c = elim (Bool-cases (F.flt acc c)) [
    | inl e ↦ inr (rw e e)
    | inr e ↦ inl (rw e refl)
  ]

  Grows-trans : (a b c : F.Float) → Grows F a b → Grows F b c → Grows F a c
  Grows-trans a b c (inl e) (inl f) = inl (f ∙ e)
  Grows-trans a b c (inl e) (inr l) = inr (subst (λ t. F.flt t c ≡ true) e l)
  Grows-trans a b c (inr k) (inl f) = inr (subst (λ t. F.flt a t ≡ true) (sym f) k)
  Grows-trans a b c (inr k) (inr l) = inr (order.lt_trans a b c k l)

  -- What was not after a time is not after a later one.
  stays_not_after : (acc t c : F.Float) → Grows F acc t → F.flt acc c ≡ false → F.flt t c ≡ false
  stays_not_after acc t c (inl e) h = subst (λ a. F.flt a c ≡ false) (sym e) h
  stays_not_after acc t c (inr l) h = elim (Bool-cases (F.flt t c)) [
    | inl k ↦ absurd (ground (arith, order.lt_trans acc t c l k))
    | inr k ↦ k
  ]

  larger-not_after : (acc c : F.Float) → F.flt (larger F acc c) c ≡ false
  larger-not_after acc c = elim (Bool-cases (F.flt acc c)) [
    | inl e ↦ rw e (order.lt_irrefl c)
    | inr e ↦ rw e e
  ]

  max_in_map-Grows :
      (acc : F.Float) (entries : List (Entry F)) → Grows F acc (max_in_map acc entries)
  unfolding max_in_map
  max_in_map-Grows acc [] = inl refl
  max_in_map-Grows acc ((u, msg) ∷ entries) =
      Grows-trans acc (larger F acc msg.creation_time) _ (larger-Grows acc msg.creation_time)
        (max_in_map-Grows (larger F acc msg.creation_time) entries)

  max_in_map-IsNotAfter :
      (acc : F.Float) (entries : List (Entry F)) → IsNotAfter F (max_in_map acc entries) entries
  unfolding max_in_map
  max_in_map-IsNotAfter acc [] = tt
  max_in_map-IsNotAfter acc ((u, msg) ∷ entries) =
      let c = msg.creation_time in
      (
        stays_not_after (larger F acc c) _ c (max_in_map-Grows (larger F acc c) entries)
            (larger-not_after acc c),
        max_in_map-IsNotAfter (larger F acc c) entries,
      )

  max_creation_time-Grows :
      (acc : F.Float) (nodes : List (MessageNode F)) → Grows F acc (max_creation_time acc nodes)
  unfolding max_creation_time
  max_creation_time-Grows acc [] = inl refl
  max_creation_time-Grows acc (n ∷ nodes) =
      Grows-trans acc (max_in_map acc n.message_map) _ (max_in_map-Grows acc n.message_map)
        (max_creation_time-Grows (max_in_map acc n.message_map) nodes)

  max_creation_time-IsNotAfter :
      (acc : F.Float) (nodes : List (MessageNode F))
      → All (λ n. IsNotAfter F (max_creation_time acc nodes) n.message_map) nodes
  unfolding max_creation_time
  max_creation_time-IsNotAfter acc [] = tt
  max_creation_time-IsNotAfter acc (n ∷ nodes) =
      let first = max_in_map acc n.message_map in
      let last = max_creation_time first nodes in
      (
        All-map (λ e. F.flt first e.1.creation_time ≡ false)
            (λ e. F.flt last e.1.creation_time ≡ false)
            (λ e.
              stays_not_after first last e.1.creation_time (max_creation_time-Grows first nodes))
            n.message_map (max_in_map-IsNotAfter acc n.message_map),
        max_creation_time-IsNotAfter first nodes,
      )

  pub max_creation_time-IsLatest :
      (nodes : List (MessageNode F)) → IsLatest F (max_creation_time (F.of_int (pos 0)) nodes) nodes
  max_creation_time-IsLatest nodes = (
    max_creation_time_found (F.of_int (pos 0)) nodes,
    max_creation_time-IsNotAfter (F.of_int (pos 0)) nodes,
    max_creation_time-Grows (F.of_int (pos 0)) nodes,
  )
