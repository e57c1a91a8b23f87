-- ===== src/Mobility/Guide/Extents.antt =====
-- The extent of the nodes as middlePoint has it.
use simulations.Base.{
  Bool, true, false, ◌≡◌, refl, ◌∙◌, inl, inr, Bool-cases, if◌then◌else◌, List, [], ◌∷◌, All,
}
use simulations.Floats.{Floating, IsOrdered}
use simulations.Node.{Node}
use simulations.Mobility.Guide.{Extent, extend, extend_all, at_node, extent_of}

module _ {F : Floating} (order : IsOrdered F) where
  -- `lower` replaces `a` where it is below it: nothing is below the result that was not below `a`.
  least_not_above :
      (b : Bool) (lower a c : F.Float)
      → F.flt lower a ≡ b
      → F.flt c a ≡ false
      → F.flt c (if b then lower else a) ≡ false
  least_not_above false lower a c e h = h
  least_not_above true lower a c e h = elim (Bool-cases (F.flt c lower)) [
    | inl under ↦ cc (order.lt_trans c lower a under e, h)
    | inr over ↦ over
  ]

  greatest_not_below :
      (b : Bool) (upper a c : F.Float)
      → F.flt a upper ≡ b
      → F.flt a c ≡ false
      → F.flt (if b then upper else a) c ≡ false
  greatest_not_below false upper a c e h = h
  greatest_not_below true upper a c e h = elim (Bool-cases (F.flt upper c)) [
    | inl over ↦ cc (order.lt_trans a upper c e over, h)
    | inr under ↦ under
  ]

  least_itself :
      (b : Bool) (lower a : F.Float)
      → F.flt lower a ≡ b
      → F.flt lower (if b then lower else a) ≡ false
  least_itself true lower a e = order.lt_irrefl lower
  least_itself false lower a e = e

  greatest_itself :
      (b : Bool) (upper a : F.Float)
      → F.flt a upper ≡ b
      → F.flt (if b then upper else a) upper ≡ false
  greatest_itself true upper a e = order.lt_irrefl upper
  greatest_itself false upper a e = e

  -- The node is not outside the extent to the left, to the right, or above.
  abbrev pub Covers : Extent F → Node F → Type 0
  Covers e n =
      (F.flt n.position.x e.x_min ≡ false)
      × (F.flt e.x_max n.position.x ≡ false)
      × (F.flt e.y_max n.position.y ≡ false)

  extend-Covers : (e : Extent F) (n m : Node F) → Covers e m → Covers (extend F e n) m
  unfolding extend
  extend-Covers e n m h = (
    least_not_above (F.flt n.position.x e.x_min) n.position.x e.x_min m.position.x refl h.0,
    greatest_not_below (F.flt e.x_max n.position.x) n.position.x e.x_max m.position.x refl h.1,
    greatest_not_below (F.flt e.y_max n.position.y) n.position.y e.y_max m.position.y refl h.2,
  )

  extend-Covers_self : (e : Extent F) (n : Node F) → Covers (extend F e n) n
  unfolding extend
  extend-Covers_self e n = (
    least_itself (F.flt n.position.x e.x_min) n.position.x e.x_min refl,
    greatest_itself (F.flt e.x_max n.position.x) n.position.x e.x_max refl,
    greatest_itself (F.flt e.y_max n.position.y) n.position.y e.y_max refl,
  )

  extend_all-Covers :
      (e : Extent F) (nodes : List (Node F)) (m : Node F)
      → Covers e m
      → Covers (extend_all F e nodes) m
  unfolding extend_all
  extend_all-Covers e [] m h = h
  extend_all-Covers e (n ∷ nodes) m h =
      extend_all-Covers (extend F e n) nodes m (extend-Covers e n m h)

  extend_all-All :
      (e : Extent F) (nodes : List (Node F)) → All (Covers (extend_all F e nodes)) nodes
  unfolding extend_all
  extend_all-All e [] = tt
  extend_all-All e (n ∷ nodes) = (
    extend_all-Covers (extend F e n) nodes n (extend-Covers_self e n),
    extend_all-All (extend F e n) nodes,
  )

  -- If the comparisons are ordered, no node lies to the left of, to the right of, or above the
  -- extent that middlePoint computes of the nodes.
  pub extent_of-Covers : (nodes : List (Node F)) → All (Covers (extent_of F nodes)) nodes
  unfolding extent_of
  extent_of-Covers [] = tt
  extent_of-Covers (n ∷ nodes) = extend_all-All (at_node F n) (n ∷ nodes)

  -- `x_min` only falls.
  abbrev NotAbove : F.Float → Extent F → Type 0
  NotAbove a e = (c : F.Float) → F.flt c a ≡ false → F.flt c e.x_min ≡ false

  extend_all-y_min :
      (a : F.Float) (e : Extent F) (nodes : List (Node F))
      → NotAbove a e
      → All (λ m. F.flt m.position.y a ≡ false) nodes
      → (extend_all F e nodes).y_min ≡ e.y_min
  unfolding extend_all extend
  extend_all-y_min a e [] below high = refl
  extend_all-y_min a e (n ∷ nodes) below high =
      let below' : NotAbove a (extend F e n) = λ c h.
        least_not_above (F.flt n.position.x e.x_min) n.position.x e.x_min c refl (below c h) in
      extend_all-y_min a (extend F e n) nodes below' high.1 ∙ rw (below' n.position.y high.0) refl

  -- If the comparisons are ordered and no node's y is below the x of the first node, then the
  -- least y that middlePoint computes is the y of the first node, however low the other nodes
  -- are.
  pub extent_of-y_min :
      (n : Node F) (nodes : List (Node F))
      → All (λ m. F.flt m.position.y n.position.x ≡ false) (n ∷ nodes)
      → (extent_of F (n ∷ nodes)).y_min ≡ n.position.y
  unfolding extent_of
  extent_of-y_min n nodes high =
      extend_all-y_min n.position.x (at_node F n) (n ∷ nodes) (λ c h. h) high
