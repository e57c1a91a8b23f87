-- ===== src/Mobility/Spots.antt =====
-- The spot that nearestSpot (momosecpp/src/HotSpotNode.cpp) returns.
use simulations.Base.{
  ℕ, suc, ◌+◌, ◌≡◌, refl, sym, ap, ◌∙◌, subst, true, false, List, [], ◌∷◌, if◌then◌else◌, some,
  Bool-cases, inl, inr, ◌⊎◌, arith, All, get_elem?,
}
use simulations.Floats.{Floating, IsOrdered}
use simulations.Geometry.{Point2D}
use simulations.Scenario.Queries.{HotSpot}
use simulations.Mobility.HotSpots.{away, near_loop, nearest_spot}

module _ {F : Floating} (ordered : IsOrdered F) (q : Point2D F) where
  -- No spot is nearer than `d`.
  abbrev pub IsNearest : F.Float → List (HotSpot F) → Type 0
  IsNearest d = All (λ s. F.flt (away q s) d ≡ false)

  -- The best place and distance: those before the loop, or those of a nearer spot.
  abbrev Outcome : ℕ → List (HotSpot F) → ℕ × F.Float → ℕ × F.Float → Type 0
  Outcome i spots best r =
      ((r ≡ best) × IsNearest best.1 spots)
      ⊎ ((k : ℕ) × (s : HotSpot F) × (get_elem? spots k ≡ some s)
          × (r ≡ (i + k, away q s))
          × (F.flt (away q s) best.1 ≡ true)
          × IsNearest (away q s) spots)

  not_nearer : (a b : F.Float) → F.flt b a ≡ true → F.flt a b ≡ false
  not_nearer a b l = elim (Bool-cases (F.flt a b)) [
    | inl g ↦ ground (arith, ordered.lt_trans a b a g l, ordered.lt_irrefl a)
    | inr g ↦ g
  ]

  not_before : (a b c : F.Float) → F.flt b c ≡ true → F.flt a c ≡ false → F.flt a b ≡ false
  not_before a b c l n = elim (Bool-cases (F.flt a b)) [
    | inl g ↦ ground (arith, ordered.lt_trans a b c g l)
    | inr g ↦ g
  ]

  take_nearer :
      (i : ℕ) (s : HotSpot F) (spots : List (HotSpot F)) (best r : ℕ × F.Float)
      → F.flt (away q s) best.1 ≡ true
      → Outcome (suc i) spots (i, away q s) r
      → Outcome i (s ∷ spots) best r
  take_nearer i s spots best r l (inl (same, near)) =
      let place : i ≡ i + 0 = omega arith in
      inr
        (0, s, refl, same ∙ ap (λ k. (k, away q s)) place, l, (ordered.lt_irrefl (away q s), near))
  take_nearer i s spots best r l (inr (k, t, at, same, l', near)) =
      let place : suc i + k ≡ i + suc k = omega arith in
      inr (
        suc k,
        t,
        at,
        same ∙ ap (λ j. (j, away q t)) place,
        ordered.lt_trans (away q t) (away q s) best.1 l' l,
        (not_nearer (away q s) (away q t) l', near),
      )

  leave_spot :
      (i : ℕ) (s : HotSpot F) (spots : List (HotSpot F)) (best r : ℕ × F.Float)
      → F.flt (away q s) best.1 ≡ false
      → Outcome (suc i) spots best r
      → Outcome i (s ∷ spots) best r
  leave_spot i s spots best r n (inl (same, near)) = inl (same, (n, near))
  leave_spot i s spots best r n (inr (k, t, at, same, l, near)) =
      let place : suc i + k ≡ i + suc k = omega arith in
      inr (
        suc k,
        t,
        at,
        same ∙ ap (λ j. (j, away q t)) place,
        l,
        (not_before (away q s) (away q t) best.1 l n, near),
      )

  near_loop-Outcome :
      (i : ℕ) (spots : List (HotSpot F)) (best : ℕ × F.Float)
      → Outcome i spots best (near_loop q i spots best)
  unfolding near_loop
  near_loop-Outcome i [] best = inl (refl, tt)
  near_loop-Outcome i (s ∷ spots) best = elim (Bool-cases (F.flt (away q s) best.1)) [
    | inl e ↦
        subst (λ b. Outcome i (s ∷ spots) best (near_loop q (suc i) spots b))
          (sym (ap (λ t. if t then (i, away q s) else best) e))
          (take_nearer i s spots best (near_loop q (suc i) spots (i, away q s)) e
            (near_loop-Outcome (suc i) spots (i, away q s)))
    | inr e ↦
        subst (λ b. Outcome i (s ∷ spots) best (near_loop q (suc i) spots b))
          (sym (ap (λ t. if t then (i, away q s) else best) e))
          (leave_spot i s spots best (near_loop q (suc i) spots best) e
            (near_loop-Outcome (suc i) spots best))
  ]

  -- With ordered numbers, nearestSpot of at least one spot returns the place of one, and no spot
  -- is nearer to the node.
  pub nearest_spot-IsNearest :
      (s : HotSpot F) (spots : List (HotSpot F))
      → (k : ℕ) × (t : HotSpot F) × (nearest_spot (s ∷ spots) q ≡ some k)
        × (get_elem? (s ∷ spots) k ≡ some t)
        × IsNearest (away q t) (s ∷ spots)
  unfolding nearest_spot
  nearest_spot-IsNearest s spots = elim (near_loop-Outcome 0 (s ∷ spots) (0, away q s)) [
    | inl (same, near) ↦ (0, s, ap (λ r. some r.0) same, refl, near)
    | inr (k, t, at, same, l, near) ↦
        let place : 0 + k ≡ k = omega arith in
        (k, t, ap (λ r. some r.0) same ∙ ap some place, at, near)
  ]
