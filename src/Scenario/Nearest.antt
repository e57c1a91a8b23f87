-- ===== src/Scenario/Nearest.antt =====
-- What getFirstCollision returns.
use simulations.Base.{
  ◌≡◌, refl, sym, ap, subst, Bool, true, false, ◌&&◌, List, [], ◌∷◌, if◌then◌else◌, Option, some,
  none, pos, Bool-cases, inl, inr, ◌⊎◌, arith, All, All-map, In,
}
use simulations.Floats.{Floating, IsOrdered}
use simulations.Geometry.{Ray2D}
use simulations.Scenario.Queries.{
  Building, shape_ray_intersect, hits, nearer, first_loop, get_first_collision,
}

both_left : (b c : Bool) → b && c ≡ true → b ≡ true
both_left true c e = refl
both_left false c e = absurd (ground arith)

both_right : (b c : Bool) → b && c ≡ true → c ≡ true
both_right true c e = e
both_right false c e = absurd (ground arith)

not_both : (b c : Bool) → b && c ≡ false → (b ≡ true) → c ≡ false
not_both true c e h = e
not_both false c e h = absurd (ground arith)

module _ {F : Floating} (ordered : IsOrdered F) (ray : Ray2D F) where
  -- Where the ray meets the building.
  abbrev pub meets : Building F → F.Float
  meets b = shape_ray_intersect b.shape ray

  -- No building that the ray hits is met before `t`.
  abbrev pub IsFirst : F.Float → List (Building F) → Type 0
  IsFirst t = All (λ c. (hits F (meets c) ≡ true) → F.flt (meets c) t ≡ false)

  abbrev Beyond : F.Float → List (Building F) → Type 0
  Beyond t = All (λ c. (hits F (meets c) ≡ true) → F.fle (meets c) t ≡ false)

  abbrev Outcome :
      Option (Building F) → F.Float → List (Building F) → Option (Building F) × F.Float → Type 0
  Outcome f t bs r =
      ((r ≡ (f, t)) × Beyond t bs)
      ⊎ ((b : Building F) × (r ≡ (some b, meets b))
          × In b bs
          × (hits F (meets b) ≡ true)
          × (F.fle (meets b) t ≡ true)
          × IsFirst (meets b) bs)

  not_le : (a b : F.Float) → F.fle a b ≡ false → F.flt a b ≡ false
  not_le a b n = elim (Bool-cases (F.flt a b)) [
    | inl l ↦ ground (arith, ordered.le_of_lt a b l)
    | inr g ↦ g
  ]

  not_before : (a b : F.Float) → F.fle b a ≡ true → F.flt a b ≡ false
  not_before a b le = elim (Bool-cases (F.flt a b)) [
    | inl l ↦ ground (arith, ordered.not-le_of_lt a b l)
    | inr g ↦ g
  ]

  beyond : (p t r : F.Float) → F.fle p t ≡ false → F.fle r t ≡ true → F.flt p r ≡ false
  beyond p t r n le = elim (Bool-cases (F.flt p r)) [
    | inl l ↦ ground (arith, ordered.le_trans p r t (ordered.le_of_lt p r l) le)
    | inr g ↦ g
  ]

  take_first :
      (f : Option (Building F)) (t : F.Float) (b : Building F) (bs : List (Building F))
      (r : Option (Building F) × F.Float)
      → hits F (meets b) ≡ true
      → F.fle (meets b) t ≡ true
      → Outcome (some b) (meets b) bs r
      → Outcome f t (b ∷ bs) r
  take_first f t b bs r hit le (inl (same, after)) = inr (
    b,
    same,
    inl refl,
    hit,
    le,
    (
      λ h. ordered.lt_irrefl (meets b),
      All-map (λ c. (hits F (meets c) ≡ true) → F.fle (meets c) (meets b) ≡ false)
          (λ c. (hits F (meets c) ≡ true) → F.flt (meets c) (meets b) ≡ false)
          (λ c after h. not_le (meets c) (meets b) (after h)) bs after,
    ),
  )
  take_first f t b bs r hit le (inr (c, same, there, h, le', first)) = inr (
    c,
    same,
    inr there,
    h,
    ordered.le_trans (meets c) (meets b) t le' le,
    (λ k. not_before (meets b) (meets c) le', first),
  )

  pass_by :
      (f : Option (Building F)) (t : F.Float) (b : Building F) (bs : List (Building F))
      (r : Option (Building F) × F.Float)
      → ((hits F (meets b) ≡ true) → F.fle (meets b) t ≡ false)
      → Outcome f t bs r
      → Outcome f t (b ∷ bs) r
  pass_by f t b bs r past (inl (same, after)) = inl (same, (past, after))
  pass_by f t b bs r past (inr (c, same, there, h, le, first)) =
      inr (c, same, inr there, h, le, (λ k. beyond (meets b) t (meets c) (past k) le, first))

  first_loop-Outcome :
      (f : Option (Building F)) (t : F.Float) (bs : List (Building F))
      → Outcome f t bs (first_loop bs ray (f, t))
  unfolding first_loop nearer
  first_loop-Outcome f t [] = inl (refl, tt)
  first_loop-Outcome f t (b ∷ bs) = elim (Bool-cases (hits F (meets b) && F.fle (meets b) t)) [
    | inl e ↦
        subst (λ s. Outcome f t (b ∷ bs) (first_loop bs ray s))
          (sym (ap (λ k. if k then (some b, meets b) else (f, t)) e))
          (take_first f t b bs (first_loop bs ray (some b, meets b))
            (both_left (hits F (meets b)) (F.fle (meets b) t) e)
            (both_right (hits F (meets b)) (F.fle (meets b) t) e)
            (first_loop-Outcome (some b) (meets b) bs))
    | inr e ↦
        subst (λ s. Outcome f t (b ∷ bs) (first_loop bs ray s))
          (sym (ap (λ k. if k then (some b, meets b) else (f, t)) e))
          (pass_by f t b bs (first_loop bs ray (f, t))
            (not_both (hits F (meets b)) (F.fle (meets b) t) e) (first_loop-Outcome f t bs))
  ]

  missed :
      (b : Building F)
      → ((hits F (meets b) ≡ true) → F.fle (meets b) (F.of_int (pos 1)) ≡ false)
      → hits F (meets b) ≡ false
  unfolding hits
  missed b h = elim (Bool-cases (hits F (meets b))) [
    | inl e ↦ ground (
      arith,
      h e,
      both_right (F.fle (F.of_int (pos 0)) (meets b)) (F.fle (meets b) (F.of_int (pos 1))) e,
    )
    | inr n ↦ n
  ]

  -- With ordered numbers, getFirstCollision returns no building, and the ray hits none; or it
  -- returns a building of the scenario that the ray hits, and no building that the ray hits is
  -- met before it.
  pub get_first_collision-nearest :
      (bs : List (Building F))
      → ((get_first_collision bs ray ≡ none) × All (λ c. hits F (meets c) ≡ false) bs)
        ⊎ ((b : Building F) × (get_first_collision bs ray ≡ some b)
            × In b bs
            × (hits F (meets b) ≡ true)
            × IsFirst (meets b) bs)
  unfolding get_first_collision
  get_first_collision-nearest bs = elim (first_loop-Outcome none (F.of_int (pos 1)) bs) [
    | inl (same, after) ↦ inl (
      ap (λ r. r.0) same,
      All-map (λ c. (hits F (meets c) ≡ true) → F.fle (meets c) (F.of_int (pos 1)) ≡ false)
          (λ c. hits F (meets c) ≡ false) missed bs after,
    )
    | inr (b, same, there, h, le, first) ↦ inr (b, ap (λ r. r.0) same, there, h, first)
  ]
