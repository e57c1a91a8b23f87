-- ===== src/Viewer/Memory.antt =====
-- A reader of the viewer's trace (Viewer.antt): it keeps what it was last told of a node's antenna
-- radius and colour.
use simulations.Base.{
  ◌≡◌, ◌⊎◌, inl, inr, refl, sym, ap, ◌∙◌, subst, true, negsuc, eqb_ℤ_iff, Option, none, some, arith,
  Bool-cases,
}
use simulations.Floats.{Floating}
use simulations.Node.{Node, Color, color}
use simulations.Viewer.{
  LastInfo, NodeInfo, cfr_and_swap_ar, cfr_and_swap_color, no_color, same_color, written,
  write_node,
}

-- What the reader has been told last, if anything.
pub record Memory (F : Floating) : Type 0 where
  pub ar : Option F.Float
  pub rgb : Option Color

abbrev pub hear : {A : Type 0} → Option A → Option A → Option A
hear none old = old
hear (some a) old = some a

same_color_eq : (c d : Color) → same_color c d ≡ true → c ≡ d
same_color_eq c d h =
    let r : c.red ≡ d.red = ground (arith, eqb_ℤ_iff c.red d.red) in
    let g : c.green ≡ d.green = ground (arith, eqb_ℤ_iff c.green d.green) in
    let b : c.blue ≡ d.blue = ground (arith, eqb_ℤ_iff c.blue d.blue) in
    ap (λ x. color x c.green c.blue) r
    ∙ ap (λ x. color d.red x c.blue) g
    ∙ ap (color d.red d.green) b

module _ {F : Floating} where
  abbrev pub listen : NodeInfo F → Memory F → Memory F
  listen e m = record { ar = hear e.ar m.ar; rgb = hear e.rgb m.rgb }

  -- The reader's memory of the radius is what the recorder holds, unless that was never written.
  abbrev pub KeepsAr : LastInfo F → Option F.Float → Type 0
  KeepsAr last r = (r ≡ some last.ar) ⊎ (F.feq last.ar (F.of_int (negsuc 0)) ≡ true)

  abbrev pub KeepsColor : LastInfo F → Option Color → Type 0
  KeepsColor last r = (r ≡ some last.color) ⊎ (same_color last.color no_color ≡ true)

  cfr_and_swap_ar-hear :
      (last : LastInfo F) (now : F.Float) (r : Option F.Float)
      → KeepsAr last r
      → (hear (written (cfr_and_swap_ar last now).1 now) r ≡ some (cfr_and_swap_ar last now).0.ar)
        × (((cfr_and_swap_ar last now).0.ar ≡ now)
            ⊎ (F.feq (cfr_and_swap_ar last now).0.ar now ≡ true))
        × ((cfr_and_swap_ar last now).0.color ≡ last.color)
  unfolding cfr_and_swap_ar
  cfr_and_swap_ar-hear last now r keeps = elim (Bool-cases (F.feq last.ar (F.of_int (negsuc 0)))) [
    | inl e ↦ rw e (refl, inl refl, refl)
    | inr e ↦ elim (Bool-cases (F.feq last.ar now)) [
      | inl same ↦ rw (e, same) (elim keeps [ inl k ↦ k | inr k ↦ cc ], inr same, refl)
      | inr differs ↦ rw (e, differs) (refl, inl refl, refl)
    ]
  ]

  cfr_and_swap_color-hear :
      (last : LastInfo F) (now : Color) (r : Option Color)
      → KeepsColor last r
      → (hear (written (cfr_and_swap_color last now).1 now) r ≡ some now)
        × ((cfr_and_swap_color last now).0.color ≡ now)
        × ((cfr_and_swap_color last now).0.ar ≡ last.ar)
  unfolding cfr_and_swap_color
  cfr_and_swap_color-hear last now r keeps = elim (Bool-cases (same_color last.color no_color)) [
    | inl e ↦ rw e (refl, refl, refl)
    | inr e ↦ elim (Bool-cases (same_color last.color now)) [
      | inl same ↦
          let kept = same_color_eq last.color now same in
          rw (e, same) (elim keeps [ inl k ↦ k ∙ ap some kept | inr k ↦ cc ], kept, refl)
      | inr differs ↦ rw (e, differs) (refl, refl, refl)
    ]
  ]

  -- What the reader shows of a node: its place, its colour, and a radius that is its radius, or
  -- equal to it by the machine's comparison (which 0 and -0 are).
  pub record IsShown (n : Node F) (e : NodeInfo F) (m : Memory F) : Type 0 where
    pub x : e.x ≡ n.position.x
    pub y : e.y ≡ n.position.y
    pub ar :
        (a : F.Float) × (m.ar ≡ some a)
        × ((a ≡ n.antenna_radius) ⊎ (F.feq a n.antenna_radius ≡ true))
    pub rgb : m.rgb ≡ some n.tint

  abbrev pub Keeps : LastInfo F → Memory F → Type 0
  Keeps last m = KeepsAr last m.ar × KeepsColor last m.rgb

  pub write_node-IsShown :
      (last : LastInfo F) (n : Node F) (m : Memory F)
      → Keeps last m
      → Keeps (write_node last n).0 (listen (write_node last n).1 m)
        × IsShown n (write_node last n).1 (listen (write_node last n).1 m)
  unfolding write_node
  write_node-IsShown last n m keeps =
      let p = cfr_and_swap_ar last n.antenna_radius in
      let (told, near, untouched) = cfr_and_swap_ar-hear last n.antenna_radius m.ar keeps.0 in
      let keeps_color : KeepsColor p.0 m.rgb =
        subst (λ c. (m.rgb ≡ some c) ⊎ (same_color c no_color ≡ true)) (sym untouched) keeps.1 in
      let (seen, held, left) = cfr_and_swap_color-hear p.0 n.tint m.rgb keeps_color in
      (
        (inl (told ∙ ap some (sym left)), inl (seen ∙ ap some (sym held))),
        record { x = refl; y = refl; ar = (p.0.ar, told, near); rgb = seen },
      )
