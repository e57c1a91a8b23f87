-- ===== src/Parsers/Scenes/Graph.antt =====
-- The hot spots that a ScenarioParser makes (Parsers/Scenes.antt), as a graph.
use Prim.Native.String.{String}
use text.Mathlib.Text.{◌==◌ as str_eq}
use mathlib.Core.Option.{map as map_option}
use simulations.Base.{
  ℕ, suc, ◌<◌, ◌≡◌, refl, sym, subst, true, false, arith, Bool-cases, inl, inr, ℤ, List, [], ◌∷◌,
  ◌++◌, All, All-map, All-append, All-set, All-elem, length, length-append, length-set, Option,
  none, some, get_elem?, set, eqb_ℤ, Bool, ◌⊎◌, ◌≤◌, ◌∙◌, if◌then◌else◌,
}
use simulations.Floats.{Floating}
use simulations.Scenario.Queries.{Connection, HotSpot, Scenario, get_hot_spot}
use simulations.Messages.Node.{◌>>=◌}
use simulations.Mobility.Route.{IsGraph}
use simulations.Parsers.Texts.{Extraction, Attrs}
use simulations.Parsers.Scenes.{
  ScenarioParser, init_scenario_parser, on_name, mark_file, new_scenario, edit_at, find_spot,
  connect, connect_from, add_connection, add_building, add_hot_spot, add_scen_text, init_scenario,
  create_scenario, create_scen_circle, create_scen_rectangle, create_scen_text, create_hot_spot,
  create_connection, int_attr, float_attr, scenario_start_element,
}

some_or_none : {A : Type 0} (o : Option A) → (o ≡ none) ⊎ ((a : A) × (o ≡ some a))
some_or_none none = inl refl
some_or_none (some a) = inr (a, refl)

shifted-lt :
    (b : Bool) (o : Option ℕ) (n k : ℕ)
    → ((j : ℕ) → o ≡ some j → j < n)
    → (if b then some 0 else map_option suc o) ≡ some k
    → k < suc n
shifted-lt true o n k below e = ground arith
shifted-lt false none n k below e = cc
shifted-lt false (some j) n k below e =
    let same : suc j ≡ k = ground arith in let h : j < n = below j refl in omega arith

module _ {F : Floating} where
  shifted_place :
      (s : HotSpot F) (spots : List (HotSpot F)) (o : Option ℕ)
      → (map_option suc o >>= get_elem? (s ∷ spots)) ≡ (o >>= get_elem? spots)
  shifted_place s spots none = refl
  shifted_place s spots (some k) = refl

  -- The place that is connected is that of the spot which the search returns.
  pub find_spot-get_hot_spot :
      (spots : List (HotSpot F)) (id : ℤ)
      → (find_spot spots id >>= get_elem? spots) ≡ get_hot_spot spots id
  unfolding find_spot get_hot_spot
  find_spot-get_hot_spot [] id = refl
  find_spot-get_hot_spot (s ∷ spots) id = elim (Bool-cases (eqb_ℤ s.id id)) [
    | inl e ↦ rw e refl
    | inr e ↦ rw e (shifted_place s spots (find_spot spots id) ∙ find_spot-get_hot_spot spots id)
  ]

  find_spot-lt :
      (spots : List (HotSpot F)) (id : ℤ) (k : ℕ) → find_spot spots id ≡ some k → k < length spots
  unfolding find_spot
  find_spot-lt [] id k e = cc
  find_spot-lt (s ∷ spots) id k e =
      shifted-lt (eqb_ℤ s.id id) (find_spot spots id) (length spots) k (find_spot-lt spots id) e

  abbrev EndsBelow : ℕ → HotSpot F → Type 0
  EndsBelow n s = All (λ c. c.end_spot < n) s.connections

  grow :
      (n m : ℕ) (spots : List (HotSpot F))
      → n ≤ m
      → All (EndsBelow n) spots
      → All (EndsBelow m) spots
  grow n m spots h g =
      All-map (EndsBelow n) (EndsBelow m)
        (λ s.
          All-map (λ c. c.end_spot < n) (λ c. c.end_spot < m) (λ c e. omega arith) s.connections)
        spots g

  connect-IsGraph :
      (spots : List (HotSpot F)) (i j : Option ℕ) (w : F.Float)
      → IsGraph spots
      → ((k : ℕ) → j ≡ some k → k < length spots)
      → IsGraph (connect spots i j w)
  connect-IsGraph spots none j w g h = g
  connect-IsGraph spots (some i) none w g h = g
  connect-IsGraph spots (some i) (some j) w g h = elim (some_or_none (get_elem? spots i)) [
    | inl e ↦
        subst (λ o. IsGraph (connect_from o spots i (record { end_spot = j; weight = w }))) (sym e)
          g
    | inr (s, e) ↦
        let n = length spots in
        let c : Connection F = record { end_spot = j; weight = w } in
        let s' : HotSpot F = record s { connections = s.connections ++ c ∷ [] } in
        let ends : EndsBelow n s' =
          All-append (λ d. d.end_spot < n) s.connections (c ∷ [])
            (All-elem (EndsBelow n) spots i s g e) (h j refl, tt) in
        subst (λ o. IsGraph (connect_from o spots i c)) (sym e)
          (grow n (length (set spots i s')) (set spots i s') (omega (arith, length-set spots i s'))
            (All-set (EndsBelow n) spots i s' g ends))
  ]

  add-IsGraph :
      (spots : List (HotSpot F)) (s : HotSpot F)
      → s.connections ≡ []
      → IsGraph spots
      → IsGraph (spots ++ s ∷ [])
  add-IsGraph spots s fresh g =
      let m = length (spots ++ s ∷ []) in
      All-append (EndsBelow m) spots (s ∷ [])
        (grow (length spots) m spots (omega (arith, length-append spots (s ∷ []))) g)
        (subst (All (λ c. c.end_spot < m)) (sym fresh) tt, tt)

  -- There is no scenario yet, or its hot spots form a graph.
  abbrev pub IsLinked : ScenarioParser F → Type 0
  IsLinked p = (s : Scenario F) → p.scenario ≡ some s → IsGraph s.hot_spots

  edit-IsLinked :
      (f : Scenario F → Scenario F) (o : Option (Scenario F))
      → ((s : Scenario F) → IsGraph s.hot_spots → IsGraph (f s).hot_spots)
      → ((s : Scenario F) → o ≡ some s → IsGraph s.hot_spots)
      → (s : Scenario F) → map_option f o ≡ some s
      → IsGraph s.hot_spots
  edit-IsLinked f none keeps h s e = cc
  edit-IsLinked f (some t) keeps h s e =
      let same : f t ≡ s = ground arith in
      subst (λ u. IsGraph u.hot_spots) same (keeps t (h t refl))

  on_name-IsLinked :
      (name key : String) (u p : ScenarioParser F)
      → (IsLinked p → IsLinked u)
      → IsLinked p
      → IsLinked (on_name name key u p)
  on_name-IsLinked name key u p step h = elim (Bool-cases (str_eq name key)) [
    | inl e ↦ rw e (step h)
    | inr e ↦ rw e h
  ]

  edit_at-IsLinked :
      (name key : String) (f : Scenario F → Scenario F) (p : ScenarioParser F)
      → ((s : Scenario F) → IsGraph s.hot_spots → IsGraph (f s).hot_spots)
      → IsLinked p
      → IsLinked (edit_at name key f p)
  edit_at-IsLinked name key f p keeps h =
      on_name-IsLinked name key (record p { scenario = map_option f p.scenario }) p
        (λ q. edit-IsLinked f p.scenario keeps q) h

  new_scenario-IsLinked :
      (name : String) (t : Scenario F) (p : ScenarioParser F)
      → t.hot_spots ≡ []
      → IsLinked p
      → IsLinked (new_scenario name t p)
  new_scenario-IsLinked name t p empty h =
      on_name-IsLinked name "Scenario" (record p { scenario = some t }) p
        (λ q s e.
          let same : t ≡ s = ground arith in
          subst (λ u. IsGraph u.hot_spots) same (subst IsGraph (sym empty) tt))
        h

module _ {F : Floating} (X : Extraction F) where
  pub scenario_start_element-IsLinked :
      (attrs : Attrs) (name : String) (p : ScenarioParser F)
      → IsLinked p
      → IsLinked (scenario_start_element X attrs name p)
  unfolding scenario_start_element create_scenario init_scenario add_building add_hot_spot
      add_scen_text create_hot_spot create_connection add_connection
  scenario_start_element-IsLinked attrs name p h =
      let marked =
        on_name-IsLinked name "ScenarioInfo" (record p { scenario_file = true }) p (λ q. q) h in
      let made =
        new_scenario-IsLinked name (create_scenario X attrs) (mark_file name p) refl marked in
      let p2 = new_scenario name (create_scenario X attrs) (mark_file name p) in
      let boxed =
        edit_at-IsLinked name "Rect" (add_building (create_scen_rectangle X attrs)) p2 (λ s g. g)
          made in
      let p3 = edit_at name "Rect" (add_building (create_scen_rectangle X attrs)) p2 in
      let rounded =
        edit_at-IsLinked name "Circle" (add_building (create_scen_circle X attrs)) p3 (λ s g. g)
          boxed in
      let p4 = edit_at name "Circle" (add_building (create_scen_circle X attrs)) p3 in
      let written =
        edit_at-IsLinked name "Text" (add_scen_text (create_scen_text X attrs)) p4 (λ s g. g)
          rounded in
      let p5 = edit_at name "Text" (add_scen_text (create_scen_text X attrs)) p4 in
      let spotted =
        edit_at-IsLinked name "HotSpot" (add_hot_spot (create_hot_spot X attrs)) p5
          (λ s g. add-IsGraph s.hot_spots (create_hot_spot X attrs) refl g) written in
      let p6 = edit_at name "HotSpot" (add_hot_spot (create_hot_spot X attrs)) p5 in
      edit_at-IsLinked name "Connection" (create_connection X attrs) p6
        (λ s g.
          connect-IsGraph s.hot_spots (find_spot s.hot_spots (int_attr X attrs "startSpot"))
            (find_spot s.hot_spots (int_attr X attrs "endSpot")) (float_attr X attrs "weight") g
            (find_spot-lt s.hot_spots (int_attr X attrs "endSpot")))
        spotted

  -- The elements of a document, their starts in order.
  abbrev pub parse_scenes : List (String × Attrs) → ScenarioParser F → ScenarioParser F
  parse_scenes [] p = p
  parse_scenes ((name, attrs) ∷ es) p = parse_scenes es (scenario_start_element X attrs name p)

  parse_scenes-IsLinked :
      (es : List (String × Attrs)) (p : ScenarioParser F)
      → IsLinked p
      → IsLinked (parse_scenes es p)
  parse_scenes-IsLinked [] p h = h
  parse_scenes-IsLinked ((name, attrs) ∷ es) p h =
      parse_scenes-IsLinked es (scenario_start_element X attrs name p)
        (scenario_start_element-IsLinked attrs name p h)

  -- Whatever elements a new scenario parser reads, each connection of each hot spot of the
  -- scenario that it makes ends at a hot spot of that scenario.
  pub parse_scenes-IsGraph :
      (es : List (String × Attrs)) (s : Scenario F)
      → (parse_scenes es (init_scenario_parser F)).scenario ≡ some s
      → IsGraph s.hot_spots
  unfolding init_scenario_parser
  parse_scenes-IsGraph es s = parse_scenes-IsLinked es (init_scenario_parser F) (λ t e. cc) s
