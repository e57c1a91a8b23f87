-- ===== src/Parsers/Written/Scene.antt =====
-- The scenario that ScenarioParser (momosecpp/src/ScenarioParser.cpp) makes of what Scenario::toXml
-- (momosecpp/src/Scenario.cpp) writes.
use simulations.Base.{
  ◌≡◌, refl, sym, ap, ◌∙◌, Bool, List, [], ◌∷◌, ◌++◌, append_assoc, append-nil, map, some, All,
  All-map,
}
use simulations.Floats.{Floating}
use simulations.Scenario.Queries.{Shape, circle, rectangle, Building, HotSpot, ScenText, Scenario}
use simulations.Scenario.Writing.{
  Printing, Tag, building_to_xml, text_to_xml, hot_spot_to_xml, spots_to_xml, hot_spot_list_to_xml,
  scenario_to_xml,
}
use simulations.Mobility.Route.{IsGraph}
use simulations.Parsers.Texts.{
  Extraction, Attrs, string_to_int, string_to_float, get_attr_from_name,
}
use simulations.Parsers.Scenes.{
  ScenarioParser, create_scenario, init_scenario, add_building, add_hot_spot, add_scen_text,
  scenario_start_element,
}
use simulations.Parsers.Scenes.Graph.{parse_scenes}
use simulations.Parsers.Written.{IsReading, IsRead}
use simulations.Parsers.Written.Buildings.{
  mirrored, BuildingIsRead, create_scen_circle-written, create_scen_rectangle-written,
}
use simulations.Parsers.Written.Texts.{
  mirrored_text, TextIsRead, SpotIsRead, create_scen_text-written, create_hot_spot-written,
}
use simulations.Parsers.Written.Spots.{bare, AreDistinct, spots_read}

module _ {F : Floating} where
  -- The scenario with green and blue in each other's place in its colours.
  abbrev pub mirrored_scenario : Scenario F → Scenario F
  mirrored_scenario s = record s {
    buildings = map mirrored s.buildings;
    texts = map mirrored_text s.texts;
  }

module _ {F : Floating} (X : Extraction F) (O : Printing F) where
  -- The numbers of the scenario come back from their text, the attenuations are shares, the scales
  -- are positive, the hot spots have different numbers, and the connections end at hot spots.
  pub record ScenarioIsRead (s : Scenario F) : Type 0 where
    pub width : IsRead X O s.width
    pub height : IsRead X O s.height
    pub buildings : All (BuildingIsRead X O) s.buildings
    pub spots : All (SpotIsRead X O) s.hot_spots
    pub texts : All (TextIsRead X O) s.texts
    pub distinct : AreDistinct s.hot_spots
    pub linked : IsGraph s.hot_spots

  -- Elements that each add one to a list.
  each_read :
      {A B : Type 0} (P : A → Type 0) (f : A → Tag) (g : A → B) (st : List B → ScenarioParser F)
      → ((a : A) (done : List B) (es : List Tag)
          → P a
          → parse_scenes X (f a ∷ es) (st done) ≡ parse_scenes X es (st (done ++ g a ∷ [])))
      → (xs : List A) (done : List B) (es : List Tag) → All P xs
      → parse_scenes X (map f xs ++ es) (st done) ≡ parse_scenes X es (st (done ++ map g xs))
  each_read P f g st one [] done es h = ap (λ bs. parse_scenes X es (st bs)) (sym (append-nil done))
  each_read P f g st one (x ∷ xs) done es h =
      one x done (map f xs ++ es) h.0
      ∙ each_read P f g st one xs (done ++ g x ∷ []) es h.1
      ∙ ap (λ bs. parse_scenes X es (st bs)) (append_assoc done (g x ∷ []) (map g xs))

  module _ (ok : IsReading X O) (file : Bool) where
    -- A parser that has read this scenario.
    has : Scenario F → ScenarioParser F
    has sc = record { scenario = some sc; scenario_file = file }

    block_read :
        (shape : Shape F) (b : Building F) (sc : Scenario F) (es : List Tag)
        → b.shape ≡ shape
        → BuildingIsRead X O b
        → parse_scenes X (building_to_xml O (record b { shape = shape }) ∷ es) (has sc)
          ≡ parse_scenes X es (has (record sc { buildings = sc.buildings ++ mirrored b ∷ [] }))
    unfolding has building_to_xml scenario_start_element add_building
    block_read (circle s) b sc es e h =
        ap (λ b'. parse_scenes X es (has (record sc { buildings = sc.buildings ++ b' ∷ [] })))
          (create_scen_circle-written X O s b ok e h)
    block_read (rectangle s) b sc es e h =
        ap (λ b'. parse_scenes X es (has (record sc { buildings = sc.buildings ++ b' ∷ [] })))
          (create_scen_rectangle-written X O s b ok e h)

    building_read :
        (sc : Scenario F) (b : Building F) (done : List (Building F)) (es : List Tag)
        → BuildingIsRead X O b
        → parse_scenes X (building_to_xml O b ∷ es) (has (record sc { buildings = done }))
          ≡ parse_scenes X es (has (record sc { buildings = done ++ mirrored b ∷ [] }))
    building_read sc b done es h = block_read b.shape b (record sc { buildings = done }) es refl h

    text_read :
        (sc : Scenario F) (t : ScenText F) (done : List (ScenText F)) (es : List Tag)
        → TextIsRead X O t
        → parse_scenes X (text_to_xml O t ∷ es) (has (record sc { texts = done }))
          ≡ parse_scenes X es (has (record sc { texts = done ++ mirrored_text t ∷ [] }))
    unfolding has text_to_xml scenario_start_element add_scen_text
    text_read sc t done es h =
        ap (λ t'. parse_scenes X es (has (record sc { texts = done ++ t' ∷ [] })))
          (create_scen_text-written X O t ok h)

    spot_read :
        (sc : Scenario F) (s : HotSpot F) (done : List (HotSpot F)) (es : List Tag)
        → SpotIsRead X O s
        → parse_scenes X (hot_spot_to_xml O s ∷ es) (has (record sc { hot_spots = done }))
          ≡ parse_scenes X es (has (record sc { hot_spots = done ++ bare s ∷ [] }))
    unfolding has hot_spot_to_xml scenario_start_element add_hot_spot
    spot_read sc s done es h =
        ap (λ s'. parse_scenes X es (has (record sc { hot_spots = done ++ s' ∷ [] })))
          (create_hot_spot-written X O s ok h)

    -- The hot spots, then their connections.
    graph_read :
        (sc : Scenario F) (spots : List (HotSpot F)) (es : List Tag)
        → All (SpotIsRead X O) spots
        → AreDistinct spots
        → IsGraph spots
        → parse_scenes X (hot_spot_list_to_xml O spots ++ es) (has (record sc { hot_spots = [] }))
          ≡ parse_scenes X es (has (record sc { hot_spots = spots }))
    unfolding has hot_spot_list_to_xml
    graph_read sc spots es read distinct linked =
        let links = spots_to_xml O spots spots in
        ap (λ ts. parse_scenes X ts (has (record sc { hot_spots = [] })))
          (append_assoc (map (hot_spot_to_xml O) spots) links es)
        ∙ each_read (SpotIsRead X O) (hot_spot_to_xml O) bare
            (λ done. has (record sc { hot_spots = done })) (λ s. spot_read sc s) spots []
            (links ++ es) read
        ∙ spots_read X O ok file sc [] spots es distinct linked (
            All-map (SpotIsRead X O) (λ s. All (λ c. IsRead X O c.weight) s.connections)
              (λ s h. h.3) spots read)

  abbrev size_attrs : Scenario F → Attrs
  size_attrs s =
      ("width", O.print_float s.width)
      ∷ ("height", O.print_float s.height)
      ∷ ("border", O.print_int s.border_type)
      ∷ []

  create_scenario-written :
      (s : Scenario F)
      → IsReading X O
      → ScenarioIsRead s
      → create_scenario X (size_attrs s) ≡ init_scenario s.width s.height s.border_type
  unfolding create_scenario string_to_float string_to_int get_attr_from_name
  create_scenario-written s ok h = rw (h.width, h.height, ok.reads s.border_type) refl

  -- Where integers are read back from their text, which has no comma, and an empty text is no
  -- number: if the numbers of a scenario, the weights of its connections among them, are read
  -- back from theirs, its attenuations lie between 0 and 1, its scales are positive, its hot
  -- spots have different numbers and its connections end at hot spots, then a parser that reads
  -- the elements which Scenario::toXml writes has that scenario, with its connections and their
  -- weights, but for its colours, which have green and blue in each other's place. Whatever
  -- scenario the parser had before is gone; its mark of the file stays.
  pub parse_scenes-scenario_to_xml :
      (s : Scenario F) (p : ScenarioParser F)
      → IsReading X O
      → ScenarioIsRead s
      → parse_scenes X (scenario_to_xml O s) p ≡ record p { scenario = some (mirrored_scenario s) }
  unfolding has scenario_to_xml scenario_start_element init_scenario
  parse_scenes-scenario_to_xml s p ok h =
      let file = p.scenario_file in
      let start = init_scenario s.width s.height s.border_type in
      let built : Scenario F = record start { buildings = map mirrored s.buildings } in
      let graph : Scenario F = record built { hot_spots = s.hot_spots } in
      let texts = map (text_to_xml O) s.texts in
      let spots = hot_spot_list_to_xml O s.hot_spots in
      let blocks = map (building_to_xml O) s.buildings in
      ap (λ sc. parse_scenes X (blocks ++ (spots ++ texts)) (has ok file sc))
        (create_scenario-written s ok h)
      ∙ each_read (BuildingIsRead X O) (building_to_xml O) mirrored
          (λ done. has ok file (record start { buildings = done }))
          (λ b. building_read ok file start b) s.buildings [] (spots ++ texts) h.buildings
      ∙ graph_read ok file built s.hot_spots texts h.spots h.distinct h.linked
      ∙ ap (λ ts. parse_scenes X ts (has ok file graph)) (sym (append-nil texts))
      ∙ each_read (TextIsRead X O) (text_to_xml O) mirrored_text
          (λ done. has ok file (record graph { texts = done })) (λ t. text_read ok file graph t)
          s.texts [] [] h.texts
