-- ===== src/Parsers/Written/Spots.antt =====
-- The connections that ScenarioParser (momosecpp/src/ScenarioParser.cpp) makes of what
-- Scenario::hotSpotToXml (momosecpp/src/Scenario.cpp) writes.
use mathlib.Core.Option.{map as map_option}
use simulations.Base.{
  ℕ, zero, suc, ◌<◌, ◌≡◌, refl, sym, ap, subst, ◌∙◌, Bool, true, false, if◌then◌else◌, ℤ, eqb_ℤ,
  eqb_ℤ_iff, List, [], ◌∷◌, ◌++◌, append_assoc, append-nil, map, some, get_elem?, length, All,
  get_elem?-middle, set-middle, Apart, All-elem, arith,
}
use simulations.Floats.{Floating}
use simulations.Scenario.Queries.{Connection, HotSpot, Scenario}
use simulations.Scenario.Writing.{
  Printing, Tag, connection_to_xml, connections_to_xml, spots_to_xml,
}
use simulations.Messages.Receive.Merge.{get_elem?-some}
use simulations.Parsers.Texts.{Extraction, string_to_int, string_to_float, get_attr_from_name}
use simulations.Parsers.Scenes.{
  ScenarioParser, find_spot, float_attr, connect, add_connection, create_connection,
  scenario_start_element,
}
use simulations.Parsers.Scenes.Graph.{parse_scenes}
use simulations.Parsers.Written.{IsReading, IsRead}

module _ {F : Floating} where
  abbrev pub bare : HotSpot F → HotSpot F
  bare s = record s { connections = [] }

  -- The numbers of the hot spots differ.
  abbrev pub AreDistinct : List (HotSpot F) → Type 0
  AreDistinct spots = Apart (λ a b. eqb_ℤ a.id b.id ≡ false) spots

  find_spot-here :
      (spots : List (HotSpot F)) (i : ℕ) (s : HotSpot F)
      → AreDistinct spots
      → get_elem? spots i ≡ some s
      → find_spot spots s.id ≡ some i
  unfolding find_spot
  find_spot-here [] i s distinct e = cc
  find_spot-here (t ∷ spots) zero s distinct e =
      let same : t ≡ s = ground arith in
      let hit : eqb_ℤ t.id s.id ≡ true = (eqb_ℤ_iff t.id s.id).1 (ap (λ u. u.id) same) in
      rw hit refl
  find_spot-here (t ∷ spots) (suc i) s distinct e =
      let miss : eqb_ℤ t.id s.id ≡ false =
        All-elem (λ b. eqb_ℤ t.id b.id ≡ false) spots i s distinct.0 e in
      rw (miss, find_spot-here spots i s distinct.1 e) refl

  find_spot-bare :
      (rest : List (HotSpot F)) (id : ℤ) → find_spot (map bare rest) id ≡ find_spot rest id
  unfolding find_spot
  find_spot-bare [] id = refl
  find_spot-bare (s ∷ rest) id =
      ap (λ o. if eqb_ℤ s.id id then some 0 else map_option suc o) (find_spot-bare rest id)

  -- The list on the way: a spot whose first connections are there, and those after it without any.
  abbrev partial :
      List (HotSpot F) → HotSpot F → List (Connection F) → List (HotSpot F) → List (HotSpot F)
  partial done s js rest = done ++ record s { connections = js } ∷ map bare rest

  find_spot-partial :
      (done : List (HotSpot F)) (s : HotSpot F) (js : List (Connection F)) (rest : List (HotSpot F))
      (id : ℤ)
      → find_spot (partial done s js rest) id ≡ find_spot (done ++ s ∷ rest) id
  unfolding find_spot
  find_spot-partial [] s js rest id =
      ap (λ o. if eqb_ℤ s.id id then some 0 else map_option suc o) (find_spot-bare rest id)
  find_spot-partial (t ∷ done) s js rest id =
      ap (λ o. if eqb_ℤ t.id id then some 0 else map_option suc o)
        (find_spot-partial done s js rest id)

  connect-partial :
      (done : List (HotSpot F)) (s t : HotSpot F) (js : List (Connection F))
      (rest : List (HotSpot F)) (c : Connection F)
      → AreDistinct (done ++ s ∷ rest)
      → get_elem? (done ++ s ∷ rest) c.end_spot ≡ some t
      → connect
          (partial done s js rest)
          (find_spot (partial done s js rest) s.id)
          (find_spot (partial done s js rest) t.id)
          c.weight
        ≡ partial done s (js ++ c ∷ []) rest
  connect-partial done s t js rest c distinct e =
      let from =
        find_spot-partial done s js rest s.id
        ∙ find_spot-here (done ++ s ∷ rest) (length done) s distinct
            (get_elem?-middle done rest s) in
      let to =
        find_spot-partial done s js rest t.id
        ∙ find_spot-here (done ++ s ∷ rest) c.end_spot t distinct e in
      let s' : HotSpot F = record s { connections = js } in
      rw (from, to, get_elem?-middle done (map bare rest) s')
        (set-middle done (map bare rest) s' (record s { connections = js ++ c ∷ [] }))

module _ {F : Floating} (X : Extraction F) (O : Printing F) (ok : IsReading X O) where
  -- A parser that has a scenario, whose hot spots are `spots`.
  abbrev pub scene : Bool → Scenario F → List (HotSpot F) → ScenarioParser F
  scene file sc spots = record {
    scenario = some (record sc { hot_spots = spots });
    scenario_file = file;
  }

  module _ (file : Bool) (sc : Scenario F) where
    connection_read :
        (a b : HotSpot F) (w : F.Float) (spots : List (HotSpot F)) (es : List Tag)
        → IsRead X O w
        → parse_scenes X (connection_to_xml O a.id b.id w ∷ es) (scene file sc spots)
          ≡ parse_scenes X es
              (scene file sc (connect spots (find_spot spots a.id) (find_spot spots b.id) w))
    unfolding scenario_start_element create_connection add_connection connection_to_xml
        string_to_int string_to_float float_attr get_attr_from_name
    connection_read a b w spots es weight = rw (ok.reads a.id, ok.reads b.id, weight) refl

    links_read :
        (done : List (HotSpot F)) (s : HotSpot F) (rest : List (HotSpot F))
        (js cs : List (Connection F)) (es : List Tag)
        → AreDistinct (done ++ s ∷ rest)
        → All (λ c. c.end_spot < length (done ++ s ∷ rest)) js
        → All (λ c. IsRead X O c.weight) js
        → parse_scenes X
            (connections_to_xml O (done ++ s ∷ rest) s.id js ++ es)
            (scene file sc (partial done s cs rest))
          ≡ parse_scenes X es (scene file sc (partial done s (cs ++ js) rest))
    unfolding connections_to_xml
    links_read done s rest [] cs es distinct within weights =
        ap (λ ks. parse_scenes X es (scene file sc (partial done s ks rest))) (sym (append-nil cs))
    links_read done s rest (c ∷ js) cs es distinct (below, within) (weight, weights) =
        let (t, e) = get_elem?-some (done ++ s ∷ rest) c.end_spot below in
        let others = connections_to_xml O (done ++ s ∷ rest) s.id js ++ es in
        rw e (
          connection_read s t c.weight (partial done s cs rest) others weight
          ∙ ap (λ spots. parse_scenes X others (scene file sc spots))
              (connect-partial done s t cs rest c distinct e)
          ∙ links_read done s rest js (cs ++ c ∷ []) es distinct within weights
          ∙ ap (λ ks. parse_scenes X es (scene file sc (partial done s ks rest)))
              (append_assoc cs (c ∷ []) js))

    -- Where the hot spots of the scenario are there without connections, the elements of the
    -- connections give them theirs.
    pub spots_read :
        (done rest : List (HotSpot F)) (es : List Tag)
        → AreDistinct (done ++ rest)
        → All (λ s. All (λ c. c.end_spot < length (done ++ rest)) s.connections) rest
        → All (λ s. All (λ c. IsRead X O c.weight) s.connections) rest
        → parse_scenes X
            (spots_to_xml O (done ++ rest) rest ++ es)
            (scene file sc (done ++ map bare rest))
          ≡ parse_scenes X es (scene file sc (done ++ rest))
    unfolding spots_to_xml
    spots_read done [] es distinct within weights = refl
    spots_read done (s ∷ rest) es distinct (ends, within) (weight, weights) =
        let all = done ++ s ∷ rest in
        let next = done ++ s ∷ [] in
        let same : next ++ rest ≡ all = append_assoc done (s ∷ []) rest in
        let links = connections_to_xml O all s.id s.connections in
        let later = spots_to_xml O all rest in
        let step =
          ap (λ ts. parse_scenes X ts (scene file sc (partial done s [] rest)))
            (append_assoc links later es)
          ∙ links_read done s rest s.connections [] (later ++ es) distinct ends weight in
        let moved =
          ap (λ spots. parse_scenes X (later ++ es) (scene file sc spots))
            (sym (append_assoc done (s ∷ []) (map bare rest))) in
        let rec =
          spots_read next rest es (subst AreDistinct (sym same) distinct)
            (subst (λ spots. All (λ t. All (λ c. c.end_spot < length spots) t.connections) rest)
              (sym same) within)
            weights in
        step
        ∙ moved
        ∙ (subst
            (λ spots.
              parse_scenes X (spots_to_xml O spots rest ++ es)
                (scene file sc (next ++ map bare rest))
              ≡ parse_scenes X es (scene file sc spots))
            same rec)
