-- ===== src/Parsers/Written/Texts.antt =====
-- The texts that ScenarioParser (momosecpp/src/ScenarioParser.cpp) makes of what toXml of ScenText.cpp
-- writes.
use simulations.Base.{
  All, ◌≡◌, ◌⊎◌, refl, sym, ap, ◌∙◌, true, false, not, if◌then◌else◌, pos, negsuc, [], inl, inr,
  Bool-cases,
}
use simulations.Floats.{Floating}
use simulations.Node.{Color, color}
use simulations.Scenario.Queries.{HotSpot, ScenText}
use simulations.Scenario.Writing.{Printing, written_if, differs, text_to_xml, hot_spot_to_xml}
use simulations.Parsers.Texts.{
  Extraction, Attrs, string_to_int, string_to_float, get_attr_from_name,
}
use simulations.Parsers.Colors.{get_color, color_text}
use simulations.Parsers.Scenes.{create_scen_text, create_hot_spot}
use simulations.Parsers.Written.{
  mirror, get-written_other, get-written_self, IsReading, IsRead, color_back, IsOptional,
  optional_back,
}

module _ {F : Floating} where
  abbrev pub mirrored_text : ScenText F → ScenText F
  mirrored_text t = record t { point_color = mirror t.point_color; str_color = mirror t.str_color }

module _ {F : Floating} (X : Extraction F) (O : Printing F) where
  abbrev pub TextIsRead : ScenText F → Type 0
  TextIsRead t =
      IsRead X O t.p.x
      × IsRead X O t.p.y
      × IsOptional X O t.rot (F.of_int (pos 0))
      × IsOptional X O t.scale (F.of_int (pos 1))
      × (F.flt (F.of_int (pos 0)) t.scale ≡ true)

  abbrev no_color : Color
  no_color = color (negsuc 0) (negsuc 0) (negsuc 0)

  abbrev black : Color
  black = color (pos 0) (pos 0) (pos 0)

  -- The attributes from the scale on, from the rotation on, and so on.
  scaled : ScenText F → Attrs
  scaled t = written_if (not (F.feq t.scale (F.of_int (pos 1)))) "scale" (O.print_float t.scale) []

  turned : ScenText F → Attrs
  unfolding scaled
  turned t =
      written_if (not (F.feq t.rot (F.of_int (pos 0)))) "rotation" (O.print_float t.rot) (scaled t)

  colored : ScenText F → Attrs
  unfolding turned
  colored t =
      written_if (differs t.str_color black) "strColor" (color_text O.print_int t.str_color)
        (turned t)

  pointed : ScenText F → Attrs
  unfolding colored
  pointed t =
      written_if (differs t.point_color no_color) "pointColor"
        (color_text O.print_int t.point_color) (colored t)

  lookup_scale :
      (t : ScenText F)
      → get_attr_from_name (pointed t) "scale"
        ≡ (if not (F.feq t.scale (F.of_int (pos 1))) then O.print_float t.scale else "")
  unfolding get_attr_from_name pointed
  lookup_scale t =
      get-written_other _ "pointColor" _ "scale" _ refl
      ∙ get-written_other _ "strColor" _ "scale" _ refl
      ∙ get-written_other _ "rotation" _ "scale" _ refl
      ∙ get-written_self (not (F.feq t.scale (F.of_int (pos 1)))) "scale" (O.print_float t.scale) []

  lookup_rotation :
      (t : ScenText F)
      → get_attr_from_name (pointed t) "rotation"
        ≡ (if not (F.feq t.rot (F.of_int (pos 0))) then O.print_float t.rot else "")
  unfolding get_attr_from_name pointed
  lookup_rotation t =
      get-written_other _ "pointColor" _ "rotation" _ refl
      ∙ get-written_other _ "strColor" _ "rotation" _ refl
      ∙ get-written_self (not (F.feq t.rot (F.of_int (pos 0)))) "rotation" (O.print_float t.rot) _
      ∙ ap (λ s. if not (F.feq t.rot (F.of_int (pos 0))) then O.print_float t.rot else s)
          (get-written_other _ "scale" _ "rotation" [] refl)

  lookup_str_color :
      (t : ScenText F)
      → get_attr_from_name (pointed t) "strColor"
        ≡ (if differs t.str_color black then color_text O.print_int t.str_color else "")
  unfolding get_attr_from_name pointed
  lookup_str_color t =
      get-written_other _ "pointColor" _ "strColor" _ refl
      ∙ get-written_self (differs t.str_color black) "strColor" _ _
      ∙ ap (λ s. if differs t.str_color black then color_text O.print_int t.str_color else s)
          (get-written_other _ "rotation" _ "strColor" _ refl
            ∙ get-written_other _ "scale" _ "strColor" [] refl)

  lookup_point_color :
      (t : ScenText F)
      → get_attr_from_name (pointed t) "pointColor"
        ≡ (if differs t.point_color no_color then color_text O.print_int t.point_color else "")
  unfolding get_attr_from_name pointed
  lookup_point_color t =
      get-written_self (differs t.point_color no_color) "pointColor" _ _
      ∙ ap (λ s. if differs t.point_color no_color then color_text O.print_int t.point_color else s)
          (get-written_other _ "strColor" _ "pointColor" _ refl
            ∙ get-written_other _ "rotation" _ "pointColor" _ refl
            ∙ get-written_other _ "scale" _ "pointColor" [] refl)

  -- What the parser does with a rotation other than zero, and with a scale.
  rotation_kept :
      (x : F.Float)
      → ((F.feq x (F.of_int (pos 0)) ≡ false) ⊎ (x ≡ F.of_int (pos 0)))
      → (if not (F.feq x (F.of_int (pos 0))) then x else F.of_int (pos 0)) ≡ x
  rotation_kept x (inl e) = rw e refl
  rotation_kept x (inr e) = elim (Bool-cases (F.feq x (F.of_int (pos 0)))) [
    | inl h ↦ rw h (sym e)
    | inr h ↦ rw h refl
  ]

  pub create_scen_text-written :
      (t : ScenText F)
      → IsReading X O
      → TextIsRead t
      → create_scen_text X ((text_to_xml O t).1) ≡ mirrored_text t
  unfolding text_to_xml create_scen_text get_attr_from_name string_to_float pointed
  create_scen_text-written t ok (x, y, rot, factor, positive) =
      let zero_f = F.of_int (pos 0) in
      let one_f = F.of_int (pos 1) in
      let r =
        optional_back X O (λ v. if not (F.feq v zero_f) then v else zero_f) _ t.rot zero_f ok rot
          (rotation_kept t.rot rot.1) (lookup_rotation t) in
      let s =
        optional_back X O (λ v. if F.flt zero_f v then v else one_f) _ t.scale one_f ok factor
          (rw positive refl) (lookup_scale t) in
      let f =
        ap (λ v. get_color X v no_color) (lookup_point_color t)
        ∙ color_back X O ok t.point_color no_color refl in
      let g =
        ap (λ v. get_color X v black) (lookup_str_color t)
        ∙ color_back X O ok t.str_color black refl in
      rw (x, y)
        (λ i. record {
          p = t.p;
          str = t.str;
          point_color = f i;
          str_color = g i;
          rot = r i;
          scale = s i;
        })

  abbrev pub SpotIsRead : HotSpot F → Type 0
  SpotIsRead s =
      IsRead X O s.p.x
      × IsRead X O s.p.y
      × IsRead X O s.radius
      × All (λ c. IsRead X O c.weight) s.connections

  -- A hot spot comes back without its connections.
  pub create_hot_spot-written :
      (s : HotSpot F)
      → IsReading X O
      → SpotIsRead s
      → create_hot_spot X ((hot_spot_to_xml O s).1) ≡ record s { connections = [] }
  unfolding hot_spot_to_xml create_hot_spot get_attr_from_name string_to_float string_to_int
  create_hot_spot-written s ok (x, y, r, weights) = rw (x, y, r, ok.reads s.id) refl
