-- ===== src/Parsers/Written/Buildings.antt =====
-- The buildings that ScenarioParser (momosecpp/src/ScenarioParser.cpp) makes of what toXml of
-- ScenCircle.cpp and ScenRectangle.cpp writes.
use Prim.Native.String.{String}
use text.Mathlib.Text.{◌==◌ as str_eq}
use simulations.Base.{◌≡◌, refl, ap, subst, ◌∙◌, false, not, if◌then◌else◌, pos}
use simulations.Floats.{Floating}
use simulations.Node.{color}
use simulations.Scenario.Shapes.{ScenCircle, ScenRectangle}
use simulations.Scenario.Queries.{
  Shape, circle, rectangle, Building, init_building, set_attenuation,
}
use simulations.Scenario.Writing.{
  Printing, written_if, differs, paint_attrs, circle_attrs, rectangle_attrs,
}
use simulations.Parsers.Texts.{Extraction, Attrs, string_to_float, get_attr_from_name}
use simulations.Parsers.Colors.{get_color, color_text}
use simulations.Parsers.Scenes.{furnish, create_scen_circle, create_scen_rectangle}
use simulations.Parsers.Written.{
  mirror, get-written_other, get-written_self, IsReading, IsRead, color_back, float_back, name_back,
  IsOptional, optional_back,
}

module _ {F : Floating} where
  abbrev pub mirrored : Building F → Building F
  mirrored b = record b { fill = mirror b.fill; border = mirror b.border }

module _ {F : Floating} (X : Extraction F) (O : Printing F) where
  -- What the lookups in the attributes of a building give.
  record HasPaint (attrs : Attrs) (b : Building F) : Type 0 where
    name : get_attr_from_name attrs "name" ≡ (if not (str_eq b.name "") then b.name else "")
    fill : get_attr_from_name attrs "fill" ≡ (
        if differs b.fill (color (pos 128) (pos 128) (pos 128))
        then color_text O.print_int b.fill
        else "")
    border : get_attr_from_name attrs "border" ≡ (
        if differs b.border (color (pos 255) (pos 0) (pos 0))
        then color_text O.print_int b.border
        else "")
    attenuation : get_attr_from_name attrs "attenuation" ≡ O.print_float b.attenuation

  -- setAttenuation leaves the number as it is.
  abbrev pub IsShare : F.Float → Type 0
  IsShare a = (F.flt (F.of_int (pos 1)) a ≡ false) × (F.flt a (F.of_int (pos 0)) ≡ false)

  furnish_back :
      (attrs : Attrs) (b : Building F)
      → IsReading X O
      → IsRead X O b.attenuation
      → IsShare b.attenuation
      → HasPaint attrs b
      → furnish X attrs (init_building F b.shape) ≡ mirrored b
  unfolding furnish init_building set_attenuation
  furnish_back attrs b ints read share has =
      let grey = color (pos 128) (pos 128) (pos 128) in
      let red = color (pos 255) (pos 0) (pos 0) in
      let a = float_back X O _ b.attenuation has.attenuation read in
      let n = name_back X O _ b.name has.name in
      let f = ap (λ s. get_color X s grey) has.fill ∙ color_back X O ints b.fill grey refl in
      let g = ap (λ s. get_color X s red) has.border ∙ color_back X O ints b.border red refl in
      rw (a, share.0, share.1)
        (λ i. record {
          shape = b.shape;
          attenuation = b.attenuation;
          name = n i;
          fill = f i;
          border = g i;
        })

  paint_other :
      (b : Building F) (name : String)
      → str_eq "fill" name ≡ false
      → str_eq "border" name ≡ false
      → str_eq "attenuation" name ≡ false
      → get_attr_from_name (paint_attrs O b) name ≡ ""
  unfolding get_attr_from_name
  paint_other b name f g a =
      get-written_other _ "fill" _ name _ f ∙ get-written_other _ "border" _ name _ g ∙ rw a refl

  paint_fill :
      (b : Building F)
      → get_attr_from_name (paint_attrs O b) "fill" ≡ (
          if differs b.fill (color (pos 128) (pos 128) (pos 128))
          then color_text O.print_int b.fill
          else "")
  unfolding get_attr_from_name
  paint_fill b =
      get-written_self (differs b.fill (color (pos 128) (pos 128) (pos 128))) "fill" _ _
      ∙ ap
          (λ s.
            if differs b.fill (color (pos 128) (pos 128) (pos 128))
            then color_text O.print_int b.fill
            else s)
          (get-written_other _ "border" _ "fill" _ refl)

  paint_border :
      (b : Building F)
      → get_attr_from_name (paint_attrs O b) "border" ≡ (
          if differs b.border (color (pos 255) (pos 0) (pos 0))
          then color_text O.print_int b.border
          else "")
  unfolding get_attr_from_name
  paint_border b =
      get-written_other _ "fill" _ "border" _ refl
      ∙ get-written_self (differs b.border (color (pos 255) (pos 0) (pos 0))) "border" _ _

  paint_attenuation :
      (b : Building F)
      → get_attr_from_name (paint_attrs O b) "attenuation" ≡ O.print_float b.attenuation
  unfolding get_attr_from_name
  paint_attenuation b =
      get-written_other _ "fill" _ "attenuation" _ refl
      ∙ get-written_other _ "border" _ "attenuation" _ refl

  -- The name of a building, before the attributes `rest`, none of which is a name.
  named :
      (b : Building F) (rest : Attrs)
      → get_attr_from_name rest "name" ≡ ""
      → get_attr_from_name (written_if (not (str_eq b.name "")) "name" b.name rest) "name"
        ≡ (if not (str_eq b.name "") then b.name else "")
  named b rest e =
      get-written_self (not (str_eq b.name "")) "name" b.name rest
      ∙ ap (λ s. if not (str_eq b.name "") then b.name else s) e

  circle_paint : (s : ScenCircle F) (b : Building F) → HasPaint (circle_attrs O s b) b
  unfolding get_attr_from_name
  circle_paint s b = record {
    name = named b (paint_attrs O b) (paint_other b "name" refl refl refl);
    fill = get-written_other _ "name" _ "fill" _ refl ∙ paint_fill b;
    border = get-written_other _ "name" _ "border" _ refl ∙ paint_border b;
    attenuation = get-written_other _ "name" _ "attenuation" _ refl ∙ paint_attenuation b;
  }

  rectangle_paint : (s : ScenRectangle F) (b : Building F) → HasPaint (rectangle_attrs O s b) b
  unfolding get_attr_from_name
  rectangle_paint s b = record {
    name =
        named b _
          (get-written_other _ "rotation" _ "name" _ refl ∙ paint_other b "name" refl refl refl);
    fill =
        get-written_other _ "name" _ "fill" _ refl
        ∙ get-written_other _ "rotation" _ "fill" _ refl
        ∙ paint_fill b;
    border =
        get-written_other _ "name" _ "border" _ refl
        ∙ get-written_other _ "rotation" _ "border" _ refl
        ∙ paint_border b;
    attenuation =
        get-written_other _ "name" _ "attenuation" _ refl
        ∙ get-written_other _ "rotation" _ "attenuation" _ refl
        ∙ paint_attenuation b;
  }

  abbrev pub ShapeIsRead : Shape F → Type 0
  ShapeIsRead (circle s) = IsRead X O s.p.x × IsRead X O s.p.y × IsRead X O s.radius
  ShapeIsRead (rectangle s) =
      IsRead X O s.p.x
      × IsRead X O s.p.y
      × IsRead X O s.width
      × IsRead X O s.height
      × IsOptional X O s.rot_angle (F.of_int (pos 0))

  abbrev pub BuildingIsRead : Building F → Type 0
  BuildingIsRead b = ShapeIsRead b.shape × IsRead X O b.attenuation × IsShare b.attenuation

  pub create_scen_circle-written :
      (s : ScenCircle F) (b : Building F)
      → IsReading X O
      → b.shape ≡ circle s
      → BuildingIsRead b
      → create_scen_circle X (circle_attrs O s b) ≡ mirrored b
  unfolding create_scen_circle get_attr_from_name string_to_float
  create_scen_circle-written s b ok e (shape, read, share) =
      let (x, y, r) = subst ShapeIsRead e shape in
      rw (x, y, r, ← e) (furnish_back (circle_attrs O s b) b ok read share (circle_paint s b))

  rectangle_angle :
      (s : ScenRectangle F) (b : Building F)
      → get_attr_from_name (rectangle_attrs O s b) "rotation"
        ≡ (if not (F.feq s.rot_angle (F.of_int (pos 0))) then O.print_float s.rot_angle else "")
  unfolding get_attr_from_name
  rectangle_angle s b =
      get-written_other _ "name" _ "rotation" _ refl
      ∙ get-written_self (not (F.feq s.rot_angle (F.of_int (pos 0)))) "rotation"
          (O.print_float s.rot_angle) _
      ∙ ap
          (λ t. if not (F.feq s.rot_angle (F.of_int (pos 0))) then O.print_float s.rot_angle else t)
          (paint_other b "rotation" refl refl refl)

  pub create_scen_rectangle-written :
      (s : ScenRectangle F) (b : Building F)
      → IsReading X O
      → b.shape ≡ rectangle s
      → BuildingIsRead b
      → create_scen_rectangle X (rectangle_attrs O s b) ≡ mirrored b
  unfolding create_scen_rectangle get_attr_from_name string_to_float
  create_scen_rectangle-written s b ok e (shape, read, share) =
      let (x, y, w, h, angle) = subst ShapeIsRead e shape in
      let rot =
        optional_back X O (λ r. r) _ s.rot_angle (F.of_int (pos 0)) ok angle refl
          (rectangle_angle s b) in
      rw (x, y, w, h, rot, ← e)
        (furnish_back (rectangle_attrs O s b) b ok read share (rectangle_paint s b))
