-- ===== src/Tests/Rounding.antt =====
-- Fixed-point numbers round as the interface asks (Messages/Model/Build.antt).
use native.Mathlib.Nat.{mul-le-mul_right}
use simulations.Base.{
  ℕ, ◌+◌, ◌*◌, ◌/◌, ◌^◌, ◌≤◌, ◌≡◌, refl, ap, ◌∙◌, true, false, arith, ℤ, pos, negsuc, pos_part,
  neg_part, sub_ℕ,
}
use mathlib.Core.Path.{ap₂}
use simulations.Floats.{milli, scale}
use simulations.Messages.Model.Build.{IsRounding}

scale_pos : (a b c : ℕ) → (0 / c) ≡ 0 → scale (pos a) (pos b) c ≡ pos (a * b / c)
scale_pos a b c h =
    let up : a * b + 0 * 0 ≡ a * b = omega arith in
    let down : a * 0 + 0 * b ≡ 0 = omega arith in
    ap₂ (λ x y. sub_ℕ (x / c) (y / c)) up down ∙ ap (sub_ℕ (a * b / c)) h ∙ ground arith

below_zero : (z : ℕ) → pos_part (sub_ℕ 0 z) ≡ 0
below_zero z = ground arith

scale_left : (a : ℤ) (b c : ℕ) → (0 / c) ≡ 0 → pos_part a ≡ 0 → pos_part (scale a (pos b) c) ≡ 0
scale_left a b c h e =
    let up : pos_part a * b + neg_part a * 0 ≡ 0 = rw e (omega arith) in
    ap (λ x. pos_part (sub_ℕ (x / c) ((pos_part a * 0 + neg_part a * b) / c))) up
    ∙ ap (λ x. pos_part (sub_ℕ x ((pos_part a * 0 + neg_part a * b) / c))) h
    ∙ below_zero ((pos_part a * 0 + neg_part a * b) / c)

scale_right : (a c : ℕ) (b : ℤ) → (0 / c) ≡ 0 → pos_part b ≡ 0 → pos_part (scale (pos a) b c) ≡ 0
scale_right a c b h e =
    let up : a * pos_part b + 0 * neg_part b ≡ 0 = rw e (omega arith) in
    ap (λ x. pos_part (sub_ℕ (x / c) ((a * neg_part b + 0 * pos_part b) / c))) up
    ∙ ap (λ x. pos_part (sub_ℕ x ((a * neg_part b + 0 * pos_part b) / c))) h
    ∙ below_zero ((a * neg_part b + 0 * pos_part b) / c)

share_negsuc :
    (q k : ℕ) → pos_part (milli.trunc_f (milli.fmul (pos q) (milli.of_int (negsuc k)))) ≡ 0
share_negsuc q k =
    let count = milli.of_int (negsuc k) in
    scale_left (milli.fmul (pos q) count) 1 1000 refl
      (scale_right q 1000 count refl (scale_left (negsuc k) 1000 1 refl refl))

share_pos :
    (q k : ℕ)
    → milli.trunc_f (milli.fmul (pos q) (milli.of_int (pos k)))
      ≡ pos (q * (k * 1000 / 1) / 1000 * 1 / 1000)
share_pos q k =
    ap (λ x. milli.trunc_f (milli.fmul (pos q) x)) (scale_pos k 1000 1 refl)
    ∙ ap milli.trunc_f (scale_pos q (k * 1000 / 1) 1000 refl)
    ∙ scale_pos (q * (k * 1000 / 1) / 1000) 1 1000 refl

share_le : (q k : ℕ) → q ≤ 1000 → q * (k * 1000 / 1) / 1000 * 1 / 1000 ≤ k
share_le q k h =
    let count = k * 1000 / 1 in
    let same : count ≡ k * 1000 = omega arith in
    let product : q * count ≤ 1000 * count = mul-le-mul_right count h in
    let cut : q * count / 1000 ≤ count = omega (arith, product) in omega (arith, same, cut)

milli_share :
    (q n : ℤ)
    → milli.fle (milli.of_int (pos 0)) q ≡ true
    → milli.fle q (milli.of_int (pos 1)) ≡ true
    → pos_part n ≤ 2 ^ 24
    → pos_part (milli.trunc_f (milli.fmul q (milli.of_int n))) ≤ pos_part n
milli_share (negsuc q) n low high small = let never : true ≡ false = ground arith in cc
milli_share (pos q) (negsuc n) low high small = omega (arith, share_negsuc q n)
milli_share (pos q) (pos n) low high small =
    let few : q ≤ 1000 = ground arith in rw (share_pos q n) (share_le q n few)

pub milli-IsRounding : IsRounding milli
milli-IsRounding = record {
  ends = (refl, refl);
  not_less = λ a b p q r. ground arith;
  share = milli_share;
}
