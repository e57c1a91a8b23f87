-- ===== src/Floats/Milli.antt =====
-- Fixed-point numbers in thousandths: a concrete value of the interface, at which the theorems are
-- instantiated. Rotation is known at the angle 0 alone.
use simulations.Base.{
  ℕ, zero, suc, ◌+◌, ◌*◌, ◌/◌, ◌^◌, ◌≡◌, ◌⊎◌, ℤ, pos, negsuc, pos_part, neg_part, sub_ℕ, ◌+ℤ◌, ◌-ℤ◌,
  ltb_ℤ, leb_ℤ, eqb_ℤ, true, false, arith, leb,
}
use simulations.Floats.Order.{Floating, IsOrdered}

-- a * b / c, towards zero
abbrev pub scale : ℤ → ℤ → ℕ → ℤ
scale a b c =
    sub_ℕ ((pos_part a * pos_part b + neg_part a * neg_part b) / c)
      ((pos_part a * neg_part b + neg_part a * pos_part b) / c)

abbrev pub quotient : ℤ → ℤ → ℤ
quotient a (pos n) = sub_ℕ (pos_part a * 1000 / n) (neg_part a * 1000 / n)
quotient a (negsuc n) = sub_ℕ (neg_part a * 1000 / suc n) (pos_part a * 1000 / suc n)

unfoldable pub root_from : ℕ → ℕ → ℕ → ℕ
root_from zero n r = r
root_from (suc fuel) n r = elim (leb (suc r * suc r) n) [
  | true ↦ root_from fuel n (suc r)
  | false ↦ r
]

abbrev pub millis : ℤ → ℕ → ℤ
millis m k = scale m (pos 1000) (10 ^ k)

-- the integer part in thousandths, downwards
abbrev pub floor_milli : ℤ → ℤ
floor_milli (pos n) = pos (n / 1000 * 1000)
floor_milli (negsuc n) = sub_ℕ 0 ((n / 1000 + 1) * 1000)

abbrev pub milli : Floating
milli = record {
  Float = ℤ;
  Double = ℤ;
  of_int = λ a. scale a (pos 1000) 1;
  literal = millis;
  flt_max = pos (10 ^ 41);
  fadd = ◌+ℤ◌;
  fsub = ◌-ℤ◌;
  fmul = λ a b. scale a b 1000;
  fdiv = quotient;
  fneg = λ a. pos 0 -ℤ a;
  flt = ltb_ℤ;
  fle = leb_ℤ;
  feq = eqb_ℤ;
  widen = λ a. a;
  narrow = λ a. a;
  literal_d = millis;
  dadd = ◌+ℤ◌;
  dsub = ◌-ℤ◌;
  dmul = λ a b. scale a b 1000;
  ddiv = quotient;
  dneg = λ a. pos 0 -ℤ a;
  dlt = ltb_ℤ;
  deq = eqb_ℤ;
  sqrt = λ a. pos (root_from (pos_part a) (pos_part a * 1000) 0);
  cos = λ a. pos 1000;
  sin = λ a. pos 0;
  fabs = λ a. pos (pos_part a + neg_part a);
  square = λ a. scale a a 1000;
  floor = floor_milli;
  of_int_d = λ a. scale a (pos 1000) 1;
  trunc = λ a. scale a (pos 1) 1000;
  trunc_f = λ a. scale a (pos 1) 1000;
}

milli_comparable : (a b : ℤ) → (ltb_ℤ a b ≡ true) ⊎ (leb_ℤ b a ≡ true)
milli_comparable a b = ground arith

pub milli-IsOrdered : IsOrdered milli
milli-IsOrdered = record {
  lt_irrefl = λ a. ground arith;
  lt_trans = λ a b c p q. ground arith;
  le_trans = λ a b c p q. ground arith;
  le_of_lt = λ a b p. ground arith;
  not-le_of_lt = λ a b p. ground arith;
  comparable = λ a b c d p q. milli_comparable a b;
}
