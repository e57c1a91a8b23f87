-- ===== src/Floats/Order.antt =====
-- The interface `Floating`, and the laws of its comparisons.
use simulations.Base.{ℕ, ℤ, Bool, true, false, ◌≡◌, ◌⊎◌}

-- `literal n k` is the literal n / 10 ^ k, as a `float` or as a `double`.
pub record Floating : Type 1 where
  pub Float : Type 0
  pub Double : Type 0
  pub of_int : ℤ → Float
  pub literal : ℤ → ℕ → Float
  pub flt_max : Float
  pub fadd : Float → Float → Float
  pub fsub : Float → Float → Float
  pub fmul : Float → Float → Float
  pub fdiv : Float → Float → Float
  pub fneg : Float → Float
  pub flt : Float → Float → Bool
  pub fle : Float → Float → Bool
  pub feq : Float → Float → Bool
  pub widen : Float → Double
  pub narrow : Double → Float
  pub literal_d : ℤ → ℕ → Double
  pub dadd : Double → Double → Double
  pub dsub : Double → Double → Double
  pub dmul : Double → Double → Double
  pub ddiv : Double → Double → Double
  pub dneg : Double → Double
  pub dlt : Double → Double → Bool
  pub deq : Double → Double → Bool
  pub sqrt : Float → Float
  pub cos : Float → Float
  pub sin : Float → Float
  pub fabs : Float → Float
  -- `pow(a, 2)`
  pub square : Float → Float
  pub floor : Double → Double
  pub of_int_d : ℤ → Double
  -- the conversion of a `double` to an `int`, and of a `float`
  pub trunc : Double → ℤ
  pub trunc_f : Float → ℤ

-- The laws of `<` and `≤` on `float`, which IEEE 754 gives for all values, not-a-number included
-- (a comparison with it is false). `comparable` is the one place where two values must be numbers:
-- each of them is within some bound.
pub record IsOrdered (F : Floating) : Type 0 where
  pub lt_irrefl : (a : F.Float) → F.flt a a ≡ false
  pub lt_trans : (a b c : F.Float) → F.flt a b ≡ true → F.flt b c ≡ true → F.flt a c ≡ true
  pub le_trans : (a b c : F.Float) → F.fle a b ≡ true → F.fle b c ≡ true → F.fle a c ≡ true
  pub le_of_lt : (a b : F.Float) → F.flt a b ≡ true → F.fle a b ≡ true
  pub not-le_of_lt : (a b : F.Float) → F.flt a b ≡ true → F.fle b a ≡ false
  pub comparable :
      (a b c d : F.Float)
      → F.fle a c ≡ true
      → F.fle b d ≡ true
      → (F.flt a b ≡ true) ⊎ (F.fle b a ≡ true)
