-- ===== src/Random.antt =====
-- `rand` and `random_shuffle` of the C and C++ libraries, as an interface. The hidden state of the
-- generator is passed on explicitly.
use mathlib.Core.List.{Permᴰ}
use simulations.Base.{ℕ, List, pos}
use simulations.Floats.{Floating}

pub record Random : Type 1 where
  pub Rng : Type 0
  pub rand : Rng → ℕ × Rng
  pub rand_max : ℕ
  pub shuffle : (A : Type 0) → Rng → List A → List A × Rng

-- `random_shuffle` permutes its range.
pub record IsShuffling (R : Random) : Type 1 where
  pub shuffle-perm : (A : Type 0) (r : R.Rng) (xs : List A) → Permᴰ (R.shuffle A r xs).0 xs

module _ (F : Floating) (R : Random) where
  -- (float) rand() / RAND_MAX, at a value that `rand` returned
  unfoldable pub unit_float : ℕ → F.Float
  unit_float r = F.fdiv (F.of_int (pos r)) (F.of_int (pos R.rand_max))

  -- (float)((((float) rand() / RAND_MAX) * (hi - lo)) + lo)
  unfoldable pub rand_between : F.Float → F.Float → R.Rng → F.Float × R.Rng
  unfolding unit_float
  rand_between lo hi rng =
      let (r, rng') = R.rand rng in (F.fadd (F.fmul (unit_float r) (F.fsub hi lo)) lo, rng')
