-- ===== src/Simulation/Clock.antt =====
-- class SimTime of momosecpp/src/SimTime.cpp and momosecpp/src/include/SimTime.h.
use simulations.Base.{ℤ, pos, negsuc, ◌+ℤ◌}
use simulations.Floats.{Floating}

-- `total` is T.
pub record SimTime (F : Floating) : Type 0 where
  pub total : F.Float
  pub dt : F.Float
  pub n : ℤ
  pub loop : ℤ
  pub time : F.Float

module _ (F : Floating) where
  open F use {
    Float, of_int, literal, fadd, fsub, fmul, widen, narrow, literal_d, dadd, ddiv, floor, of_int_d,
    trunc,
  }

  unfoldable pub init_sim_time : Float → Float → ℤ → SimTime F
  init_sim_time total step count = record {
    total = total;
    dt = step;
    n = count;
    loop = pos 0;
    time = of_int (pos 0);
  }

  -- (float)(floor((int)((t * 100.0f) + 0.5)) / 100.0f)
  unfoldable pub to_hundredths : Float → Float
  to_hundredths t = narrow (
      ddiv
        (floor
          (of_int_d (trunc (dadd (widen (fmul t (literal (pos 100) 0))) (literal_d (pos 5) 1)))))
        (widen (literal (pos 100) 0)))

  unfoldable pub set_time : SimTime F → Float → SimTime F
  unfolding to_hundredths
  set_time st t = record st { time = to_hundredths t }

  unfoldable pub up_time : SimTime F → SimTime F
  unfolding set_time
  up_time st = record (set_time st (fadd st.time st.dt)) { loop = st.loop +ℤ pos 1 }

  unfoldable pub down_time : SimTime F → SimTime F
  unfolding set_time
  down_time st = record (set_time st (fsub st.time st.dt)) { loop = st.loop +ℤ negsuc 0 }

  unfoldable pub reset : SimTime F → SimTime F
  reset st = record st { time = literal (pos 0) 1; loop = pos 0 }
