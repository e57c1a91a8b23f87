-- ===== src/Simulation/Ending.antt =====
-- The iterations of simulationCicle (momosecpp/src/Simulation.cpp) and its end.
use simulations.Base.{
  ℕ, zero, suc, ◌+◌, ◌≤◌, ◌<◌, ◌≡◌, refl, sym, ap, subst, Bool, true, false, ◌&&◌, List, some, none,
  Bool-cases, inl, inr, arith,
}
use simulations.Floats.{Floating}
use simulations.Simulation.Clock.{SimTime, to_hundredths, up_time, down_time, set_time}
use simulations.Simulation.Cycle.{
  AiManager, body, continues, cicle_loop, simulation_cicle, put_back,
}

module _ {F : Floating} where
  abbrev pub ticks : ℕ → SimTime F → SimTime F
  ticks zero st = st
  ticks (suc n) st = ticks n (up_time F st)

module _ {F : Floating} {W : Type 0} (ai : AiManager F W) (recorders : List (SimTime F → W → W))
    (animate_physic : W → W) (running : ℕ → Bool) where
  abbrev pub bodies : ℕ → SimTime F → W → W
  bodies zero st w = w
  bodies (suc n) st w = bodies n (up_time F st) (body ai recorders animate_physic running st w)

  abbrev pub goes : ℕ → SimTime F → Bool
  goes = continues ai recorders animate_physic running

  -- From test `i`, the loop passes exactly `n` tests.
  abbrev pub Passes : ℕ → ℕ → SimTime F → Type 0
  Passes i n st =
      ((k : ℕ) → k < n → goes (i + k) (ticks k st) ≡ true) × (goes (i + n) (ticks n st) ≡ false)

  stop : (i : ℕ) (st : SimTime F) → goes i st ≡ false → goes (i + 0) (ticks 0 st) ≡ false
  stop i st e = let place : i ≡ i + 0 = omega arith in subst (λ j. goes j st ≡ false) place e

  first :
      (i n : ℕ) (st : SimTime F)
      → goes i st ≡ true
      → ((k : ℕ) → k < n → goes (suc i + k) (ticks k (up_time F st)) ≡ true)
      → (k : ℕ) → k < suc n
      → goes (i + k) (ticks k st) ≡ true
  first i n st e before zero b =
      let place : i ≡ i + 0 = omega arith in subst (λ j. goes j st ≡ true) place e
  first i n st e before (suc k) b =
      let place : suc i + k ≡ i + suc k = omega arith in
      subst (λ j. goes j (ticks (suc k) st) ≡ true) place (before k (omega arith))

  later :
      (i n : ℕ) (st : SimTime F)
      → goes (suc i + n) (ticks n (up_time F st)) ≡ false
      → goes (i + suc n) (ticks (suc n) st) ≡ false
  later i n st e =
      let place : suc i + n ≡ i + suc n = omega arith in
      subst (λ j. goes j (ticks (suc n) st) ≡ false) place e

  both : (b c : Bool) → b && c ≡ true → b ≡ true
  both true c e = refl
  both false c e = absurd (ground arith)

  stopped :
      (fuel i : ℕ) (st : SimTime F) (w : W)
      → goes i st ≡ false
      → cicle_loop ai recorders animate_physic running fuel i st w ≡ some (st, w)
  unfolding cicle_loop
  stopped zero i st w e = rw e refl
  stopped (suc fuel) i st w e = rw e refl

  cicle_loop-ends :
      (past fuel i : ℕ) (st : SimTime F) (w : W)
      → F.fle (ticks past st).time st.total ≡ false
      → past ≤ fuel
      → (n : ℕ) × (cicle_loop ai recorders animate_physic running fuel i st w
          ≡ some (ticks n st, bodies n st w))
        × (n ≤ past)
        × Passes i n st
  unfolding cicle_loop continues up_time set_time
  cicle_loop-ends zero fuel i st w ends enough =
      let e : goes i st ≡ false = ground arith in
      (0, stopped fuel i st w e, omega arith, (λ k b. absurd (omega arith), stop i st e))
  cicle_loop-ends (suc past) zero i st w ends enough = absurd (omega arith)
  cicle_loop-ends (suc past) (suc fuel) i st w ends enough = elim (Bool-cases (goes i st)) [
    | inr e ↦
        (0, stopped (suc fuel) i st w e, omega arith, (λ k b. absurd (omega arith), stop i st e))
    | inl e ↦
        let (n, ends', few, (before, last)) =
          cicle_loop-ends past fuel (suc i) (up_time F st)
            (body ai recorders animate_physic running st w) ends (omega arith) in
        (suc n, rw e ends', omega arith, (first i n st e before, later i n st last))
  ]

  cicle_loop-stuck :
      (fuel i : ℕ) (st : SimTime F) (w : W)
      → F.fle st.time st.total ≡ true
      → to_hundredths F (F.fadd st.time st.dt) ≡ st.time
      → ((i : ℕ) → running i ≡ true)
      → cicle_loop ai recorders animate_physic running fuel i st w ≡ none
  unfolding cicle_loop continues up_time set_time
  cicle_loop-stuck zero i st w within lost runs = rw (within, runs i) refl
  cicle_loop-stuck (suc fuel) i st w within lost runs =
      let next = up_time F st in
      let w' = body ai recorders animate_physic running st w in
      let again : to_hundredths F (F.fadd next.time next.dt) ≡ next.time =
        ap (λ t. to_hundredths F (F.fadd t st.dt)) lost in
      let still : F.fle next.time next.total ≡ true =
        subst (λ t. F.fle t st.total ≡ true) (sym lost) within in
      rw (within, runs i) (cicle_loop-stuck fuel (suc i) next w' still again runs)

  -- If the clock is past the end after `past` ticks, then with that fuel the cycle ends: there is
  -- a number `n` of iterations, at most `past`, such that the first `n` tests pass and the next
  -- fails; the cycle has then run the body `n` times, each time at its own time, and has put the
  -- clock back by one tick.
  pub simulation_cicle-ends :
      (past fuel : ℕ) (st : SimTime F) (w : W)
      → F.fle (ticks past st).time st.total ≡ false
      → past ≤ fuel
      → (n : ℕ) × (simulation_cicle ai recorders animate_physic running fuel st w
          ≡ some (down_time F (ticks n st), bodies n st w))
        × (n ≤ past)
        × Passes 0 n st
  unfolding simulation_cicle put_back
  simulation_cicle-ends past fuel st w ends enough =
      let (n, result, few, passes) = cicle_loop-ends past fuel 0 st w ends enough in
      (n, ap (put_back ai recorders animate_physic running) result, few, passes)

  -- If the time is not past the end, the step of the clock is lost in the rounding, and no signal
  -- stops the loop, the cycle does not end, whatever the fuel.
  pub simulation_cicle-stuck :
      (fuel : ℕ) (st : SimTime F) (w : W)
      → F.fle st.time st.total ≡ true
      → to_hundredths F (F.fadd st.time st.dt) ≡ st.time
      → ((i : ℕ) → running i ≡ true)
      → simulation_cicle ai recorders animate_physic running fuel st w ≡ none
  unfolding simulation_cicle put_back
  simulation_cicle-stuck fuel st w within lost runs =
      ap (put_back ai recorders animate_physic running)
        (cicle_loop-stuck fuel 0 st w within lost runs)
