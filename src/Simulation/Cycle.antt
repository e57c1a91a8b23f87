-- ===== src/Simulation/Cycle.antt =====
-- momosecpp/src/AiManager.cpp, and the main loop of momosecpp/src/Simulation.cpp. `W` is the state of the
-- models, nodes and recorders; their virtual methods are functions on it. The signal handler
-- clears the member `loop`, which the test of the loop reads: `running i` is its value at the i-th
-- test. What the loop prints is not modelled.
use simulations.Base.{
  ℕ, zero, suc, Bool, ◌&&◌, List, [], ◌∷◌, ◌++◌, if◌then◌else◌, Option, some, none,
}
use simulations.Floats.{Floating}
use simulations.Simulation.Clock.{SimTime, up_time, down_time}

pub record AiManager (F : Floating) (W : Type 0) : Type 0 where
  pub thinkers : List (SimTime F → W → W)
  pub thinkers_models : List (SimTime F → W → W)

module _ {F : Floating} {W : Type 0} where
  unfoldable pub add_thinkers : AiManager F W → List (SimTime F → W → W) → AiManager F W
  add_thinkers ai new_thinkers = record ai { thinkers = ai.thinkers ++ new_thinkers }

  unfoldable pub in_turn : List (SimTime F → W → W) → SimTime F → W → W
  in_turn [] st w = w
  in_turn (f ∷ fs) st w = in_turn fs st (f st w)

  -- The models think first, then the nodes.
  unfoldable pub animate_ai : AiManager F W → SimTime F → W → W
  unfolding in_turn
  animate_ai ai st w = in_turn ai.thinkers st (in_turn ai.thinkers_models st w)

  module _ (ai : AiManager F W) (recorders : List (SimTime F → W → W)) (animate_physic : W → W)
      (running : ℕ → Bool) where
    unfoldable pub record_all : SimTime F → W → W
    unfolding in_turn
    record_all st w = in_turn recorders st w

    -- The body of the loop, without the step of the clock.
    unfoldable pub body : SimTime F → W → W
    unfolding record_all animate_ai
    body st w =
        let recorded = record_all st w in
        if F.flt st.time st.total then animate_physic (animate_ai ai st recorded) else recorded

    unfoldable pub continues : ℕ → SimTime F → Bool
    continues i st = F.fle st.time st.total && running i

    -- The loop, on fuel: `none` is a loop that has not ended yet.
    unfoldable pub cicle_loop : ℕ → ℕ → SimTime F → W → Option (SimTime F × W)
    unfolding body continues up_time
    cicle_loop zero i st w = if continues i st then none else some (st, w)
    cicle_loop (suc fuel) i st w =
        let rest = cicle_loop fuel (suc i) (up_time F st) (body st w) in
        if continues i st then rest else some (st, w)

    unfoldable pub put_back : Option (SimTime F × W) → Option (SimTime F × W)
    unfolding down_time
    put_back none = none
    put_back (some (st, w)) = some (down_time F st, w)

    unfoldable pub simulation_cicle : ℕ → SimTime F → W → Option (SimTime F × W)
    unfolding cicle_loop put_back
    simulation_cicle fuel st w = put_back (cicle_loop fuel 0 st w)
