-- ===== src/Tests/Traces.antt =====
-- The theorem on the viewer's trace, at two nodes of which one moves and one changes its colour.
use simulations.Base.{◌≡◌, refl, some, List, [], ◌∷◌, ℤ, pos}
use simulations.Floats.{milli}
use simulations.Node.{Node, color}
use simulations.Simulation.Clock.{SimTime}
use simulations.Viewer.{ViewerRecorder, setup_viewer, all_nodes}
use simulations.Viewer.Replay.{Steps, Replayed, blanks, record_times, record_times-Replayed}
use simulations.Tests.Sample.{body_at}

abbrev at_time : ℤ → ℤ → SimTime milli
at_time t k = record { total = pos 9000; dt = pos 1000; n = pos 9; loop = k; time = t }

abbrev models : List (List (Node milli))
models = (body_at (pos 0) ∷ []) ∷ (body_at (pos 2000) ∷ []) ∷ []

abbrev steps : Steps milli
steps =
    (at_time (pos 0) (pos 0), body_at (pos 0) ∷ body_at (pos 2000) ∷ [])
    ∷ (
      at_time (pos 1000) (pos 1),
      body_at (pos 500)
          ∷ record (body_at (pos 2000)) { tint = color (pos 255) (pos 0) (pos 0) }
          ∷ [],
    )
    ∷ []

record_times-Replayed_example :
    (v : ViewerRecorder milli) × (record_times (setup_viewer models) steps ≡ some v)
    × Replayed steps v.times (blanks models)
unfolding all_nodes
record_times-Replayed_example = record_times-Replayed models steps refl (refl, (refl, tt))
