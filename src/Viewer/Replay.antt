-- ===== src/Viewer/Replay.antt =====
-- The trace of the viewer recorder (Viewer.antt) read back: a reader that keeps what it was last
-- told of each node's antenna radius and colour, and what it then shows at every time.
use mathlib.Core.Option.{map as map_option}
use simulations.Base.{
  append-nil, append_assoc, ℕ, zero, suc, All-map, ◌≡◌, inr, refl, sym, ap, ◌∙◌, subst, true, List,
  [], ◌∷◌, ◌++◌, length, negsuc, Option, none, some, arith, replicate, All, length-append,
  length-replicate,
}
use simulations.Messages.Node.{◌>>=◌}
use simulations.Floats.{Floating}
use simulations.Node.{Node}
use simulations.Simulation.Clock.{SimTime}
use simulations.Viewer.{
  LastInfo, NodeInfo, TimeInfo, ViewerRecorder, init_last_info, all_nodes, setup_last_info,
  setup_viewer, write_node, put_info, write_node_info, put_time, record_time,
}
use simulations.Viewer.Memory.{Memory, listen, IsShown, Keeps, write_node-IsShown}

-- The nodes as they are at each time that is recorded.
abbrev pub Steps : Floating → Type 0
Steps F = List (SimTime F × List (Node F))

module _ {F : Floating} where
  abbrev pub listen_all : List (NodeInfo F) → List (Memory F) → List (Memory F)
  listen_all [] ms = ms
  listen_all (e ∷ es) [] = []
  listen_all (e ∷ es) (m ∷ ms) = listen e m ∷ listen_all es ms

  abbrev pub AllShown : List (Node F) → List (NodeInfo F) → List (Memory F) → Type 0
  AllShown [] [] ms = Unit
  AllShown (n ∷ ns) (e ∷ es) (m ∷ ms) = IsShown n e m × AllShown ns es ms
  AllShown ns es ms = ⊥

  abbrev KeepsAll : List (LastInfo F) → List (Memory F) → Type 0
  KeepsAll [] [] = Unit
  KeepsAll (last ∷ lasts) (m ∷ ms) = Keeps last m × KeepsAll lasts ms
  KeepsAll lasts ms = ⊥

  write_node_info-AllShown :
      (nodes : List (Node F)) (lasts : List (LastInfo F)) (ms : List (Memory F))
      → length nodes ≡ length lasts
      → KeepsAll lasts ms
      → (r : List (LastInfo F) × List (NodeInfo F)) × (write_node_info nodes lasts ≡ some r)
        × (length r.0 ≡ length lasts)
        × KeepsAll r.0 (listen_all r.1 ms)
        × AllShown nodes r.1 (listen_all r.1 ms)
  unfolding write_node_info
  write_node_info-AllShown [] [] [] same keeps = (([], []), refl, refl, tt, tt)
  write_node_info-AllShown [] [] (m ∷ ms) same keeps = absurd keeps
  write_node_info-AllShown [] (last ∷ lasts) ms same keeps = cc
  write_node_info-AllShown (n ∷ nodes) [] ms same keeps = cc
  write_node_info-AllShown (n ∷ nodes) (last ∷ lasts) [] same keeps = absurd keeps
  write_node_info-AllShown (n ∷ nodes) (last ∷ lasts) (m ∷ ms) same keeps =
      let (r, result, long, kept, shown) =
        write_node_info-AllShown nodes lasts ms (omega arith) keeps.1 in
      let (kept_one, shown_one) = write_node-IsShown last n m keeps.0 in
      (
        put_info (write_node last n) r,
        ap (map_option (put_info (write_node last n))) result,
        ap suc long,
        (kept_one, kept),
        (shown_one, shown),
      )

  unfoldable pub record_times : ViewerRecorder F → Steps F → Option (ViewerRecorder F)
  unfolding record_time
  record_times v [] = some v
  record_times v ((st, nodes) ∷ steps) = record_time v st nodes >>= λ w. record_times w steps

  -- What the reader shows, time after time, is what was there to record.
  abbrev pub Replayed : Steps F → List (TimeInfo F) → List (Memory F) → Type 0
  Replayed [] [] ms = Unit
  Replayed ((st, nodes) ∷ steps) (e ∷ es) ms =
      ((e.t ≡ st.time) × (e.loop ≡ st.loop))
      × (AllShown nodes e.infos (listen_all e.infos ms) × Replayed steps es (listen_all e.infos ms))
  Replayed steps es ms = ⊥

  -- The same from any state of the recorder.
  Replayed-from :
      (steps : Steps F) (v : ViewerRecorder F) (ms : List (Memory F))
      → All (λ s. length s.1 ≡ length v.lasts) steps
      → KeepsAll v.lasts ms
      → (w : ViewerRecorder F) × (es : List (TimeInfo F)) × (record_times v steps ≡ some w)
        × (w.times ≡ v.times ++ es)
        × Replayed steps es ms
  unfolding record_times record_time
  Replayed-from [] v ms same keeps = (v, [], refl, sym (append-nil v.times), tt)
  Replayed-from ((st, nodes) ∷ steps) v ms same keeps =
      let (r, result, long, kept, shown) = write_node_info-AllShown nodes v.lasts ms same.0 keeps in
      let e : TimeInfo F = record { t = st.time; loop = st.loop; infos = r.1 } in
      let (w, es, run, trace, replayed) =
        Replayed-from steps (put_time v st r) (listen_all r.1 ms)
          (All-map (λ s. length s.1 ≡ length v.lasts) (λ s. length s.1 ≡ length r.0)
            (λ s e. e ∙ sym long) steps same.1)
          kept in
      (
        w,
        e ∷ es,
        ap (λ o. o >>= λ u. record_times u steps) (ap (map_option (put_time v st)) result) ∙ run,
        trace ∙ append_assoc v.times (e ∷ []) es,
        ((refl, refl), (shown, replayed)),
      )

  abbrev pub blank : Memory F
  blank = record { ar = none; rgb = none }

  -- A fresh entry is kept by a reader who has heard nothing, since -1 is -1.
  KeepsAll-init :
      (n : ℕ) (lasts : List (LastInfo F)) (ms : List (Memory F))
      → F.feq (F.of_int (negsuc 0)) (F.of_int (negsuc 0)) ≡ true
      → KeepsAll lasts ms
      → KeepsAll (replicate n (init_last_info F) ++ lasts) (replicate n blank ++ ms)
  unfolding init_last_info
  KeepsAll-init zero lasts ms same keeps = keeps
  KeepsAll-init (suc n) lasts ms same keeps =
      ((inr same, inr refl), KeepsAll-init n lasts ms same keeps)

  abbrev pub blanks : List (List (Node F)) → List (Memory F)
  blanks [] = []
  blanks (nodes ∷ models) = replicate (length nodes) blank ++ blanks models

  setup_last_info-KeepsAll :
      (models : List (List (Node F)))
      → F.feq (F.of_int (negsuc 0)) (F.of_int (negsuc 0)) ≡ true
      → KeepsAll (setup_last_info models) (blanks models)
  unfolding setup_last_info
  setup_last_info-KeepsAll [] same = tt
  setup_last_info-KeepsAll (nodes ∷ models) same =
      KeepsAll-init (length nodes) (setup_last_info models) (blanks models) same
        (setup_last_info-KeepsAll models same)

  length-setup_last_info :
      (models : List (List (Node F))) → length (setup_last_info models) ≡ length (all_nodes models)
  unfolding setup_last_info all_nodes
  length-setup_last_info [] = refl
  length-setup_last_info (nodes ∷ models) = omega (
    arith,
    length-append (replicate (length nodes) (init_last_info F)) (setup_last_info models),
    length-replicate (length nodes) (init_last_info F),
    length-append nodes (all_nodes models),
    length-setup_last_info models,
  )

  -- If -1 equals itself and each time is recorded with as many nodes as the models have, no read
  -- of the last values is out of bounds, and a reader that keeps the last radius and colour it
  -- was told of each node shows, at every time, each node's position, its colour, and an antenna
  -- radius that is its own or equal to it by the machine's comparison.
  pub record_times-Replayed :
      (models : List (List (Node F))) (steps : Steps F)
      → F.feq (F.of_int (negsuc 0)) (F.of_int (negsuc 0)) ≡ true
      → All (λ s. length s.1 ≡ length (all_nodes models)) steps
      → (v : ViewerRecorder F) × (record_times (setup_viewer models) steps ≡ some v)
        × Replayed steps v.times (blanks models)
  unfolding setup_viewer
  record_times-Replayed models steps same sizes =
      let sizes' =
        All-map (λ s. length s.1 ≡ length (all_nodes models))
          (λ s. length s.1 ≡ length (setup_last_info models))
          (λ s e. e ∙ sym (length-setup_last_info models)) steps sizes in
      let (v, es, run, trace, replayed) =
        Replayed-from steps (setup_viewer models) (blanks models) sizes'
          (setup_last_info-KeepsAll models same) in
      (v, run, subst (λ ts. Replayed steps ts (blanks models)) (sym trace) replayed)
