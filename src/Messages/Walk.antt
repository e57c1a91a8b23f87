-- ===== src/Messages/Walk.antt =====
-- The random walk of a message node (momosecpp/src/RandomWalkMessageNode.cpp), and a step of the AI
-- manager on a message model and its nodes (momosecpp/src/AiManager.cpp).
use simulations.Base.{
  ℕ, zero, suc, ◌≤◌, ◌<◌, ◌≡◌, refl, sym, ap, ◌∙◌, ◌+◌, ◌⊎◌, inl, inr, none, Bool, true, false,
  ◌||◌, if◌then◌else◌, Option, some, List, [], ◌∷◌, length, AllFrom, arith, pos,
}
use mathlib.Core.Path.{subst₂, fun_ext}
use simulations.Floats.{Floating}
use simulations.Random.{Random, IsShuffling, unit_float}
use simulations.Geometry.{Vector2D, vector, scaled}
use simulations.Mobility.Walk.{sign}
use simulations.Messages.Node.{MessageNode, int_max, ◌>>=◌}
use simulations.Messages.Model.{MessageModel, think}
use simulations.Messages.Model.Known.{IsValid}
use simulations.Messages.Model.Picks.{PicksOutside}
use simulations.Messages.Model.Steps.{made_by, AllValid}
use simulations.Messages.Model.Think.{think-AllValid}

-- One coordinate of the new velocity: the factor is vMax + vMin.
unfoldable pub message_draw :
    (F : Floating) (R : Random) → F.Float → F.Float → R.Rng → F.Float × R.Rng
unfolding unit_float sign
message_draw F R lo hi rng =
    let (r, rng') = R.rand rng in
    let (s, rng'') = R.rand rng' in
    (F.fmul (F.fmul (unit_float F R r) (F.fadd hi lo)) (sign F R s), rng'')

module _ {F : Floating} (R : Random) where
  unfoldable pub message_velocity : F.Float → F.Float → F.Float → R.Rng → Vector2D F × R.Rng
  unfolding message_draw
  message_velocity lo hi dt rng =
      let (a, rng') = message_draw F R lo hi rng in
      let (b, rng'') = message_draw F R lo hi rng' in (scaled F (vector F a b) dt, rng'')

  turn : Bool → MessageNode F → Vector2D F → MessageNode F
  turn false n v = n
  turn true n v = record n { body = record n.body { v = v }; local_time = F.of_int (pos 0) }

  -- RandomWalkMessageNode::randomMove
  unfoldable pub message_random_move : F.Float → MessageNode F → R.Rng → MessageNode F × R.Rng
  unfolding message_velocity turn
  message_random_move dt n rng =
      let moves = F.fle n.pause_time n.local_time || n.body.collided in
      let (v, rng') = message_velocity n.v_min n.v_max dt rng in
      let n' = turn moves n v in
      (record n' { local_time = F.fadd n'.local_time dt }, if moves then rng' else rng)

  -- The nodes think in turn.
  unfoldable pub move_all : F.Float → List (MessageNode F) → R.Rng → List (MessageNode F) × R.Rng
  unfolding message_random_move
  move_all dt [] rng = ([], rng)
  move_all dt (n ∷ nodes) rng =
      let (n', rng') = message_random_move dt n rng in
      let rest = move_all dt nodes rng' in (n' ∷ rest.0, rest.1)

  -- AiManager::animateAI with one message model: the model thinks, then its nodes.
  unfoldable pub message_step :
      MessageModel F
      → F.Float
      → F.Float
      → List (MessageNode F)
      → R.Rng
      → Option (List (MessageNode F) × R.Rng)
  unfolding think move_all
  message_step m now dt nodes rng =
      think R m now nodes rng >>= λ (nodes', rng'). some (move_all dt nodes' rng')

  -- What the walk leaves alone.
  turn-IsValid :
      (count : ℕ) (made : ℕ → ℕ) (i : ℕ) (b : Bool) (n : MessageNode F) (v : Vector2D F)
      → IsValid count made i n
      → IsValid count made i (turn b n v)
  unfolding turn
  turn-IsValid count made i false n v h = h
  turn-IsValid count made i true n v h = record {
    id = h.id;
    in_range = h.in_range;
    counted = h.counted;
    trusts = h.trusts;
    consistent = record {
      ascending = h.consistent.ascending;
      distinct = h.consistent.distinct;
      agree = h.consistent.agree;
    };
    stored = h.stored;
    pending = h.pending;
  }

  timed-IsValid :
      (count : ℕ) (made : ℕ → ℕ) (i : ℕ) (n : MessageNode F) (t : F.Float)
      → IsValid count made i n
      → IsValid count made i (record n { local_time = t })
  timed-IsValid count made i n t h = record {
    id = h.id;
    in_range = h.in_range;
    counted = h.counted;
    trusts = h.trusts;
    consistent = record {
      ascending = h.consistent.ascending;
      distinct = h.consistent.distinct;
      agree = h.consistent.agree;
    };
    stored = h.stored;
    pending = h.pending;
  }

  turn-counter :
      (b : Bool) (n : MessageNode F) (v : Vector2D F)
      → (turn b n v).next_message_id ≡ n.next_message_id
  unfolding turn
  turn-counter false n v = refl
  turn-counter true n v = refl

  move_all-IsValid :
      (count : ℕ) (made : ℕ → ℕ) (i : ℕ) (dt : F.Float) (nodes : List (MessageNode F)) (rng : R.Rng)
      → AllFrom (IsValid count made) i nodes
      → AllFrom (IsValid count made) i (move_all dt nodes rng).0
  unfolding move_all message_random_move
  move_all-IsValid count made i dt [] rng h = tt
  move_all-IsValid count made i dt (n ∷ nodes) rng h = (
    timed-IsValid count made i (turn _ n _) _ (turn-IsValid count made i _ n _ h.0),
    move_all-IsValid count made (suc i) dt nodes _ h.1,
  )

  length-move_all :
      (dt : F.Float) (nodes : List (MessageNode F)) (rng : R.Rng)
      → length (move_all dt nodes rng).0 ≡ length nodes
  unfolding move_all
  length-move_all dt [] rng = refl
  length-move_all dt (n ∷ nodes) rng = ap suc (length-move_all dt nodes _)

  made_by-move_all :
      (dt : F.Float) (nodes : List (MessageNode F)) (rng : R.Rng) (s : ℕ)
      → made_by (move_all dt nodes rng).0 s ≡ made_by nodes s
  unfolding move_all message_random_move
  made_by-move_all dt [] rng s = refl
  made_by-move_all dt (n ∷ nodes) rng zero = turn-counter _ n _
  made_by-move_all dt (n ∷ nodes) rng (suc s) = made_by-move_all dt nodes _ s

  -- A step of the AI manager, in which the model thinks and then its random-walk nodes do, from
  -- valid nodes that are as many as the model counts and whose counters are below INT_MAX, and
  -- where `random_shuffle` permutes, ends in valid nodes, as many as before, and no counter has
  -- fallen; or it faults, and then one of the generator's next values, of which there are at most
  -- two for each node, gives a place past the end of a list of neighbours.
  pub message_step-AllValid :
      (m : MessageModel F) (now dt : F.Float) (nodes : List (MessageNode F)) (rng : R.Rng)
      → IsShuffling R
      → m.num_nodes ≡ length nodes
      → ((s : ℕ) → made_by nodes s < int_max)
      → AllValid nodes
      → ((nodes' : List (MessageNode F)) × (rng' : R.Rng) × (message_step m now dt nodes rng
            ≡ some (nodes', rng'))
          × AllValid nodes'
          × (length nodes' ≡ length nodes)
          × ((s : ℕ) → made_by nodes s ≤ made_by nodes' s))
        ⊎ ((message_step m now dt nodes rng ≡ none)
            × PicksOutside F R (length nodes) rng (length nodes + length nodes))
  unfolding message_step
  message_step-AllValid m now dt nodes rng shuffling size small v =
      elim (think-AllValid R m now nodes rng shuffling size small v) [
        | inr (e, out) ↦ inr (ap (λ o. o >>= λ (ns, r). some (move_all dt ns r)) e, out)
        | inl (nodes', rng', e, valid, size', grown) ↦
            let last = move_all dt nodes' rng' in
            let sizes = length-move_all dt nodes' rng' in
            let counters : made_by last.0 ≡ made_by nodes' =
              fun_ext (made_by-move_all dt nodes' rng') in
            inl (
              last.0,
              last.1,
              ap (λ o. o >>= λ (ns, r). some (move_all dt ns r)) e,
              subst₂ (λ k f. AllFrom (IsValid k f) 0 last.0) (sym sizes) (sym counters)
                  (move_all-IsValid (length nodes') (made_by nodes') 0 dt nodes' rng' valid),
              sizes ∙ size',
              λ s. omega (arith, grown s, made_by-move_all dt nodes' rng' s),
            )
      ]
