-- ===== src/Tests/Models.antt =====
-- The theorems on the models and on the recorder, at the sample nodes.
use simulations.Base.{
  zero, suc, ℕ, ◌≤◌, ◌≡◌, refl, true, List, [], ◌∷◌, ℤ, pos, arith, some, none, length, AllFrom, In,
  map,
}
use simulations.Floats.{milli, milli-IsOrdered}
use simulations.Messages.Node.{MessageNode}
use simulations.Messages.Model.{MessageModel, think, setup}
use simulations.Messages.Model.Picks.{PicksOutside}
use simulations.Messages.Model.Steps.{AllValid, made_by}
use simulations.Messages.Model.Think.{think-AllValid}
use simulations.Messages.Model.Known.{IsValid}
use simulations.Messages.Model.Unique.{create_new_message_unique}
use simulations.Messages.Receive.{IsConsistent}
use simulations.Messages.Node.{int_max, create_new_message, has_received_message}
use simulations.Messages.Store.{lookup}
use simulations.Base.{false, ◌<◌, ◌⊎◌}
use simulations.Tests.Sample.{sender_node, other_node, first_message, sender_node-IsConsistent}
use simulations.Messages.Walk.{message_step, message_step-AllValid}
use simulations.Messages.Model.Setup.{setup-IsReady, IsReady}
use simulations.Messages.Recorder.{Row, write_message_info}
use simulations.Messages.Recorder.Window.{
  write_message_info-rows, FromNodes, are_collaborators, fifth, four_fifths,
}
use simulations.Messages.Recorder.Latest.{IsLatest}
use simulations.Era.{EraNode, generate_ind_maximal_set, role_assignment}
use simulations.Era.Sets.{IsIndependent, IsCovered, generate-IsIndependent, generate-IsCovered}
use simulations.Era.Roles.{first_set}
use simulations.Era.Types.{IsSecond, left_by, in_role, role_assignment-role}
use simulations.Tests.Sample.{
  still, counting, counting-IsShuffling, body_at, two_nodes, two_model, two_nodes-AllValid,
  two_nodes-small,
}

think-AllValid_example :
    ((nodes' : List (MessageNode milli)) × (rng' : ℕ) × (think counting two_model
          (pos 3000)
          two_nodes
          0
        ≡ some (nodes', rng'))
      × AllValid nodes'
      × (length nodes' ≡ 2)
      × ((s : ℕ) → made_by two_nodes s ≤ made_by nodes' s))
    ⊎ ((think counting two_model (pos 3000) two_nodes 0 ≡ none) × PicksOutside milli counting 2 0 4)
think-AllValid_example =
    think-AllValid counting two_model (pos 3000) two_nodes 0 counting-IsShuffling refl
      two_nodes-small two_nodes-AllValid

setup-IsReady_example :
    (m' : MessageModel milli) × (nodes : List (MessageNode milli)) × (rng' : ℕ) × (setup still
        two_model
        (pos 100000)
        (pos 100000)
        []
        0
      ≡ some (m', nodes, rng'))
    × (length nodes ≡ 2)
    × AllFrom (IsReady 2 1) 0 nodes
setup-IsReady_example = setup-IsReady still two_model (pos 100000) (pos 100000) 0 refl (omega arith)

abbrev row : Row milli
row = record { uuid = 0; latency = pos 2000; sender = 0; recipient = 1 }

abbrev IsRecorded : ℤ → Type 0
IsRecorded latest =
    FromNodes (fifth milli latest) (four_fifths milli latest) (are_collaborators two_nodes) row

write_message_info-rows_example :
    (latest : ℤ) × IsLatest milli latest two_nodes
    × (In row (write_message_info two_nodes) → IsRecorded latest)
    × (IsRecorded latest → In row (write_message_info two_nodes))
write_message_info-rows_example =
    write_message_info-rows 1 two_nodes row milli-IsOrdered (refl, (refl, tt))

abbrev era_node : ℕ → ℤ → EraNode milli
era_node h x = record {
  handle = h;
  kind = 1;
  local_time = pos 0;
  pause_in_spot = true;
  target_spot = none;
  body = body_at x;
}

-- The second node is within the antenna of the first, the third is not.
abbrev era_nodes : List (EraNode milli)
era_nodes = era_node 0 (pos 0) ∷ era_node 1 (pos 2000) ∷ era_node 2 (pos 50000) ∷ []

generate-IsIndependent_example : IsIndependent (generate_ind_maximal_set era_nodes (pos 0))
generate-IsIndependent_example = generate-IsIndependent era_nodes (pos 0)

generate-IsCovered_example :
    IsCovered (generate_ind_maximal_set era_nodes (pos 0)) (era_node 1 (pos 2000))
generate-IsCovered_example = generate-IsCovered era_nodes (pos 0) 1 (era_node 1 (pos 2000)) refl

abbrev taken : List (EraNode milli)
taken = era_node 0 (pos 0) ∷ []

role_assignment-role_example :
    (second : List (EraNode milli)) × IsSecond (left_by era_nodes (first_set era_nodes)) second
    × (role_assignment era_nodes ≡ map (in_role (first_set era_nodes) second) era_nodes)
role_assignment-role_example = role_assignment-role era_nodes

abbrev received_node : MessageNode milli
received_node = record other_node {
  messages = 0 ∷ [];
  message_map = (0, record first_message { latency = pos 2000; outgoing = false }) ∷ [];
}

-- The second node has received the message of the first.
abbrev sent_nodes : List (MessageNode milli)
sent_nodes = sender_node ∷ received_node ∷ []

received_node-IsConsistent : IsConsistent received_node
received_node-IsConsistent = record {
  ascending = (omega arith, tt);
  distinct = (refl, tt);
  agree = λ u. ground arith;
}

sent_node-IsValid : IsValid 2 (made_by sent_nodes) 0 sender_node
sent_node-IsValid = record {
  id = refl;
  in_range = omega arith;
  counted = refl;
  trusts = refl;
  consistent = sender_node-IsConsistent;
  stored = ((refl, (omega arith, 0, refl, omega arith)), tt);
  pending = tt;
}

received_node-IsValid : IsValid 2 (made_by sent_nodes) 1 received_node
received_node-IsValid = record {
  id = refl;
  in_range = omega arith;
  counted = refl;
  trusts = refl;
  consistent = received_node-IsConsistent;
  stored = ((refl, (omega arith, 0, refl, omega arith)), tt);
  pending = tt;
}

sent_nodes-small : (s : ℕ) → made_by sent_nodes s < int_max
sent_nodes-small zero = omega arith
sent_nodes-small (suc zero) = omega arith
sent_nodes-small (suc (suc s)) = omega arith

create_new_message_unique_example :
    (u : ℕ) × ((create_new_message (pos 3000) sender_node).messages ≡ 0 ∷ u ∷ [])
    × (lookup u (create_new_message (pos 3000) sender_node).message_map
        ≡ some (record {
          uuid = u;
          sender = 0;
          latency = pos 0;
          creation_time = pos 3000;
          outgoing = true;
        }))
    × (has_received_message received_node u ≡ false)
create_new_message_unique_example =
    create_new_message_unique (pos 3000) sent_nodes 0 1 sender_node received_node
      (sent_node-IsValid, (received_node-IsValid, tt)) sent_nodes-small refl refl

message_step-AllValid_example :
    ((nodes' : List (MessageNode milli)) × (rng' : ℕ) × (message_step counting two_model
          (pos 3000)
          (pos 1000)
          two_nodes
          0
        ≡ some (nodes', rng'))
      × AllValid nodes'
      × (length nodes' ≡ 2)
      × ((s : ℕ) → made_by two_nodes s ≤ made_by nodes' s))
    ⊎ ((message_step counting two_model (pos 3000) (pos 1000) two_nodes 0 ≡ none)
        × PicksOutside milli counting 2 0 4)
message_step-AllValid_example =
    message_step-AllValid counting two_model (pos 3000) (pos 1000) two_nodes 0 counting-IsShuffling
      refl two_nodes-small two_nodes-AllValid
