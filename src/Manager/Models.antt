-- ===== src/Manager/Models.antt =====
-- The method create of the builders of the models: momosecpp/src/RandomWalkModelBuilder.cpp,
-- RandomWaypointModelBuilder.cpp, HotSpotModelBuilder.cpp, NomadicModelBuilder.cpp,
-- PursueModelBuilder.cpp, EraModelBuilder.cpp and RandomWaypointMessageModelBuilder.cpp.
use simulations.Base.{ℕ, zero, suc, refl, pos, All, All-append, pos_part}
use simulations.Floats.{Floating, IsOrdered}
use simulations.Mobility.Walk.{Walker}
use simulations.Mobility.Groups.{
  each_from, NomadicModel, PursueModel, init_nomadic_model, init_pursue_model, nomadic_set_model,
  pursue_set_model,
}
use simulations.Mobility.Setups.{
  SimpleModel, init_simple_model, simple_set_model, grid_node, grid_from, random_walk_setup,
  random_waypoint_setup, hot_spot_setup, num_groups,
}
use simulations.Era.Walk.{EraModel, init_era_model}
use simulations.Messages.Model.{MessageModel}
use simulations.Messages.Model.Build.{create}
use simulations.Parsers.Simple.{
  SimpleModelParser, simple_get_v_max, simple_get_v_min, simple_get_pause_time,
}
use simulations.Parsers.Nomadic.{
  NomadicModelParser, nomadic_get_v_max, nomadic_get_v_min, nomadic_get_alpha,
  nomadic_get_pause_time,
}
use simulations.Parsers.Pursue.{
  PursueModelParser, pursue_get_v_max, pursue_get_v_min, pursue_get_alpha, pursue_get_target_radius,
}
use simulations.Parsers.Era.{
  EraModelParser, era_get_v_max, era_get_v_min, era_get_pause_time, era_get_col_interval,
}
use simulations.Parsers.Messages.{MessageModelParser}
use simulations.Parsers.Ranges.{NotNegative, if_negative-NotNegative}

each_from-All :
    {A : Type 0} (P : A → Type 0) (make : ℕ → A)
    → ((i : ℕ) → P (make i))
    → (i left : ℕ) → All P (each_from make i left)
each_from-All P make good i zero = tt
each_from-All P make good i (suc left) = (good i, each_from-All P make good (suc i) left)

module _ {F : Floating} where
  unfoldable pub create_random_walk : SimpleModelParser F → SimpleModel F
  unfolding simple_set_model init_simple_model simple_get_v_max simple_get_v_min
      simple_get_pause_time
  create_random_walk p =
      simple_set_model (init_simple_model F) p.base.num_nodes p.base.node_radius
        p.base.antenna_radius (simple_get_pause_time p) (simple_get_v_min p) (simple_get_v_max p)
        p.base.is_physical

  unfoldable pub create_random_waypoint : SimpleModelParser F → SimpleModel F
  unfolding simple_set_model init_simple_model simple_get_v_max simple_get_v_min
      simple_get_pause_time
  create_random_waypoint p =
      simple_set_model (init_simple_model F) p.base.num_nodes p.base.node_radius
        p.base.antenna_radius (simple_get_pause_time p) (simple_get_v_min p) (simple_get_v_max p)
        p.base.is_physical

  unfoldable pub create_hot_spot_model : SimpleModelParser F → SimpleModel F
  unfolding simple_set_model init_simple_model simple_get_v_max simple_get_v_min
      simple_get_pause_time
  create_hot_spot_model p =
      simple_set_model (init_simple_model F) p.base.num_nodes p.base.node_radius
        p.base.antenna_radius (simple_get_pause_time p) (simple_get_v_min p) (simple_get_v_max p)
        p.base.is_physical

  -- `memory` is the new model's, before its constructor.
  unfoldable pub create_nomadic : NomadicModel F → NomadicModelParser F → NomadicModel F
  unfolding nomadic_set_model init_nomadic_model nomadic_get_v_max nomadic_get_v_min
      nomadic_get_alpha nomadic_get_pause_time
  create_nomadic memory p =
      nomadic_set_model (init_nomadic_model F memory) p.base.num_nodes p.base.node_radius
        p.base.antenna_radius (nomadic_get_alpha p) (nomadic_get_v_min p) (nomadic_get_v_max p)
        (nomadic_get_pause_time p) p.base.is_physical

  unfoldable pub create_pursue : PursueModelParser F → PursueModel F
  unfolding pursue_set_model init_pursue_model pursue_get_v_max pursue_get_v_min pursue_get_alpha
      pursue_get_target_radius
  create_pursue p =
      pursue_set_model (init_pursue_model F) p.base.num_nodes p.base.node_radius
        p.base.antenna_radius (pursue_get_alpha p) (pursue_get_v_min p) (pursue_get_v_max p)
        (pursue_get_target_radius p) p.base.is_physical

  -- The node radius and the property of being physical are no part of the model of EraModel.
  unfoldable pub create_era : EraModelParser F → EraModel F
  unfolding init_era_model era_get_v_max era_get_v_min era_get_pause_time era_get_col_interval
  create_era p =
      init_era_model F p.base.num_nodes p.base.antenna_radius (era_get_pause_time p)
        (era_get_col_interval p) (era_get_v_min p) (era_get_v_max p)

  -- The classes of message models differ in the nodes they make, not in setModel.
  unfoldable pub create_waypoint_message : MessageModel F → MessageModelParser F → MessageModel F
  unfolding create
  create_waypoint_message memory p = create memory p

  -- Pauses and speeds that are not negative.
  abbrev pub IsTimed : Walker F → Type 0
  IsTimed w = NotNegative F w.pause_time × NotNegative F w.v_min × NotNegative F w.v_max

  grid_from-IsTimed :
      (m : SimpleModel F) (timed : (i j : ℕ) → IsTimed (grid_node m i j)) (i left : ℕ)
      → All IsTimed (grid_from m i left)
  unfolding grid_from
  grid_from-IsTimed m timed i zero = tt
  grid_from-IsTimed m timed i (suc left) =
      All-append IsTimed (each_from (grid_node m i) 0 30) (grid_from m (suc i) left)
        (each_from-All IsTimed (grid_node m i) (timed i) 0 30)
        (grid_from-IsTimed m timed (suc i) left)

  -- If the comparisons are ordered, then whatever a parser of simple models has read, the nodes
  -- that the setup of the created model makes have pauses and speeds that are not negative.
  pub created-IsTimed :
      IsOrdered F
      → (p : SimpleModelParser F)
      → All IsTimed (random_walk_setup (create_random_walk p))
        × All (λ n. IsTimed n.walker) (random_waypoint_setup (create_random_waypoint p))
        × All (λ n. IsTimed n.walker) (hot_spot_setup (create_hot_spot_model p))
  unfolding create_random_walk create_random_waypoint create_hot_spot_model random_walk_setup
      random_waypoint_setup hot_spot_setup grid_node simple_set_model simple_get_v_max
      simple_get_v_min simple_get_pause_time
  created-IsTimed order p =
      let zero_value : F.Float = F.of_int (pos 0) in
      let floor_of = λ (a : F.Float).
        if_negative-NotNegative F (F.flt a zero_value) zero_value a (order.lt_irrefl zero_value)
          refl in
      let timed : NotNegative F _ × NotNegative F _ × NotNegative F _ =
        (floor_of p.pause_time, floor_of p.v_min, floor_of p.v_max) in
      (
        grid_from-IsTimed (create_random_walk p) (λ i j. timed) 0 (num_groups p.base.num_nodes),
        each_from-All (λ n. IsTimed n.walker) _ (λ i. timed) 0 (pos_part p.base.num_nodes),
        each_from-All (λ n. IsTimed n.walker) _ (λ i. timed) 0 (pos_part p.base.num_nodes),
      )
