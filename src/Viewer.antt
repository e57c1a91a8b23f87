-- ===== src/Viewer.antt =====
-- class ViewerRecorder (momosecpp/src/ViewerRecorder.cpp, momosecpp/src/include/ViewerRecorder.h):
-- the trace that the viewer shows. An element of the file is a value: the text of the numbers, the
-- file and its compression are not modelled.
mod Memory
pub mod Replay
use mathlib.Core.Option.{map as map_option}
use simulations.Base.{
  ℕ, ◌≡◌, Bool, true, false, ◌&&◌, List, [], ◌∷◌, ◌++◌, if◌then◌else◌, length, ℤ, pos, negsuc,
  eqb_ℤ, Option, none, some, replicate, map,
}
use simulations.Floats.{Floating}
use simulations.Node.{Node, Color, color}
use simulations.Simulation.Clock.{SimTime}

-- What was last written about a node.
pub record LastInfo (F : Floating) : Type 0 where
  pub ar : F.Float
  pub color : Color

-- <NT x= y= ar= r= g= b=/>: the antenna radius and the colour are left out when they have not changed.
pub record NodeInfo (F : Floating) : Type 0 where
  pub x : F.Float
  pub y : F.Float
  pub ar : Option F.Float
  pub rgb : Option Color

-- <Time t= loop=>
pub record TimeInfo (F : Floating) : Type 0 where
  pub t : F.Float
  pub loop : ℤ
  pub infos : List (NodeInfo F)

-- `radii` is the <Nodes> element, and `times` the <Time> elements so far.
pub record ViewerRecorder (F : Floating) : Type 0 where
  pub lasts : List (LastInfo F)
  pub radii : List F.Float
  pub times : List (TimeInfo F)

abbrev pub same_color : Color → Color → Bool
same_color c d = eqb_ℤ c.red d.red && (eqb_ℤ c.green d.green && eqb_ℤ c.blue d.blue)

abbrev pub no_color : Color
no_color = color (negsuc 0) (negsuc 0) (negsuc 0)

abbrev pub written : {A : Type 0} → Bool → A → Option A
written b a = if b then some a else none

module _ (F : Floating) where
  unfoldable pub init_last_info : LastInfo F
  init_last_info = record { ar = F.of_int (negsuc 0); color = no_color }

module _ {F : Floating} where
  unfoldable pub cfr_and_swap_ar : LastInfo F → F.Float → LastInfo F × Bool
  cfr_and_swap_ar last now =
      if F.feq last.ar (F.of_int (negsuc 0))
      then (record last { ar = now }, true)
      else if F.feq last.ar now
      then (last, false)
      else (record last { ar = now }, true)

  unfoldable pub cfr_and_swap_color : LastInfo F → Color → LastInfo F × Bool
  cfr_and_swap_color last now =
      if same_color last.color no_color
      then (record last { color = now }, true)
      else if same_color last.color now
      then (last, false)
      else (record last { color = now }, true)

  -- addNodesToVector, over the models in order
  unfoldable pub all_nodes : List (List (Node F)) → List (Node F)
  all_nodes [] = []
  all_nodes (nodes ∷ models) = nodes ++ all_nodes models

  -- setupLastInfo, over the models in order
  unfoldable pub setup_last_info : List (List (Node F)) → List (LastInfo F)
  unfolding init_last_info
  setup_last_info [] = []
  setup_last_info (nodes ∷ models) =
      replicate (length nodes) (init_last_info F) ++ setup_last_info models

  unfoldable pub write_base_node : List (Node F) → List F.Float
  write_base_node nodes = map (λ n. n.radius) nodes

  unfoldable pub setup_viewer : List (List (Node F)) → ViewerRecorder F
  unfolding all_nodes setup_last_info write_base_node
  setup_viewer models = record {
    lasts = setup_last_info models;
    radii = write_base_node (all_nodes models);
    times = [];
  }

  -- The body of the loop of writeNodeInfo.
  unfoldable pub write_node : LastInfo F → Node F → LastInfo F × NodeInfo F
  unfolding cfr_and_swap_ar cfr_and_swap_color
  write_node last node =
      let p = cfr_and_swap_ar last node.antenna_radius in
      let q = cfr_and_swap_color p.0 node.tint in
      (
        q.0,
        record {
          x = node.position.x;
          y = node.position.y;
          ar = written p.1 node.antenna_radius;
          rgb = written q.1 node.tint;
        },
      )

  abbrev pub put_info :
      LastInfo F × NodeInfo F
      → List (LastInfo F) × List (NodeInfo F)
      → List (LastInfo F) × List (NodeInfo F)
  put_info p r = (p.0 ∷ r.0, p.1 ∷ r.1)

  -- `lasts.at(i)` throws when there is no entry for a node.
  unfoldable pub write_node_info :
      List (Node F) → List (LastInfo F) → Option (List (LastInfo F) × List (NodeInfo F))
  unfolding write_node
  write_node_info [] lasts = some (lasts, [])
  write_node_info (node ∷ nodes) [] = none
  write_node_info (node ∷ nodes) (last ∷ lasts) =
      map_option (put_info (write_node last node)) (write_node_info nodes lasts)

  abbrev pub put_time :
      ViewerRecorder F → SimTime F → List (LastInfo F) × List (NodeInfo F) → ViewerRecorder F
  put_time v st r = record v {
    lasts = r.0;
    times = v.times ++ record { t = st.time; loop = st.loop; infos = r.1 } ∷ [];
  }

  -- The nodes as they are when the time is recorded.
  unfoldable pub record_time :
      ViewerRecorder F → SimTime F → List (Node F) → Option (ViewerRecorder F)
  unfolding write_node_info
  record_time v st nodes = map_option (put_time v st) (write_node_info nodes v.lasts)
