-- ===== src/Graph/Reach.antt =====
-- The graphs that the operations of the module lead to, and that they are well formed.
pub mod Retain
pub mod Insert
pub mod Timed
use prospero_ai.Prelude.{ℕ, ◌≡◌, true, List, Option}
use prospero_ai.Tensor.Element.{Dtype}
use prospero_ai.Graph.Defs.{Graph, graph_init, add_value, add_op, set_input, set_output}
use prospero_ai.Graph.Build.{IsGraph}
use prospero_ai.Graph.Topo.{topo_sort}
use prospero_ai.Graph.Reach.Retain.{
  graph_init-IsGraph, add_value-IsGraph, set_input-IsGraph, set_output-IsGraph, topo_sort-IsGraph,
}
use prospero_ai.Graph.Reach.Insert.{add_op-IsGraph}
use prospero_ai.Graph.Reach.Timed.{
  IsTimed, graph_init-MarkedTimed, add_value-MarkedTimed, add_op-MarkedTimed, set_input-MarkedTimed,
  set_output-MarkedTimed, topo_sort-MarkedTimed,
}

-- `pai_graph_init` and then any calls, in any order.
pub data Reachable : Graph → Type 0 where
  started : Reachable graph_init
  value_added :
      {g : Graph} (dtype : Dtype) (shape : Option (List ℕ)) (align : ℕ)
      → Reachable g
      → Reachable (add_value g dtype shape align).0
  op_added :
      {g : Graph} (kind : ℕ) (inputs outputs : Option (List ℕ))
      → Reachable g
      → Reachable (add_op g kind inputs outputs).0
  input_set : {g : Graph} (v : ℕ) → Reachable g → Reachable (set_input g v)
  output_set : {g : Graph} (v : ℕ) → Reachable g → Reachable (set_output g v)
  topo_sorted : {g : Graph} → Reachable g → Reachable (topo_sort g).1

-- Every graph that calls of the module lead to, whatever their arguments and whether they succeed,
-- is well formed: each value is an output of the operation that it names as its producer, once, and
-- of no other one; no operation consumes what it produces; inputs are values of the graph; there are
-- 1024 operations with 16 inputs each at most.
pub Reachable-IsGraph : {g : Graph} → Reachable g → IsGraph g
Reachable-IsGraph started = graph_init-IsGraph
Reachable-IsGraph (value_added {g} dtype shape align r) =
    add_value-IsGraph g dtype shape align (Reachable-IsGraph r)
Reachable-IsGraph (op_added {g} kind inputs outputs r) =
    add_op-IsGraph g kind inputs outputs (Reachable-IsGraph r)
Reachable-IsGraph (input_set {g} v r) = set_input-IsGraph g v (Reachable-IsGraph r)
Reachable-IsGraph (output_set {g} v r) = set_output-IsGraph g v (Reachable-IsGraph r)
Reachable-IsGraph (topo_sorted {g} r) = topo_sort-IsGraph g (Reachable-IsGraph r)

-- Every graph that calls of the module lead to and that is marked as sorted has epochs that respect
-- its edges: adding an operation takes the mark off, the other calls keep the epochs right.
pub Reachable-IsTimed : {g : Graph} → Reachable g → g.sorted ≡ true → IsTimed g
Reachable-IsTimed started = graph_init-MarkedTimed
Reachable-IsTimed (value_added {g} dtype shape align r) =
    add_value-MarkedTimed g dtype shape align (Reachable-IsTimed r)
Reachable-IsTimed (op_added {g} kind inputs outputs r) =
    add_op-MarkedTimed g kind inputs outputs (Reachable-IsTimed r)
Reachable-IsTimed (input_set {g} v r) = set_input-MarkedTimed g v (Reachable-IsTimed r)
Reachable-IsTimed (output_set {g} v r) = set_output-MarkedTimed g v (Reachable-IsTimed r)
Reachable-IsTimed (topo_sorted {g} r) = topo_sort-MarkedTimed g (Reachable-IsGraph r)
