-- ===== src/Graph/Lifetime.antt =====
-- `pai_graph_value_lifetimes` and its persistent variant: the epochs between which each value is live.
pub mod Marks
pub mod Cover
pub mod Run
pub mod Persist
use prospero_ai.Prelude.{
  ℕ, zero, suc, ◌+◌, ◌-◌, Bool, true, false, not, List, [], ◌∷◌, length, get_or, set, drop,
  replicate, ltb, ◌==◌, if◌then◌else◌,
}
use prospero_ai.Status.{Status, is_success}
use prospero_ai.Graph.Defs.{Value, Op, Graph, blank_op, blank_value, max_values, num_ops, op_at}
use prospero_ai.Graph.Topo.{topo_sort}

-- `last_use` and `used`.
pub record Uses : Type 0 where
  pub last_use : List ℕ
  pub used : List Bool

-- out_start[v] and out_end[v].
pub record Span : Type 0 where
  pub start : ℕ
  pub end : ℕ

-- The body of the loop over the inputs of an operation of the epoch.
unfoldable pub mark_input : (epoch v : ℕ) → Uses → Uses
mark_input epoch v s = record {
  used = set s.used v true;
  last_use = if ltb (get_or s.last_use v 0) epoch then set s.last_use v epoch else s.last_use;
}

unfoldable pub mark_inputs : (epoch : ℕ) → (inputs : List ℕ) → Uses → Uses
unfolding mark_input
mark_inputs epoch [] s = s
mark_inputs epoch (v ∷ rest) s = mark_inputs epoch rest (mark_input epoch v s)

unfoldable pub mark_ops : List Op → Uses → Uses
unfolding mark_inputs
mark_ops [] s = s
mark_ops (op ∷ rest) s = mark_ops rest (mark_inputs op.epoch op.inputs s)

unfoldable pub unmarked : Uses
unmarked = record {
  last_use = replicate (max_values + 1) 0;
  used = replicate (max_values + 1) false;
}

unfoldable pub value_span : Graph → Uses → (v : ℕ) → Value → Span
value_span g s v value =
    let start = if not (value.producer == 0) then (op_at g value.producer).epoch else 0 in
    record {
      start = start;
      end =
          if value.is_output
          then num_ops g
          else if get_or s.used v false
          then get_or s.last_use v 0 + 1
          else start + 1;
    }

-- From value `v` on.
unfoldable pub value_spans : Graph → Uses → (v : ℕ) → List Value → List Span
unfolding value_span
value_spans g s v [] = []
value_spans g s v (value ∷ rest) = value_span g s v value ∷ value_spans g s (v + 1) rest

abbrev pub blank_span : Span
blank_span = record { start = 0; end = 0 }

-- What the two arrays hold for a graph that is sorted.
unfoldable pub all_spans : Graph → List Span
unfolding mark_ops unmarked value_spans
all_spans g = blank_span ∷ value_spans g (mark_ops (drop 1 g.ops) unmarked) 1 (drop 1 g.values)

-- if (!graph->sorted) st = pai_graph_topo_sort(graph);
unfoldable pub ensure_sorted : Graph → Status × Graph
unfolding topo_sort
ensure_sorted g = if g.sorted then (Status.success, g) else topo_sort g

-- The arrays are given up to the number of values: behind it, and after a failure, they hold 0.
unfoldable pub lifetimes_of : Status → Graph → (Status × Graph) × List Span
unfolding all_spans
lifetimes_of Status.success h = ((Status.success, h), all_spans h)
lifetimes_of st h = ((st, h), [])

unfoldable pub value_lifetimes : Graph → (Status × Graph) × List Span
unfolding ensure_sorted lifetimes_of
value_lifetimes g = lifetimes_of (ensure_sorted g).0 (ensure_sorted g).1

-- if (graph->values[v].producer == 0) out_end[v] = graph->num_ops;
unfoldable pub persist : (num_ops : ℕ) → List Value → List Span → List Span
persist n [] spans = spans
persist n (value ∷ rest) [] = []
persist n (value ∷ rest) (s ∷ spans) =
    (if value.producer == 0 then record s { end = n } else s) ∷ persist n rest spans

-- From value 1 on.
unfoldable pub persist_all : Graph → List Span → List Span
unfolding persist
persist_all h [] = []
persist_all h (s ∷ spans) = s ∷ persist (num_ops h) (drop 1 h.values) spans

unfoldable pub value_lifetimes_persistent : Graph → (Status × Graph) × List Span
unfolding value_lifetimes persist_all
value_lifetimes_persistent g =
    let r = value_lifetimes g in (r.0, if is_success r.0.0 then persist_all r.0.1 r.1 else r.1)
