-- ===== src/Graph/MemoryPlan.antt =====
-- `graph_memory_plan_impl`: the lifetimes are registered with the planner, and its offsets are copied
-- to the numbers of the values. `sort` and `memory` are the parameters of `plan_build`.
pub mod Register
pub mod Layout
pub mod Sound
pub mod Persistent
use prospero_ai.Prelude.{
  ℕ, zero, suc, ◌+◌, ◌-◌, Bool, true, false, ◌||◌, List, [], ◌∷◌, length, get_or, drop, ltb, ◌==◌,
  if◌then◌else◌,
}
use prospero_ai.Status.{Status, Result, ok, err, ◌>>=◌, is_success}
use prospero_ai.Memory.Planner.{Planner, planner_init, planner_add}
use prospero_ai.Memory.Planner.Sweep.{SortEntry}
use prospero_ai.Memory.Planner.Build.{Plan, plan_build}
use prospero_ai.Graph.Defs.{Value, Graph, max_values}
use prospero_ai.Graph.Lifetime.{
  Span, blank_span, ensure_sorted, value_lifetimes, value_lifetimes_persistent,
}

-- pai_graph_mem_plan_t: the offsets start with entry 0.
pub record MemPlan : Type 0 where
  pub base : Plan
  pub offsets : List ℕ
  pub region_bytes : ℕ
  pub naive_bytes : ℕ
  pub peak_live : ℕ

-- The loop that registers the values, from one value and its span on.
unfoldable pub add_values : List Value → List Span → Planner → Result Planner
unfolding planner_add
add_values [] spans p = ok p
add_values (value ∷ rest) spans p =
    let s = get_or spans 0 blank_span in
    planner_add p value.size_bytes value.align s.start s.end >>= λ q.
    add_values rest (drop 1 spans) q

-- out->offsets[v] = out->base.offsets[v - 1];
unfoldable pub copy_offsets : List Value → (offsets : List ℕ) → List ℕ
copy_offsets [] offsets = []
copy_offsets (value ∷ rest) offsets = get_or offsets 0 0 ∷ copy_offsets rest (drop 1 offsets)

-- After `pai_mem_plan_free` the plan of the planner has no offsets.
unfoldable pub copy_plan : List Value → Plan → MemPlan
unfolding copy_offsets
copy_plan values plan = record {
  base = record plan { offsets = [] };
  offsets = 0 ∷ copy_offsets values plan.offsets;
  region_bytes = plan.region_bytes;
  naive_bytes = plan.naive_bytes;
  peak_live = plan.peak_live;
}

-- if (plan == NULL || value == 0 || value > PAI_GRAPH_MAX_VALUES) return 0;
unfoldable pub mem_plan_offset : MemPlan → ℕ → ℕ
mem_plan_offset plan v = if v == 0 || ltb max_values v then 0 else get_or plan.offsets v 0

module _ (sort : List SortEntry → List SortEntry) (memory : Bool) where
  unfoldable pub plan_spans : List Value → List Span → Result MemPlan
  unfolding add_values planner_init plan_build copy_plan
  plan_spans values spans = add_values values spans planner_init >>= λ p.
      plan_build sort memory p >>= λ plan. ok (copy_plan values plan)

  unfoldable pub memory_plan_impl : Graph → (persistent : Bool) → Result MemPlan × Graph
  unfolding plan_spans ensure_sorted value_lifetimes value_lifetimes_persistent
  memory_plan_impl g persistent =
      let first = ensure_sorted g in
      let r = if persistent then value_lifetimes_persistent first.1 else value_lifetimes first.1 in
      if is_success first.0
      then (
        (if is_success r.0.0 then plan_spans (drop 1 r.0.1.values) (drop 1 r.1) else err r.0.0),
        r.0.1,
      )
      else (err first.0, first.1)

  unfoldable pub memory_plan : Graph → Result MemPlan × Graph
  unfolding memory_plan_impl
  memory_plan g = memory_plan_impl g false

  unfoldable pub memory_plan_persistent : Graph → Result MemPlan × Graph
  unfolding memory_plan_impl
  memory_plan_persistent g = memory_plan_impl g true
