-- ===== src/Graph/MemoryPlan/Sound.antt =====
-- The memory plan of a graph.
use prospero_ai.Prelude.{
  ℕ, suc, ◌+◌, ◌%◌, ◌^◌, ◌≤◌, ◌<◌, ◌≡◌, ◌≢◌, refl, sym, subst, ap, ◌∙◌, true, List, All, length,
  length-drop, get_or, get_or-drop, drop, arith,
}
use prospero_ai.Prelude.Occurs.{occurs}
use mathlib.Core.List.{Permᴰ}
use prospero_ai.Status.{Status, ok, ◌>>=◌}
use prospero_ai.Memory.Align.{is_pow2}
use prospero_ai.Memory.Planner.{Planner, max_allocs, planner_init}
use prospero_ai.Memory.Planner.Sweep.{SortEntry}
use prospero_ai.Memory.Planner.Build.{Plan, sort_entries, plan_build}
use prospero_ai.Memory.Planner.Build.Schedule.{IsSorted}
use prospero_ai.Memory.Planner.Build.Disjoint.{plan_build-Planned}
use prospero_ai.Graph.Defs.{Value, Graph, num_ops, value_at, op_at}
use prospero_ai.Graph.Build.{IsGraph}
use prospero_ai.Graph.Topo.Schedule.{IsOp}
use prospero_ai.Graph.Reach.Timed.{IsTimed, MarkedTimed}
use prospero_ai.Graph.Lifetime.{Span, blank_span, all_spans, ensure_sorted}
use prospero_ai.Graph.Lifetime.Cover.{IsValue, Covers, produced_by_op, all_spans-Covers}
use prospero_ai.Graph.Lifetime.Run.{value_lifetimes_marked, ensure_sorted_lem}
use prospero_ai.Graph.MemoryPlan.{
  MemPlan, copy_plan, plan_spans, mem_plan_offset, memory_plan_impl, memory_plan,
}
use prospero_ai.Graph.MemoryPlan.Register.{
  IsPlaceable, allocs_of, need_values, add_values_lem, need-allocs_of, allocs_of-IsAlloc,
}
use prospero_ai.Graph.MemoryPlan.Layout.{HoldsByte, Apart, Planned-Apart, LaidOut, laid_out}

-- A plan under which the operations can run in the order of their epochs, each reading its inputs
-- and writing its outputs: values lie aligned within the region, no operation overwrites a value
-- that was produced before and is read by itself or later, and none overwrites an output.
pub record Runnable (g : Graph) (plan : MemPlan) : Type 0 where
  pub places :
      (v : ℕ)
      → IsValue g v
      → (mem_plan_offset plan v + (value_at g v).size_bytes ≤ plan.region_bytes)
        × (mem_plan_offset plan v % (value_at g v).align ≡ 0)
  pub kept :
      (r v o u x : ℕ)
      → IsOp g r
      → occurs v (op_at g r).inputs ≢ 0
      → IsOp g o
      → occurs u (op_at g o).outputs ≢ 0
      → u ≢ v
      → (op_at g (value_at g v).producer).epoch ≤ (op_at g o).epoch
      → (op_at g o).epoch ≤ (op_at g r).epoch
      → HoldsByte (mem_plan_offset plan u) (value_at g u).size_bytes x
      → HoldsByte (mem_plan_offset plan v) (value_at g v).size_bytes x
      → ⊥
  pub lasts :
      (v o u x : ℕ)
      → IsValue g v
      → (value_at g v).is_output ≡ true
      → IsOp g o
      → occurs u (op_at g o).outputs ≢ 0
      → u ≢ v
      → (op_at g (value_at g v).producer).epoch ≤ (op_at g o).epoch
      → HoldsByte (mem_plan_offset plan u) (value_at g u).size_bytes x
      → HoldsByte (mem_plan_offset plan v) (value_at g v).size_bytes x
      → ⊥

pub LaidOut-Runnable :
    (g : Graph) (spans : List Span) (plan : MemPlan)
    → IsGraph g
    → IsTimed g
    → Covers g spans
    → LaidOut g spans plan
    → Runnable g plan
LaidOut-Runnable g spans plan w t c l = record {
  places = l.places;
  kept = λ r v o u x i found j made ne from until h h'.
      let iv = w.exists r v found in
      l.apart u v (op_at g o).epoch x ne (produced_by_op g w o u j.0 made).1 iv
        (c.writes o u j made).0 (omega (arith, c.starts v iv, from, until, (c.reads r v i found).1))
        h h';
  lasts = λ v o u x iv out j made ne from h h'.
      l.apart u v (op_at g o).epoch x ne (produced_by_op g w o u j.0 made).1 iv
        (c.writes o u j made).0 (omega (arith, c.starts v iv, from, c.lasts v iv out, t.bound o j))
        h h';
}

-- What `qsort` is called with.
abbrev pub entries_of : List Value → List Span → List SortEntry
entries_of values spans = sort_entries (allocs_of values spans) 0

module _ (sort : List SortEntry → List SortEntry) where
  -- `qsort` leaves a sorted permutation.
  abbrev pub Sorts : List SortEntry → Type 0
  Sorts es = IsSorted (sort es) × Permᴰ es (sort es)

  plan_spans_lem :
      (values : List Value) (spans : List Span)
      → All IsPlaceable values
      → ((j : ℕ)
          → j < length values
          → (get_or spans j blank_span).start < (get_or spans j blank_span).end)
      → length values ≤ max_allocs
      → need_values values + 1 < 2 ^ 64
      → Sorts (entries_of values spans)
      → (plan : Plan) × (plan_spans sort true values spans ≡ ok (copy_plan values plan))
        × Apart values spans plan.offsets plan.region_bytes
  unfolding plan_spans planner_init
  plan_spans_lem values spans fine lives few room sorts =
      let p : Planner = record { allocs = allocs_of values spans; arena_align = 0 } in
      let (plan, built, planned) =
        plan_build-Planned sort p sorts.0 sorts.1 (allocs_of-IsAlloc values spans fine)
          (unfold is_pow2 in refl) (omega (arith, need-allocs_of values spans 0, room)) in
      (
        plan,
        (ap (λ r. r >>= λ q. plan_build sort true q >>= λ plan. ok (copy_plan values plan))
              (add_values_lem values spans planner_init fine lives (omega (arith, few)))
            ∙ ap (λ r. r >>= λ plan. ok (copy_plan values plan)) built),
        Planned-Apart values spans plan planned,
      )

  -- A plan for a graph whose values have spans that cover their uses.
  pub spans_planned :
      (h : Graph) (spans : List Span)
      → IsGraph h
      → Covers h spans
      → 0 < num_ops h
      → All IsPlaceable (drop 1 h.values)
      → need_values (drop 1 h.values) + 1 < 2 ^ 64
      → Sorts (entries_of (drop 1 h.values) (drop 1 spans))
      → (plan : MemPlan) × (plan_spans sort true (drop 1 h.values) (drop 1 spans) ≡ ok plan)
        × LaidOut h spans plan
  spans_planned h spans w c some_op fine room sorts =
      let (plan, made, apart) =
        plan_spans_lem (drop 1 h.values) (drop 1 spans) fine
          (λ j lt.
            subst (λ s. s.start < s.end) (sym (get_or-drop spans j blank_span))
              (c.occupied some_op (suc j) (omega (arith, lt, length-drop 1 h.values))))
          (omega (arith, length-drop 1 h.values, w.few)) room sorts in
      (copy_plan (drop 1 h.values) plan, made, laid_out h w spans plan apart)

  -- The plan is made for the sorted graph.
  memory_plan_steps :
      (g : Graph)
      → (ensure_sorted g).0 ≡ Status.success
      → (ensure_sorted g).1.sorted ≡ true
      → memory_plan sort true g ≡ (
        plan_spans sort true
            (drop 1 (ensure_sorted g).1.values)
            (drop 1 (all_spans (ensure_sorted g).1)),
        (ensure_sorted g).1,
      )
  unfolding memory_plan memory_plan_impl
  memory_plan_steps g success marked =
      rw (success, value_lifetimes_marked (ensure_sorted g).1 marked) refl

  -- Planning the memory of a well-formed graph with operations, sorted by now or marked as sorted
  -- with the right epochs: when sorting succeeds, `qsort` leaves a sorted permutation, every value is
  -- placeable (its alignment is a power of two, its size is not 0 and does not overflow when rounded
  -- up), and the sizes and alignments stay below 2^64 in sum, a plan is returned, under which the
  -- operations of the graph can run.
  pub memory_plan_sound :
      (g : Graph)
      → IsGraph g
      → MarkedTimed g
      → 0 < num_ops g
      → (ensure_sorted g).0 ≡ Status.success
      → All IsPlaceable (drop 1 g.values)
      → need_values (drop 1 g.values) + 1 < 2 ^ 64
      → Sorts
          (entries_of (drop 1 (ensure_sorted g).1.values) (drop 1 (all_spans (ensure_sorted g).1)))
      → (plan : MemPlan) × ((memory_plan sort true g).0 ≡ ok plan)
        × Runnable (memory_plan sort true g).1 plan
  memory_plan_sound g w m some_op success fine room sorts =
      let r = ensure_sorted_lem g w m success in
      let h : Graph = (ensure_sorted g).1 in
      let steps = memory_plan_steps g success r.same.1.1 in
      let c = all_spans-Covers h r.graph r.timed in
      let (plan, made, l) =
        spans_planned h (all_spans h) r.graph c (omega (arith, r.same.1.0, some_op))
          (subst (λ vs. All IsPlaceable (drop 1 vs)) (sym r.same.0) fine)
          (subst (λ vs. need_values (drop 1 vs) + 1 < 2 ^ 64) (sym r.same.0) room) sorts in
      (
        plan,
        ap (λ q. q.0) steps ∙ made,
        subst (λ q. Runnable q.1 plan) (sym steps)
            (LaidOut-Runnable h (all_spans h) plan r.graph r.timed c l),
      )
