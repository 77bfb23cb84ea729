-- ===== src/Graph/MemoryPlan/Persistent.antt =====
-- The plan of the persistent variant: inputs and parameters are never overwritten.
use prospero_ai.Prelude.{
  ℕ, ◌+◌, ◌^◌, ◌<◌, ◌≡◌, ◌≢◌, refl, sym, subst, ap, ◌∙◌, true, List, All, drop, arith,
}
use prospero_ai.Prelude.Occurs.{occurs}
use prospero_ai.Status.{Status, ok}
use prospero_ai.Memory.Planner.Sweep.{SortEntry}
use prospero_ai.Graph.Defs.{Graph, num_ops, value_at, op_at}
use prospero_ai.Graph.Build.{IsGraph}
use prospero_ai.Graph.Topo.Schedule.{IsOp}
use prospero_ai.Graph.Reach.Timed.{IsTimed, MarkedTimed}
use prospero_ai.Graph.Lifetime.{
  Span, all_spans, persist_all, ensure_sorted, value_lifetimes_persistent,
}
use prospero_ai.Graph.Lifetime.Cover.{IsValue, all_spans-Covers, produced_by_op}
use prospero_ai.Graph.Lifetime.Run.{ensure_sorted_lem, value_lifetimes_marked}
use prospero_ai.Graph.Lifetime.Persist.{persist_end, starts_at_zero, persist_all-Covers}
use prospero_ai.Graph.MemoryPlan.{
  MemPlan, plan_spans, mem_plan_offset, memory_plan_impl, memory_plan_persistent,
}
use prospero_ai.Graph.MemoryPlan.Register.{IsPlaceable, need_values}
use prospero_ai.Graph.MemoryPlan.Layout.{HoldsByte, LaidOut}
use prospero_ai.Graph.MemoryPlan.Sound.{
  Runnable, LaidOut-Runnable, entries_of, Sorts, spans_planned,
}

-- A plan under which the operations can run again and again: what no operation produces, none of
-- them overwrites.
pub record Rerunnable (g : Graph) (plan : MemPlan) : Type 0 where
  pub runs : Runnable g plan
  pub params :
      (v o u x : ℕ)
      → IsValue g v
      → (value_at g v).producer ≡ 0
      → IsOp g o
      → occurs u (op_at g o).outputs ≢ 0
      → HoldsByte (mem_plan_offset plan u) (value_at g u).size_bytes x
      → HoldsByte (mem_plan_offset plan v) (value_at g v).size_bytes x
      → ⊥

abbrev persistent_spans : Graph → List Span
persistent_spans g = persist_all g (all_spans g)

LaidOut-Rerunnable :
    (g : Graph) (plan : MemPlan)
    → IsGraph g
    → IsTimed g
    → LaidOut g (persistent_spans g) plan
    → Rerunnable g plan
LaidOut-Rerunnable g plan w t l =
    let c = all_spans-Covers g w t in
    let c' = persist_all-Covers g w t (all_spans g) c in
    record {
      runs = LaidOut-Runnable g (persistent_spans g) plan w t c' l;
      params = λ v o u x i none_makes j made h h'.
          let p = produced_by_op g w o u j.0 made in
          l.apart u v (op_at g o).epoch x
            (λ e. omega (arith, ap (λ k. (value_at g k).producer) e, p.0, none_makes, j)) p.1 i
            (c'.writes o u j made).0
            (
              omega (
                arith,
                c'.starts v i,
                c.starts v i,
                starts_at_zero g w t (all_spans g) c v i none_makes,
              ),
              ground (arith, persist_end g w t (all_spans g) c v i, none_makes, t.bound o j),
            )
            h h';
    }

module _ (sort : List SortEntry → List SortEntry) where
  persistent_steps :
      (g : Graph)
      → (ensure_sorted g).0 ≡ Status.success
      → (ensure_sorted g).1.sorted ≡ true
      → memory_plan_persistent sort true g ≡ (
        plan_spans sort true
            (drop 1 (ensure_sorted g).1.values)
            (drop 1 (persistent_spans (ensure_sorted g).1)),
        (ensure_sorted g).1,
      )
  unfolding memory_plan_persistent memory_plan_impl value_lifetimes_persistent
  persistent_steps g success marked =
      rw (success, value_lifetimes_marked (ensure_sorted g).1 marked) refl

  -- Planning the memory for repeated runs of a well-formed graph with operations, sorted by now or
  -- marked as sorted with the right epochs: when sorting succeeds, `qsort` leaves a sorted
  -- permutation, every value is placeable, and the sizes and alignments stay below 2^64 in sum, a
  -- plan is returned, under which the operations can run and overwrite no value that none produces.
  pub memory_plan_persistent_sound :
      (g : Graph)
      → IsGraph g
      → MarkedTimed g
      → 0 < num_ops g
      → (ensure_sorted g).0 ≡ Status.success
      → All IsPlaceable (drop 1 g.values)
      → need_values (drop 1 g.values) + 1 < 2 ^ 64
      → Sorts sort (
          entries_of
            (drop 1 (ensure_sorted g).1.values)
            (drop 1 (persist_all (ensure_sorted g).1 (all_spans (ensure_sorted g).1))))
      → (plan : MemPlan) × ((memory_plan_persistent sort true g).0 ≡ ok plan)
        × Rerunnable (memory_plan_persistent sort true g).1 plan
  memory_plan_persistent_sound g w m some_op success fine room sorts =
      let r = ensure_sorted_lem g w m success in
      let h : Graph = (ensure_sorted g).1 in
      let steps = persistent_steps g success r.same.1.1 in
      let c =
        persist_all-Covers h r.graph r.timed (all_spans h) (all_spans-Covers h r.graph r.timed) in
      let (plan, made, l) =
        spans_planned sort h (persistent_spans h) r.graph c (omega (arith, r.same.1.0, some_op))
          (subst (λ vs. All IsPlaceable (drop 1 vs)) (sym r.same.0) fine)
          (subst (λ vs. need_values (drop 1 vs) + 1 < 2 ^ 64) (sym r.same.0) room) sorts in
      (
        plan,
        ap (λ q. q.0) steps ∙ made,
        subst (λ q. Rerunnable q.1 plan) (sym steps) (LaidOut-Rerunnable h plan r.graph r.timed l),
      )
