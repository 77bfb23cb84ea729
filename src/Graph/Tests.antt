-- ===== src/Graph/Tests.antt =====
-- The theorems on the graph at concrete inputs: two operations, of which the first one added
-- consumes what the second one produces.
use prospero_ai.Prelude.{
  ℕ, zero, suc, ◌<◌, ◌≡◌, ◌≢◌, refl, sym, subst, ap, Bool, true, false, some, List, [], ◌∷◌, All,
  drop, ◌==◌, if◌then◌else◌, arith,
}
use prospero_ai.Prelude.Occurs.{occurs}
use mathlib.Core.List.{Permᴰ}
use prospero_ai.Status.{Status, ok}
use prospero_ai.Memory.Align.{is_pow2}
use prospero_ai.Memory.Planner.Sweep.{SortEntry}
use prospero_ai.Memory.Planner.Build.{sort_entries, alloc_cmp}
use prospero_ai.Memory.Planner.Build.Schedule.{IsSorted}
use native.Mathlib.Decide.{ℕ_discrete}
use prospero_ai.Tensor.Element.{Dtype, dtype_size}
use prospero_ai.Tensor.{contiguous_size}
use prospero_ai.Graph.Defs.{
  Value, Graph, blank_value, blank_op, value_at, op_at, graph_init, add_value, add_op, set_input,
  set_output,
}
use prospero_ai.Graph.Build.{IsGraph}
use prospero_ai.Graph.Topo.{topo_sort}
use prospero_ai.Graph.Topo.Schedule.{Scheduled, topo_sort_sound, topo_sort_complete}
use prospero_ai.Graph.Reach.{Reachable, Reachable-IsGraph, Reachable-IsTimed}
use prospero_ai.Graph.Reach.Timed.{IsTimed, MarkedTimed}
use prospero_ai.Graph.Lifetime.{persist_all, all_spans, ensure_sorted, value_lifetimes}
use prospero_ai.Graph.Lifetime.Cover.{Covers}
use prospero_ai.Graph.Lifetime.Run.{value_lifetimes_cover}
use prospero_ai.Graph.MemoryPlan.Persistent.{Rerunnable, memory_plan_persistent_sound}
use prospero_ai.Graph.MemoryPlan.{memory_plan_persistent, MemPlan, memory_plan}
use prospero_ai.Graph.MemoryPlan.Register.{IsPlaceable, allocs_of, need_values}
use prospero_ai.Graph.MemoryPlan.Sound.{entries_of, Sorts, Runnable, memory_plan_sound}

abbrev value : ℕ → Bool → Bool → Value
value producer is_input is_output = record {
  dtype = Dtype.f32;
  shape = 4 ∷ [];
  size_bytes = 16;
  align = 16;
  producer = producer;
  is_input = is_input;
  is_output = is_output;
}

abbrev chain : Graph
chain = record {
  values = blank_value ∷ value 0 true false ∷ value 2 false false ∷ value 1 false true ∷ [];
  ops =
      blank_op
      ∷ record { kind = 1; inputs = 2 ∷ []; outputs = 3 ∷ []; epoch = 0 }
      ∷ record { kind = 2; inputs = 1 ∷ []; outputs = 2 ∷ []; epoch = 0 }
      ∷ [];
  sorted = false;
}

abbrev three_values : Graph
three_values =
    (add_value
      (add_value (add_value graph_init Dtype.f32 (some (4 ∷ [])) 0).0 Dtype.f32 (some (4 ∷ [])) 0).0
      Dtype.f32 (some (4 ∷ [])) 16).0

abbrev calls : Graph
calls =
    set_output
      (set_input
        (add_op (add_op three_values 1 (some (2 ∷ [])) (some (3 ∷ []))).0 2 (some (1 ∷ []))
          (some (2 ∷ []))).0
        1)
      3

calls-chain : calls ≡ chain
unfolding set_output set_input add_op add_value graph_init contiguous_size dtype_size
calls-chain = refl

chain-Reachable : Reachable chain
chain-Reachable = subst Reachable calls-chain (
    Reachable.output_set 3 (
      Reachable.input_set 1 (
        Reachable.op_added 2 (some (1 ∷ [])) (some (2 ∷ [])) (
          Reachable.op_added 1 (some (2 ∷ [])) (some (3 ∷ [])) (
            Reachable.value_added Dtype.f32 (some (4 ∷ [])) 16 (
              Reachable.value_added Dtype.f32 (some (4 ∷ [])) 0
                (Reachable.value_added Dtype.f32 (some (4 ∷ [])) 0 Reachable.started)))))))

Reachable-IsGraph_example : IsGraph chain
Reachable-IsGraph_example = Reachable-IsGraph chain-Reachable

chain_sorts : (topo_sort chain).0 ≡ Status.success
unfolding topo_sort
chain_sorts = refl

topo_sort_sound_example : Scheduled chain (topo_sort chain).1
topo_sort_sound_example = topo_sort_sound chain (Reachable-IsGraph chain-Reachable) chain_sorts

abbrev rank : ℕ → ℕ
rank o = if o == 1 then 1 else 0

falls :
    (o u : ℕ)
    → occurs u (op_at chain o).inputs ≢ 0
    → (value_at chain u).producer ≢ 0
    → rank (value_at chain u).producer < rank o
unfolding occurs
falls zero u found real = absurd (found refl)
falls (suc zero) u found real = elim (ℕ_discrete 2 u) [
  | yes e ↦ subst (λ v. rank (value_at chain v).producer < 1) e (omega arith)
  | no ne ↦ absurd (found (ground (arith, ne)))
]
falls (suc (suc zero)) u found real = elim (ℕ_discrete 1 u) [
  | yes e ↦ absurd (real (ap (λ v. (value_at chain v).producer) (sym e)))
  | no ne ↦ absurd (found (ground (arith, ne)))
]
falls (suc (suc (suc o))) u found real = absurd (found refl)

topo_sort_complete_example : (topo_sort chain).0 ≡ Status.success
topo_sort_complete_example = topo_sort_complete chain (Reachable-IsGraph chain-Reachable) rank falls

-- The order of `alloc_cmp`: the second value lives longer than the first one.
abbrev swap_first : List SortEntry → List SortEntry
swap_first [] = []
swap_first (a ∷ []) = a ∷ []
swap_first (a ∷ b ∷ rest) = b ∷ a ∷ rest

marked : MarkedTimed chain
marked = Reachable-IsTimed chain-Reachable

value_lifetimes_cover_example : Covers (value_lifetimes chain).0.1 (value_lifetimes chain).1
value_lifetimes_cover_example =
    value_lifetimes_cover chain (Reachable-IsGraph chain-Reachable) marked
      (unfold value_lifetimes in refl)

chain-IsPlaceable : All IsPlaceable (drop 1 chain.values)
chain-IsPlaceable = (fine 0, (fine 2, (fine 1, tt)))
  where
    fine : (producer : ℕ) {i o : Bool} → IsPlaceable (value producer i o)
    fine producer = record {
      pow2 = unfold is_pow2 in refl;
      positive = omega arith;
      occupied = omega arith;
      rounds = omega arith;
    }

abbrev sorted_chain : Graph
sorted_chain = (ensure_sorted chain).1

abbrev entries : List SortEntry
entries = entries_of (drop 1 sorted_chain.values) (drop 1 (all_spans sorted_chain))

entries-Sorts : Sorts swap_first entries
unfolding IsSorted sort_entries alloc_cmp allocs_of all_spans ensure_sorted
entries-Sorts = ((((λ e. cc), ((λ e. cc), tt)), (((λ e. cc), tt), (tt, tt))), Permᴰ.swap refl refl)

memory_plan_sound_example :
    (plan : MemPlan) × ((memory_plan swap_first true chain).0 ≡ ok plan)
    × Runnable (memory_plan swap_first true chain).1 plan
memory_plan_sound_example =
    memory_plan_sound swap_first chain (Reachable-IsGraph chain-Reachable) marked (omega arith)
      (unfold ensure_sorted in refl) chain-IsPlaceable (unfold need_values in omega arith)
      entries-Sorts

Reachable-IsTimed_example : IsTimed (topo_sort chain).1
Reachable-IsTimed_example =
    Reachable-IsTimed (Reachable.topo_sorted chain-Reachable) (unfold topo_sort in refl)

persistent_entries-Sorts : Sorts swap_first (
    entries_of
      (drop 1 sorted_chain.values)
      (drop 1 (persist_all sorted_chain (all_spans sorted_chain))))
unfolding IsSorted sort_entries alloc_cmp allocs_of all_spans ensure_sorted persist_all
persistent_entries-Sorts =
    ((((λ e. cc), ((λ e. cc), tt)), (((λ e. cc), tt), (tt, tt))), Permᴰ.swap refl refl)

memory_plan_persistent_sound_example :
    (plan : MemPlan) × ((memory_plan_persistent swap_first true chain).0 ≡ ok plan)
    × Rerunnable (memory_plan_persistent swap_first true chain).1 plan
memory_plan_persistent_sound_example =
    memory_plan_persistent_sound swap_first chain (Reachable-IsGraph chain-Reachable) marked
      (omega arith) (unfold ensure_sorted in refl) chain-IsPlaceable
      (unfold need_values in omega arith) persistent_entries-Sorts
