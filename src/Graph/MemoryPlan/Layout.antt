-- ===== src/Graph/MemoryPlan/Layout.antt =====
-- The planned region seen from the graph: operands of an operation do not overlap.
use prospero_ai.Prelude.{
  ℕ, zero, suc, ◌+◌, ◌%◌, ◌≤◌, ◌<◌, ◌≡◌, ◌≢◌, refl, sym, subst, ap, ◌∙◌, false, ◌||◌, List, [], ◌∷◌,
  All, length, length-drop, get_or, get_or-drop, drop, ltb, ◌==◌, arith,
}
use native.Mathlib.Decide.{dec_lt}
use prospero_ai.Memory.Planner.{Alloc}
use prospero_ai.Memory.Planner.FreeList.Cover.{covers}
use prospero_ai.Memory.Planner.Sweep.Usage.{uses, usage, IsPlaced}
use prospero_ai.Memory.Planner.Build.{Plan, sort_entries}
use prospero_ai.Memory.Planner.Build.Disjoint.{Planned}
use prospero_ai.Graph.Defs.{Value, Graph, blank_value, max_values, value_at}
use prospero_ai.Graph.Build.{IsGraph}
use prospero_ai.Graph.Lifetime.{Span, blank_span}
use prospero_ai.Graph.Lifetime.Cover.{span_at, IsValue, IsLive}
use prospero_ai.Graph.MemoryPlan.{MemPlan, copy_offsets, copy_plan, mem_plan_offset}
use prospero_ai.Graph.MemoryPlan.Register.{allocs_of, length-allocs_of, get_or-allocs_of}

-- Does the value hold byte `x` of the region?
abbrev pub HoldsByte : (offset size x : ℕ) → Type 0
HoldsByte offset size x = (offset ≤ x) × (x < offset + size)

-- Allocation number `n` at step `t` and byte `x`.
abbrev use_at : (offsets : List ℕ) (t x n : ℕ) → Alloc → ℕ
use_at offsets t x n a = uses (get_or offsets n 0) t x a

-- Entries of the list of entries, of allocations with the numbers from `i` on.
module _ (offsets : List ℕ) (t x : ℕ) (d : Alloc) where
  same_use : (n m : ℕ) (a : Alloc) → n ≡ m → use_at offsets t x n a ≡ use_at offsets t x m a
  same_use n m a e = ap (λ k. use_at offsets t x k a) e

  one_use :
      (j i : ℕ) (allocs : List Alloc)
      → j < length allocs
      → use_at offsets t x (i + j) (get_or allocs j d) ≤ usage offsets t x (sort_entries allocs i)
  unfolding usage sort_entries
  one_use j i [] inside = absurd (omega arith)
  one_use zero i (a ∷ rest) inside = omega (arith, same_use (i + 0) i a (omega arith))
  one_use (suc j) i (a ∷ rest) inside = omega (
    arith,
    one_use j (i + 1) rest (omega arith),
    same_use (i + 1 + j) (i + suc j) (get_or rest j d) (omega arith),
  )

  two_uses :
      (j k i : ℕ) (allocs : List Alloc)
      → j < k
      → k < length allocs
      → use_at offsets t x (i + j) (get_or allocs j d)
          + use_at offsets t x (i + k) (get_or allocs k d)
        ≤ usage offsets t x (sort_entries allocs i)
  unfolding usage sort_entries
  two_uses j k i [] lt inside = absurd (omega arith)
  two_uses j zero i (a ∷ rest) lt inside = absurd (omega arith)
  two_uses zero (suc k) i (a ∷ rest) lt inside = omega (
    arith,
    same_use (i + 0) i a (omega arith),
    one_use k (i + 1) rest (omega arith),
    same_use (i + 1 + k) (i + suc k) (get_or rest k d) (omega arith),
  )
  two_uses (suc j) (suc k) i (a ∷ rest) lt inside = omega (
    arith,
    two_uses j k (i + 1) rest (omega arith) (omega arith),
    same_use (i + 1 + j) (i + suc j) (get_or rest j d) (omega arith),
    same_use (i + 1 + k) (i + suc k) (get_or rest k d) (omega arith),
  )

place_at :
    (offsets : List ℕ) (top : ℕ) (d : Alloc) (j i : ℕ) (allocs : List Alloc)
    → j < length allocs
    → All (IsPlaced offsets top) (sort_entries allocs i)
    → IsPlaced offsets top (record { alloc = get_or allocs j d; add_idx = i + j })
unfolding sort_entries
place_at offsets top d j i [] inside h = absurd (omega arith)
place_at offsets top d zero i (a ∷ rest) inside (here, h) =
    subst (λ n. IsPlaced offsets top (record { alloc = a; add_idx = n })) {x = i} {y = i + 0}
      (omega arith) here
place_at offsets top d (suc j) i (a ∷ rest) inside (here, h) =
    subst (λ n. IsPlaced offsets top (record { alloc = get_or rest j d; add_idx = n }))
      {x = i + 1 + j} {y = i + suc j} (omega arith)
      (place_at offsets top d j (i + 1) rest (omega arith) h)

copy_offsets_lem :
    (values : List Value) (offsets : List ℕ) (j : ℕ)
    → j < length values
    → get_or (copy_offsets values offsets) j 0 ≡ get_or offsets j 0
unfolding copy_offsets
copy_offsets_lem [] offsets j inside = absurd (omega arith)
copy_offsets_lem (v ∷ rest) offsets zero inside = refl
copy_offsets_lem (v ∷ rest) offsets (suc j) inside =
    copy_offsets_lem rest (drop 1 offsets) j (omega arith) ∙ get_or-drop offsets j 0

-- What the plan promises for values, numbered from 0 here, that have the spans.
pub record Apart (values : List Value) (spans : List Span) (offsets : List ℕ) (top : ℕ)
    : Type 0 where
  pub places :
      (j : ℕ)
      → j < length values
      → (get_or offsets j 0 + (get_or values j blank_value).size_bytes ≤ top)
        × (get_or offsets j 0 % (get_or values j blank_value).align ≡ 0)
  pub apart :
      (j k t x : ℕ)
      → j < k
      → k < length values
      → IsLive (get_or spans j blank_span) t
      → IsLive (get_or spans k blank_span) t
      → HoldsByte (get_or offsets j 0) (get_or values j blank_value).size_bytes x
      → HoldsByte (get_or offsets k 0) (get_or values k blank_value).size_bytes x
      → ⊥

abbrev blank_alloc : Alloc
blank_alloc = record { size = 0; align = 0; start = 0; end = 0; pinned = false }

pub Planned-Apart :
    (values : List Value) (spans : List Span) (plan : Plan)
    → Planned (sort_entries (allocs_of values spans) 0) plan
    → Apart values spans plan.offsets plan.region_bytes
Planned-Apart values spans plan p = record {
  places = λ j inside.
      subst
        (λ (a : Alloc).
          (get_or plan.offsets j 0 + a.size ≤ plan.region_bytes)
          × (get_or plan.offsets j 0 % a.align ≡ 0))
        (get_or-allocs_of values spans j blank_alloc inside)
        (subst
          (λ n.
            IsPlaced plan.offsets plan.region_bytes
              (record { alloc = get_or (allocs_of values spans) j blank_alloc; add_idx = n }))
          {x = 0 + j} {y = j} (omega arith)
          (place_at plan.offsets plan.region_bytes blank_alloc j 0 (allocs_of values spans)
            (omega (arith, length-allocs_of values spans, inside)) p.places));
  apart = λ j k t x lt inside live_j live_k in_j in_k. omega (
    arith,
    p.single t x,
    two_uses plan.offsets t x blank_alloc j k 0 (allocs_of values spans) lt
        (omega (arith, length-allocs_of values spans, inside)),
    used j t x (omega (arith, lt, inside)) live_j in_j,
    used k t x inside live_k in_k,
  );
}
  where
    used :
        (j t x : ℕ)
        → j < length values
        → IsLive (get_or spans j blank_span) t
        → HoldsByte (get_or plan.offsets j 0) (get_or values j blank_value).size_bytes x
        → use_at plan.offsets t x (0 + j) (get_or (allocs_of values spans) j blank_alloc) ≡ 1
    used j t x inside live here =
        same_use plan.offsets t x blank_alloc (0 + j) j
          (get_or (allocs_of values spans) j blank_alloc) (omega arith)
        ∙ ap (use_at plan.offsets t x j) (get_or-allocs_of values spans j blank_alloc inside)
        ∙ unfold covers in ground (arith, live, here)

-- A plan for the graph: values lie aligned within the region, and two values that are live in the
-- same epoch share no byte.
pub record LaidOut (g : Graph) (spans : List Span) (plan : MemPlan) : Type 0 where
  pub places :
      (v : ℕ)
      → IsValue g v
      → (mem_plan_offset plan v + (value_at g v).size_bytes ≤ plan.region_bytes)
        × (mem_plan_offset plan v % (value_at g v).align ≡ 0)
  pub apart :
      (u v t x : ℕ)
      → u ≢ v
      → IsValue g u
      → IsValue g v
      → IsLive (span_at spans u) t
      → IsLive (span_at spans v) t
      → HoldsByte (mem_plan_offset plan u) (value_at g u).size_bytes x
      → HoldsByte (mem_plan_offset plan v) (value_at g v).size_bytes x
      → ⊥

module _ (g : Graph) (w : IsGraph g) (spans : List Span) (plan : Plan)
    (a : Apart (drop 1 g.values) (drop 1 spans) plan.offsets plan.region_bytes) where
  abbrev copied : MemPlan
  copied = copy_plan (drop 1 g.values) plan

  offset_of : (j : ℕ) → IsValue g (suc j) → mem_plan_offset copied (suc j) ≡ get_or plan.offsets j 0
  unfolding mem_plan_offset copy_plan
  offset_of j i =
      let test : (suc j == 0 || ltb max_values (suc j)) ≡ false = ground (arith, i, w.few) in
      rw test (
        copy_offsets_lem (drop 1 g.values) plan.offsets j
          (omega (arith, i, length-drop 1 g.values)))

  holds_back :
      (j x : ℕ)
      → IsValue g (suc j)
      → HoldsByte (mem_plan_offset copied (suc j)) (value_at g (suc j)).size_bytes x
      → HoldsByte (get_or plan.offsets j 0) (get_or (drop 1 g.values) j blank_value).size_bytes x
  holds_back j x i h =
      omega (arith, h, offset_of j i, ap (λ v. v.size_bytes) (get_or-drop g.values j blank_value))

  in_order :
      (j k t x : ℕ)
      → j < k
      → IsValue g (suc j)
      → IsValue g (suc k)
      → IsLive (span_at spans (suc j)) t
      → IsLive (span_at spans (suc k)) t
      → HoldsByte (mem_plan_offset copied (suc j)) (value_at g (suc j)).size_bytes x
      → HoldsByte (mem_plan_offset copied (suc k)) (value_at g (suc k)).size_bytes x
      → ⊥
  in_order j k t x lt i i' live live' h h' =
      a.apart j k t x lt (omega (arith, i', length-drop 1 g.values))
        (subst (λ s. IsLive s t) (sym (get_or-drop spans j blank_span)) live)
        (subst (λ s. IsLive s t) (sym (get_or-drop spans k blank_span)) live') (holds_back j x i h)
        (holds_back k x i' h')

  pub laid_out : LaidOut g spans copied
  laid_out = record {
    places = placed;
    apart = λ u v t x ne i i' live live' h h'. elim (dec_lt u v) [
      | yes lt ↦ both u v t x lt i i' live live' h h'
      | no ge ↦ both v u t x (ground (arith, ge, ne)) i' i live' live h' h
    ];
  }
    where
      placed :
          (v : ℕ)
          → IsValue g v
          → (mem_plan_offset copied v + (value_at g v).size_bytes ≤ copied.region_bytes)
            × (mem_plan_offset copied v % (value_at g v).align ≡ 0)
      placed zero i = absurd (omega (arith, i))
      placed (suc j) i =
          subst
            (λ o.
              (o + (value_at g (suc j)).size_bytes ≤ copied.region_bytes)
              × (o % (value_at g (suc j)).align ≡ 0))
            (sym (offset_of j i))
            (unfold copy_plan in
              subst
                (λ (v : Value).
                  (get_or plan.offsets j 0 + v.size_bytes ≤ plan.region_bytes)
                  × (get_or plan.offsets j 0 % v.align ≡ 0))
                (get_or-drop g.values j blank_value)
                (a.places j (omega (arith, i, length-drop 1 g.values))))

      both :
          (u v t x : ℕ)
          → u < v
          → IsValue g u
          → IsValue g v
          → IsLive (span_at spans u) t
          → IsLive (span_at spans v) t
          → HoldsByte (mem_plan_offset copied u) (value_at g u).size_bytes x
          → HoldsByte (mem_plan_offset copied v) (value_at g v).size_bytes x
          → ⊥
      both zero v t x lt i i' live live' h h' = absurd (omega (arith, i))
      both (suc j) zero t x lt i i' live live' h h' = absurd (omega (arith, i'))
      both (suc j) (suc k) t x lt i i' live live' h h' =
          in_order j k t x (omega (arith, lt)) i i' live live' h h'
