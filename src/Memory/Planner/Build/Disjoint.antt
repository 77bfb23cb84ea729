-- ===== src/Memory/Planner/Build/Disjoint.antt =====
-- The plan as a whole: no byte is used twice at any step, whatever the allocations.
use prospero_ai.Prelude.{
  ℕ, ◌+◌, ◌^◌, ◌≤◌, ◌<◌, ◌≡◌, ◌⊎◌, inl, inr, refl, sym, subst, true, List, [], ◌∷◌, All, length,
  length-replicate, ◌==◌, if◌then◌else◌, Bool-cases, arith,
}
use mathlib.Core.List.{Permᴰ}
use mathlib.Core.List.Permᴰ.{symm}
use prospero_ai.Status.{ok}
use prospero_ai.Memory.Align.{is_pow2}
use prospero_ai.Memory.Align.Round.{align_up_bounds}
use prospero_ai.Memory.Planner.{Alloc, Planner}
use prospero_ai.Memory.Planner.Sweep.{SortEntry, Sweep, larger}
use prospero_ai.Memory.Planner.Sweep.Usage.{usage, IsPlaced}
use prospero_ai.Memory.Planner.Sweep.Step.{IsEntry, SoundSweep}
use prospero_ai.Memory.Planner.Build.{
  Plan, empty_plan, sort_entries, sweep_start, finish_plan, plan_build,
}
use prospero_ai.Memory.Planner.Build.Schedule.{
  need, IsSorted, IsSorted-Scheduled, IsPinned, All-map, All-perm, need-perm, usage-perm,
  Distinct-perm, sort_entries-Distinct, sort_entries-All, sort_entries-index,
}
use prospero_ai.Memory.Planner.Build.Rounds.{
  placed_order, Pending, IsNumbered, Swept, sweep-Scheduled, placed_order-usage, placed_order-All,
  never-Fresh, start-Sound, start-Tracked,
}

-- What `planner_add` checks of the alignment of an allocation.
abbrev pub IsAlloc : Alloc → Type 0
IsAlloc a = (is_pow2 a.align ≡ true) × (0 < a.align)

All-both :
    (P Q : SortEntry → Type 0) (es : List SortEntry) → All P es → All Q es → All (λ e. P e × Q e) es
All-both P Q [] h k = tt
All-both P Q (e ∷ rest) (hp, h) (hq, k) = ((hp, hq), All-both P Q rest h k)

-- The alignment of the region: 1 when none was set.
abbrev pub arena_of : Planner → ℕ
arena_of p = if p.arena_align == 0 then 1 else p.arena_align

module _ (p : Planner) (entries : List SortEntry) (sorted : IsSorted entries)
    (same : Permᴰ (sort_entries p.allocs 0) entries) (valid : All IsAlloc p.allocs)
    (room : need (sort_entries p.allocs 0) + arena_of p < 2 ^ 64) where
  swept : Swept entries (sweep_start (length p.allocs)) []
  unfolding sweep_start
  swept =
      sweep-Scheduled 0 entries (sweep_start (length p.allocs)) []
        (IsSorted-Scheduled 0 entries (always entries) sorted) pending
        (start-Sound (length p.allocs)) (start-Tracked (length p.allocs))
    where
      always : (es : List SortEntry) → All (λ e. IsPinned e ⊎ (0 ≤ e.alloc.start)) es
      always [] = tt
      always (e ∷ rest) = (inr (omega arith), always rest)

      counted : All (λ e. e.add_idx < length p.allocs) (sort_entries p.allocs 0)
      counted =
          All-map _ _ (sort_entries p.allocs 0) (λ e lt. omega (arith, lt))
            (sort_entries-index p.allocs 0)

      numbered : All (IsNumbered (length p.allocs)) entries
      numbered = All-perm _ same (
          All-both IsEntry _ (sort_entries p.allocs 0) (sort_entries-All IsAlloc p.allocs 0 valid)
            (counted))

      pending : Pending entries (sweep_start (length p.allocs)) []
      pending = record {
        valid =
            subst (λ n. All (IsNumbered n) entries) (sym (length-replicate (length p.allocs) 0))
              numbered;
        distinct = Distinct-perm same (sort_entries-Distinct p.allocs 0);
        fresh = never-Fresh entries;
        room = omega (arith, room, need-perm _ _ same);
      }

-- What is promised of the plan for the entries of the registered allocations.
pub record Planned (es : List SortEntry) (plan : Plan) : Type 0 where
  pub single : (t x : ℕ) → usage plan.offsets t x es ≤ 1
  pub places : All (IsPlaced plan.offsets plan.region_bytes) es

module _ (p : Planner) (s : Sweep) (pow2 : is_pow2 (arena_of p) ≡ true)
    (room : s.cursor + arena_of p < 2 ^ 64) (ends : s.max_end ≤ s.cursor) where
  region_holds : s.cursor ≤ (finish_plan p s).region_bytes
  unfolding finish_plan
  region_holds = omega (
    arith,
    (align_up_bounds (larger s.cursor s.max_end) (arena_of p) pow2 (omega arith) (ground arith)).0,
    raw,
  )
    where
      raw : larger s.cursor s.max_end ≡ s.cursor
      raw = ground arith

  finish_plan-Planned :
      (es : List SortEntry)
      → ((t x : ℕ) → usage s.offsets t x es ≤ 1)
      → All (IsPlaced s.offsets s.cursor) es
      → Planned es (finish_plan p s)
  unfolding finish_plan
  finish_plan-Planned es single places = record {
    single = single;
    places =
        All-map _ _ es (λ e (inside, aligned). (omega (arith, inside, region_holds), aligned))
          places;
  }

nothing-Planned :
    (allocs : List Alloc) → length allocs == 0 ≡ true → Planned (sort_entries allocs 0) empty_plan
unfolding sort_entries usage
nothing-Planned [] eq = record { single = λ t x. omega arith; places = tt }
nothing-Planned (a ∷ rest) eq = absurd (ground arith)

-- When `qsort` leaves a sorted permutation, memory can be allocated, every alignment is a power of
-- two, and the sizes and alignments of all allocations plus the arena alignment stay below 2^64:
-- the plan is built, at every step every byte is used by at most one of the allocations that are
-- live then, and every allocation lies aligned within `region_bytes`.
pub plan_build-Planned :
    (sort : List SortEntry → List SortEntry) (p : Planner)
    → IsSorted (sort (sort_entries p.allocs 0))
    → Permᴰ (sort_entries p.allocs 0) (sort (sort_entries p.allocs 0))
    → All IsAlloc p.allocs
    → is_pow2 (arena_of p) ≡ true
    → need (sort_entries p.allocs 0) + arena_of p < 2 ^ 64
    → (plan : Plan) × (plan_build sort true p ≡ ok plan) × Planned (sort_entries p.allocs 0) plan
unfolding plan_build
plan_build-Planned sort p sorted same valid pow2 room = elim (Bool-cases (length p.allocs == 0)) [
  | inl e ↦ (empty_plan, rw e refl, nothing-Planned p.allocs e)
  | inr ne ↦
      let (s, eq, sound, bound) = swept p (sort es) sorted same valid room in
      (finish_plan p s, rw (ne, eq) refl, planned s sound (omega (arith, bound)))
]
  where
    es : List SortEntry
    es = sort_entries p.allocs 0

    planned :
        (s : Sweep)
        → SoundSweep s (placed_order (sort es) [])
        → s.cursor ≤ need (sort es)
        → Planned es (finish_plan p s)
    planned s sound bound =
        finish_plan-Planned p s pow2 (omega (arith, need-perm _ _ same)) sound.ends es
          (λ t x. omega (
            arith,
            sound.single t x,
            placed_order-usage s.offsets t x (sort es) [],
            usage-perm s.offsets t x _ _ same,
          ))
          (All-perm _ (symm same) (placed_order-All _ (sort es) [] sound.places).0)
