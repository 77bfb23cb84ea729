-- ===== src/Memory/Planner/Build.antt =====
-- `pai_mem_plan_build`. The C library is a parameter: `sort` stands for `qsort` with `alloc_cmp`,
-- and `memory` says whether the four calls of `malloc` succeed.
pub mod Schedule
pub mod Rounds
pub mod Disjoint
use prospero_ai.Prelude.{
  ℕ, zero, suc, ◌+◌, ◌-◌, Bool, true, false, not, ◌&&◌, ◌||◌, List, [], ◌∷◌, length, replicate, ltb,
  leb, ◌==◌, if◌then◌else◌,
}
use Prim.Native.Nat.{Ordering}
use prospero_ai.Status.{Result, ok, err, Status}
use prospero_ai.Memory.Align.{align_up}
use prospero_ai.Memory.Planner.{Alloc, Planner}
use prospero_ai.Memory.Planner.Sweep.{SortEntry, Sweep, sweep, larger}

-- pai_mem_plan_t; `count` is the length of `offsets`.
pub record Plan : Type 0 where
  pub offsets : List ℕ
  pub region_bytes : ℕ
  pub naive_bytes : ℕ
  pub reuse_bytes : ℕ
  pub peak_live : ℕ
  pub reuses : ℕ
  pub pinned_allocs : ℕ
  pub pinned_bytes : ℕ

-- The comparison handed to `qsort`: -1, 0 and 1 are `lt`, `eq` and `gt`. Pinned allocations sort
-- last, then by start, then the longer-lived first.
unfoldable pub compare_pinned : Bool → Bool → Ordering → Ordering
compare_pinned false true same = Ordering.lt
compare_pinned true false same = Ordering.gt
compare_pinned _ _ same = same

unfoldable pub alloc_cmp : SortEntry → SortEntry → Ordering
unfolding compare_pinned
alloc_cmp a b = compare_pinned a.alloc.pinned b.alloc.pinned (
    if not (a.alloc.start == b.alloc.start)
    then (if ltb a.alloc.start b.alloc.start then Ordering.lt else Ordering.gt)
    else if not (a.alloc.end == b.alloc.end)
    then (if ltb b.alloc.end a.alloc.end then Ordering.lt else Ordering.gt)
    else Ordering.eq)

unfoldable pub empty_plan : Plan
empty_plan = record {
  offsets = [];
  region_bytes = 0;
  naive_bytes = 0;
  reuse_bytes = 0;
  peak_live = 0;
  reuses = 0;
  pinned_allocs = 0;
  pinned_bytes = 0;
}

-- sorted[i].alloc = planner->allocs[i]; sorted[i].add_idx = i;
unfoldable pub sort_entries : List Alloc → (i : ℕ) → List SortEntry
sort_entries [] i = []
sort_entries (a ∷ rest) i = record { alloc = a; add_idx = i } ∷ sort_entries rest (i + 1)

-- The variables before the first round. The memory of `offsets` is not initialised by the code.
unfoldable pub sweep_start : ℕ → Sweep
sweep_start count = record {
  offsets = replicate count 0;
  free = record { ranges = []; used = 0 };
  live = [];
  cursor = 0;
  max_end = 0;
  peak_live = 0;
  naive = 0;
  reuses = 0;
  pinned_allocs = 0;
  pinned_bytes = 0;
}

-- After the loop: the size of the region and the statistics.
unfoldable pub finish_plan : Planner → Sweep → Plan
finish_plan p s =
    let raw = larger s.cursor s.max_end in
    let arena = if p.arena_align == 0 then 1 else p.arena_align in
    let region = align_up raw arena in
    record {
      offsets = s.offsets;
      region_bytes = region;
      naive_bytes = s.naive;
      reuse_bytes = if leb region s.naive then s.naive - region else 0;
      peak_live = s.peak_live;
      reuses = s.reuses;
      pinned_allocs = s.pinned_allocs;
      pinned_bytes = s.pinned_bytes;
    }

module _ (sort : List SortEntry → List SortEntry) where
  unfoldable pub plan_build : (memory : Bool) → Planner → Result Plan
  unfolding sort_entries sweep_start finish_plan sweep
  plan_build memory p =
      if length p.allocs == 0
      then ok empty_plan
      else if not memory
      then err Status.nomem
      else elim (sweep (sort (sort_entries p.allocs 0)) (sweep_start (length p.allocs))) [
        | ok s ↦ ok (finish_plan p s)
        | err e ↦ err e
      ]

unfoldable pub check_budget : Plan → (budget : ℕ) → Result (Unit {0})
check_budget plan budget = if leb plan.region_bytes budget then ok tt else err Status.nomem
