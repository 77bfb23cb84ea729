-- ===== src/Memory/Tests.antt =====
-- Runs of memory/mem.h and memory/planner.c at concrete inputs.
use prospero_ai.Prelude.{
  ℕ, ◌+◌, ◌^◌, ◌%◌, ◌≤◌, ◌<◌, ◌≡◌, refl, true, false, none, List, [], ◌∷◌, ◌++◌, length, arith,
}
use mathlib.Core.List.{Permᴰ}
use prospero_ai.Status.{ok}
use prospero_ai.Memory.Arena.{Arena, arena_init, arena_alloc}
use prospero_ai.Memory.Arena.Stack.{with_block, Used, InStack, Used-Stacked}
use prospero_ai.Memory.Align.{is_pow2, align_up}
use prospero_ai.Memory.Align.Round.{align_up_bounds}
use prospero_ai.Memory.Planner.{Alloc, Planner, planner_init, planner_add_common}
use prospero_ai.Memory.Planner.Register.{IsPlanner, planner_add_common-IsPlanner}
use prospero_ai.Memory.Planner.FreeList.{Free, free_list_insert}
use prospero_ai.Memory.Planner.FreeList.Cover.{Inserted, free_list_insert-Inserted}
use prospero_ai.Memory.Planner.Sweep.{
  SortEntry, LiveAlloc, Sweep, best_fit, fits, carve, release_expired, place,
}
use prospero_ai.Memory.Planner.Sweep.Live.{Released, release_expired-Released}
use prospero_ai.Memory.Planner.Sweep.Carving.{Carved, carve-Carved}
use prospero_ai.Memory.Planner.Sweep.Choice.{Choice, best_fit-Choice}
use prospero_ai.Memory.Planner.Sweep.Step.{Stepped, TrackedSweep}
use prospero_ai.Memory.Planner.Sweep.Pinned.{place_pinned_step}
use prospero_ai.Memory.Planner.Sweep.Round.{place_reusable_step}
use prospero_ai.Memory.Planner.Build.{Plan, plan_build, sort_entries, alloc_cmp, sweep_start}
use prospero_ai.Memory.Planner.Build.Schedule.{need, IsSorted}
use prospero_ai.Memory.Planner.Build.Rounds.{start-Sound, start-Tracked}
use prospero_ai.Memory.Planner.Build.Disjoint.{Planned, plan_build-Planned}

abbrev weights : Alloc
weights = record { size = 100; align = 16; start = 0; end = 4; pinned = true }

abbrev first : Alloc
first = record { size = 64; align = 64; start = 0; end = 2; pinned = false }

abbrev second : Alloc
second = record { size = 32; align = 16; start = 2; end = 4; pinned = false }

abbrev entry : Alloc → ℕ → SortEntry
entry a i = record { alloc = a; add_idx = i }

abbrev planner : Planner
planner = record { allocs = weights ∷ first ∷ second ∷ []; arena_align = 64 }

-- Sorts lists whose first item belongs to the end.
abbrev rotate : List SortEntry → List SortEntry
rotate [] = []
rotate (e ∷ rest) = rest ++ (e ∷ [])

sixteen : is_pow2 16 ≡ true
unfolding is_pow2
sixteen = refl

sixty_four : is_pow2 64 ≡ true
unfolding is_pow2
sixty_four = refl

align_up_bounds_example :
    (100 ≤ align_up 100 64) × (align_up 100 64 < 164) × (align_up 100 64 % 64 ≡ 0)
align_up_bounds_example = align_up_bounds 100 64 sixty_four (omega arith) (omega arith)

added :
    planner_add_common planner_init 64 16 0 2 false
    ≡ ok (record {
      allocs = record { size = 64; align = 16; start = 0; end = 2; pinned = false } ∷ [];
      arena_align = 0;
    })
unfolding planner_add_common is_pow2 planner_init
added = refl

planner_add_common-IsPlanner_example :
    IsPlanner (record {
      allocs = record { size = 64; align = 16; start = 0; end = 2; pinned = false } ∷ [];
      arena_align = 0;
    })
    × (1 ≡ length planner_init.allocs + 1)
planner_add_common-IsPlanner_example =
    planner_add_common-IsPlanner planner_init _ 64 16 0 2 false (omega arith) (omega arith)
      (unfold planner_init in (tt, omega arith)) added

-- A free list with a gap that the next range fills.
abbrev gaps : Free
gaps = record {
  ranges = record { off = 0; size = 64 } ∷ record { off = 96; size = 160 } ∷ [];
  used = 2;
}

free_list_insert-Inserted_example : Inserted 256 64 32 gaps.ranges 2 (free_list_insert gaps 64 32)
free_list_insert-Inserted_example =
    free_list_insert-Inserted 256 gaps 64 32 (omega arith) (omega arith)
      (omega arith, (omega arith, tt))

abbrev running : List LiveAlloc
running = record { end = 2; off = 64; size = 32 } ∷ record { end = 4; off = 256; size = 32 } ∷ []

release_expired-Released_example : Released 2 512 gaps running (release_expired 2 gaps running)
release_expired-Released_example =
    release_expired-Released 2 512 gaps running (omega arith) (omega arith, (omega arith, tt))
      (omega arith, (omega arith, tt))

best_fit-Choice_example : Choice second gaps.ranges (best_fit second gaps.ranges 0 none)
best_fit-Choice_example =
    best_fit-Choice 256 second sixteen (omega arith) (omega arith) (omega arith) gaps.ranges
      (omega arith, (omega arith, tt))

second-fits : fits second (record { off = 0; size = 64 }) ≡ true
unfolding fits align_up
second-fits = refl

carve-Carved_example :
    Carved 256 second gaps (align_up 0 16) (carve second gaps 0 (record { off = 0; size = 64 }))
carve-Carved_example =
    carve-Carved 256 second sixteen (omega arith) (omega arith) (omega arith) gaps 0
      (record { off = 0; size = 64 }) refl second-fits (omega arith, (omega arith, tt))

place_pinned_step_example :
    (s' : Sweep) × (place (entry weights 0) (sweep_start 3) ≡ ok s')
    × Stepped (entry weights 0) (sweep_start 3) [] s'
place_pinned_step_example =
    place_pinned_step (entry weights 0) (sweep_start 3) [] refl (sixteen, omega arith)
      (unfold sweep_start in omega arith) tt (unfold sweep_start in omega arith) (start-Sound 3)

place_reusable_step_example :
    (s' : Sweep) × (place (entry first 1) (sweep_start 3) ≡ ok s')
    × Stepped (entry first 1) (sweep_start 3) [] s'
    × TrackedSweep s' 0 (entry first 1 ∷ [])
place_reusable_step_example =
    place_reusable_step (entry first 1) (sweep_start 3) [] 0 refl (sixty_four, omega arith)
      (unfold sweep_start in omega arith) (omega arith) tt (unfold sweep_start in omega arith)
      (start-Sound 3) (start-Tracked 3)

sorted : IsSorted (rotate (sort_entries planner.allocs 0))
unfolding IsSorted sort_entries alloc_cmp
sorted = (((λ e. cc), ((λ e. cc), tt)), (((λ e. cc), tt), (tt, tt)))

rotated : Permᴰ (sort_entries planner.allocs 0) (rotate (sort_entries planner.allocs 0))
unfolding sort_entries
rotated = Permᴰ.trans (Permᴰ.swap refl refl) (Permᴰ.cons refl (Permᴰ.swap refl refl))

enough : need (sort_entries planner.allocs 0) + 64 < 2 ^ 64
unfolding need sort_entries
enough = omega arith

plan_build-Planned_example :
    (plan : Plan) × (plan_build rotate true planner ≡ ok plan)
    × Planned (sort_entries planner.allocs 0) plan
plan_build-Planned_example =
    plan_build-Planned rotate planner sorted rotated
      ((sixteen, omega arith), ((sixty_four, omega arith), ((sixteen, omega arith), tt))) sixty_four
      enough

-- An arena of 256 bytes, of which 10 are used.
abbrev small_arena : Arena
small_arena = record { base = 4096; size = 256; used = 10 }

two_blocks : Used (arena_alloc (arena_alloc (arena_init 4096 256) 10 1).0 32 64).0 (
    with_block
      (arena_alloc (arena_alloc (arena_init 4096 256) 10 1).0 32 64).1
      32
      (with_block (arena_alloc (arena_init 4096 256) 10 1).1 10 []))
two_blocks =
    Used.allocated 32 64 (omega arith) (omega arith)
      (Used.allocated 10 1 (omega arith) (omega arith) (Used.started 4096 256))

Used-Stacked_example : InStack (arena_alloc (arena_alloc (arena_init 4096 256) 10 1).0 32 64).0 (
    with_block
      (arena_alloc (arena_alloc (arena_init 4096 256) 10 1).0 32 64).1
      32
      (with_block (arena_alloc (arena_init 4096 256) 10 1).1 10 []))
unfolding align_up
Used-Stacked_example =
    Used-Stacked two_blocks (unfold arena_alloc in unfold arena_init in omega arith)
