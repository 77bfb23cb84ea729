-- ===== src/Memory/Planner.antt =====
-- memory/planner.c: the static memory planner. Registration of allocations; the layout itself is
-- built in `Planner.Build`.
pub mod Register
pub mod FreeList
pub mod Sweep
pub mod Build
use prospero_ai.Prelude.{
  ℕ, suc, ◌+◌, ◌-◌, ◌^◌, Bool, true, false, not, ◌&&◌, ◌||◌, Option, none, some, List, [], ◌∷◌,
  ◌++◌, length, ltb, leb, ◌==◌, if◌then◌else◌,
}
use prospero_ai.Status.{Result, ok, err, Status}
use prospero_ai.Memory.Align.{is_pow2, sub64}

-- pai_mem_alloc_t: live for start <= step < end.
pub record Alloc : Type 0 where
  pub size : ℕ
  pub align : ℕ
  pub start : ℕ
  pub end : ℕ
  pub pinned : Bool

-- pai_mem_planner_t; `count` is the length of `allocs`.
pub record Planner : Type 0 where
  pub allocs : List Alloc
  pub arena_align : ℕ

abbrev pub max_allocs : ℕ
max_allocs = 1024

unfoldable pub planner_init : Planner
planner_init = record { allocs = []; arena_align = 0 }

unfoldable pub set_arena_align : Planner → ℕ → Result Planner
set_arena_align p align =
    if align == 0 || not (is_pow2 align)
    then err Status.invalid_arg
    else ok (record p { arena_align = align })

unfoldable pub planner_add_common :
    Planner → (size align start end : ℕ) → (pinned : Bool) → Result Planner
planner_add_common p size align start end pinned =
    if size == 0
      || (align == 0
          || (not (is_pow2 align) || (leb end start || ltb (2 ^ 64 - 1 - sub64 align 1) size)))
    then err Status.invalid_arg
    else if leb max_allocs (length p.allocs)
    then err Status.nomem
    else ok (record p {
      allocs =
          p.allocs
          ++ (record { size = size; align = align; start = start; end = end; pinned = pinned }
              ∷ []);
    })

unfoldable pub planner_add : Planner → (size align start end : ℕ) → Result Planner
unfolding planner_add_common
planner_add p size align start end = planner_add_common p size align start end false

unfoldable pub planner_add_pinned : Planner → (size align start end : ℕ) → Result Planner
unfolding planner_add_common
planner_add_pinned p size align start end = planner_add_common p size align start end true
