-- ===== src/Memory/Planner/Sweep.antt =====
-- The body of the loop of `pai_mem_plan_build`: one sorted allocation is placed.
pub mod Live
pub mod Fit
pub mod Carving
pub mod Choice
pub mod Usage
pub mod Step
pub mod Pinned
pub mod Reusable
pub mod Round
use prospero_ai.Prelude.{
  ℕ, zero, suc, ◌+◌, ◌-◌, ◌^◌, ◌%◌, Bool, true, ◌&&◌, Option, none, some, List, [], ◌∷◌, ◌++◌,
  length, set, ltb, leb, if◌then◌else◌,
}
use prospero_ai.Status.{Result, ok, err, Status}
use prospero_ai.Memory.Align.{add64, sub64, align_up}
use prospero_ai.Memory.Planner.{Alloc}
use prospero_ai.Memory.Planner.FreeList.{Range, Free, free_list_insert}

-- sort_entry_t
pub record SortEntry : Type 0 where
  pub alloc : Alloc
  pub add_idx : ℕ

-- live_alloc_t
pub record LiveAlloc : Type 0 where
  pub end : ℕ
  pub off : ℕ
  pub size : ℕ

-- The variables of `pai_mem_plan_build` and the fields of the plan that the loop writes.
pub record Sweep : Type 0 where
  pub offsets : List ℕ
  pub free : Free
  pub live : List LiveAlloc
  pub cursor : ℕ
  pub max_end : ℕ
  pub peak_live : ℕ
  pub naive : ℕ
  pub reuses : ℕ
  pub pinned_allocs : ℕ
  pub pinned_bytes : ℕ

-- The last item of `x ∷ rest`, and the items before it.
unfoldable pub last_item : LiveAlloc → List LiveAlloc → LiveAlloc
last_item x [] = x
last_item x (y ∷ rest) = last_item y rest

unfoldable pub but_last : LiveAlloc → List LiveAlloc → List LiveAlloc
but_last x [] = []
but_last x (y ∷ rest) = x ∷ but_last y rest

-- live[j] = live[--live_count]: what is left of the items behind `live[j]` once it is removed.
unfoldable pub swap_remove : List LiveAlloc → List LiveAlloc
unfolding last_item but_last
swap_remove [] = []
swap_remove (x ∷ rest) = last_item x rest ∷ but_last x rest

-- for (j = 0; j < live_count;) ...: `todo` is `live` from index `j` on, and each round shortens it.
unfoldable pub release_loop : (rounds start : ℕ) → Free → List LiveAlloc → Free × List LiveAlloc
unfolding swap_remove free_list_insert
release_loop zero start free todo = (free, todo)
release_loop (suc rounds) start free [] = (free, [])
release_loop (suc rounds) start free (x ∷ rest) =
    let released =
      release_loop rounds start (free_list_insert free x.off x.size) (swap_remove rest) in
    let kept = release_loop rounds start free rest in
    let kept' : Free × List LiveAlloc = (kept.0, x ∷ kept.1) in
    if leb x.end start then released else kept'

unfoldable pub release_expired : (start : ℕ) → Free → List LiveAlloc → Free × List LiveAlloc
unfolding release_loop
release_expired start free live = release_loop (length live) start free live

-- The best range so far: its place in the list, and itself.
abbrev pub Best : Type 0
Best = Option (ℕ × Range)

unfoldable pub smaller_than_best : ℕ → Best → Bool
smaller_than_best size none = true
smaller_than_best size (some (i, best)) = ltb size best.size

-- cur->size >= (aligned - cur->off) + a->size
unfoldable pub fits : Alloc → Range → Bool
fits a cur = leb (add64 (sub64 (align_up cur.off a.align) cur.off) a.size) cur.size

unfoldable pub best_fit : Alloc → List Range → (i : ℕ) → Best → Best
best_fit a [] i best = best
best_fit a (cur ∷ rest) i best =
    best_fit a rest (i + 1)
      (if fits a cur && smaller_than_best cur.size best then some (i, cur) else best)

-- best_prev->next = best->next, or free_head = best->next
unfoldable pub unlink : ℕ → List Range → List Range
unlink i [] = []
unlink zero (r ∷ rest) = rest
unlink (suc i) (r ∷ rest) = r ∷ unlink i rest

-- if (pad > 0) free_list_insert(...)
unfoldable pub give_back : Free → (off size : ℕ) → Free
unfolding free_list_insert
give_back free off size = if ltb 0 size then free_list_insert free off size else free

-- The range is taken out of the list, and its paddings on either side go back.
unfoldable pub carve : Alloc → Free → ℕ → Range → Free
unfolding give_back unlink
carve a free i best =
    let aligned = align_up best.off a.align in
    let left_pad = sub64 aligned best.off in
    let right = sub64 (sub64 best.size left_pad) a.size in
    let unlinked : Free = record { ranges = unlink i free.ranges; used = free.used } in
    give_back (give_back unlinked best.off left_pad) (add64 aligned a.size) right

abbrev pub larger : ℕ → ℕ → ℕ
larger a b = if ltb b a then a else b

-- plan->offsets[add_idx] = off; max_end = ...; live[live_count++] = ...
unfoldable pub record_placement : SortEntry → (off : ℕ) → Sweep → Sweep
record_placement e off s = record s {
  offsets = set s.offsets e.add_idx off;
  max_end = larger s.max_end (add64 off e.alloc.size);
  live = s.live ++ (record { end = e.alloc.end; off = off; size = e.alloc.size } ∷ []);
}

unfoldable pub live_bytes : List LiveAlloc → ℕ → ℕ
live_bytes [] acc = acc
live_bytes (x ∷ rest) acc = live_bytes rest (add64 acc x.size)

-- Extend the region: off = align_up(cursor); the check of the overflow; cursor = off + a->size.
unfoldable pub extend_region : SortEntry → Sweep → Result (ℕ × Sweep)
extend_region e s =
    let off = align_up s.cursor e.alloc.align in
    if ltb (2 ^ 64 - 1 - e.alloc.size) off
    then err Status.nomem
    else ok (off, record s { cursor = add64 off e.alloc.size })

unfoldable pub place_pinned : SortEntry → Sweep → Result Sweep
place_pinned e s =
    elim (extend_region e (record s {
      pinned_allocs = (s.pinned_allocs + 1) % 2 ^ 32;
      pinned_bytes = add64 s.pinned_bytes e.alloc.size;
    })) [ ok (off, s') ↦ ok (record_placement e off s') | err x ↦ err x ]

-- Reuse the best range, or extend the region.
unfoldable pub choose_offset : SortEntry → Sweep → Best → Result (ℕ × Sweep)
choose_offset e s none = extend_region e s
choose_offset e s (some (i, best)) = ok (
  align_up best.off e.alloc.align,
  record s { free = carve e.alloc s.free i best; reuses = (s.reuses + 1) % 2 ^ 32 },
)

-- if (live_bytes > peak_live) peak_live = live_bytes;
unfoldable pub track_peak : Sweep → Sweep
unfolding live_bytes
track_peak s = record s { peak_live = larger (live_bytes s.live 0) s.peak_live }

unfoldable pub place_reusable : SortEntry → Sweep → Result Sweep
place_reusable e s =
    let (free, live) = release_expired e.alloc.start s.free s.live in
    let s' : Sweep = record s { free = free; live = live } in
    elim (choose_offset e s' (best_fit e.alloc free.ranges 0 none)) [
      | ok (off, s'') ↦ ok (track_peak (record_placement e off s''))
      | err x ↦ err x
    ]

-- One round of the loop.
unfoldable pub place : SortEntry → Sweep → Result Sweep
place e s =
    let s' : Sweep = record s { naive = add64 s.naive (align_up e.alloc.size e.alloc.align) } in
    if e.alloc.pinned then place_pinned e s' else place_reusable e s'

unfoldable pub sweep : List SortEntry → Sweep → Result Sweep
sweep [] s = ok s
sweep (e ∷ rest) s = elim (place e s) [ ok s' ↦ sweep rest s' | err x ↦ err x ]
