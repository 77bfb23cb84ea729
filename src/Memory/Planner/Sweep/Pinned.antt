-- ===== src/Memory/Planner/Sweep/Pinned.antt =====
-- A pinned allocation extends the region: it shares no byte with anything placed before.
use prospero_ai.Prelude.{
  ℕ, ◌+◌, ◌%◌, ◌^◌, ◌≤◌, ◌<◌, ◌≡◌, ap, ◌∙◌, true, List, All, length, length-set, if◌then◌else◌,
  arith,
}
use native.Mathlib.Decide.{dec_le}
use prospero_ai.Status.{ok}
use prospero_ai.Memory.Align.{add64, align_up}
use prospero_ai.Memory.Planner.Sweep.{
  SortEntry, Sweep, record_placement, place_pinned, place_reusable, place,
}
use prospero_ai.Memory.Planner.Sweep.Usage.{
  uses, usage, Other, IsPlaced, usage-beyond, covers_cases,
}
use prospero_ai.Memory.Planner.Sweep.Step.{
  IsEntry, SoundSweep, Stepped, Extends, extend_region-ok, place-Sound,
}

-- Beyond the cursor nothing is placed, so a place there is used by its owner alone.
pub beyond_alone :
    (offsets : List ℕ) (cursor off : ℕ) (e : SortEntry) (placed : List SortEntry)
    → ((t x : ℕ) → usage offsets t x placed ≤ 1)
    → All (IsPlaced offsets cursor) placed
    → cursor ≤ off
    → (t x : ℕ) → uses off t x e.alloc + usage offsets t x placed ≤ 1
beyond_alone offsets cursor off e placed single places after t x = elim (dec_le off x) [
  | yes le ↦ ground (
    arith,
    usage-beyond offsets cursor t x placed (omega arith) places,
    covers_cases off e.alloc.size x,
  )
  | no gt ↦ ground (arith, single t x, covers_cases off e.alloc.size x)
]

-- A pinned allocation is placed, and the layout stays sound, while the region's end plus the size
-- and the alignment is below 2^64; the region grows by at most that sum.
pub place_pinned_step :
    (e : SortEntry) (s : Sweep) (placed : List SortEntry)
    → e.alloc.pinned ≡ true
    → IsEntry e
    → s.cursor + e.alloc.size + e.alloc.align < 2 ^ 64
    → All (Other e.add_idx) placed
    → e.add_idx < length s.offsets
    → SoundSweep s placed
    → (s' : Sweep) × (place e s ≡ ok s') × Stepped e s placed s'
unfolding place place_pinned record_placement
place_pinned_step e s placed pinned v room fresh index sound = (s', result, stepped)
  where
    off : ℕ
    off = align_up s.cursor e.alloc.align

    s0 : Sweep
    s0 = record s { naive = add64 s.naive (align_up e.alloc.size e.alloc.align) }

    s1 : Sweep
    s1 = record s0 {
      pinned_allocs = (s.pinned_allocs + 1) % 2 ^ 32;
      pinned_bytes = add64 s.pinned_bytes e.alloc.size;
    }

    s' : Sweep
    s' = record_placement e off (record s1 { cursor = off + e.alloc.size })

    extended : Extends e s1
    extended = extend_region-ok e s1 v (omega arith) (omega arith)

    opened : place_pinned e s0 ≡ ok s'
    opened = rw (extended.0, place_pinned)

    result : place e s ≡ ok s'
    result = ap (λ b. if b then place_pinned e s0 else place_reusable e s0) pinned ∙ opened

    stepped : Stepped e s placed s'
    stepped = record {
      sound =
          place-Sound s.offsets s.cursor (off + e.alloc.size) s.max_end off e placed sound
            (omega (arith, extended.1.after)) (omega arith) extended.1.aligned fresh index
            (beyond_alone s.offsets s.cursor off e placed sound.single sound.places
              extended.1.after)
            (omega (arith, extended.1.bounded));
      bounded = omega (arith, extended.1.bounded);
      sized = length-set s.offsets e.add_idx off;
    }
