-- ===== src/Memory/Planner/Sweep/Round.antt =====
-- One round of the sweep on a reusable allocation.
use prospero_ai.Prelude.{
  ℕ, ◌+◌, ◌^◌, ◌≤◌, ◌<◌, ◌≡◌, ap, ◌∙◌, false, none, List, ◌∷◌, All, length, length-set,
  if◌then◌else◌, arith,
}
use prospero_ai.Status.{ok}
use prospero_ai.Memory.Align.{add64, align_up}
use prospero_ai.Memory.Planner.FreeList.{Free}
use prospero_ai.Memory.Planner.Sweep.{
  SortEntry, LiveAlloc, Sweep, record_placement, release_expired, best_fit, choose_offset,
  track_peak, place_pinned, place_reusable, place,
}
use prospero_ai.Memory.Planner.Sweep.Live.{Released, release_expired-Released}
use prospero_ai.Memory.Planner.Sweep.Fit.{best_fit-IsBest}
use prospero_ai.Memory.Planner.Sweep.Usage.{Other}
use prospero_ai.Memory.Planner.Sweep.Step.{IsEntry, SoundSweep, TrackedSweep, Stepped}
use prospero_ai.Memory.Planner.Sweep.Reusable.{
  Chosen, Exclusive, choose_offset-Chosen, reused-Sound, reused-Tracked,
}

-- A reusable allocation that starts at `now` or later is placed, and the layout stays sound and the
-- live list complete, while the region's end plus the size and the alignment is below 2^64.
pub place_reusable_step :
    (e : SortEntry) (s : Sweep) (placed : List SortEntry) (now : ℕ)
    → e.alloc.pinned ≡ false
    → IsEntry e
    → s.cursor + e.alloc.size + e.alloc.align < 2 ^ 64
    → now ≤ e.alloc.start
    → All (Other e.add_idx) placed
    → e.add_idx < length s.offsets
    → SoundSweep s placed
    → TrackedSweep s now placed
    → (s' : Sweep) × (place e s ≡ ok s')
      × Stepped e s placed s'
      × TrackedSweep s' e.alloc.start (e ∷ placed)
unfolding place place_reusable record_placement track_peak
place_reusable_step e s placed now reusable v room later fresh index sound tracked = (
  s',
  result,
  stepped,
  reused-Tracked e s placed now room later fresh index sound tracked free live released off cursor'
      free'.ranges chosen.5,
)
  where
    s0 : Sweep
    s0 = record s { naive = add64 s.naive (align_up e.alloc.size e.alloc.align) }

    free : Free
    free = (release_expired e.alloc.start s.free s.live).0

    live : List LiveAlloc
    live = (release_expired e.alloc.start s.free s.live).1

    released : Released e.alloc.start s.cursor s.free s.live (free, live)
    released =
        release_expired-Released e.alloc.start s.cursor s.free s.live (omega arith)
          tracked.free_inside tracked.live_inside

    s1 : Sweep
    s1 = record s0 { free = free; live = live }

    clean : Exclusive free.ranges live s.cursor
    clean = record {
      free_inside = released.free_inside;
      live_inside = released.live_inside;
      once = λ x. omega (arith, released.no_more x, tracked.exclusive x);
    }

    chosen :
        (off : ℕ) × (free' : Free) × (cursor' : ℕ) × (reuses' : ℕ) × (choose_offset e s1
            (best_fit e.alloc free.ranges 0 none)
          ≡ ok (off, record s1 { free = free'; cursor = cursor'; reuses = reuses' }))
        × Chosen e free.ranges live s.cursor off free'.ranges cursor'
    chosen = choose_offset-Chosen e s1 v room clean _ (best_fit-IsBest e.alloc free.ranges)

    off : ℕ
    off = chosen.0

    free' : Free
    free' = chosen.1

    cursor' : ℕ
    cursor' = chosen.2

    s' : Sweep
    s' =
        track_peak
          (record_placement e off (record s1 { free = free'; cursor = cursor'; reuses = chosen.3 }))

    opened : place_reusable e s0 ≡ ok s'
    opened = rw (chosen.4, place_reusable)

    result : place e s ≡ ok s'
    result = ap (λ b. if b then place_pinned e s0 else place_reusable e s0) reusable ∙ opened

    stepped : Stepped e s placed s'
    stepped = record {
      sound =
          reused-Sound e s placed now room later fresh index sound tracked free live released off
            cursor' free'.ranges chosen.5;
      bounded = chosen.5.bounded;
      sized = length-set s.offsets e.add_idx off;
    }
