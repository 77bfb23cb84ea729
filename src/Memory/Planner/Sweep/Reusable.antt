-- ===== src/Memory/Planner/Sweep/Reusable.antt =====
-- A reusable allocation goes into a free range, or extends the region.
use prospero_ai.Prelude.{
  ℕ, ◌+◌, ◌%◌, ◌^◌, ◌≤◌, ◌<◌, ◌≡◌, refl, none, some, List, [], ◌∷◌, ◌++◌, All, All-append, length,
  set, arith,
}
use native.Mathlib.Decide.{dec_le}
use prospero_ai.Status.{ok}
use prospero_ai.Memory.Align.{add64, align_up}
use prospero_ai.Memory.Planner.FreeList.{Range, Free}
use prospero_ai.Memory.Planner.FreeList.Cover.{covers, cover, Below}
use prospero_ai.Memory.Planner.Sweep.{
  SortEntry, LiveAlloc, Sweep, Best, larger, carve, choose_offset,
}
use prospero_ai.Memory.Planner.Sweep.Live.{total, holds, holds_at, EndsBy, total-append, Released}
use prospero_ai.Memory.Planner.Sweep.Fit.{IsBest}
use prospero_ai.Memory.Planner.Sweep.Carving.{Carved, carve-Carved}
use prospero_ai.Memory.Planner.Sweep.Usage.{
  uses, usage, Other, usage-le-held, later-le-now, cover-beyond, live-beyond, covers_cases,
}
use prospero_ai.Memory.Planner.Sweep.Step.{
  IsEntry, Sound, SoundSweep, Tracked, TrackedSweep, Extends, extend_region-ok, place-Sound,
  held-placed,
}

-- The choice of a place: what the free list, the place and the cursor are afterwards.
pub record Chosen (e : SortEntry) (ranges : List Range) (live : List LiveAlloc) (cursor off : ℕ)
    (ranges' : List Range) (cursor' : ℕ) : Type 0 where
  pub grows : cursor ≤ cursor'
  pub bounded : cursor' ≤ cursor + e.alloc.size + e.alloc.align
  pub inside : off + e.alloc.size ≤ cursor'
  pub aligned : off % e.alloc.align ≡ 0
  pub free_inside : Below cursor' ranges'
  pub exclusive : (x : ℕ) → cover x ranges' + total (holds x) live + covers off e.alloc.size x ≤ 1

Below-mono : (a b : ℕ) (ranges : List Range) → a ≤ b → Below a ranges → Below b ranges
Below-mono a b [] le h = tt
Below-mono a b (r ∷ rest) le (hr, h) = (omega arith, Below-mono a b rest le h)

EndsBy-mono : (a b : ℕ) (live : List LiveAlloc) → a ≤ b → All (EndsBy a) live → All (EndsBy b) live
EndsBy-mono a b [] le h = tt
EndsBy-mono a b (l ∷ rest) le (hl, h) = (omega arith, EndsBy-mono a b rest le h)

-- A state in which every byte is free or held once, all below the cursor.
pub record Exclusive (ranges : List Range) (live : List LiveAlloc) (cursor : ℕ) : Type 0 where
  pub free_inside : Below cursor ranges
  pub live_inside : All (EndsBy cursor) live
  pub once : (x : ℕ) → cover x ranges + total (holds x) live ≤ 1

module _ (e : SortEntry) (s : Sweep) (v : IsEntry e)
    (room : s.cursor + e.alloc.size + e.alloc.align < 2 ^ 64)
    (clean : Exclusive s.free.ranges s.live s.cursor) where
  -- The result of `choose_offset` for either answer of the search.
  pub choose_offset-Chosen :
      (best : Best)
      → IsBest e.alloc s.free.ranges best
      → (off : ℕ) × (free : Free) × (cursor : ℕ) × (reuses : ℕ) × (choose_offset e s best
          ≡ ok (off, record s { free = free; cursor = cursor; reuses = reuses }))
        × Chosen e s.free.ranges s.live s.cursor off free.ranges cursor
  unfolding choose_offset
  choose_offset-Chosen none h = (
    align_up s.cursor e.alloc.align,
    s.free,
    align_up s.cursor e.alloc.align + e.alloc.size,
    s.reuses,
    extended.0,
    chosen,
  )
    where
      extended : Extends e s
      extended = extend_region-ok e s v (omega arith) (omega arith)

      chosen :
          Chosen e s.free.ranges s.live s.cursor
            (align_up s.cursor e.alloc.align)
            s.free.ranges
            (align_up s.cursor e.alloc.align + e.alloc.size)
      chosen = record {
        grows = omega (arith, extended.1.after);
        bounded = omega (arith, extended.1.bounded);
        inside = omega arith;
        aligned = extended.1.aligned;
        free_inside =
            Below-mono s.cursor _ s.free.ranges (omega (arith, extended.1.after)) clean.free_inside;
        exclusive = λ x. elim (dec_le (align_up s.cursor e.alloc.align) x) [
          | yes le ↦ omega (
            arith,
            cover-beyond s.free.ranges s.cursor x (omega (arith, extended.1.after))
                clean.free_inside,
            live-beyond s.live s.cursor x (omega (arith, extended.1.after)) clean.live_inside,
            (covers_cases (align_up s.cursor e.alloc.align) e.alloc.size x).0,
          )
          | no gt ↦
              ground
                (arith, clean.once x, covers_cases (align_up s.cursor e.alloc.align) e.alloc.size x)
        ];
      }
  choose_offset-Chosen (some (i, r)) (at, fit, least) = (
    align_up r.off e.alloc.align,
    carve e.alloc s.free i r,
    s.cursor,
    (s.reuses + 1) % 2 ^ 32,
    refl,
    record {
      grows = omega arith;
      bounded = omega arith;
      inside = carved.placed;
      aligned = carved.aligned;
      free_inside = carved.inside;
      exclusive = λ x. omega (arith, carved.no_more x, clean.once x);
    },
  )
    where
      carved :
          Carved s.cursor e.alloc s.free (align_up r.off e.alloc.align) (carve e.alloc s.free i r)
      carved =
          carve-Carved s.cursor e.alloc v.0 (omega arith) (omega arith) v.1 s.free i r at fit
            clean.free_inside

-- The state after the place that was chosen is recorded.
module _ (e : SortEntry) (s : Sweep) (placed : List SortEntry) (now : ℕ)
    (room : s.cursor + e.alloc.size + e.alloc.align < 2 ^ 64) (later : now ≤ e.alloc.start)
    (fresh : All (Other e.add_idx) placed) (index : e.add_idx < length s.offsets)
    (sound : SoundSweep s placed) (tracked : TrackedSweep s now placed) (free : Free)
    (live : List LiveAlloc) (released : Released e.alloc.start s.cursor s.free s.live (free, live))
    (off cursor' : ℕ) (ranges' : List Range)
    (chosen : Chosen e free.ranges live s.cursor off ranges' cursor') where
  abbrev pub new_live : List LiveAlloc
  new_live = live ++ (record { end = e.alloc.end; off = off; size = e.alloc.size } ∷ [])

  -- Whoever uses a byte at a step of the new allocation is still live, so is not in its place.
  alone : (t x : ℕ) → uses off t x e.alloc + usage s.offsets t x placed ≤ 1
  alone t x = elim (dec_le e.alloc.start t) [
    | yes le ↦ ground (
      arith,
      usage-le-held s.offsets t x placed,
      tracked.remembered t x (omega arith),
      released.later t x le,
      later-le-now live t x,
      chosen.exclusive x,
    )
    | no gt ↦ ground (arith, sound.single t x)
  ]

  pub reused-Sound :
      Sound
        (set s.offsets e.add_idx off)
        cursor'
        (larger s.max_end (add64 off e.alloc.size))
        (e ∷ placed)
  reused-Sound =
      place-Sound s.offsets s.cursor cursor' s.max_end off e placed sound chosen.grows chosen.inside
        chosen.aligned fresh index alone (omega (arith, chosen.bounded))

  pub reused-Tracked :
      Tracked (set s.offsets e.add_idx off) ranges' new_live cursor' e.alloc.start (e ∷ placed)
  reused-Tracked = record {
    free_inside = chosen.free_inside;
    live_inside =
        All-append (EndsBy cursor') live _
          (EndsBy-mono s.cursor cursor' live chosen.grows released.live_inside) (chosen.inside, tt);
    exclusive = λ x. omega (
      arith,
      chosen.exclusive x,
      total-append (holds x) live (record { end = e.alloc.end; off = off; size = e.alloc.size }),
    );
    remembered = λ t x le. omega (
      arith,
      held-placed s.offsets s.cursor cursor' s.max_end off e placed sound chosen.grows chosen.inside
          chosen.aligned fresh index t x,
      tracked.remembered t x (omega arith),
      released.later t x le,
      total-append (holds_at t x) live
          (record { end = e.alloc.end; off = off; size = e.alloc.size }),
    );
  }
