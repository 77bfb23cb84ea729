-- ===== src/Memory/Planner/Sweep/Step.antt =====
-- One round of the sweep keeps the layout sound, and succeeds while the sums do not wrap.
use prospero_ai.Prelude.{
  ℕ, ◌+◌, ◌^◌, ◌%◌, ◌≤◌, ◌<◌, ◌≡◌, refl, ap, ◌∙◌, true, List, ◌∷◌, All, length, get_or, set,
  get_or-set_self, arith,
}
use prospero_ai.Status.{ok}
use prospero_ai.Memory.Align.{is_pow2, align_up, add64}
use prospero_ai.Memory.Align.Round.{align_up_bounds}
use prospero_ai.Memory.Planner.FreeList.{Range}
use prospero_ai.Memory.Planner.FreeList.Cover.{cover, Below}
use prospero_ai.Memory.Planner.Sweep.{SortEntry, LiveAlloc, Sweep, larger, extend_region}
use prospero_ai.Memory.Planner.Sweep.Live.{total, holds, holds_at, EndsBy}
use prospero_ai.Memory.Planner.Sweep.Usage.{
  uses, usage, held, still_uses, IsPlaced, Other, usage-set, held-set, IsPlaced-set,
}

-- What the planner accepts as an allocation, as far as the sweep relies on it.
abbrev pub IsEntry : SortEntry → Type 0
IsEntry e = (is_pow2 e.alloc.align ≡ true) × (0 < e.alloc.align)

-- The layout of the entries placed so far: at every step each byte has at most one user, and all
-- lies aligned below the cursor.
pub record Sound (offsets : List ℕ) (cursor max_end : ℕ) (placed : List SortEntry) : Type 0 where
  pub single : (t x : ℕ) → usage offsets t x placed ≤ 1
  pub places : All (IsPlaced offsets cursor) placed
  pub ends : max_end ≤ cursor

-- The state between two reusable allocations; `now` is the start of the last one. Every byte is
-- free or held by one live allocation, and whoever has not ended is still held.
pub record Tracked (offsets : List ℕ) (ranges : List Range) (live : List LiveAlloc) (cursor now : ℕ)
    (placed : List SortEntry) : Type 0 where
  pub free_inside : Below cursor ranges
  pub live_inside : All (EndsBy cursor) live
  pub exclusive : (x : ℕ) → cover x ranges + total (holds x) live ≤ 1
  pub remembered : (t x : ℕ) → now ≤ t → held offsets t x placed ≤ total (holds_at t x) live

abbrev pub SoundSweep : Sweep → List SortEntry → Type 0
SoundSweep s placed = Sound s.offsets s.cursor s.max_end placed

abbrev pub TrackedSweep : Sweep → (now : ℕ) → List SortEntry → Type 0
TrackedSweep s now placed = Tracked s.offsets s.free.ranges s.live s.cursor now placed

-- Extending the region while sums do not wrap: the place lies beyond the cursor.
pub record Extended (e : SortEntry) (cursor off cursor' : ℕ) : Type 0 where
  pub after : cursor ≤ off
  pub reaches : off + e.alloc.size ≡ cursor'
  pub bounded : cursor' < cursor + e.alloc.size + e.alloc.align
  pub aligned : off % e.alloc.align ≡ 0

-- The region is extended for `e`, at the cursor rounded up.
abbrev pub Extends : SortEntry → Sweep → Type 0
Extends e s =
    (extend_region e s
      ≡ ok (
        align_up s.cursor e.alloc.align,
        record s { cursor = align_up s.cursor e.alloc.align + e.alloc.size },
      ))
    × Extended e s.cursor (align_up s.cursor e.alloc.align)
        (align_up s.cursor e.alloc.align + e.alloc.size)

pub extend_region-ok :
    (e : SortEntry) (s : Sweep)
    → IsEntry e
    → s.cursor + e.alloc.size + e.alloc.align ≤ 2 ^ 64
    → e.alloc.align < 2 ^ 64
    → Extends e s
unfolding extend_region
extend_region-ok e s v room small = (ground (arith, bounds.0, bounds.1), extended)
  where
    bounds :
        (s.cursor ≤ align_up s.cursor e.alloc.align)
        × (align_up s.cursor e.alloc.align < s.cursor + e.alloc.align)
        × (align_up s.cursor e.alloc.align % e.alloc.align ≡ 0)
    bounds = align_up_bounds s.cursor e.alloc.align v.0 small (omega arith)

    extended :
        Extended e s.cursor
          (align_up s.cursor e.alloc.align)
          (align_up s.cursor e.alloc.align + e.alloc.size)
    extended = record {
      after = bounds.0;
      reaches = refl;
      bounded = omega (arith, bounds.1);
      aligned = bounds.2;
    }

-- A new place for `e` that no user at the same step shares keeps the layout sound.
module _ (offsets : List ℕ) (cursor cursor' max_end off : ℕ) (e : SortEntry)
    (placed : List SortEntry) (sound : Sound offsets cursor max_end placed)
    (grows : cursor ≤ cursor') (inside : off + e.alloc.size ≤ cursor')
    (aligned : off % e.alloc.align ≡ 0) (fresh : All (Other e.add_idx) placed)
    (index : e.add_idx < length offsets) where
  here : get_or (set offsets e.add_idx off) e.add_idx 0 ≡ off
  here = get_or-set_self offsets e.add_idx off 0 index

  pub usage-placed :
      (t x : ℕ)
      → usage (set offsets e.add_idx off) t x (e ∷ placed)
        ≡ uses off t x e.alloc + usage offsets t x placed
  usage-placed t x =
      unfold usage in
      omega
        (arith, ap (λ o. uses o t x e.alloc) here, usage-set offsets e.add_idx off t x placed fresh)

  pub held-placed :
      (t x : ℕ)
      → held (set offsets e.add_idx off) t x (e ∷ placed)
        ≡ still_uses off t x e.alloc + held offsets t x placed
  held-placed t x =
      unfold held in
      omega (
        arith,
        ap (λ o. still_uses o t x e.alloc) here,
        held-set offsets e.add_idx off t x placed fresh,
      )

  pub place-Sound :
      ((t x : ℕ) → uses off t x e.alloc + usage offsets t x placed ≤ 1)
      → cursor' < 2 ^ 64
      → Sound
          (set offsets e.add_idx off)
          cursor'
          (larger max_end (add64 off e.alloc.size))
          (e ∷ placed)
  place-Sound alone small = record {
    single = λ t x. omega (arith, usage-placed t x, alone t x);
    places = (
      (omega (arith, here), ap (λ o. o % e.alloc.align) here ∙ aligned),
      IsPlaced-set offsets e.add_idx off cursor cursor' placed grows fresh sound.places,
    );
    ends = ground (arith, sound.ends);
  }

-- What one round leaves behind.
pub record Stepped (e : SortEntry) (s : Sweep) (placed : List SortEntry) (s' : Sweep) : Type 0 where
  pub sound : SoundSweep s' (e ∷ placed)
  pub bounded : s'.cursor ≤ s.cursor + e.alloc.size + e.alloc.align
  pub sized : length s'.offsets ≡ length s.offsets
