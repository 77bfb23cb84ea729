-- ===== src/Memory/Planner/Build/Rounds.antt =====
-- The loop over the sorted allocations: the rounds of the sweep, one after the other.
use prospero_ai.Prelude.{
  ℕ, ◌+◌, ◌^◌, ◌≤◌, ◌<◌, ◌≡◌, inl, inr, refl, sym, subst, List, [], ◌∷◌, All, length, arith,
}
use prospero_ai.Status.{ok}
use prospero_ai.Memory.Planner.Sweep.{SortEntry, Sweep, place, sweep}
use prospero_ai.Memory.Planner.Sweep.Usage.{usage, held, Other}
use prospero_ai.Memory.Planner.FreeList.Cover.{cover}
use prospero_ai.Memory.Planner.Sweep.Live.{total}
use prospero_ai.Memory.Planner.Sweep.Step.{IsEntry, SoundSweep, TrackedSweep, Stepped}
use prospero_ai.Memory.Planner.Sweep.Pinned.{place_pinned_step}
use prospero_ai.Memory.Planner.Sweep.Round.{place_reusable_step}
use prospero_ai.Memory.Planner.Build.{sweep_start}
use prospero_ai.Memory.Planner.Build.Schedule.{need, Distinct, IsPinned, Scheduled}

-- The entries in the order in which they were placed, the last one first.
unfoldable pub placed_order : List SortEntry → (placed : List SortEntry) → List SortEntry
placed_order [] placed = placed
placed_order (e ∷ rest) placed = placed_order rest (e ∷ placed)

-- What the sweep still asks of its entries.
unfoldable pub Fresh : (placed es : List SortEntry) → Type 0
Fresh placed [] = Unit
Fresh placed (e ∷ rest) = All (Other e.add_idx) placed × Fresh placed rest

Fresh-step :
    (e : SortEntry) (placed es : List SortEntry)
    → All (Other e.add_idx) es
    → Fresh placed es
    → Fresh (e ∷ placed) es
unfolding Fresh
Fresh-step e placed [] others fresh = tt
Fresh-step e placed (b ∷ rest) (ne, others) (fb, fresh) =
    (((λ q. ne (sym q)), fb), Fresh-step e placed rest others fresh)

abbrev pub IsNumbered : ℕ → SortEntry → Type 0
IsNumbered count e = IsEntry e × (e.add_idx < count)

-- The entries that are still to be placed, with room for all of them.
pub record Pending (es : List SortEntry) (s : Sweep) (placed : List SortEntry) : Type 0 where
  pub valid : All (IsNumbered (length s.offsets)) es
  pub distinct : Distinct es
  pub fresh : Fresh placed es
  pub room : s.cursor + need es < 2 ^ 64

module _ (e : SortEntry) (rest : List SortEntry) (s : Sweep) (placed : List SortEntry)
    (pending : Pending (e ∷ rest) s placed) where
  pub next_room : s.cursor + e.alloc.size + e.alloc.align < 2 ^ 64
  unfolding need
  next_room = omega (arith, pending.room)

  pub next_fresh : All (Other e.add_idx) placed
  unfolding Fresh
  next_fresh = pending.fresh.0

  pub Pending-step : (s' : Sweep) → Stepped e s placed s' → Pending rest s' (e ∷ placed)
  unfolding need Fresh Distinct
  Pending-step s' stepped = record {
    valid = subst (λ n. All (IsNumbered n) rest) (sym stepped.sized) pending.valid.1;
    distinct = pending.distinct.1;
    fresh = Fresh-step e placed rest pending.distinct.0 pending.fresh.1;
    room = omega (arith, pending.room, stepped.bounded);
  }

-- The end of the sweep.
abbrev pub Swept : (es : List SortEntry) (s : Sweep) (placed : List SortEntry) → Type 0
Swept es s placed =
    (s' : Sweep) × (sweep es s ≡ ok s')
    × SoundSweep s' (placed_order es placed)
    × (s'.cursor ≤ s.cursor + need es)

module _ (e : SortEntry) (rest : List SortEntry) (s s' : Sweep) (placed : List SortEntry)
    (stepped : Stepped e s placed s') (eq : place e s ≡ ok s') where
  Swept-step : Swept rest s' (e ∷ placed) → Swept (e ∷ rest) s placed
  unfolding sweep placed_order need
  Swept-step (s'', eq', sound, bound) =
      (s'', rw (eq, sweep) eq', sound, omega (arith, bound, stepped.bounded))

sweep_pinned :
    (es : List SortEntry) (s : Sweep) (placed : List SortEntry)
    → All IsPinned es
    → Pending es s placed
    → SoundSweep s placed
    → Swept es s placed
unfolding sweep placed_order need
sweep_pinned [] s placed pinned pending sound = (s, refl, sound, omega arith)
sweep_pinned (e ∷ rest) s placed (p, pinned) pending sound =
    let (s', eq, stepped) =
      place_pinned_step e s placed p pending.valid.0.0 (next_room e rest s placed pending)
        (next_fresh e rest s placed pending) pending.valid.0.1 sound in
    Swept-step e rest s s' placed stepped eq (
      sweep_pinned rest s' (e ∷ placed) pinned (Pending-step e rest s placed pending s' stepped)
        stepped.sound)

pub sweep-Scheduled :
    (now : ℕ) (es : List SortEntry) (s : Sweep) (placed : List SortEntry)
    → Scheduled now es
    → Pending es s placed
    → SoundSweep s placed
    → TrackedSweep s now placed
    → Swept es s placed
unfolding sweep placed_order need Scheduled
sweep-Scheduled now [] s placed order pending sound tracked = (s, refl, sound, omega arith)
sweep-Scheduled now (e ∷ rest) s placed (inl (p, pinned)) pending sound tracked =
    sweep_pinned (e ∷ rest) s placed (p, pinned) pending sound
sweep-Scheduled now (e ∷ rest) s placed (inr (p, later, order)) pending sound tracked =
    let (s', eq, stepped, tracked') =
      place_reusable_step e s placed now p pending.valid.0.0 (next_room e rest s placed pending)
        later (next_fresh e rest s placed pending) pending.valid.0.1 sound tracked in
    Swept-step e rest s s' placed stepped eq (
      sweep-Scheduled e.alloc.start rest s' (e ∷ placed) order
        (Pending-step e rest s placed pending s' stepped) stepped.sound tracked')

pub placed_order-usage :
    (offsets : List ℕ) (t x : ℕ) (es placed : List SortEntry)
    → usage offsets t x (placed_order es placed) ≡ usage offsets t x es + usage offsets t x placed
unfolding placed_order usage
placed_order-usage offsets t x [] placed = omega arith
placed_order-usage offsets t x (e ∷ rest) placed =
    omega (arith, placed_order-usage offsets t x rest (e ∷ placed))

pub placed_order-All :
    (P : SortEntry → Type 0) (es placed : List SortEntry)
    → All P (placed_order es placed)
    → All P es × All P placed
unfolding placed_order
placed_order-All P [] placed h = (tt, h)
placed_order-All P (e ∷ rest) placed h =
    let (a, (b, c)) = placed_order-All P rest (e ∷ placed) h in ((b, a), c)

pub never-Fresh : (es : List SortEntry) → Fresh [] es
unfolding Fresh
never-Fresh [] = tt
never-Fresh (e ∷ rest) = (tt, never-Fresh rest)

pub start-Sound : (count : ℕ) → SoundSweep (sweep_start count) []
unfolding sweep_start usage
start-Sound count = record { single = λ t x. omega arith; places = tt; ends = omega arith }

pub start-Tracked : (count : ℕ) → TrackedSweep (sweep_start count) 0 []
unfolding sweep_start held cover total
start-Tracked count = record {
  free_inside = tt;
  live_inside = tt;
  exclusive = λ x. omega arith;
  remembered = λ t x le. omega arith;
}
