-- ===== src/Memory/Planner/Sweep/Usage.antt =====
-- Who uses a byte at a step: the placed allocations, read off the offsets that the sweep wrote.
use prospero_ai.Prelude.{
  ℕ, ◌+◌, ◌%◌, ◌≤◌, ◌≡◌, ◌≢◌, refl, ap, ap₂, ◌∙◌, ◌&&◌, List, [], ◌∷◌, All, get_or, set,
  get_or-set_ne, ltb, leb, if◌then◌else◌, arith,
}
use prospero_ai.Memory.Planner.{Alloc}
use prospero_ai.Memory.Planner.FreeList.{Range}
use prospero_ai.Memory.Planner.FreeList.Cover.{covers, cover, Below}
use prospero_ai.Memory.Planner.Sweep.{SortEntry, LiveAlloc}
use prospero_ai.Memory.Planner.Sweep.Live.{total, holds, holds_at, EndsBy}

-- Is the allocation live at step `t`, at a place that holds byte `x`?
abbrev pub uses : (off t x : ℕ) → Alloc → ℕ
uses off t x a = if leb a.start t && ltb t a.end then covers off a.size x else 0

abbrev pub still_uses : (off t x : ℕ) → Alloc → ℕ
still_uses off t x a = if ltb t a.end then covers off a.size x else 0

-- How many of the entries use byte `x` at step `t`, or will not have ended by then.
unfoldable pub usage : (offsets : List ℕ) (t x : ℕ) → List SortEntry → ℕ
usage offsets t x [] = 0
usage offsets t x (e ∷ rest) =
    uses (get_or offsets e.add_idx 0) t x e.alloc + usage offsets t x rest

unfoldable pub held : (offsets : List ℕ) (t x : ℕ) → List SortEntry → ℕ
held offsets t x [] = 0
held offsets t x (e ∷ rest) =
    still_uses (get_or offsets e.add_idx 0) t x e.alloc + held offsets t x rest

-- The place of an entry ends within the first `top` bytes, and is aligned.
abbrev pub IsPlaced : (offsets : List ℕ) (top : ℕ) → SortEntry → Type 0
IsPlaced offsets top e =
    (get_or offsets e.add_idx 0 + e.alloc.size ≤ top)
    × (get_or offsets e.add_idx 0 % e.alloc.align ≡ 0)

-- Entries other than number `i`.
abbrev pub Other : ℕ → SortEntry → Type 0
Other i e = i ≢ e.add_idx

pub usage-le-held :
    (offsets : List ℕ) (t x : ℕ) (es : List SortEntry) → usage offsets t x es ≤ held offsets t x es
unfolding usage held
usage-le-held offsets t x [] = omega arith
usage-le-held offsets t x (e ∷ rest) = ground (arith, usage-le-held offsets t x rest)

-- Writing the offset of another entry changes nothing.
module _ (offsets : List ℕ) (i off : ℕ) where
  pub usage-set :
      (t x : ℕ) (es : List SortEntry)
      → All (Other i) es
      → usage (set offsets i off) t x es ≡ usage offsets t x es
  unfolding usage
  usage-set t x [] h = refl
  usage-set t x (e ∷ rest) (he, h) =
      ap₂ ◌+◌ (ap (λ o. uses o t x e.alloc) (get_or-set_ne offsets i e.add_idx off 0 he))
        (usage-set t x rest h)

  pub held-set :
      (t x : ℕ) (es : List SortEntry)
      → All (Other i) es
      → held (set offsets i off) t x es ≡ held offsets t x es
  unfolding held
  held-set t x [] h = refl
  held-set t x (e ∷ rest) (he, h) =
      ap₂ ◌+◌ (ap (λ o. still_uses o t x e.alloc) (get_or-set_ne offsets i e.add_idx off 0 he))
        (held-set t x rest h)

  pub IsPlaced-set :
      (top top' : ℕ) (es : List SortEntry)
      → top ≤ top'
      → All (Other i) es
      → All (IsPlaced offsets top) es
      → All (IsPlaced (set offsets i off) top') es
  IsPlaced-set top top' [] le h p = tt
  IsPlaced-set top top' (e ∷ rest) le (he, h) ((p, q), ps) = (
    (omega (arith, same), ap (λ o. o % e.alloc.align) same ∙ q),
    IsPlaced-set top top' rest le h ps,
  )
    where
      same : get_or (set offsets i off) e.add_idx 0 ≡ get_or offsets e.add_idx 0
      same = get_or-set_ne offsets i e.add_idx off 0 he

covers-beyond : (off size x : ℕ) → off + size ≤ x → covers off size x ≡ 0
unfolding covers
covers-beyond off size x h = ground arith

-- No byte from `top` on is used by what is placed below `top`.
pub usage-beyond :
    (offsets : List ℕ) (top t x : ℕ) (es : List SortEntry)
    → top ≤ x
    → All (IsPlaced offsets top) es
    → usage offsets t x es ≡ 0
unfolding usage
usage-beyond offsets top t x [] le p = refl
usage-beyond offsets top t x (e ∷ rest) le ((p, q), ps) = ground (
  arith,
  covers-beyond (get_or offsets e.add_idx 0) e.alloc.size x (omega arith),
  usage-beyond offsets top t x rest le ps,
)

pub cover-beyond :
    (ranges : List Range) (top x : ℕ) → top ≤ x → Below top ranges → cover x ranges ≡ 0
unfolding cover
cover-beyond [] top x le h = refl
cover-beyond (r ∷ rest) top x le (hr, h) =
    omega (arith, covers-beyond r.off r.size x (omega arith), cover-beyond rest top x le h)

pub live-beyond :
    (live : List LiveAlloc) (top x : ℕ) → top ≤ x → All (EndsBy top) live → total (holds x) live ≡ 0
unfolding total
live-beyond [] top x le h = refl
live-beyond (l ∷ rest) top x le (hl, h) =
    omega (arith, covers-beyond l.off l.size x (omega arith), live-beyond rest top x le h)

pub later-le-now :
    (live : List LiveAlloc) (t x : ℕ) → total (holds_at t x) live ≤ total (holds x) live
unfolding total
later-le-now [] t x = omega arith
later-le-now (l ∷ rest) t x = ground (arith, later-le-now rest t x)

pub covers_cases : (off size x : ℕ) → (covers off size x ≤ 1) × (covers off size x ≢ 0 → off ≤ x)
unfolding covers
covers_cases off size x = (ground arith, λ h. ground arith)
