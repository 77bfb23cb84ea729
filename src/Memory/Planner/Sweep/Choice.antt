-- ===== src/Memory/Planner/Sweep/Choice.antt =====
-- What the best-fit search finds, told by the room in a range and not by the test of the code.
use prospero_ai.Prelude.{
  ℕ, ◌+◌, ◌^◌, ◌≤◌, ◌<◌, ◌%◌, ◌≡◌, true, false, none, some, List, [], ◌∷◌, All, get_elem?, leb→le,
  arith,
}
use prospero_ai.Memory.Align.{is_pow2, align_up, sub64, add64}
use prospero_ai.Memory.Align.Round.{align_up_bounds, least_multiple}
use prospero_ai.Memory.Planner.{Alloc}
use prospero_ai.Memory.Planner.FreeList.{Range}
use prospero_ai.Memory.Planner.FreeList.Cover.{Below}
use prospero_ai.Memory.Planner.Sweep.{Best, fits, best_fit}
use prospero_ai.Memory.Planner.Sweep.Fit.{IsBest, best_fit-IsBest}
use prospero_ai.Memory.Planner.Sweep.Carving.{Below-unlink}

-- A multiple of the alignment in the range from which on the allocation ends within it.
abbrev pub HasRoom : Alloc → Range → Type 0
HasRoom a r = (o : ℕ) × (r.off ≤ o) × (o % a.align ≡ 0) × (o + a.size ≤ r.off + r.size)

-- A smallest range with room, with its place in the list; or no range has room.
abbrev pub Choice : Alloc → List Range → Best → Type 0
Choice a ranges none = All (λ c. ¬ HasRoom a c) ranges
Choice a ranges (some (i, r)) =
    (get_elem? ranges i ≡ some r) × HasRoom a r × All (λ c. HasRoom a c → r.size ≤ c.size) ranges

module _ (top : ℕ) (a : Alloc) (pow2 : is_pow2 a.align ≡ true) (align_small : a.align < 2 ^ 64)
    (room : top + a.size + a.align ≤ 2 ^ 64) (positive : 0 < a.align) where
  module _ (r : Range) (inside : r.off + r.size ≤ top) where
    rounding :
        (r.off ≤ align_up r.off a.align)
        × (align_up r.off a.align < r.off + a.align)
        × (align_up r.off a.align % a.align ≡ 0)
    rounding = align_up_bounds r.off a.align pow2 align_small (omega (arith, inside))

    fits-HasRoom : fits a r ≡ true → HasRoom a r
    unfolding fits
    fits-HasRoom e = (
      align_up r.off a.align,
      rounding.0,
      rounding.2,
      omega (
        arith,
        leb→le (add64 (sub64 (align_up r.off a.align) r.off) a.size) r.size e,
        rounding.0,
        rounding.1,
        inside,
      ),
    )

    HasRoom-fits : HasRoom a r → fits a r ≡ true
    unfolding fits
    HasRoom-fits (o, from, multiple, within) =
        let least : align_up r.off a.align ≤ o =
          least_multiple (align_up r.off a.align) o a.align rounding.2 multiple
            (omega (arith, rounding.1, from)) in
        ground (arith, least, rounding.0, within, inside)

  none_fits :
      (ranges : List Range)
      → Below top ranges
      → All (λ c. fits a c ≡ false) ranges
      → All (λ c. ¬ HasRoom a c) ranges
  none_fits [] below h = tt
  none_fits (c ∷ rest) (hc, below) (u, h) =
      ((λ has. let f = HasRoom-fits c hc has in cc), none_fits rest below h)

  least_fits :
      (n : ℕ) (ranges : List Range)
      → Below top ranges
      → All (λ c. fits a c ≡ true → n ≤ c.size) ranges
      → All (λ c. HasRoom a c → n ≤ c.size) ranges
  least_fits n [] below h = tt
  least_fits n (c ∷ rest) (hc, below) (u, h) =
      ((λ has. u (HasRoom-fits c hc has)), least_fits n rest below h)

  Choice-IsBest :
      (ranges : List Range) (best : Best)
      → Below top ranges
      → IsBest a ranges best
      → Choice a ranges best
  Choice-IsBest ranges none below h = none_fits ranges below h
  Choice-IsBest ranges (some (i, r)) below (at, fit, least) = (
    at,
    fits-HasRoom r ((Below-unlink top ranges i r at below).0) fit,
    least_fits r.size ranges below least,
  )

  -- With all ranges below `top`, and `top` plus the size and the alignment, a power of two, at most
  -- 2^64: the search returns a range, with its place in the list, that holds the allocation from
  -- some multiple of its alignment on, and is no larger than any other that does; or it returns
  -- nothing, and then no range of the list does.
  pub best_fit-Choice :
      (ranges : List Range) → Below top ranges → Choice a ranges (best_fit a ranges 0 none)
  best_fit-Choice ranges below = Choice-IsBest ranges _ below (best_fit-IsBest a ranges)
