-- ===== src/Memory/Planner/Sweep/Carving.antt =====
-- The range that is carved out of the winner of the search: what becomes of the free list.
use prospero_ai.Prelude.{
  ℕ, zero, suc, ◌+◌, ◌^◌, ◌≤◌, ◌<◌, ◌%◌, ◌≡◌, sym, ap, ◌∙◌, inl, inr, true, false, Bool-cases, some,
  List, [], ◌∷◌, get_elem?, ltb, leb→le, arith,
}
use prospero_ai.Memory.Align.{is_pow2, align_up, sub64, add64}
use prospero_ai.Memory.Align.Round.{align_up_bounds}
use prospero_ai.Memory.Planner.{Alloc}
use prospero_ai.Memory.Planner.FreeList.{Range, Free, pool_size}
use prospero_ai.Memory.Planner.FreeList.Cover.{
  covers, cover, Below, free_list_insert-Inserted, covers_adjacent,
}
use prospero_ai.Memory.Planner.FreeList.Nodes.{free_list_insert-used}
use prospero_ai.Memory.Planner.Sweep.{fits, unlink, give_back, carve}

cover-unlink :
    (ranges : List Range) (i : ℕ) (r : Range) (x : ℕ)
    → get_elem? ranges i ≡ some r
    → cover x ranges ≡ covers r.off r.size x + cover x (unlink i ranges)
unfolding cover unlink
cover-unlink [] i r x e = cc
cover-unlink (c ∷ rest) zero r x e = ground arith
cover-unlink (c ∷ rest) (suc i) r x e = omega (arith, cover-unlink rest i r x e)

pub Below-unlink :
    (top : ℕ) (ranges : List Range) (i : ℕ) (r : Range)
    → get_elem? ranges i ≡ some r
    → Below top ranges
    → (r.off + r.size ≤ top) × Below top (unlink i ranges)
unfolding unlink
Below-unlink top [] i r e h = cc
Below-unlink top (c ∷ rest) zero r e (hc, h) = (ground arith, h)
Below-unlink top (c ∷ rest) (suc i) r e (hc, h) =
    let (a, b) = Below-unlink top rest i r e h in (a, (hc, b))

-- What is carved out of a range that fits: with room for two nodes in the pool, the free list and
-- the placed bytes together cover each byte exactly as often as the free list did before, so that
-- the paddings are free again; with an exhausted pool they never cover one more often.
pub record Carved (top : ℕ) (a : Alloc) (free : Free) (off : ℕ) (after : Free) : Type 0 where
  pub no_more : (x : ℕ) → cover x after.ranges + covers off a.size x ≤ cover x free.ranges
  pub exact :
      free.used + 1 < pool_size
      → (x : ℕ) → cover x after.ranges + covers off a.size x ≡ cover x free.ranges
  pub inside : Below top after.ranges
  pub placed : off + a.size ≤ top
  pub aligned : off % a.align ≡ 0

-- What giving back a padding does to the free list.
record GivenBack (top : ℕ) (free : Free) (off size : ℕ) (after : Free) : Type 0 where
  no_more : (x : ℕ) → cover x after.ranges ≤ cover x free.ranges + covers off size x
  exact :
      free.used < pool_size
      → (x : ℕ) → cover x after.ranges ≡ cover x free.ranges + covers off size x
  nodes : after.used ≤ free.used + 1
  inside : Below top after.ranges

covers_nothing : (off size x : ℕ) → ltb 0 size ≡ false → covers off size x ≡ 0
unfolding covers
covers_nothing off size x e = ground arith

give_back-GivenBack :
    (top : ℕ) (free : Free) (off size : ℕ)
    → top < 2 ^ 64
    → off + size ≤ top
    → Below top free.ranges
    → GivenBack top free off size (give_back free off size)
unfolding give_back
give_back-GivenBack top free off size small room below = elim (Bool-cases (ltb 0 size)) [
  | inl e ↦
      let i = free_list_insert-Inserted top free off size small room below in
      rw e record {
        no_more = i.no_more;
        exact = i.no_less;
        nodes = free_list_insert-used free off size;
        inside = i.inside;
      }
  | inr e ↦ rw e record {
    no_more = λ x. omega arith;
    exact = λ l x. omega (arith, covers_nothing off size x e);
    nodes = omega arith;
    inside = below;
  }
]

-- A range in three pieces.
covers-thirds :
    (off left n right x : ℕ)
    → covers off (left + n + right) x
      ≡ covers off left x + covers (off + left) n x + covers (off + left + n) right x
covers-thirds off left n right x =
    covers_adjacent off (left + n) right x
    ∙ omega (
      arith,
      covers_adjacent off left n x,
      ap (λ o. covers o right x) {x = off + (left + n)} {y = off + left + n} (omega arith),
    )

module _ (top : ℕ) (a : Alloc) (pow2 : is_pow2 a.align ≡ true) (align_small : a.align < 2 ^ 64)
    (room : top + a.size + a.align ≤ 2 ^ 64) (positive : 0 < a.align) where
  -- For a range of the free list that the allocation fits in, with all ranges below `top` and `top`
  -- plus size and alignment, a power of two, at most 2^64: with room for two nodes in the pool, the
  -- free list after carving, together with the bytes placed, covers each byte exactly as often as
  -- the free list did, so that both paddings are free; with less room it covers none more often. The
  -- place is aligned and below `top`, and so is the free list.
  pub carve-Carved :
      (free : Free) (i : ℕ) (r : Range)
      → get_elem? free.ranges i ≡ some r
      → fits a r ≡ true
      → Below top free.ranges
      → Carved top a free (align_up r.off a.align) (carve a free i r)
  unfolding carve fits
  carve-Carved free i r at fit below = record {
    no_more = λ x.
        omega (arith, both.no_more x, first.no_more x, cover-unlink free.ranges i r x at, thirds x);
    exact = λ nodes x. omega (
      arith,
      both.exact (omega (arith, first.nodes)) x,
      first.exact (omega arith) x,
      cover-unlink free.ranges i r x at,
      thirds x,
    );
    inside = both.inside;
    placed = omega (arith, inside, within, left_eq);
    aligned = rounding.2;
  }
    where
      inside : r.off + r.size ≤ top
      inside = (Below-unlink top free.ranges i r at below).0

      rounding :
          (r.off ≤ align_up r.off a.align)
          × (align_up r.off a.align < r.off + a.align)
          × (align_up r.off a.align % a.align ≡ 0)
      rounding = align_up_bounds r.off a.align pow2 align_small (omega (arith, inside))

      left : ℕ
      left = sub64 (align_up r.off a.align) r.off

      right : ℕ
      right = sub64 (sub64 r.size left) a.size

      left_eq : r.off + left ≡ align_up r.off a.align
      left_eq = omega (arith, rounding.0, rounding.1, inside)

      within : left + a.size ≤ r.size
      within =
          omega
            (arith, leb→le (add64 left a.size) r.size fit, left_eq, rounding.0, rounding.1, inside)

      right_eq : left + a.size + right ≡ r.size
      right_eq = omega (arith, within, inside)

      after_eq : add64 (align_up r.off a.align) a.size ≡ r.off + left + a.size
      after_eq = omega (arith, left_eq, within, inside)

      unlinked : Free
      unlinked = record { ranges = unlink i free.ranges; used = free.used }

      first : GivenBack top unlinked r.off left (give_back unlinked r.off left)
      first =
          give_back-GivenBack top unlinked r.off left (omega (arith, positive))
            (omega (arith, within, inside)) (Below-unlink top free.ranges i r at below).1

      after : ℕ
      after = add64 (align_up r.off a.align) a.size

      both :
          GivenBack top
            (give_back unlinked r.off left)
            after
            right
            (give_back (give_back unlinked r.off left) after right)
      both =
          give_back-GivenBack top (give_back unlinked r.off left) after right
            (omega (arith, positive)) (omega (arith, after_eq, right_eq, inside)) first.inside

      thirds :
          (x : ℕ)
          → covers r.off r.size x
            ≡ covers r.off left x
              + covers (align_up r.off a.align) a.size x
              + covers (add64 (align_up r.off a.align) a.size) right x
      thirds x =
          ap (λ n. covers r.off n x) (sym right_eq)
          ∙ covers-thirds r.off left a.size right x
          ∙ omega (arith, ap (λ o. covers o a.size x) left_eq, ap (λ o. covers o right x) after_eq)
