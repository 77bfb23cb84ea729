-- ===== src/Memory/Planner/FreeList/Cover.antt =====
-- How often a byte of the region lies in a list of ranges, and how insertion changes that.
use prospero_ai.Prelude.{
  ℕ, ◌+◌, ◌^◌, ◌≤◌, ◌<◌, ◌≡◌, ◌∙◌, ap, inl, inr, true, Bool-cases, ◌==◌, ◌&&◌, List, [], ◌∷◌, ltb,
  leb, if◌then◌else◌, arith,
}
use prospero_ai.Memory.Align.{add64}
use prospero_ai.Memory.Planner.FreeList.{
  Range, Free, prepend, pool_size, fresh_node, merge_successor, merge_predecessor, insert_between,
  insert_after, insert_first, free_list_insert,
}

-- 1 when byte `x` lies in [off, off + size), else 0.
unfoldable pub covers : (off size x : ℕ) → ℕ
covers off size x = if leb off x && ltb x (off + size) then 1 else 0

unfoldable pub cover : ℕ → List Range → ℕ
cover x [] = 0
cover x (r ∷ rest) = covers r.off r.size x + cover x rest

-- Every range ends within the first `top` bytes.
abbrev pub Below : ℕ → List Range → Type 0
Below top [] = Unit {0}
Below top (r ∷ rest) = (r.off + r.size ≤ top) × Below top rest

-- What the insertion of [off, off + size) may do to a list: no byte is covered more often than
-- before and by the new range, every byte exactly so unless the pool is exhausted, and nothing
-- reaches beyond `top`.
pub record Inserted (top off size : ℕ) (before : List Range) (used : ℕ) (after : Free)
    : Type 0 where
  pub no_more : (x : ℕ) → cover x after.ranges ≤ cover x before + covers off size x
  pub no_less :
      used < pool_size → (x : ℕ) → cover x after.ranges ≡ cover x before + covers off size x
  pub inside : Below top after.ranges

-- Two adjacent ranges cover what their union covers.
pub covers_adjacent : (a m n x : ℕ) → covers a (m + n) x ≡ covers a m x + covers (a + m) n x
unfolding covers
covers_adjacent a m n x = ground arith

module _ (top off size used : ℕ) (small : top < 2 ^ 64) (room : off + size ≤ top) where
  fresh_node-Inserted :
      (cur : List Range)
      → Below top cur
      → Inserted top off size cur used (fresh_node used off size cur)
  unfolding fresh_node cover
  fresh_node-Inserted cur below = record {
    no_more = λ x. ground arith;
    no_less = λ l x. ground arith;
    inside = ground arith;
  }

  merge_successor-Inserted :
      (cur : List Range)
      → Below top cur
      → Inserted top off size cur used (merge_successor used off size cur)
  unfolding merge_successor cover
  merge_successor-Inserted [] below = fresh_node-Inserted [] below
  merge_successor-Inserted (c ∷ rest) (fits, below) = elim (Bool-cases (add64 off size == c.off)) [
    | inl e ↦ rw e record {
      no_more = λ x. omega (arith, joined (touching e) x);
      no_less = λ l x. omega (arith, joined (touching e) x);
      inside = (omega (arith, touching e), below);
    }
    | inr ne ↦ rw ne (fresh_node-Inserted (c ∷ rest) (fits, below))
  ]
    where
      touching : add64 off size == c.off ≡ true → off + size ≡ c.off
      touching e = ground arith

      joined :
          off + size ≡ c.off
          → (x : ℕ) → covers off (add64 c.size size) x ≡ covers off size x + covers c.off c.size x
      joined t x =
          ap (λ m. covers off m x) {y = size + c.size} (omega arith)
          ∙ covers_adjacent off size c.size x
          ∙ omega (arith, ap (λ o. covers o c.size x) t)

  merge_predecessor-Inserted :
      (prev : Range) (cur : List Range)
      → prev.off + prev.size ≡ off
      → Below top cur
      → Inserted top off size (prev ∷ cur) used (merge_predecessor used off size prev cur)
  unfolding merge_predecessor cover
  merge_predecessor-Inserted prev [] meets below = record {
    no_more = λ x. omega (arith, grown x);
    no_less = λ l x. omega (arith, grown x);
    inside = (omega arith, tt);
  }
    where
      grown :
          (x : ℕ)
          → covers prev.off (add64 prev.size size) x
            ≡ covers prev.off prev.size x + covers off size x
      grown x =
          ap (λ m. covers prev.off m x) {y = prev.size + size} (omega arith)
          ∙ covers_adjacent prev.off prev.size size x
          ∙ omega (arith, ap (λ o. covers o size x) meets)
  merge_predecessor-Inserted prev (c ∷ rest) meets (fits, below) =
      elim (Bool-cases (add64 off size == c.off)) [
        | inl e ↦ rw e record {
          no_more = λ x. omega (arith, grown x, joined (touching e) x);
          no_less = λ l x. omega (arith, grown x, joined (touching e) x);
          inside = (omega (arith, touching e), below);
        }
        | inr ne ↦ rw ne record {
          no_more = λ x. omega (arith, grown x);
          no_less = λ l x. omega (arith, grown x);
          inside = (omega arith, (fits, below));
        }
      ]
    where
      touching : add64 off size == c.off ≡ true → off + size ≡ c.off
      touching e = ground arith

      grown :
          (x : ℕ)
          → covers prev.off (add64 prev.size size) x
            ≡ covers prev.off prev.size x + covers off size x
      grown x =
          ap (λ m. covers prev.off m x) {y = prev.size + size} (omega arith)
          ∙ covers_adjacent prev.off prev.size size x
          ∙ omega (arith, ap (λ o. covers o size x) meets)

      joined :
          off + size ≡ c.off
          → (x : ℕ)
          → covers prev.off (add64 (add64 prev.size size) c.size) x
            ≡ covers prev.off (add64 prev.size size) x + covers c.off c.size x
      joined t x =
          ap (λ m. covers prev.off m x) {y = add64 prev.size size + c.size} (omega arith)
          ∙ covers_adjacent prev.off (add64 prev.size size) c.size x
          ∙ omega (
            arith,
            ap (λ o. covers o c.size x) {x = prev.off + add64 prev.size size} {y = c.off}
                (omega arith),
          )

  -- A range in front is not touched.
  prepend-Inserted :
      (prev : Range) (cur : List Range) (after : Free)
      → prev.off + prev.size ≤ top
      → Inserted top off size cur used after
      → Inserted top off size (prev ∷ cur) used (prepend prev after)
  unfolding cover
  prepend-Inserted prev cur after h i = record {
    no_more = λ x. omega (arith, i.no_more x);
    no_less = λ l x. omega (arith, i.no_less l x);
    inside = (h, i.inside);
  }

  insert_between-Inserted :
      (prev : Range) (cur : List Range)
      → Below top (prev ∷ cur)
      → Inserted top off size (prev ∷ cur) used (insert_between used off size prev cur)
  unfolding insert_between
  insert_between-Inserted prev cur (fits, below) =
      elim (Bool-cases (add64 prev.off prev.size == off)) [
        | inl e ↦ rw e (merge_predecessor-Inserted prev cur (ground arith) below)
        | inr ne ↦ rw ne (prepend-Inserted prev cur _ fits (merge_successor-Inserted cur below))
      ]

  insert_after-Inserted :
      (prev : Range) (cur : List Range)
      → Below top (prev ∷ cur)
      → Inserted top off size (prev ∷ cur) used (insert_after used off size prev cur)
  unfolding insert_after
  insert_after-Inserted prev [] below = insert_between-Inserted prev [] below
  insert_after-Inserted prev (c ∷ rest) (fits, below) = elim (Bool-cases (ltb c.off off)) [
    | inl e ↦ rw e (prepend-Inserted prev (c ∷ rest) _ fits (insert_after-Inserted c rest below))
    | inr ne ↦ rw ne (insert_between-Inserted prev (c ∷ rest) (fits, below))
  ]

  insert_first-Inserted :
      (ranges : List Range)
      → Below top ranges
      → Inserted top off size ranges used (insert_first used off size ranges)
  unfolding insert_first
  insert_first-Inserted [] below = merge_successor-Inserted [] below
  insert_first-Inserted (c ∷ rest) below = elim (Bool-cases (ltb c.off off)) [
    | inl e ↦ rw e (insert_after-Inserted c rest below)
    | inr ne ↦ rw ne (merge_successor-Inserted (c ∷ rest) below)
  ]

-- Inserting a range that ends by `top`, below 2^64, into a free list whose ranges do: while the node
-- pool is not exhausted, each byte is covered as often as before, and once more if it lies in the
-- new range; with an exhausted pool it is never covered more often than that. All ends by `top`.
pub free_list_insert-Inserted :
    (top : ℕ) (free : Free) (off size : ℕ)
    → top < 2 ^ 64
    → off + size ≤ top
    → Below top free.ranges
    → Inserted top off size free.ranges free.used (free_list_insert free off size)
unfolding free_list_insert
free_list_insert-Inserted top free off size small room below =
    insert_first-Inserted top off size free.used small room free.ranges below
