-- ===== src/Memory/Planner/FreeList.antt =====
-- The free list of memory/planner.c: ranges in a list, sorted by offset, merged with neighbours as
-- they are inserted. `used` is `*pool_used`, the nodes taken from the pool so far.
pub mod Cover
pub mod Nodes
use prospero_ai.Prelude.{
  ℕ, ◌+◌, ◌*◌, Option, none, some, List, [], ◌∷◌, ltb, leb, ◌==◌, if◌then◌else◌,
}
use prospero_ai.Memory.Align.{add64}
use prospero_ai.Memory.Planner.{max_allocs}

-- free_node_t
pub record Range : Type 0 where
  pub off : ℕ
  pub size : ℕ

-- The list and the nodes used.
pub record Free : Type 0 where
  pub ranges : List Range
  pub used : ℕ

abbrev pub pool_size : ℕ
pool_size = max_allocs * 2 + 4

abbrev pub prepend : Range → Free → Free
prepend r f = record { ranges = r ∷ f.ranges; used = f.used }

-- "Fresh node": the node stands before `cur`; an exhausted pool drops the range.
unfoldable pub fresh_node : ℕ → (off size : ℕ) → List Range → Free
fresh_node used off size cur =
    if leb pool_size used
    then record { ranges = cur; used = used }
    else record { ranges = record { off = off; size = size } ∷ cur; used = used + 1 }

-- "Merge with successor only", else a fresh node. The list starts at `cur`.
unfoldable pub merge_successor : ℕ → (off size : ℕ) → List Range → Free
unfolding fresh_node
merge_successor used off size [] = fresh_node used off size []
merge_successor used off size (cur ∷ rest) =
    if add64 off size == cur.off
    then record { ranges = record { off = off; size = add64 cur.size size } ∷ rest; used = used }
    else fresh_node used off size (cur ∷ rest)

-- "Merge with predecessor": what happens to `prev`, whose end is `off`, and to the list after it.
unfoldable pub merge_predecessor : ℕ → (off size : ℕ) → Range → List Range → Free
merge_predecessor used off size prev [] = record {
  ranges = record prev { size = add64 prev.size size } ∷ [];
  used = used;
}
merge_predecessor used off size prev (cur ∷ rest) =
    if add64 off size == cur.off
    then record {
      ranges = record prev { size = add64 (add64 prev.size size) cur.size } ∷ rest;
      used = used;
    }
    else record { ranges = record prev { size = add64 prev.size size } ∷ cur ∷ rest; used = used }

-- The place is between `prev` and the list from `cur` on.
unfoldable pub insert_between : ℕ → (off size : ℕ) → Range → List Range → Free
unfolding merge_predecessor merge_successor
insert_between used off size prev cur =
    if add64 prev.off prev.size == off
    then merge_predecessor used off size prev cur
    else prepend prev (merge_successor used off size cur)

-- while (cur != NULL && cur->off < off) { prev = cur; cur = cur->next; }, from `prev` on.
unfoldable pub insert_after : ℕ → (off size : ℕ) → Range → List Range → Free
unfolding insert_between
insert_after used off size prev [] = insert_between used off size prev []
insert_after used off size prev (cur ∷ rest) =
    let further = prepend prev (insert_after used off size cur rest) in
    if ltb cur.off off then further else insert_between used off size prev (cur ∷ rest)

unfoldable pub insert_first : ℕ → (off size : ℕ) → List Range → Free
unfolding insert_after merge_successor
insert_first used off size [] = merge_successor used off size []
insert_first used off size (cur ∷ rest) =
    if ltb cur.off off
    then insert_after used off size cur rest
    else merge_successor used off size (cur ∷ rest)

unfoldable pub free_list_insert : Free → (off size : ℕ) → Free
unfolding insert_first
free_list_insert free off size = insert_first free.used off size free.ranges
