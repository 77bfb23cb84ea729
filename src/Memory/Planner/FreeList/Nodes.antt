-- ===== src/Memory/Planner/FreeList/Nodes.antt =====
-- How many nodes of the pool an insertion into the free list takes.
use prospero_ai.Prelude.{ℕ, ◌+◌, ◌≤◌, inl, inr, Bool-cases, ◌==◌, List, [], ◌∷◌, ltb, arith}
use prospero_ai.Memory.Align.{add64}
use prospero_ai.Memory.Planner.FreeList.{
  Range, Free, fresh_node, merge_successor, merge_predecessor, insert_between, insert_after,
  insert_first, free_list_insert,
}

-- An insertion takes one node from the pool at most.
module _ (off size used : ℕ) where
  fresh_node-used : (cur : List Range) → (fresh_node used off size cur).used ≤ used + 1
  unfolding fresh_node
  fresh_node-used cur = ground arith

  merge_successor-used : (cur : List Range) → (merge_successor used off size cur).used ≤ used + 1
  unfolding merge_successor
  merge_successor-used [] = fresh_node-used []
  merge_successor-used (c ∷ rest) = elim (Bool-cases (add64 off size == c.off)) [
    | inl e ↦ rw e (omega arith)
    | inr ne ↦ rw ne (fresh_node-used (c ∷ rest))
  ]

  merge_predecessor-used :
      (prev : Range) (cur : List Range) → (merge_predecessor used off size prev cur).used ≤ used + 1
  unfolding merge_predecessor
  merge_predecessor-used prev [] = omega arith
  merge_predecessor-used prev (c ∷ rest) = ground arith

  insert_between-used :
      (prev : Range) (cur : List Range) → (insert_between used off size prev cur).used ≤ used + 1
  unfolding insert_between
  insert_between-used prev cur = elim (Bool-cases (add64 prev.off prev.size == off)) [
    | inl e ↦ rw e (merge_predecessor-used prev cur)
    | inr ne ↦ rw ne (merge_successor-used cur)
  ]

  insert_after-used :
      (prev : Range) (cur : List Range) → (insert_after used off size prev cur).used ≤ used + 1
  unfolding insert_after
  insert_after-used prev [] = insert_between-used prev []
  insert_after-used prev (c ∷ rest) = elim (Bool-cases (ltb c.off off)) [
    | inl e ↦ rw e (insert_after-used c rest)
    | inr ne ↦ rw ne (insert_between-used prev (c ∷ rest))
  ]

pub free_list_insert-used :
    (free : Free) (off size : ℕ) → (free_list_insert free off size).used ≤ free.used + 1
unfolding free_list_insert insert_first
free_list_insert-used free off size = used free.ranges
  where
    used : (ranges : List Range) → (insert_first free.used off size ranges).used ≤ free.used + 1
    used [] = merge_successor-used off size free.used []
    used (c ∷ rest) = elim (Bool-cases (ltb c.off off)) [
      | inl e ↦ rw e (insert_after-used off size free.used c rest)
      | inr ne ↦ rw ne (merge_successor-used off size free.used (c ∷ rest))
    ]
