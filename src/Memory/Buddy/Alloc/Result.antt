-- ===== src/Memory/Buddy/Alloc/Result.antt =====
-- What pai_buddy_alloc returns, and what it leaves behind.
use prospero_ai.Prelude.{
  ℕ, ◌+◌, ◌-◌, ◌≤◌, ◌≡◌, ◌≢◌, ◌⊎◌, refl, sym, subst, List, ◌∷◌, get_or, set, Bool-cases, inl, inr,
  true, false, ==_ne, ltb, ltb→lt, arith,
}
use prospero_ai.Prelude.Occurs.{update}
use prospero_ai.Memory.Buddy.{
  Buddy, find_order, free_list_pop, order_of, bad_request, split_loop, take_block, buddy_alloc,
}
use prospero_ai.Memory.Buddy.Tree.{Tree, free, held, tag, free_tag, Turn, plug, Fits}
use prospero_ai.Memory.Buddy.Tree.Sound.{Fits-length}
use prospero_ai.Memory.Buddy.Layout.Moves.{Layout-pop, Layout-ext}
use prospero_ai.Memory.Buddy.Invariant.{Holds, IsBuddy}
use prospero_ai.Memory.Buddy.Blocks.{free_block, head_tag, no_head, hold_free_tags}
use prospero_ai.Memory.Buddy.Split.{Cut, split_loop-Cut}
use prospero_ai.Memory.Buddy.Alloc.{find_order_lem, order_of_lem}
use prospero_ai.Memory.Buddy.Alloc.Given.{Allocated, given-Allocated}

-- Taking the head of a list: the block is held.
pop-Holds :
    (b : Buddy) (k a : ℕ) (t : Tree) (h : Holds b k a t) (i : ℕ) (fs : List Turn) (rest : List ℕ)
    → i ≤ 30
    → let node = get_or b.free_lists i 0 in
      Fits fs i node k a
      → plug free fs ≡ t
      → h.entries i ≡ node ∷ rest
      → Holds
          (record b { free_lists = set b.free_lists i (b.words (node + 16)) })
          k
          a
          (plug held fs)
pop-Holds b k a t h i fs rest small fit whole at = record {
  base_is = h.base_is;
  size_is = h.size_is;
  order_is = h.order_is;
  small = h.small;
  start = h.start;
  entries = update h.entries i rest;
  layout =
      Layout-ext
        (λ y.
          subst (λ s. tag (plug held fs) k a y ≡ update (tag s k a) (get_or b.free_lists i 0) 0 y)
            whole (hold_free_tags fs i _ k a fit y))
        (Layout-pop h.layout (get_or b.free_lists i 0) i rest small at);
}

-- No free block is as large as asked for.
abbrev pub NoRoom : Tree → (k a order : ℕ) → Type 0
NoRoom t k a order = (y i : ℕ) → order ≤ i → tag t k a y ≢ free_tag i

nothing_found :
    (b : Buddy) (k a : ℕ) (t : Tree) (order : ℕ)
    → IsBuddy b k a t
    → ((i : ℕ) → order ≤ i → i ≤ k → get_or b.free_lists i 0 ≡ 0)
    → NoRoom t k a order
nothing_found b k a t order v empty y i low freed =
    let bl = free_block t k a y i freed in
    let high = Fits-length bl.frames i y k a bl.leads in
    no_head v.holds i y (omega (arith, high, v.holds.small)) (empty i low (omega (arith, high)))
      freed

take_block-Allocated :
    (b : Buddy) (k a : ℕ) (t : Tree) (size align found : ℕ)
    → IsBuddy b k a t
    → bad_request size align ≡ false
    → order_of size align ≤ found
    → found ≤ k
    → get_or b.free_lists found 0 ≢ 0
    → let popped = free_list_pop b found in
      let taken = take_block popped.0 found (order_of size align) popped.1 align in
      Allocated b taken.0 k a t size align taken.1
unfolding free_list_pop take_block
take_block-Allocated b k a t size align found v good low high some_head =
    let order = order_of size align in
    let x = get_or b.free_lists found 0 in
    let small : found ≤ 30 = omega (arith, high, v.holds.small) in
    let (rest, at, head_is) = head_tag v.holds found small some_head in
    let bl = free_block t k a x found head_is in
    let popped = pop-Holds b k a t v.holds found bl.frames rest small bl.leads bl.whole at in
    let deep = order_of_lem size align good (omega (arith, low, small)) in
    let again : order + (found - order) ≡ found = omega (arith, low) in
    let after = record b { free_lists = set b.free_lists found (b.words (x + 16)) } in
    let cut =
      split_loop-Cut (found - order) after k a x order bl.frames deep.0
        (subst (λ j. Fits bl.frames j x k a) (sym again) bl.leads) popped in
    rw (==_ne x 0 some_head) (
      given-Allocated v size align bl.leads bl.whole
        (subst (λ j. Cut after (split_loop (found - order) after order x) k a x order j bl.frames)
          again cut)
        good low (λ w. refl) refl)

-- pai_buddy_alloc on a sound buddy: a bad request, or one for which there is no room, gives NULL and
-- changes nothing; any other gives a payload.
pub buddy_alloc_lem :
    (b : Buddy) (k a : ℕ) (t : Tree) (size align : ℕ)
    → IsBuddy b k a t
    → ((buddy_alloc b size align ≡ (b, 0))
        × ((bad_request size align ≡ true) ⊎ NoRoom t k a (order_of size align)))
      ⊎ Allocated b (buddy_alloc b size align).0 k a t size align (buddy_alloc b size align).1
unfolding buddy_alloc
buddy_alloc_lem b k a t size align v = elim (Bool-cases (bad_request size align)) [
  | inl bad ↦ inl (rw bad, inl bad)
  | inr good ↦ elim (Bool-cases (ltb b.max_order (order_of size align))) [
    | inl big ↦ inl (
      rw (good, big),
      inr (
          nothing_found b k a t (order_of size align) v
            (λ i low high. absurd (omega (arith, low, high, v.holds.order_is, ltb→lt _ _ big)))),
    )
    | inr leads ↦
        let search_result =
          find_order_lem (b.max_order + 1 - order_of size align) b (order_of size align)
            (omega arith) in
        elim (Bool-cases (
          ltb b.max_order
            (find_order (b.max_order + 1 - order_of size align) b (order_of size align)))) [
              | inl none_found ↦ inl (
                rw (good, leads, none_found),
                inr (
                    nothing_found b k a t (order_of size align) v (λ i low high.
                      search_result.1 i low
                        (omega (arith, high, v.holds.order_is, ltb→lt _ _ none_found)))),
              )
              | inr some_found ↦ inr (
                  rw (good, leads, some_found)
                    (take_block-Allocated b k a t size align _ v good search_result.0
                      (ground (arith, some_found, v.holds.order_is))
                      (ground (arith, some_found, search_result.2))))
            ]
  ]
]
