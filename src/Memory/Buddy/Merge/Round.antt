-- ===== src/Memory/Buddy/Merge/Round.antt =====
-- One round of the loop of pai_buddy_free that joins a block with its other half.
use prospero_ai.Prelude.{
  ℕ, suc, ◌+◌, ◌-◌, ◌^◌, ◌≤◌, ◌<◌, ◌≡◌, refl, ap, ◌∙◌, List, ◌∷◌, Bool-cases, inl, inr, true, false,
  leb, ltb, if◌then◌else◌, bit_xor, arith,
}
use prospero_ai.Prelude.Bits.{two_pow_pos}
use prospero_ai.Prelude.Occurs.{update, without}
use native.Mathlib.Nat.{pow-suc}
use native.Mathlib.Numerals.{add-one}
use prospero_ai.Memory.Align.{add64}
use prospero_ai.Memory.Buddy.{Buddy, block_is_free, free_list_remove, merge_loop}
use prospero_ai.Memory.Buddy.Tree.{
  held, tag, free_tag, used_tag, Turn, hole, opposite, join, plug, Fits, IsSound, is_free,
}
use prospero_ai.Memory.Buddy.Tree.Tags.{tag-plug, tag-plug-update}
use prospero_ai.Memory.Buddy.Tree.Sound.{Fits-range, first_block, is_free-eq, pow_64}
use prospero_ai.Memory.Buddy.Layout.Moves.{Layout-ext}
use prospero_ai.Memory.Buddy.Layout.Remove.{Removed}
use prospero_ai.Memory.Buddy.Sibling.{sibling_lem}
use prospero_ai.Memory.Buddy.Invariant.{Holds, handed_out}
use prospero_ai.Memory.Buddy.Blocks.{used_apart, handed_out-tag}

-- A held block of order `j` at `x`, and its other half.
module _ (b : Buddy) (k a j x : ℕ) (f : Turn) (fs : List Turn) (deep : 6 ≤ j)
    (fit : Fits (f ∷ fs) j x k a) (h : Holds b k a (plug held (f ∷ fs))) where
  other_tag :
      (y : ℕ)
      → opposite f j ≤ y
      → y < opposite f j + 2 ^ j
      → tag (plug held (f ∷ fs)) k a y ≡ tag f.other j (opposite f j) y
  unfolding Fits plug
  other_tag y low high = elim (Bool-cases f.left) [
    | inl e ↦
        let opp : opposite f j ≡ f.address + 2 ^ j = rw e in
        tag-plug (join held f) fs (suc j) f.address k a y fit.1 (omega (arith, low, opp))
          (omega (arith, high, opp, pow-suc 2 j))
        ∙ rw e (unfold tag in ground (arith, opp, low))
    | inr e ↦
        let opp : opposite f j ≡ f.address = rw e in
        tag-plug (join held f) fs (suc j) f.address k a y fit.1 (omega (arith, low, opp))
          (omega (arith, high, opp, pow-suc 2 j))
        ∙ rw e (unfold tag in ground (arith, opp, high))
  ]

  pub other_free_tag :
      is_free f.other ≡ true → tag (plug held (f ∷ fs)) k a (opposite f j) ≡ free_tag j
  other_free_tag e =
      other_tag (opposite f j) (omega arith) (omega (arith, two_pow_pos j))
      ∙ ap (λ s. tag s j (opposite f j) (opposite f j)) (is_free-eq f.other e)
      ∙ (unfold tag in ground arith)

  -- block_is_free tells exactly whether the other half is a free block.
  pub block_is_free_lem : IsSound f.other j → block_is_free b (opposite f j) j ≡ is_free f.other
  unfolding block_is_free Fits
  block_is_free_lem sound =
      let range = Fits-range fs (suc j) f.address k a fit.1 (omega (arith, deep)) h.start.0 in
      let at = other_tag (opposite f j) (omega arith) (omega (arith, two_pow_pos j)) in
      elim (Bool-cases (is_free f.other)) [
        | inl e ↦
            let freed : tag (plug held (f ∷ fs)) k a (opposite f j) ≡ free_tag j =
              at
              ∙ ap (λ s. tag s j (opposite f j) (opposite f j)) (is_free-eq f.other e)
              ∙ (unfold tag in ground arith) in
            rw e (
              ground (
                arith,
                h.layout.free_head (opposite f j) j freed,
                h.layout.aligned (opposite f j) (λ z. omega (arith, z, freed)),
              ))
        | inr e ↦
            let first = first_block f.other j (opposite f j) sound e in
            rw e (elim first.1 [
              | inl small ↦
                  ground (arith, small, h.layout.free_head (opposite f j) first.0 (at ∙ small.1))
              | inr busy ↦ ground (arith, h.layout.used_head (opposite f j) first.0 (at ∙ busy))
            ])
      ]

  merged_tags :
      is_free f.other ≡ true
      → (y : ℕ)
      → tag (plug held fs) k a y ≡ update (tag (plug held (f ∷ fs)) k a) (opposite f j) 0 y
  unfolding Fits plug
  merged_tags e y =
      let opp : (f.address ≤ opposite f j) × (opposite f j < f.address + 2 ^ suc j) =
        ground (arith, pow-suc 2 j, two_pow_pos j) in
      tag-plug-update (join held f) held fs (suc j) f.address k a (opposite f j) fit.1 opp.0 opp.1
        (λ z ne. elim (Bool-cases f.left) [
          | inl l ↦ rw (l, is_free-eq f.other e) (unfold tag in ground (arith, ne, l))
          | inr r ↦ rw (r, is_free-eq f.other e) (unfold tag in ground (arith, ne, r))
        ])
        y
      ∙ (unfold tag in refl)

  pub merge_round :
      is_free f.other ≡ true
      → (r : Removed b
          (free_list_remove b j (opposite f j))
          j
          (opposite f j)
          h.entries
          (tag (plug held (f ∷ fs)) k a))
      → Holds
          (record (free_list_remove b j (opposite f j)) {
            merges = add64 (free_list_remove b j (opposite f j)).merges 1;
          })
          k
          a
          (plug held fs)
  merge_round e r = rw r.result_is record {
    base_is = h.base_is;
    size_is = h.size_is;
    order_is = h.order_is;
    small = h.small;
    start = h.start;
    entries = update h.entries j (without (opposite f j) (h.entries j));
    layout = Layout-ext (merged_tags e) r.layout;
  }

  pub merged_handed_out :
      is_free f.other ≡ true
      → (y : ℕ) → handed_out (plug held fs) k a y ≡ handed_out (plug held (f ∷ fs)) k a y
  unfolding handed_out
  merged_handed_out e y = ground (
    arith,
    merged_tags e y,
    other_free_tag e,
    ap (tag (plug held (f ∷ fs)) k a) {x = opposite f j} {y = y},
  )

  pub merge_kept :
      (r : Removed b
        (free_list_remove b j (opposite f j))
        j
        (opposite f j)
        h.entries
        (tag (plug held (f ∷ fs)) k a))
      → (y i w : ℕ) → handed_out (plug held (f ∷ fs)) k a y ≡ used_tag i
      → y ≤ w
      → w < y + 2 ^ i
      → (free_list_remove b j (opposite f j)).words w ≡ b.words w
  merge_kept r y i w used_y low high =
      let at_y = handed_out-tag (plug held (f ∷ fs)) k a y i used_y in
      ap (λ (c : Buddy). c.words w) r.result_is
      ∙ r.kept w (λ q freed e. omega (
        arith,
        e,
        low,
        high,
        pow_64 j deep,
        two_pow_pos j,
        h.layout.aligned q (λ z. omega (arith, z, freed)),
        h.layout.aligned y (λ z. omega (arith, z, at_y)),
        used_apart (plug held (f ∷ fs)) k a y i q j (free_tag j) at_y freed (omega arith)
            (omega arith) (λ n. omega (arith, at_y, freed, ap (tag (plug held (f ∷ fs)) k a) n)),
      ))

  -- What the next round finds, and where.
  next_block : (x ≡ hole f j) → (if ltb (opposite f j) x then opposite f j else x) ≡ f.address
  next_block e = ground (arith, e, two_pow_pos j)

  -- A round in terms of the tree.
  pub merge_loop_round :
      (rounds : ℕ)
      → IsSound f.other j
      → merge_loop (suc rounds) b x j ≡ (
          if is_free f.other
          then merge_loop rounds
              (record (free_list_remove b j (opposite f j)) {
                merges = add64 (free_list_remove b j (opposite f j)).merges 1;
              })
              f.address
              (suc j)
          else (b, x, j))
  unfolding merge_loop free_list_remove
  merge_loop_round rounds sound =
      let there = sibling_lem f fs j x k a fit deep h.start.0 in
      let off_is : bit_xor (x - b.base) (2 ^ j) ≡ bit_xor (x - a) (2 ^ j) =
        ap (λ n. bit_xor (x - n) (2 ^ j)) h.base_is in
      let inside : leb b.size (bit_xor (x - b.base) (2 ^ j)) ≡ false =
        ground (arith, off_is, there, h.size_is) in
      let sibling : b.base + bit_xor (x - b.base) (2 ^ j) ≡ opposite f j =
        omega (arith, off_is, there, h.base_is) in
      rw (inside, sibling, block_is_free_lem sound, next_block (unfold Fits in fit.0))
        (elim (Bool-cases (is_free f.other)) [
          | inl e ↦ rw e (
              ap
                (merge_loop rounds
                  (record (free_list_remove b j (opposite f j)) {
                    merges = add64 (free_list_remove b j (opposite f j)).merges 1;
                  })
                  f.address)
                (add-one j))
          | inr e ↦ rw e refl
        ])
