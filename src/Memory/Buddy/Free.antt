-- ===== src/Memory/Buddy/Free.antt =====
-- pai_buddy_free: the block is given back, and the region is as it was without it.
use prospero_ai.Prelude.{
  ℕ, ◌+◌, ◌-◌, ◌^◌, ◌≤◌, ◌<◌, ◌≡◌, ◌≢◌, refl, sym, ap, ◌∙◌, subst, false, ◌&&◌, ◌||◌, ==_ne, leb,
  ltb, arith,
}
use prospero_ai.Prelude.Bits.{two_pow_pos}
use prospero_ai.Prelude.Occurs.{update}
use prospero_ai.Memory.Align.{add64, sub64}
use prospero_ai.Memory.Align.Log2.{pow_mono}
use prospero_ai.Memory.Buddy.{
  Buddy, magic_free, block_set_header, free_list_push, merge_loop, buddy_free,
}
use prospero_ai.Memory.Buddy.Tree.{
  Tree, free, used, held, tag, free_tag, used_tag, plug, IsSound, IsSoundAround, used_sum,
  first_is_free, is_free,
}
use prospero_ai.Memory.Buddy.Tree.Tags.{tag-plug, tag-plug-update, tag_range}
use prospero_ai.Memory.Buddy.Tree.Sound.{
  Fits-range, Fits-length, IsSound-plug, plug-IsSound, used_sum-plug, used_sum-le, pow_64,
}
use prospero_ai.Memory.Buddy.Layout.Moves.{Layout-drop, Layout-ext}
use prospero_ai.Memory.Buddy.Invariant.{Holds, IsBuddy, handed_out}
use prospero_ai.Memory.Buddy.Blocks.{
  Block, used_block, used_apart, handed_out-tag, hold_used_tags, hold_used_handed_out,
  hold_free_handed_out, free_leaf_tag,
}
use prospero_ai.Memory.Buddy.Split.{free_list_push-Holds}
use prospero_ai.Memory.Buddy.Merge.{Merged, merge_loop-Merged}

-- The block at `block` is no longer handed out; every other one and its contents are as before.
pub record Freed (b after : Buddy) (k a : ℕ) (t : Tree) (block : ℕ) : Type 0 where
  pub tree : Tree
  pub valid : IsBuddy after k a tree
  pub handed : (y : ℕ) → handed_out tree k a y ≡ update (handed_out t k a) block 0 y
  pub bytes :
      (i : ℕ) → handed_out t k a block ≡ used_tag i → after.used_bytes + 2 ^ i ≡ b.used_bytes
  pub kept :
      (y i w : ℕ)
      → y ≢ block
      → handed_out t k a y ≡ used_tag i
      → y ≤ w
      → w < y + 2 ^ i
      → after.words w ≡ b.words w

-- A block that is handed out, of order `order` at `x`, is given back.
module _ (b : Buddy) (k a : ℕ) (t : Tree) (v : IsBuddy b k a t) (x order : ℕ)
    (at : tag t k a x ≡ used_tag order) where
  abbrev given_back : Buddy
  given_back =
      block_set_header
        (record b { used_bytes = sub64 b.used_bytes (2 ^ order); frees = add64 b.frees 1 }) x
        magic_free order

  block_at : Block t k a x order used
  block_at = used_block t k a x order at

  around :
      IsSound used order
      × IsSoundAround block_at.frames order
      × ((is_free used && first_is_free block_at.frames) ≡ false)
  around =
      IsSound-plug used block_at.frames order x k a block_at.leads
        (subst (λ s. IsSound s k) (sym block_at.whole) v.sound)

  deep : 6 ≤ order
  deep = unfold IsSound in around.0

  given_back-Holds : Holds given_back k a (plug held block_at.frames)
  unfolding block_set_header
  given_back-Holds = record {
    base_is = v.holds.base_is;
    size_is = v.holds.size_is;
    order_is = v.holds.order_is;
    small = v.holds.small;
    start = v.holds.start;
    entries = v.holds.entries;
    layout =
        Layout-ext
          (λ y.
            subst (λ s. tag (plug held block_at.frames) k a y ≡ update (tag s k a) x 0 y)
              block_at.whole (hold_used_tags block_at.frames order x k a block_at.leads y))
          (Layout-drop v.holds.layout given_back.words x order at (λ y ne some_y. ground (
            arith,
            ne,
            v.holds.layout.aligned y some_y,
            v.holds.layout.aligned x (λ z. omega (arith, z, at)),
          )));
  }

  merged :
      Merged given_back
        (merge_loop (b.max_order - order) given_back x order)
        k
        a
        order
        block_at.frames
  merged =
      merge_loop-Merged (b.max_order - order) given_back k a order x block_at.frames
        (omega (arith, v.holds.order_is, Fits-length block_at.frames order x k a block_at.leads))
        deep block_at.leads around.1 given_back-Holds

  held-handed_out :
      (y : ℕ) → handed_out (plug held block_at.frames) k a y ≡ update (handed_out t k a) x 0 y
  held-handed_out y =
      subst (λ s. handed_out (plug held block_at.frames) k a y ≡ update (handed_out s k a) x 0 y)
        block_at.whole (hold_used_handed_out block_at.frames order x k a block_at.leads y)

  abbrev last : Buddy × ℕ × ℕ
  last = merge_loop (b.max_order - order) given_back x order

  abbrev after : Buddy
  after = free_list_push last.0 last.2 last.1

  after_handed :
      (y : ℕ) → handed_out (plug free merged.frames) k a y ≡ update (handed_out t k a) x 0 y
  after_handed y =
      sym (hold_free_handed_out merged.frames last.2 last.1 k a merged.leads y)
      ∙ merged.same y
      ∙ held-handed_out y

  after-Holds : Holds after k a (plug free merged.frames)
  after-Holds =
      let range =
        Fits-range merged.frames last.2 last.1 k a merged.leads merged.deep merged.holds.start.0 in
      free_list_push-Holds last.0 k a (plug held merged.frames) (plug free merged.frames) last.2
        last.1 merged.holds
        (omega (arith, Fits-length merged.frames last.2 last.1 k a merged.leads, v.holds.small))
        (tag-plug held merged.frames last.2 last.1 k a last.1 merged.leads (omega arith)
            (omega (arith, two_pow_pos last.2))
          ∙ (unfold tag in refl))
        (omega (arith, range, merged.holds.start))
        (λ y.
          tag-plug-update held free merged.frames last.2 last.1 k a last.1 merged.leads
            (omega arith) (omega (arith, two_pow_pos last.2))
            (λ z ne. unfold tag in ground (arith, ne)) y
          ∙ (unfold tag in ground arith))

  after-IsBuddy : IsBuddy after k a (plug free merged.frames)
  after-IsBuddy = record {
    holds = after-Holds;
    sound =
        plug-IsSound free merged.frames last.2 last.1 k a merged.leads
          (unfold IsSound in merged.deep) merged.sound (unfold is_free in merged.alone);
    counted =
        let before = used_sum-plug used block_at.frames order x k a block_at.leads in
        let later = used_sum-plug free merged.frames last.2 last.1 k a merged.leads in
        let le = used_sum-le t k in
        unfold free_list_push block_set_header used_sum in
        omega (
          arith,
          before,
          later,
          le,
          v.counted,
          merged.counted,
          merged.bytes,
          pow_mono k 30 v.holds.small,
          ap (λ s. used_sum s k) block_at.whole,
        );
  }

  given_back_kept :
      (y i w : ℕ)
      → y ≢ x
      → handed_out t k a y ≡ used_tag i
      → y ≤ w
      → w < y + 2 ^ i
      → given_back.words w ≡ b.words w
  unfolding block_set_header
  given_back_kept y i w ne used_y low high = ground (
    arith,
    ne,
    low,
    high,
    pow_64 order deep,
    two_pow_pos order,
    used_apart t k a y i x order (used_tag order) (handed_out-tag t k a y i used_y) at (omega arith)
        (omega arith) ne,
  )

  still_used :
      (y i : ℕ)
      → y ≢ x
      → handed_out t k a y ≡ used_tag i
      → handed_out (plug held block_at.frames) k a y ≡ used_tag i
  still_used y i ne used_y = held-handed_out y ∙ rw (==_ne x y (λ e. ne (sym e))) used_y

  pushed_kept :
      (y i w : ℕ)
      → y ≢ x
      → handed_out t k a y ≡ used_tag i
      → y ≤ w
      → w < y + 2 ^ i
      → after.words w ≡ last.0.words w
  unfolding free_list_push
  pushed_kept y i w ne used_y low high =
      let at_y =
        handed_out-tag (plug free merged.frames) k a y i
          (after_handed y ∙ rw (==_ne x y (λ e. ne (sym e))) used_y) in
      let at_last = free_leaf_tag merged.frames last.2 last.1 k a merged.leads in
      ground (
        arith,
        low,
        high,
        pow_64 last.2 merged.deep,
        two_pow_pos last.2,
        used_apart (plug free merged.frames) k a y i last.1 last.2 (free_tag last.2) at_y at_last
            (omega arith) (omega arith)
            (λ e. omega (arith, at_y, at_last, ap (tag (plug free merged.frames) k a) e)),
      )

  after_kept :
      (y i w : ℕ)
      → y ≢ x
      → handed_out t k a y ≡ used_tag i
      → y ≤ w
      → w < y + 2 ^ i
      → after.words w ≡ b.words w
  after_kept y i w ne used_y low high =
      pushed_kept y i w ne used_y low high
      ∙ merged.kept y i w (still_used y i ne used_y) low high
      ∙ given_back_kept y i w ne used_y low high

  after_bytes : (i : ℕ) → handed_out t k a x ≡ used_tag i → after.used_bytes + 2 ^ i ≡ b.used_bytes
  after_bytes i used_x =
      let order_is : order ≡ i = omega (arith, at, handed_out-tag t k a x i used_x) in
      let before = used_sum-plug used block_at.frames order x k a block_at.leads in
      let later = used_sum-plug free merged.frames last.2 last.1 k a merged.leads in
      unfold used_sum in
      omega (
        arith,
        before,
        later,
        after-IsBuddy.counted,
        v.counted,
        merged.counted,
        ap (λ s. used_sum s k) block_at.whole,
        ap (λ (n : ℕ). 2 ^ n) order_is,
      )

  pub freed_lem : Freed b after k a t x
  freed_lem = record {
    tree = plug free merged.frames;
    valid = after-IsBuddy;
    handed = after_handed;
    bytes = after_bytes;
    kept = after_kept;
  }

-- pai_buddy_free of a pointer whose back pointer names a block that is handed out.
pub buddy_free_lem :
    (b : Buddy) (k a : ℕ) (t : Tree) (pointer order : ℕ)
    → IsBuddy b k a t
    → pointer ≢ 0
    → handed_out t k a (b.words (pointer - 8)) ≡ used_tag order
    → Freed b (buddy_free b pointer) k a t (b.words (pointer - 8))
unfolding buddy_free block_set_header free_list_push
buddy_free_lem b k a t pointer order v some_pointer used_block_at =
    let x = b.words (pointer - 8) in
    let at = handed_out-tag t k a x order used_block_at in
    let header = v.holds.layout.used_head x order at in
    let range = tag_range t k a x (λ z. omega (arith, z, at)) in
    let inside : (ltb x b.base || leb (b.base + b.size) x) ≡ false =
      ground (arith, range, v.holds.base_is, v.holds.size_is) in
    rw (==_ne pointer 0 some_pointer, inside, header.0, header.1) (freed_lem b k a t v x order at)
