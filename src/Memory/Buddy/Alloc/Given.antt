-- ===== src/Memory/Buddy/Alloc/Given.antt =====
-- The end of pai_buddy_alloc: the block that was cut out is handed out.
use prospero_ai.Prelude.{
  ℕ, ◌+◌, ◌-◌, ◌%◌, ◌^◌, ◌≤◌, ◌<◌, ◌≡◌, ◌⊎◌, refl, sym, ap, ◌∙◌, subst, List, false, arith,
}
use prospero_ai.Prelude.Bits.{two_pow_pos}
use prospero_ai.Prelude.Occurs.{update}
use prospero_ai.Memory.Align.{add64, align_up}
use prospero_ai.Memory.Align.Round.{align_up_bounds}
use prospero_ai.Memory.Align.Log2.{pow_mono}
use prospero_ai.Memory.Buddy.{Buddy, write, magic_alloc, block_header, order_of, bad_request}
use prospero_ai.Memory.Buddy.Tree.{
  Tree, free, used, tag, free_tag, used_tag, Turn, plug, Fits, IsSound, used_sum, is_free,
}
use prospero_ai.Memory.Buddy.Tree.Sound.{
  Fits-range, Fits-length, IsSound-plug, plug-IsSound, used_sum-plug, used_sum-le, pow_64,
}
use prospero_ai.Memory.Buddy.Invariant.{Holds, IsBuddy, handed_out}
use prospero_ai.Memory.Buddy.Blocks.{
  handed_out-tag, used_apart, hold_free_handed_out, free_leaf_tag,
}
use prospero_ai.Memory.Buddy.Split.{Cut}
use prospero_ai.Memory.Buddy.Alloc.{order_of_lem, take-Layout, take_handed_out}

-- A payload of `size` bytes at `pointer`, a multiple of `align`, in a block of order `order` at
-- `block` that was not handed out before; every other block and its contents are as before.
pub record Allocated (b after : Buddy) (k a : ℕ) (t : Tree) (size align pointer : ℕ) : Type 0 where
  pub tree : Tree
  pub block : ℕ
  pub order : ℕ
  pub valid : IsBuddy after k a tree
  pub fresh : handed_out t k a block ≡ 0
  pub handed : (y : ℕ) → handed_out tree k a y ≡ update (handed_out t k a) block (used_tag order) y
  pub inside : (block + 32 ≤ pointer) × (pointer + size ≤ block + 2 ^ order)
  pub multiple : pointer % align ≡ 0
  pub back : after.words (pointer - 8) ≡ block
  pub bytes : after.used_bytes ≡ b.used_bytes + 2 ^ order
  pub kept :
      (y i w : ℕ)
      → handed_out t k a y ≡ used_tag i
      → y ≤ w
      → w < y + 2 ^ i
      → after.words w ≡ b.words w

-- The payload lies in the block, behind the header and the back pointer.
payload_inside :
    (x size align : ℕ)
    → bad_request size align ≡ false
    → order_of size align ≤ 30
    → x + 2 ^ order_of size align ≤ 2 ^ 64
    → let pointer = align_up (x + block_header) align in
      (x + 32 ≤ pointer) × (pointer + size ≤ x + 2 ^ order_of size align) × (pointer % align ≡ 0)
unfolding bad_request
payload_inside x size align good small leads =
    let holds = order_of_lem size align good small in
    let pow = pow_mono (order_of size align) 30 small in
    let up =
      align_up_bounds (x + block_header) align (ground (arith, good)) (omega (arith, holds, pow))
        (omega (arith, holds, leads)) in
    omega (arith, up, holds)

-- The end of pai_buddy_alloc: `c` is the buddy after the loop, from `popped`.
module _ {b popped c : Buddy} {k a : ℕ} {t : Tree} (v : IsBuddy b k a t) {x found : ℕ}
    (size align : ℕ) {fs : List Turn} (fit : Fits fs found x k a) (whole : plug free fs ≡ t)
    (cut : Cut popped c k a x (order_of size align) found fs)
    (good : bad_request size align ≡ false) (low : order_of size align ≤ found)
    (words_is : (w : ℕ) → popped.words w ≡ b.words w)
    (bytes_is : popped.used_bytes ≡ b.used_bytes) where
  abbrev given : Buddy
  given = record c {
    used_bytes = add64 c.used_bytes (2 ^ order_of size align);
    allocs = add64 c.allocs 1;
    words =
        write (write (write c.words x magic_alloc) (x + 8) (order_of size align))
          (align_up (x + block_header) align - 8) x;
  }

  given_bounds :
      (found ≤ k)
      × (6 ≤ order_of size align)
      × (2 ^ order_of size align ≤ 2 ^ found)
      × (a ≤ x)
      × (x + 2 ^ found ≤ a + 2 ^ k)
      × (x % 64 ≡ 0)
  given_bounds =
      let high = Fits-length fs found x k a fit in
      let deep = order_of_lem size align good (omega (arith, low, high, v.holds.small)) in
      omega (
        arith,
        high,
        deep,
        pow_mono (order_of size align) found low,
        Fits-range fs found x k a fit (omega (arith, deep, low)) v.holds.start.0,
      )

  given_payload :
      let pointer = align_up (x + block_header) align in
      (x + 32 ≤ pointer) × (pointer + size ≤ x + 2 ^ order_of size align) × (pointer % align ≡ 0)
  given_payload =
      payload_inside x size align good (omega (arith, given_bounds, low, v.holds.small))
        (omega (arith, given_bounds, v.holds.start))

  given_kept : (w : ℕ) → (w < x) ⊎ (x + 2 ^ order_of size align ≤ w) → given.words w ≡ c.words w
  unfolding write
  given_kept w out = ground (
    arith,
    out,
    given_payload,
    given_bounds,
    pow_64 (order_of size align) given_bounds.1,
    two_pow_pos (order_of size align),
  )

  given-Holds : Holds given k a (plug used cut.frames)
  given-Holds = record {
    base_is = cut.holds.base_is;
    size_is = cut.holds.size_is;
    order_is = cut.holds.order_is;
    small = cut.holds.small;
    start = cut.holds.start;
    entries = cut.holds.entries;
    layout =
        take-Layout c k a x (order_of size align) cut.frames given_bounds.1 cut.leads cut.holds
          given.words (unfold write in ground (arith, given_payload)) given_kept;
  }

  given_bytes : given.used_bytes ≡ b.used_bytes + 2 ^ order_of size align
  given_bytes =
      let before = used_sum-plug free fs found x k a fit in
      let after = used_sum-plug used cut.frames (order_of size align) x k a cut.leads in
      let le = used_sum-le (plug used cut.frames) k in
      unfold used_sum in
      omega (
        arith,
        before,
        after,
        le,
        v.counted,
        cut.counted,
        cut.bytes,
        bytes_is,
        pow_mono k 30 v.holds.small,
        ap (λ s. used_sum s k) whole,
      )

  given-IsBuddy : IsBuddy given k a (plug used cut.frames)
  given-IsBuddy =
      let split_sound =
        IsSound-plug free fs found x k a fit (subst (λ s. IsSound s k) (sym whole) v.sound) in
      record {
        holds = given-Holds;
        sound =
            plug-IsSound used cut.frames (order_of size align) x k a cut.leads
              (unfold IsSound in given_bounds.1) (cut.sound split_sound.1) (unfold is_free in refl);
        counted =
            let before = used_sum-plug free fs found x k a fit in
            let after = used_sum-plug used cut.frames (order_of size align) x k a cut.leads in
            unfold used_sum in
            omega (
              arith,
              given_bytes,
              before,
              after,
              v.counted,
              cut.counted,
              ap (λ s. used_sum s k) whole,
            );
      }

  free_at : tag t k a x ≡ free_tag found
  free_at = subst (λ s. tag s k a x ≡ free_tag found) whole (free_leaf_tag fs found x k a fit)

  given_handed :
      (y : ℕ)
      → handed_out (plug used cut.frames) k a y
        ≡ update (handed_out t k a) x (used_tag (order_of size align)) y
  given_handed y = ground (
    arith,
    take_handed_out c k a x (order_of size align) cut.frames given_bounds.1 cut.leads cut.holds y,
    cut.same y,
    hold_free_handed_out fs found x k a fit y,
    ap (λ s. handed_out s k a y) whole,
  )

  others_kept :
      (y i w : ℕ)
      → handed_out t k a y ≡ used_tag i
      → y ≤ w
      → w < y + 2 ^ i
      → given.words w ≡ b.words w
  others_kept y i w used_y low_w high_w =
      let at_y = handed_out-tag t k a y i used_y in
      let out : (w < x) ⊎ (x + 2 ^ found ≤ w) = omega (
        arith,
        low_w,
        high_w,
        used_apart t k a y i x found (free_tag found) at_y free_at (omega arith) (omega arith)
            (λ e. omega (arith, at_y, free_at, ap (tag t k a) e)),
      ) in
      given_kept w (omega (arith, out, given_bounds)) ∙ cut.kept w out ∙ words_is w

  pub given-Allocated : Allocated b given k a t size align (align_up (x + block_header) align)
  given-Allocated = record {
    tree = plug used cut.frames;
    block = x;
    order = order_of size align;
    valid = given-IsBuddy;
    fresh = unfold handed_out in ground (arith, free_at);
    handed = given_handed;
    inside = (given_payload.0, given_payload.1);
    multiple = given_payload.2;
    back = unfold write in ground arith;
    bytes = given_bytes;
    kept = others_kept;
  }
