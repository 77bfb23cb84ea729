-- ===== src/Memory/Buddy/Split.antt =====
-- The loop of pai_buddy_alloc that cuts a block down to the order asked for.
use prospero_ai.Prelude.{
  ℕ, zero, suc, ◌+◌, ◌%◌, ◌^◌, ◌≤◌, ◌<◌, ◌≡◌, ◌⊎◌, refl, ap, ◌∙◌, subst, List, ◌∷◌, true, arith,
}
use prospero_ai.Prelude.Bits.{two_pow_pos}
use native.Mathlib.Nat.{pow-suc}
use prospero_ai.Prelude.Occurs.{update}
use prospero_ai.Memory.Align.{add64}
use prospero_ai.Memory.Buddy.{Buddy, block_set_header, free_list_push, split_loop, magic_free}
use prospero_ai.Memory.Buddy.Tree.{
  Tree, free, held, split, tag, free_tag, Turn, plug, Fits, IsSound, IsSoundAround, used_sum,
  used_around,
}
use prospero_ai.Memory.Buddy.Tree.Tags.{tag-plug, tag-plug-update}
use prospero_ai.Memory.Buddy.Tree.Sound.{Fits-range, Fits-length, pow_64}
use prospero_ai.Memory.Buddy.Layout.{Layout-agree}
use prospero_ai.Memory.Buddy.Layout.Moves.{Layout-push, Layout-ext}
use prospero_ai.Memory.Buddy.Invariant.{Holds, handed_out}

-- free_list_push of a block that nothing else starts at.
pub free_list_push-Holds :
    (b : Buddy) (k a : ℕ) (t t' : Tree) (order z : ℕ)
    → (h : Holds b k a t) → order ≤ 30
    → tag t k a z ≡ 0
    → (z % 64 ≡ 0) × (0 < z)
    → ((y : ℕ) → tag t' k a y ≡ update (tag t k a) z (free_tag order) y)
    → Holds (free_list_push b order z) k a t'
unfolding free_list_push
free_list_push-Holds b k a t t' order z h small fresh place retag = record {
  base_is = h.base_is;
  size_is = h.size_is;
  order_is = h.order_is;
  small = h.small;
  start = h.start;
  entries = update h.entries order (z ∷ h.entries order);
  layout = Layout-ext retag (
      Layout-push h.layout (free_list_push b order z).words z order small fresh place (ground arith)
        (λ y some_y. ground (
          arith,
          h.layout.aligned y some_y,
          place,
          fresh,
          some_y,
          ap (tag t k a) {x = z} {y = y},
        )));
}

-- A header that is written where nothing starts is not seen.
pub block_set_header-Holds :
    (b : Buddy) (k a : ℕ) (t : Tree) (z magic order : ℕ)
    → (h : Holds b k a t) → tag t k a z ≡ 0
    → z % 64 ≡ 0
    → Holds (block_set_header b z magic order) k a t
unfolding block_set_header
block_set_header-Holds b k a t z magic order h fresh place = record {
  base_is = h.base_is;
  size_is = h.size_is;
  order_is = h.order_is;
  small = h.small;
  start = h.start;
  entries = h.entries;
  layout = Layout-agree h.layout (block_set_header b z magic order).words (λ y some_y.
      ground
        (arith, h.layout.aligned y some_y, place, fresh, some_y, ap (tag t k a) {x = z} {y = y}));
}

-- The block of order `order` at `x` that is cut from the held one, the other halves being freed.
pub record Cut (b result : Buddy) (k a x order found : ℕ) (fs : List Turn) : Type 0 where
  pub frames : List Turn
  pub leads : Fits frames order x k a
  pub holds : Holds result k a (plug held frames)
  pub sound : IsSoundAround fs found → IsSoundAround frames order
  pub counted : used_around frames order ≡ used_around fs found
  pub same : (y : ℕ) → handed_out (plug held frames) k a y ≡ handed_out (plug held fs) k a y
  pub bytes : result.used_bytes ≡ b.used_bytes
  pub kept : (w : ℕ) → (w < x) ⊎ (x + 2 ^ found ≤ w) → result.words w ≡ b.words w

-- One round: the second half of a held block becomes a free block.
module _ (b : Buddy) (k a x found : ℕ) (fs : List Turn) (deep : 6 ≤ found)
    (fit : Fits fs (suc found) x k a) (h : Holds b k a (plug held fs)) where
  half_free : tag (plug held fs) k a (x + 2 ^ found) ≡ 0
  half_free =
      tag-plug held fs (suc found) x k a (x + 2 ^ found) fit (omega arith)
        (omega (arith, pow-suc 2 found, two_pow_pos found))
      ∙ (unfold tag in refl)

  split_tags :
      (y : ℕ)
      → tag (plug (split held free) fs) k a y
        ≡ update (tag (plug held fs) k a) (x + 2 ^ found) (free_tag found) y
  split_tags y =
      tag-plug-update held (split held free) fs (suc found) x k a (x + 2 ^ found) fit (omega arith)
        (omega (arith, pow-suc 2 found, two_pow_pos found))
        (λ y ne. unfold tag in ground (arith, ne)) y
      ∙ (unfold tag in ground arith)

  split_round-Holds :
      Holds
        (free_list_push (block_set_header b (x + 2 ^ found) magic_free found) found (x + 2 ^ found))
        k
        a
        (plug (split held free) fs)
  split_round-Holds =
      let range = Fits-range fs (suc found) x k a fit (omega arith) h.start.0 in
      let place : ((x + 2 ^ found) % 64 ≡ 0) × (0 < x + 2 ^ found) =
        omega (arith, range, h.start, pow_64 found deep) in
      free_list_push-Holds _ k a (plug held fs) (plug (split held free) fs) found (x + 2 ^ found)
        (block_set_header-Holds b k a (plug held fs) (x + 2 ^ found) magic_free found h half_free
          place.0)
        (omega (arith, Fits-length fs (suc found) x k a fit, h.small)) half_free place split_tags

  split_handed_out :
      (y : ℕ) → handed_out (plug (split held free) fs) k a y ≡ handed_out (plug held fs) k a y
  unfolding handed_out
  split_handed_out y =
      ground
        (arith, split_tags y, half_free, ap (tag (plug held fs) k a) {x = x + 2 ^ found} {y = y})

  split_round_kept :
      (w : ℕ)
      → (w < x) ⊎ (x + 2 ^ suc found ≤ w)
      → (free_list_push
            (block_set_header b (x + 2 ^ found) magic_free found)
            found
            (x + 2 ^ found)).words
          w
        ≡ b.words w
  unfolding free_list_push
  split_round_kept w out =
      ground (arith, out, pow-suc 2 found, pow_64 found deep, two_pow_pos found)

pub split_loop-Cut :
    (rounds : ℕ) (b : Buddy) (k a x order : ℕ) (fs : List Turn)
    → 6 ≤ order
    → Fits fs (order + rounds) x k a
    → Holds b k a (plug held fs)
    → Cut b (split_loop rounds b order x) k a x order (order + rounds) fs
unfolding split_loop
split_loop-Cut zero b k a x order fs deep fit h = record {
  frames = fs;
  leads = subst (λ j. Fits fs j x k a) (omega arith) fit;
  holds = h;
  sound = λ s. subst (IsSoundAround fs) (omega arith) s;
  counted = ap (used_around fs) (omega arith);
  same = λ y. refl;
  bytes = refl;
  kept = λ w out. refl;
}
split_loop-Cut (suc rounds) b k a x order fs deep fit h =
    let found = order + rounds in
    let half = x + 2 ^ found in
    let fit' : Fits fs (suc found) x k a = subst (λ j. Fits fs j x k a) (omega arith) fit in
    let cut : Turn = record { left = true; other = free; address = x } in
    let pushed = free_list_push (block_set_header b half magic_free found) found half in
    let step = split_round-Holds b k a x found fs (omega (arith, deep)) fit' h in
    let apart : 2 ^ (order + suc rounds) ≡ 2 ^ suc found =
      ap (λ (n : ℕ). 2 ^ n) {x = order + suc rounds} {y = suc found} (omega arith) in
    let bigger = pow-suc 2 found in
    let rest =
      split_loop-Cut rounds (record pushed { splits = add64 pushed.splits 1 }) k a x order
        (cut ∷ fs) deep (unfold Fits in (refl, fit'))
        (unfold plug in
          record {
            base_is = step.base_is;
            size_is = step.size_is;
            order_is = step.order_is;
            small = step.small;
            start = step.start;
            entries = step.entries;
            layout = step.layout;
          }) in
    record {
      frames = rest.frames;
      leads = rest.leads;
      holds = rest.holds;
      sound = λ s. rest.sound (
          unfold IsSoundAround IsSound in
          (omega (arith, deep), subst (IsSoundAround fs) (omega arith) s));
      counted =
          rest.counted
          ∙ (unfold used_around used_sum in
              omega (
                arith,
                ap (used_around fs) {x = suc found} {y = order + suc rounds} (omega arith),
              ));
      same = λ y.
          rest.same y
          ∙ (unfold plug in split_handed_out b k a x found fs (omega (arith, deep)) fit' h y);
      bytes = rest.bytes ∙ (unfold free_list_push in refl);
      kept = λ w out.
          rest.kept w (omega (arith, out, apart, bigger))
          ∙ split_round_kept b k a x found fs (omega (arith, deep)) fit' h w
              (omega (arith, out, apart));
    }
