-- ===== src/Memory/Buddy/Merge.antt =====
-- The loop of pai_buddy_free that joins a block with its other half while that one is free.
pub mod Round
use prospero_ai.Prelude.{
  ℕ, zero, suc, ◌+◌, ◌-◌, ◌^◌, ◌≤◌, ◌<◌, ◌≡◌, refl, sym, ap, ◌∙◌, subst, List, [], ◌∷◌, Bool-cases,
  inl, inr, true, false, leb, ltb, if◌then◌else◌, bit_xor, arith,
}
use prospero_ai.Prelude.Bits.{two_pow_pos}
use prospero_ai.Prelude.Occurs.{update, without}
use native.Mathlib.Nat.{pow-suc}
use native.Mathlib.Numerals.{add-one}
use prospero_ai.Memory.Align.{add64}
use prospero_ai.Memory.Buddy.{Buddy, block_is_free, free_list_remove, merge_loop}
use prospero_ai.Memory.Buddy.Tree.{
  held, tag, free_tag, used_tag, Turn, hole, opposite, join, plug, Fits, IsSound, IsSoundAround,
  used_sum, used_around, first_is_free, is_free,
}
use prospero_ai.Memory.Buddy.Tree.Tags.{tag-plug, tag-plug-update, tag_range}
use prospero_ai.Memory.Buddy.Tree.Sound.{Fits-range, Fits-length, first_block, is_free-eq, pow_64}
use prospero_ai.Memory.Buddy.Layout.Moves.{Layout-ext}
use prospero_ai.Memory.Buddy.Layout.Remove.{Removed, free_list_remove-Removed}
use prospero_ai.Memory.Buddy.Sibling.{sibling_lem}
use prospero_ai.Memory.Buddy.Invariant.{Holds, handed_out}
use prospero_ai.Memory.Buddy.Blocks.{list_short, used_apart, handed_out-tag}
use prospero_ai.Memory.Buddy.Merge.Round.{
  merge_loop_round, other_free_tag, merge_round, merged_handed_out, merge_kept,
}

-- The held block after the loop: its other half is not free, and the rest of the region is as before.
pub record Merged (b : Buddy) (result : Buddy × ℕ × ℕ) (k a j : ℕ) (fs : List Turn) : Type 0 where
  pub frames : List Turn
  pub leads : Fits frames result.2 result.1 k a
  pub holds : Holds result.0 k a (plug held frames)
  pub sound : IsSoundAround frames result.2
  pub deep : 6 ≤ result.2
  pub alone : first_is_free frames ≡ false
  pub counted : used_around frames result.2 ≡ used_around fs j
  pub same : (y : ℕ) → handed_out (plug held frames) k a y ≡ handed_out (plug held fs) k a y
  pub bytes : result.0.used_bytes ≡ b.used_bytes
  pub kept :
      (y i w : ℕ)
      → handed_out (plug held fs) k a y ≡ used_tag i
      → y ≤ w
      → w < y + 2 ^ i
      → result.0.words w ≡ b.words w

stay :
    (b : Buddy) (k a j x : ℕ) (fs : List Turn)
    → 6 ≤ j
    → Fits fs j x k a
    → IsSoundAround fs j
    → Holds b k a (plug held fs)
    → first_is_free fs ≡ false
    → Merged b (b, x, j) k a j fs
stay b k a j x fs deep fit sound h alone = record {
  frames = fs;
  leads = fit;
  holds = h;
  sound = sound;
  deep = deep;
  alone = alone;
  counted = refl;
  same = λ y. refl;
  bytes = refl;
  kept = λ y i w u low high. refl;
}

pub merge_loop-Merged :
    (rounds : ℕ) (b : Buddy) (k a j x : ℕ) (fs : List Turn)
    → rounds + j ≡ k
    → 6 ≤ j
    → Fits fs j x k a
    → IsSoundAround fs j
    → Holds b k a (plug held fs)
    → Merged b (merge_loop rounds b x j) k a j fs
merge_loop-Merged zero b k a j x [] all deep fit sound h =
    unfold merge_loop in stay b k a j x [] deep fit sound h (unfold first_is_free in refl)
merge_loop-Merged zero b k a j x (f ∷ fs) all deep fit sound h =
    absurd (omega (arith, all, Fits-length (f ∷ fs) j x k a fit))
merge_loop-Merged (suc rounds) b k a j x [] all deep fit sound h =
    absurd (omega (arith, all, Fits-length [] j x k a fit))
merge_loop-Merged (suc rounds) b k a j x (f ∷ fs) all deep fit sound h =
    let s : IsSound f.other j × IsSoundAround fs (suc j) = unfold IsSoundAround in sound in
    subst (λ r. Merged b r k a j (f ∷ fs))
      (sym (merge_loop_round b k a j x f fs deep fit h rounds s.0))
      (elim (Bool-cases (is_free f.other)) [
        | inl e ↦
            let r =
              free_list_remove-Removed b h.entries (tag (plug held (f ∷ fs)) k a) h.layout j
                (opposite f j) (omega (arith, all, h.small))
                (list_short h j (omega (arith, all, h.small)) (tag_range (plug held (f ∷ fs)) k a))
                (other_free_tag b k a j x f fs deep fit h e) in
            let ih =
              merge_loop-Merged rounds _ k a (suc j) f.address fs (omega (arith, all))
                (omega (arith, deep)) (unfold Fits in fit.1) s.1
                (merge_round b k a j x f fs deep fit h e r) in
            let same = merged_handed_out b k a j x f fs deep fit h e in
            rw e record {
              frames = ih.frames;
              leads = ih.leads;
              holds = ih.holds;
              sound = ih.sound;
              deep = ih.deep;
              alone = ih.alone;
              counted =
                  ih.counted
                  ∙ (unfold used_around used_sum in
                      omega (arith, ap (λ s. used_sum s j) (is_free-eq f.other e)));
              same = λ y. ih.same y ∙ same y;
              bytes = ih.bytes ∙ ap (λ (c : Buddy). c.used_bytes) r.result_is;
              kept = λ y i w u low high.
                  ih.kept y i w (same y ∙ u) low high
                  ∙ merge_kept b k a j x f fs deep fit h r y i w u low high;
            }
        | inr e ↦ rw e (stay b k a j x (f ∷ fs) deep fit sound h (unfold first_is_free in e))
      ])
