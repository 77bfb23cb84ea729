-- ===== src/Memory/Buddy/Run/Promises.antt =====
-- What the callers of the buddy allocator of memory/allocator.c may rely on, after any run.
use prospero_ai.Prelude.{
  ℕ, zero, suc, ◌+◌, ◌^◌, ◌≤◌, ◌≡◌, ◌≢◌, ◌⊎◌, refl, sym, ap, subst, ◌∙◌, inl, inr, true, false,
  List, [], ◌∷◌, arith, All,
}
use prospero_ai.Prelude.Bits.{two_pow_pos}
use prospero_ai.Memory.Align.Log2.{pow_mono}
use prospero_ai.Memory.Buddy.{Buddy, buddy_alloc, buddy_used, buddy_avail, bad_request, order_of}
use prospero_ai.Memory.Buddy.Tree.{
  Tree, used_tag, tag, used_sum, split, held, used, is_free, IsSound,
}
use prospero_ai.Memory.Buddy.Tree.Sound.{Fits-range, is_free-eq, IsSound-plug, used_sum-le}
use prospero_ai.Memory.Buddy.Invariant.{IsBuddy}
use prospero_ai.Memory.Buddy.Blocks.{used_block, used_apart, handed_out-tag}
use prospero_ai.Memory.Buddy.Alloc.Result.{buddy_alloc_lem}
use prospero_ai.Memory.Buddy.Run.{Live, Reach, IsLive, Distinct, block_bytes}
use prospero_ai.Memory.Buddy.Run.Choice.{All-mono, All-both}
use prospero_ai.Memory.Buddy.Run.Keeps.{Reach-IsRun}

-- A payload lies in the region, behind a header.
abbrev pub InRegion : (k a : ℕ) → Live → Type 0
InRegion k a l = (a + 32 ≤ l.pointer) × (l.pointer + l.size ≤ a + 2 ^ k)

abbrev pub Apart : Live → Live → Type 0
Apart l m = (l.pointer + l.size ≤ m.pointer) ⊎ (m.pointer + m.size ≤ l.pointer)

-- No two payloads of the list overlap.
abbrev pub AllApart : List Live → Type 0
AllApart [] = Unit
AllApart (l ∷ ls) = All (Apart l) ls × AllApart ls

live-InRegion :
    (b : Buddy) (k a : ℕ) (t : Tree) (l : Live)
    → IsBuddy b k a t
    → IsLive b k a t l
    → InRegion k a l
live-InRegion b k a t l v live =
    let bl = used_block t k a l.block l.order (handed_out-tag t k a l.block l.order live.owned) in
    let sound =
      IsSound-plug used bl.frames l.order l.block k a bl.leads
        (subst (λ s. IsSound s k) (sym bl.whole) v.sound) in
    omega (
      arith,
      live.inside,
      Fits-range bl.frames l.order l.block k a bl.leads (unfold IsSound in sound.0) v.holds.start.0,
    )

lives-Apart :
    (b : Buddy) (k a : ℕ) (t : Tree) (l m : Live)
    → IsLive b k a t l
    → IsLive b k a t m
    → l.block ≢ m.block
    → Apart l m
lives-Apart b k a t l m live other ne = omega (
  arith,
  live.inside,
  other.inside,
  used_apart t k a l.block l.order m.block m.order (used_tag m.order)
      (handed_out-tag t k a l.block l.order live.owned)
      (handed_out-tag t k a m.block m.order other.owned) (omega arith) (omega arith) ne,
)

all_apart :
    (b : Buddy) (k a : ℕ) (t : Tree) (ls : List Live)
    → All (IsLive b k a t) ls
    → Distinct ls
    → AllApart ls
all_apart b k a t [] lives distinct = tt
all_apart b k a t (l ∷ ls) lives distinct = (
  All-both (IsLive b k a t) (λ m. l.block ≢ m.block) (Apart l) ls
      (λ m live ne. lives-Apart b k a t l m lives.0 live ne) lives.1 distinct.0,
  all_apart b k a t ls lives.1 distinct.1,
)

-- After any run, every payload that was not given back lies in the region behind a header of 32
-- bytes, and no two of them overlap.
pub payloads_lem :
    {k a : ℕ} {b : Buddy} {ls : List Live} → Reach k a b ls → All (InRegion k a) ls × AllApart ls
payloads_lem {k} {a} {b} {ls} reach =
    let r = Reach-IsRun reach in
    (
      All-mono (IsLive b k a r.tree) (InRegion k a) ls
          (λ l live. live-InRegion b k a r.tree l r.valid live) r.lives,
      all_apart b k a r.tree ls r.lives r.distinct,
    )

-- After any run, the bytes in use are the sizes of the blocks of the payloads that were not given
-- back, and the available bytes are the rest of the region.
pub used_lem :
    {k a : ℕ} {b : Buddy} {ls : List Live}
    → Reach k a b ls
    → (buddy_used b ≡ block_bytes ls) × (buddy_avail b + block_bytes ls ≡ 2 ^ k)
unfolding buddy_used buddy_avail
used_lem {k} reach =
    let r = Reach-IsRun reach in
    omega (
      arith,
      r.bytes,
      r.valid.counted,
      r.valid.holds.size_is,
      used_sum-le r.tree k,
      pow_mono k 30 r.valid.holds.small,
    )

-- A sound region with nothing handed out is one free block.
no_used_free : (t : Tree) (k : ℕ) → IsSound t k → used_sum t k ≡ 0 → is_free t ≡ true
unfolding IsSound used_sum is_free
no_used_free Tree.free k sound none_used = refl
no_used_free used k sound none_used = absurd (omega (arith, none_used, two_pow_pos k))
no_used_free held k sound none_used = absurd sound
no_used_free (split l r) zero sound none_used = absurd sound
no_used_free (split l r) (suc k) sound none_used = absurd (
    ground (
      arith,
      sound.2,
      no_used_free l k sound.0 (omega arith),
      no_used_free r k sound.1 (omega arith),
    ))

-- When everything was given back, after any run, no byte is in use and the region is whole again:
-- every request that is not bad and whose order is at most that of the region gets a payload.
pub all_freed :
    {k a : ℕ} {b : Buddy} (size align : ℕ)
    → Reach k a b []
    → bad_request size align ≡ false
    → order_of size align ≤ k
    → (buddy_used b ≡ 0) × ((buddy_alloc b size align).1 ≢ 0)
all_freed {k} {a} {b} size align reach good leads =
    let r = Reach-IsRun reach in
    let whole : r.tree ≡ Tree.free =
      is_free-eq r.tree (no_used_free r.tree k r.valid.sound (sym r.valid.counted ∙ r.bytes)) in
    (
      unfold buddy_used in r.bytes,
      λ null. elim (buddy_alloc_lem b k a r.tree size align r.valid) [
        | inl refused ↦ elim refused.1 [
          | inl bad ↦ cc
          | inr room ↦ room a k leads (ap (λ s. tag s k a a) whole ∙ (unfold tag in ground arith))
        ]
        | inr m ↦ absurd (omega (arith, m.inside, null))
      ],
    )
