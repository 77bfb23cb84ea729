-- ===== src/Memory/Buddy/Owned.antt =====
-- pai_buddy_init_owned: the region is the aligned part of a block from malloc.
use prospero_ai.Prelude.{
  ℕ, ◌+◌, ◌-◌, ◌*◌, ◌/◌, ◌%◌, ◌^◌, ◌≤◌, ◌<◌, ◌≡◌, ◌≢◌, refl, sym, ap, ◌∙◌, subst, true, false, ◌||◌,
  ==_ne, ltb, arith,
}
use prospero_ai.Prelude.Bits.{two_pow_pos}
use prospero_ai.Status.{ok}
use native.Mathlib.Nat.{
  div-add-mod, mod-lt, mod-eq_of_lt, mod_self, sub-zero, zero-mod, add-mul-mod_self_left,
}
use native.Mathlib.Decide.{ℕ_discrete}
use prospero_ai.Memory.Align.{is_pow2}
use prospero_ai.Memory.Align.Pow2.{is_pow2_iff}
use prospero_ai.Memory.Align.Log2.{pow_mono}
use prospero_ai.Memory.Buddy.{
  Buddy, min_size, largest_order, buddy_init, aligned_base, with_owner, buddy_init_owned,
}
use prospero_ai.Memory.Buddy.Tree.{Tree, free}
use prospero_ai.Memory.Buddy.Invariant.{IsBuddy}
use prospero_ai.Memory.Buddy.Start.{buddy_init-IsBuddy}

aligned_base_lem :
    (raw size : ℕ)
    → 0 < size
    → raw + 2 * size ≤ 2 ^ 64
    → (raw ≤ aligned_base raw size)
      × (aligned_base raw size < raw + size)
      × (aligned_base raw size % size ≡ 0)
unfolding aligned_base
aligned_base_lem raw size pos leads = elim (ℕ_discrete (raw % size) 0) [
  | yes e ↦
      let pad : (size - raw % size) % size ≡ 0 = rw e (rw sub-zero (mod_self size)) in
      let same : (raw + (size - raw % size) % size) % 2 ^ 64 ≡ raw =
        rw pad (omega (arith, leads, pos)) in
      rw same (omega (arith, e, pos))
  | no ne ↦
      let less = mod-lt raw pos in
      let pad : (size - raw % size) % size ≡ size - raw % size =
        mod-eq_of_lt (omega (arith, ne, less)) in
      let sum : (raw + (size - raw % size) % size) % 2 ^ 64 ≡ 0 + size * (raw / size + 1) =
        rw pad (omega (arith, div-add-mod raw size, less, leads, mul-succ_lem size (raw / size))) in
      (
        omega (arith, sum, div-add-mod raw size, less, mul-succ_lem size (raw / size)),
        omega (arith, sum, div-add-mod raw size, less, ne, mul-succ_lem size (raw / size)),
        rw sum (add-mul-mod_self_left 0 size (raw / size + 1) ∙ zero-mod size),
      )
]
  where
    mul-succ_lem : (n q : ℕ) → n * (q + 1) ≡ n * q + n
    mul-succ_lem n q = grind arith

pub owned-IsBuddy :
    (b : Buddy) (k a raw : ℕ) (t : Tree)
    → IsBuddy b k a t
    → IsBuddy (record b { owned = raw }) k a t
owned-IsBuddy b k a raw t v = record {
  holds = record {
    base_is = v.holds.base_is;
    size_is = v.holds.size_is;
    order_is = v.holds.order_is;
    small = v.holds.small;
    start = v.holds.start;
    entries = v.holds.entries;
    layout = v.holds.layout;
  };
  sound = v.sound;
  counted = v.counted;
}

-- pai_buddy_init on the aligned part of a block of twice the size.
owned_start :
    (words : ℕ → ℕ) (raw k : ℕ)
    → 7 ≤ k
    → k ≤ 30
    → raw ≢ 0
    → raw + 2 * 2 ^ k ≤ 2 ^ 64
    → (b : Buddy) × (with_owner raw (buddy_init words (aligned_base raw (2 ^ k)) (2 ^ k)) ≡ ok b)
      × IsBuddy b k b.base free
      × (raw ≤ b.base)
      × (b.base + 2 ^ k ≤ raw + 2 ^ k * 2)
      × (b.owned ≡ raw)
unfolding with_owner
owned_start words raw k deep small given leads =
    let base = aligned_base_lem raw (2 ^ k) (two_pow_pos k) leads in
    let start =
      buddy_init-IsBuddy words (aligned_base raw (2 ^ k)) k deep small base.2
        (omega (arith, base, given)) (omega (arith, base, leads)) in
    (
      record start.0 { owned = raw },
      ap (with_owner raw) start.1,
      owned-IsBuddy start.0 k start.0.base raw free
          (subst (λ n. IsBuddy start.0 k n free) (sym start.2.holds.base_is) start.2),
      omega (arith, base, start.2.holds.base_is),
      omega (arith, base, start.2.holds.base_is),
      refl,
    )

owned_guards :
    (malloc words : ℕ → ℕ) (k : ℕ)
    → 7 ≤ k
    → k ≤ 30
    → malloc (2 ^ k * 2) ≢ 0
    → buddy_init_owned malloc words (2 ^ k)
      ≡ with_owner
          (malloc (2 ^ k * 2))
          (buddy_init words (aligned_base (malloc (2 ^ k * 2)) (2 ^ k)) (2 ^ k))
unfolding buddy_init_owned
owned_guards malloc words k deep small given =
    let small_pow = pow_mono k 30 small in
    let big_pow : 128 ≤ 2 ^ k = pow_mono 7 k deep in
    let wrap : 2 ^ k * 2 % 2 ^ 64 ≡ 2 ^ k * 2 = omega (arith, small_pow) in
    let pow_test : is_pow2 (2 ^ k) ≡ true =
      (is_pow2_iff (2 ^ k) (omega (arith, small_pow))).1 k refl in
    let sizes : (ltb (2 ^ k) min_size || ltb (2 ^ largest_order) (2 ^ k)) ≡ false =
      ground (arith, big_pow, small_pow) in
    let room : ltb ((2 ^ 64 - 1) / 2) (2 ^ k) ≡ false = ground (arith, small_pow) in
    rw (wrap, pow_test, sizes, room, ==_ne (malloc (2 ^ k * 2)) 0 given) refl

-- pai_buddy_init_owned takes a power of two from 128 to 2^30 bytes when malloc gives a block of twice
-- that many; the region lies within the block, and the block is remembered.
pub buddy_init_owned-IsBuddy :
    (malloc words : ℕ → ℕ) (k : ℕ)
    → 7 ≤ k
    → k ≤ 30
    → malloc (2 ^ k * 2) ≢ 0
    → malloc (2 ^ k * 2) + 2 * 2 ^ k ≤ 2 ^ 64
    → (b : Buddy) × (buddy_init_owned malloc words (2 ^ k) ≡ ok b)
      × IsBuddy b k b.base free
      × (malloc (2 ^ k * 2) ≤ b.base)
      × (b.base + 2 ^ k ≤ malloc (2 ^ k * 2) + 2 ^ k * 2)
      × (b.owned ≡ malloc (2 ^ k * 2))
buddy_init_owned-IsBuddy malloc words k deep small given leads =
    let o = owned_start words (malloc (2 ^ k * 2)) k deep small given leads in
    (o.0, owned_guards malloc words k deep small given ∙ o.1, o.2, o.3, o.4, o.5)
