-- ===== src/Memory/Buddy/Start.antt =====
-- pai_buddy_init: the whole region is one free block.
use prospero_ai.Prelude.{
  ℕ, zero, suc, ◌+◌, ◌*◌, ◌/◌, ◌%◌, ◌^◌, ◌≤◌, ◌<◌, ◌≡◌, ◌≢◌, refl, [], get_or, replicate,
  Bool-cases, inl, inr, true, false, not, ◌||◌, ◌==◌, ==_ne, ltb, arith,
}
use prospero_ai.Prelude.Bits.{two_pow_pos}
use prospero_ai.Prelude.Occurs.{occurs}
use prospero_ai.Status.{Status, ok, err}
use native.Mathlib.Nat.{div-add-mod, pow-suc}
use native.Mathlib.Decide.{dec_lt}
use prospero_ai.Memory.Align.{is_pow2}
use prospero_ai.Memory.Align.Pow2.{is_pow2_iff}
use prospero_ai.Memory.Align.Log2.{pow_mono, floor_log2_pow}
use prospero_ai.Memory.Buddy.{Buddy, min_size, free_list_push, buddy_init}
use prospero_ai.Memory.Buddy.Tree.{free, held, tag, IsSound, used_sum}
use prospero_ai.Memory.Buddy.Tree.Sound.{pow_64}
use prospero_ai.Memory.Buddy.Layout.{Chain}
use prospero_ai.Memory.Buddy.Invariant.{Holds, IsBuddy}
use prospero_ai.Memory.Buddy.Split.{free_list_push-Holds}

pub exponent_le : (k n : ℕ) → 2 ^ k ≤ 2 ^ n → k ≤ n
exponent_le k n h = elim (dec_lt n k) [
  | yes gt ↦
      absurd (omega (arith, h, pow_mono (suc n) k (omega (arith, gt)), two_pow_pos n, pow-suc 2 n))
  | no le ↦ omega (arith, le)
]

abbrev empty_buddy : (words : ℕ → ℕ) → (a k : ℕ) → Buddy
empty_buddy words a k = record {
  base = a;
  size = 2 ^ k;
  max_order = k;
  free_lists = replicate 31 0;
  owned = 0;
  used_bytes = 0;
  allocs = 0;
  frees = 0;
  splits = 0;
  merges = 0;
  words = words;
}

nothing_listed : (i : ℕ) → get_or {A = ℕ} (replicate 31 0) i 0 ≡ 0
nothing_listed i = replicate_zero 31 i
  where
    replicate_zero : (n i : ℕ) → get_or {A = ℕ} (replicate n 0) i 0 ≡ 0
    replicate_zero zero i = refl
    replicate_zero (suc n) zero = refl
    replicate_zero (suc n) (suc i) = replicate_zero n i

empty-Holds :
    (words : ℕ → ℕ) (a k : ℕ)
    → k ≤ 30
    → (a % 64 ≡ 0) × (0 < a) × (a + 2 ^ k ≤ 2 ^ 64)
    → Holds (empty_buddy words a k) k a held
empty-Holds words a k small start = record {
  base_is = refl;
  size_is = refl;
  order_is = refl;
  small = small;
  start = start;
  entries = λ i. [];
  layout = record {
    aligned = λ y some_y. absurd (some_y (unfold tag in refl));
    free_head = λ y i e. absurd (unfold tag in omega (arith, e));
    used_head = λ y i e. absurd (unfold tag in omega (arith, e));
    chains = λ i low. unfold Chain in nothing_listed i;
    listed = λ y i low. unfold tag occurs in ground arith;
    heads = refl;
  };
}

pub empty_pushed-IsBuddy :
    (words : ℕ → ℕ) (a k : ℕ)
    → 6 ≤ k
    → k ≤ 30
    → (a % 64 ≡ 0) × (0 < a) × (a + 2 ^ k ≤ 2 ^ 64)
    → IsBuddy (free_list_push (empty_buddy words a k) k a) k a free
empty_pushed-IsBuddy words a k deep small start = record {
  holds =
      free_list_push-Holds (empty_buddy words a k) k a held free k a
        (empty-Holds words a k small start) small (unfold tag in refl) (omega (arith, start))
        (λ y. unfold tag in ground arith);
  sound = unfold IsSound in deep;
  counted = unfold free_list_push used_sum in refl;
}

scale_64 : (n m q : ℕ) → n ≡ 64 * m → n * q ≡ 64 * (m * q)
scale_64 n m q e = rw e (grind arith)

multiple_64 : (v n : ℕ) → n % 64 ≡ 0 → v % n ≡ 0 → 0 < n → v % 64 ≡ 0
multiple_64 v n low aligned pos =
    omega (arith, div-add-mod v n, aligned, scale_64 n (n / 64) (v / n) (omega (arith, low)))

-- A region of a power of two from 128 to 2^30 bytes that starts at a multiple of its size and does
-- not pass the end of the address space is taken, and is one free block.
pub buddy_init-IsBuddy :
    (words : ℕ → ℕ) (memory k : ℕ)
    → 7 ≤ k
    → k ≤ 30
    → memory % 2 ^ k ≡ 0
    → 0 < memory
    → memory + 2 ^ k ≤ 2 ^ 64
    → (b : Buddy) × (buddy_init words memory (2 ^ k) ≡ ok b) × IsBuddy b k memory free
unfolding buddy_init
buddy_init-IsBuddy words memory k deep small aligned some leads =
    let small_pow = pow_mono k 30 small in
    let big_pow : 128 ≤ 2 ^ k = pow_mono 7 k deep in
    let pow_test : is_pow2 (2 ^ k) ≡ true =
      (is_pow2_iff (2 ^ k) (omega (arith, small_pow))).1 k refl in
    let start : memory % 64 ≡ 0 =
      multiple_64 memory (2 ^ k) (pow_64 k (omega (arith, deep))) aligned
        (omega (arith, big_pow)) in
    let size_test : ltb (2 ^ k) 128 ≡ false = ground (arith, big_pow) in
    (
      free_list_push (empty_buddy words memory k) k memory,
      rw
          (
            ==_ne memory 0 (omega (arith, some)),
            pow_test,
            size_test,
            aligned,
            floor_log2_pow k (omega (arith, small)),
          )
          refl,
      empty_pushed-IsBuddy words memory k (omega (arith, deep)) small
          (omega (arith, start, some, leads)),
    )

-- Whatever is not such a region is refused, the bound on the size apart, which is not tested.
pub buddy_init_ok :
    (words : ℕ → ℕ) (memory size : ℕ) (b : Buddy)
    → size < 2 ^ 64
    → buddy_init words memory size ≡ ok b
    → (k : ℕ) × (size ≡ 2 ^ k) × (7 ≤ k) × (memory % size ≡ 0) × (0 < memory)
unfolding buddy_init
buddy_init_ok words memory size b word e =
    elim (Bool-cases
      (memory == 0 || (not (is_pow2 size) || (ltb size min_size || not (memory % size == 0))))) [
        | inl bad ↦ absurd (err-ne-ok (rw bad at e))
        | inr good ↦
            let power = (is_pow2_iff size word).0 (ground (arith, good)) in
            (
              power.0,
              power.1,
              exponent_le 7 power.0 (ground (arith, good, power.1)),
              ground (arith, good),
              ground (arith, good),
            )
      ]
  where
    err-ne-ok : {d : Buddy} {s : Status} → err s ≢ ok d
    err-ne-ok x = cc
