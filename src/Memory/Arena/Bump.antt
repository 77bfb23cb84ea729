-- ===== src/Memory/Arena/Bump.antt =====
-- What the arena hands out: aligned blocks within its memory, one behind the other.
use prospero_ai.Prelude.{
  ℕ, ◌+◌, ◌-◌, ◌%◌, ◌^◌, ◌≤◌, ◌<◌, ◌≡◌, ◌⊎◌, refl, sym, subst, Bool, true, false, Bool-cases, inl,
  inr, bit_and, ◌||◌, Option, none, some, ltb, arith,
}
use prospero_ai.Memory.Align.{add64, sub64, is_pow2, align_up}
use prospero_ai.Memory.Align.Round.{align_up_bounds, least_multiple}
use prospero_ai.Memory.Arena.{Arena, bad_align, arena_alloc}

-- The memory of the arena ends 2^32 bytes below the end of the address space at least.
pub record IsArena (a : Arena) : Type 0 where
  pub memory : a.base + a.size + 2 ^ 32 ≤ 2 ^ 64
  pub within : a.used ≤ a.size

-- A block of the size was handed out at the address.
pub record Handed (a a' : Arena) (size align address : ℕ) : Type 0 where
  pub same : (a'.base ≡ a.base) × (a'.size ≡ a.size)
  pub behind : a.base + a.used ≤ address
  pub ends : address + size ≡ a.base + a'.used
  pub within : a'.used ≤ a.size
  pub aligned : address % align ≡ 0

good_align :
    (align : ℕ) → align < 2 ^ 32 → bad_align align ≡ false → (is_pow2 align ≡ true) × (0 < align)
unfolding bad_align is_pow2
good_align align small fine =
    let positive : 0 < align = ground (arith, fine) in
    let words : (align + (2 ^ 32 - 1)) % 2 ^ 32 ≡ sub64 align 1 = omega (arith, positive, small) in
    let test : bit_and align ((align + (2 ^ 32 - 1)) % 2 ^ 32) ≡ 0 = ground (arith, fine) in
    let again : bit_and align (sub64 align 1) ≡ 0 = subst (λ k. bit_and align k ≡ 0) words test in
    (ground (arith, positive, again), positive)

module _ (a : Arena) (w : IsArena a) (size align : ℕ) (wide : size < 2 ^ 64)
    (small : align < 2 ^ 32) where
  abbrev address : ℕ
  address = align_up (add64 a.base a.used) align

  -- An aligned address behind what is used, at which the block fits.
  abbrev pub Fits : ℕ → Type 0
  Fits p = (a.base + a.used ≤ p) × (p + size ≤ a.base + a.size) × (p % align ≡ 0)

  bounds :
      bad_align align ≡ false
      → (a.base + a.used ≤ address) × (address < a.base + a.used + align) × (address % align ≡ 0)
  bounds fine =
      let (pow2, positive) = good_align align small fine in
      let cur : add64 a.base a.used ≡ a.base + a.used = omega (arith, w.memory, w.within) in
      let b =
        align_up_bounds (add64 a.base a.used) align pow2 (omega (arith, small))
          (omega (arith, cur, w.memory, w.within, small)) in
      (omega (arith, cur, b.0), omega (arith, cur, b.1), b.2)

  -- A block at the least address at which it fits, or nothing where it fits nowhere.
  abbrev pub AllocOutcome : Arena × Option ℕ → Type 0
  AllocOutcome r =
      ((p : ℕ) × (r.1 ≡ some p) × (Handed a r.0 size align p × ((q : ℕ) → Fits q → p ≤ q)))
      ⊎ ((r ≡ (a, none)) × ((bad_align align ≡ true) ⊎ ((q : ℕ) → Fits q → ⊥)))

  -- The tests that are left once the alignment is good.
  abbrev full : Bool
  full = ltb a.size (sub64 address a.base) || ltb (sub64 a.size (sub64 address a.base)) size

  filled : Arena
  filled = record a { used = add64 (sub64 address a.base) size }

  offset : bad_align align ≡ false → sub64 address a.base ≡ address - a.base
  offset fine = let b = bounds fine in omega (arith, b.0, b.1, w.memory, w.within, small)

  handed :
      bad_align align ≡ false
      → full ≡ false
      → Handed a filled size align address × ((q : ℕ) → Fits q → address ≤ q)
  unfolding filled
  handed fine room =
      let b = bounds fine in
      let o = offset fine in
      let fits : address - a.base + size ≤ a.size =
        ground (arith, room, o, b.0, w.memory, w.within) in
      (
        record {
          same = (refl, refl);
          behind = b.0;
          ends = omega (arith, o, fits, b.0, w.memory);
          within = omega (arith, o, fits, b.0, w.memory);
          aligned = b.2;
        },
        λ q f. least_multiple address q align b.2 f.2 (omega (arith, b.1, f.0)),
      )

  nowhere : bad_align align ≡ false → full ≡ true → (q : ℕ) → Fits q → ⊥
  nowhere fine over q f =
      let b = bounds fine in
      let first = least_multiple address q align b.2 f.2 (omega (arith, b.1, f.0)) in
      ground (arith, over, offset fine, first, b.0, f.1, w.memory, w.within)

  pub arena_alloc_outcome : AllocOutcome (arena_alloc a size align)
  arena_alloc_outcome = elim (Bool-cases (bad_align align)) [
    | inl e ↦
        let none_there : arena_alloc a size align ≡ (a, none) = unfold arena_alloc in rw e refl in
        inr (none_there, inl e)
    | inr e ↦ elim (Bool-cases full) [
      | inl over ↦
          let none_there : arena_alloc a size align ≡ (a, none) =
            unfold arena_alloc in rw (e, over) refl in
          inr (none_there, inr (nowhere e over))
      | inr room ↦
          let there : arena_alloc a size align ≡ (filled, some address) =
            unfold arena_alloc in unfold filled in rw (e, room) refl in
          subst AllocOutcome (sym there) (inl (address, refl, handed e room))
    ]
  ]
