-- ===== src/Memory/Arena.antt =====
-- memory/arena.c: the bump arena. Addresses are numbers, `uintptr_t` has 64 bits.
pub mod Bump
pub mod Stack
use prospero_ai.Prelude.{
  ℕ, ◌+◌, ◌-◌, ◌%◌, ◌^◌, bit_and, Bool, not, ◌||◌, Option, none, some, ltb, ◌==◌, if◌then◌else◌,
}
use prospero_ai.Memory.Align.{add64, sub64, align_up}

-- pai_arena_t
pub record Arena : Type 0 where
  pub base : ℕ
  pub size : ℕ
  pub used : ℕ

unfoldable pub arena_init : (memory size : ℕ) → Arena
arena_init memory size = record { base = memory; size = size; used = 0 }

-- align == 0 || (align & (align - 1)) != 0, in 32 bits.
unfoldable pub bad_align : ℕ → Bool
bad_align align = align == 0 || not (bit_and align ((align + (2 ^ 32 - 1)) % 2 ^ 32) == 0)

-- The arena afterwards, and the address or NULL.
unfoldable pub arena_alloc : Arena → (size align : ℕ) → Arena × Option ℕ
unfolding bad_align
arena_alloc a size align =
    let aligned = align_up (add64 a.base a.used) align in
    let offset = sub64 aligned a.base in
    if bad_align align
    then (a, none)
    else if ltb a.size offset || ltb (sub64 a.size offset) size
    then (a, none)
    else (record a { used = add64 offset size }, some aligned)

unfoldable pub arena_reset : Arena → Arena
arena_reset a = record a { used = 0 }

unfoldable pub arena_used : Arena → ℕ
arena_used a = a.used

unfoldable pub arena_free : Arena → ℕ
arena_free a = sub64 a.size a.used
