-- ===== src/Memory/Arena/Stack.antt =====
-- The blocks that were handed out since the last reset.
use prospero_ai.Prelude.{
  ℕ, ◌+◌, ◌^◌, ◌≤◌, ◌<◌, ◌≡◌, refl, sym, subst, Bool, true, false, inl, inr, Option, none, some,
  List, [], ◌∷◌, if◌then◌else◌, arith,
}
use prospero_ai.Memory.Arena.{Arena, bad_align, arena_init, arena_alloc, arena_reset}
use prospero_ai.Memory.Arena.Bump.{IsArena, Handed, arena_alloc_outcome}

pub record Block : Type 0 where
  pub address : ℕ
  pub size : ℕ

unfoldable pub with_block : Option ℕ → (size : ℕ) → List Block → List Block
with_block none size blocks = blocks
with_block (some p) size blocks = record { address = p; size = size } ∷ blocks

-- Arenas that calls lead to, with the blocks of 64-bit sizes and 32-bit alignments that were handed
-- out since the last reset, the latest first.
pub data Used : Arena → List Block → Type 0 where
  started : (memory size : ℕ) → Used (arena_init memory size) []
  allocated :
      {a : Arena} {blocks : List Block} (size align : ℕ)
      → size < 2 ^ 64
      → align < 2 ^ 32
      → Used a blocks
      → Used (arena_alloc a size align).0 (with_block (arena_alloc a size align).1 size blocks)
  restarted : {a : Arena} {blocks : List Block} → Used a blocks → Used (arena_reset a) []

-- Each block lies behind the ones that were handed out before, from `low` on and up to `top`.
unfoldable pub Stacked : (low top : ℕ) → List Block → Type 0
Stacked low top [] = Unit
Stacked low top (b ∷ rest) =
    (low ≤ b.address) × (b.address + b.size ≤ top) × Stacked low b.address rest

abbrev InSpace : Arena → Type 0
InSpace a = a.base + a.size + 2 ^ 32 ≤ 2 ^ 64

Stacked-le :
    (low top top' : ℕ) (blocks : List Block)
    → top ≤ top'
    → Stacked low top blocks
    → Stacked low top' blocks
unfolding Stacked
Stacked-le low top top' [] le h = tt
Stacked-le low top top' (b ∷ rest) le (above, below, h) = (above, omega (arith, below, le), h)

-- An allocation moves neither the memory nor its end.
arena_alloc_same :
    (a : Arena) (size align : ℕ)
    → ((arena_alloc a size align).0.base ≡ a.base) × ((arena_alloc a size align).0.size ≡ a.size)
unfolding arena_alloc
arena_alloc_same a size align =
    either (bad_align align) _ _ (refl, refl) (either _ _ _ (refl, refl) (refl, refl))
  where
    Same : Arena × Option ℕ → Type 0
    Same r = (r.0.base ≡ a.base) × (r.0.size ≡ a.size)

    either : (b : Bool) (x y : Arena × Option ℕ) → Same x → Same y → Same (if b then x else y)
    either true x y hx hy = hx
    either false x y hx hy = hy

abbrev pub InStack : Arena → List Block → Type 0
InStack a blocks = IsArena a × Stacked a.base (a.base + a.used) blocks

grown :
    (a a' : Arena) (size align p : ℕ) (blocks : List Block)
    → InStack a blocks
    → Handed a a' size align p
    → InStack a' (with_block (some p) size blocks)
unfolding with_block Stacked
grown a a' size align p blocks (w, h) n = (
  record { memory = omega (arith, w.memory, n.same); within = omega (arith, n.within, n.same) },
  (
    omega (arith, n.same, n.behind),
    omega (arith, n.same, n.ends),
    subst (λ low. Stacked low p blocks) (sym n.same.0)
        (Stacked-le a.base (a.base + a.used) p blocks n.behind h),
  ),
)

-- The memory of the arena ends 2^32 bytes below the end of the address space at least: then the
-- blocks that were handed out since the last reset lie within it, each behind the ones before, so
-- that no two of them overlap, and all below what is used.
pub Used-Stacked : {a : Arena} {blocks : List Block} → Used a blocks → InSpace a → InStack a blocks
unfolding arena_init arena_reset Stacked with_block
Used-Stacked (started memory size) space = (record { memory = space; within = omega arith }, tt)
Used-Stacked (restarted {a} {blocks} u) space =
    (record { memory = space; within = omega arith }, tt)
Used-Stacked (allocated {a} {blocks} size align wide small u) space =
    let same = arena_alloc_same a size align in
    let before = Used-Stacked u (omega (arith, space, same)) in
    elim (arena_alloc_outcome a before.0 size align wide small) [
      | inl (p, e, (h, least)) ↦
          subst (λ o. InStack (arena_alloc a size align).0 (with_block o size blocks)) (sym e)
            (grown a (arena_alloc a size align).0 size align p blocks before h)
      | inr (e, reason) ↦ subst (λ r. InStack r.0 (with_block r.1 size blocks)) (sym e) before
    ]
