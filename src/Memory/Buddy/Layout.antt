-- ===== src/Memory/Buddy/Layout.antt =====
-- How the words of the region and the heads of the free lists show which blocks there are.
pub mod Moves
pub mod Remove
use prospero_ai.Prelude.{
  ℕ, ◌+◌, ◌%◌, ◌≤◌, ◌<◌, ◌≡◌, ◌≢◌, refl, sym, List, [], ◌∷◌, length, get_or, ◌==◌, if◌then◌else◌,
  arith,
}
use prospero_ai.Prelude.Occurs.{occurs}
use prospero_ai.Memory.Buddy.{magic_free, magic_alloc}
use prospero_ai.Memory.Buddy.Tree.{free_tag, used_tag}

-- The list of the blocks from `head` on, along the links.
unfoldable pub Chain : (words : ℕ → ℕ) → (head : ℕ) → List ℕ → Type 0
Chain words head [] = head ≡ 0
Chain words head (y ∷ rest) = (head ≡ y) × (y ≢ 0) × Chain words (words (y + 16)) rest

-- `entries i` are the blocks of the list of order `i`, `tags y` says what starts at `y`.
pub record Layout (words : ℕ → ℕ) (lists : List ℕ) (entries : ℕ → List ℕ) (tags : ℕ → ℕ)
    : Type 0 where
  pub aligned : (y : ℕ) → tags y ≢ 0 → (y % 64 ≡ 0) × (0 < y)
  pub free_head : (y i : ℕ) → tags y ≡ free_tag i → (words y ≡ magic_free) × (words (y + 8) ≡ i)
  pub used_head : (y i : ℕ) → tags y ≡ used_tag i → (words y ≡ magic_alloc) × (words (y + 8) ≡ i)
  pub chains : (i : ℕ) → i ≤ 30 → Chain words (get_or lists i 0) (entries i)
  pub listed : (y i : ℕ) → i ≤ 30 → occurs y (entries i) ≡ (if tags y == free_tag i then 1 else 0)
  pub heads : length lists ≡ 31

-- The header and the link of the block at `y` are the same in both memories.
abbrev pub Agree : (words words' : ℕ → ℕ) → (y : ℕ) → Type 0
Agree words words' y =
    (words' y ≡ words y) × (words' (y + 8) ≡ words (y + 8)) × (words' (y + 16) ≡ words (y + 16))

pub Chain-agree :
    (words words' : ℕ → ℕ) (head : ℕ) (xs : List ℕ)
    → ((y : ℕ) → occurs y xs ≢ 0 → words' (y + 16) ≡ words (y + 16))
    → Chain words head xs
    → Chain words' head xs
unfolding Chain occurs
Chain-agree words words' head [] same chain = chain
Chain-agree words words' head (y ∷ rest) same chain = (
  chain.0,
  chain.1,
  Chain-agree words words' (words' (y + 16)) rest (λ z some_z. same z (ground (arith, some_z)))
      (rw (same y (ground arith)) chain.2),
)

pub listed_tag :
    {words : ℕ → ℕ} {lists : List ℕ} {entries : ℕ → List ℕ} {tags : ℕ → ℕ}
    (layout : Layout words lists entries tags) (y i : ℕ)
    → i ≤ 30
    → occurs y (entries i) ≢ 0
    → tags y ≡ free_tag i
listed_tag layout y i small some_y = ground (arith, layout.listed y i small, some_y)

pub Layout-agree :
    {words : ℕ → ℕ} {lists : List ℕ} {entries : ℕ → List ℕ} {tags : ℕ → ℕ}
    (layout : Layout words lists entries tags) (words' : ℕ → ℕ)
    → ((y : ℕ) → tags y ≢ 0 → Agree words words' y)
    → Layout words' lists entries tags
Layout-agree {words} {lists} {entries} {tags} layout words' same = record {
  aligned = layout.aligned;
  free_head =
      λ y i at. ground (arith, layout.free_head y i at, same y (λ z. ground (arith, z, at)));
  used_head =
      λ y i at. ground (arith, layout.used_head y i at, same y (λ z. ground (arith, z, at)));
  chains = λ i small.
      Chain-agree words words' _ (entries i)
        (λ y some_y. (same y (λ z. ground (arith, z, listed_tag layout y i small some_y))).2)
        (layout.chains i small);
  listed = layout.listed;
  heads = layout.heads;
}
