-- ===== src/Memory/Buddy/Tree.antt =====
-- The blocks of a region as a binary tree, and the way from a block up to the root.
pub mod Tags
pub mod Sound
use prospero_ai.Prelude.{
  ℕ, zero, suc, ◌+◌, ◌*◌, ◌^◌, ◌≤◌, ◌≡◌, Bool, true, false, ◌&&◌, List, [], ◌∷◌, ltb, ◌==◌,
  if◌then◌else◌,
}

-- A block of order `k` is free, handed out, taken from the lists by the running call, or cut in two
-- blocks of order `k - 1`.
pub data Tree : Type 0 where
  free used held : Tree
  split : Tree → Tree → Tree

-- What starts at an address: nothing, a free block, or one that is handed out, with its order.
abbrev pub free_tag : ℕ → ℕ
free_tag order = 1 + 2 * order

abbrev pub used_tag : ℕ → ℕ
used_tag order = 2 + 2 * order

-- `k` and `a` are the order and the address of the tree.
unfoldable pub tag : Tree → (k a y : ℕ) → ℕ
tag free k a y = if a == y then free_tag k else 0
tag used k a y = if a == y then used_tag k else 0
tag held k a y = 0
tag (split l r) zero a y = 0
tag (split l r) (suc k) a y = if ltb y (a + 2 ^ k) then tag l k a y else tag r k (a + 2 ^ k) y

-- The bytes that are handed out.
unfoldable pub used_sum : Tree → (k : ℕ) → ℕ
used_sum free k = 0
used_sum used k = 2 ^ k
used_sum held k = 0
used_sum (split l r) zero = 0
used_sum (split l r) (suc k) = used_sum l k + used_sum r k

unfoldable pub is_free : Tree → Bool
is_free free = true
is_free used = false
is_free held = false
is_free (split l r) = false

-- Between two calls: no block is held or has less than 64 bytes, and no two halves are both free.
unfoldable pub IsSound : Tree → (k : ℕ) → Type 0
unfolding is_free
IsSound free k = 6 ≤ k
IsSound used k = 6 ≤ k
IsSound held k = ⊥
IsSound (split l r) zero = ⊥
IsSound (split l r) (suc k) = IsSound l k × IsSound r k × ((is_free l && is_free r) ≡ false)

-- A step from a block up: is the block the left half, what is the other half, and where do both
-- start?
pub record Turn : Type 0 where
  pub left : Bool
  pub other : Tree
  pub address : ℕ

abbrev pub hole : Turn → (j : ℕ) → ℕ
hole f j = if f.left then f.address else f.address + 2 ^ j

abbrev pub opposite : Turn → (j : ℕ) → ℕ
opposite f j = if f.left then f.address + 2 ^ j else f.address

abbrev pub join : Tree → Turn → Tree
join t f = if f.left then split t f.other else split f.other t

unfoldable pub plug : Tree → List Turn → Tree
plug t [] = t
plug t (f ∷ fs) = plug (join t f) fs

-- From a block of order `j` at `x` the frames lead to the whole region, of order `k` at `a`.
unfoldable pub Fits : List Turn → (j x k a : ℕ) → Type 0
Fits [] j x k a = (j ≡ k) × (x ≡ a)
Fits (f ∷ fs) j x k a = (x ≡ hole f j) × Fits fs (suc j) f.address k a

-- The sizes of the blocks that are handed out elsewhere.
unfoldable pub used_around : List Turn → (j : ℕ) → ℕ
unfolding used_sum
used_around [] j = 0
used_around (f ∷ fs) j = used_sum f.other j + used_around fs (suc j)

unfoldable pub IsSoundAround : List Turn → (j : ℕ) → Type 0
unfolding IsSound
IsSoundAround [] j = Unit
IsSoundAround (f ∷ fs) j = IsSound f.other j × IsSoundAround fs (suc j)

unfoldable pub first_is_free : List Turn → Bool
unfolding is_free
first_is_free [] = false
first_is_free (f ∷ fs) = is_free f.other
