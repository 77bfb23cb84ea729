-- ===== src/Memory/Buddy/Run.antt =====
-- Any sequence of pai_buddy_init or pai_buddy_init_owned, then pai_buddy_alloc, pai_buddy_free and writes of the callers to their
-- payloads.
pub mod Choice
pub mod Keeps
pub mod Promises
use prospero_ai.Prelude.{
  ℕ, zero, suc, ◌+◌, ◌-◌, ◌*◌, ◌%◌, ◌^◌, ◌≤◌, ◌<◌, ◌≡◌, ◌≢◌, ◌⊎◌, List, [], ◌∷◌, arith, All,
}
use prospero_ai.Status.{ok}
use prospero_ai.Memory.Buddy.{Buddy, buddy_init, buddy_init_owned, buddy_alloc, buddy_free}
use prospero_ai.Memory.Buddy.Tree.{Tree, used_tag}
use prospero_ai.Memory.Buddy.Invariant.{IsBuddy, handed_out}

-- A payload that was handed out, with the block and the order that its header shows.
pub record Live : Type 0 where
  pub pointer : ℕ
  pub size : ℕ
  pub block : ℕ
  pub order : ℕ

abbrev pub live_of : Buddy → (pointer size : ℕ) → Live
live_of b pointer size = record {
  pointer = pointer;
  size = size;
  block = b.words (pointer - 8);
  order = b.words (b.words (pointer - 8) + 8);
}

-- `rest` is the list without one `l`.
pub data Picks (l : Live) : List Live → List Live → Type 0 where
  here : (rest : List Live) → Picks l (l ∷ rest) rest
  there : (m : Live) (ls rest : List Live) → Picks l ls rest → Picks l (m ∷ ls) (m ∷ rest)

-- The words that do not lie wholly outside of a payload may change.
abbrev pub OnlyPayload : (l : Live) → (words words' : ℕ → ℕ) → Type 0
OnlyPayload l words words' =
    (w : ℕ) → (w + 8 ≤ l.pointer) ⊎ (l.pointer + l.size ≤ w) → words' w ≡ words w

-- The buddy of a region of 2 ^ k bytes at `a`, and the payloads that were not given back.
pub data Reach (k a : ℕ) : Buddy → List Live → Type 0 where
  init :
      (words : ℕ → ℕ) (b : Buddy)
      → 7 ≤ k
      → k ≤ 30
      → (a % 2 ^ k ≡ 0) × (0 < a) × (a + 2 ^ k ≤ 2 ^ 64)
      → buddy_init words a (2 ^ k) ≡ ok b
      → Reach k a b []
  init_owned :
      (malloc words : ℕ → ℕ) (b : Buddy)
      → 7 ≤ k
      → k ≤ 30
      → malloc (2 ^ k * 2) ≢ 0
      → malloc (2 ^ k * 2) + 2 * 2 ^ k ≤ 2 ^ 64
      → buddy_init_owned malloc words (2 ^ k) ≡ ok b
      → b.base ≡ a
      → Reach k a b []
  refuse :
      (b : Buddy) (ls : List Live) (size align : ℕ)
      → Reach k a b ls
      → (buddy_alloc b size align).1 ≡ 0
      → Reach k a (buddy_alloc b size align).0 ls
  alloc :
      (b : Buddy) (ls : List Live) (size align : ℕ)
      → Reach k a b ls
      → (buddy_alloc b size align).1 ≢ 0
      → Reach k a
          (buddy_alloc b size align).0
          (live_of (buddy_alloc b size align).0 (buddy_alloc b size align).1 size ∷ ls)
  free :
      (b : Buddy) (l : Live) (ls rest : List Live)
      → Reach k a b ls
      → Picks l ls rest
      → Reach k a (buddy_free b l.pointer) rest
  fill :
      (b : Buddy) (words : ℕ → ℕ) (l : Live) (ls rest : List Live)
      → Reach k a b ls
      → Picks l ls rest
      → OnlyPayload l b.words words
      → Reach k a (record b { words = words }) ls
  -- A caller may note who owns the region.
  own :
      (b : Buddy) (raw : ℕ) (ls : List Live)
      → Reach k a b ls
      → Reach k a (record b { owned = raw }) ls

pub record IsLive (b : Buddy) (k a : ℕ) (t : Tree) (l : Live) : Type 0 where
  pub back : b.words (l.pointer - 8) ≡ l.block
  pub owned : handed_out t k a l.block ≡ used_tag l.order
  pub inside : (l.block + 32 ≤ l.pointer) × (l.pointer + l.size ≤ l.block + 2 ^ l.order)

abbrev pub Distinct : List Live → Type 0
Distinct [] = Unit
Distinct (l ∷ ls) = All (λ m. l.block ≢ m.block) ls × Distinct ls

abbrev pub block_bytes : List Live → ℕ
block_bytes [] = 0
block_bytes (l ∷ ls) = 2 ^ l.order + block_bytes ls

pub record IsRun (k a : ℕ) (b : Buddy) (ls : List Live) : Type 0 where
  pub tree : Tree
  pub valid : IsBuddy b k a tree
  pub lives : All (IsLive b k a tree) ls
  pub distinct : Distinct ls
  pub bytes : b.used_bytes ≡ block_bytes ls
