-- ===== src/Cache/Runs.antt =====
-- Runs of the key/value cache, and what holds after them.
use prospero_ai.Prelude.{
  ℕ, ◌+◌, ◌-◌, ◌%◌, ◌^◌, ◌≤◌, ◌<◌, ◌≡◌, Bool, List, [], ◌∷◌, All, length, get_or,
}
use prospero_ai.Status.{Status, ok, err}
use prospero_ai.Memory.Buddy.{buddy_alloc}
use prospero_ai.Memory.Buddy.Run.{Live, live_of, Reach, Picks, OnlyPayload}
use prospero_ai.Cache.{
  KvCache, kv_cache_init, kv_cache_reserve, kv_cache_touch, kv_cache_reset, needed,
}

-- The cache over a region of 2 ^ k bytes, and the blocks that were reserved since the last reset.
pub data KvReach (k : ℕ) : KvCache → List Live → Type 0 where
  init :
      (calloc_ok : Bool) (words : ℕ → ℕ) (memory layers bytes : ℕ) (c : KvCache)
      → 7 ≤ k
      → k ≤ 30
      → (memory % 2 ^ k ≡ 0) × (0 < memory) × (memory + 2 ^ k ≤ 2 ^ 64)
      → kv_cache_init calloc_ok words memory (2 ^ k) layers bytes ≡ ok c
      → KvReach k c []
  reserve :
      (c : KvCache) (ls : List Live) (tokens pos : ℕ)
      → KvReach k c ls
      → c.positions + tokens < 2 ^ 32
      → (kv_cache_reserve c tokens).1 ≡ ok pos
      → KvReach k (kv_cache_reserve c tokens).0 (
          live_of
            (kv_cache_reserve c tokens).0.buddy
            (buddy_alloc c.buddy (needed c tokens) 64).1
            (needed c tokens)
          ∷ ls)
  refuse :
      (c : KvCache) (ls : List Live) (tokens : ℕ) (st : Status)
      → KvReach k c ls
      → (kv_cache_reserve c tokens).1 ≡ err st
      → KvReach k (kv_cache_reserve c tokens).0 ls
  touch :
      (c : KvCache) (ls : List Live) (pos hash : ℕ)
      → KvReach k c ls
      → KvReach k (kv_cache_touch c pos hash).0 ls
  fill :
      (c : KvCache) (words : ℕ → ℕ) (l : Live) (ls rest : List Live)
      → KvReach k c ls
      → Picks l ls rest
      → OnlyPayload l c.buddy.words words
      → KvReach k (record c { buddy = record c.buddy { words = words } }) ls
  reset : (c : KvCache) (ls : List Live) → KvReach k c ls → KvReach k (kv_cache_reset c) []

-- The arrays hold the offset and the size of the block at a position in use.
abbrev pub Recorded : KvCache → Live → Type 0
Recorded c l =
    (pos : ℕ) × (pos < c.positions)
    × (get_or c.block_ptrs pos 0 ≡ l.pointer - c.region)
    × (get_or c.block_bytes_used pos 0 ≡ l.size)

pub record IsCache (k : ℕ) (c : KvCache) (ls : List Live) : Type 0 where
  pub reach : Reach k c.region c.buddy ls
  pub placed :
      (7 ≤ k) × (k ≤ 30) × (c.region % 2 ^ k ≡ 0) × (0 < c.region) × (c.region + 2 ^ k ≤ 2 ^ 64)
  pub size_is : c.region_size ≡ 2 ^ k
  pub small : c.capacity_tokens ≤ 128
  pub filled : c.positions ≤ c.capacity_tokens
  pub ptrs : length c.block_ptrs ≡ c.capacity_tokens
  pub sizes : length c.block_bytes_used ≡ c.capacity_tokens
  pub recorded : All (Recorded c) ls
