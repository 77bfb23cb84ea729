-- ===== src/Cache/Tests.antt =====
-- A run of cache/kv_cache.c at a concrete input: a region of 1024 bytes, one position of 32 bytes.
use prospero_ai.Prelude.{ℕ, ◌+◌, ◌^◌, ◌≤◌, ◌<◌, ◌≡◌, refl, true, [], ◌∷◌, All, replicate, arith}
use prospero_ai.Status.{ok}
use prospero_ai.Memory.Align.{is_pow2, floor_log2, align_up, ceil_log2}
use prospero_ai.Memory.Buddy.{Buddy, free_list_push, buddy_init, buddy_alloc}
use prospero_ai.Memory.Buddy.Run.{Live, live_of}
use prospero_ai.Memory.Buddy.Run.Promises.{InRegion, AllApart}
use prospero_ai.Cache.{KvCache, cache_over, kv_cache_init, needed, kv_cache_reserve}
use prospero_ai.Cache.Runs.{KvReach, init, reserve, Recorded}
use prospero_ai.Cache.Keeps.{cache_blocks_lem}

abbrev nothing : ℕ → ℕ
nothing address = 0

abbrev region : Buddy
region =
    free_list_push
      (record {
        base = 1024;
        size = 1024;
        max_order = 10;
        free_lists = replicate 31 0;
        owned = 0;
        used_bytes = 0;
        allocs = 0;
        frees = 0;
        splits = 0;
        merges = 0;
        words = nothing;
      })
      10 1024

abbrev cache : KvCache
cache = cache_over 1024 1024 2 16 region

made : kv_cache_init true nothing 1024 (2 ^ 10) 2 16 ≡ ok cache
unfolding kv_cache_init buddy_init is_pow2 floor_log2
made = refl

served : (kv_cache_reserve cache 1).1 ≡ ok 0
unfolding kv_cache_reserve needed buddy_alloc is_pow2 align_up ceil_log2 free_list_push cache_over
served = refl

capacity : cache.capacity_tokens ≡ 16
unfolding cache_over
capacity = refl

abbrev after : KvCache
after = (kv_cache_reserve cache 1).0

abbrev block : Live
block = live_of after.buddy (buddy_alloc cache.buddy (needed cache 1) 64).1 (needed cache 1)

narrow : cache.positions + 1 < 2 ^ 32
unfolding cache_over
narrow = omega arith

one_position : KvReach 10 after (block ∷ [])
one_position =
    reserve cache [] 1 0
      (init true nothing 1024 2 16 cache (omega arith) (omega arith) (omega arith) made) narrow
      served

cache_blocks_lem_example :
    All (InRegion 10 after.region) (block ∷ [])
    × AllApart (block ∷ [])
    × All (Recorded after) (block ∷ [])
    × (after.positions ≤ after.capacity_tokens)
cache_blocks_lem_example = cache_blocks_lem one_position
