-- ===== src/Cache.antt =====
-- cache/kv_cache.c: the key/value cache, blocks of token positions in a region of the buddy allocator.
-- NULL arguments are not modelled, the array of a failed calloc is.
pub mod Runs
pub mod Begin
pub mod Keeps
mod Tests
use prospero_ai.Prelude.{
  ℕ, zero, suc, ◌+◌, ◌-◌, ◌*◌, ◌/◌, ◌%◌, ◌^◌, bit_and, bit_xor, Bool, true, false, not, ◌&&◌, ◌||◌,
  List, [], ◌∷◌, get_or, set, replicate, ltb, leb, ◌==◌, if◌then◌else◌,
}
use prospero_ai.Status.{Status, Result, ok, err}
use prospero_ai.Memory.Align.{add64}
use prospero_ai.Memory.Buddy.{Buddy, min_size, buddy_init, buddy_alloc, buddy_destroy}

abbrev pub max_layers : ℕ
max_layers = 64

abbrev pub block_tokens : ℕ
block_tokens = 128

-- pai_kv_cache_t; the arrays are as long as the capacity.
pub record KvCache : Type 0 where
  pub buddy : Buddy
  pub region : ℕ
  pub region_size : ℕ
  pub owned_region : ℕ
  pub num_layers : ℕ
  pub kv_bytes_per_token : ℕ
  pub capacity_tokens : ℕ
  pub block_ptrs : List ℕ
  pub prefix_hashes : List ℕ
  pub block_bytes_used : List ℕ
  pub positions : ℕ
  pub last_touched : ℕ
  pub tick : ℕ
  pub stats_blocks : ℕ
  pub stats_prefix_hits : ℕ
  pub stats_prefix_miss : ℕ

-- while (rounded < block_bytes && rounded < 2^30) rounded <<= 1;
unfoldable pub rounded_loop : (rounds block_bytes rounded : ℕ) → ℕ
rounded_loop zero block_bytes rounded = rounded
rounded_loop (suc rounds) block_bytes rounded =
    let rest = rounded_loop rounds block_bytes (rounded * 2) in
    if ltb rounded block_bytes && ltb rounded (2 ^ 30) then rest else rounded

-- From 64 on, 24 rounds reach 2^30.
unfoldable pub capacity_of : (region_size block_bytes : ℕ) → ℕ
unfolding rounded_loop
capacity_of region_size block_bytes =
    let cap = region_size / rounded_loop 24 block_bytes 64 in
    if ltb block_tokens cap then block_tokens else cap

unfoldable pub bad_cache : (region_size num_layers kv_bytes_per_token : ℕ) → Bool
bad_cache region_size num_layers kv_bytes_per_token =
    num_layers == 0
    || (ltb max_layers num_layers
        || (kv_bytes_per_token == 0
            || (ltb region_size min_size || not (bit_and region_size (region_size - 1) == 0))))

unfoldable pub cache_over : (memory region_size num_layers kv_bytes_per_token : ℕ) → Buddy → KvCache
unfolding capacity_of
cache_over memory region_size num_layers kv_bytes_per_token b =
    let capacity = capacity_of region_size (num_layers * kv_bytes_per_token) in
    record {
      buddy = b;
      region = memory;
      region_size = region_size;
      owned_region = 0;
      num_layers = num_layers;
      kv_bytes_per_token = kv_bytes_per_token;
      capacity_tokens = capacity;
      block_ptrs = replicate capacity 0;
      prefix_hashes = replicate capacity 0;
      block_bytes_used = replicate capacity 0;
      positions = 0;
      last_touched = 0;
      tick = 0;
      stats_blocks = 0;
      stats_prefix_hits = 0;
      stats_prefix_miss = 0;
    }

-- From the result of pai_buddy_init on.
unfoldable pub cache_after :
    (calloc_ok : Bool) (memory region_size num_layers kv_bytes_per_token : ℕ)
    → Result Buddy
    → Result KvCache
unfolding cache_over
cache_after calloc_ok memory region_size num_layers kv_bytes_per_token (err st) = err st
cache_after calloc_ok memory region_size num_layers kv_bytes_per_token (ok b) =
    if capacity_of region_size (num_layers * kv_bytes_per_token) == 0
    then err Status.invalid_arg
    else if calloc_ok
    then ok (cache_over memory region_size num_layers kv_bytes_per_token b)
    else err Status.nomem

-- `calloc_ok` says whether the three arrays are there.
unfoldable pub kv_cache_init :
    (calloc_ok : Bool) (words : ℕ → ℕ) (memory region_size num_layers kv_bytes_per_token : ℕ)
    → Result KvCache
unfolding bad_cache cache_after
kv_cache_init calloc_ok words memory region_size num_layers kv_bytes_per_token =
    if memory == 0 || bad_cache region_size num_layers kv_bytes_per_token
    then err Status.invalid_arg
    else cache_after calloc_ok memory region_size num_layers kv_bytes_per_token
        (buddy_init words memory region_size)

unfoldable pub kv_cache_capacity_bytes : KvCache → ℕ
kv_cache_capacity_bytes c =
    c.capacity_tokens * c.num_layers % 2 ^ 64 * c.kv_bytes_per_token % 2 ^ 64

-- `pointer` is that of the block, not NULL, for `need` bytes; the buddy is the one afterwards.
unfoldable pub take_positions : KvCache → (b : Buddy) (pointer need tokens : ℕ) → KvCache
take_positions c b pointer need tokens = record c {
  buddy = b;
  block_ptrs = set c.block_ptrs c.positions (pointer - c.region);
  block_bytes_used = set c.block_bytes_used c.positions (need % 2 ^ 32);
  positions = (c.positions + tokens) % 2 ^ 32;
  stats_blocks = add64 c.stats_blocks 1;
}

-- The bytes of `tokens` positions.
unfoldable pub needed : KvCache → (tokens : ℕ) → ℕ
needed c tokens = c.num_layers * c.kv_bytes_per_token * tokens % 2 ^ 64

-- The cache afterwards, and the position or the error.
unfoldable pub kv_cache_reserve : KvCache → (tokens : ℕ) → KvCache × Result ℕ
unfolding take_positions
kv_cache_reserve c tokens =
    let need = needed c tokens in
    let taken = buddy_alloc c.buddy need 64 in
    if tokens == 0
    then (c, err Status.invalid_arg)
    else if ltb c.capacity_tokens ((c.positions + tokens) % 2 ^ 32)
    then (c, err Status.nomem)
    else if taken.1 == 0
    then (record c { buddy = taken.0 }, err Status.nomem)
    else (take_positions c taken.0 taken.1 need tokens, ok c.positions)

-- The cache afterwards, and whether the prefix was there.
unfoldable pub kv_cache_touch : KvCache → (pos prefix_hash : ℕ) → KvCache × Bool
kv_cache_touch c pos prefix_hash =
    let ticked = record c { tick = add64 c.tick 1; last_touched = add64 c.tick 1 } in
    if leb c.positions pos
    then (c, false)
    else if get_or c.prefix_hashes pos 0 == prefix_hash
    then (record ticked { stats_prefix_hits = add64 c.stats_prefix_hits 1 }, true)
    else (
      record ticked {
        prefix_hashes = set c.prefix_hashes pos prefix_hash;
        stats_prefix_miss = add64 c.stats_prefix_miss 1;
      },
      false,
    )

-- hash ^= byte; hash *= 0x100000001B3;
unfoldable pub fnv_step : (hash byte : ℕ) → ℕ
fnv_step hash byte = bit_xor hash byte * 0x100000001B3 % 2 ^ 64

unfoldable pub kv_prefix_hash : (hash token_id : ℕ) → ℕ
unfolding fnv_step
kv_prefix_hash hash token_id =
    fnv_step
      (fnv_step (fnv_step (fnv_step hash (token_id % 256)) (token_id / 256 % 256))
        (token_id / 65536 % 256))
      (token_id / 16777216 % 256)

unfoldable pub restarted : Buddy → Result Buddy → Buddy
restarted b (ok again) = again
restarted b (err st) = b

unfoldable pub kv_cache_reset : KvCache → KvCache
unfolding restarted buddy_destroy
kv_cache_reset c =
    let destroyed = (buddy_destroy (record c.buddy { owned = 0 })).0 in
    let again =
      if c.region == 0
      then destroyed
      else restarted destroyed (buddy_init destroyed.words c.region c.region_size) in
    record c {
      buddy = record again { owned = c.buddy.owned };
      block_ptrs = replicate c.capacity_tokens 0;
      prefix_hashes = replicate c.capacity_tokens 0;
      block_bytes_used = replicate c.capacity_tokens 0;
      positions = 0;
      last_touched = 0;
      tick = 0;
      stats_blocks = 0;
      stats_prefix_hits = 0;
      stats_prefix_miss = 0;
    }
