-- ===== src/Memory/Buddy.antt =====
-- memory/allocator.c: the buddy allocator. The region is a function from addresses to words: the
-- headers of the blocks and the links of the free lists lie in it, next to what the callers write.
-- NULL is address 0.
pub mod Tree
pub mod Sibling
pub mod Layout
pub mod Invariant
pub mod Split
pub mod Blocks
pub mod Alloc
pub mod Merge
pub mod Free
pub mod Start
pub mod Owned
pub mod Run
mod Tests
use prospero_ai.Prelude.{
  ℕ, zero, suc, ◌+◌, ◌-◌, ◌*◌, ◌/◌, ◌%◌, ◌^◌, bit_xor, min, Bool, true, false, not, ◌&&◌, ◌||◌,
  List, [], ◌∷◌, get_or, set, replicate, ltb, leb, ◌==◌, if◌then◌else◌,
}
use prospero_ai.Status.{Status, Result, ok, err}
use prospero_ai.Memory.Align.{add64, sub64, is_pow2, align_up, ceil_log2, floor_log2}

abbrev pub magic_free : ℕ
magic_free = 0x4652454546414942

abbrev pub magic_alloc : ℕ
magic_alloc = 0x414C4C4F46414942

abbrev pub block_header : ℕ
block_header = 32

abbrev pub min_size : ℕ
min_size = 128

abbrev pub largest_order : ℕ
largest_order = 30

-- pai_buddy_t, and the words of the region.
pub record Buddy : Type 0 where
  pub base : ℕ
  pub size : ℕ
  pub max_order : ℕ
  pub free_lists : List ℕ
  pub owned : ℕ
  pub used_bytes : ℕ
  pub allocs : ℕ
  pub frees : ℕ
  pub splits : ℕ
  pub merges : ℕ
  pub words : ℕ → ℕ

unfoldable pub write : (ℕ → ℕ) → (address value : ℕ) → ℕ → ℕ
write words address value a = if a == address then value else words a

unfoldable pub block_off : Buddy → ℕ → ℕ
block_off b block = block - b.base

unfoldable pub block_is_free : Buddy → (block order : ℕ) → Bool
block_is_free b block order =
    not (block == 0) && (b.words block == magic_free && b.words (block + 8) == order)

unfoldable pub block_set_header : Buddy → (block magic order : ℕ) → Buddy
unfolding write
block_set_header b block magic order = record b {
  words = write (write b.words block magic) (block + 8) order;
}

unfoldable pub free_list_push : Buddy → (order block : ℕ) → Buddy
unfolding block_set_header write
free_list_push b order block =
    let headed = block_set_header b block magic_free order in
    record headed {
      words = write headed.words (block + 16) (get_or headed.free_lists order 0);
      free_lists = set headed.free_lists order block;
    }

-- The buddy afterwards, and the block or NULL.
unfoldable pub free_list_pop : Buddy → (order : ℕ) → Buddy × ℕ
free_list_pop b order =
    let node = get_or b.free_lists order 0 in
    if node == 0
    then (b, 0)
    else (record b { free_lists = set b.free_lists order (b.words (node + 16)) }, node)

-- `link` points into the array of the heads, or into a block.
pub data Link : Type 0 where
  head_of : (order : ℕ) → Link
  next_of : (block : ℕ) → Link

unfoldable pub read_link : Buddy → Link → ℕ
read_link b (head_of order) = get_or b.free_lists order 0
read_link b (next_of block) = b.words (block + 16)

unfoldable pub write_link : Buddy → Link → ℕ → Buddy
unfolding write
write_link b (head_of order) v = record b { free_lists = set b.free_lists order v }
write_link b (next_of block) v = record b { words = write b.words (block + 16) v }

-- while ((node = *link) != NULL): `rounds` bounds the number of nodes.
unfoldable pub remove_loop : (rounds : ℕ) → Buddy → Link → (block : ℕ) → Buddy
unfolding read_link write_link
remove_loop zero b link block = b
remove_loop (suc rounds) b link block =
    let node = read_link b link in
    let rest = remove_loop rounds b (next_of node) block in
    if node == 0 then b else if node == block then write_link b link (b.words (node + 16)) else rest

-- A region holds no more blocks than its size in bytes.
unfoldable pub free_list_remove : Buddy → (order block : ℕ) → Buddy
unfolding remove_loop
free_list_remove b order block = remove_loop b.size b (head_of order) block

-- `words` is what the memory holds before.
unfoldable pub buddy_init : (words : ℕ → ℕ) → (memory size : ℕ) → Result Buddy
unfolding free_list_push
buddy_init words memory size =
    if memory == 0 || (not (is_pow2 size) || (ltb size min_size || not (memory % size == 0)))
    then err Status.invalid_arg
    else ok (
        free_list_push
          (record {
            base = memory;
            size = size;
            max_order = floor_log2 size;
            free_lists = replicate 31 0;
            owned = 0;
            used_bytes = 0;
            allocs = 0;
            frees = 0;
            splits = 0;
            merges = 0;
            words = words;
          })
          (floor_log2 size) memory)

-- The base that is aligned to `size` in a block of twice the size at `raw`.
unfoldable pub aligned_base : (raw size : ℕ) → ℕ
aligned_base raw size = (raw + (size - raw % size) % size) % 2 ^ 64

unfoldable pub with_owner : (raw : ℕ) → Result Buddy → Result Buddy
with_owner raw (ok b) = ok (record b { owned = raw })
with_owner raw (err st) = err st

-- `malloc` gives an address or NULL for a number of bytes. A block that is not kept is freed.
unfoldable pub buddy_init_owned : (malloc : ℕ → ℕ) → (words : ℕ → ℕ) → (size : ℕ) → Result Buddy
unfolding with_owner
buddy_init_owned malloc words size =
    let raw = malloc (size * 2 % 2 ^ 64) in
    if not (is_pow2 size) || (ltb size min_size || ltb (2 ^ largest_order) size)
    then err Status.invalid_arg
    else if ltb ((2 ^ 64 - 1) / 2) size
    then err Status.nomem
    else if raw == 0
    then err Status.nomem
    else with_owner raw (buddy_init words (aligned_base raw size) size)

-- The buddy afterwards, and the address that is handed to `free`.
unfoldable pub buddy_destroy : Buddy → Buddy × ℕ
buddy_destroy b = (record b { owned = 0 }, b.owned)

-- while (found <= max_order && free_lists[found] == NULL) found++;
unfoldable pub find_order : (rounds : ℕ) → Buddy → (found : ℕ) → ℕ
find_order zero b found = found
find_order (suc rounds) b found =
    let later = find_order rounds b (found + 1) in
    if leb found b.max_order && get_or b.free_lists found 0 == 0 then later else found

-- while (found > order), for `rounds` = found - order.
unfoldable pub split_loop : (rounds : ℕ) → Buddy → (order block : ℕ) → Buddy
unfolding block_set_header free_list_push
split_loop zero b order block = b
split_loop (suc rounds) b order block =
    let found = order + rounds in
    let half = block + 2 ^ found in
    let pushed = free_list_push (block_set_header b half magic_free found) found half in
    split_loop rounds (record pushed { splits = add64 pushed.splits 1 }) order block

unfoldable pub order_of : (size align : ℕ) → ℕ
order_of size align =
    let order = ceil_log2 (add64 (add64 size align) block_header) in
    if ltb order 6 then 6 else order

unfoldable pub bad_request : (size align : ℕ) → Bool
bad_request size align =
    size == 0
    || (align == 0
        || (not (is_pow2 align)
            || (ltb (2 ^ 64 - 1 - align) size
                || ltb (2 ^ 64 - 1 - block_header) (add64 size align))))

-- From the popped block on.
unfoldable pub take_block : Buddy → (found order block align : ℕ) → Buddy × ℕ
unfolding split_loop block_set_header write
take_block b found order block align =
    let headed =
      block_set_header (split_loop (found - order) b order block) block magic_alloc order in
    let pointer = align_up (block + block_header) align in
    (
      record headed {
        used_bytes = add64 headed.used_bytes (2 ^ order);
        allocs = add64 headed.allocs 1;
        words = write headed.words (pointer - 8) block;
      },
      pointer,
    )

-- The buddy afterwards, and the address or NULL.
unfoldable pub buddy_alloc : Buddy → (size align : ℕ) → Buddy × ℕ
unfolding bad_request order_of find_order free_list_pop take_block
buddy_alloc b size align =
    let order = order_of size align in
    let found = find_order (b.max_order + 1 - order) b order in
    let popped = free_list_pop b found in
    if bad_request size align
    then (b, 0)
    else if ltb b.max_order order
    then (b, 0)
    else if ltb b.max_order found
    then (b, 0)
    else take_block popped.0 found order popped.1 align

-- while (order < max_order), for `rounds` = max_order - order: the block that is left, and its order.
unfoldable pub merge_loop : (rounds : ℕ) → Buddy → (block order : ℕ) → Buddy × ℕ × ℕ
unfolding block_off block_is_free free_list_remove
merge_loop zero b block order = (b, block, order)
merge_loop (suc rounds) b block order =
    let buddy_off = bit_xor (block_off b block) (2 ^ order) in
    let buddy_block = b.base + buddy_off in
    let removed = free_list_remove b order buddy_block in
    let later =
      merge_loop rounds (record removed { merges = add64 removed.merges 1 })
        (if ltb buddy_block block then buddy_block else block) (order + 1) in
    if leb b.size buddy_off || not (block_is_free b buddy_block order)
    then (b, block, order)
    else later

unfoldable pub buddy_free : Buddy → (pointer : ℕ) → Buddy
unfolding merge_loop block_set_header free_list_push
buddy_free b pointer =
    let block = b.words (pointer - 8) in
    let order = b.words (block + 8) in
    let headed =
      block_set_header
        (record b { used_bytes = sub64 b.used_bytes (2 ^ order); frees = add64 b.frees 1 }) block
        magic_free order in
    let (merged, last, top) = merge_loop (b.max_order - order) headed block order in
    if pointer == 0
    then b
    else if ltb block b.base || leb (b.base + b.size) block
    then b
    else if not (b.words block == magic_alloc)
    then b
    else free_list_push merged top last

unfoldable pub buddy_used : Buddy → ℕ
buddy_used b = b.used_bytes

unfoldable pub buddy_avail : Buddy → ℕ
buddy_avail b = sub64 b.size b.used_bytes
