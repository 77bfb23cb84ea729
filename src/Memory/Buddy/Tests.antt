-- ===== src/Memory/Buddy/Tests.antt =====
-- Runs of memory/allocator.c at concrete inputs: a region of 1024 bytes, two payloads, one given back.
use prospero_ai.Prelude.{
  ℕ, ◌+◌, ◌*◌, ◌^◌, ◌≤◌, ◌≡◌, ◌≢◌, refl, [], ◌∷◌, arith, All, replicate, false,
}
use prospero_ai.Status.{ok}
use prospero_ai.Memory.Align.{is_pow2, floor_log2, align_up, ceil_log2}
use prospero_ai.Memory.Buddy.{
  Buddy, free_list_push, buddy_init, buddy_init_owned, buddy_alloc, buddy_free, buddy_used,
  buddy_avail, bad_request, order_of,
}
use prospero_ai.Memory.Buddy.Tree.{Tree}
use prospero_ai.Memory.Buddy.Invariant.{IsBuddy}
use prospero_ai.Memory.Buddy.Owned.{buddy_init_owned-IsBuddy}
use prospero_ai.Memory.Buddy.Run.{Live, live_of, here, Reach, init, alloc, free, block_bytes}
use prospero_ai.Memory.Buddy.Run.Promises.{InRegion, AllApart, payloads_lem, used_lem, all_freed}

abbrev nothing : ℕ → ℕ
nothing address = 0

abbrev region : Buddy
region =
    free_list_push
      (record {
        base = 1024;
        size = 1024;
        max_order = 10;
        free_lists = replicate 31 0;
        owned = 0;
        used_bytes = 0;
        allocs = 0;
        frees = 0;
        splits = 0;
        merges = 0;
        words = nothing;
      })
      10 1024

abbrev with_first : Buddy
with_first = (buddy_alloc region 40 8).0

abbrev first : Live
first = live_of with_first (buddy_alloc region 40 8).1 40

abbrev with_both : Buddy
with_both = (buddy_alloc with_first 16 64).0

abbrev second : Live
second = live_of with_both (buddy_alloc with_first 16 64).1 16

region_start : buddy_init nothing 1024 (2 ^ 10) ≡ ok region
unfolding buddy_init is_pow2 floor_log2
region_start = refl

first_pointer : (buddy_alloc region 40 8).1 ≡ 1056
unfolding buddy_alloc is_pow2 align_up ceil_log2 free_list_push
first_pointer = refl

second_pointer : (buddy_alloc with_first 16 64).1 ≡ 1216
unfolding buddy_alloc is_pow2 align_up ceil_log2 free_list_push
second_pointer = refl

merged_again : (buddy_free with_first 1056).free_lists ≡ region.free_lists
unfolding buddy_free buddy_alloc is_pow2 align_up ceil_log2 free_list_push
merged_again = refl

started : Reach 10 1024 region []
started = init nothing region (omega arith) (omega arith) (omega arith) region_start

one_payload : Reach 10 1024 with_first (first ∷ [])
one_payload = alloc region [] 40 8 started (λ null. omega (arith, first_pointer, null))

two_payloads : Reach 10 1024 with_both (second ∷ first ∷ [])
two_payloads =
    alloc with_first (first ∷ []) 16 64 one_payload (λ null. omega (arith, second_pointer, null))

given_back : Reach 10 1024 (buddy_free with_first first.pointer) []
given_back = free with_first first (first ∷ []) [] one_payload (here [])

good_request : bad_request 40 8 ≡ false
unfolding bad_request is_pow2
good_request = refl

request_order : order_of 40 8 ≡ 7
unfolding order_of ceil_log2
request_order = refl

payloads_lem_example : All (InRegion 10 1024) (second ∷ first ∷ []) × AllApart (second ∷ first ∷ [])
payloads_lem_example = payloads_lem two_payloads

used_lem_example :
    (buddy_used with_both ≡ block_bytes (second ∷ first ∷ []))
    × (buddy_avail with_both + block_bytes (second ∷ first ∷ []) ≡ 2 ^ 10)
used_lem_example = used_lem two_payloads

all_freed_example :
    (buddy_used (buddy_free with_first first.pointer) ≡ 0)
    × ((buddy_alloc (buddy_free with_first first.pointer) 40 8).1 ≢ 0)
all_freed_example = all_freed 40 8 given_back good_request (omega (arith, request_order))

abbrev malloc : ℕ → ℕ
malloc size = 5000

buddy_init_owned-IsBuddy_example :
    (b : Buddy) × (buddy_init_owned malloc nothing (2 ^ 10) ≡ ok b)
    × IsBuddy b 10 b.base Tree.free
    × (5000 ≤ b.base)
    × (b.base + 2 ^ 10 ≤ 5000 + 2 ^ 10 * 2)
    × (b.owned ≡ 5000)
buddy_init_owned-IsBuddy_example =
    buddy_init_owned-IsBuddy malloc nothing 10 (omega arith) (omega arith) (λ e. omega (arith, e))
      (omega arith)
