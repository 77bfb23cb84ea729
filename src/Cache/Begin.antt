-- ===== src/Cache/Begin.antt =====
-- Starting, touching and resetting the key/value cache keep it sound.
use prospero_ai.Prelude.{
  ℕ, ◌+◌, ◌*◌, ◌%◌, ◌^◌, ◌≤◌, ◌<◌, ◌≡◌, ◌≢◌, inl, inr, refl, sym, ap, subst, ◌∙◌, Bool, Bool-cases,
  ◌||◌, ◌==◌, leb, List, [], length-replicate, get_or, ==_ne, arith,
}
use prospero_ai.Status.{Status, ok, err}
use prospero_ai.Memory.Buddy.{Buddy, buddy_init}
use prospero_ai.Memory.Buddy.Start.{buddy_init-IsBuddy}
use prospero_ai.Memory.Buddy.Run.{Live, Reach}
use prospero_ai.Cache.{
  KvCache, capacity_of, bad_cache, cache_over, cache_after, kv_cache_init, kv_cache_touch,
  kv_cache_reset,
}
use prospero_ai.Cache.Runs.{IsCache}

err-ne-ok : {s : Status} {c : KvCache} → err s ≢ ok c
err-ne-ok x = cc

cache_over-IsCache :
    (memory k layers bytes : ℕ) (b : Buddy)
    → 7 ≤ k
    → k ≤ 30
    → (memory % 2 ^ k ≡ 0) × (0 < memory) × (memory + 2 ^ k ≤ 2 ^ 64)
    → Reach k memory b []
    → IsCache k (cache_over memory (2 ^ k) layers bytes b) []
unfolding cache_over
cache_over-IsCache memory k layers bytes b deep small placed reach = record {
  reach = reach;
  placed = (deep, small, placed.0, placed.1, placed.2);
  size_is = refl;
  small = unfold capacity_of in ground arith;
  filled = omega arith;
  ptrs = length-replicate (capacity_of (2 ^ k) (layers * bytes)) 0;
  sizes = length-replicate (capacity_of (2 ^ k) (layers * bytes)) 0;
  recorded = tt;
}

after-IsCache :
    (calloc_ok : Bool) (memory k layers bytes : ℕ) (c : KvCache) (b : Buddy)
    → 7 ≤ k
    → k ≤ 30
    → (memory % 2 ^ k ≡ 0) × (0 < memory) × (memory + 2 ^ k ≤ 2 ^ 64)
    → Reach k memory b []
    → cache_after calloc_ok memory (2 ^ k) layers bytes (ok b) ≡ ok c
    → IsCache k c []
after-IsCache calloc_ok memory k layers bytes c b deep small placed reach made =
    subst (λ c. IsCache k c []) same
      (cache_over-IsCache memory k layers bytes b deep small placed reach)
  where
    same : cache_over memory (2 ^ k) layers bytes b ≡ c
    same = unfold cache_after in ground (arith, made)

pub init-IsCache :
    (calloc_ok : Bool) (words : ℕ → ℕ) (memory k layers bytes : ℕ) (c : KvCache)
    → 7 ≤ k
    → k ≤ 30
    → (memory % 2 ^ k ≡ 0) × (0 < memory) × (memory + 2 ^ k ≤ 2 ^ 64)
    → kv_cache_init calloc_ok words memory (2 ^ k) layers bytes ≡ ok c
    → IsCache k c []
unfolding kv_cache_init
init-IsCache calloc_ok words memory k layers bytes c deep small placed e =
    let start = buddy_init-IsBuddy words memory k deep small placed.0 placed.1 placed.2 in
    elim (Bool-cases (memory == 0 || bad_cache (2 ^ k) layers bytes)) [
      | inl bad ↦ absurd (err-ne-ok (rw bad at e))
      | inr good ↦
          after-IsCache calloc_ok memory k layers bytes c start.0 deep small placed
            (Reach.init words start.0 deep small placed start.1)
            (sym (ap (cache_after calloc_ok memory (2 ^ k) layers bytes) start.1) ∙ (rw good at e))
    ]

pub touch-IsCache :
    (k : ℕ) (c : KvCache) (ls : List Live) (pos hash : ℕ)
    → IsCache k c ls
    → IsCache k (kv_cache_touch c pos hash).0 ls
unfolding kv_cache_touch
touch-IsCache k c ls pos hash v = elim (Bool-cases (leb c.positions pos)) [
  | inl out ↦ rw out v
  | inr in_use ↦ elim (Bool-cases (get_or c.prefix_hashes pos 0 == hash)) [
    | inl hit ↦
        rw (in_use, hit)
          record {
            reach = v.reach;
            placed = v.placed;
            size_is = v.size_is;
            small = v.small;
            filled = v.filled;
            ptrs = v.ptrs;
            sizes = v.sizes;
            recorded = v.recorded;
          }
    | inr miss ↦
        rw (in_use, miss)
          record {
            reach = v.reach;
            placed = v.placed;
            size_is = v.size_is;
            small = v.small;
            filled = v.filled;
            ptrs = v.ptrs;
            sizes = v.sizes;
            recorded = v.recorded;
          }
  ]
]

pub reset-IsCache :
    (k : ℕ) (c : KvCache) (ls : List Live) → IsCache k c ls → IsCache k (kv_cache_reset c) []
unfolding kv_cache_reset
reset-IsCache k c ls v =
    let start =
      buddy_init-IsBuddy c.buddy.words c.region k v.placed.0 v.placed.1 v.placed.2 v.placed.3
        v.placed.4 in
    let made : buddy_init c.buddy.words c.region c.region_size ≡ ok start.0 =
      ap (buddy_init c.buddy.words c.region) v.size_is ∙ start.1 in
    record {
      reach =
          rw (==_ne c.region 0 (omega (arith, v.placed)), made)
            (Reach.own start.0 c.buddy.owned [] (
              Reach.init c.buddy.words start.0 v.placed.0 v.placed.1
                (v.placed.2, v.placed.3, v.placed.4) start.1));
      placed = v.placed;
      size_is = v.size_is;
      small = v.small;
      filled = omega arith;
      ptrs = length-replicate c.capacity_tokens 0;
      sizes = length-replicate c.capacity_tokens 0;
      recorded = tt;
    }
