-- ===== src/Cache/Keeps.antt =====
-- Reserving positions keeps the key/value cache sound, and so does any run.
use prospero_ai.Prelude.{
  ℕ, ◌+◌, ◌-◌, ◌%◌, ◌^◌, ◌≤◌, ◌<◌, ◌≡◌, ◌≢◌, inl, inr, refl, sym, subst, ◌∙◌, Bool-cases, ◌==◌, ltb,
  List, ◌∷◌, All, length-set, get_or-set_self, get_or-set_ne, arith,
}
use prospero_ai.Status.{Status, ok, err}
use prospero_ai.Memory.Align.Log2.{pow_mono}
use prospero_ai.Memory.Buddy.{Buddy, buddy_alloc}
use prospero_ai.Memory.Buddy.Run.{Live, live_of, Reach}
use prospero_ai.Memory.Buddy.Run.Choice.{All-mono}
use prospero_ai.Memory.Buddy.Run.Promises.{InRegion, AllApart, payloads_lem}
use prospero_ai.Cache.{KvCache, take_positions, needed, kv_cache_reserve}
use prospero_ai.Cache.Runs.{KvReach, init, reserve, refuse, touch, fill, reset, Recorded, IsCache}
use prospero_ai.Cache.Begin.{init-IsCache, touch-IsCache, reset-IsCache}

-- A reservation that succeeds goes through all tests.
reserve_ok :
    (c : KvCache) (tokens pos : ℕ)
    → (kv_cache_reserve c tokens).1 ≡ ok pos
    → let taken = buddy_alloc c.buddy (needed c tokens) 64 in
      (tokens ≢ 0)
      × ((c.positions + tokens) % 2 ^ 32 ≤ c.capacity_tokens)
      × (taken.1 ≢ 0)
      × ((kv_cache_reserve c tokens).0 ≡ take_positions c taken.0 taken.1 (needed c tokens) tokens)
unfolding kv_cache_reserve
reserve_ok c tokens pos e = elim (Bool-cases (tokens == 0)) [
  | inl none_asked ↦ absurd (err-ne-pos (rw none_asked at e))
  | inr some_asked ↦ elim (Bool-cases (ltb c.capacity_tokens ((c.positions + tokens) % 2 ^ 32))) [
    | inl full ↦ absurd (err-ne-pos (rw (some_asked, full) at e))
    | inr room ↦ elim (Bool-cases ((buddy_alloc c.buddy (needed c tokens) 64).1 == 0)) [
      | inl null ↦ absurd (err-ne-pos (rw (some_asked, room, null) at e))
      | inr given ↦ (
        ground (arith, some_asked),
        ground (arith, room),
        ground (arith, given),
        rw (some_asked, room, given) refl,
      )
    ]
  ]
]
  where
    err-ne-pos : {s : Status} {n : ℕ} → err s ≢ ok n
    err-ne-pos x = cc

kept_entry :
    (c : KvCache) (b : Buddy) (pointer need tokens : ℕ)
    → c.positions + tokens < 2 ^ 32
    → (l : Live) → Recorded c l
    → Recorded (take_positions c b pointer need tokens) l
unfolding take_positions
kept_entry c b pointer need tokens wide l old = (
  old.0,
  omega (arith, old.1, wide),
  get_or-set_ne c.block_ptrs c.positions old.0 (pointer - c.region) 0 (λ e. omega (arith, old.1, e))
      ∙ old.2,
  get_or-set_ne c.block_bytes_used c.positions old.0 (need % 2 ^ 32) 0
        (λ e. omega (arith, old.1, e))
      ∙ old.3,
)

taken-IsCache :
    (k : ℕ) (c : KvCache) (ls : List Live) (tokens : ℕ)
    → IsCache k c ls
    → c.positions + tokens < 2 ^ 32
    → tokens ≢ 0
    → (c.positions + tokens) % 2 ^ 32 ≤ c.capacity_tokens
    → let taken = buddy_alloc c.buddy (needed c tokens) 64 in
      taken.1 ≢ 0
      → IsCache k
          (take_positions c taken.0 taken.1 (needed c tokens) tokens)
          (live_of taken.0 taken.1 (needed c tokens) ∷ ls)
unfolding take_positions
taken-IsCache k c ls tokens v wide some_asked room given =
    let need = needed c tokens in
    let taken = buddy_alloc c.buddy need 64 in
    let reach : Reach k c.region taken.0 (live_of taken.0 taken.1 need ∷ ls) =
      Reach.alloc c.buddy ls need 64 v.reach given in
    let within = (payloads_lem reach).0.0 in
    let short : need % 2 ^ 32 ≡ need = omega (arith, within, pow_mono k 30 v.placed.1) in
    record {
      reach = reach;
      placed = v.placed;
      size_is = v.size_is;
      small = v.small;
      filled = room;
      ptrs = length-set c.block_ptrs c.positions (taken.1 - c.region) ∙ v.ptrs;
      sizes = length-set c.block_bytes_used c.positions (need % 2 ^ 32) ∙ v.sizes;
      recorded = (
        (
          c.positions,
          omega (arith, wide, some_asked),
          get_or-set_self c.block_ptrs c.positions (taken.1 - c.region) 0
              (omega (arith, v.ptrs, room, wide, some_asked)),
          get_or-set_self c.block_bytes_used c.positions (need % 2 ^ 32) 0
                (omega (arith, v.sizes, room, wide, some_asked))
              ∙ short,
        ),
        All-mono (Recorded c) (Recorded (take_positions c taken.0 taken.1 need tokens)) ls
            (kept_entry c taken.0 taken.1 need tokens wide) v.recorded,
      );
    }

with_buddy-IsCache :
    (k : ℕ) (c : KvCache) (b : Buddy) (ls : List Live)
    → IsCache k c ls
    → Reach k c.region b ls
    → IsCache k (record c { buddy = b }) ls
with_buddy-IsCache k c b ls v reach = record {
  reach = reach;
  placed = v.placed;
  size_is = v.size_is;
  small = v.small;
  filled = v.filled;
  ptrs = v.ptrs;
  sizes = v.sizes;
  recorded = All-mono (Recorded c) (Recorded (record c { buddy = b })) ls (λ l old. old) v.recorded;
}

refuse-IsCache :
    (k : ℕ) (c : KvCache) (ls : List Live) (tokens : ℕ) (st : Status)
    → IsCache k c ls
    → (kv_cache_reserve c tokens).1 ≡ err st
    → IsCache k (kv_cache_reserve c tokens).0 ls
unfolding kv_cache_reserve
refuse-IsCache k c ls tokens st v e = elim (Bool-cases (tokens == 0)) [
  | inl none_asked ↦ rw none_asked v
  | inr some_asked ↦ elim (Bool-cases (ltb c.capacity_tokens ((c.positions + tokens) % 2 ^ 32))) [
    | inl full ↦ rw (some_asked, full) v
    | inr room ↦ elim (Bool-cases ((buddy_alloc c.buddy (needed c tokens) 64).1 == 0)) [
      | inl null ↦
          rw (some_asked, room, null)
            (with_buddy-IsCache k c _ ls v
              (Reach.refuse c.buddy ls (needed c tokens) 64 v.reach (ground (arith, null))))
      | inr given ↦ absurd (ok-ne-err (rw (some_asked, room, given) at e))
    ]
  ]
]
  where
    ok-ne-err : {s : Status} {n : ℕ} → ok n ≢ err s
    ok-ne-err x = cc

reserved-IsCache :
    (k : ℕ) (c : KvCache) (ls : List Live) (tokens pos : ℕ)
    → IsCache k c ls
    → c.positions + tokens < 2 ^ 32
    → (kv_cache_reserve c tokens).1 ≡ ok pos
    → IsCache k (kv_cache_reserve c tokens).0 (
        live_of
          (kv_cache_reserve c tokens).0.buddy
          (buddy_alloc c.buddy (needed c tokens) 64).1
          (needed c tokens)
        ∷ ls)
unfolding take_positions
reserved-IsCache k c ls tokens pos v wide e =
    let done = reserve_ok c tokens pos e in
    subst
      (λ (d : KvCache).
        IsCache k d
          (live_of d.buddy (buddy_alloc c.buddy (needed c tokens) 64).1 (needed c tokens) ∷ ls))
      (sym done.3) (taken-IsCache k c ls tokens v wide done.0 done.1 done.2)

-- After any run of the cache its invariant holds.
pub KvReach-IsCache : {k : ℕ} {c : KvCache} {ls : List Live} → KvReach k c ls → IsCache k c ls
KvReach-IsCache {k} (init calloc_ok words memory layers bytes c deep small placed e) =
    init-IsCache calloc_ok words memory k layers bytes c deep small placed e
KvReach-IsCache {k} (reserve c ls tokens pos r wide e) =
    reserved-IsCache k c ls tokens pos (KvReach-IsCache r) wide e
KvReach-IsCache {k} (refuse c ls tokens st r e) =
    refuse-IsCache k c ls tokens st (KvReach-IsCache r) e
KvReach-IsCache {k} (touch c ls pos hash r) = touch-IsCache k c ls pos hash (KvReach-IsCache r)
KvReach-IsCache {k} (fill c words l ls rest r p only) =
    let ih = KvReach-IsCache r in
    with_buddy-IsCache k c (record c.buddy { words = words }) ls ih
      (Reach.fill c.buddy words l ls rest ih.reach p only)
KvReach-IsCache {k} (reset c ls r) = reset-IsCache k c ls (KvReach-IsCache r)

-- After any run of the key/value cache whose positions are counted within 32 bits, the blocks that
-- were reserved since the last reset lie in the region and do not overlap, the arrays hold the offset
-- and the size of each at a position in use, and no more positions are in use than the capacity.
pub cache_blocks_lem :
    {k : ℕ} {c : KvCache} {ls : List Live}
    → KvReach k c ls
    → All (InRegion k c.region) ls
      × AllApart ls
      × All (Recorded c) ls
      × (c.positions ≤ c.capacity_tokens)
cache_blocks_lem reach =
    let v = KvReach-IsCache reach in
    let payloads = payloads_lem v.reach in (payloads.0, payloads.1, v.recorded, v.filled)
