-- ===== src/Memory/Planner/Sweep/Live.antt =====
-- Releasing the expired allocations: what happens to the bytes they held.
use prospero_ai.Prelude.{
  ℕ, zero, suc, ◌+◌, ◌^◌, ◌≤◌, ◌<◌, ◌≡◌, refl, ap, ◌∙◌, inl, inr, true, false, Bool-cases, List, [],
  ◌∷◌, ◌++◌, All, length, ltb, leb, if◌then◌else◌, arith,
}
use prospero_ai.Memory.Planner.FreeList.{Free, free_list_insert}
use prospero_ai.Memory.Planner.FreeList.Cover.{
  covers, cover, Below, Inserted, free_list_insert-Inserted,
}
use prospero_ai.Memory.Planner.Sweep.{
  LiveAlloc, last_item, but_last, swap_remove, release_loop, release_expired,
}

-- The sum of a weight over the live allocations.
unfoldable pub total : (LiveAlloc → ℕ) → List LiveAlloc → ℕ
total f [] = 0
total f (l ∷ rest) = f l + total f rest

-- Does the allocation hold byte `x`, and does it still do so at step `t`?
abbrev pub holds : ℕ → LiveAlloc → ℕ
holds x l = covers l.off l.size x

abbrev pub holds_at : (t x : ℕ) → LiveAlloc → ℕ
holds_at t x l = if ltb t l.end then covers l.off l.size x else 0

abbrev pub EndsBy : ℕ → LiveAlloc → Type 0
EndsBy top l = l.off + l.size ≤ top

module _ (f : LiveAlloc → ℕ) where
  total-move_last :
      (x : LiveAlloc) (rest : List LiveAlloc)
      → f (last_item x rest) + total f (but_last x rest) ≡ f x + total f rest
  unfolding last_item but_last total
  total-move_last x [] = omega arith
  total-move_last x (y ∷ rest) = omega (arith, total-move_last y rest)

  pub total-swap_remove : (rest : List LiveAlloc) → total f (swap_remove rest) ≡ total f rest
  unfolding swap_remove total
  total-swap_remove [] = refl
  total-swap_remove (x ∷ rest) = total-move_last x rest

  pub total-append :
      (xs : List LiveAlloc) (l : LiveAlloc) → total f (xs ++ (l ∷ [])) ≡ total f xs + f l
  unfolding total
  total-append [] l = omega arith
  total-append (x ∷ xs) l = omega (arith, total-append xs l)

module _ (P : LiveAlloc → Type 0) where
  All-move_last :
      (x : LiveAlloc) (rest : List LiveAlloc)
      → P x
      → All P rest
      → P (last_item x rest) × All P (but_last x rest)
  unfolding last_item but_last
  All-move_last x [] px h = (px, tt)
  All-move_last x (y ∷ rest) px (py, h) = let (a, b) = All-move_last y rest py h in (a, (px, b))

  pub All-swap_remove : (rest : List LiveAlloc) → All P rest → All P (swap_remove rest)
  unfolding swap_remove
  All-swap_remove [] h = tt
  All-swap_remove (x ∷ rest) (px, h) = All-move_last x rest px h

length-but_last : (x : LiveAlloc) (rest : List LiveAlloc) → length (but_last x rest) ≡ length rest
unfolding but_last
length-but_last x [] = refl
length-but_last x (y ∷ rest) = ap suc (length-but_last y rest)

pub length-swap_remove : (rest : List LiveAlloc) → length (swap_remove rest) ≡ length rest
unfolding swap_remove
length-swap_remove [] = refl
length-swap_remove (x ∷ rest) = ap suc (length-but_last x rest)

-- The free list and the live allocations after the release at step `start`.
pub record Released (start top : ℕ) (free : Free) (live : List LiveAlloc)
    (after : Free × List LiveAlloc) : Type 0 where
  pub no_more :
      (x : ℕ)
      → cover x after.0.ranges + total (holds x) after.1
        ≤ cover x free.ranges + total (holds x) live
  pub later : (t x : ℕ) → start ≤ t → total (holds_at t x) after.1 ≡ total (holds_at t x) live
  pub free_inside : Below top after.0.ranges
  pub live_inside : All (EndsBy top) after.1
  pub none_expired : All (λ l. start < l.end) after.1

module _ (start top : ℕ) (free : Free) (l : LiveAlloc) (rest : List LiveAlloc) where
  release_one :
      (after : Free × List LiveAlloc)
      → leb l.end start ≡ true
      → Inserted top l.off l.size free.ranges free.used (free_list_insert free l.off l.size)
      → Released start top (free_list_insert free l.off l.size) (swap_remove rest) after
      → Released start top free (l ∷ rest) after
  unfolding total
  release_one after e inserted removed = record {
    no_more =
        λ x. omega (arith, removed.no_more x, inserted.no_more x, total-swap_remove (holds x) rest);
    later = λ t x le. removed.later t x le ∙ total-swap_remove (holds_at t x) rest ∙ gone t x le;
    free_inside = removed.free_inside;
    live_inside = removed.live_inside;
    none_expired = removed.none_expired;
  }
    where
      gone : (t x : ℕ) → start ≤ t → total (holds_at t x) rest ≡ total (holds_at t x) (l ∷ rest)
      gone t x le = ground arith

  keep_one :
      (after : Free × List LiveAlloc)
      → leb l.end start ≡ false
      → EndsBy top l
      → Released start top free rest after
      → Released start top free (l ∷ rest) (after.0, l ∷ after.1)
  unfolding total
  keep_one after ne hl kept = record {
    no_more = λ x. omega (arith, kept.no_more x);
    later = λ t x le. omega (arith, kept.later t x le);
    free_inside = kept.free_inside;
    live_inside = (hl, kept.live_inside);
    none_expired = (ground arith, kept.none_expired);
  }

module _ (start top : ℕ) (small : top < 2 ^ 64) where
  nothing_live : (free : Free) → Below top free.ranges → Released start top free [] (free, [])
  nothing_live free below = record {
    no_more = λ x. omega arith;
    later = λ t x l. refl;
    free_inside = below;
    live_inside = tt;
    none_expired = tt;
  }

  release_loop-Released :
      (rounds : ℕ) (free : Free) (todo : List LiveAlloc)
      → length todo ≤ rounds
      → Below top free.ranges
      → All (EndsBy top) todo
      → Released start top free todo (release_loop rounds start free todo)
  unfolding release_loop
  release_loop-Released zero free [] n below h = nothing_live free below
  release_loop-Released zero free (x ∷ rest) n below h = absurd (omega arith)
  release_loop-Released (suc rounds) free [] n below h = nothing_live free below
  release_loop-Released (suc rounds) free (l ∷ rest) n below (hl, h) =
      let inserted = free_list_insert-Inserted top free l.off l.size small hl below in
      elim (Bool-cases (leb l.end start)) [
        | inl e ↦ rw e (
            release_one start top free l rest _ e inserted (
              release_loop-Released rounds (free_list_insert free l.off l.size) (swap_remove rest)
                (omega (arith, length-swap_remove rest)) inserted.inside
                (All-swap_remove (EndsBy top) rest h)))
        | inr ne ↦ rw ne (
            keep_one start top free l rest _ ne hl
              (release_loop-Released rounds free rest (omega arith) below h))
      ]

-- After the release at step `start`, no allocation that ended by `start` is left in the live list;
-- at every later step the live list holds each byte as before; no byte is free or held more often
-- than before; and nothing reaches beyond a bound `top` below 2^64 that held before.
pub release_expired-Released :
    (start top : ℕ) (free : Free) (live : List LiveAlloc)
    → top < 2 ^ 64
    → Below top free.ranges
    → All (EndsBy top) live
    → Released start top free live (release_expired start free live)
unfolding release_expired
release_expired-Released start top free live small below h =
    release_loop-Released start top small (length live) free live (omega arith) below h
