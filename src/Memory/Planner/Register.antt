-- ===== src/Memory/Planner/Register.antt =====
-- What registration lets into the planner.
use prospero_ai.Prelude.{
  ℕ, ◌+◌, ◌-◌, ◌^◌, ◌≤◌, ◌<◌, ◌≡◌, subst, Bool, true, false, not, ◌||◌, inl, inr, Bool-cases, [],
  ◌∷◌, ◌++◌, All, All-append, length, length-append, ltb, leb, ◌==◌, arith,
}
use prospero_ai.Status.{ok}
use prospero_ai.Memory.Align.{is_pow2, sub64}
use prospero_ai.Memory.Planner.{Alloc, Planner, max_allocs, planner_add_common}

-- A registered allocation: not empty, alive for a step at least, and its size rounded up to its
-- alignment, which is a power of two, does not reach 2^64.
pub record IsRegistered (a : Alloc) : Type 0 where
  pub pow2 : is_pow2 a.align ≡ true
  pub positive : 0 < a.align
  pub occupied : 0 < a.size
  pub lives : a.start < a.end
  pub rounds : a.size + a.align ≤ 2 ^ 64

abbrev pub IsPlanner : Planner → Type 0
IsPlanner p = All IsRegistered p.allocs × (length p.allocs ≤ max_allocs)

ok-injective : {p q : Planner} → ok p ≡ ok q → p ≡ q
ok-injective e = cc

-- When a 64-bit size and alignment are accepted, every allocation of the planner is well-formed if
-- all were before, there are at most `max_allocs` of them, and there is one more than before.
pub planner_add_common-IsPlanner :
    (p p' : Planner) (size align start end : ℕ) (pinned : Bool)
    → size < 2 ^ 64
    → align < 2 ^ 64
    → IsPlanner p
    → planner_add_common p size align start end pinned ≡ ok p'
    → IsPlanner p' × (length p'.allocs ≡ length p.allocs + 1)
unfolding planner_add_common
planner_add_common-IsPlanner p p' size align start end pinned small aligned (h, n) eq =
    elim (Bool-cases rejected) [
      | inl r ↦ cc (rw r at eq)
      | inr r ↦ elim (Bool-cases (leb max_allocs (length p.allocs))) [
        | inl full ↦ cc (rw (r, full) at eq)
        | inr free ↦ subst Accepted (ok-injective (rw (r, free) at eq)) (accepted r free)
      ]
    ]
  where
    new : Alloc
    new = record { size = size; align = align; start = start; end = end; pinned = pinned }

    rejected : Bool
    rejected =
        size == 0
        || (align == 0
            || (not (is_pow2 align) || (leb end start || ltb (2 ^ 64 - 1 - sub64 align 1) size)))

    Accepted : Planner → Type 0
    Accepted q = IsPlanner q × (length q.allocs ≡ length p.allocs + 1)

    registered : rejected ≡ false → IsRegistered new
    registered r = record {
      pow2 = ground arith;
      positive = ground arith;
      occupied = ground arith;
      lives = ground arith;
      rounds = ground arith;
    }

    accepted :
        rejected ≡ false
        → leb max_allocs (length p.allocs) ≡ false
        → Accepted (record p { allocs = p.allocs ++ (new ∷ []) })
    accepted r free = (
      (
        All-append IsRegistered p.allocs (new ∷ []) h (registered r, tt),
        ground (arith, length-append p.allocs (new ∷ [])),
      ),
      length-append p.allocs (new ∷ []),
    )
