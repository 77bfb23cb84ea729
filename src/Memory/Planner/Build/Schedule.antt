-- ===== src/Memory/Planner/Build/Schedule.antt =====
-- The order in which the sweep meets the allocations, and what sorting keeps of them.
use prospero_ai.Prelude.{
  ℕ, ◌+◌, ◌≤◌, ◌<◌, ◌≡◌, ◌≢◌, ◌⊎◌, inl, inr, refl, sym, ap, subst, ◌∙◌, Bool, true, false,
  Bool-cases, List, [], ◌∷◌, All, length, get_or, arith,
}
use mathlib.Core.List.{Permᴰ}
use native.Mathlib.Decide.{dec_le}
use Prim.Native.Nat.{Ordering}
use prospero_ai.Memory.Planner.{Alloc}
use prospero_ai.Memory.Planner.Sweep.{SortEntry}
use prospero_ai.Memory.Planner.Sweep.Usage.{uses, usage, Other}
use prospero_ai.Memory.Planner.Build.{compare_pinned, alloc_cmp, sort_entries}

-- Bytes enough for all of the entries, each with the most padding that its alignment can cost.
unfoldable pub need : List SortEntry → ℕ
need [] = 0
need (e ∷ rest) = e.alloc.size + e.alloc.align + need rest

-- No entry is greater than a later one.
unfoldable pub IsSorted : List SortEntry → Type 0
IsSorted [] = Unit
IsSorted (e ∷ rest) = All (λ b. alloc_cmp e b ≢ Ordering.gt) rest × IsSorted rest

-- The entries stand for different allocations.
unfoldable pub Distinct : List SortEntry → Type 0
Distinct [] = Unit
Distinct (e ∷ rest) = All (Other e.add_idx) rest × Distinct rest

abbrev pub IsPinned : SortEntry → Type 0
IsPinned e = e.alloc.pinned ≡ true

-- Reusable entries in the order of their starts, from `now` on, and pinned entries behind them.
unfoldable pub Scheduled : (now : ℕ) → List SortEntry → Type 0
Scheduled now [] = Unit
Scheduled now (e ∷ rest) =
    (IsPinned e × All IsPinned rest)
    ⊎ ((e.alloc.pinned ≡ false) × (now ≤ e.alloc.start) × Scheduled e.alloc.start rest)

pub All-map {ℓ κ μ} :
    {A : Type ℓ} (P : A → Type κ) (Q : A → Type μ) (xs : List A)
    → ((a : A) → P a → Q a)
    → All P xs
    → All Q xs
All-map P Q [] f h = tt
All-map P Q (x ∷ xs) f (px, h) = (f x px, All-map P Q xs f h)

module _ (e b : SortEntry) (le : alloc_cmp e b ≢ Ordering.gt) where
  behind-IsPinned : IsPinned e → IsPinned b
  unfolding alloc_cmp compare_pinned
  behind-IsPinned p = elim (Bool-cases b.alloc.pinned) [
    | inl q ↦ q
    | inr q ↦ absurd (le (rw (p, q) refl))
  ]

  behind_reusable : e.alloc.pinned ≡ false → IsPinned b ⊎ (e.alloc.start ≤ b.alloc.start)
  unfolding alloc_cmp compare_pinned
  behind_reusable p = elim (Bool-cases b.alloc.pinned) [
    | inl q ↦ inl q
    | inr q ↦ inr (elim (dec_le e.alloc.start b.alloc.start) [
      | yes k ↦ k
      | no gt ↦ absurd (le (later q (omega arith)))
    ])
  ]
    where
      later : b.alloc.pinned ≡ false → b.alloc.start < e.alloc.start → alloc_cmp e b ≡ Ordering.gt
      later q lt = rw (p, q) (ground arith)

pub IsSorted-Scheduled :
    (now : ℕ) (es : List SortEntry)
    → All (λ e. IsPinned e ⊎ (now ≤ e.alloc.start)) es
    → IsSorted es
    → Scheduled now es
unfolding Scheduled IsSorted
IsSorted-Scheduled now [] from sorted = tt
IsSorted-Scheduled now (e ∷ rest) (h, from) (le, sorted) = elim (Bool-cases e.alloc.pinned) [
  | inl p ↦ inl (p, All-map _ IsPinned rest (λ b c. behind-IsPinned e b c p) le)
  | inr p ↦ inr (
    p,
    elim h [ inl q ↦ absurd (false≢true e.alloc.pinned p q) | inr k ↦ k ],
    IsSorted-Scheduled e.alloc.start rest (All-map _ _ rest (λ b c. behind_reusable e b c p) le)
        sorted,
  )
]
  where
    false≢true : (b : Bool) → b ≡ false → b ≡ true → ⊥
    false≢true b p q = cc

-- Sorting rearranges the entries, which changes no sum and no property of them all.
unfoldable pub sum_of : (SortEntry → ℕ) → List SortEntry → ℕ
sum_of f [] = 0
sum_of f (e ∷ rest) = f e + sum_of f rest

module _ (f : SortEntry → ℕ) where
  sum_of-perm : {xs ys : List SortEntry} → Permᴰ xs ys → sum_of f xs ≡ sum_of f ys
  unfolding sum_of
  sum_of-perm Permᴰ.nil = refl
  sum_of-perm (Permᴰ.cons a p) = omega (arith, ap f a, sum_of-perm p)
  sum_of-perm (Permᴰ.swap a b) = omega (arith, ap f a, ap f b)
  sum_of-perm (Permᴰ.trans p q) = sum_of-perm p ∙ sum_of-perm q

module _ (P : SortEntry → Type 0) where
  pub All-perm : {xs ys : List SortEntry} → Permᴰ xs ys → All P xs → All P ys
  All-perm Permᴰ.nil h = tt
  All-perm (Permᴰ.cons a p) (hx, h) = (subst P a hx, All-perm p h)
  All-perm (Permᴰ.swap a b) (hx, (hy, h)) = (subst P b hy, (subst P a hx, h))
  All-perm (Permᴰ.trans p q) h = All-perm q (All-perm p h)

need-sum_of : (es : List SortEntry) → need es ≡ sum_of (λ e. e.alloc.size + e.alloc.align) es
unfolding need sum_of
need-sum_of [] = refl
need-sum_of (e ∷ rest) = ap (λ n. e.alloc.size + e.alloc.align + n) (need-sum_of rest)

usage-sum_of :
    (offsets : List ℕ) (t x : ℕ) (es : List SortEntry)
    → usage offsets t x es ≡ sum_of (λ e. uses (get_or offsets e.add_idx 0) t x e.alloc) es
unfolding usage sum_of
usage-sum_of offsets t x [] = refl
usage-sum_of offsets t x (e ∷ rest) =
    ap (λ n. uses (get_or offsets e.add_idx 0) t x e.alloc + n) (usage-sum_of offsets t x rest)

pub need-perm : (xs ys : List SortEntry) → Permᴰ xs ys → need xs ≡ need ys
need-perm xs ys p = need-sum_of xs ∙ sum_of-perm _ p ∙ sym (need-sum_of ys)

pub usage-perm :
    (offsets : List ℕ) (t x : ℕ) (xs ys : List SortEntry)
    → Permᴰ xs ys
    → usage offsets t x xs ≡ usage offsets t x ys
usage-perm offsets t x xs ys p =
    usage-sum_of offsets t x xs ∙ sum_of-perm _ p ∙ sym (usage-sum_of offsets t x ys)

others_along :
    (es : List SortEntry) (a b : SortEntry)
    → a ≡ b
    → All (Other a.add_idx) es
    → All (Other b.add_idx) es
others_along es a b eq = subst (λ e. All (Other e.add_idx) es) eq

pub Distinct-perm : {xs ys : List SortEntry} → Permᴰ xs ys → Distinct xs → Distinct ys
unfolding Distinct
Distinct-perm Permᴰ.nil h = tt
Distinct-perm (Permᴰ.cons a p) (hx, h) = (others_along _ _ _ a (All-perm _ p hx), Distinct-perm p h)
Distinct-perm (Permᴰ.swap a b) ((hxy, hx), (hy, h)) = (
  (
    (λ e. hxy (ap (λ k. k.add_idx) a ∙ sym e ∙ sym (ap (λ k. k.add_idx) b))),
    others_along _ _ _ b hy,
  ),
  (others_along _ _ _ a hx, h),
)
Distinct-perm (Permᴰ.trans p q) h = Distinct-perm q (Distinct-perm p h)

-- The entries that the planner sorts are numbered by their place.
above-Other : (i j : ℕ) (allocs : List Alloc) → i < j → All (Other i) (sort_entries allocs j)
unfolding sort_entries
above-Other i j [] lt = tt
above-Other i j (a ∷ rest) lt = ((λ e. omega arith), above-Other i (j + 1) rest (omega arith))

pub sort_entries-Distinct : (allocs : List Alloc) (i : ℕ) → Distinct (sort_entries allocs i)
unfolding sort_entries Distinct
sort_entries-Distinct [] i = tt
sort_entries-Distinct (a ∷ rest) i =
    (above-Other i (i + 1) rest (omega arith), sort_entries-Distinct rest (i + 1))

-- What holds of the registered allocations holds of their entries.
pub sort_entries-All :
    (P : Alloc → Type 0) (allocs : List Alloc) (i : ℕ)
    → All P allocs
    → All (λ e. P e.alloc) (sort_entries allocs i)
unfolding sort_entries
sort_entries-All P [] i h = tt
sort_entries-All P (a ∷ rest) i (ha, h) = (ha, sort_entries-All P rest (i + 1) h)

pub sort_entries-index :
    (allocs : List Alloc) (i : ℕ) → All (λ e. e.add_idx < i + length allocs) (sort_entries allocs i)
unfolding sort_entries
sort_entries-index [] i = tt
sort_entries-index (a ∷ rest) i = (
  omega arith,
  All-map _ _ (sort_entries rest (i + 1)) (λ e lt. omega arith) (sort_entries-index rest (i + 1)),
)
