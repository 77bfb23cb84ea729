-- ===== src/Memory/Planner/Sweep/Fit.antt =====
-- The best-fit search over the free list.
use prospero_ai.Prelude.{
  ℕ, zero, suc, ◌+◌, ◌≤◌, ◌≡◌, refl, sym, subst, ◌&&◌, inl, inr, true, false, Bool-cases, none,
  some, List, [], ◌∷◌, ◌++◌, All, All-append, length, length-append, get_elem?, ltb→lt,
  if◌then◌else◌, arith,
}
use mathlib.Core.List.{append-nil, append_assoc}
use prospero_ai.Memory.Planner.{Alloc}
use prospero_ai.Memory.Planner.FreeList.{Range}
use prospero_ai.Memory.Planner.Sweep.{Best, smaller_than_best, fits, best_fit}

-- The range found fits and none that fits is smaller; or no range fits.
abbrev pub IsBest : Alloc → List Range → Best → Type 0
IsBest a ranges none = All (λ c. fits a c ≡ false) ranges
IsBest a ranges (some (i, r)) =
    (get_elem? ranges i ≡ some r)
    × (fits a r ≡ true)
    × All (λ c. fits a c ≡ true → r.size ≤ c.size) ranges

get_elem?-append :
    (xs ys : List Range) (i : ℕ) (r : Range)
    → get_elem? xs i ≡ some r
    → get_elem? (xs ++ ys) i ≡ some r
get_elem?-append [] ys i r e = cc
get_elem?-append (x ∷ xs) ys zero r e = e
get_elem?-append (x ∷ xs) ys (suc i) r e = get_elem?-append xs ys i r e

get_elem?-last : (xs : List Range) (r : Range) → get_elem? (xs ++ (r ∷ [])) (length xs) ≡ some r
get_elem?-last [] r = refl
get_elem?-last (x ∷ xs) r = get_elem?-last xs r

All-map {ℓ κ μ} :
    {A : Type ℓ} (P : A → Type κ) (Q : A → Type μ) (xs : List A)
    → ((a : A) → P a → Q a)
    → All P xs
    → All Q xs
All-map P Q [] f h = tt
All-map P Q (x ∷ xs) f (px, h) = (f x px, All-map P Q xs f h)

module _ (a : Alloc) (pre : List Range) (cur : Range) where
  skip_unfit :
      (best : Best) → fits a cur ≡ false → IsBest a pre best → IsBest a (pre ++ (cur ∷ [])) best
  skip_unfit none u h = All-append _ pre (cur ∷ []) h (u, tt)
  skip_unfit (some (i, r)) u (at, fit, least) = (
    get_elem?-append pre (cur ∷ []) i r at,
    fit,
    All-append _ pre (cur ∷ []) least ((λ f. cc), tt),
  )

  keep_best :
      (best : Best)
      → smaller_than_best cur.size best ≡ false
      → IsBest a pre best
      → IsBest a (pre ++ (cur ∷ [])) best
  unfolding smaller_than_best
  keep_best none s h = cc
  keep_best (some (i, r)) s (at, fit, least) = (
    get_elem?-append pre (cur ∷ []) i r at,
    fit,
    All-append _ pre (cur ∷ []) least ((λ f. ground arith), tt),
  )

  take_new :
      (best : Best)
      → fits a cur ≡ true
      → smaller_than_best cur.size best ≡ true
      → IsBest a pre best
      → IsBest a (pre ++ (cur ∷ [])) (some (length pre, cur))
  unfolding smaller_than_best
  take_new none f s h = (
    get_elem?-last pre cur,
    f,
    All-append _ pre (cur ∷ []) (All-map _ _ pre (λ c u t. cc) h) ((λ _. omega arith), tt),
  )
  take_new (some (i, r)) f s (at, fit, least) = (
    get_elem?-last pre cur,
    f,
    All-append _ pre (cur ∷ [])
        (All-map _ _ pre (λ c le t. omega (arith, le t, ltb→lt cur.size r.size s)) least)
        ((λ _. omega arith), tt),
  )

  best_fit_step :
      (best : Best)
      → IsBest a pre best
      → IsBest a
          (pre ++ (cur ∷ []))
          (if fits a cur && smaller_than_best cur.size best then some (length pre, cur) else best)
  best_fit_step best h = elim (Bool-cases (fits a cur)) [
    | inr u ↦ rw u (skip_unfit best u h)
    | inl f ↦ rw f (elim (Bool-cases (smaller_than_best cur.size best)) [
      | inl s ↦ rw s (take_new best f s h)
      | inr s ↦ rw s (keep_best best s h)
    ])
  ]

best_fit_from :
    (a : Alloc) (pre rest : List Range) (i : ℕ) (best : Best)
    → i ≡ length pre
    → IsBest a pre best
    → IsBest a (pre ++ rest) (best_fit a rest i best)
unfolding best_fit
best_fit_from a pre [] i best e h = subst (λ l. IsBest a l best) (sym (append-nil pre)) h
best_fit_from a pre (cur ∷ rest) i best e h =
    subst (λ l. IsBest a l (best_fit a rest (i + 1) (next i))) (append_assoc pre (cur ∷ []) rest)
      (best_fit_from a (pre ++ (cur ∷ [])) rest (i + 1) (next i)
        (omega (arith, length-append pre (cur ∷ [])))
        (subst (λ k. IsBest a (pre ++ (cur ∷ [])) (next k)) (sym e)
          (best_fit_step a pre cur best h)))
  where
    next : ℕ → Best
    next k = if fits a cur && smaller_than_best cur.size best then some (k, cur) else best

-- The search returns a smallest range that passes the test, with its place, or nothing when none
-- does.
pub best_fit-IsBest : (a : Alloc) (ranges : List Range) → IsBest a ranges (best_fit a ranges 0 none)
best_fit-IsBest a ranges = best_fit_from a [] ranges 0 none refl tt
