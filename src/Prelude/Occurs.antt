-- ===== src/Prelude/Occurs.antt =====
-- Occurrences in a list, and lists of numbers as arrays.
use prospero_ai.Prelude.{
  ℕ, zero, suc, ◌+◌, ◌≤◌, ◌<◌, ◌≡◌, ◌≢◌, refl, ap, List, [], ◌∷◌, ◌++◌, length, get_or, set,
  get_or-set_self, get_or-set_ne, ◌==◌, if◌then◌else◌, arith,
}
use native.Mathlib.Decide.{ℕ_discrete}

-- How often `c` stands in the list.
unfoldable pub occurs : ℕ → List ℕ → ℕ
occurs c [] = 0
occurs c (x ∷ rest) = (if x == c then 1 else 0) + occurs c rest

pub occurs-append : (c : ℕ) (xs ys : List ℕ) → occurs c (xs ++ ys) ≡ occurs c xs + occurs c ys
unfolding occurs
occurs-append c [] ys = omega arith
occurs-append c (x ∷ xs) ys = omega (arith, occurs-append c xs ys)

pub occurs-le-length : (c : ℕ) (xs : List ℕ) → occurs c xs ≤ length xs
unfolding occurs
occurs-le-length c [] = omega arith
occurs-le-length c (x ∷ xs) = ground (arith, occurs-le-length c xs)

pub get_or-set :
    (xs : List ℕ) (i j v : ℕ)
    → i < length xs
    → get_or (set xs i v) j 0 ≡ (if i == j then v else get_or xs j 0)
get_or-set xs i j v h = elim (ℕ_discrete i j) [
  | yes e ↦ ground (arith, ap (λ (n : ℕ). get_or (set xs i v) n 0) e, get_or-set_self xs i v 0 h)
  | no ne ↦ ground (arith, get_or-set_ne xs i j v 0 ne)
]

-- A function with one value changed.
abbrev pub update {ℓ} : {A : Type ℓ} → (ℕ → A) → (i : ℕ) → A → ℕ → A
update f i v j = if i == j then v else f j

unfoldable pub without : ℕ → List ℕ → List ℕ
without c [] = []
without c (x ∷ rest) = if x == c then without c rest else x ∷ without c rest

pub occurs-without :
    (y c : ℕ) (xs : List ℕ) → occurs y (without c xs) ≡ (if c == y then 0 else occurs y xs)
unfolding occurs without
occurs-without y c [] = ground arith
occurs-without y c (x ∷ xs) = ground (arith, occurs-without y c xs)

pub without_absent : (c : ℕ) (xs : List ℕ) → occurs c xs ≡ 0 → without c xs ≡ xs
unfolding occurs without
without_absent c [] h = refl
without_absent c (x ∷ xs) h = ground (arith, without_absent c xs)

pub length-without : (c : ℕ) (xs : List ℕ) → length xs ≡ occurs c xs + length (without c xs)
unfolding occurs without
length-without c [] = omega arith
length-without c (x ∷ xs) = ground (arith, length-without c xs)

-- A list without repetitions is no longer than the range that it comes from.
pub length-le_range :
    (n a : ℕ) (xs : List ℕ)
    → ((y : ℕ) → occurs y xs ≤ 1)
    → ((y : ℕ) → occurs y xs ≢ 0 → (a ≤ y) × (y < a + n))
    → length xs ≤ n
unfolding occurs
length-le_range zero a [] once within = omega arith
length-le_range zero a (x ∷ xs) once within = absurd (omega (arith, within x (ground arith)))
length-le_range (suc n) a xs once within =
    let ih =
      length-le_range n a (without (a + n) xs)
        (λ y. ground (arith, occurs-without y (a + n) xs, once y))
        (λ y some_y. ground (arith, occurs-without y (a + n) xs, within y, some_y)) in
    omega (arith, ih, length-without (a + n) xs, once (a + n))
