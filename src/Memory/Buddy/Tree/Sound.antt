-- ===== src/Memory/Buddy/Tree/Sound.antt =====
-- Sound trees: their blocks lie in the region, and a block keeps the tree sound when it does so with
-- its other half.
use prospero_ai.Prelude.{
  ℕ, zero, suc, ◌+◌, ◌%◌, ◌^◌, ◌≤◌, ◌<◌, ◌≡◌, ◌⊎◌, inl, inr, refl, sym, subst, ap, ◌∙◌, true, false,
  ◌&&◌, List, [], ◌∷◌, length, if◌then◌else◌, Bool-cases, arith,
}
use native.Mathlib.Nat.{pow-suc, one-le-pow}
use native.Mathlib.Decide.{dec_lt}
use prospero_ai.Memory.Buddy.Tree.{
  Tree, free, used, held, split, free_tag, used_tag, tag, Turn, join, plug, Fits, is_free, IsSound,
  used_sum, used_around, IsSoundAround, first_is_free,
}

pub pow_64 : (k : ℕ) → 6 ≤ k → 2 ^ k % 64 ≡ 0
pow_64 zero h = absurd (omega arith)
pow_64 (suc k) h = elim (dec_lt k 6) [
  | yes lt ↦ let e : k ≡ 5 = omega (arith, lt, h) in ap (λ n. 2 ^ suc n % 64) e
  | no ge ↦ omega (arith, pow-suc 2 k, pow_64 k (omega (arith, ge)))
]

pub Fits-length : (fs : List Turn) (j x k a : ℕ) → Fits fs j x k a → k ≡ j + length fs
unfolding Fits
Fits-length [] j x k a fit = omega (arith, fit.0)
Fits-length (f ∷ fs) j x k a fit = omega (arith, Fits-length fs (suc j) f.address k a fit.1)

-- The block lies in the region, at a multiple of 64.
pub Fits-range :
    (fs : List Turn) (j x k a : ℕ)
    → Fits fs j x k a
    → 6 ≤ j
    → a % 64 ≡ 0
    → (a ≤ x) × (x + 2 ^ j ≤ a + 2 ^ k) × (x % 64 ≡ 0)
unfolding Fits
Fits-range [] j x k a fit deep start =
    subst (λ n. (a ≤ x) × (x + 2 ^ j ≤ a + 2 ^ n) × (x % 64 ≡ 0)) fit.0
      (omega (arith, fit.1, start))
Fits-range (f ∷ fs) j x k a fit deep start = ground (
  arith,
  fit.0,
  pow-suc 2 j,
  pow_64 j deep,
  Fits-range fs (suc j) f.address k a fit.1 (omega arith) start,
)

pub used_sum-plug :
    (t : Tree) (fs : List Turn) (j x k a : ℕ)
    → Fits fs j x k a
    → used_sum (plug t fs) k ≡ used_sum t j + used_around fs j
unfolding plug Fits used_around
used_sum-plug t [] j x k a fit = ap (used_sum t) (sym fit.0) ∙ omega arith
used_sum-plug t (f ∷ fs) j x k a fit =
    used_sum-plug (join t f) fs (suc j) f.address k a fit.1 ∙ elim (Bool-cases f.left) [
      | inl e ↦ rw e (unfold used_sum in omega arith)
      | inr e ↦ rw e (unfold used_sum in omega arith)
    ]

pub used_sum-le : (t : Tree) (k : ℕ) → used_sum t k ≤ 2 ^ k
unfolding used_sum
used_sum-le free k = omega arith
used_sum-le used k = omega arith
used_sum-le held k = omega arith
used_sum-le (split l r) zero = omega arith
used_sum-le (split l r) (suc k) = omega (arith, used_sum-le l k, used_sum-le r k, pow-suc 2 k)

pub IsSound-plug :
    (t : Tree) (fs : List Turn) (j x k a : ℕ)
    → Fits fs j x k a
    → IsSound (plug t fs) k
    → IsSound t j × IsSoundAround fs j × ((is_free t && first_is_free fs) ≡ false)
unfolding plug Fits IsSoundAround first_is_free
IsSound-plug t [] j x k a fit sound = (subst (IsSound t) (sym fit.0) sound, tt, ground arith)
IsSound-plug t (f ∷ fs) j x k a fit sound =
    let ih = IsSound-plug (join t f) fs (suc j) f.address k a fit.1 sound in
    elim (Bool-cases f.left) [
      | inl e ↦
          let both =
            subst (λ l. IsSound (if l then split t f.other else split f.other t) (suc j)) e ih.0 in
          unfold IsSound in (both.0, (both.1, ih.1), both.2)
      | inr e ↦
          let both =
            subst (λ l. IsSound (if l then split t f.other else split f.other t) (suc j)) e ih.0 in
          unfold IsSound in (both.1, (both.0, ih.1), ground (arith, both.2))
    ]

pub plug-IsSound :
    (t : Tree) (fs : List Turn) (j x k a : ℕ)
    → Fits fs j x k a
    → IsSound t j
    → IsSoundAround fs j
    → (is_free t && first_is_free fs) ≡ false
    → IsSound (plug t fs) k
unfolding plug Fits IsSoundAround first_is_free
plug-IsSound t [] j x k a fit sound around apart = subst (IsSound t) fit.0 sound
plug-IsSound t (f ∷ fs) j x k a fit sound around apart =
    plug-IsSound (join t f) fs (suc j) f.address k a fit.1
      (elim (Bool-cases f.left) [
        | inl e ↦ rw e (unfold IsSound in (sound, around.0, apart))
        | inr e ↦ rw e (unfold IsSound in (around.0, sound, ground (arith, apart)))
      ])
      around.1
      (elim (Bool-cases f.left) [
        | inl e ↦ rw e (unfold is_free in refl)
        | inr e ↦ rw e (unfold is_free in refl)
      ])

pub is_free-eq : (t : Tree) → is_free t ≡ true → t ≡ free
unfolding is_free
is_free-eq free e = refl
is_free-eq used e = cc
is_free-eq held e = cc
is_free-eq (split l r) e = cc

-- A sound block that is not free as a whole starts with a smaller free block or one handed out.
pub first_block :
    (t : Tree) (j x : ℕ)
    → IsSound t j
    → is_free t ≡ false
    → (i : ℕ) × (((i < j) × (tag t j x x ≡ free_tag i)) ⊎ (tag t j x x ≡ used_tag i))
unfolding IsSound tag is_free
first_block free j x sound apart = cc
first_block used j x sound apart = (j, inr (ground arith))
first_block held j x sound apart = absurd sound
first_block (split l r) zero x sound apart = absurd sound
first_block (split l r) (suc j) x sound apart = elim (Bool-cases (is_free l)) [
  | inl whole ↦
      let at : l ≡ free = is_free-eq l whole in
      (j, inl (omega arith, rw at (ground (arith, one-le-pow j 2))))
  | inr cut ↦ let ih = first_block l j x sound.0 cut in (ih.0, ground (arith, ih.1, one-le-pow j 2))
]
