-- ===== src/Memory/Buddy/Tree/Tags.antt =====
-- What starts where in a tree: replacing a block changes nothing elsewhere, and every block that
-- starts somewhere is found.
use prospero_ai.Prelude.{
  ℕ, zero, suc, ◌+◌, ◌^◌, ◌≤◌, ◌<◌, ◌≡◌, ◌≢◌, ◌⊎◌, inl, inr, refl, sym, subst, ap₂, ◌∙◌, true,
  false, List, [], ◌∷◌, ltb, ◌==◌, Bool-cases, arith,
}
use native.Mathlib.Nat.{pow-suc, one-le-pow}
use prospero_ai.Prelude.Occurs.{update}
use prospero_ai.Memory.Buddy.Tree.{
  Tree, free, used, held, split, free_tag, used_tag, tag, Turn, join, plug, Fits,
}

pub tag-plug_cong :
    (t t' : Tree) (fs : List Turn) (j x k a y : ℕ)
    → Fits fs j x k a
    → tag t j x y ≡ tag t' j x y
    → tag (plug t fs) k a y ≡ tag (plug t' fs) k a y
unfolding plug Fits
tag-plug_cong t t' [] j x k a y fit e =
    subst (λ z. tag t z a y ≡ tag t' z a y) fit.0 (subst (λ z. tag t j z y ≡ tag t' j z y) fit.1 e)
tag-plug_cong t t' (f ∷ fs) j x k a y fit e =
    tag-plug_cong (join t f) (join t' f) fs (suc j) f.address k a y fit.1
      (elim (Bool-cases f.left) [
        | inl l ↦
            let at : tag t j f.address y ≡ tag t' j f.address y =
              subst (λ z. tag t j z y ≡ tag t' j z y) (fit.0 ∙ rw l) e in
            rw l (unfold tag in ground (arith, at))
        | inr r ↦
            let at : tag t j (f.address + 2 ^ j) y ≡ tag t' j (f.address + 2 ^ j) y =
              subst (λ z. tag t j z y ≡ tag t' j z y) (fit.0 ∙ rw r) e in
            rw r (unfold tag in ground (arith, at))
      ])

pub tag-plug :
    (t : Tree) (fs : List Turn) (j x k a y : ℕ)
    → Fits fs j x k a
    → x ≤ y
    → y < x + 2 ^ j
    → tag (plug t fs) k a y ≡ tag t j x y
unfolding plug Fits
tag-plug t [] j x k a y fit low high = ap₂ (λ m n. tag t m n y) (sym fit.0) (sym fit.1)
tag-plug t (f ∷ fs) j x k a y fit low high = elim (Bool-cases f.left) [
  | inl l ↦
      let at : x ≡ f.address = fit.0 ∙ rw l in
      tag-plug (join t f) fs (suc j) f.address k a y fit.1 (omega (arith, at, low))
        (omega (arith, at, low, high, pow-suc 2 j))
      ∙ rw (l, at) (unfold tag in ground (arith, at, high))
  | inr r ↦
      let at : x ≡ f.address + 2 ^ j = fit.0 ∙ rw r in
      tag-plug (join t f) fs (suc j) f.address k a y fit.1 (omega (arith, at, low))
        (omega (arith, at, low, high, pow-suc 2 j))
      ∙ rw (r, at) (unfold tag in ground (arith, at, low))
]

pub tag-plug-update :
    (t t' : Tree) (fs : List Turn) (j x k a z : ℕ)
    → Fits fs j x k a
    → x ≤ z
    → z < x + 2 ^ j
    → ((y : ℕ) → z ≢ y → tag t j x y ≡ tag t' j x y)
    → (y : ℕ) → tag (plug t' fs) k a y ≡ update (tag (plug t fs) k a) z (tag t' j x z) y
tag-plug-update t t' fs j x k a z fit low high same y = elim (Bool-cases (z == y)) [
  | inl e ↦
      let eq : z ≡ y = ground (arith, e) in
      rw e (
        subst (λ n. tag (plug t' fs) k a n ≡ tag t' j x z) eq
          (tag-plug t' fs j x k a z fit low high))
  | inr e ↦ rw e (sym (tag-plug_cong t t' fs j x k a y fit (same y (λ eq. ground (arith, e, eq)))))
]

-- The frames to a block that starts at `y`, and what the block is.
pub record Found (t : Tree) (k a y value : ℕ) : Type 0 where
  pub leaf : Tree
  pub order : ℕ
  pub frames : List Turn
  pub leads : Fits frames order y k a
  pub whole : plug leaf frames ≡ t
  pub kind : ((leaf ≡ free) × (value ≡ free_tag order)) ⊎ ((leaf ≡ used) × (value ≡ used_tag order))

pub locate :
    (t : Tree) (j x y : ℕ) (fs : List Turn) (k a : ℕ)
    → Fits fs j x k a
    → tag t j x y ≢ 0
    → Found (plug t fs) k a y (tag t j x y)
unfolding tag plug Fits
locate free j x y fs k a fit some_tag = elim (Bool-cases (x == y)) [
  | inl e ↦ record {
    leaf = free;
    order = j;
    frames = fs;
    leads = subst (λ n. Fits fs j n k a) (ground (arith, e)) fit;
    whole = refl;
    kind = inl (refl, rw e);
  }
  | inr e ↦ absurd (some_tag (rw e))
]
locate used j x y fs k a fit some_tag = elim (Bool-cases (x == y)) [
  | inl e ↦ record {
    leaf = used;
    order = j;
    frames = fs;
    leads = subst (λ n. Fits fs j n k a) (ground (arith, e)) fit;
    whole = refl;
    kind = inr (refl, rw e);
  }
  | inr e ↦ absurd (some_tag (rw e))
]
locate held j x y fs k a fit some_tag = absurd (some_tag refl)
locate (split l r) zero x y fs k a fit some_tag = absurd (some_tag refl)
locate (split l r) (suc j) x y fs k a fit some_tag = elim (Bool-cases (ltb y (x + 2 ^ j))) [
  | inl lt ↦
      let up : Turn = record { left = true; other = r; address = x } in
      subst (λ v. Found (plug (split l r) fs) k a y v) (sym (rw lt))
        (locate l j x y (up ∷ fs) k a (refl, fit) (λ gone. some_tag (rw lt gone)))
  | inr ge ↦
      let up : Turn = record { left = false; other = l; address = x } in
      subst (λ v. Found (plug (split l r) fs) k a y v) (sym (rw ge))
        (locate r j (x + 2 ^ j) y (up ∷ fs) k a (refl, fit) (λ gone. some_tag (rw ge gone)))
]

pub tag_range : (t : Tree) (k a y : ℕ) → tag t k a y ≢ 0 → (a ≤ y) × (y < a + 2 ^ k)
unfolding tag
tag_range free k a y some_tag = ground (arith, one-le-pow k 2, some_tag)
tag_range used k a y some_tag = ground (arith, one-le-pow k 2, some_tag)
tag_range held k a y some_tag = absurd (some_tag refl)
tag_range (split l r) zero a y some_tag = absurd (some_tag refl)
tag_range (split l r) (suc k) a y some_tag = elim (Bool-cases (ltb y (a + 2 ^ k))) [
  | inl lt ↦
      let ih = tag_range l k a y (λ gone. some_tag (rw lt gone)) in omega (arith, ih, pow-suc 2 k)
  | inr ge ↦
      let ih = tag_range r k (a + 2 ^ k) y (λ gone. some_tag (rw ge gone)) in
      omega (arith, ih, pow-suc 2 k)
]
