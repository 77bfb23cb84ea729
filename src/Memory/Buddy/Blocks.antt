-- ===== src/Memory/Buddy/Blocks.antt =====
-- The blocks that a sound tree shows: where they lie, that they are apart, and which lists they are on.
use prospero_ai.Prelude.{
  ℕ, ◌+◌, ◌-◌, ◌/◌, ◌^◌, ◌≤◌, ◌<◌, ◌≡◌, ◌≢◌, ◌⊎◌, refl, sym, ap, ◌∙◌, subst, List, [], ◌∷◌, length,
  get_or, inl, inr, arith,
}
use prospero_ai.Prelude.Bits.{two_pow_pos}
use prospero_ai.Prelude.Occurs.{occurs, update, length-le_range}
use native.Mathlib.Decide.{dec_lt}
use prospero_ai.Memory.Buddy.{Buddy}
use prospero_ai.Memory.Buddy.Tree.{
  Tree, free, used, held, tag, free_tag, used_tag, Turn, plug, Fits,
}
use prospero_ai.Memory.Buddy.Tree.Tags.{Found, locate, tag-plug, tag-plug-update}
use prospero_ai.Memory.Buddy.Layout.{Chain, listed_tag}
use prospero_ai.Memory.Buddy.Invariant.{Holds, handed_out}

-- The order of a block from its tag.
abbrev pub tag_order : ℕ → ℕ
tag_order v = (v - 1) / 2

-- A block that starts at `y`, with the way to it.
pub record Block (t : Tree) (k a y order : ℕ) (leaf : Tree) : Type 0 where
  pub frames : List Turn
  pub leads : Fits frames order y k a
  pub whole : plug leaf frames ≡ t

leaf_order : (t : Tree) (k a y value : ℕ) (f : Found t k a y value) → f.order ≡ tag_order value
leaf_order t k a y value f = ground (arith, f.kind)

pub free_block : (t : Tree) (k a y i : ℕ) → tag t k a y ≡ free_tag i → Block t k a y i free
free_block t k a y i e =
    let f = locate t k a y [] k a (unfold Fits in (refl, refl)) (λ z. omega (arith, e, z)) in
    let same : f.order ≡ i = ground (arith, leaf_order _ k a y _ f, e) in
    let leaf_is : f.leaf ≡ free = ground (arith, f.kind, e) in
    record {
      frames = f.frames;
      leads = subst (λ j. Fits f.frames j y k a) same f.leads;
      whole = unfold plug in subst (λ l. plug l f.frames ≡ t) leaf_is f.whole;
    }

pub used_block : (t : Tree) (k a y i : ℕ) → tag t k a y ≡ used_tag i → Block t k a y i used
used_block t k a y i e =
    let f = locate t k a y [] k a (unfold Fits in (refl, refl)) (λ z. omega (arith, e, z)) in
    let same : f.order ≡ i = ground (arith, leaf_order _ k a y _ f, e) in
    let leaf_is : f.leaf ≡ used = ground (arith, f.kind, e) in
    record {
      frames = f.frames;
      leads = subst (λ j. Fits f.frames j y k a) same f.leads;
      whole = unfold plug in subst (λ l. plug l f.frames ≡ t) leaf_is f.whole;
    }

-- Nothing else starts within a block.
pub nothing_inside :
    (t : Tree) (k a y z : ℕ)
    → tag t k a y ≢ 0
    → tag t k a z ≢ 0
    → y ≢ z
    → (z < y) ⊎ (y + 2 ^ tag_order (tag t k a y) ≤ z)
unfolding plug
nothing_inside t k a y z here there ne =
    let f = locate t k a y [] k a (unfold Fits in (refl, refl)) here in
    let order_is = leaf_order _ k a y _ f in
    elim (dec_lt z y) [
      | yes lt ↦ inl lt
      | no ge ↦ elim (dec_lt z (y + 2 ^ f.order)) [
        | yes lt ↦
            let at : tag t k a z ≡ tag f.leaf f.order y z =
              subst (λ s. tag s k a z ≡ tag f.leaf f.order y z) f.whole
                (tag-plug f.leaf f.frames f.order y k a z f.leads (omega (arith, ge)) lt) in
            absurd (there (at ∙ leaf_empty _ _ _ f.kind))
        | no far ↦ inr (subst (λ n. y + 2 ^ n ≤ z) order_is (omega (arith, far)))
      ]
    ]
  where
    leaf_empty :
        (leaf : Tree) (order value : ℕ)
        → ((leaf ≡ free) × (value ≡ free_tag order)) ⊎ ((leaf ≡ used) × (value ≡ used_tag order))
        → tag leaf order y z ≡ 0
    leaf_empty leaf order value (inl e) = rw e.0 (unfold tag in ground (arith, ne))
    leaf_empty leaf order value (inr e) = rw e.0 (unfold tag in ground (arith, ne))

pub blocks_apart :
    (t : Tree) (k a y z : ℕ)
    → tag t k a y ≢ 0
    → tag t k a z ≢ 0
    → y ≢ z
    → (y + 2 ^ tag_order (tag t k a y) ≤ z) ⊎ (z + 2 ^ tag_order (tag t k a z) ≤ y)
blocks_apart t k a y z here there ne = ground (
  arith,
  nothing_inside t k a y z here there ne,
  nothing_inside t k a z y there here (λ e. ne (sym e)),
)

pub used_apart :
    (t : Tree) (k a y i z j value : ℕ)
    → tag t k a y ≡ used_tag i
    → tag t k a z ≡ value
    → value ≢ 0
    → tag_order value ≡ j
    → y ≢ z
    → (y + 2 ^ i ≤ z) ⊎ (z + 2 ^ j ≤ y)
used_apart t k a y i z j value here there some_value order_is ne =
    let here_order : tag_order (tag t k a y) ≡ i = omega (arith, here) in
    let there_order : tag_order (tag t k a z) ≡ j = omega (arith, there, order_is) in
    omega (
      arith,
      blocks_apart t k a y z (λ e. omega (arith, e, here)) (λ e. some_value (sym there ∙ e)) ne,
      ap (λ (n : ℕ). 2 ^ n) here_order,
      ap (λ (n : ℕ). 2 ^ n) there_order,
    )

pub handed_out-tag :
    (t : Tree) (k a y i : ℕ) → handed_out t k a y ≡ used_tag i → tag t k a y ≡ used_tag i
unfolding handed_out
handed_out-tag t k a y i e = ground (arith, e)

-- Taking a leaf out of the tree takes its tag away, and no other.
module _ (fs : List Turn) (i x k a : ℕ) (fit : Fits fs i x k a) where
  pub hold_free_tags : (y : ℕ) → tag (plug held fs) k a y ≡ update (tag (plug free fs) k a) x 0 y
  unfolding tag
  hold_free_tags y =
      tag-plug-update free held fs i x k a x fit (omega arith) (omega (arith, two_pow_pos i))
        (λ y ne. unfold tag in ground (arith, ne)) y

  pub hold_used_tags : (y : ℕ) → tag (plug held fs) k a y ≡ update (tag (plug used fs) k a) x 0 y
  unfolding tag
  hold_used_tags y =
      tag-plug-update used held fs i x k a x fit (omega arith) (omega (arith, two_pow_pos i))
        (λ y ne. unfold tag in ground (arith, ne)) y

  pub free_leaf_tag : tag (plug free fs) k a x ≡ free_tag i
  free_leaf_tag =
      tag-plug free fs i x k a x fit (omega arith) (omega (arith, two_pow_pos i))
      ∙ (unfold tag in ground arith)

  pub used_leaf_tag : tag (plug used fs) k a x ≡ used_tag i
  used_leaf_tag =
      tag-plug used fs i x k a x fit (omega arith) (omega (arith, two_pow_pos i))
      ∙ (unfold tag in ground arith)

  pub hold_free_handed_out :
      (y : ℕ) → handed_out (plug held fs) k a y ≡ handed_out (plug free fs) k a y
  unfolding handed_out
  hold_free_handed_out y =
      ground (arith, hold_free_tags y, free_leaf_tag, ap (tag (plug free fs) k a) {x = x} {y = y})

  pub hold_used_handed_out :
      (y : ℕ) → handed_out (plug held fs) k a y ≡ update (handed_out (plug used fs) k a) x 0 y
  unfolding handed_out
  hold_used_handed_out y = ground (arith, hold_used_tags y)

module _ {b : Buddy} {k a : ℕ} {t : Tree} (h : Holds b k a t) where
  -- A list is no longer than the region.
  pub list_short :
      (i : ℕ)
      → i ≤ 30
      → ((y : ℕ) → tag t k a y ≢ 0 → (a ≤ y) × (y < a + 2 ^ k))
      → length (h.entries i) ≤ b.size
  list_short i small within =
      subst (λ n. length (h.entries i) ≤ n) (sym h.size_is)
        (length-le_range (2 ^ k) a (h.entries i) (λ y. ground (arith, h.layout.listed y i small))
          (λ y some_y. within y (λ z. ground (arith, z, listed_tag h.layout y i small some_y))))

  pub head_tag :
      (i : ℕ)
      → i ≤ 30
      → get_or b.free_lists i 0 ≢ 0
      → (rest : List ℕ) × (h.entries i ≡ get_or b.free_lists i 0 ∷ rest)
        × (tag t k a (get_or b.free_lists i 0) ≡ free_tag i)
  head_tag i small some_head = from_list (h.entries i) refl (h.layout.chains i small)
    where
      from_list :
          (xs : List ℕ)
          → h.entries i ≡ xs
          → Chain b.words (get_or b.free_lists i 0) xs
          → (rest : List ℕ) × (h.entries i ≡ get_or b.free_lists i 0 ∷ rest)
            × (tag t k a (get_or b.free_lists i 0) ≡ free_tag i)
      from_list [] at chain = absurd (some_head (unfold Chain in chain))
      from_list (y ∷ rest) at chain =
          let head_is : get_or b.free_lists i 0 ≡ y = unfold Chain in chain.0 in
          (
            rest,
            at ∙ ap (λ n. n ∷ rest) (sym head_is),
            subst (λ n. tag t k a n ≡ free_tag i) (sym head_is)
                (listed_tag h.layout y i small (unfold occurs in ground (arith, ap (occurs y) at))),
          )

  pub no_head : (i y : ℕ) → i ≤ 30 → get_or b.free_lists i 0 ≡ 0 → tag t k a y ≢ free_tag i
  no_head i y small empty freed = from_list (h.entries i) refl (h.layout.chains i small)
    where
      from_list : (xs : List ℕ) → h.entries i ≡ xs → Chain b.words (get_or b.free_lists i 0) xs → ⊥
      from_list [] at chain =
          unfold occurs in ground (arith, ap (occurs y) at, h.layout.listed y i small, freed)
      from_list (z ∷ rest) at chain = unfold Chain in ground (arith, chain, empty)
