-- ===== src/Memory/Buddy/Layout/Moves.antt =====
-- How the lists and the headers follow when one block changes: a block is put on a list, taken from
-- the head of one, handed out, or given back.
use prospero_ai.Prelude.{
  ℕ, ◌+◌, ◌%◌, ◌≤◌, ◌<◌, ◌≡◌, ◌≢◌, sym, ap, subst, List, ◌∷◌, get_or, set, length-set, ◌==◌, arith,
  Bool-cases, inl, inr,
}
use mathlib.Core.Path.{fun_ext}
use prospero_ai.Prelude.Occurs.{occurs, update, get_or-set}
use prospero_ai.Memory.Buddy.{magic_free, magic_alloc}
use prospero_ai.Memory.Buddy.Tree.{free_tag, used_tag}
use prospero_ai.Memory.Buddy.Layout.{Chain, Layout, Agree, Chain-agree, listed_tag}

-- The tags matter at each address only.
pub Layout-ext :
    {words : ℕ → ℕ} {lists : List ℕ} {entries : ℕ → List ℕ} {tags tags' : ℕ → ℕ}
    → ((y : ℕ) → tags' y ≡ tags y)
    → Layout words lists entries tags
    → Layout words lists entries tags'
Layout-ext {words} {lists} {entries} same layout =
    subst (Layout words lists entries) (sym (fun_ext same)) layout

module _ {words : ℕ → ℕ} {lists : List ℕ} {entries : ℕ → List ℕ} {tags : ℕ → ℕ}
    (layout : Layout words lists entries tags) where
  pub Layout-push :
      (words' : ℕ → ℕ) (z i : ℕ)
      → i ≤ 30
      → tags z ≡ 0
      → (z % 64 ≡ 0) × (0 < z)
      → (words' z ≡ magic_free) × (words' (z + 8) ≡ i) × (words' (z + 16) ≡ get_or lists i 0)
      → ((y : ℕ) → tags y ≢ 0 → Agree words words' y)
      → Layout words'
          (set lists i z)
          (update entries i (z ∷ entries i))
          (update tags z (free_tag i))
  unfolding occurs Chain
  Layout-push words' z i small fresh place block same = record {
    aligned =
        λ y at. ground (arith, place, layout.aligned y, at, ap (λ (n : ℕ). n % 64) {x = z} {y = y});
    free_head = λ y j at. elim (Bool-cases (z == y)) [
      | inl e ↦
          let eq : z ≡ y = ground (arith, e) in
          subst (λ n. (words' n ≡ magic_free) × (words' (n + 8) ≡ j)) eq
            (ground (arith, at, e, block))
      | inr e ↦ ground (arith, at, e, layout.free_head y j, same y)
    ];
    used_head = λ y j at. elim (Bool-cases (z == y)) [
      | inl e ↦ absurd (ground (arith, at, e))
      | inr e ↦ ground (arith, at, e, layout.used_head y j, same y)
    ];
    chains = λ j j_small.
        let kept : Chain words' (get_or lists j 0) (entries j) =
          Chain-agree words words' _ (entries j)
            (λ y some_y. (same y (λ n. ground (arith, n, listed_tag layout y j j_small some_y))).2)
            (layout.chains j j_small) in
        elim (Bool-cases (i == j)) [
          | inl e ↦
              let eq : i ≡ j = ground (arith, e) in
              rw e (
                ground (arith, get_or-set lists i j z, layout.heads, small, e, place),
                ground (arith, place),
                subst (λ n. Chain words' n (entries i)) (sym block.2)
                    (subst (λ n. Chain words' (get_or lists n 0) (entries n)) (sym eq) kept),
              )
          | inr e ↦ rw e (
              subst (λ h. Chain words' h (entries j))
                (sym (ground (arith, get_or-set lists i j z, layout.heads, e))) kept)
        ];
    listed = λ y j j_small. ground (
      arith,
      layout.listed y j j_small,
      fresh,
      layout.listed z j j_small,
      ap tags {x = z} {y = y},
    );
    heads = ground (arith, length-set lists i z, layout.heads);
  }

  pub Layout-pop :
      (z i : ℕ) (rest : List ℕ)
      → i ≤ 30
      → entries i ≡ z ∷ rest
      → Layout words (set lists i (words (z + 16))) (update entries i rest) (update tags z 0)
  unfolding occurs Chain
  Layout-pop z i rest small at = record {
    aligned = λ y some_y. ground (arith, some_y, layout.aligned y);
    free_head = λ y j e. ground (arith, e, layout.free_head y j);
    used_head = λ y j e. ground (arith, e, layout.used_head y j);
    chains = λ j j_small. elim (Bool-cases (i == j)) [
      | inl e ↦ rw e (
          subst (λ h. Chain words h rest)
            (sym (ground (arith, get_or-set lists i j (words (z + 16)), layout.heads, small, e)))
            (subst (Chain words (get_or lists i 0)) at (layout.chains i small)).2)
      | inr e ↦ rw e (
          subst (λ h. Chain words h (entries j))
            (sym (ground (arith, get_or-set lists i j (words (z + 16)), layout.heads, small, e)))
            (layout.chains j j_small))
    ];
    listed = λ y j j_small. ground (
      arith,
      layout.listed y j j_small,
      layout.listed y i small,
      ap (occurs y) at,
      layout.listed z i small,
      ap (occurs z) at,
      ap tags {x = z} {y = y},
      ap (occurs y) {x = entries i} {y = entries j},
      ap entries {x = i} {y = j},
    );
    heads = ground (arith, length-set lists i (words (z + 16)), layout.heads);
  }

  pub Layout-take :
      (words' : ℕ → ℕ) (z i : ℕ)
      → tags z ≡ 0
      → (z % 64 ≡ 0) × (0 < z)
      → (words' z ≡ magic_alloc) × (words' (z + 8) ≡ i)
      → ((y : ℕ) → tags y ≢ 0 → Agree words words' y)
      → Layout words' lists entries (update tags z (used_tag i))
  Layout-take words' z i fresh place block same = record {
    aligned =
        λ y at. ground (arith, place, layout.aligned y, at, ap (λ (n : ℕ). n % 64) {x = z} {y = y});
    free_head = λ y j at. elim (Bool-cases (z == y)) [
      | inl e ↦ absurd (ground (arith, at, e))
      | inr e ↦ ground (arith, at, e, layout.free_head y j, same y)
    ];
    used_head = λ y j at. elim (Bool-cases (z == y)) [
      | inl e ↦
          let eq : z ≡ y = ground (arith, e) in
          subst (λ n. (words' n ≡ magic_alloc) × (words' (n + 8) ≡ j)) eq
            (ground (arith, at, e, block))
      | inr e ↦ ground (arith, at, e, layout.used_head y j, same y)
    ];
    chains = λ j j_small.
        Chain-agree words words' _ (entries j)
          (λ y some_y. (same y (λ n. ground (arith, n, listed_tag layout y j j_small some_y))).2)
          (layout.chains j j_small);
    listed = λ y j j_small. ground (
      arith,
      layout.listed y j j_small,
      fresh,
      layout.listed z j j_small,
      ap tags {x = z} {y = y},
    );
    heads = layout.heads;
  }

  -- Only the header and the link of `z` may change.
  pub Layout-drop :
      (words' : ℕ → ℕ) (z i : ℕ)
      → tags z ≡ used_tag i
      → ((y : ℕ) → z ≢ y → tags y ≢ 0 → Agree words words' y)
      → Layout words' lists entries (update tags z 0)
  Layout-drop words' z i handed_out same = record {
    aligned = λ y at. ground (arith, at, layout.aligned y);
    free_head = λ y j at. ground (arith, at, layout.free_head y j, same y);
    used_head = λ y j at. ground (arith, at, layout.used_head y j, same y);
    chains = λ j j_small.
        Chain-agree words words' _ (entries j)
          (λ y some_y. ground (
            arith,
            listed_tag layout y j j_small some_y,
            handed_out,
            ap tags {x = z} {y = y},
            same y,
          ))
          (layout.chains j j_small);
    listed = λ y j j_small.
        ground (arith, layout.listed y j j_small, handed_out, ap tags {x = z} {y = y});
    heads = layout.heads;
  }
