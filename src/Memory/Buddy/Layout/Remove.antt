-- ===== src/Memory/Buddy/Layout/Remove.antt =====
-- free_list_remove of memory/allocator.c takes one block out of its list.
use prospero_ai.Prelude.{
  ℕ, zero, suc, ◌+◌, ◌≤◌, ◌≡◌, ◌≢◌, ◌⊎◌, refl, sym, ap, subst, List, [], ◌∷◌, length, get_or, set,
  ◌==◌, ==_ne, arith, Bool-cases, inl, inr,
}
use prospero_ai.Prelude.Occurs.{occurs, update, without, occurs-without, without_absent}
use prospero_ai.Memory.Buddy.{
  Buddy, write, next_of, head_of, read_link, write_link, remove_loop, free_list_remove,
}
use prospero_ai.Memory.Buddy.Tree.{free_tag}
use prospero_ai.Memory.Buddy.Layout.{Chain, Layout, Chain-agree, listed_tag}
use prospero_ai.Memory.Buddy.Layout.Moves.{Layout-pop}

-- The link that is rewritten is that of `q`, the block before the removed one.
pub record Unlinked (b : Buddy) (result : Buddy) (p z : ℕ) (xs : List ℕ) : Type 0 where
  pub before : ℕ
  pub from : (before ≡ p) ⊎ (occurs before xs ≢ 0)
  pub others : before ≢ z
  pub result_is : result ≡ record b { words = write b.words (before + 16) (b.words (z + 16)) }
  pub chain :
      Chain
        (write b.words (before + 16) (b.words (z + 16)))
        (write b.words (before + 16) (b.words (z + 16)) (p + 16))
        (without z xs)

pub remove_loop-next :
    (rounds : ℕ) (b : Buddy) (p z : ℕ) (xs : List ℕ)
    → Chain b.words (b.words (p + 16)) xs
    → length xs ≤ rounds
    → occurs p xs ≡ 0
    → ((y : ℕ) → occurs y xs ≤ 1)
    → p ≢ z
    → occurs z xs ≢ 0
    → Unlinked b (remove_loop rounds b (next_of p) z) p z xs
unfolding Chain occurs remove_loop without
remove_loop-next rounds b p z [] chain long fresh once ne some_z = absurd (some_z refl)
remove_loop-next zero b p z (h ∷ xs) chain long fresh once ne some_z = absurd (omega arith)
remove_loop-next (suc rounds) b p z (h ∷ xs) chain long fresh once ne some_z =
    elim (Bool-cases (h == z)) [
      | inl e ↦
          let eq : h ≡ z = ground (arith, e) in
          record {
            before = p;
            from = inl refl;
            others = ne;
            result_is = unfold read_link write_link in ground (arith, e, chain.0, chain.1);
            chain = rw e (
                subst (λ n. Chain (write b.words (p + 16) (b.words (z + 16))) n (without z xs))
                  (unfold write in ground (arith, eq))
                  (subst (Chain (write b.words (p + 16) (b.words (z + 16))) (b.words (h + 16)))
                    (sym (without_absent z xs (ground (arith, once z, e))))
                    (Chain-agree b.words (write b.words (p + 16) (b.words (z + 16)))
                      (b.words (h + 16)) xs
                      (λ y some_y.
                        unfold write in
                        ground (arith, some_y, fresh, ap (λ n. occurs n xs) {x = p} {y = y}))
                      chain.2)));
          }
      | inr e ↦
          let ih =
            remove_loop-next rounds b h z xs chain.2 (omega arith) (ground (arith, once h))
              (λ y. omega (arith, once y)) (λ eq. ground (arith, e, eq))
              (ground (arith, e, some_z)) in
          record {
            before = ih.before;
            from = inr (ground (arith, ih.from));
            others = ih.others;
            result_is =
                unfold read_link write_link in ground (arith, e, chain.0, chain.1, ih.result_is);
            chain = rw e (
              unfold write in
                  ground
                    (arith, chain.0, ih.from, fresh, ap (λ n. occurs n xs) {x = p} {y = ih.before}),
              chain.1,
              ih.chain,
            );
          }
    ]

pub record Removed (b result : Buddy) (order z : ℕ) (entries : ℕ → List ℕ) (tags : ℕ → ℕ)
    : Type 0 where
  pub words : ℕ → ℕ
  pub lists : List ℕ
  pub result_is : result ≡ record b { words = words; free_lists = lists }
  pub layout :
      Layout words lists (update entries order (without z (entries order))) (update tags z 0)
  pub kept : (w : ℕ) → ((y : ℕ) → tags y ≡ free_tag order → w ≢ y + 16) → words w ≡ b.words w

module _ (b : Buddy) (entries : ℕ → List ℕ) (tags : ℕ → ℕ)
    (layout : Layout b.words b.free_lists entries tags) where
  Unlinked-Layout :
      (order h z : ℕ) (xs : List ℕ)
      → order ≤ 30
      → entries order ≡ h ∷ xs
      → tags z ≡ free_tag order
      → h ≢ z
      → (result : Buddy) (u : Unlinked b result h z xs)
      → Layout
          (write b.words (u.before + 16) (b.words (z + 16)))
          b.free_lists
          (update entries order (without z (entries order)))
          (update tags z 0)
  unfolding occurs write Chain without
  Unlinked-Layout order h z xs small at freed ne result u =
      let listed_before : occurs u.before (entries order) ≢ 0 =
        ground (arith, ap (occurs u.before) at, u.from) in
      let before_tag = listed_tag layout u.before order small listed_before in
      let before_place = layout.aligned u.before (λ z. ground (arith, z, before_tag)) in
      record {
        aligned = λ y some_y. ground (arith, some_y, layout.aligned y);
        free_head =
            λ y j e. ground (arith, e, layout.free_head y j, layout.aligned y, before_place);
        used_head =
            λ y j e. ground (arith, e, layout.used_head y j, layout.aligned y, before_place);
        chains = λ j j_small. elim (Bool-cases (order == j)) [
          | inl e ↦
              let chain =
                subst (Chain b.words (get_or b.free_lists order 0)) at
                  (layout.chains order small) in
              rw e (
                subst
                  (λ l.
                    Chain (write b.words (u.before + 16) (b.words (z + 16)))
                      (get_or b.free_lists j 0) (without z l))
                  (sym at)
                  (rw (==_ne h z ne) (
                    ground
                        (arith, chain.0, e, ap (λ n. get_or b.free_lists n 0) {x = order} {y = j}),
                    chain.1,
                    u.chain,
                  )))
          | inr e ↦ rw e (
              Chain-agree b.words (write b.words (u.before + 16) (b.words (z + 16))) _ (entries j)
                (λ y some_y. ground (
                  arith,
                  listed_tag layout y j j_small some_y,
                  before_tag,
                  e,
                  ap tags {x = u.before} {y = y},
                ))
                (layout.chains j j_small))
        ];
        listed = λ y j j_small. ground (
          arith,
          layout.listed y j j_small,
          occurs-without y z (entries order),
          freed,
          layout.listed y order small,
          ap tags {x = z} {y = y},
        );
        heads = layout.heads;
      }

  remove_head :
      (rounds order z : ℕ) (xs : List ℕ)
      → order ≤ 30
      → entries order ≡ xs
      → length xs ≤ rounds
      → tags z ≡ free_tag order
      → Removed b (remove_loop rounds b (head_of order) z) order z entries tags
  unfolding remove_loop Chain occurs
  remove_head rounds order z [] small at long freed =
      absurd (unfold occurs in ground (arith, layout.listed z order small, ap (occurs z) at, freed))
  remove_head zero order z (h ∷ xs) small at long freed = absurd (omega arith)
  remove_head (suc rounds) order z (h ∷ xs) small at long freed =
      let chain =
        subst (Chain b.words (get_or b.free_lists order 0)) at (layout.chains order small) in
      let once : (y : ℕ) → occurs y (h ∷ xs) ≤ 1 =
        λ y. ground (arith, layout.listed y order small, ap (occurs y) at) in
      elim (Bool-cases (h == z)) [
        | inl e ↦
            let eq : h ≡ z = ground (arith, e) in
            let at_z : entries order ≡ z ∷ xs = ground (arith, at, eq) in
            let rest : without z (entries order) ≡ xs =
              rw at (unfold occurs without in ground (arith, e, without_absent z xs, once z)) in
            record {
              words = b.words;
              lists = set b.free_lists order (b.words (z + 16));
              result_is = unfold read_link write_link in ground (arith, chain.0, chain.1, e, eq);
              layout = rw rest (Layout-pop layout z order xs small at_z);
              kept = λ w away. refl;
            }
        | inr e ↦
            let ne : h ≢ z = λ eq. ground (arith, e, eq) in
            let u =
              remove_loop-next rounds b h z xs chain.2 (omega (arith, long))
                (unfold occurs in ground (arith, once h))
                (λ y. unfold occurs in omega (arith, once y)) ne
                (unfold occurs in
                  ground (arith, e, layout.listed z order small, ap (occurs z) at, freed)) in
            record {
              words = write b.words (u.before + 16) (b.words (z + 16));
              lists = b.free_lists;
              result_is =
                  unfold read_link write_link in ground (arith, chain.0, chain.1, e, u.result_is);
              layout = Unlinked-Layout order h z xs small at freed ne _ u;
              kept = λ w away.
                  let before_tag =
                    listed_tag layout u.before order small
                      (ground (arith, ap (occurs u.before) at, u.from)) in
                  unfold write in ground (arith, away u.before before_tag);
            }
      ]

  pub free_list_remove-Removed :
      (order z : ℕ)
      → order ≤ 30
      → length (entries order) ≤ b.size
      → tags z ≡ free_tag order
      → Removed b (free_list_remove b order z) order z entries tags
  unfolding free_list_remove
  free_list_remove-Removed order z small long freed =
      remove_head b.size order z (entries order) small refl long freed
