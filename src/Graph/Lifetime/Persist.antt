-- ===== src/Graph/Lifetime/Persist.antt =====
-- The persistent variant: values without a producer stay live to the end.
use prospero_ai.Prelude.{
  ℕ, zero, suc, ◌<◌, ◌≡◌, refl, ap, ◌∙◌, inl, inr, Bool-cases, List, [], ◌∷◌, length, length-drop,
  get_or, get_or-drop, drop, ◌==◌, if◌then◌else◌, arith,
}
use prospero_ai.Graph.Defs.{Value, Op, Graph, blank_value, num_ops, value_at, op_at}
use prospero_ai.Graph.Build.{IsGraph}
use prospero_ai.Graph.Reach.Timed.{IsTimed}
use prospero_ai.Graph.Lifetime.{Span, blank_span, persist, persist_all}
use prospero_ai.Graph.Lifetime.Cover.{span_at, IsValue, Covers, produced_by_op}

abbrev persisted : (n : ℕ) → Value → Span → Span
persisted n v s = if v.producer == 0 then record s { end = n } else s

persist_lem :
    (n : ℕ) (values : List Value) (spans : List Span) (j : ℕ)
    → length spans ≡ length values
    → j < length values
    → get_or (persist n values spans) j blank_span
      ≡ persisted n (get_or values j blank_value) (get_or spans j blank_span)
unfolding persist
persist_lem n [] spans j same inside = absurd (omega arith)
persist_lem n (v ∷ rest) [] j same inside = absurd (omega arith)
persist_lem n (v ∷ rest) (s ∷ spans) zero same inside = refl
persist_lem n (v ∷ rest) (s ∷ spans) (suc j) same inside =
    persist_lem n rest spans j (omega (arith, same)) (omega arith)

length-persist :
    (n : ℕ) (values : List Value) (spans : List Span)
    → length spans ≡ length values
    → length (persist n values spans) ≡ length values
unfolding persist
length-persist n [] [] same = refl
length-persist n [] (s ∷ spans) same = absurd (omega (arith, same))
length-persist n (v ∷ rest) [] same = absurd (omega (arith, same))
length-persist n (v ∷ rest) (s ∷ spans) same =
    ap suc (length-persist n rest spans (omega (arith, same)))

persist_all_lem :
    (g : Graph) (spans : List Span) (v : ℕ)
    → length spans ≡ length g.values
    → IsValue g v
    → span_at (persist_all g spans) v ≡ persisted (num_ops g) (value_at g v) (span_at spans v)
unfolding persist_all
persist_all_lem g spans zero same i = absurd (omega (arith, i))
persist_all_lem g [] (suc j) same i = absurd (omega (arith, i, same))
persist_all_lem g (s ∷ spans) (suc j) same i =
    persist_lem (num_ops g) (drop 1 g.values) spans j (omega (arith, length-drop 1 g.values, same))
      (omega (arith, length-drop 1 g.values, i))
    ∙ ap (λ v. persisted (num_ops g) v (get_or spans j blank_span))
        (get_or-drop g.values j blank_value)

length-persist_all :
    (g : Graph) (spans : List Span)
    → 0 < length g.values
    → length spans ≡ length g.values
    → length (persist_all g spans) ≡ length g.values
unfolding persist_all
length-persist_all g [] some_value same = same
length-persist_all g (s ∷ spans) some_value same = omega (
  arith,
  length-persist (num_ops g) (drop 1 g.values) spans (omega (arith, length-drop 1 g.values, same)),
  length-drop 1 g.values,
  some_value,
)

module _ (g : Graph) (w : IsGraph g) (t : IsTimed g) (spans : List Span) (c : Covers g spans) where
  persist_start :
      (v : ℕ) → IsValue g v → (span_at (persist_all g spans) v).start ≡ (span_at spans v).start
  persist_start v i =
      ap (λ s. s.start) (persist_all_lem g spans v c.sized i)
      ∙ elim (Bool-cases ((value_at g v).producer == 0)) [ inl e ↦ rw e refl | inr e ↦ rw e refl ]

  pub persist_end :
      (v : ℕ)
      → IsValue g v
      → (span_at (persist_all g spans) v).end
        ≡ (if (value_at g v).producer == 0 then num_ops g else (span_at spans v).end)
  persist_end v i =
      ap (λ s. s.end) (persist_all_lem g spans v c.sized i)
      ∙ elim (Bool-cases ((value_at g v).producer == 0)) [ inl e ↦ rw e refl | inr e ↦ rw e refl ]

  -- A value without a producer is live from epoch 0 on.
  pub starts_at_zero :
      (v : ℕ) → IsValue g v → (value_at g v).producer ≡ 0 → (span_at spans v).start ≡ 0
  starts_at_zero v i e =
      c.starts v i ∙ ap (λ p. (op_at g p).epoch) e ∙ ap (λ (p : Op). p.epoch) w.slot

  pub persist_all-Covers : Covers g (persist_all g spans)
  persist_all-Covers = record {
    sized = length-persist_all g spans w.few.0 c.sized;
    starts = λ v i. persist_start v i ∙ c.starts v i;
    reads = λ o u i found.
        let v = w.exists o u found in
        ground (arith, persist_start u v, persist_end u v, c.reads o u i found, t.bound o i);
    writes = λ o v i made.
        let p = produced_by_op g w o v i.0 made in
        ground (arith, persist_start v p.1, persist_end v p.1, c.writes o v i made, p.0, i);
    lasts = λ v i out. ground (arith, persist_end v i, c.lasts v i out);
    occupied = λ some_op v i. ground (
      arith,
      persist_start v i,
      persist_end v i,
      c.occupied some_op v i,
      starts_at_zero v i,
      some_op,
    );
  }
