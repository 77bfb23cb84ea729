-- ===== src/Graph/Lifetime/Cover.antt =====
-- The spans cover the epochs of all operations that touch a value.
use prospero_ai.Prelude.{
  ℕ, zero, suc, ◌+◌, ◌≤◌, ◌<◌, ◌≡◌, ◌≢◌, refl, sym, subst, ap, ap₂, ◌∙◌, true, false, inl, inr,
  Bool-cases, List, [], ◌∷◌, length, length-drop, length-replicate, get_or, get_or-drop, drop,
  replicate, ◌==◌, if◌then◌else◌, arith,
}
use prospero_ai.Prelude.Occurs.{occurs}
use prospero_ai.Graph.Defs.{
  Value, Op, Graph, blank_value, blank_op, max_values, num_ops, value_at, op_at,
}
use prospero_ai.Graph.Build.{IsGraph}
use prospero_ai.Graph.Topo.Schedule.{IsOp}
use prospero_ai.Graph.Reach.Timed.{IsTimed}
use prospero_ai.Graph.Lifetime.{
  Uses, Span, mark_ops, unmarked, value_span, value_spans, blank_span, all_spans,
}
use prospero_ai.Graph.Lifetime.Marks.{IsMarked, IsSince, HasRoom, mark_ops_marks, mark_ops-IsSince}

abbrev pub span_at : List Span → ℕ → Span
span_at spans v = get_or spans v blank_span

abbrev pub IsValue : Graph → ℕ → Type 0
IsValue g v = (0 < v) × (v < length g.values)

-- A value is live in the epoch.
abbrev pub IsLive : Span → ℕ → Type 0
IsLive s epoch = (s.start ≤ epoch) × (epoch < s.end)

-- Values are live from the epoch that produces them (a value that no operation produces names entry
-- 0, of epoch 0), and in that epoch and all that read them;
-- outputs stay to the end; and if there are operations at all, no span is empty.
pub record Covers (g : Graph) (spans : List Span) : Type 0 where
  pub sized : length spans ≡ length g.values
  pub starts :
      (v : ℕ) → IsValue g v → (span_at spans v).start ≡ (op_at g (value_at g v).producer).epoch
  pub reads :
      (o u : ℕ)
      → IsOp g o
      → occurs u (op_at g o).inputs ≢ 0
      → IsLive (span_at spans u) (op_at g o).epoch
  pub writes :
      (o v : ℕ)
      → IsOp g o
      → occurs v (op_at g o).outputs ≢ 0
      → IsLive (span_at spans v) (op_at g o).epoch × ((span_at spans v).start ≡ (op_at g o).epoch)
  pub lasts :
      (v : ℕ) → IsValue g v → (value_at g v).is_output ≡ true → (span_at spans v).end ≡ num_ops g
  pub occupied :
      0 < num_ops g → (v : ℕ) → IsValue g v → (span_at spans v).start < (span_at spans v).end

value_spans_lem :
    (g : Graph) (s : Uses) (j v : ℕ) (values : List Value)
    → j < length values
    → span_at (value_spans g s v values) j ≡ value_span g s (v + j) (get_or values j blank_value)
unfolding value_spans
value_spans_lem g s j v [] inside = absurd (omega arith)
value_spans_lem g s zero v (x ∷ rest) inside =
    ap (λ n. value_span g s n x) {x = v} {y = v + 0} (omega arith)
value_spans_lem g s (suc j) v (x ∷ rest) inside =
    value_spans_lem g s j (v + 1) rest (omega arith)
    ∙ ap (λ n. value_span g s n (get_or rest j blank_value)) {x = v + 1 + j} {y = v + suc j}
        (omega arith)

length-value_spans :
    (g : Graph) (s : Uses) (v : ℕ) (values : List Value)
    → length (value_spans g s v values) ≡ length values
unfolding value_spans
length-value_spans g s v [] = refl
length-value_spans g s v (x ∷ rest) = ap suc (length-value_spans g s (v + 1) rest)

inside_op : (ops : List Op) (o v : ℕ) → occurs v (get_or ops o blank_op).inputs ≢ 0 → o < length ops
unfolding occurs
inside_op [] o v found = absurd (found refl)
inside_op (op ∷ rest) zero v found = omega arith
inside_op (op ∷ rest) (suc o) v found = omega (arith, inside_op rest o v found)

inside_value :
    (values : List Value) (v : ℕ) → (get_or values v blank_value).producer ≢ 0 → v < length values
inside_value [] v real = absurd (real refl)
inside_value (x ∷ rest) zero real = omega arith
inside_value (x ∷ rest) (suc v) real = omega (arith, inside_value rest v real)

-- The outputs of an operation are the values that name it as their producer.
pub produced_by_op :
    (g : Graph) (w : IsGraph g) (o v : ℕ)
    → 0 < o
    → occurs v (op_at g o).outputs ≢ 0
    → ((value_at g v).producer ≡ o) × IsValue g v
produced_by_op g w o v positive found =
    let same : (value_at g v).producer ≡ o = ground (arith, w.single o v positive, found) in
    let real : (value_at g v).producer ≢ 0 = omega (arith, same, positive) in
    (same, (nonzero v real, inside_value g.values v real))
  where
    nonzero : (v : ℕ) → (value_at g v).producer ≢ 0 → 0 < v
    nonzero zero real = absurd (real w.origin)
    nonzero (suc v) real = omega arith

none_used : (n v : ℕ) → get_or (replicate n false) v false ≡ false
none_used zero v = refl
none_used (suc n) zero = refl
none_used (suc n) (suc v) = none_used n v

module _ (g : Graph) (w : IsGraph g) (t : IsTimed g) where
  uses : Uses
  uses = mark_ops (drop 1 g.ops) unmarked

  all_spans_lem :
      (v : ℕ) → IsValue g v → span_at (all_spans g) v ≡ value_span g uses v (value_at g v)
  unfolding all_spans uses
  all_spans_lem zero i = absurd (omega (arith, i))
  all_spans_lem (suc j) i =
      value_spans_lem g uses j 1 (drop 1 g.values) (omega (arith, length-drop 1 g.values, i))
      ∙ ap₂ (value_span g uses) {x = 1 + j} {y = suc j} (omega arith)
          (get_or-drop g.values j blank_value)

  room : (v : ℕ) → IsValue g v → HasRoom v unmarked
  unfolding unmarked
  room v i = omega (
    arith,
    i,
    w.few,
    length-replicate {A = ℕ} (max_values + 1) 0,
    length-replicate (max_values + 1) false,
  )

  -- The epoch that produces the value, or 0.
  start : ℕ → ℕ
  start v = if (value_at g v).producer == 0 then 0 else (op_at g (value_at g v).producer).epoch

  marked :
      (o v : ℕ) → IsOp g o → occurs v (op_at g o).inputs ≢ 0 → IsMarked v (op_at g o).epoch uses
  unfolding uses
  marked zero v i found = absurd (omega (arith, i))
  marked (suc j) v i found =
      subst (λ (p : Op). occurs v p.inputs ≢ 0 → IsMarked v p.epoch uses)
        (get_or-drop g.ops j blank_op)
        (mark_ops_marks (drop 1 g.ops) j v unmarked (room v (w.exists (suc j) v found))) found

  start-le : (o u : ℕ) → IsOp g o → occurs u (op_at g o).inputs ≢ 0 → start u ≤ (op_at g o).epoch
  unfolding start
  start-le o u i found = elim (Bool-cases ((value_at g u).producer == 0)) [
    | inl e ↦ rw e (omega arith)
    | inr e ↦ rw e (let lt = t.later o u i found (λ z. ground (arith, e, z)) in omega (arith, lt))
  ]

  since : (v : ℕ) → IsValue g v → IsSince v (start v) uses
  unfolding uses
  since v i =
      mark_ops-IsSince (drop 1 g.ops) v (start v) unmarked (room v i)
        (unfold unmarked in none_used (max_values + 1) v)
        (λ j.
          subst (λ (p : Op). occurs v p.inputs ≢ 0 → start v ≤ p.epoch)
            (sym (get_or-drop g.ops j blank_op))
            (λ found. start-le (suc j) v (omega arith, inside_op g.ops (suc j) v found) found))

  start_lem : (v : ℕ) → IsValue g v → (span_at (all_spans g) v).start ≡ start v
  unfolding value_span start
  start_lem v i =
      ap (λ s. s.start) (all_spans_lem v i)
      ∙ elim (Bool-cases ((value_at g v).producer == 0)) [ inl e ↦ rw e refl | inr e ↦ rw e refl ]

  end_lem :
      (v : ℕ)
      → IsValue g v
      → (span_at (all_spans g) v).end ≡ (
          if (value_at g v).is_output
          then num_ops g
          else if get_or uses.used v false
          then get_or uses.last_use v 0 + 1
          else start v + 1)
  unfolding value_span start
  end_lem v i =
      ap (λ s. s.end) (all_spans_lem v i)
      ∙ elim (Bool-cases ((value_at g v).producer == 0)) [ inl e ↦ rw e refl | inr e ↦ rw e refl ]

  -- The start is below the end of the execution.
  start-lt : 0 < num_ops g → (v : ℕ) → start v < num_ops g
  unfolding start
  start-lt some_op v = elim (Bool-cases ((value_at g v).producer == 0)) [
    | inl e ↦ rw e some_op
    | inr e ↦ rw e (t.bound (value_at g v).producer (ground (arith, e), w.produced v))
  ]

  start_epoch : (v : ℕ) → start v ≡ (op_at g (value_at g v).producer).epoch
  unfolding start
  start_epoch v = elim (Bool-cases ((value_at g v).producer == 0)) [
    | inl e ↦
        let zero_epoch : (op_at g (value_at g v).producer).epoch ≡ 0 =
          ap (λ p. (op_at g p).epoch) {y = 0} (ground (arith, e))
          ∙ ap (λ (p : Op). p.epoch) w.slot in
        rw e (sym zero_epoch)
    | inr e ↦ rw e refl
  ]

  -- Where the producer of a value is known.
  start_of : (o v : ℕ) → 0 < o → (value_at g v).producer ≡ o → start v ≡ (op_at g o).epoch
  unfolding start
  start_of o v positive e =
      let test : ((value_at g v).producer == 0) ≡ false = ground (arith, e, positive) in
      rw test (ap (λ p. (op_at g p).epoch) e)

  nonempty : 0 < num_ops g → (v : ℕ) → IsValue g v → start v < (span_at (all_spans g) v).end
  nonempty some_op v i = ground (arith, end_lem v i, start-lt some_op v, since v i)

  pub all_spans-Covers : Covers g (all_spans g)
  all_spans-Covers = record {
    sized =
        unfold all_spans in
        omega (
          arith,
          length-value_spans g (mark_ops (drop 1 g.ops) unmarked) 1 (drop 1 g.values),
          length-drop 1 g.values,
          w.few,
        );
    starts = λ v i. start_lem v i ∙ start_epoch v;
    reads = λ o u i found.
        let v = w.exists o u found in
        let m = marked o u i found in
        (
          omega (arith, start_lem u v, start-le o u i found),
          ground (arith, end_lem u v, m.0, m.1, t.bound o i),
        );
    writes = λ o v i found.
        let p = produced_by_op g w o v i.0 found in
        (
          (
            omega (arith, start_lem v p.1, start_of o v i.0 p.0),
            omega (arith, nonempty (omega (arith, t.bound o i)) v p.1, start_of o v i.0 p.0),
          ),
          start_lem v p.1 ∙ start_of o v i.0 p.0,
        );
    lasts = λ v i out. ground (arith, end_lem v i, out);
    occupied = λ some_op v i. omega (arith, nonempty some_op v i, start_lem v i);
  }
