-- ===== src/Graph/Reach/Timed.antt =====
-- The epochs of a graph that is marked as sorted.
use prospero_ai.Prelude.{
  ℕ, ◌+◌, ◌<◌, ◌≡◌, ◌≢◌, refl, sym, subst, ap, ◌∙◌, true, inl, inr, Bool-cases, Option, none, some,
  List, [], ◌∷◌, ◌++◌, get_or, arith,
}
use prospero_ai.Prelude.Occurs.{occurs}
use prospero_ai.Status.{Status}
use prospero_ai.Tensor.Element.{Dtype}
use prospero_ai.Tensor.{contiguous_size}
use prospero_ai.Graph.Defs.{
  Value, Graph, num_values, new_value, value_rejected, blank_value, num_ops, value_at, op_at,
  bad_value, op_rejected, graph_init, add_value, add_op, set_input, set_output,
}
use prospero_ai.Graph.Build.{IsGraph}
use prospero_ai.Graph.Topo.{topo_sort}
use prospero_ai.Graph.Topo.Schedule.{IsOp, Scheduled, topo_sort_sound, topo_sort_outcome}
use prospero_ai.Graph.Reach.Retain.{producer-append, producer-set, result_either}

pub record IsTimed (g : Graph) : Type 0 where
  pub bound : (o : ℕ) → IsOp g o → (op_at g o).epoch < num_ops g
  pub later :
      (o u : ℕ)
      → IsOp g o
      → occurs u (op_at g o).inputs ≢ 0
      → (value_at g u).producer ≢ 0
      → (op_at g (value_at g u).producer).epoch < (op_at g o).epoch

pub Scheduled-IsTimed : (g h : Graph) → Scheduled g h → IsTimed h
Scheduled-IsTimed g h s = record {
  bound = λ o i. omega (arith, s.bound o (back o i), s.same.1.0);
  later = λ o u i found real.
      subst (λ p. (op_at h p).epoch < (op_at h o).epoch) (sym (named u))
        (s.later o u (back o i)
          (λ gone. found (ap (λ p. occurs u p.inputs) (s.kept o (back o i)) ∙ gone))
          (λ gone. real (named u ∙ gone)));
}
  where
    back : (o : ℕ) → IsOp h o → IsOp g o
    back o i = omega (arith, i, s.same.1.0)

    named : (u : ℕ) → (value_at h u).producer ≡ (value_at g u).producer
    named u = ap (λ vs. (get_or vs u blank_value).producer) s.same.0

-- New values with the same producers.
IsTimed-values :
    (g : Graph) (values : List Value)
    → ((v : ℕ) → (get_or values v blank_value).producer ≡ (value_at g v).producer)
    → IsTimed g
    → IsTimed (record g { values = values })
IsTimed-values g values same t = record {
  bound = t.bound;
  later = λ o u i found real.
      subst (λ p. (op_at g p).epoch < (op_at g o).epoch) (sym (same u))
        (t.later o u i found (λ gone. real (same u ∙ gone)));
}

-- What a call keeps: the epochs are right if the graph is marked as sorted.
abbrev pub MarkedTimed : Graph → Type 0
MarkedTimed g = g.sorted ≡ true → IsTimed g

pub graph_init-MarkedTimed : MarkedTimed graph_init
unfolding graph_init
graph_init-MarkedTimed e = cc

pub add_value-MarkedTimed :
    (g : Graph) (dtype : Dtype) (shape : Option (List ℕ)) (align : ℕ)
    → MarkedTimed g
    → MarkedTimed (add_value g dtype shape align).0
unfolding add_value
add_value-MarkedTimed g dtype none align m = m
add_value-MarkedTimed g dtype (some shape) align m =
    elim (Bool-cases (value_rejected g shape align)) [
      | inl e ↦ rw e m
      | inr e ↦ rw e (
          result_either (λ (r : Graph × ℕ). MarkedTimed r.0)
            (contiguous_size dtype (some shape) true) (λ bytes. (grown bytes, num_values g + 1))
            (λ st. (g, 0))
            (λ bytes marked.
              IsTimed-values g (grown bytes).values
                (λ v. producer-append g.values (new_value dtype shape align bytes) v refl)
                (m marked))
            (λ st. m))
    ]
  where
    grown : ℕ → Graph
    grown bytes = record g { values = g.values ++ (new_value dtype shape align bytes ∷ []) }

pub add_op-MarkedTimed :
    (g : Graph) (kind : ℕ) (inputs outputs : Option (List ℕ))
    → MarkedTimed g
    → MarkedTimed (add_op g kind inputs outputs).0
unfolding add_op
add_op-MarkedTimed g kind none outputs m = m
add_op-MarkedTimed g kind (some inputs) none m = m
add_op-MarkedTimed g kind (some inputs) (some outputs) m =
    elim (Bool-cases (op_rejected g inputs outputs)) [
      | inl e ↦ rw e m
      | inr e ↦ rw e (λ marked. cc)
    ]

pub set_input-MarkedTimed : (g : Graph) (v : ℕ) → MarkedTimed g → MarkedTimed (set_input g v)
unfolding set_input
set_input-MarkedTimed g v m = elim (Bool-cases (bad_value g v)) [
  | inl e ↦ rw e m
  | inr e ↦ rw e (λ marked. IsTimed-values g _ (λ u. producer-set g.values v _ u refl) (m marked))
]

pub set_output-MarkedTimed : (g : Graph) (v : ℕ) → MarkedTimed g → MarkedTimed (set_output g v)
unfolding set_output
set_output-MarkedTimed g v m = elim (Bool-cases (bad_value g v)) [
  | inl e ↦ rw e m
  | inr e ↦ rw e (λ marked. IsTimed-values g _ (λ u. producer-set g.values v _ u refl) (m marked))
]

pub topo_sort-IsTimed :
    (g : Graph) → IsGraph g → (topo_sort g).0 ≡ Status.success → IsTimed (topo_sort g).1
topo_sort-IsTimed g w success = Scheduled-IsTimed g (topo_sort g).1 (topo_sort_sound g w success)

pub topo_sort-MarkedTimed : (g : Graph) → IsGraph g → MarkedTimed (topo_sort g).1
topo_sort-MarkedTimed g w = elim (topo_sort_outcome g) [
  | inl (full, e) ↦ λ marked. topo_sort-IsTimed g w (ap (λ r. r.0) e)
  | inr (short, e) ↦ λ marked. absurd (cc (marked, ap (λ r. r.1.sorted) e))
]
