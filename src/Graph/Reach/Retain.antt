-- ===== src/Graph/Reach/Retain.antt =====
-- Calls that leave the edges of the graph as they are.
use prospero_ai.Prelude.{
  ℕ, zero, suc, ◌+◌, ◌≤◌, ◌<◌, ◌≡◌, refl, sym, ap, ◌∙◌, Bool, true, false, inl, inr, Bool-cases,
  Option, none, some, List, [], ◌∷◌, ◌++◌, length, length-append, length-set, get_or, set, ◌==◌,
  arith,
}
use prospero_ai.Prelude.Occurs.{occurs}
use prospero_ai.Status.{Status, Result, ok, err}
use prospero_ai.Tensor.Element.{Dtype}
use prospero_ai.Tensor.{contiguous_size}
use prospero_ai.Graph.Defs.{
  Value, Op, Graph, max_values, num_values, new_value, value_rejected, blank_value, blank_op,
  num_ops, value_at, op_at, bad_value, graph_init, add_value, set_input, set_output,
}
use prospero_ai.Graph.Build.{IsGraph}
use prospero_ai.Graph.Topo.{set_epochs, topo_order, topo_sort}
use prospero_ai.Graph.Topo.Done.{topo_order-Ended}
use prospero_ai.Graph.Topo.Order.{length-set_epochs, set_epochs_elsewhere}

pub graph_init-IsGraph : IsGraph graph_init
unfolding graph_init occurs
graph_init-IsGraph = record {
  slot = refl;
  origin = refl;
  bounded = omega arith;
  few = omega arith;
  single = λ o v positive.
      ground (
        arith,
        positive,
        ap (λ p. occurs v p.outputs) (no_op o),
        ap (λ p. p.producer) (no_value v),
      );
  produced = λ v. omega (arith, ap (λ p. p.producer) (no_value v));
  arity = λ o. omega (arith, ap (λ p. length p.inputs) (no_op o));
  exists = λ o v found. absurd (found (ap (λ p. occurs v p.inputs) (no_op o)));
  apart = λ o v found. absurd (found (ap (λ p. occurs v p.inputs) (no_op o)));
}
  where
    no_op : (o : ℕ) → get_or (blank_op ∷ []) o blank_op ≡ blank_op
    no_op zero = refl
    no_op (suc o) = refl

    no_value : (v : ℕ) → get_or (blank_value ∷ []) v blank_value ≡ blank_value
    no_value zero = refl
    no_value (suc v) = refl

-- New values with the same producers.
IsGraph-values :
    (g : Graph) (values : List Value)
    → IsGraph g
    → length g.values ≤ length values
    → length values ≤ max_values + 1
    → ((v : ℕ) → (get_or values v blank_value).producer ≡ (value_at g v).producer)
    → IsGraph (record g { values = values })
IsGraph-values g values w longer fewer same = record {
  slot = w.slot;
  origin = same 0 ∙ w.origin;
  bounded = w.bounded;
  few = (omega (arith, longer, w.few), fewer);
  single = λ o v positive. ground (arith, w.single o v positive, same v);
  produced = λ v. omega (arith, w.produced v, same v);
  arity = w.arity;
  exists = λ o v found. ((w.exists o v found).0, omega (arith, longer, (w.exists o v found).1));
  apart = λ o v found e. w.apart o v found (sym (same v) ∙ e);
}

pub producer-append :
    (values : List Value) (new : Value) (v : ℕ)
    → new.producer ≡ 0
    → (get_or (values ++ (new ∷ [])) v blank_value).producer
      ≡ (get_or values v blank_value).producer
producer-append [] new zero h = h
producer-append [] new (suc v) h = refl
producer-append (x ∷ values) new zero h = refl
producer-append (x ∷ values) new (suc v) h = producer-append values new v h

pub producer-set :
    (values : List Value) (u : ℕ) (new : Value) (v : ℕ)
    → new.producer ≡ (get_or values u blank_value).producer
    → (get_or (set values u new) v blank_value).producer ≡ (get_or values v blank_value).producer
producer-set [] u new v h = refl
producer-set (x ∷ values) zero new zero h = h
producer-set (x ∷ values) zero new (suc v) h = refl
producer-set (x ∷ values) (suc u) new zero h = refl
producer-set (x ∷ values) (suc u) new (suc v) h = producer-set values u new v h

pub result_either :
    {A B : Type 0} (P : B → Type 0) (r : Result A) (f : A → B) (h : Status → B)
    → ((a : A) → P (f a))
    → ((e : Status) → P (h e))
    → P (elim r as (λ r. B) [ ok a ↦ f a | err e ↦ h e ])
result_either P (ok a) f h hf hh = hf a
result_either P (err e) f h hf hh = hh e

value_rejected_room :
    (g : Graph) (shape : List ℕ) (align : ℕ)
    → value_rejected g shape align ≡ false
    → num_values g < max_values
unfolding value_rejected
value_rejected_room g shape align e = ground (arith, e)

pub add_value-IsGraph :
    (g : Graph) (dtype : Dtype) (shape : Option (List ℕ)) (align : ℕ)
    → IsGraph g
    → IsGraph (add_value g dtype shape align).0
unfolding add_value
add_value-IsGraph g dtype none align w = w
add_value-IsGraph g dtype (some shape) align w = elim (Bool-cases (value_rejected g shape align)) [
  | inl e ↦ rw e w
  | inr e ↦ rw e (
      result_either (λ (r : Graph × ℕ). IsGraph r.0) (contiguous_size dtype (some shape) true)
        (λ bytes. (grown bytes, num_values g + 1)) (λ st. (g, 0))
        (λ bytes.
          IsGraph-values g (grown bytes).values w
            (omega (arith, length-append g.values (new_value dtype shape align bytes ∷ [])))
            (ground (
              arith,
              value_rejected_room g shape align e,
              w.few,
              length-append g.values (new_value dtype shape align bytes ∷ []),
            ))
            (λ v. producer-append g.values (new_value dtype shape align bytes) v refl))
        (λ st. w))
]
  where
    grown : ℕ → Graph
    grown bytes = record g { values = g.values ++ (new_value dtype shape align bytes ∷ []) }

set_flag-IsGraph :
    (g : Graph) (u : ℕ) (new : Value)
    → new.producer ≡ (value_at g u).producer
    → IsGraph g
    → IsGraph (record g { values = set g.values u new })
set_flag-IsGraph g u new h w =
    IsGraph-values g (set g.values u new) w (omega (arith, length-set g.values u new))
      (omega (arith, length-set g.values u new, w.few)) (λ v. producer-set g.values u new v h)

pub set_input-IsGraph : (g : Graph) (v : ℕ) → IsGraph g → IsGraph (set_input g v)
unfolding set_input
set_input-IsGraph g v w = elim (Bool-cases (bad_value g v)) [
  | inl e ↦ rw e w
  | inr e ↦ rw e (set_flag-IsGraph g v _ refl w)
]

pub set_output-IsGraph : (g : Graph) (v : ℕ) → IsGraph g → IsGraph (set_output g v)
unfolding set_output
set_output-IsGraph g v w = elim (Bool-cases (bad_value g v)) [
  | inl e ↦ rw e w
  | inr e ↦ rw e (set_flag-IsGraph g v _ refl w)
]

-- New operations with the same inputs and outputs.
IsGraph-ops :
    (g : Graph) (ops : List Op) (sorted : Bool)
    → IsGraph g
    → length ops ≡ length g.ops
    → get_or ops 0 blank_op ≡ blank_op
    → ((o : ℕ)
        → ((get_or ops o blank_op).inputs ≡ (op_at g o).inputs)
          × ((get_or ops o blank_op).outputs ≡ (op_at g o).outputs))
    → IsGraph (record g { ops = ops; sorted = sorted })
IsGraph-ops g ops sorted w sized slot same = record {
  slot = slot;
  origin = w.origin;
  bounded = omega (arith, sized, w.bounded);
  few = w.few;
  single = λ o v positive. ap (occurs v) (same o).1 ∙ w.single o v positive;
  produced = λ v. omega (arith, sized, w.produced v);
  arity = λ o. omega (arith, ap length (same o).0, w.arity o);
  exists = λ o v found. w.exists o v (λ gone. found (ap (occurs v) (same o).0 ∙ gone));
  apart = λ o v found. w.apart o v (λ gone. found (ap (occurs v) (same o).0 ∙ gone));
}

set_epochs_edges :
    (ops : List Op) (order : List ℕ) (i c : ℕ)
    → ((get_or (set_epochs ops order i) c blank_op).inputs ≡ (get_or ops c blank_op).inputs)
      × ((get_or (set_epochs ops order i) c blank_op).outputs ≡ (get_or ops c blank_op).outputs)
unfolding set_epochs
set_epochs_edges ops [] i c = (refl, refl)
set_epochs_edges ops (o ∷ rest) i c =
    let step =
      set_epochs_edges (set ops o (record (get_or ops o blank_op) { epoch = i })) rest (i + 1) c in
    let here = one ops o c in (step.0 ∙ here.0, step.1 ∙ here.1)
  where
    one :
        (ops : List Op) (o c : ℕ)
        → ((get_or (set ops o (record (get_or ops o blank_op) { epoch = i })) c blank_op).inputs
            ≡ (get_or ops c blank_op).inputs)
          × ((get_or (set ops o (record (get_or ops o blank_op) { epoch = i })) c blank_op).outputs
              ≡ (get_or ops c blank_op).outputs)
    one [] o c = (refl, refl)
    one (x ∷ ops) zero zero = (refl, refl)
    one (x ∷ ops) zero (suc c) = (refl, refl)
    one (x ∷ ops) (suc o) zero = (refl, refl)
    one (x ∷ ops) (suc o) (suc c) = one ops o c

pub topo_sort-IsGraph : (g : Graph) → IsGraph g → IsGraph (topo_sort g).1
unfolding topo_sort
topo_sort-IsGraph g w = elim (Bool-cases (length (topo_order g) == num_ops g)) [
  | inl e ↦ rw e (
      IsGraph-ops g (set_epochs g.ops (topo_order g) 0) true w
        (length-set_epochs g.ops (topo_order g) 0)
        (set_epochs_elsewhere g.ops 0 (topo_order g) 0 slot_left ∙ w.slot)
        (set_epochs_edges g.ops (topo_order g) 0))
  | inr e ↦ rw e (IsGraph-ops g g.ops false w refl w.slot (λ o. (refl, refl)))
]
  where
    slot_left : occurs 0 (topo_order g) ≡ 0
    slot_left = omega (arith, (topo_order-Ended g w).running.ready 0)
