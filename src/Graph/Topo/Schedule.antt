-- ===== src/Graph/Topo/Schedule.antt =====
-- What the sort promises: the epochs respect the edges, and it succeeds on every graph without a
-- cycle.
use prospero_ai.Prelude.{
  ℕ, zero, suc, ◌<◌, ◌≡◌, ◌≢◌, ◌⊎◌, refl, sym, subst, ap, ◌∙◌, true, false, inl, inr, List, [], ◌∷◌,
  length, get_or, ◌==◌, arith,
}
use prospero_ai.Prelude.Occurs.{occurs}
use native.Mathlib.Decide.{ℕ_discrete}
use prospero_ai.Status.{Status}
use prospero_ai.Graph.Defs.{Op, Graph, blank_op, num_ops, value_at, op_at}
use prospero_ai.Graph.Build.{IsGraph}
use prospero_ai.Graph.Topo.{set_epochs, topo_order, topo_sort}
use prospero_ai.Graph.Topo.Count.{waiting}
use prospero_ai.Graph.Topo.Fold.{nonzero}
use prospero_ai.Graph.Topo.Done.{topo_order-Ended}
use prospero_ai.Graph.Topo.Order.{
  position, position-lt, position-injective, Ordered-position, length-set_epochs, set_epochs_lem,
}

all_zero : (xs : List ℕ) (i : ℕ) → nonzero xs ≡ 0 → get_or xs i 0 ≡ 0
unfolding nonzero
all_zero [] i h = refl
all_zero (d ∷ rest) zero h = ground (arith, h)
all_zero (d ∷ rest) (suc i) h = all_zero rest i (ground (arith, h))

none_nonzero : (xs : List ℕ) → ((i : ℕ) → get_or xs i 0 ≡ 0) → nonzero xs ≡ 0
unfolding nonzero
none_nonzero [] h = refl
none_nonzero (d ∷ rest) h = ground (arith, h 0, none_nonzero rest (λ i. h (suc i)))

none_waiting :
    (g : Graph) (done : List ℕ) (c : ℕ) (inputs : List ℕ)
    → ((u : ℕ)
        → occurs u inputs ≢ 0
        → (value_at g u).producer ≢ 0
        → occurs (value_at g u).producer done ≢ 0)
    → waiting g done c inputs ≡ 0
unfolding waiting
none_waiting g done c [] h = refl
none_waiting g done c (u ∷ rest) h = ground (
  arith,
  h u (unfold occurs in ground arith),
  none_waiting g done c rest (λ v found. h v (unfold occurs in ground (arith, found))),
)

-- The operation numbers of a graph.
abbrev pub IsOp : Graph → ℕ → Type 0
IsOp g o = (0 < o) × (o < length g.ops)

-- The same graph with epochs: each below the number of operations, no two the same, and each later
-- than those of the producers of the operation's inputs.
pub record Scheduled (g h : Graph) : Type 0 where
  pub same : (h.values ≡ g.values) × ((length h.ops ≡ length g.ops) × (h.sorted ≡ true))
  pub kept : (o : ℕ) → IsOp g o → op_at h o ≡ record (op_at g o) { epoch = (op_at h o).epoch }
  pub bound : (o : ℕ) → IsOp g o → (op_at h o).epoch < num_ops g
  pub distinct : (o p : ℕ) → IsOp g o → IsOp g p → (op_at h o).epoch ≡ (op_at h p).epoch → o ≡ p
  pub later :
      (o u : ℕ)
      → IsOp g o
      → occurs u (op_at g o).inputs ≢ 0
      → (value_at g u).producer ≢ 0
      → (op_at h (value_at g u).producer).epoch < (op_at h o).epoch

module _ (g : Graph) (w : IsGraph g) where
  once : length (topo_order g) ≡ num_ops g → (o : ℕ) → IsOp g o → occurs o (topo_order g) ≡ 1
  unfolding occurs
  once full o (positive, inside) =
      let e = topo_order-Ended g w in
      ground
        (arith, e.running.ready o, all_zero e.indegree o (ground (arith, e.running.total, full)))

  scheduled :
      length (topo_order g) ≡ num_ops g
      → Scheduled g (record g { ops = set_epochs g.ops (topo_order g) 0; sorted = true })
  scheduled full = record {
    same = (refl, (length-set_epochs g.ops (topo_order g) 0, refl));
    kept = λ o i. found o i ∙ ap (λ n. record (op_at g o) { epoch = n }) (sym (epoch o i));
    bound = λ o i. omega (arith, epoch o i, position-lt o (topo_order g) (listed o i), full);
    distinct = λ o p i j e.
        position-injective o p (topo_order g) (listed o i) (listed p j)
          (sym (epoch o i) ∙ e ∙ epoch p j);
    later = λ o u i in_list real.
        elim (Ordered-position g o u [] (topo_order g) (topo_order-Ended g w).running.sorted
          (listed o i) in_list real (w.apart o u in_list)) [
            | inl none_before ↦ absurd (none_before (unfold occurs in refl))
            | inr lt ↦ omega (
              arith,
              lt,
              epoch o i,
              epoch (value_at g u).producer (omega (arith, real), w.produced u),
            )
          ];
  }
    where
      found :
          (o : ℕ)
          → IsOp g o
          → get_or (set_epochs g.ops (topo_order g) 0) o blank_op
            ≡ record (op_at g o) { epoch = position o (topo_order g) }
      found o i =
          set_epochs_lem g.ops o (topo_order g) 0 i.1 (once full o i)
          ∙ ap (λ n. record (op_at g o) { epoch = n }) {y = position o (topo_order g)} (omega arith)

      epoch :
          (o : ℕ)
          → IsOp g o
          → (get_or (set_epochs g.ops (topo_order g) 0) o blank_op).epoch
            ≡ position o (topo_order g)
      epoch o i = ap (λ (p : Op). p.epoch) (found o i)

      listed : (o : ℕ) → IsOp g o → occurs o (topo_order g) ≢ 0
      listed o i = λ gone. omega (arith, gone, once full o i)

  -- On a graph without a cycle no operation is left waiting.
  no_wait :
      (rank : ℕ → ℕ)
      → ((o u : ℕ)
          → occurs u (op_at g o).inputs ≢ 0
          → (value_at g u).producer ≢ 0
          → rank (value_at g u).producer < rank o)
      → (n c : ℕ) → rank c < n
      → get_or (topo_order-Ended g w).indegree c 0 ≡ 0
  unfolding occurs
  no_wait rank falls zero c lt = absurd (omega arith)
  no_wait rank falls (suc n) c lt =
      let e = topo_order-Ended g w in
      e.running.counts c
      ∙ none_waiting g (topo_order g) c (op_at g c).inputs (λ u in_list real gone.
        let p : ℕ = (value_at g u).producer in
        ground (
          arith,
          gone,
          real,
          e.running.ready p,
          w.produced u,
          no_wait rank falls n p (omega (arith, lt, falls c u in_list real)),
        ))

  all_processed :
      (rank : ℕ → ℕ)
      → ((o u : ℕ)
          → occurs u (op_at g o).inputs ≢ 0
          → (value_at g u).producer ≢ 0
          → rank (value_at g u).producer < rank o)
      → length (topo_order g) ≡ num_ops g
  all_processed rank falls =
      let e = topo_order-Ended g w in
      omega (
        arith,
        e.running.total,
        none_nonzero e.indegree (λ c. no_wait rank falls (suc (rank c)) c (omega arith)),
      )

unfoldable pub sorted_graph : Graph → Graph
sorted_graph g = record g { ops = set_epochs g.ops (topo_order g) 0; sorted = true }

pub topo_sort_outcome :
    (g : Graph)
    → (length (topo_order g) ≡ num_ops g × (topo_sort g ≡ (Status.success, sorted_graph g)))
      ⊎ (length (topo_order g) ≢ num_ops g
          × (topo_sort g ≡ (Status.mismatch, record g { sorted = false })))
unfolding topo_sort sorted_graph
topo_sort_outcome g = elim (ℕ_discrete (length (topo_order g)) (num_ops g)) [
  | yes e ↦
      let test : (length (topo_order g) == num_ops g) ≡ true = ground (arith, e) in
      inl (e, rw test refl)
  | no ne ↦
      let test : (length (topo_order g) == num_ops g) ≡ false = ground (arith, ne) in
      inr (ne, rw test refl)
]

-- Sorting a well-formed graph, when it reports success, leaves the values and the operations as they
-- were but for the epochs: these are below the number of operations, no two are the same, and an
-- operation's is later than those of the operations that produce its inputs.
pub topo_sort_sound :
    (g : Graph) → IsGraph g → (topo_sort g).0 ≡ Status.success → Scheduled g (topo_sort g).1
unfolding sorted_graph
topo_sort_sound g w success = elim (topo_sort_outcome g) [
  | inl (full, e) ↦ subst (λ r. Scheduled g r.1) (sym e) (scheduled g w full)
  | inr (short, e) ↦ absurd (cc (success, ap (λ r. r.0) e))
]

-- Sorting a well-formed graph reports success when the operations can be ranked such that each one
-- ranks above the producers of its inputs, which is to say that there is no cycle.
pub topo_sort_complete :
    (g : Graph)
    → IsGraph g
    → (rank : ℕ → ℕ)
    → ((o u : ℕ)
        → occurs u (op_at g o).inputs ≢ 0
        → (value_at g u).producer ≢ 0
        → rank (value_at g u).producer < rank o)
    → (topo_sort g).0 ≡ Status.success
topo_sort_complete g w rank falls = elim (topo_sort_outcome g) [
  | inl (full, e) ↦ ap (λ r. r.0) e
  | inr (short, e) ↦ absurd (short (all_processed g w rank falls))
]
