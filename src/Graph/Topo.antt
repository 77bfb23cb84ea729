-- ===== src/Graph/Topo.antt =====
-- `pai_graph_topo_sort`: Kahn's algorithm over the operations.
pub mod Count
pub mod Fold
pub mod Scan
pub mod Loop
pub mod Done
pub mod Order
pub mod Schedule
use prospero_ai.Prelude.{
  ℕ, zero, suc, ◌+◌, ◌-◌, ◌%◌, ◌^◌, Bool, true, false, not, ◌&&◌, ◌||◌, List, [], ◌∷◌, ◌++◌, length,
  get_or, set, drop, ltb, ◌==◌, if◌then◌else◌,
}
use prospero_ai.Status.{Status}
use prospero_ai.Graph.Defs.{Value, Op, Graph, blank_op, num_ops, value_at, op_at}

-- The number of inputs of operation `o` that another operation produces.
unfoldable pub count_edges : Graph → (o : ℕ) → (inputs : List ℕ) → ℕ
count_edges g o [] = 0
count_edges g o (v ∷ rest) =
    let producer = (value_at g v).producer in
    (if not (producer == 0) && not (producer == o) then 1 else 0) + count_edges g o rest

-- indegree[o] from operation `o` on.
unfoldable pub indegrees : Graph → (o : ℕ) → List Op → List ℕ
unfolding count_edges
indegrees g o [] = []
indegrees g o (op ∷ rest) = count_edges g o op.inputs ∷ indegrees g (o + 1) rest

-- `indegree`, and queue[head .. tail).
pub record Kahn : Type 0 where
  pub indegree : List ℕ
  pub queue : List ℕ

-- for (o = 1; o <= num_ops; o++) if (indegree[o] == 0) queue[tail++] = o;
unfoldable pub initial_queue : (o : ℕ) → (indegree : List ℕ) → List ℕ
initial_queue o [] = []
initial_queue o (d ∷ rest) =
    let behind = initial_queue (o + 1) rest in if d == 0 then o ∷ behind else behind

-- if (--indegree[c] == 0) queue[tail++] = c;
unfoldable pub release_input : (c : ℕ) → Kahn → Kahn
release_input c k =
    let d = (get_or k.indegree c 0 + (2 ^ 32 - 1)) % 2 ^ 32 in
    record {
      indegree = set k.indegree c d;
      queue = if d == 0 then k.queue ++ (c ∷ []) else k.queue;
    }

-- for (j = 0; j < op->num_inputs; j++) if (op->inputs[j] == v && ...) ...
unfoldable pub scan_inputs : (c v : ℕ) → (inputs : List ℕ) → Kahn → Kahn
unfolding release_input
scan_inputs c v [] k = k
scan_inputs c v (u ∷ rest) k = scan_inputs c v rest (if u == v then release_input c k else k)

-- for (c = 1; c <= num_ops; c++), from operation `c` on.
unfoldable pub scan_consumers : (o v c : ℕ) → List Op → Kahn → Kahn
unfolding scan_inputs
scan_consumers o v c [] k = k
scan_consumers o v c (op ∷ rest) k =
    scan_consumers o v (c + 1) rest (if c == o then k else scan_inputs c v op.inputs k)

-- for (i = 0; i < ops[o].num_outputs; i++)
unfoldable pub scan_outputs : Graph → (o : ℕ) → (outputs : List ℕ) → Kahn → Kahn
unfolding scan_consumers
scan_outputs g o [] k = k
scan_outputs g o (v ∷ rest) k = scan_outputs g o rest (scan_consumers o v 1 (drop 1 g.ops) k)

-- while (head < tail): `order` is the operations processed so far.
unfoldable pub kahn_loop : (rounds : ℕ) → Graph → Kahn → (order : List ℕ) → Kahn × List ℕ
unfolding scan_outputs
kahn_loop zero g k order = (k, order)
kahn_loop (suc rounds) g k order = elim k.queue [
  | [] ↦ (k, order)
  | o ∷ rest ↦
      kahn_loop rounds g (scan_outputs g o (op_at g o).outputs (record k { queue = rest }))
        (order ++ (o ∷ []))
]

-- for (i = 0; i < count; i++) graph->ops[order[i]].epoch = i;
unfoldable pub set_epochs : List Op → (order : List ℕ) → (i : ℕ) → List Op
set_epochs ops [] i = ops
set_epochs ops (o ∷ rest) i =
    set_epochs (set ops o (record (get_or ops o blank_op) { epoch = i })) rest (i + 1)

unfoldable pub kahn_start : Graph → Kahn
unfolding indegrees initial_queue
kahn_start g =
    let counted = indegrees g 1 (drop 1 g.ops) in
    record { indegree = 0 ∷ counted; queue = initial_queue 1 counted }

-- Every operation is queued once at most, so there are no more rounds than operations.
unfoldable pub topo_order : Graph → List ℕ
unfolding kahn_loop kahn_start
topo_order g = (kahn_loop (num_ops g) g (kahn_start g) []).1

unfoldable pub topo_sort : Graph → Status × Graph
unfolding topo_order set_epochs
topo_sort g =
    let order = topo_order g in
    if length order == num_ops g
    then (Status.success, record g { ops = set_epochs g.ops order 0; sorted = true })
    else (Status.mismatch, record g { sorted = false })
