-- ===== src/Graph/Build.antt =====
-- The invariant of a graph that is built by the operations of the module.
use prospero_ai.Prelude.{ℕ, ◌+◌, ◌≤◌, ◌<◌, ◌≡◌, ◌≢◌, length, ◌==◌, if◌then◌else◌}
use prospero_ai.Prelude.Occurs.{occurs}
use prospero_ai.Graph.Defs.{Graph, blank_op, max_arity, max_ops, max_values, value_at, op_at}

-- Every value is an output of its producer, once, and of no other operation; inputs exist, and no
-- operation consumes what it produces.
pub record IsGraph (g : Graph) : Type 0 where
  pub slot : op_at g 0 ≡ blank_op
  pub origin : (value_at g 0).producer ≡ 0
  pub bounded : (0 < length g.ops) × (length g.ops ≤ max_ops + 1)
  pub few : (0 < length g.values) × (length g.values ≤ max_values + 1)
  pub single :
      (o v : ℕ)
      → 0 < o
      → occurs v (op_at g o).outputs ≡ (if (value_at g v).producer == o then 1 else 0)
  pub produced : (v : ℕ) → (value_at g v).producer < length g.ops
  pub arity : (o : ℕ) → length (op_at g o).inputs ≤ max_arity
  pub exists : (o v : ℕ) → occurs v (op_at g o).inputs ≢ 0 → (0 < v) × (v < length g.values)
  pub apart : (o v : ℕ) → occurs v (op_at g o).inputs ≢ 0 → (value_at g v).producer ≢ o
