-- ===== src/Graph/Topo/Done.antt =====
-- The end of the loop: the queue is empty, and with enough rounds it is reached.
use prospero_ai.Prelude.{
  ℕ, zero, suc, ◌+◌, ◌≤◌, ◌≡◌, ◌⊎◌, refl, sym, subst, inl, inr, List, [], ◌∷◌, ◌++◌, length,
  length-append, arith,
}
use prospero_ai.Graph.Defs.{Graph, num_ops, op_at}
use prospero_ai.Graph.Build.{IsGraph}
use prospero_ai.Graph.Topo.{Kahn, kahn_start, kahn_loop, scan_outputs, topo_order}
use prospero_ai.Graph.Topo.Fold.{nonzero}
use prospero_ai.Graph.Topo.Loop.{Running, Running-step, Running-start}

List-cases : (q : List ℕ) → q ≡ [] ⊎ ((o : ℕ) × ((rest : List ℕ) × (q ≡ o ∷ rest)))
List-cases [] = inl refl
List-cases (x ∷ q) = inr (x, (q, refl))

module _ (g : Graph) (w : IsGraph g) where
  abbrev Finished : Kahn × List ℕ → Type 0
  Finished r = Running g r.0 r.1 × (r.0.queue ≡ [])

  kahn_loop_stop :
      (rounds : ℕ) (k : Kahn) (order : List ℕ)
      → k.queue ≡ []
      → kahn_loop (suc rounds) g k order ≡ (k, order)
  unfolding kahn_loop
  kahn_loop_stop rounds k order e = rw e refl

  kahn_loop_next :
      (rounds : ℕ) (k : Kahn) (order : List ℕ) (o : ℕ) (rest : List ℕ)
      → k.queue ≡ o ∷ rest
      → kahn_loop (suc rounds) g k order
        ≡ kahn_loop rounds g
            (scan_outputs g o (op_at g o).outputs (record k { queue = rest }))
            (order ++ (o ∷ []))
  unfolding kahn_loop
  kahn_loop_next rounds k order o rest e = rw e refl

  -- Each round lowers the number of operations that are queued or wait.
  pub kahn_loop-Running :
      (rounds : ℕ) (k : Kahn) (order : List ℕ)
      → Running g k order
      → nonzero k.indegree + length k.queue ≤ rounds
      → Finished (kahn_loop rounds g k order)
  unfolding kahn_loop
  kahn_loop-Running zero k order r enough = (r, empty k.queue (omega arith))
    where
      empty : (q : List ℕ) → length q ≤ 0 → q ≡ []
      empty [] h = refl
      empty (x ∷ q) h = absurd (omega arith)
  kahn_loop-Running (suc rounds) k order r enough = elim (List-cases k.queue) [
    | inl e ↦ subst Finished (sym (kahn_loop_stop rounds k order e)) (r, e)
    | inr (o, (rest, e)) ↦
        let s = Running-step g w k order rest o e r in
        subst Finished (sym (kahn_loop_next rounds k order o rest e)) (
          kahn_loop-Running rounds _ (order ++ (o ∷ [])) s
            (omega (arith, s.total, r.total, length-append order (o ∷ []))))
  ]

  -- Where the sort ends.
  pub record Ended (order : List ℕ) : Type 0 where
    pub indegree : List ℕ
    pub running : Running g (record { indegree = indegree; queue = [] }) order

  pub topo_order-Ended : Ended (topo_order g)
  unfolding topo_order
  topo_order-Ended =
      let s = Running-start g w in
      let r = kahn_loop-Running (num_ops g) (kahn_start g) [] s (omega (arith, s.total)) in
      record {
        indegree = (kahn_loop (num_ops g) g (kahn_start g) []).0.indegree;
        running =
            subst
              (λ q.
                Running g
                  (record {
                    indegree = (kahn_loop (num_ops g) g (kahn_start g) []).0.indegree;
                    queue = q;
                  })
                  (kahn_loop (num_ops g) g (kahn_start g) []).1)
              r.1 r.0;
      }
