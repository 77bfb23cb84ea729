-- ===== src/Graph/Topo/Loop.antt =====
-- The invariant of the loop, and its end.
use prospero_ai.Prelude.{
  ℕ, zero, suc, ◌+◌, ◌<◌, ◌≡◌, ◌⊎◌, refl, sym, subst, ap, ap₂, ◌∙◌, ◌&&◌, inl, inr, List, [], ◌∷◌,
  ◌++◌, length, length-append, length-drop, get_or, get_or-drop, drop, ltb, ◌==◌, if◌then◌else◌,
  arith,
}
use prospero_ai.Prelude.Occurs.{occurs, occurs-append}
use native.Mathlib.Decide.{ℕ_discrete}
use mathlib.Core.List.{append-nil, append_assoc}
use prospero_ai.Graph.Defs.{Op, Graph, blank_op, op_at}
use prospero_ai.Graph.Build.{IsGraph}
use prospero_ai.Graph.Topo.{Kahn, indegrees, initial_queue, kahn_start, scan_outputs}
use prospero_ai.Graph.Topo.Count.{
  waiting, waiting-le-length, waiting-start, waiting-step, produced_by,
}
use prospero_ai.Graph.Topo.Fold.{nonzero, inside_of_positive, Released, release_all-Released}
use prospero_ai.Graph.Topo.Scan.{output_commands, scan_outputs_lem, output_commands_lem}

-- Each operation of the order waits for nothing but what stands before it.
unfoldable pub Ordered : Graph → (before : List ℕ) → List ℕ → Type 0
Ordered g before [] = Unit
Ordered g before (o ∷ rest) =
    (waiting g before o (op_at g o).inputs ≡ 0) × Ordered g (before ++ (o ∷ [])) rest

pub Ordered-append :
    (g : Graph) (before xs : List ℕ) (o : ℕ)
    → Ordered g before xs
    → waiting g (before ++ xs) o (op_at g o).inputs ≡ 0
    → Ordered g before (xs ++ (o ∷ []))
unfolding Ordered
Ordered-append g before [] o h ready =
    (subst (λ b. waiting g b o (op_at g o).inputs ≡ 0) (append-nil before) ready, tt)
Ordered-append g before (x ∷ xs) o (hx, h) ready = (
  hx,
  Ordered-append g (before ++ (x ∷ [])) xs o h (
      subst (λ b. waiting g b o (op_at g o).inputs ≡ 0) (sym (append_assoc before (x ∷ []) xs))
        ready),
)

pub record Running (g : Graph) (k : Kahn) (order : List ℕ) : Type 0 where
  pub sized : length k.indegree ≡ length g.ops
  pub counts : (c : ℕ) → get_or k.indegree c 0 ≡ waiting g order c (op_at g c).inputs
  pub ready :
      (c : ℕ)
      → occurs c order + occurs c k.queue
        ≡ (if ltb 0 c && (ltb c (length g.ops) && get_or k.indegree c 0 == 0) then 1 else 0)
  pub total : nonzero k.indegree + (length order + length k.queue) + 1 ≡ length g.ops
  pub sorted : Ordered g [] order

waiting_slot : (g : Graph) (done : List ℕ) → IsGraph g → waiting g done 0 (op_at g 0).inputs ≡ 0
unfolding waiting
waiting_slot g done w = ap (λ (p : Op). waiting g done 0 p.inputs) w.slot

module _ (g : Graph) (w : IsGraph g) (k : Kahn) (order rest : List ℕ) (o : ℕ)
    (head : k.queue ≡ o ∷ rest) (r : Running g k order) where
  abbrev pub next : Kahn
  next = scan_outputs g o (op_at g o).outputs (record k { queue = rest })

  abbrev commands : List ℕ
  commands = output_commands g o (op_at g o).outputs

  -- The head of the queue is an operation that waits for nothing and was not processed.
  queued : (c : ℕ) → occurs c k.queue ≡ (if o == c then 1 else 0) + occurs c rest
  queued c = ap (occurs c) head ∙ unfold occurs in refl

  fresh : (0 < o) × (get_or k.indegree o 0 ≡ 0) × (occurs o order ≡ 0) × (occurs o rest ≡ 0)
  fresh = ground (arith, r.ready o, queued o)

  taken : (c : ℕ) → occurs c commands ≡ (if c == o then 0 else produced_by g o (op_at g c).inputs)
  taken c = output_commands_lem g o c (op_at g o).outputs (λ v. w.single o v fresh.0) w.slot

  less :
      (c : ℕ)
      → get_or k.indegree c 0
        ≡ waiting g (order ++ (o ∷ [])) c (op_at g c).inputs + occurs c commands
  less c = omega (
    arith,
    r.counts c,
    taken c,
    waiting-step g order o c (op_at g c).inputs (λ e. omega (arith, fresh.0)) fresh.2,
  )

  released : Released commands (record k { queue = rest }) next
  released =
      subst (λ n. Released commands (record k { queue = rest }) n)
        (sym (scan_outputs_lem g o (op_at g o).outputs (record k { queue = rest })))
        (release_all-Released commands (record k { queue = rest })
          (λ c. (
            omega (arith, less c),
            omega (arith, r.counts c, waiting-le-length g order c (op_at g c).inputs, w.arity c),
          )))

  pub Running-step : Running g next (order ++ (o ∷ []))
  Running-step = record {
    sized = released.sized ∙ r.sized;
    counts = λ c. omega (arith, released.counts c, less c);
    ready = λ c. ground (
      arith,
      r.ready c,
      queued c,
      less c,
      released.joins c,
      released.counts c,
      occurs-append c order (o ∷ []),
      occurs_one c,
      placed c,
    );
    total = omega (arith, r.total, released.steady, length-append order (o ∷ []), ap length head);
    sorted = Ordered-append g [] order o r.sorted (sym (r.counts o) ∙ fresh.1);
  }
    where
      occurs_one : (c : ℕ) → occurs c (o ∷ []) ≡ (if o == c then 1 else 0)
      occurs_one c = unfold occurs in ground arith

      placed : (c : ℕ) → get_or k.indegree c 0 ≡ 0 ⊎ ((0 < c) × (c < length g.ops))
      placed zero = inl (r.counts 0 ∙ waiting_slot g order w)
      placed (suc j) = elim (ℕ_discrete (get_or k.indegree (suc j) 0) 0) [
        | yes e ↦ inl e
        | no ne ↦
            inr (omega arith, omega (arith, inside_of_positive k.indegree (suc j) ne, r.sized))
      ]

-- The start.
indegrees_lem :
    (g : Graph) (j o : ℕ) (ops : List Op)
    → get_or (indegrees g o ops) j 0 ≡ waiting g [] (o + j) (get_or ops j blank_op).inputs
unfolding indegrees
indegrees_lem g j o [] = unfold waiting in refl
indegrees_lem g zero o (op ∷ rest) =
    waiting-start g o op.inputs
    ∙ ap (λ c. waiting g [] c op.inputs) {x = o} {y = o + 0} (omega arith)
indegrees_lem g (suc j) o (op ∷ rest) =
    indegrees_lem g j (o + 1) rest
    ∙ ap (λ c. waiting g [] c (get_or rest j blank_op).inputs) {x = o + 1 + j} {y = o + suc j}
        (omega arith)

length-indegrees : (g : Graph) (o : ℕ) (ops : List Op) → length (indegrees g o ops) ≡ length ops
unfolding indegrees
length-indegrees g o [] = refl
length-indegrees g o (op ∷ rest) = ap suc (length-indegrees g (o + 1) rest)

queue-before : (k o : ℕ) (counts : List ℕ) → k < o → occurs k (initial_queue o counts) ≡ 0
unfolding initial_queue occurs
queue-before k o [] lt = refl
queue-before k o (d ∷ rest) lt = ground (arith, queue-before k (o + 1) rest (omega arith))

queue_lem :
    (j o : ℕ) (counts : List ℕ)
    → occurs (o + j) (initial_queue o counts)
      ≡ (if ltb j (length counts) && get_or counts j 0 == 0 then 1 else 0)
unfolding initial_queue occurs
queue_lem j o [] = ground arith
queue_lem zero o (d ∷ rest) = ground (arith, queue-before (o + 0) (o + 1) rest (omega arith))
queue_lem (suc j) o (d ∷ rest) =
    let shifted : occurs (o + suc j) (initial_queue (o + 1) rest)
        ≡ (if ltb j (length rest) && get_or rest j 0 == 0 then 1 else 0) =
      subst
        (λ k.
          occurs k (initial_queue (o + 1) rest)
          ≡ (if ltb j (length rest) && get_or rest j 0 == 0 then 1 else 0))
        {x = o + 1 + j} {y = o + suc j} (omega arith) (queue_lem j (o + 1) rest) in
    ground (arith, shifted)

queue_total :
    (o : ℕ) (counts : List ℕ) → nonzero counts + length (initial_queue o counts) ≡ length counts
unfolding initial_queue nonzero
queue_total o [] = refl
queue_total o (d ∷ rest) = ground (arith, queue_total (o + 1) rest)

module _ (g : Graph) (w : IsGraph g) where
  abbrev counted : List ℕ
  counted = indegrees g 1 (drop 1 g.ops)

  length-counted : length counted + 1 ≡ length g.ops
  length-counted =
      omega (arith, length-indegrees g 1 (drop 1 g.ops), length-drop 1 g.ops, w.bounded)

  pub Running-start : Running g (kahn_start g) []
  unfolding kahn_start
  Running-start = record {
    sized = omega (arith, length-counted);
    counts = starts;
    ready = readies;
    total = unfold nonzero in omega (arith, queue_total 1 counted, length-counted);
    sorted = unfold Ordered in tt;
  }
    where
      starts : (c : ℕ) → get_or (0 ∷ counted) c 0 ≡ waiting g [] c (op_at g c).inputs
      starts zero = sym (waiting_slot g [] w)
      starts (suc j) =
          indegrees_lem g j 1 (drop 1 g.ops)
          ∙ ap₂ (λ c (p : Op). waiting g [] c p.inputs) {y = suc j} (omega arith)
              (get_or-drop g.ops j blank_op)

      readies :
          (c : ℕ)
          → occurs c [] + occurs c (initial_queue 1 counted)
            ≡ (if ltb 0 c && (ltb c (length g.ops) && get_or (0 ∷ counted) c 0 == 0) then 1 else 0)
      readies zero = unfold occurs in omega (arith, queue-before 0 1 counted (omega arith))
      readies (suc j) =
          let queue : occurs (suc j) (initial_queue 1 counted)
              ≡ (if ltb j (length counted) && get_or counted j 0 == 0 then 1 else 0) =
            subst
              (λ k.
                occurs k (initial_queue 1 counted)
                ≡ (if ltb j (length counted) && get_or counted j 0 == 0 then 1 else 0))
              {x = 1 + j} {y = suc j} (omega arith) (queue_lem j 1 counted) in
          unfold occurs in ground (arith, queue, length-counted)
