-- ===== src/Graph/Topo/Scan.antt =====
-- The loops over the consumers of an operation are a run of decrements, one for each input that the
-- operation produces.
use prospero_ai.Prelude.{
  ℕ, zero, suc, ◌+◌, ◌<◌, ◌≡◌, refl, sym, subst, ap, ap₂, ◌∙◌, inl, inr, Bool-cases, List, [], ◌∷◌,
  ◌++◌, get_or, get_or-drop, drop, ◌==◌, if◌then◌else◌, arith,
}
use prospero_ai.Prelude.Occurs.{occurs, occurs-append}
use prospero_ai.Graph.Defs.{Op, Graph, blank_op, value_at, op_at}
use prospero_ai.Graph.Topo.{Kahn, release_input, scan_inputs, scan_consumers, scan_outputs}
use prospero_ai.Graph.Topo.Count.{produced_by}
use prospero_ai.Graph.Topo.Fold.{release_all, release_all-append}

unfoldable pub input_commands : (c v : ℕ) → (inputs : List ℕ) → List ℕ
input_commands c v [] = []
input_commands c v (u ∷ rest) =
    let behind = input_commands c v rest in if u == v then c ∷ behind else behind

unfoldable pub consumer_commands : (o v c : ℕ) → List Op → List ℕ
unfolding input_commands
consumer_commands o v c [] = []
consumer_commands o v c (op ∷ rest) =
    (if c == o then [] else input_commands c v op.inputs) ++ consumer_commands o v (c + 1) rest

unfoldable pub output_commands : Graph → (o : ℕ) → (outputs : List ℕ) → List ℕ
unfolding consumer_commands
output_commands g o [] = []
output_commands g o (v ∷ rest) = consumer_commands o v 1 (drop 1 g.ops) ++ output_commands g o rest

scan_inputs_lem :
    (c v : ℕ) (inputs : List ℕ) (k : Kahn)
    → scan_inputs c v inputs k ≡ release_all (input_commands c v inputs) k
unfolding scan_inputs input_commands release_all
scan_inputs_lem c v [] k = refl
scan_inputs_lem c v (u ∷ rest) k = elim (Bool-cases (u == v)) [
  | inl e ↦ rw e (scan_inputs_lem c v rest (release_input c k))
  | inr e ↦ rw e (scan_inputs_lem c v rest k)
]

scan_consumers_lem :
    (o v c : ℕ) (ops : List Op) (k : Kahn)
    → scan_consumers o v c ops k ≡ release_all (consumer_commands o v c ops) k
unfolding scan_consumers consumer_commands
scan_consumers_lem o v c [] k = unfold release_all in refl
scan_consumers_lem o v c (op ∷ rest) k = elim (Bool-cases (c == o)) [
  | inl e ↦ rw e (scan_consumers_lem o v (c + 1) rest k)
  | inr e ↦ rw e (
      scan_consumers_lem o v (c + 1) rest (scan_inputs c v op.inputs k)
      ∙ ap (release_all (consumer_commands o v (c + 1) rest)) (scan_inputs_lem c v op.inputs k)
      ∙ sym (release_all-append (input_commands c v op.inputs) _ k))
]

pub scan_outputs_lem :
    (g : Graph) (o : ℕ) (outputs : List ℕ) (k : Kahn)
    → scan_outputs g o outputs k ≡ release_all (output_commands g o outputs) k
unfolding scan_outputs output_commands
scan_outputs_lem g o [] k = unfold release_all in refl
scan_outputs_lem g o (v ∷ rest) k =
    scan_outputs_lem g o rest (scan_consumers o v 1 (drop 1 g.ops) k)
    ∙ ap (release_all (output_commands g o rest)) (scan_consumers_lem o v 1 (drop 1 g.ops) k)
    ∙ sym (release_all-append (consumer_commands o v 1 (drop 1 g.ops)) _ k)

occurs-input_commands :
    (k c v : ℕ) (inputs : List ℕ)
    → occurs k (input_commands c v inputs) ≡ (if c == k then occurs v inputs else 0)
unfolding input_commands occurs
occurs-input_commands k c v [] = ground arith
occurs-input_commands k c v (u ∷ rest) = ground (arith, occurs-input_commands k c v rest)

occurs-head :
    (k o v c : ℕ) (op : Op)
    → occurs k (if c == o then [] else input_commands c v op.inputs)
      ≡ (if c == o then 0 else (if c == k then occurs v op.inputs else 0))
occurs-head k o v c op = elim (Bool-cases (c == o)) [
  | inl e ↦ rw e (unfold occurs in refl)
  | inr e ↦ rw e (occurs-input_commands k c v op.inputs)
]

-- The commands of the operations from number `c` on name none before it.
occurs-before : (k o v c : ℕ) (ops : List Op) → k < c → occurs k (consumer_commands o v c ops) ≡ 0
unfolding consumer_commands
occurs-before k o v c [] lt = unfold occurs in refl
occurs-before k o v c (op ∷ rest) lt =
    occurs-append k (if c == o then [] else input_commands c v op.inputs) _
    ∙ ground (arith, occurs-head k o v c op, occurs-before k o v (c + 1) rest (omega arith))

-- They name operation `c + j` once for each input `v` that it has, unless it is `o`.
occurs-consumer_commands :
    (j o v c : ℕ) (ops : List Op)
    → occurs (c + j) (consumer_commands o v c ops)
      ≡ (if c + j == o then 0 else occurs v (get_or ops j blank_op).inputs)
unfolding consumer_commands
occurs-consumer_commands j o v c [] = unfold occurs in ground arith
occurs-consumer_commands zero o v c (op ∷ rest) =
    occurs-append (c + 0) (if c == o then [] else input_commands c v op.inputs) _
    ∙ ground
        (arith, occurs-head (c + 0) o v c op, occurs-before (c + 0) o v (c + 1) rest (omega arith))
occurs-consumer_commands (suc j) o v c (op ∷ rest) =
    let shifted : occurs (c + suc j) (consumer_commands o v (c + 1) rest)
        ≡ (if c + suc j == o then 0 else occurs v (get_or rest j blank_op).inputs) =
      subst
        (λ k.
          occurs k (consumer_commands o v (c + 1) rest)
          ≡ (if k == o then 0 else occurs v (get_or rest j blank_op).inputs))
        {x = c + 1 + j} {y = c + suc j} (omega arith)
        (occurs-consumer_commands j o v (c + 1) rest) in
    occurs-append (c + suc j) (if c == o then [] else input_commands c v op.inputs) _
    ∙ ground (arith, occurs-head (c + suc j) o v c op, shifted)

-- The inputs that stand among the outputs of another operation.
unfoldable hits : (outputs inputs : List ℕ) → ℕ
hits outputs [] = 0
hits outputs (u ∷ rest) = occurs u outputs + hits outputs rest

hits-nil : (inputs : List ℕ) → hits [] inputs ≡ 0
unfolding hits occurs
hits-nil [] = refl
hits-nil (u ∷ rest) = omega (arith, hits-nil rest)

hits-cons :
    (v : ℕ) (outputs inputs : List ℕ)
    → hits (v ∷ outputs) inputs ≡ occurs v inputs + hits outputs inputs
unfolding hits occurs
hits-cons v outputs [] = refl
hits-cons v outputs (u ∷ rest) = ground (arith, hits-cons v outputs rest)

hits-produced_by :
    (g : Graph) (o : ℕ) (outputs inputs : List ℕ)
    → ((v : ℕ) → occurs v outputs ≡ (if (value_at g v).producer == o then 1 else 0))
    → hits outputs inputs ≡ produced_by g o inputs
unfolding hits produced_by
hits-produced_by g o outputs [] single = refl
hits-produced_by g o outputs (u ∷ rest) single =
    ap₂ ◌+◌ (single u) (hits-produced_by g o outputs rest single)

occurs-output_commands :
    (g : Graph) (o j : ℕ) (outputs : List ℕ)
    → occurs (suc j) (output_commands g o outputs)
      ≡ (if suc j == o then 0 else hits outputs (op_at g (suc j)).inputs)
unfolding output_commands
occurs-output_commands g o j [] = unfold occurs in ground (arith, hits-nil (op_at g (suc j)).inputs)
occurs-output_commands g o j (v ∷ rest) =
    occurs-append (suc j) (consumer_commands o v 1 (drop 1 g.ops)) _
    ∙ ground (
      arith,
      subst
          (λ k.
            occurs k (consumer_commands o v 1 (drop 1 g.ops))
            ≡ (if k == o then 0 else occurs v (op_at g (suc j)).inputs))
          {x = 1 + j} {y = suc j} (omega arith)
          (occurs-consumer_commands j o v 1 (drop 1 g.ops)
            ∙ ap (λ (p : Op). if 1 + j == o then 0 else occurs v p.inputs)
                (get_or-drop g.ops j blank_op)),
      hits-cons v rest (op_at g (suc j)).inputs,
      occurs-output_commands g o j rest,
    )

occurs_zero-output_commands :
    (g : Graph) (o : ℕ) (outputs : List ℕ) → occurs 0 (output_commands g o outputs) ≡ 0
unfolding output_commands
occurs_zero-output_commands g o [] = unfold occurs in refl
occurs_zero-output_commands g o (v ∷ rest) =
    occurs-append 0 (consumer_commands o v 1 (drop 1 g.ops)) _
    ∙ omega (
      arith,
      occurs-before 0 o v 1 (drop 1 g.ops) (omega arith),
      occurs_zero-output_commands g o rest,
    )

-- For an operation whose outputs are the values that it produces, the decrements of another one are
-- as many as it has inputs among those.
pub output_commands_lem :
    (g : Graph) (o c : ℕ) (outputs : List ℕ)
    → ((v : ℕ) → occurs v outputs ≡ (if (value_at g v).producer == o then 1 else 0))
    → op_at g 0 ≡ blank_op
    → occurs c (output_commands g o outputs)
      ≡ (if c == o then 0 else produced_by g o (op_at g c).inputs)
output_commands_lem g o zero outputs single slot =
    occurs_zero-output_commands g o outputs ∙ ground (arith, nothing)
  where
    nothing : produced_by g o (op_at g 0).inputs ≡ 0
    nothing = ap (λ p. produced_by g o p.inputs) slot ∙ unfold produced_by in refl
output_commands_lem g o (suc j) outputs single slot =
    occurs-output_commands g o j outputs
    ∙ ap (λ n. if suc j == o then 0 else n)
        (hits-produced_by g o outputs (op_at g (suc j)).inputs single)
