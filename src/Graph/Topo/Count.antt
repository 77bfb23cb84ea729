-- ===== src/Graph/Topo/Count.antt =====
-- Counting: how often a number stands in a list, and which inputs an operation waits for.
use prospero_ai.Prelude.{
  ℕ, ◌+◌, ◌≤◌, ◌≡◌, ◌≢◌, refl, ap, not, ◌&&◌, List, [], ◌∷◌, ◌++◌, length, ◌==◌, if◌then◌else◌,
  arith,
}
use prospero_ai.Prelude.Occurs.{occurs, occurs-append}
use native.Mathlib.Decide.{ℕ_discrete}
use prospero_ai.Graph.Defs.{Graph, value_at}
use prospero_ai.Graph.Topo.{count_edges}

-- The inputs of `c` that another operation produces, one that is not among `done`.
unfoldable pub waiting : Graph → (done : List ℕ) → (c : ℕ) → (inputs : List ℕ) → ℕ
waiting g done c [] = 0
waiting g done c (u ∷ rest) =
    let p = (value_at g u).producer in
    (if not (p == 0) && (not (p == c) && occurs p done == 0) then 1 else 0) + waiting g done c rest

-- The inputs that operation `o` produces.
unfoldable pub produced_by : Graph → (o : ℕ) → (inputs : List ℕ) → ℕ
produced_by g o [] = 0
produced_by g o (u ∷ rest) = (if (value_at g u).producer == o then 1 else 0) + produced_by g o rest

pub waiting-le-length :
    (g : Graph) (done : List ℕ) (c : ℕ) (inputs : List ℕ) → waiting g done c inputs ≤ length inputs
unfolding waiting
waiting-le-length g done c [] = omega arith
waiting-le-length g done c (u ∷ rest) = ground (arith, waiting-le-length g done c rest)

pub waiting-start :
    (g : Graph) (c : ℕ) (inputs : List ℕ) → count_edges g c inputs ≡ waiting g [] c inputs
unfolding waiting count_edges occurs
waiting-start g c [] = refl
waiting-start g c (u ∷ rest) = ground (arith, waiting-start g c rest)

-- What processing `o` takes off.
pub waiting-step :
    (g : Graph) (done : List ℕ) (o c : ℕ) (inputs : List ℕ)
    → o ≢ 0
    → occurs o done ≡ 0
    → waiting g done c inputs
      ≡ waiting g (done ++ (o ∷ [])) c inputs + (if c == o then 0 else produced_by g o inputs)
unfolding waiting produced_by
waiting-step g done o c [] ne out = ground arith
waiting-step g done o c (u ∷ rest) ne out =
    let p : ℕ = (value_at g u).producer in
    ground (
      arith,
      waiting-step g done o c rest ne out,
      occurs-append p done (o ∷ []),
      occurs_one p o,
      ap (λ (q : ℕ). occurs q done) {x = p} {y = o},
    )
  where
    occurs_one : (p o : ℕ) → occurs p (o ∷ []) ≡ (if o == p then 1 else 0)
    occurs_one p o = unfold occurs in ground arith

-- Whoever waits for nothing has its producers among `done`.
pub waiting-zero :
    (g : Graph) (done : List ℕ) (c u : ℕ) (inputs : List ℕ)
    → waiting g done c inputs ≡ 0
    → occurs u inputs ≢ 0
    → (value_at g u).producer ≢ 0
    → (value_at g u).producer ≢ c
    → occurs (value_at g u).producer done ≢ 0
unfolding waiting occurs
waiting-zero g done c u [] none_left in_list real other = absurd (in_list refl)
waiting-zero g done c u (x ∷ rest) none_left in_list real other = elim (ℕ_discrete x u) [
  | yes e ↦ λ gone. absurd (ground (arith, ap (λ (k : ℕ). (value_at g k).producer) e, gone))
  | no ne ↦ waiting-zero g done c u rest (ground arith) (ground arith) real other
]
