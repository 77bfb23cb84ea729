-- ===== src/Graph/Topo/Order.antt =====
-- Positions in the order, which become the epochs.
use prospero_ai.Prelude.{
  ℕ, suc, ◌+◌, ◌<◌, ◌≡◌, ◌≢◌, ◌⊎◌, refl, sym, subst, ap, ap₂, ◌∙◌, inl, inr, List, [], ◌∷◌, ◌++◌,
  length, length-set, get_or, set, get_or-set_self, get_or-set_ne, ◌==◌, if◌then◌else◌, arith,
}
use prospero_ai.Prelude.Occurs.{occurs, occurs-append}
use native.Mathlib.Decide.{ℕ_discrete}
use prospero_ai.Graph.Defs.{Op, Graph, blank_op, value_at, op_at}
use prospero_ai.Graph.Topo.{set_epochs}
use prospero_ai.Graph.Topo.Count.{waiting, waiting-zero}
use prospero_ai.Graph.Topo.Loop.{Ordered}

-- Where `c` stands first.
unfoldable pub position : ℕ → List ℕ → ℕ
position c [] = 0
position c (x ∷ rest) = if x == c then 0 else suc (position c rest)

pub position-lt : (c : ℕ) (xs : List ℕ) → occurs c xs ≢ 0 → position c xs < length xs
unfolding position occurs
position-lt c [] h = absurd (h refl)
position-lt c (x ∷ xs) h = ground (arith, position-lt c xs)

pub position-injective :
    (c d : ℕ) (xs : List ℕ)
    → occurs c xs ≢ 0
    → occurs d xs ≢ 0
    → position c xs ≡ position d xs
    → c ≡ d
unfolding position occurs
position-injective c d [] hc hd e = absurd (hc refl)
position-injective c d (x ∷ xs) hc hd e = ground (arith, position-injective c d xs)

-- Of an operation in the order, the producers of its inputs come before it.
pub Ordered-position :
    (g : Graph) (o u : ℕ) (before xs : List ℕ)
    → Ordered g before xs
    → occurs o xs ≢ 0
    → occurs u (op_at g o).inputs ≢ 0
    → (value_at g u).producer ≢ 0
    → (value_at g u).producer ≢ o
    → occurs (value_at g u).producer before ≢ 0
      ⊎ position (value_at g u).producer xs < position o xs
unfolding Ordered position occurs
Ordered-position g o u before [] h in_order in_list real other = absurd (in_order refl)
Ordered-position g o u before (x ∷ xs) (hx, h) in_order in_list real other =
    let p : ℕ = (value_at g u).producer in
    elim (ℕ_discrete x o) [
      | yes e ↦ inl (
          waiting-zero g before o u (op_at g o).inputs
            (subst (λ n. waiting g before n (op_at g n).inputs ≡ 0) e hx) in_list real other)
      | no ne ↦
          elim (Ordered-position g o u (before ++ (x ∷ [])) xs h (ground (arith, in_order, ne))
            in_list real other) [
              | inl found ↦ ground (arith, found, occurs-append p before (x ∷ []))
              | inr lt ↦ inr (ground (arith, lt, ne))
            ]
    ]

-- set_epochs changes nothing but epochs.
pub length-set_epochs :
    (ops : List Op) (order : List ℕ) (i : ℕ) → length (set_epochs ops order i) ≡ length ops
unfolding set_epochs
length-set_epochs ops [] i = refl
length-set_epochs ops (o ∷ rest) i = length-set_epochs _ rest (i + 1) ∙ length-set ops o _

pub set_epochs_elsewhere :
    (ops : List Op) (c : ℕ) (order : List ℕ) (i : ℕ)
    → occurs c order ≡ 0
    → get_or (set_epochs ops order i) c blank_op ≡ get_or ops c blank_op
unfolding set_epochs occurs
set_epochs_elsewhere ops c [] i h = refl
set_epochs_elsewhere ops c (o ∷ rest) i h =
    set_epochs_elsewhere _ c rest (i + 1) (ground (arith, h))
    ∙ get_or-set_ne ops o c _ blank_op (λ e. ground (arith, h, e))

-- An operation that stands in the order once gets its position, and keeps the rest.
pub set_epochs_lem :
    (ops : List Op) (c : ℕ) (order : List ℕ) (i : ℕ)
    → c < length ops
    → occurs c order ≡ 1
    → get_or (set_epochs ops order i) c blank_op
      ≡ record (get_or ops c blank_op) { epoch = i + position c order }
unfolding set_epochs occurs position
set_epochs_lem ops c [] i inside h = absurd (omega (arith, h))
set_epochs_lem ops c (o ∷ rest) i inside h = elim (ℕ_discrete o c) [
  | yes e ↦
      set_epochs_elsewhere (set ops o _) c rest (i + 1) (ground (arith, h, e))
      ∙ subst
          (λ n.
            get_or (set ops n (record (get_or ops n blank_op) { epoch = i })) c blank_op
            ≡ record (get_or ops c blank_op) { epoch = i })
          (sym e) (get_or-set_self ops c _ blank_op inside)
      ∙ ap (λ n. record (get_or ops c blank_op) { epoch = n }) (ground (arith, e))
  | no ne ↦
      set_epochs_lem (set ops o _) c rest (i + 1)
        (subst (λ n. c < n) (sym (length-set ops o _)) inside) (ground (arith, h, ne))
      ∙ ap₂ (λ (p : Op) n. record p { epoch = n }) (get_or-set_ne ops o c _ blank_op ne)
          (ground (arith, ne))
]
