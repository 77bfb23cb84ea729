-- ===== src/Graph/Lifetime/Marks.antt =====
-- The loop over the uses: what it marks, and from when on.
use prospero_ai.Prelude.{
  ℕ, zero, suc, ◌≤◌, ◌<◌, ◌≡◌, ◌≢◌, refl, subst, ap, ◌∙◌, true, false, inl, inr, Bool-cases, List,
  [], ◌∷◌, length, length-set, get_or, set, get_or-set_self, get_or-set_ne, ltb, ◌==◌,
  if◌then◌else◌, arith,
}
use prospero_ai.Prelude.Occurs.{occurs}
use native.Mathlib.Decide.{ℕ_discrete}
use prospero_ai.Graph.Defs.{Op, blank_op}
use prospero_ai.Graph.Lifetime.{Uses, mark_input, mark_inputs, mark_ops}

-- Value `v` is used, in epoch `e` or later.
abbrev pub IsMarked : (v e : ℕ) → Uses → Type 0
IsMarked v e s = (get_or s.used v false ≡ true) × (e ≤ get_or s.last_use v 0)

-- If value `v` is used then in epoch `b` or later.
abbrev pub IsSince : (v b : ℕ) → Uses → Type 0
IsSince v b s = get_or s.used v false ≡ true → b ≤ get_or s.last_use v 0

abbrev pub HasRoom : (v : ℕ) → Uses → Type 0
HasRoom v s = (v < length s.used) × (v < length s.last_use)

get_or-set_room :
    {A : Type 0} (xs : List A) (u v : ℕ) (x d : A)
    → v < length xs
    → get_or (set xs u x) v d ≡ (if u == v then x else get_or xs v d)
get_or-set_room xs u v x d room = elim (ℕ_discrete u v) [
  | yes e ↦
      let test : (u == v) ≡ true = ground (arith, e) in
      rw test (ap (λ n. get_or (set xs n x) v d) e ∙ get_or-set_self xs v x d room)
  | no ne ↦
      let test : (u == v) ≡ false = ground (arith, ne) in rw test (get_or-set_ne xs u v x d ne)
]

-- What one mark does to the entries of `v`.
used_lem :
    (epoch u v : ℕ) (s : Uses)
    → HasRoom v s
    → get_or (mark_input epoch u s).used v false ≡ (if u == v then true else get_or s.used v false)
unfolding mark_input
used_lem epoch u v s room = get_or-set_room s.used u v true false room.0

last_use_lem :
    (epoch u v : ℕ) (s : Uses)
    → HasRoom v s
    → (get_or s.last_use v 0 ≤ get_or (mark_input epoch u s).last_use v 0)
      × (u ≡ v → epoch ≤ get_or (mark_input epoch u s).last_use v 0)
unfolding mark_input
last_use_lem epoch u v s room = elim (Bool-cases (ltb (get_or s.last_use u 0) epoch)) [
  | inl t ↦ rw t (ground (arith, t, put, same), ground (arith, t, put, same))
  | inr f ↦ rw f (omega arith, ground (arith, f, same))
]
  where
    put : get_or (set s.last_use u epoch) v 0 ≡ (if u == v then epoch else get_or s.last_use v 0)
    put = get_or-set_room s.last_use u v epoch 0 room.1

    same : u ≡ v → get_or s.last_use u 0 ≡ get_or s.last_use v 0
    same e = ap (λ n. get_or s.last_use n 0) e

mark_input-HasRoom : (epoch u v : ℕ) (s : Uses) → HasRoom v s → HasRoom v (mark_input epoch u s)
unfolding mark_input
mark_input-HasRoom epoch u v s room = elim (Bool-cases (ltb (get_or s.last_use u 0) epoch)) [
  | inl t ↦ rw t (omega (arith, room, length-set s.used u true, length-set s.last_use u epoch))
  | inr f ↦ rw f (omega (arith, room, length-set s.used u true))
]

mark_input-IsMarked :
    (epoch u v e : ℕ) (s : Uses)
    → HasRoom v s
    → IsMarked v e s
    → IsMarked v e (mark_input epoch u s)
mark_input-IsMarked epoch u v e s room (used, late) = (
  ground (arith, used_lem epoch u v s room, used),
  omega (arith, (last_use_lem epoch u v s room).0, late),
)

mark_input_marks :
    (epoch u v : ℕ) (s : Uses) → HasRoom v s → u ≡ v → IsMarked v epoch (mark_input epoch u s)
mark_input_marks epoch u v s room e =
    (ground (arith, used_lem epoch u v s room, e), (last_use_lem epoch u v s room).1 e)

mark_input-IsSince :
    (epoch u v b : ℕ) (s : Uses)
    → HasRoom v s
    → (u ≡ v → b ≤ epoch)
    → IsSince v b s
    → IsSince v b (mark_input epoch u s)
mark_input-IsSince epoch u v b s room late since used = elim (ℕ_discrete u v) [
  | yes e ↦ omega (arith, (last_use_lem epoch u v s room).1 e, late e)
  | no ne ↦
      let before : get_or s.used v false ≡ true =
        ground (arith, used_lem epoch u v s room, used, ne) in
      omega (arith, (last_use_lem epoch u v s room).0, since before)
]

-- What every mark keeps, the loops keep.
module _ (v : ℕ) (P : Uses → Type 0) where
  mark_inputs_keep :
      (epoch : ℕ) (inputs : List ℕ) (s : Uses)
      → ((u : ℕ) (t : Uses) → occurs u inputs ≢ 0 → HasRoom v t → P t → P (mark_input epoch u t))
      → HasRoom v s
      → P s
      → HasRoom v (mark_inputs epoch inputs s) × P (mark_inputs epoch inputs s)
  unfolding mark_inputs occurs
  mark_inputs_keep epoch [] s step room h = (room, h)
  mark_inputs_keep epoch (u ∷ rest) s step room h =
      mark_inputs_keep epoch rest (mark_input epoch u s)
        (λ w t found. step w t (ground (arith, found))) (mark_input-HasRoom epoch u v s room)
        (step u s (ground arith) room h)

  mark_ops_keep :
      (ops : List Op) (s : Uses)
      → ((j u : ℕ) (t : Uses)
          → occurs u (get_or ops j blank_op).inputs ≢ 0
          → HasRoom v t
          → P t
          → P (mark_input (get_or ops j blank_op).epoch u t))
      → HasRoom v s
      → P s
      → P (mark_ops ops s)
  unfolding mark_ops
  mark_ops_keep [] s step room h = h
  mark_ops_keep (op ∷ rest) s step room h =
      let r = mark_inputs_keep op.epoch op.inputs s (step 0) room h in
      mark_ops_keep rest (mark_inputs op.epoch op.inputs s) (λ j. step (suc j)) r.0 r.1

kept : (v : ℕ) (op : Op) (s : Uses) → HasRoom v s → HasRoom v (mark_inputs op.epoch op.inputs s)
kept v op s room =
    (mark_inputs_keep v (HasRoom v) op.epoch op.inputs s
      (λ u t there r h. mark_input-HasRoom op.epoch u v t r) room room).0

-- An input is marked.
mark_inputs_marks :
    (epoch v : ℕ) (inputs : List ℕ) (s : Uses)
    → HasRoom v s
    → occurs v inputs ≢ 0
    → IsMarked v epoch (mark_inputs epoch inputs s)
unfolding mark_inputs occurs
mark_inputs_marks epoch v [] s room found = absurd (found refl)
mark_inputs_marks epoch v (u ∷ rest) s room found =
    let after = mark_input-HasRoom epoch u v s room in
    elim (ℕ_discrete u v) [
      | yes e ↦
          (mark_inputs_keep v (IsMarked v epoch) epoch rest (mark_input epoch u s)
            (λ w t there. mark_input-IsMarked epoch w v epoch t) after
            (mark_input_marks epoch u v s room e)).1
      | no ne ↦
          mark_inputs_marks epoch v rest (mark_input epoch u s) after (ground (arith, found, ne))
    ]

pub mark_ops_marks :
    (ops : List Op) (j v : ℕ) (s : Uses)
    → HasRoom v s
    → occurs v (get_or ops j blank_op).inputs ≢ 0
    → IsMarked v (get_or ops j blank_op).epoch (mark_ops ops s)
unfolding mark_ops
mark_ops_marks [] j v s room found = absurd (found (unfold occurs in refl))
mark_ops_marks (op ∷ rest) zero v s room found =
    mark_ops_keep v (IsMarked v op.epoch) rest (mark_inputs op.epoch op.inputs s)
      (λ k u t there. mark_input-IsMarked (get_or rest k blank_op).epoch u v op.epoch t)
      (kept v op s room) (mark_inputs_marks op.epoch v op.inputs s room found)
mark_ops_marks (op ∷ rest) (suc j) v s room found =
    mark_ops_marks rest j v (mark_inputs op.epoch op.inputs s) (kept v op s room) found

-- No use is earlier than the operations that have the value as an input.
pub mark_ops-IsSince :
    (ops : List Op) (v b : ℕ) (s : Uses)
    → HasRoom v s
    → get_or s.used v false ≡ false
    → ((j : ℕ) → occurs v (get_or ops j blank_op).inputs ≢ 0 → b ≤ (get_or ops j blank_op).epoch)
    → IsSince v b (mark_ops ops s)
mark_ops-IsSince ops v b s room unused late =
    mark_ops_keep v (IsSince v b) ops s
      (λ j u t there r.
        mark_input-IsSince (get_or ops j blank_op).epoch u v b t r
          (λ e. late j (subst (λ w. occurs w (get_or ops j blank_op).inputs ≢ 0) e there)))
      room (λ used. cc)
