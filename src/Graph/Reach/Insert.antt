-- ===== src/Graph/Reach/Insert.antt =====
-- Adding an operation.
use prospero_ai.Prelude.{
  ℕ, zero, suc, ◌+◌, ◌≤◌, ◌<◌, ◌≡◌, ◌≢◌, ◌⊎◌, refl, sym, subst, ap, ◌∙◌, true, false, not, inl, inr,
  Bool-cases, Option, none, some, List, [], ◌∷◌, ◌++◌, length, length-append, length-set, get_or,
  set, get_or-set_self, get_or-set_ne, ◌==◌, if◌then◌else◌, arith,
}
use prospero_ai.Prelude.Occurs.{occurs}
use native.Mathlib.Decide.{ℕ_discrete}
use prospero_ai.Graph.Defs.{
  Value, Op, Graph, blank_value, blank_op, num_ops, num_values, max_ops, max_values, max_arity,
  value_at, op_at, bad_inputs, bad_outputs, consumes_own, member, set_producers, op_rejected,
  add_op,
}
use prospero_ai.Graph.Build.{IsGraph}

-- The numbers of the lists are values, the outputs are new, each is one output.
bad_inputs_lem :
    (g : Graph) (v : ℕ) (inputs : List ℕ)
    → bad_inputs g inputs ≡ false
    → occurs v inputs ≢ 0
    → (0 < v) × (v ≤ num_values g)
unfolding bad_inputs occurs
bad_inputs_lem g v [] h found = absurd (found refl)
bad_inputs_lem g v (u ∷ rest) h found = ground (arith, h, found, bad_inputs_lem g v rest)

-- What the check of the outputs says of one of them.
abbrev IsNew : Graph → (v : ℕ) → (before outputs : List ℕ) → Type 0
IsNew g v before outputs =
    (0 < v)
    × ((v ≤ num_values g)
        × (((value_at g v).producer ≡ 0) × ((occurs v outputs ≡ 1) × (member v before ≡ false))))

-- An output that was looked at before does not come again.
not_again :
    (g : Graph) (v : ℕ) (before outputs : List ℕ)
    → bad_outputs g before outputs ≡ false
    → member v before ≡ true
    → occurs v outputs ≡ 0
unfolding bad_outputs occurs member
not_again g v before [] h seen = refl
not_again g v before (u ∷ rest) h seen =
    ground
      (arith, h, seen, not_again g v (u ∷ before) rest, ap (λ w. member w before) {x = u} {y = v})

bad_outputs_lem :
    (g : Graph) (v : ℕ) (before outputs : List ℕ)
    → bad_outputs g before outputs ≡ false
    → occurs v outputs ≢ 0
    → IsNew g v before outputs
unfolding bad_outputs occurs member
bad_outputs_lem g v before [] h found = absurd (found refl)
bad_outputs_lem g v before (u ∷ rest) h found = elim (ℕ_discrete u v) [
  | yes e ↦
      subst (λ w. IsNew g w before (u ∷ rest)) e
        (ground (arith, h, not_again g u (u ∷ before) rest))
  | no ne ↦ ground (arith, h, found, ne, bad_outputs_lem g v (u ∷ before) rest)
]

member-occurs : (v : ℕ) (xs : List ℕ) → member v xs ≡ not (occurs v xs == 0)
unfolding member occurs
member-occurs v [] = refl
member-occurs v (x ∷ xs) = ground (arith, member-occurs v xs)

consumes_own_lem :
    (v : ℕ) (inputs outputs : List ℕ)
    → consumes_own inputs outputs ≡ false
    → occurs v inputs ≢ 0
    → occurs v outputs ≡ 0
unfolding consumes_own occurs
consumes_own_lem v [] outputs h found = absurd (found refl)
consumes_own_lem v (u ∷ rest) outputs h found = elim (ℕ_discrete u v) [
  | yes e ↦ subst (λ w. occurs w outputs ≡ 0) e (ground (arith, h, member-occurs u outputs))
  | no ne ↦ consumes_own_lem v rest outputs (ground (arith, h)) (ground (arith, found, ne))
]

-- The producer of a value afterwards.
set_producers_lem :
    (values : List Value) (v : ℕ) (outputs : List ℕ) (id : ℕ)
    → (occurs v outputs ≢ 0 → v < length values)
    → (get_or (set_producers values outputs id) v blank_value).producer
      ≡ (if occurs v outputs == 0 then (get_or values v blank_value).producer else id)
unfolding set_producers occurs
set_producers_lem values v [] id inside = refl
set_producers_lem values v (u ∷ rest) id inside =
    set_producers_lem (set values u new) v rest id
      (λ found. omega (arith, length-set values u new, inside (ground (arith, found))))
    ∙ elim (ℕ_discrete u v) [
      | yes e ↦ ground (
        arith,
        e,
        ap (λ w. (get_or (set values w new) v blank_value).producer) e,
        ap (λ p. p.producer)
            (get_or-set_self values v new blank_value (inside (ground (arith, e)))),
      )
      | no ne ↦
          ground (arith, ne, ap (λ p. p.producer) (get_or-set_ne values u v new blank_value ne))
    ]
  where
    new : Value
    new = record (get_or values u blank_value) { producer = id }

length-set_producers :
    (values : List Value) (outputs : List ℕ) (id : ℕ)
    → length (set_producers values outputs id) ≡ length values
unfolding set_producers
length-set_producers values [] id = refl
length-set_producers values (v ∷ rest) id = length-set_producers _ rest id ∙ length-set values v _

get_or-snoc_self : (ops : List Op) (op : Op) → get_or (ops ++ (op ∷ [])) (length ops) blank_op ≡ op
get_or-snoc_self [] op = refl
get_or-snoc_self (x ∷ ops) op = get_or-snoc_self ops op

get_or-snoc_other :
    (ops : List Op) (op : Op) (o : ℕ)
    → o ≢ length ops
    → get_or (ops ++ (op ∷ [])) o blank_op ≡ get_or ops o blank_op
get_or-snoc_other [] op zero ne = absurd (ne refl)
get_or-snoc_other [] op (suc o) ne = refl
get_or-snoc_other (x ∷ ops) op zero ne = refl
get_or-snoc_other (x ∷ ops) op (suc o) ne = get_or-snoc_other ops op o (λ e. ne (ap suc e))

-- An operation that the checks accept.
module _ (g : Graph) (w : IsGraph g) (kind : ℕ) (inputs outputs : List ℕ)
    (accepted : op_rejected g inputs outputs ≡ false) where
  abbrev new_op : Op
  new_op = record { kind = kind; inputs = inputs; outputs = outputs; epoch = 0 }

  abbrev added : Graph
  added = record {
    values = set_producers g.values outputs (num_ops g + 1);
    ops = g.ops ++ (record { kind = kind; inputs = inputs; outputs = outputs; epoch = 0 } ∷ []);
    sorted = false;
  }

  checks :
      (length inputs ≤ max_arity)
      × ((num_ops g < max_ops)
          × ((bad_inputs g inputs ≡ false)
              × ((bad_outputs g [] outputs ≡ false) × (consumes_own inputs outputs ≡ false))))
  unfolding op_rejected
  checks = ground (arith, accepted)

  fresh :
      (v : ℕ)
      → occurs v outputs ≡ 0
        ⊎ ((occurs v outputs ≡ 1)
            × ((0 < v) × ((v < length g.values) × ((value_at g v).producer ≡ 0))))
  fresh v = elim (ℕ_discrete (occurs v outputs) 0) [
    | yes e ↦ inl e
    | no found ↦ inr (ground (arith, bad_outputs_lem g v [] outputs checks.1.1.1.0 found))
  ]

  producer :
      (v : ℕ)
      → (value_at added v).producer
        ≡ (if occurs v outputs == 0 then (value_at g v).producer else length g.ops)
  producer v =
      set_producers_lem g.values v outputs (num_ops g + 1) (λ found. ground (arith, fresh v, found))
      ∙ ap (λ n. if occurs v outputs == 0 then (value_at g v).producer else n) {y = length g.ops}
          (omega (arith, w.bounded))

  op_cases :
      (o : ℕ)
      → ((o ≡ length g.ops) × (op_at added o ≡ new_op))
        ⊎ ((o ≢ length g.ops) × (op_at added o ≡ op_at g o))
  op_cases o = elim (ℕ_discrete o (length g.ops)) [
    | yes e ↦ inl (e, ap (op_at added) e ∙ get_or-snoc_self g.ops new_op)
    | no ne ↦ inr (ne, get_or-snoc_other g.ops new_op o ne)
  ]

  -- The inputs of the new operation.
  input_of :
      (v : ℕ) → occurs v inputs ≢ 0 → ((0 < v) × (v < length g.values)) × (occurs v outputs ≡ 0)
  input_of v found = (
    ground (arith, bad_inputs_lem g v inputs checks.1.1.0 found),
    consumes_own_lem v inputs outputs checks.1.1.1.1 found,
  )

  added-IsGraph : IsGraph added
  added-IsGraph = record {
    slot = get_or-snoc_other g.ops _ 0 (omega (arith, w.bounded)) ∙ w.slot;
    origin = ground (arith, fresh 0, producer 0, w.origin);
    bounded = omega (arith, length-append g.ops (new_op ∷ []), checks, w.bounded);
    few =
        subst (λ n. (0 < n) × (n ≤ max_values + 1))
          (sym (length-set_producers g.values outputs (num_ops g + 1))) w.few;
    single = λ o v positive. elim (op_cases o) [
      | inl (e, same) ↦
          ap (λ p. occurs v p.outputs) same ∙ ground (arith, e, fresh v, producer v, w.produced v)
      | inr (ne, same) ↦
          ap (λ p. occurs v p.outputs) same
          ∙ ground (arith, ne, fresh v, producer v, w.single o v positive, positive)
    ];
    produced = λ v.
        subst (λ n. (value_at added v).producer < n) (sym (length-append g.ops (new_op ∷ [])))
          (ground (arith, producer v, w.produced v));
    arity = λ o. elim (op_cases o) [
      | inl (e, same) ↦ omega (arith, ap (λ p. length p.inputs) same, checks)
      | inr (ne, same) ↦ omega (arith, ap (λ p. length p.inputs) same, w.arity o)
    ];
    exists = λ o v found.
        subst (λ n. (0 < v) × (v < n)) (sym (length-set_producers g.values outputs (num_ops g + 1)))
          (elim (op_cases o) [
            | inl (e, same) ↦
                (input_of v (λ gone. found (ap (λ p. occurs v p.inputs) same ∙ gone))).0
            | inr (ne, same) ↦
                w.exists o v (λ gone. found (ap (λ p. occurs v p.inputs) same ∙ gone))
          ]);
    apart = λ o v found. elim (op_cases o) [
      | inl (e, same) ↦
          let i = input_of v (λ gone. found (ap (λ p. occurs v p.inputs) same ∙ gone)) in
          λ own. ground (arith, i.1, own, e, producer v, w.produced v)
      | inr (ne, same) ↦
          let other = w.apart o v (λ gone. found (ap (λ p. occurs v p.inputs) same ∙ gone)) in
          λ own. ground (arith, own, ne, other, producer v)
    ];
  }

pub add_op-IsGraph :
    (g : Graph) (kind : ℕ) (inputs outputs : Option (List ℕ))
    → IsGraph g
    → IsGraph (add_op g kind inputs outputs).0
unfolding add_op
add_op-IsGraph g kind none outputs w = w
add_op-IsGraph g kind (some inputs) none w = w
add_op-IsGraph g kind (some inputs) (some outputs) w =
    elim (Bool-cases (op_rejected g inputs outputs)) [
      | inl e ↦ rw e w
      | inr e ↦ rw e (added-IsGraph g w kind inputs outputs e)
    ]
