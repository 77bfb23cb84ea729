-- ===== src/Graph/Defs.antt =====
-- The data of a graph, and how it is built up.
use prospero_ai.Prelude.{
  ℕ, ◌+◌, ◌-◌, bit_and, Bool, true, false, not, ◌&&◌, ◌||◌, Option, none, some, List, [], ◌∷◌, ◌++◌,
  length, get_or, set, ltb, leb, ◌==◌, if◌then◌else◌,
}
use prospero_ai.Status.{ok, err}
use prospero_ai.Memory.Align.{sub64}
use prospero_ai.Tensor.Element.{Dtype}
use prospero_ai.Tensor.{bad_rank, contiguous_size}

-- pai_graph_value_t
pub record Value : Type 0 where
  pub dtype : Dtype
  pub shape : List ℕ
  pub size_bytes : ℕ
  pub align : ℕ
  pub producer : ℕ
  pub is_input : Bool
  pub is_output : Bool

-- pai_graph_op_t; `kind` is the number of the enumeration.
pub record Op : Type 0 where
  pub kind : ℕ
  pub inputs : List ℕ
  pub outputs : List ℕ
  pub epoch : ℕ

-- pai_graph_t
pub record Graph : Type 0 where
  pub values : List Value
  pub ops : List Op
  pub sorted : Bool

abbrev pub max_values : ℕ
max_values = 1024

abbrev pub max_ops : ℕ
max_ops = 1024

abbrev pub max_arity : ℕ
max_arity = 16

-- An entry after memset.
abbrev pub blank_value : Value
blank_value = record {
  dtype = Dtype.f32;
  shape = [];
  size_bytes = 0;
  align = 0;
  producer = 0;
  is_input = false;
  is_output = false;
}

abbrev pub blank_op : Op
blank_op = record { kind = 0; inputs = []; outputs = []; epoch = 0 }

abbrev pub num_values : Graph → ℕ
num_values g = length g.values - 1

abbrev pub num_ops : Graph → ℕ
num_ops g = length g.ops - 1

abbrev pub value_at : Graph → ℕ → Value
value_at g v = get_or g.values v blank_value

abbrev pub op_at : Graph → ℕ → Op
op_at g o = get_or g.ops o blank_op

unfoldable pub graph_init : Graph
graph_init = record { values = blank_value ∷ []; ops = blank_op ∷ []; sorted = false }

unfoldable pub value_rejected : Graph → (shape : List ℕ) → (align : ℕ) → Bool
value_rejected g shape align =
    bad_rank (length shape)
    || (leb max_values (num_values g)
        || (not (align == 0) && not (bit_and align (sub64 align 1) == 0)))

-- The entry that is filled in.
abbrev pub new_value : Dtype → (shape : List ℕ) → (align bytes : ℕ) → Value
new_value dtype shape align bytes = record {
  dtype = dtype;
  shape = shape;
  size_bytes = bytes;
  align = if align == 0 then 16 else align;
  producer = 0;
  is_input = false;
  is_output = false;
}

-- The graph afterwards, and the number of the value or 0.
unfoldable pub add_value : Graph → Dtype → Option (List ℕ) → (align : ℕ) → Graph × ℕ
unfolding value_rejected
add_value g dtype none align = (g, 0)
add_value g dtype (some shape) align =
    if value_rejected g shape align
    then (g, 0)
    else elim (contiguous_size dtype (some shape) true) [
      | err e ↦ (g, 0)
      | ok bytes ↦ (
        record g { values = g.values ++ (new_value dtype shape align bytes ∷ []) },
        num_values g + 1,
      )
    ]

-- Is the number in the list?
unfoldable pub member : ℕ → List ℕ → Bool
member v [] = false
member v (u ∷ rest) = u == v || member v rest

-- ids[i] == 0 || ids[i] > graph->num_values
abbrev pub bad_value : Graph → ℕ → Bool
bad_value g v = v == 0 || ltb (num_values g) v

unfoldable pub bad_inputs : Graph → List ℕ → Bool
bad_inputs g [] = false
bad_inputs g (v ∷ rest) = bad_value g v || bad_inputs g rest

-- `before` is the outputs looked at so far.
unfoldable pub bad_outputs : Graph → (before outputs : List ℕ) → Bool
unfolding member
bad_outputs g before [] = false
bad_outputs g before (v ∷ rest) =
    (bad_value g v || (not ((value_at g v).producer == 0) || member v before))
    || bad_outputs g (v ∷ before) rest

-- An input is an output too.
unfoldable pub consumes_own : (inputs outputs : List ℕ) → Bool
unfolding member
consumes_own [] outputs = false
consumes_own (v ∷ rest) outputs = member v outputs || consumes_own rest outputs

-- for (i = 0; i < num_outputs; i++) graph->values[outputs[i]].producer = id;
unfoldable pub set_producers : List Value → (outputs : List ℕ) → (id : ℕ) → List Value
set_producers values [] id = values
set_producers values (v ∷ rest) id =
    set_producers (set values v (record (get_or values v blank_value) { producer = id })) rest id

unfoldable pub op_rejected : Graph → (inputs outputs : List ℕ) → Bool
unfolding bad_inputs bad_outputs consumes_own
op_rejected g inputs outputs =
    (ltb max_arity (length inputs) || (ltb max_arity (length outputs) || leb max_ops (num_ops g)))
    || (bad_inputs g inputs || (bad_outputs g [] outputs || consumes_own inputs outputs))

-- The lists are what the pointers lead to; `none` is NULL with a count that is not 0.
unfoldable pub add_op : Graph → (kind : ℕ) → Option (List ℕ) → Option (List ℕ) → Graph × ℕ
unfolding op_rejected set_producers
add_op g kind none outputs = (g, 0)
add_op g kind (some inputs) none = (g, 0)
add_op g kind (some inputs) (some outputs) = if op_rejected g inputs outputs then (g, 0) else (
  record {
    values = set_producers g.values outputs (num_ops g + 1);
    ops = g.ops ++ (record { kind = kind; inputs = inputs; outputs = outputs; epoch = 0 } ∷ []);
    sorted = false;
  },
  num_ops g + 1,
)

unfoldable pub set_input : Graph → ℕ → Graph
set_input g v =
    if bad_value g v
    then g
    else record g { values = set g.values v (record (value_at g v) { is_input = true }) }

unfoldable pub set_output : Graph → ℕ → Graph
set_output g v =
    if bad_value g v
    then g
    else record g { values = set g.values v (record (value_at g v) { is_output = true }) }
