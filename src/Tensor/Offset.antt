-- ===== src/Tensor/Offset.antt =====
-- Row-major addressing: the coordinates of a tensor and the numbers below its element count.
use prospero_ai.Prelude.{
  ℕ, suc, ◌+◌, ◌*◌, ◌/◌, ◌%◌, ◌^◌, ◌≤◌, ◌<◌, ◌≡◌, ◌≢◌, refl, sym, ap, ap₂, ◌∙◌, false, some, List,
  [], ◌∷◌, length, ==_ne, arith,
}
use native.Mathlib.Nat.{
  mul-le-mul_left, mul-le-mul_right, div-add-mod, mod-lt, div-lt_iff_lt-mul, mul_comm, mul_assoc,
}
use native.Mathlib.Decide.{dec_lt}
use prospero_ai.Status.{ok}
use prospero_ai.Tensor.Element.{Dtype, dtype_size}
use prospero_ai.Tensor.{
  Tensor, bad_rank, row_major, tensor_init, nelem_loop, tensor_nelem, offset_loop, tensor_offset,
}
use prospero_ai.Tensor.Size.{product, product_pos, IsFull, IsFull-head}

-- A coordinate for each dimension, below its size.
abbrev pub InBounds : (index shape : List ℕ) → Type 0
InBounds [] [] = Unit {0}
InBounds (i ∷ index) (d ∷ shape) = (i < d) × InBounds index shape
InBounds [] (d ∷ shape) = ⊥
InBounds (i ∷ index) [] = ⊥

-- The place of an element in row-major order, over unbounded numbers.
unfoldable pub flat : (index shape : List ℕ) → ℕ
flat (i ∷ index) (d ∷ shape) = i * product shape + flat index shape
flat _ _ = 0

pub flat-lt : (index shape : List ℕ) → InBounds index shape → flat index shape < product shape
unfolding flat product
flat-lt [] [] h = omega arith
flat-lt (i ∷ index) (d ∷ shape) (lt, h) =
    let le : suc i * product shape ≤ d * product shape =
      mul-le-mul_right (product shape) (omega arith) in
    omega (arith, le, flat-lt index shape h, suc_times i (product shape))
  where
    suc_times : (i p : ℕ) → suc i * p ≡ i * p + p
    suc_times i p = omega arith
flat-lt [] (d ∷ shape) h = elim h [ ]
flat-lt (i ∷ index) [] h = elim h [ ]

-- `i * p + r` with `r` below `p` determines both.
digits_eq : (p i r j s : ℕ) → r < p → s < p → i * p + r ≡ j * p + s → (i ≡ j) × (r ≡ s)
digits_eq p i r j s hr hs e = (top, omega (arith, ap (λ t. t * p) top))
  where
    below : (a b x y : ℕ) → a * p + x ≡ b * p + y → x < p → y < p → a ≤ b
    below a b x y eq hx hy = elim (dec_lt b a) [
      | yes lt ↦
          let le : suc b * p ≤ a * p = mul-le-mul_right p (omega arith) in
          absurd (omega (arith, le))
      | no ge ↦ omega arith
    ]

    top : i ≡ j
    top = omega (arith, below i j r s e hr hs, below j i s r (sym e) hs hr)

pub flat_injective :
    (shape index index' : List ℕ)
    → InBounds index shape
    → InBounds index' shape
    → flat index shape ≡ flat index' shape
    → index ≡ index'
unfolding flat
flat_injective [] [] [] h h' e = refl
flat_injective (d ∷ shape) (i ∷ index) (j ∷ index') (lt, h) (lt', h') e =
    let (top, rest) =
      digits_eq (product shape) i (flat index shape) j (flat index' shape) (flat-lt index shape h)
        (flat-lt index' shape h') e in
    ap₂ ◌∷◌ top (flat_injective shape index index' h h' rest)
flat_injective [] (i ∷ index) index' h h' e = elim h [ ]
flat_injective [] [] (j ∷ index') h h' e = elim h' [ ]
flat_injective (d ∷ shape) [] index' h h' e = elim h [ ]
flat_injective (d ∷ shape) (i ∷ index) [] h h' e = elim h' [ ]

-- Every number below the element count is the place of an element.
pub flat_surjective :
    (shape : List ℕ) (k : ℕ)
    → IsFull shape
    → k < product shape
    → (index : List ℕ) × InBounds index shape × (flat index shape ≡ k)
unfolding flat product
flat_surjective [] k full lt = ([], tt, omega arith)
flat_surjective (d ∷ shape) k full lt =
    let (nonzero, full') = IsFull-head d shape full in
    let pos = product_pos shape full' in
    let (index, h, e) = flat_surjective shape (k % product shape) full' (mod-lt k pos) in
    (
      k / product shape ∷ index,
      ((div-lt_iff_lt-mul {k = product shape} {x = k} {y = d} pos).1 lt, h),
      omega (arith, e, div-add-mod k (product shape), mul_comm (product shape) (k / product shape)),
    )

-- The strides without the wrap-around.
unfoldable pub true_strides : List ℕ → List ℕ
true_strides [] = []
true_strides (d ∷ rest) = product rest ∷ true_strides rest

pub row_major_lem :
    (shape : List ℕ)
    → IsFull shape
    → product shape < 2 ^ 64
    → row_major shape ≡ (true_strides shape, product shape)
unfolding row_major true_strides product
row_major_lem [] full fits = refl
row_major_lem (d ∷ rest) full fits =
    let (nonzero, full') = IsFull-head d rest full in
    let wide : 1 * product rest ≤ d * product rest =
      mul-le-mul_right (product rest) (omega arith) in
    let ih = row_major_lem rest full' (omega (arith, wide)) in
    ap₂ (λ (a : List ℕ × ℕ) (n : ℕ). (a.1 ∷ a.0, n)) ih
      (ap (λ (a : List ℕ × ℕ). a.1 * d % 2 ^ 64) ih
        ∙ ap (λ k. k % 2 ^ 64) (mul_comm (product rest) d)
        ∙ omega arith)

offset_loop_lem :
    (off : ℕ) (index shape : List ℕ)
    → InBounds index shape
    → off + flat index shape < 2 ^ 64
    → offset_loop off index (true_strides shape) ≡ off + flat index shape
unfolding offset_loop true_strides flat
offset_loop_lem off [] [] h fits = omega arith
offset_loop_lem off (i ∷ index) (d ∷ shape) (lt, h) fits =
    ap (λ k. offset_loop k index (true_strides shape)) {y = off + i * product shape} (omega arith)
    ∙ offset_loop_lem (off + i * product shape) index shape h (omega arith)
    ∙ omega arith
offset_loop_lem off [] (d ∷ shape) h fits = elim h [ ]
offset_loop_lem off (i ∷ index) [] h fits = elim h [ ]

nelem_loop_lem :
    (n : ℕ) (shape : List ℕ)
    → n * product shape < 2 ^ 64
    → IsFull shape
    → nelem_loop n shape ≡ n * product shape
unfolding nelem_loop product
nelem_loop_lem n [] fits full = omega arith
nelem_loop_lem n (d ∷ rest) fits full =
    let (nonzero, full') = IsFull-head d rest full in
    let grouped : n * d * product rest ≡ n * (d * product rest) = mul_assoc n d (product rest) in
    let le : n * d * 1 ≤ n * d * product rest = mul-le-mul_left (n * d) (product_pos rest full') in
    ap (λ k. nelem_loop k rest) {y = n * d} (omega (arith, grouped, le))
    ∙ nelem_loop_lem (n * d) rest (omega (arith, grouped)) full'
    ∙ grouped

-- A tensor over the shape, as the program initialises it.
abbrev pub Initialised : Dtype → List ℕ → (address : ℕ) → Tensor → Type 0
Initialised dtype shape address t = tensor_init dtype (some shape) address ≡ ok t

-- Coordinates within the shape have offsets below the element count, different coordinates different
-- ones, and every number below it is the offset of some coordinates.
pub record Enumerates (shape : List ℕ) (t : Tensor) : Type 0 where
  pub within : (index : List ℕ) → InBounds index shape → tensor_offset t index < product shape
  pub injective :
      (index index' : List ℕ)
      → InBounds index shape
      → InBounds index' shape
      → tensor_offset t index ≡ tensor_offset t index'
      → index ≡ index'
  pub surjective :
      (k : ℕ)
      → k < product shape
      → (index : List ℕ) × InBounds index shape × (tensor_offset t index ≡ k)

-- For a shape of one to six dimensions without a zero, whose element count fits in 64 bits, and an
-- element type with a size, initialising a tensor succeeds, `pai_tensor_nelem` is that count, and the
-- offsets of coordinates within the shape enumerate the numbers below it, each once.
pub tensor_offset_bijective :
    (dtype : Dtype) (shape : List ℕ) (address : ℕ)
    → bad_rank (length shape) ≡ false
    → dtype_size dtype ≢ 0
    → IsFull shape
    → product shape < 2 ^ 64
    → (t : Tensor) × Initialised dtype shape address t
      × (tensor_nelem (some t) ≡ product shape)
      × Enumerates shape t
unfolding tensor_offset
tensor_offset_bijective dtype shape address rank sized full fits = (
  t,
  opened,
  counted,
  record {
    within = λ index h. omega (arith, at index h, flat-lt index shape h);
    injective = λ index index' h h' e.
        flat_injective shape index index' h h' (sym (at index h) ∙ e ∙ at index' h');
    surjective =
        λ k lt. let (index, h, e) = flat_surjective shape k full lt in (index, h, at index h ∙ e);
  },
)
  where
    t : Tensor
    t = record {
      dtype = dtype;
      shape = shape;
      strides = (row_major shape).0;
      address = address;
      size_bytes = (row_major shape).1 * dtype_size dtype % 2 ^ 64;
    }

    opened : tensor_init dtype (some shape) address ≡ ok t
    opened = unfold tensor_init in rw (rank, ==_ne (dtype_size dtype) 0 sized, full) refl

    counted : tensor_nelem (some t) ≡ product shape
    counted = unfold tensor_nelem in nelem_loop_lem 1 shape (omega arith) full ∙ omega arith

    at :
        (index : List ℕ)
        → InBounds index shape
        → offset_loop 0 index (row_major shape).0 ≡ flat index shape
    at index h =
        ap (λ (a : List ℕ × ℕ). offset_loop 0 index a.0) (row_major_lem shape full fits)
        ∙ offset_loop_lem 0 index shape h (omega (arith, flat-lt index shape h))
        ∙ omega arith
