-- ===== src/Tensor.antt =====
-- tensor/tensor.c: dense row-major tensor descriptors. The first `rank` entries of a C array of
-- dimensions are a list, so `rank` is its length.
pub mod Element
pub mod Quant
pub mod Size
pub mod Offset
mod Tests
use prospero_ai.Prelude.{
  ℕ, zero, suc, ◌+◌, ◌-◌, ◌*◌, ◌/◌, ◌%◌, ◌^◌, Bool, true, false, ◌||◌, Option, none, some, List, [],
  ◌∷◌, length, ltb, ◌==◌, if◌then◌else◌,
}
use prospero_ai.Status.{Result, ok, err, Status}
use prospero_ai.Tensor.Element.{Dtype, dtype_size}

-- pai_tensor_t; `data` is an address.
pub record Tensor : Type 0 where
  pub dtype : Dtype
  pub shape : List ℕ
  pub strides : List ℕ
  pub address : ℕ
  pub size_bytes : ℕ

abbrev pub max_rank : ℕ
max_rank = 6

abbrev pub bad_rank : ℕ → Bool
bad_rank rank = rank == 0 || ltb max_rank rank

-- for (i = 0; i < rank; i++) if (shape[i] == 0) return PAI_ERR_INVALID_ARG;
unfoldable pub has_zero : List ℕ → Bool
has_zero [] = false
has_zero (d ∷ rest) = d == 0 || has_zero rest

-- for (i = rank; i > 0; i--) { strides[i - 1] = stride; stride *= shape[i - 1]; }: the strides of the
-- dimensions given, and `stride` after them.
unfoldable pub row_major : List ℕ → List ℕ × ℕ
row_major [] = ([], 1)
row_major (d ∷ rest) =
    let (strides, stride) = row_major rest in (stride ∷ strides, stride * d % 2 ^ 64)

unfoldable pub tensor_init : Dtype → Option (List ℕ) → (address : ℕ) → Result Tensor
unfolding has_zero row_major
tensor_init dtype none address = err Status.invalid_arg
tensor_init dtype (some shape) address =
    let (strides, stride) = row_major shape in
    if bad_rank (length shape)
    then err Status.invalid_arg
    else if dtype_size dtype == 0
    then err Status.unsupported
    else if has_zero shape
    then err Status.invalid_arg
    else ok (record {
      dtype = dtype;
      shape = shape;
      strides = strides;
      address = address;
      size_bytes = stride * dtype_size dtype % 2 ^ 64;
    })

-- for (i = 0; i < rank; i++) n *= shape[i];
unfoldable pub nelem_loop : (n : ℕ) → List ℕ → ℕ
nelem_loop n [] = n
nelem_loop n (d ∷ rest) = nelem_loop (n * d % 2 ^ 64) rest

unfoldable pub tensor_nelem : Option Tensor → ℕ
unfolding nelem_loop
tensor_nelem none = 0
tensor_nelem (some t) = nelem_loop 1 t.shape

-- The loop of `pai_tensor_contiguous_size`; nothing where it returns PAI_ERR_INVALID_ARG.
unfoldable pub checked_nelem : (n : ℕ) → List ℕ → Option ℕ
checked_nelem n [] = some n
checked_nelem n (d ∷ rest) =
    let further = checked_nelem (n * d % 2 ^ 64) rest in
    if d == 0 || ltb ((2 ^ 64 - 1) / d) n then none else further

-- The value of `*out_bytes` where the status is PAI_OK.
unfoldable pub contiguous_size : Dtype → Option (List ℕ) → (outputs : Bool) → Result ℕ
unfolding checked_nelem
contiguous_size dtype none outputs = err Status.invalid_arg
contiguous_size dtype (some shape) false = err Status.invalid_arg
contiguous_size dtype (some shape) true =
    if bad_rank (length shape)
    then err Status.invalid_arg
    else if dtype_size dtype == 0
    then err Status.unsupported
    else elim (checked_nelem 1 shape) [
      | none ↦ err Status.invalid_arg
      | some n ↦
          if ltb ((2 ^ 64 - 1) / dtype_size dtype) n
          then err Status.invalid_arg
          else ok (n * dtype_size dtype % 2 ^ 64)
    ]

-- for (i = 0; i < rank; i++) off += index[i] * strides[i];
unfoldable pub offset_loop : (off : ℕ) → (index strides : List ℕ) → ℕ
offset_loop off (i ∷ index) (s ∷ strides) = offset_loop ((off + i * s) % 2 ^ 64) index strides
offset_loop off _ _ = off

unfoldable pub tensor_offset : Tensor → (index : List ℕ) → ℕ
unfolding offset_loop
tensor_offset t index = offset_loop 0 index t.strides
