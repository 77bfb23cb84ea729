-- ===== src/Tensor/Tests.antt =====
-- Runs of tensor/tensor.c and tensor/dtype.c at concrete inputs.
use prospero_ai.Prelude.{
  ℕ, ◌-◌, ◌*◌, ◌^◌, ◌≡◌, ◌≢◌, refl, true, false, ◌<◌, ◌≤◌, some, List, [], ◌∷◌, ◌==◌, ltb, leb,
  ◌||◌, if◌then◌else◌, arith,
}
use prospero_ai.Status.{ok, err, Status}
use prospero_ai.Tensor.Element.{Dtype, dtype_size}
use prospero_ai.Tensor.Quant.{
  FloatOps, quant_storage_ok, quant_init_per_tensor, quant_init_per_channel, quant_dequant,
  quant_accumulator, of_tensor, of_channels, quant_dequant_lem,
}
use prospero_ai.Tensor.{Tensor, has_zero, contiguous_size, tensor_nelem}
use prospero_ai.Tensor.Size.{product, IsFull, contiguous_size_outcome}
use prospero_ai.Tensor.Offset.{Enumerates, Initialised, tensor_offset_bijective}

abbrev matrix : List ℕ
matrix = 3 ∷ 4 ∷ []

sized_f32 : dtype_size Dtype.f32 ≢ 0
unfolding dtype_size
sized_f32 = omega arith

matrix-IsFull : IsFull matrix
unfolding has_zero
matrix-IsFull = refl

contiguous_size_outcome_example : contiguous_size Dtype.f32 (some matrix) true ≡ (
    if has_zero matrix || leb (2 ^ 64) (product matrix * dtype_size Dtype.f32)
    then err Status.invalid_arg
    else ok (product matrix * dtype_size Dtype.f32))
contiguous_size_outcome_example = contiguous_size_outcome Dtype.f32 matrix refl sized_f32

contiguous_run : contiguous_size Dtype.f32 (some matrix) true ≡ ok 48
unfolding contiguous_size dtype_size
contiguous_run = refl

tensor_offset_bijective_example :
    (t : Tensor) × Initialised Dtype.f32 matrix 4096 t
    × (tensor_nelem (some t) ≡ product matrix)
    × Enumerates matrix t
tensor_offset_bijective_example =
    tensor_offset_bijective Dtype.f32 matrix 4096 refl sized_f32 matrix-IsFull
      (unfold product in omega arith)

-- Natural numbers in place of floats.
abbrev whole : FloatOps ℕ ℕ
whole = record {
  zero_f = 0;
  one_f = 1;
  is_finite = λ _. true;
  is_zero = λ x. x == 0;
  of_int = λ n. n;
  minus = λ a b. a - b;
  times = λ a b. a * b;
}

by_tensor : quant_init_per_tensor whole Dtype.u8 3 1 ≡ ok (of_tensor whole Dtype.u8 3 1)
unfolding quant_init_per_tensor quant_storage_ok
by_tensor = refl

by_channel :
    quant_init_per_channel whole Dtype.u8 1 (some (5 ∷ [])) (some (2 ∷ []))
    ≡ ok (of_channels whole Dtype.u8 1 (5 ∷ []) (2 ∷ []))
unfolding quant_init_per_channel quant_storage_ok
by_channel = refl

quant_dequant_lem_example :
    (whole.is_finite 3 ≡ true)
    × (whole.is_zero 3 ≡ false)
    × (0 < 1)
    × (0 < dtype_size Dtype.u8)
    × (dtype_size Dtype.u8 ≤ 2)
    × (quant_accumulator whole (some (of_tensor whole Dtype.u8 3 1)) ≡ Dtype.i32)
    × (quant_accumulator whole (some (of_channels whole Dtype.u8 1 (5 ∷ []) (2 ∷ []))) ≡ Dtype.i32)
    × (quant_dequant whole (some (of_tensor whole Dtype.u8 3 1)) 0 9 ≡ (9 - 1) * 3)
    × (quant_dequant whole (some (of_channels whole Dtype.u8 1 (5 ∷ []) (2 ∷ []))) 0 9
        ≡ (if ltb 0 1 then (9 - 2) * 5 else 0))
quant_dequant_lem_example =
    quant_dequant_lem whole Dtype.u8 3 1 1 (5 ∷ []) (2 ∷ []) _ _ 0 9 by_tensor by_channel
