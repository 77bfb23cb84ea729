-- ===== src/Tensor/Element.antt =====
-- tensor/dtype.c: the table of element types.
use prospero_ai.Prelude.{ℕ}

-- `count` stands for PAI_DTYPE_COUNT and for every number beyond it.
pub data Dtype : Type 0 where
  f32 f16 bf16 i32 u32 i16 u16 i8 u8 count : Dtype

unfoldable pub dtype_size : Dtype → ℕ
dtype_size Dtype.f32 = 4
dtype_size Dtype.f16 = 2
dtype_size Dtype.bf16 = 2
dtype_size Dtype.i32 = 4
dtype_size Dtype.u32 = 4
dtype_size Dtype.i16 = 2
dtype_size Dtype.u16 = 2
dtype_size Dtype.i8 = 1
dtype_size Dtype.u8 = 1
dtype_size Dtype.count = 0

unfoldable pub dtype_bits : Dtype → ℕ
dtype_bits Dtype.f32 = 32
dtype_bits Dtype.f16 = 16
dtype_bits Dtype.bf16 = 16
dtype_bits Dtype.i32 = 32
dtype_bits Dtype.u32 = 32
dtype_bits Dtype.i16 = 16
dtype_bits Dtype.u16 = 16
dtype_bits Dtype.i8 = 8
dtype_bits Dtype.u8 = 8
dtype_bits Dtype.count = 0

unfoldable pub dtype_accumulator : Dtype → Dtype
dtype_accumulator Dtype.f32 = Dtype.f32
dtype_accumulator Dtype.i32 = Dtype.i32
dtype_accumulator Dtype.u32 = Dtype.u32
dtype_accumulator Dtype.f16 = Dtype.f32
dtype_accumulator Dtype.bf16 = Dtype.f32
dtype_accumulator Dtype.i16 = Dtype.i32
dtype_accumulator Dtype.u16 = Dtype.i32
dtype_accumulator Dtype.i8 = Dtype.i32
dtype_accumulator Dtype.u8 = Dtype.i32
dtype_accumulator Dtype.count = Dtype.count
