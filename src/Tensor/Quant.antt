-- ===== src/Tensor/Quant.antt =====
-- tensor/dtype.c: quantisation metadata. The floating point arithmetic of C is a parameter.
use prospero_ai.Prelude.{
  refl, ℕ, ◌<◌, ◌≤◌, ◌≡◌, sym, ap, ◌∙◌, inl, inr, Bool-cases, Bool, true, false, not, ◌||◌, Option,
  none, some, List, get_or, leb, ltb, ◌==◌, if◌then◌else◌, arith,
}
use native.Mathlib.Decide.{dec_lt}
use prospero_ai.Status.{Result, ok, err, Status}
use prospero_ai.Tensor.Element.{Dtype, dtype_size, dtype_accumulator}

-- `of_int` is the conversion of an int32_t, given by its value in a type of the caller's.
pub record FloatOps (F I : Type 0) : Type 0 where
  pub zero_f : F
  pub one_f : F
  pub is_finite : F → Bool
  pub is_zero : F → Bool
  pub of_int : I → F
  pub minus : F → F → F
  pub times : F → F → F

pub data Scheme : Type 0 where
  none_scheme per_tensor per_channel : Scheme

-- pai_quant_t
pub record Quant (F : Type 0) : Type 0 where
  pub scheme : Scheme
  pub storage : Dtype
  pub accumulator : Dtype
  pub scale : F
  pub zero_point : F
  pub channels : ℕ
  pub scale_ch : Option (List F)
  pub zero_point_ch : Option (List F)

unfoldable pub quant_storage_ok : Dtype → Bool
quant_storage_ok Dtype.i16 = true
quant_storage_ok Dtype.u16 = true
quant_storage_ok Dtype.i8 = true
quant_storage_ok Dtype.u8 = true
quant_storage_ok Dtype.f32 = false
quant_storage_ok Dtype.f16 = false
quant_storage_ok Dtype.bf16 = false
quant_storage_ok Dtype.i32 = false
quant_storage_ok Dtype.u32 = false
quant_storage_ok Dtype.count = false

module _ {F I : Type 0} (ops : FloatOps F I) where
  unfoldable pub quant_init : Quant F
  quant_init = record {
    scheme = Scheme.none_scheme;
    storage = Dtype.f32;
    accumulator = Dtype.f32;
    scale = ops.one_f;
    zero_point = ops.zero_f;
    channels = 0;
    scale_ch = none;
    zero_point_ch = none;
  }

  unfoldable pub quant_init_per_tensor : Dtype → (scale zero_point : F) → Result (Quant F)
  quant_init_per_tensor storage scale zero_point =
      if not (quant_storage_ok storage)
      then err Status.invalid_arg
      else if not (ops.is_finite scale) || ops.is_zero scale
      then err Status.invalid_arg
      else ok (record {
        scheme = Scheme.per_tensor;
        storage = storage;
        accumulator = dtype_accumulator storage;
        scale = scale;
        zero_point = zero_point;
        channels = 0;
        scale_ch = none;
        zero_point_ch = none;
      })

  abbrev pub is_none : Option (List F) → Bool
  is_none none = true
  is_none (some _) = false

  unfoldable pub quant_init_per_channel :
      Dtype → (channels : ℕ) → (scale_ch zero_point_ch : Option (List F)) → Result (Quant F)
  quant_init_per_channel storage channels scale_ch zero_point_ch =
      if not (quant_storage_ok storage)
      then err Status.invalid_arg
      else if channels == 0 || (is_none scale_ch || is_none zero_point_ch)
      then err Status.invalid_arg
      else ok (record {
        scheme = Scheme.per_channel;
        storage = storage;
        accumulator = dtype_accumulator storage;
        scale = ops.one_f;
        zero_point = ops.zero_f;
        channels = channels;
        scale_ch = scale_ch;
        zero_point_ch = zero_point_ch;
      })

  -- ((float)stored - zero_point) * scale
  abbrev affine : I → (zero_point scale : F) → F
  affine stored zero_point scale = ops.times (ops.minus (ops.of_int stored) zero_point) scale

  -- The entries of a channel, where the two arrays are not NULL.
  unfoldable pub dequant_channel :
      (channels : ℕ) → Option (List F) → Option (List F) → (channel : ℕ) → I → F
  dequant_channel channels (some scales) (some zeros) channel stored =
      if leb channels channel
      then ops.zero_f
      else affine stored (get_or zeros channel ops.zero_f) (get_or scales channel ops.zero_f)
  dequant_channel channels none zeros channel stored = ops.zero_f
  dequant_channel channels (some scales) none channel stored = ops.zero_f

  unfoldable pub dequant_by : Scheme → Quant F → (channel : ℕ) → I → F
  unfolding dequant_channel
  dequant_by Scheme.per_tensor q channel stored = affine stored q.zero_point q.scale
  dequant_by Scheme.per_channel q channel stored =
      dequant_channel q.channels q.scale_ch q.zero_point_ch channel stored
  dequant_by Scheme.none_scheme q channel stored = ops.of_int stored

  unfoldable pub quant_dequant : Option (Quant F) → (channel : ℕ) → I → F
  unfolding dequant_by
  quant_dequant none channel stored = ops.of_int stored
  quant_dequant (some q) channel stored = dequant_by q.scheme q channel stored

  unfoldable pub quant_accumulator : Option (Quant F) → Dtype
  quant_accumulator none = Dtype.count
  quant_accumulator (some q) = q.accumulator

  flip_test : (n i : ℕ) (x y : F) → (if leb n i then y else x) ≡ (if ltb i n then x else y)
  flip_test n i x y = elim (dec_lt i n) [
    | yes lt ↦
        let le : leb n i ≡ false = ground (arith, lt) in
        let test : ltb i n ≡ true = ground (arith, lt) in rw (le, test) refl
    | no ge ↦
        let le : leb n i ≡ true = ground (arith, ge) in
        let test : ltb i n ≡ false = ground (arith, ge) in rw (le, test) refl
  ]

  -- Which storage types a quantised tensor may have: those that accumulate in i32 and are not i32.
  storage_accumulates :
      (storage : Dtype) → quant_storage_ok storage ≡ true → dtype_accumulator storage ≡ Dtype.i32
  unfolding quant_storage_ok dtype_accumulator
  storage_accumulates storage h = ground arith

  storage_small :
      (storage : Dtype)
      → quant_storage_ok storage ≡ true
      → (0 < dtype_size storage) × (dtype_size storage ≤ 2)
  unfolding quant_storage_ok dtype_size
  storage_small storage h = ground arith

  abbrev pub of_tensor : Dtype → (scale zero_point : F) → Quant F
  of_tensor storage scale zero_point = record {
    scheme = Scheme.per_tensor;
    storage = storage;
    accumulator = dtype_accumulator storage;
    scale = scale;
    zero_point = zero_point;
    channels = 0;
    scale_ch = none;
    zero_point_ch = none;
  }

  abbrev pub of_channels : Dtype → (channels : ℕ) → (scales zeros : List F) → Quant F
  of_channels storage channels scales zeros = record {
    scheme = Scheme.per_channel;
    storage = storage;
    accumulator = dtype_accumulator storage;
    scale = ops.one_f;
    zero_point = ops.zero_f;
    channels = channels;
    scale_ch = some scales;
    zero_point_ch = some zeros;
  }

  ok-injective : {q r : Quant F} → ok q ≡ ok r → q ≡ r
  ok-injective e = cc

  accepted_tensor :
      (storage : Dtype) (scale zero_point : F) (q : Quant F)
      → quant_init_per_tensor storage scale zero_point ≡ ok q
      → (quant_storage_ok storage ≡ true)
        × (ops.is_finite scale ≡ true)
        × (ops.is_zero scale ≡ false)
        × (of_tensor storage scale zero_point ≡ q)
  unfolding quant_init_per_tensor
  accepted_tensor storage scale zero_point q e = elim (Bool-cases (quant_storage_ok storage)) [
    | inr bad ↦ cc (rw bad at e)
    | inl good ↦ elim (Bool-cases (ops.is_finite scale)) [
      | inr bad ↦ cc (rw (good, bad) at e)
      | inl finite ↦ elim (Bool-cases (ops.is_zero scale)) [
        | inl bad ↦ cc (rw (good, finite, bad) at e)
        | inr fine ↦ (good, finite, fine, ok-injective (rw (good, finite, fine) at e))
      ]
    ]
  ]

  accepted_channels :
      (storage : Dtype) (channels : ℕ) (scales zeros : List F) (q : Quant F)
      → quant_init_per_channel storage channels (some scales) (some zeros) ≡ ok q
      → (quant_storage_ok storage ≡ true)
        × (0 < channels)
        × (of_channels storage channels scales zeros ≡ q)
  unfolding quant_init_per_channel
  accepted_channels storage channels scales zeros q e =
      elim (Bool-cases (quant_storage_ok storage)) [
        | inr bad ↦ cc (rw bad at e)
        | inl good ↦ elim (Bool-cases (channels == 0)) [
          | inl bad ↦ cc (rw (good, bad) at e)
          | inr fine ↦ (good, ground (arith, fine), ok-injective (rw (good, fine) at e))
        ]
      ]

  -- A descriptor accepted with one scale has a finite scale that is not zero, and one accepted with
  -- a scale for each channel has a channel; both are for elements of one or two bytes, and
  -- accumulate in i32. The first maps a stored number to (stored - zero point) * scale, in the
  -- arithmetic of the floating point operations, and the second does so with the entries of the
  -- channel; a channel that is out of range maps to zero.
  pub quant_dequant_lem :
      (storage : Dtype) (scale zero_point : F) (channels : ℕ) (scales zeros : List F)
      (q q' : Quant F) (channel : ℕ) (stored : I)
      → quant_init_per_tensor storage scale zero_point ≡ ok q
      → quant_init_per_channel storage channels (some scales) (some zeros) ≡ ok q'
      → (ops.is_finite scale ≡ true)
        × (ops.is_zero scale ≡ false)
        × (0 < channels)
        × (0 < dtype_size storage)
        × (dtype_size storage ≤ 2)
        × (quant_accumulator (some q) ≡ Dtype.i32)
        × (quant_accumulator (some q') ≡ Dtype.i32)
        × (quant_dequant (some q) channel stored
            ≡ ops.times (ops.minus (ops.of_int stored) zero_point) scale)
        × (quant_dequant (some q') channel stored ≡ (
            if ltb channel channels
            then ops.times
                (ops.minus (ops.of_int stored) (get_or zeros channel ops.zero_f))
                (get_or scales channel ops.zero_f)
            else ops.zero_f))
  unfolding quant_dequant quant_accumulator
  quant_dequant_lem storage scale zero_point channels scales zeros q q' channel stored e e' =
      let (good, finite, nonzero, same) = accepted_tensor storage scale zero_point q e in
      let (_, some_channel, same') = accepted_channels storage channels scales zeros q' e' in
      (
        finite,
        nonzero,
        some_channel,
        (storage_small storage good).0,
        (storage_small storage good).1,
        sym (ap (λ r. r.accumulator) same) ∙ storage_accumulates storage good,
        sym (ap (λ r. r.accumulator) same') ∙ storage_accumulates storage good,
        sym (ap (λ r. dequant_by r.scheme r channel stored) same),
        sym (ap (λ r. dequant_by r.scheme r channel stored) same') ∙ flip_test channels channel _ _,
      )
