-- ===== src/Tensor/Size.antt =====
-- The size of a buffer, and when it is too large.
use prospero_ai.Prelude.{
  ℕ, ◌-◌, ◌*◌, ◌/◌, ◌%◌, ◌^◌, ◌≤◌, ◌<◌, ◌≡◌, ◌≢◌, refl, ap, ◌∙◌, true, false, Bool-cases, inl, inr,
  leb, ◌||◌, Option, none, some, List, [], ◌∷◌, length, ltb, ==_ne, if◌then◌else◌, arith,
}
use native.Mathlib.Nat.{le-div_iff_mul-le, mul_assoc, one-le-mul, mul-le-mul_left}
use native.Mathlib.Decide.{dec_le, dec_lt}
use prospero_ai.Status.{Result, ok, err, Status}
use prospero_ai.Tensor.Element.{Dtype, dtype_size}
use prospero_ai.Tensor.{bad_rank, has_zero, checked_nelem, contiguous_size}

-- The number of elements, without a bound.
unfoldable pub product : List ℕ → ℕ
product [] = 1
product (d ∷ rest) = d * product rest

-- The test by division says whether the product leaves the word.
division_test : (n d : ℕ) → d ≢ 0 → ltb ((2 ^ 64 - 1) / d) n ≡ ltb (2 ^ 64 - 1) (n * d)
division_test n d nonzero = elim (dec_le n ((2 ^ 64 - 1) / d)) [
  | yes le ↦ ground (arith, le, below.0 le)
  | no gt ↦ ground (arith, λ (k : n * d ≤ 2 ^ 64 - 1). gt (below.1 k))
]
  where
    below :
        (n ≤ (2 ^ 64 - 1) / d → n * d ≤ 2 ^ 64 - 1) × (n * d ≤ 2 ^ 64 - 1 → n ≤ (2 ^ 64 - 1) / d)
    below = le-div_iff_mul-le {k = d} {x = n} {y = 2 ^ 64 - 1} (omega arith)

pub product_pos : (shape : List ℕ) → has_zero shape ≡ false → 1 ≤ product shape
unfolding has_zero product
product_pos [] h = omega arith
product_pos (d ∷ rest) h = one-le-mul (ground arith) (product_pos rest (ground arith))

-- The shape is without a dimension of size 0.
abbrev pub IsFull : List ℕ → Type 0
IsFull shape = has_zero shape ≡ false

checked_step :
    (n d : ℕ) (rest : List ℕ)
    → d ≢ 0
    → (n * d < 2 ^ 64 → checked_nelem n (d ∷ rest) ≡ checked_nelem (n * d) rest)
      × (2 ^ 64 ≤ n * d → checked_nelem n (d ∷ rest) ≡ none)
unfolding checked_nelem
checked_step n d rest nonzero = (
  (λ fits.
      rw (==_ne d 0 nonzero, division_test n d nonzero, small fits)
        (ap (λ k. checked_nelem k rest) (omega arith))),
  (λ big. rw (==_ne d 0 nonzero, division_test n d nonzero, large big) refl),
)
  where
    small : n * d < 2 ^ 64 → ltb (2 ^ 64 - 1) (n * d) ≡ false
    small fits = ground arith

    large : 2 ^ 64 ≤ n * d → ltb (2 ^ 64 - 1) (n * d) ≡ true
    large big = ground arith

pub IsFull-head : (d : ℕ) (rest : List ℕ) → IsFull (d ∷ rest) → (d ≢ 0) × IsFull rest
unfolding has_zero
IsFull-head d rest h = (ground arith, ground arith)

-- While the product stays within the word the loop multiplies.
pub checked_nelem-ok :
    (n : ℕ) (shape : List ℕ)
    → IsFull shape
    → n * product shape < 2 ^ 64
    → checked_nelem n shape ≡ some (n * product shape)
unfolding product
checked_nelem-ok n [] full fits = unfold checked_nelem in ap some (omega arith)
checked_nelem-ok n (d ∷ rest) full fits =
    let (nonzero, full') = IsFull-head d rest full in
    let grouped : n * d * product rest ≡ n * (d * product rest) = mul_assoc n d (product rest) in
    let le : n * d * 1 ≤ n * d * product rest = mul-le-mul_left (n * d) (product_pos rest full') in
    (checked_step n d rest nonzero).0 (omega (arith, grouped, le))
    ∙ checked_nelem-ok (n * d) rest full' (omega (arith, grouped))
    ∙ ap some grouped

-- A product that leaves the word is noticed.
pub checked_nelem-large :
    (n : ℕ) (shape : List ℕ)
    → IsFull shape
    → n < 2 ^ 64
    → 2 ^ 64 ≤ n * product shape
    → checked_nelem n shape ≡ none
unfolding product
checked_nelem-large n [] full word big = absurd (omega arith)
checked_nelem-large n (d ∷ rest) full word big =
    let (nonzero, full') = IsFull-head d rest full in
    let grouped : n * d * product rest ≡ n * (d * product rest) = mul_assoc n d (product rest) in
    elim (dec_lt (n * d) (2 ^ 64)) [
      | yes fits ↦
          (checked_step n d rest nonzero).0 fits
          ∙ checked_nelem-large (n * d) rest full' fits (omega (arith, grouped))
      | no over ↦ (checked_step n d rest nonzero).1 (omega arith)
    ]

pub checked_nelem-zero :
    (n : ℕ) (shape : List ℕ) → has_zero shape ≡ true → checked_nelem n shape ≡ none
unfolding has_zero checked_nelem
checked_nelem-zero n [] h = cc
checked_nelem-zero n (d ∷ rest) h = ground (arith, checked_nelem-zero (n * d % 2 ^ 64) rest)

-- For a shape of one to six dimensions and an element type with a size, the result is the number of
-- bytes, unless a dimension is 0 or the bytes do not fit in 64 bits: then the shape is an invalid
-- argument.
pub contiguous_size_outcome :
    (dtype : Dtype) (shape : List ℕ)
    → bad_rank (length shape) ≡ false
    → dtype_size dtype ≢ 0
    → contiguous_size dtype (some shape) true ≡ (
        if has_zero shape || leb (2 ^ 64) (product shape * dtype_size dtype)
        then err Status.invalid_arg
        else ok (product shape * dtype_size dtype))
unfolding contiguous_size
contiguous_size_outcome dtype shape rank sized = elim (Bool-cases (has_zero shape)) [
  | inl z ↦ rw z (zero_case z)
  | inr full ↦ elim (dec_lt (product shape * size) (2 ^ 64)) [
    | yes fits ↦
        let test : leb (2 ^ 64) (product shape * size) ≡ false = ground (arith, fits) in
        rw (full, test) (fits_case full fits)
    | no over ↦
        let test : leb (2 ^ 64) (product shape * size) ≡ true = ground (arith, over) in
        rw (full, test) (large_case full (omega (arith, over)))
  ]
]
  where
    size : ℕ
    size = dtype_size dtype

    finish : Option ℕ → Result ℕ
    finish counted = elim counted [
      | none ↦ err Status.invalid_arg
      | some n ↦
          if ltb ((2 ^ 64 - 1) / size) n then err Status.invalid_arg else ok (n * size % 2 ^ 64)
    ]

    opened : contiguous_size dtype (some shape) true ≡ finish (checked_nelem 1 shape)
    opened = rw (rank, ==_ne size 0 sized) refl

    one : 1 * product shape ≡ product shape
    one = omega arith

    counted : IsFull shape → product shape < 2 ^ 64 → checked_nelem 1 shape ≡ some (product shape)
    counted full fits = checked_nelem-ok 1 shape full (omega (arith, one)) ∙ ap some one

    wider : product shape * 1 ≤ product shape * size
    wider = mul-le-mul_left (product shape) (omega arith)

    fits_case :
        IsFull shape
        → product shape * size < 2 ^ 64
        → contiguous_size dtype (some shape) true ≡ ok (product shape * size)
    fits_case full fits =
        opened
        ∙ ap finish (counted full (omega (arith, wider)))
        ∙ rw (division_test (product shape) size sized) (ground arith)

    large_case :
        IsFull shape
        → 2 ^ 64 ≤ product shape * size
        → contiguous_size dtype (some shape) true ≡ err Status.invalid_arg
    large_case full large = elim (dec_lt (product shape) (2 ^ 64)) [
      | yes fits ↦
          opened
          ∙ ap finish (counted full fits)
          ∙ rw (division_test (product shape) size sized) (ground arith)
      | no over ↦
          opened ∙ ap finish (checked_nelem-large 1 shape full (omega arith) (omega (arith, one)))
    ]

    zero_case :
        has_zero shape ≡ true → contiguous_size dtype (some shape) true ≡ err Status.invalid_arg
    zero_case z = opened ∙ ap finish (checked_nelem-zero 1 shape z)
