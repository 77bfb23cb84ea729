-- ===== src/Status.antt =====
-- sdk/include/pai/error.h: the status codes, and the result of a function that reports one.
-- `pai_status_t` is an int32; `to_u32` is the cast that the wire format applies.
use prospero_ai.Prelude.{Bool, true, false, ℕ, ◌-◌, ◌^◌}

pub data Status : Type 0 where
  success invalid_arg nomem unsupported capability timeout : Status
  mismatch io init internal protocol : Status

-- A function that fills its output pointers and returns PAI_OK, or returns an error code.
pub data Result {ℓ} (A : Type ℓ) : Type ℓ where
  ok : A → Result A
  err : Status → Result A

infixl 5 ◌>>=◌
abbrev pub ◌>>=◌ {ℓ κ} : {A : Type ℓ} {B : Type κ} → Result A → (A → Result B) → Result B
ok a >>= f = f a
err e >>= f = err e

unfoldable pub to_u32 : Status → ℕ
to_u32 success = 0
to_u32 invalid_arg = 2 ^ 32 - 1
to_u32 nomem = 2 ^ 32 - 2
to_u32 unsupported = 2 ^ 32 - 3
to_u32 capability = 2 ^ 32 - 4
to_u32 timeout = 2 ^ 32 - 5
to_u32 mismatch = 2 ^ 32 - 6
to_u32 io = 2 ^ 32 - 7
to_u32 init = 2 ^ 32 - 8
to_u32 internal = 2 ^ 32 - 9
to_u32 protocol = 2 ^ 32 - 10

-- st == PAI_OK
abbrev pub is_success : Status → Bool
is_success success = true
is_success _ = false
