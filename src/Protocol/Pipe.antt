-- ===== src/Protocol/Pipe.antt =====
-- protocol/transport_pipe.c: one direction of the in-memory transport. A copy beyond the end of the
-- buffer and a loop that does not end are outcomes of their own.
pub mod Grow
pub mod Window
pub mod Queue
pub mod Pull
use prospero_ai.Prelude.{
  ℕ, zero, suc, ◌+◌, ◌-◌, ◌*◌, ◌%◌, ◌^◌, Bool, not, Option, none, some, List, [], ◌∷◌, ◌++◌, length,
  take, drop, replicate, ltb, ◌==◌, if◌then◌else◌,
}
use prospero_ai.Status.{Status}

-- pai_proto_pipe_t; `buf` is the memory that `malloc` returned.
pub record Pipe : Type 0 where
  pub buf : List ℕ
  pub cap : ℕ
  pub head : ℕ
  pub len : ℕ
  pub closed : Bool

pub data Outcome {ℓ} (A : Type ℓ) : Type ℓ where
  done : A → Outcome A
  overflows : Outcome A
  diverges : Outcome A

-- while (newcap < need) newcap *= 2; from 32 rounds on the product has wrapped to 0 and stays there.
unfoldable pub grow_cap : (rounds newcap need : ℕ) → Option ℕ
grow_cap zero newcap need = if ltb newcap need then none else some newcap
grow_cap (suc rounds) newcap need =
    let further = grow_cap rounds (newcap * 2 % 2 ^ 32) need in
    if ltb newcap need then further else some newcap

-- memcpy(pipe->buf + pipe->head + pipe->len, p, nbytes); pipe->len += nbytes;
unfoldable pub append_bytes : Pipe → List ℕ → Outcome (Status × Pipe)
append_bytes p bytes =
    let at = p.head + p.len in
    if ltb p.cap (at + length bytes)
    then Outcome.overflows
    else Outcome.done (
      Status.success,
      record p {
        buf = take at p.buf ++ (bytes ++ drop (at + length bytes) p.buf);
        len = (p.len + length bytes) % 2 ^ 32;
      },
    )

-- The buffer moves to a new one of `newcap` bytes, those behind the data not initialised.
unfoldable pub moved : Pipe → (newcap : ℕ) → Pipe
moved p newcap = record p {
  buf = take p.len (drop p.head p.buf) ++ replicate (newcap - p.len) 0;
  cap = newcap;
  head = 0;
}

unfoldable pub push_grown : (memory : Bool) → Pipe → List ℕ → (need : ℕ) → Outcome (Status × Pipe)
unfolding grow_cap moved append_bytes
push_grown memory p bytes need = elim (grow_cap 32 (if p.cap == 0 then 256 else p.cap) need) [
  | none ↦ Outcome.diverges
  | some newcap ↦
      if memory then append_bytes (moved p newcap) bytes else Outcome.done (Status.nomem, p)
]

unfoldable pub compact : Pipe → Pipe
compact p = if p.len == 0 then record p { head = 0 } else p

unfoldable pub push_open : (memory : Bool) → Pipe → List ℕ → Outcome (Status × Pipe)
unfolding push_grown append_bytes
push_open memory p bytes =
    let need = (p.len + length bytes) % 2 ^ 32 in
    if ltb p.cap need then push_grown memory p bytes need else append_bytes p bytes

-- The status and the pipe afterwards; `memory` says whether `malloc` succeeds.
unfoldable pub pipe_push : (memory : Bool) → Pipe → List ℕ → Outcome (Status × Pipe)
unfolding compact push_open
pipe_push memory p bytes =
    if p.closed
    then Outcome.done (Status.io, p)
    else if length bytes == 0
    then Outcome.done (Status.success, p)
    else push_open memory (compact p) bytes

-- The status, the bytes written to `data`, whose number is `*out_read`, and the pipe afterwards.
unfoldable pub pipe_pull : Pipe → (nbytes : ℕ) → Status × List ℕ × Pipe
unfolding compact
pipe_pull p nbytes =
    let n = if ltb nbytes p.len then nbytes else p.len in
    if p.len == 0 then ((if p.closed then Status.io else Status.success), [], p) else (
      Status.success,
      take n (drop p.head p.buf),
      compact (record p { head = (p.head + n) % 2 ^ 32; len = p.len - n }),
    )
