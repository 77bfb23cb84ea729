-- ===== src/Protocol/Pipe/Queue.antt =====
-- The pipe as a queue of bytes: sending.
use prospero_ai.Prelude.{
  ℕ, ◌+◌, ◌-◌, ◌*◌, ◌%◌, ◌^◌, ◌≤◌, ◌<◌, ◌≡◌, ◌≢◌, refl, sym, ap, ◌∙◌, inl, inr, subst, Bool, true,
  false, Bool-cases, List, [], ◌∷◌, ◌++◌, length, length-append, length-take, length-drop, take,
  take-append, drop, replicate, length-replicate, ltb, ◌==◌, ==_ne, if◌then◌else◌, arith,
}
use mathlib.Core.List.{append-nil}
use native.Mathlib.Decide.{dec_le}
use prospero_ai.Status.{Status}
use prospero_ai.Protocol.Pipe.{
  Pipe, Outcome, append_bytes, moved, push_grown, compact, push_open, pipe_push,
}
use prospero_ai.Protocol.Pipe.Grow.{grow_cap-ends}
use prospero_ai.Protocol.Pipe.Window.{window}

-- The bytes that were sent and not yet received.
abbrev pub contents : Pipe → List ℕ
contents p = take p.len (drop p.head p.buf)

pub record IsPipe (p : Pipe) : Type 0 where
  pub sized : length p.buf ≡ p.cap
  pub inside : p.head + p.len ≤ p.cap
  pub word : p.cap < 2 ^ 32

-- A copy within the buffer appends to the contents.
append_bytes-contents :
    (p : Pipe) (bytes : List ℕ)
    → IsPipe p
    → p.head + p.len + length bytes ≤ p.cap
    → (p' : Pipe) × (append_bytes p bytes ≡ Outcome.done (Status.success, p'))
      × (contents p' ≡ contents p ++ bytes)
      × IsPipe p'
unfolding append_bytes
append_bytes-contents p bytes v room = (
  p',
  ground arith,
  ap (λ n. take n (drop p.head p'.buf)) sum
      ∙ window p.head p.len p.buf bytes _ (omega (arith, v.sized, v.inside)),
  record {
    sized = omega (
      arith,
      length-append (take at p.buf) (bytes ++ drop (at + length bytes) p.buf),
      length-append bytes (drop (at + length bytes) p.buf),
      length-take at p.buf,
      length-drop (at + length bytes) p.buf,
      v.sized,
    );
    inside = omega (arith, sum);
    word = v.word;
  },
)
  where
    at : ℕ
    at = p.head + p.len

    sum : (p.len + length bytes) % 2 ^ 32 ≡ p.len + length bytes
    sum = omega (arith, v.word)

    p' : Pipe
    p' = record p {
      buf = take at p.buf ++ (bytes ++ drop (at + length bytes) p.buf);
      len = (p.len + length bytes) % 2 ^ 32;
    }

-- Moving to a larger buffer keeps the contents.
moved-contents :
    (p : Pipe) (newcap : ℕ)
    → IsPipe p
    → p.len ≤ newcap
    → newcap < 2 ^ 32
    → (contents (moved p newcap) ≡ contents p) × IsPipe (moved p newcap)
unfolding moved
moved-contents p newcap v le word = (
  take-append (contents p) (replicate (newcap - p.len) 0) p.len kept,
  record {
    sized = omega (
      arith,
      length-append (contents p) (replicate (newcap - p.len) 0),
      length-replicate {A = ℕ} (newcap - p.len) 0,
      kept,
    );
    inside = omega arith;
    word = word;
  },
)
  where
    kept : length (contents p) ≡ p.len
    kept =
        omega (
          arith,
          length-take p.len (drop p.head p.buf),
          length-drop p.head p.buf,
          v.sized,
          v.inside,
        )

-- A pipe whose data would run past the end of a buffer that is large enough for them.
abbrev pub IsStuck : Pipe → (nbytes : ℕ) → Type 0
IsStuck p nbytes = (0 < p.len) × (p.len + nbytes ≤ p.cap) × (p.cap < p.head + p.len + nbytes)

abbrev pub Appends : Outcome (Status × Pipe) → Pipe → List ℕ → Type 0
Appends outcome p bytes =
    (p' : Pipe) × (outcome ≡ Outcome.done (Status.success, p'))
    × (contents p' ≡ contents p ++ bytes)
    × IsPipe p'

push_grown-contents :
    (p : Pipe) (bytes : List ℕ) (need : ℕ)
    → IsPipe p
    → need ≡ p.len + length bytes
    → need ≤ 2 ^ 31
    → Appends (push_grown true p bytes need) p bytes
unfolding push_grown
push_grown-contents p bytes need v sum small =
    let (c, grown, enough, word) = grow_cap-ends 32 start need small started reached in
    let (same, fine) = moved-contents p c v (omega arith) word in
    let (p', written, appended, fine') =
      append_bytes-contents (moved p c) bytes fine (fits c enough) in
    (p', rw (grown, push_grown) written, appended ∙ ap (λ k. k ++ bytes) same, fine')
  where
    start : ℕ
    start = if p.cap == 0 then 256 else p.cap

    started : start < 2 ^ 32
    started = ground (arith, v.word)

    reached : need ≤ start * 2 ^ 32
    reached = ground arith

    fits : (c : ℕ) → need ≤ c → (moved p c).head + (moved p c).len + length bytes ≤ (moved p c).cap
    fits c enough = unfold moved in omega (arith, sum)

push_open-contents :
    (p : Pipe) (bytes : List ℕ)
    → IsPipe p
    → p.len + length bytes ≤ 2 ^ 31
    → (IsStuck p (length bytes) → ⊥)
    → (p.len ≡ 0 → p.head ≡ 0)
    → Appends (push_open true p bytes) p bytes
unfolding push_open
push_open-contents p bytes v small free start = elim (dec_le (p.len + length bytes) p.cap) [
  | no more ↦
      subst (λ o. Appends o p bytes)
        (sym (ap branch {x = ltb p.cap need} {y = true} (ground arith)))
        (push_grown-contents p bytes need v sum (omega arith))
  | yes fits ↦
      subst (λ o. Appends o p bytes)
        (sym (ap branch {x = ltb p.cap need} {y = false} (ground arith)))
        (append_bytes-contents p bytes v (behind fits))
]
  where
    need : ℕ
    need = (p.len + length bytes) % 2 ^ 32

    sum : need ≡ p.len + length bytes
    sum = omega arith

    branch : Bool → Outcome (Status × Pipe)
    branch b = if b then push_grown true p bytes need else append_bytes p bytes

    behind : p.len + length bytes ≤ p.cap → p.head + p.len + length bytes ≤ p.cap
    behind fits = ground arith

-- An empty pipe starts again at the beginning of its buffer.
pub record Compacted (p q : Pipe) : Type 0 where
  pub fine : IsPipe q
  pub same : contents q ≡ contents p
  pub same_len : q.len ≡ p.len
  pub same_cap : q.cap ≡ p.cap
  pub restarts : q.len ≡ 0 → q.head ≡ 0
  pub stays : p.len ≢ 0 → q ≡ p

pub compact-Compacted : (p : Pipe) → IsPipe p → Compacted p (compact p)
unfolding compact
compact-Compacted p v = elim (Bool-cases (p.len == 0)) [
  | inl e ↦ rw e record {
    fine = record { sized = v.sized; inside = omega (arith, v.inside); word = v.word };
    same = nothing (ground arith) p.buf (drop p.head p.buf);
    same_len = refl;
    same_cap = refl;
    restarts = λ _. refl;
    stays = λ ne. absurd (ne (ground arith));
  }
  | inr e ↦ rw e record {
    fine = v;
    same = refl;
    same_len = refl;
    same_cap = refl;
    restarts = λ z. ground arith;
    stays = λ ne. refl;
  }
]
  where
    nothing : p.len ≡ 0 → (xs ys : List ℕ) → take p.len xs ≡ take p.len ys
    nothing z xs ys = ap (λ n. take n xs) z ∙ sym (ap (λ n. take n ys) z)

pipe_push-open :
    (p : Pipe) (bytes : List ℕ)
    → p.closed ≡ false
    → length bytes ≢ 0
    → pipe_push true p bytes ≡ push_open true (compact p) bytes
unfolding pipe_push
pipe_push-open p bytes o ne = rw (o, ==_ne (length bytes) 0 ne) refl

pipe_push-empty :
    (p : Pipe) → p.closed ≡ false → pipe_push true p [] ≡ Outcome.done (Status.success, p)
unfolding pipe_push
pipe_push-empty p o = rw o refl

stuck-overflows :
    (p : Pipe) (bytes : List ℕ)
    → p.cap < 2 ^ 32
    → IsStuck p (length bytes)
    → push_open true p bytes ≡ Outcome.overflows
unfolding push_open append_bytes
stuck-overflows p bytes word (some_data, fits, beyond) = rw (short, long) refl
  where
    short : ltb p.cap ((p.len + length bytes) % 2 ^ 32) ≡ false
    short = ground arith

    long : ltb p.cap (p.head + p.len + length bytes) ≡ true
    long = ground arith

-- With the pipe open, memory for a larger buffer and at most 2^31 bytes in all, `pipe_push` appends
-- the bytes to the contents, and the pipe stays well-formed, unless the data fit in the buffer by
-- number but not behind the read offset; then the copy overflows the buffer.
pub pipe_push_outcome :
    (p : Pipe) (bytes : List ℕ)
    → IsPipe p
    → p.closed ≡ false
    → p.len + length bytes ≤ 2 ^ 31
    → ((IsStuck p (length bytes) → ⊥) → Appends (pipe_push true p bytes) p bytes)
      × (IsStuck p (length bytes) → pipe_push true p bytes ≡ Outcome.overflows)
pipe_push_outcome p [] v open_ small = (
  (λ free. (p, pipe_push-empty p open_, sym (append-nil (contents p)), v)),
  (λ (a, b, c). absurd (omega (arith, c, v.inside))),
)
pipe_push_outcome p (x ∷ rest) v open_ small = (appended, stuck)
  where
    bytes : List ℕ
    bytes = x ∷ rest

    opened : pipe_push true p bytes ≡ push_open true (compact p) bytes
    opened = pipe_push-open p bytes open_ (λ e. omega arith)

    c : Compacted p (compact p)
    c = compact-Compacted p v

    appended : (IsStuck p (length bytes) → ⊥) → Appends (pipe_push true p bytes) p bytes
    appended free =
        let (p', e, same, fine) =
          push_open-contents (compact p) bytes c.fine (omega (arith, c.same_len)) still_free
            c.restarts in
        (p', opened ∙ e, same ∙ ap (λ k. k ++ bytes) c.same, fine)
      where
        still_free : IsStuck (compact p) (length bytes) → ⊥
        still_free (a, h, k) =
            free (
              subst (λ q. IsStuck q (length bytes)) (c.stays (omega (arith, c.same_len))) (a, h, k))

    stuck : IsStuck p (length bytes) → pipe_push true p bytes ≡ Outcome.overflows
    stuck (a, h, k) =
        opened
        ∙ ap (λ q. push_open true q bytes) (c.stays (omega arith))
        ∙ stuck-overflows p bytes v.word (a, h, k)
