-- ===== src/Protocol/Pipe/Pull.antt =====
-- The pipe as a queue of bytes: receiving.
use prospero_ai.Prelude.{
  ℕ, ◌+◌, ◌-◌, ◌%◌, ◌^◌, ◌≡◌, refl, sym, ap, ◌∙◌, inl, inr, Bool-cases, List, ◌++◌, length,
  length-take, length-drop, take, drop, min, ltb, ◌==◌, if◌then◌else◌, arith,
}
use prospero_ai.Protocol.Pipe.{Pipe, compact, pipe_pull}
use prospero_ai.Protocol.Pipe.Window.{take-sum, drop-sum}
use prospero_ai.Protocol.Pipe.Queue.{contents, IsPipe, Compacted, compact-Compacted}

-- A well-formed pipe hands out its oldest bytes, as many as were asked for and there are; what was
-- handed out and what is left are the contents before, in order, and the pipe stays well-formed.
pub pipe_pull_outcome :
    (p : Pipe) (nbytes : ℕ)
    → IsPipe p
    → ((pipe_pull p nbytes).1 ++ contents (pipe_pull p nbytes).2 ≡ contents p)
      × (length (pipe_pull p nbytes).1 ≡ min nbytes p.len)
      × IsPipe (pipe_pull p nbytes).2
unfolding pipe_pull
pipe_pull_outcome p nbytes v = elim (Bool-cases (p.len == 0)) [
  | inl e ↦ rw e (refl, ground arith, v)
  | inr e ↦ rw e (
    ap (λ k. got ++ k) c.same ∙ joined,
    omega (
      arith,
      length-take n (drop p.head p.buf),
      length-drop p.head p.buf,
      v.sized,
      v.inside,
      least,
    ),
    c.fine,
  )
]
  where
    n : ℕ
    n = if ltb nbytes p.len then nbytes else p.len

    least : n ≡ min nbytes p.len
    least = ground arith

    got : List ℕ
    got = take n (drop p.head p.buf)

    q : Pipe
    q = record p { head = (p.head + n) % 2 ^ 32; len = p.len - n }

    at : (p.head + n) % 2 ^ 32 ≡ p.head + n
    at = omega (arith, least, v.inside, v.word)

    c : Compacted q (compact q)
    c =
        compact-Compacted q
          record { sized = v.sized; inside = omega (arith, at, least, v.inside); word = v.word }

    joined : got ++ contents q ≡ contents p
    joined =
        ap (λ h. got ++ take (p.len - n) (drop h p.buf)) at
        ∙ ap (λ b. got ++ take (p.len - n) b) (drop-sum p.head n p.buf)
        ∙ sym (take-sum n (p.len - n) (drop p.head p.buf))
        ∙ ap (λ l. take l (drop p.head p.buf)) {x = n + (p.len - n)} {y = p.len}
            (omega (arith, least))
