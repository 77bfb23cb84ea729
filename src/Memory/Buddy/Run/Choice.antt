-- ===== src/Memory/Buddy/Run/Choice.antt =====
-- Lists of payloads, and one that is taken out.
use prospero_ai.Prelude.{◌+◌, ◌^◌, ◌≡◌, ◌≢◌, refl, sym, List, [], ◌∷◌, arith, All}
use prospero_ai.Memory.Buddy.Run.{Live, Picks, here, there, Distinct, block_bytes}

pub All-mono :
    (P Q : Live → Type 0) (ls : List Live) → ((l : Live) → P l → Q l) → All P ls → All Q ls
All-mono P Q [] f h = tt
All-mono P Q (l ∷ ls) f h = (f l h.0, All-mono P Q ls f h.1)

pub All-both :
    (P Q R : Live → Type 0) (ls : List Live)
    → ((l : Live) → P l → Q l → R l)
    → All P ls
    → All Q ls
    → All R ls
All-both P Q R [] f h g = tt
All-both P Q R (l ∷ ls) f h g = (f l h.0 g.0, All-both P Q R ls f h.1 g.1)

pub Picks-All :
    (P : Live → Type 0) {l : Live} {ls rest : List Live}
    → Picks l ls rest
    → All P ls
    → P l × All P rest
Picks-All P (here rest) h = h
Picks-All P (there m ls rest p) h = let ih = Picks-All P p h.1 in (ih.0, (h.0, ih.1))

pub All-Picks :
    (P : Live → Type 0) {l : Live} {ls rest : List Live}
    → Picks l ls rest
    → P l
    → All P rest
    → All P ls
All-Picks P (here rest) one h = (one, h)
All-Picks P (there m ls rest p) one h = (h.0, All-Picks P p one h.1)

pub Picks-Distinct :
    {l : Live} {ls rest : List Live}
    → Picks l ls rest
    → Distinct ls
    → All (λ m. m.block ≢ l.block) rest × Distinct rest
Picks-Distinct {l} (here rest) d = (
  All-mono (λ m. l.block ≢ m.block) (λ m. m.block ≢ l.block) rest (λ m ne e. ne (sym e)) d.0,
  d.1,
)
Picks-Distinct (there m ls rest p) d =
    let ih = Picks-Distinct p d.1 in
    let one = Picks-All (λ n. m.block ≢ n.block) p d.0 in ((one.0, ih.0), (one.1, ih.1))

pub Picks-bytes :
    {l : Live} {ls rest : List Live}
    → Picks l ls rest
    → block_bytes ls ≡ 2 ^ l.order + block_bytes rest
Picks-bytes (here rest) = refl
Picks-bytes (there m ls rest p) = omega (arith, Picks-bytes p)
