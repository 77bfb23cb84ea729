-- ===== src/Graph/Topo/Fold.antt =====
-- A run of decrements: what it does to the counts and to the queue.
use prospero_ai.Prelude.{
  ℕ, zero, suc, ◌+◌, ◌-◌, ◌%◌, ◌^◌, ◌≤◌, ◌<◌, ◌≡◌, ◌≢◌, refl, ap, ◌∙◌, not, ◌&&◌, List, [], ◌∷◌,
  ◌++◌, length, length-append, length-set, get_or, set, ◌==◌, if◌then◌else◌, arith,
}
use prospero_ai.Prelude.Occurs.{get_or-set, occurs, occurs-append}
use prospero_ai.Graph.Topo.{Kahn, release_input}

-- How many counts are not 0.
unfoldable pub nonzero : List ℕ → ℕ
nonzero [] = 0
nonzero (d ∷ rest) = (if d == 0 then 0 else 1) + nonzero rest

unfoldable pub release_all : List ℕ → Kahn → Kahn
unfolding release_input
release_all [] k = k
release_all (c ∷ rest) k = release_all rest (release_input c k)

pub release_all-append :
    (xs ys : List ℕ) (k : Kahn) → release_all (xs ++ ys) k ≡ release_all ys (release_all xs k)
unfolding release_all
release_all-append [] ys k = refl
release_all-append (x ∷ xs) ys k = release_all-append xs ys (release_input x k)

pub nonzero-set :
    (xs : List ℕ) (i v : ℕ)
    → i < length xs
    → nonzero (set xs i v) + (if get_or xs i 0 == 0 then 0 else 1)
      ≡ nonzero xs + (if v == 0 then 0 else 1)
unfolding nonzero
nonzero-set [] i v h = absurd (omega arith)
nonzero-set (x ∷ xs) zero v h = omega arith
nonzero-set (x ∷ xs) (suc i) v h = omega (arith, nonzero-set xs i v (omega arith))

pub inside_of_positive : (xs : List ℕ) (i : ℕ) → get_or xs i 0 ≢ 0 → i < length xs
inside_of_positive [] i h = absurd (h refl)
inside_of_positive (x ∷ xs) zero h = omega arith
inside_of_positive (x ∷ xs) (suc i) h = omega (arith, inside_of_positive xs i h)

-- Every count falls by the number of its decrements; who falls to 0 joins the queue, once.
pub record Released (commands : List ℕ) (before after : Kahn) : Type 0 where
  pub sized : length after.indegree ≡ length before.indegree
  pub counts : (c : ℕ) → get_or after.indegree c 0 + occurs c commands ≡ get_or before.indegree c 0
  pub joins :
      (c : ℕ)
      → occurs c after.queue
        ≡ occurs c before.queue
          + (if not (occurs c commands == 0) && get_or after.indegree c 0 == 0 then 1 else 0)
  pub steady :
      nonzero after.indegree + length after.queue ≡ nonzero before.indegree + length before.queue

abbrev pub Enough : List ℕ → Kahn → Type 0
Enough commands k =
    (c : ℕ) → (occurs c commands ≤ get_or k.indegree c 0) × (get_or k.indegree c 0 < 2 ^ 32)

release_input-Released :
    (x : ℕ) (k : Kahn)
    → get_or k.indegree x 0 ≢ 0
    → get_or k.indegree x 0 < 2 ^ 32
    → Released (x ∷ []) k (release_input x k)
unfolding release_input
release_input-Released x k positive small = record {
  sized = length-set k.indegree x _;
  counts = λ c. ground (arith, counted c, one c, same c);
  joins = λ c. ground (arith, counted c, one c, same c, occurs-append c k.queue (x ∷ []));
  steady = ground (arith, nonzero-set k.indegree x d inside, length-append k.queue (x ∷ []));
}
  where
    d : ℕ
    d = (get_or k.indegree x 0 + (2 ^ 32 - 1)) % 2 ^ 32

    inside : x < length k.indegree
    inside = inside_of_positive k.indegree x positive

    counted :
        (c : ℕ) → get_or (set k.indegree x d) c 0 ≡ (if x == c then d else get_or k.indegree c 0)
    counted c = get_or-set k.indegree x c d inside

    one : (c : ℕ) → occurs c (x ∷ []) ≡ (if x == c then 1 else 0)
    one c = unfold occurs in ground arith

    same : (c : ℕ) → x ≡ c → get_or k.indegree x 0 ≡ get_or k.indegree c 0
    same c e = ap (λ n. get_or k.indegree n 0) e

-- One decrement, then the others.
Released-trans :
    (x : ℕ) (rest : List ℕ) (k l m : Kahn)
    → Released (x ∷ []) k l
    → Released rest l m
    → Released (x ∷ rest) k m
Released-trans x rest k l m first tail = record {
  sized = tail.sized ∙ first.sized;
  counts = λ c. omega (arith, tail.counts c, first.counts c, occurs-append c (x ∷ []) rest);
  joins = λ c. ground (
    arith,
    tail.joins c,
    first.joins c,
    tail.counts c,
    first.counts c,
    occurs-append c (x ∷ []) rest,
  );
  steady = tail.steady ∙ first.steady;
}

pub release_all-Released :
    (commands : List ℕ) (k : Kahn)
    → Enough commands k
    → Released commands k (release_all commands k)
unfolding release_all
release_all-Released [] k enough = record {
  sized = refl;
  counts = λ c. unfold occurs in omega arith;
  joins = λ c. unfold occurs in ground arith;
  steady = refl;
}
release_all-Released (x ∷ rest) k enough =
    let split = λ (c : ℕ). occurs-append c (x ∷ []) rest in
    let here : occurs x (x ∷ []) ≡ 1 = unfold occurs in ground arith in
    let first =
      release_input-Released x k (omega (arith, (enough x).0, split x, here)) (enough x).1 in
    Released-trans x rest k (release_input x k) _ first (
      release_all-Released rest (release_input x k) (λ c. (
        omega (arith, first.counts c, split c, (enough c).0),
        omega (arith, first.counts c, (enough c).1),
      )))
