-- ===== src/Graph/MemoryPlan/Register.antt =====
-- The allocations that the values are registered as.
use prospero_ai.Prelude.{
  ℕ, zero, suc, ◌+◌, ◌-◌, ◌^◌, ◌≤◌, ◌<◌, ◌≡◌, refl, sym, subst, ap, ◌∙◌, true, false, not, ◌||◌,
  List, [], ◌∷◌, ◌++◌, All, length, length-append, get_or, get_or-drop, drop, ltb, leb, ◌==◌, arith,
}
use mathlib.Core.List.{append-nil, append_assoc}
use prospero_ai.Status.{ok, ◌>>=◌}
use prospero_ai.Memory.Align.{is_pow2, sub64}
use prospero_ai.Memory.Planner.{Alloc, Planner, max_allocs, planner_add, planner_add_common}
use prospero_ai.Memory.Planner.Build.{sort_entries}
use prospero_ai.Memory.Planner.Build.Schedule.{need}
use prospero_ai.Memory.Planner.Build.Disjoint.{IsAlloc}
use prospero_ai.Graph.Defs.{Value, blank_value}
use prospero_ai.Graph.Lifetime.{Span, blank_span}
use prospero_ai.Graph.MemoryPlan.{add_values}

-- A value that the planner takes.
pub record IsPlaceable (v : Value) : Type 0 where
  pub pow2 : is_pow2 v.align ≡ true
  pub positive : 0 < v.align
  pub occupied : 0 < v.size_bytes
  pub rounds : v.size_bytes + v.align ≤ 2 ^ 64

abbrev pub alloc_of : Value → Span → Alloc
alloc_of v s = record {
  size = v.size_bytes;
  align = v.align;
  start = s.start;
  end = s.end;
  pinned = false;
}

unfoldable pub allocs_of : List Value → List Span → List Alloc
allocs_of [] spans = []
allocs_of (v ∷ rest) spans = alloc_of v (get_or spans 0 blank_span) ∷ allocs_of rest (drop 1 spans)

-- Bytes enough for all values, each with the most padding that its alignment can cost.
unfoldable pub need_values : List Value → ℕ
need_values [] = 0
need_values (v ∷ rest) = v.size_bytes + v.align + need_values rest

planner_add_accepts :
    (p : Planner) (v : Value) (s : Span)
    → IsPlaceable v
    → s.start < s.end
    → length p.allocs < max_allocs
    → planner_add p v.size_bytes v.align s.start s.end
      ≡ ok (record p { allocs = p.allocs ++ (alloc_of v s ∷ []) })
unfolding planner_add planner_add_common
planner_add_accepts p v s fine lives room = rw (valid, free) refl
  where
    valid :
        (v.size_bytes == 0
          || (v.align == 0
              || (not (is_pow2 v.align)
                  || (leb s.end s.start || ltb (2 ^ 64 - 1 - sub64 v.align 1) v.size_bytes))))
        ≡ false
    valid = ground (arith, fine.pow2, fine.positive, fine.occupied, fine.rounds, lives)

    free : leb max_allocs (length p.allocs) ≡ false
    free = ground (arith, room)

pub add_values_lem :
    (values : List Value) (spans : List Span) (p : Planner)
    → All IsPlaceable values
    → ((j : ℕ)
        → j < length values
        → (get_or spans j blank_span).start < (get_or spans j blank_span).end)
    → length p.allocs + length values ≤ max_allocs
    → add_values values spans p ≡ ok (record p { allocs = p.allocs ++ allocs_of values spans })
unfolding add_values allocs_of
add_values_lem [] spans p fine lives room =
    ap (λ a. ok (record p { allocs = a })) (sym (append-nil p.allocs))
add_values_lem (v ∷ rest) spans p (here, fine) lives room =
    let s : Span = get_or spans 0 blank_span in
    ap (λ r. r >>= λ q. add_values rest (drop 1 spans) q)
      (planner_add_accepts p v s here (lives 0 (omega arith)) (omega arith))
    ∙ add_values_lem rest (drop 1 spans) (record p { allocs = p.allocs ++ (alloc_of v s ∷ []) })
        fine
        (λ j lt.
          subst (λ t. t.start < t.end) (sym (get_or-drop spans j blank_span))
            (lives (suc j) (omega (arith, lt))))
        (omega (arith, length-append p.allocs (alloc_of v s ∷ []), room))
    ∙ ap (λ a. ok (record p { allocs = a })) (append_assoc p.allocs (alloc_of v s ∷ []) _)

pub need-allocs_of :
    (values : List Value) (spans : List Span) (i : ℕ)
    → need (sort_entries (allocs_of values spans) i) ≡ need_values values
unfolding need sort_entries allocs_of need_values
need-allocs_of [] spans i = refl
need-allocs_of (v ∷ rest) spans i =
    ap (λ n. v.size_bytes + v.align + n) (need-allocs_of rest (drop 1 spans) (i + 1))

pub allocs_of-IsAlloc :
    (values : List Value) (spans : List Span)
    → All IsPlaceable values
    → All IsAlloc (allocs_of values spans)
unfolding allocs_of
allocs_of-IsAlloc [] spans fine = tt
allocs_of-IsAlloc (v ∷ rest) spans (here, fine) =
    ((here.pow2, here.positive), allocs_of-IsAlloc rest (drop 1 spans) fine)

pub length-allocs_of :
    (values : List Value) (spans : List Span) → length (allocs_of values spans) ≡ length values
unfolding allocs_of
length-allocs_of [] spans = refl
length-allocs_of (v ∷ rest) spans = ap suc (length-allocs_of rest (drop 1 spans))

pub get_or-allocs_of :
    (values : List Value) (spans : List Span) (j : ℕ) (d : Alloc)
    → j < length values
    → get_or (allocs_of values spans) j d
      ≡ alloc_of (get_or values j blank_value) (get_or spans j blank_span)
unfolding allocs_of
get_or-allocs_of [] spans j d inside = absurd (omega arith)
get_or-allocs_of (v ∷ rest) spans zero d inside = refl
get_or-allocs_of (v ∷ rest) spans (suc j) d inside =
    get_or-allocs_of rest (drop 1 spans) j d (omega arith)
    ∙ ap (alloc_of (get_or rest j blank_value)) (get_or-drop spans j blank_span)
