-- ===== src/Graph/Lifetime/Run.antt =====
-- The call as a whole: sorting first where the graph is not marked as sorted.
use prospero_ai.Prelude.{◌≡◌, refl, sym, subst, ap, ◌∙◌, true, false, inl, inr, Bool-cases, length}
use prospero_ai.Status.{Status}
use prospero_ai.Graph.Defs.{Graph}
use prospero_ai.Graph.Build.{IsGraph}
use prospero_ai.Graph.Topo.{topo_sort}
use prospero_ai.Graph.Topo.Schedule.{topo_sort_sound}
use prospero_ai.Graph.Reach.Retain.{topo_sort-IsGraph}
use prospero_ai.Graph.Reach.Timed.{IsTimed, MarkedTimed, topo_sort-IsTimed}
use prospero_ai.Graph.Lifetime.{all_spans, ensure_sorted, lifetimes_of, value_lifetimes}
use prospero_ai.Graph.Lifetime.Cover.{Covers, all_spans-Covers}

pub ensure_sorted_marked : (g : Graph) → g.sorted ≡ true → ensure_sorted g ≡ (Status.success, g)
unfolding ensure_sorted
ensure_sorted_marked g e = rw e refl

pub value_lifetimes_marked :
    (g : Graph) → g.sorted ≡ true → value_lifetimes g ≡ ((Status.success, g), all_spans g)
unfolding value_lifetimes lifetimes_of
value_lifetimes_marked g marked = rw (ensure_sorted_marked g marked) refl

-- A graph that is sorted now, with the values and as many operations as before.
pub record Ensured (g h : Graph) : Type 0 where
  pub graph : IsGraph h
  pub timed : IsTimed h
  pub same : (h.values ≡ g.values) × ((length h.ops ≡ length g.ops) × (h.sorted ≡ true))

pub ensure_sorted_lem :
    (g : Graph)
    → IsGraph g
    → MarkedTimed g
    → (ensure_sorted g).0 ≡ Status.success
    → Ensured g (ensure_sorted g).1
ensure_sorted_lem g w m success = elim (Bool-cases g.sorted) [
  | inl e ↦
      subst (λ r. Ensured g r.1) (sym (ensure_sorted_marked g e))
        (record { graph = w; timed = m e; same = (refl, (refl, e)) })
  | inr e ↦
      let run = unsorted e in
      let done : (topo_sort g).0 ≡ Status.success = sym (ap (λ r. r.0) run) ∙ success in
      subst (λ r. Ensured g r.1) (sym run)
        (record {
          graph = topo_sort-IsGraph g w;
          timed = topo_sort-IsTimed g w done;
          same = (topo_sort_sound g w done).same;
        })
]
  where
    unsorted : g.sorted ≡ false → ensure_sorted g ≡ topo_sort g
    unsorted e = unfold ensure_sorted in rw e refl

pub lifetimes_of_status : (st : Status) (h : Graph) → (lifetimes_of st h).0.0 ≡ st
unfolding lifetimes_of
lifetimes_of_status Status.success h = refl
lifetimes_of_status Status.invalid_arg h = refl
lifetimes_of_status Status.nomem h = refl
lifetimes_of_status Status.unsupported h = refl
lifetimes_of_status Status.capability h = refl
lifetimes_of_status Status.timeout h = refl
lifetimes_of_status Status.mismatch h = refl
lifetimes_of_status Status.io h = refl
lifetimes_of_status Status.init h = refl
lifetimes_of_status Status.internal h = refl
lifetimes_of_status Status.protocol h = refl

-- The lifetimes of a well-formed graph, sorted by now or marked as sorted with the right epochs,
-- when they are computed with success: each value is live in the epoch of the operation that
-- produces it, which is its first, and of every operation that reads it, an output stays live to
-- the end, and no span is empty if there are operations.
pub value_lifetimes_cover :
    (g : Graph)
    → IsGraph g
    → MarkedTimed g
    → (value_lifetimes g).0.0 ≡ Status.success
    → Covers (value_lifetimes g).0.1 (value_lifetimes g).1
unfolding value_lifetimes lifetimes_of
value_lifetimes_cover g w m success =
    let st : (ensure_sorted g).0 ≡ Status.success =
      sym (lifetimes_of_status (ensure_sorted g).0 (ensure_sorted g).1) ∙ success in
    let r = ensure_sorted_lem g w m st in
    subst
      (λ s. Covers (lifetimes_of s (ensure_sorted g).1).0.1 (lifetimes_of s (ensure_sorted g).1).1)
      (sym st) (all_spans-Covers (ensure_sorted g).1 r.graph r.timed)
