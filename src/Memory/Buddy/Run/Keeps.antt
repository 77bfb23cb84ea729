-- ===== src/Memory/Buddy/Run/Keeps.antt =====
-- Every step of a run keeps what holds of it.
use prospero_ai.Prelude.{
  ℕ, ◌+◌, ◌-◌, ◌^◌, ◌≤◌, ◌<◌, ◌≡◌, ◌≢◌, ◌⊎◌, refl, sym, ap, subst, ◌∙◌, inl, inr, List, [], ◌∷◌,
  arith, ==_ne,
}
use native.Mathlib.Decide.{ℕ_discrete}
use prospero_ai.Memory.Buddy.{Buddy, buddy_free}
use prospero_ai.Memory.Buddy.Tree.{Tree, used_tag, used_sum}
use prospero_ai.Memory.Buddy.Layout.{Layout-agree}
use prospero_ai.Memory.Buddy.Invariant.{IsBuddy, handed_out}
use prospero_ai.Memory.Buddy.Blocks.{used_apart, handed_out-tag, nothing_inside, tag_order}
use prospero_ai.Memory.Buddy.Start.{buddy_init-IsBuddy}
use prospero_ai.Memory.Buddy.Owned.{buddy_init_owned-IsBuddy, owned-IsBuddy}
use prospero_ai.Memory.Buddy.Alloc.Given.{Allocated}
use prospero_ai.Memory.Buddy.Alloc.Result.{buddy_alloc_lem}
use prospero_ai.Memory.Buddy.Free.{Freed, buddy_free_lem}
use prospero_ai.Memory.Buddy.Run.Choice.{
  All-mono, All-both, All-Picks, Picks-All, Picks-Distinct, Picks-bytes,
}
use prospero_ai.Memory.Buddy.Run.{
  Live, live_of, Picks, OnlyPayload, Reach, init, init_owned, refuse, alloc, free, fill, own,
  IsLive, IsRun,
}

-- What is kept of every payload by a step that keeps the words of its block.
kept_live :
    (b b' : Buddy) (k a : ℕ) (t t' : Tree) (l : Live)
    → IsLive b k a t l
    → ((w : ℕ) → l.block ≤ w → w < l.block + 2 ^ l.order → b'.words w ≡ b.words w)
    → handed_out t' k a l.block ≡ handed_out t k a l.block
    → IsLive b' k a t' l
kept_live b b' k a t t' l live words_same tag_same = record {
  back =
      words_same (l.pointer - 8) (omega (arith, live.inside)) (omega (arith, live.inside))
      ∙ live.back;
  owned = tag_same ∙ live.owned;
  inside = live.inside;
}

Allocated-IsRun :
    (k a : ℕ) (b after : Buddy) (ls : List Live) (size align pointer : ℕ) (r : IsRun k a b ls)
    → Allocated b after k a r.tree size align pointer
    → IsRun k a after (live_of after pointer size ∷ ls)
Allocated-IsRun k a b after ls size align pointer r m =
    let owned : handed_out m.tree k a m.block ≡ used_tag m.order =
      m.handed m.block ∙ ground arith in
    let order_is : after.words (after.words (pointer - 8) + 8) ≡ m.order =
      ap (λ n. after.words (n + 8)) m.back
      ∙ (m.valid.holds.layout.used_head m.block m.order
          (handed_out-tag m.tree k a m.block m.order owned)).1 in
    let apart : (l : Live) → IsLive b k a r.tree l → m.block ≢ l.block =
      λ l live e. omega (arith, live.owned, m.fresh, ap (handed_out r.tree k a) e) in
    record {
      tree = m.tree;
      valid = m.valid;
      lives = (
        record {
          back = refl;
          owned = ap (handed_out m.tree k a) m.back ∙ owned ∙ ap used_tag (sym order_is);
          inside = omega (arith, m.inside, m.back, ap (λ (n : ℕ). 2 ^ n) order_is);
        },
        All-mono (IsLive b k a r.tree) (IsLive after k a m.tree) ls
            (λ l live.
              kept_live b after k a r.tree m.tree l live
                (λ w low high. m.kept l.block l.order w live.owned low high)
                (m.handed l.block ∙ rw (==_ne m.block l.block (apart l live)) refl))
            r.lives,
      );
      distinct = (
        All-mono (IsLive b k a r.tree) (λ l. after.words (pointer - 8) ≢ l.block) ls
            (λ l live e. apart l live (sym m.back ∙ e)) r.lives,
        r.distinct,
      );
      bytes = omega (arith, m.bytes, r.bytes, ap (λ (n : ℕ). 2 ^ n) order_is);
    }

Freed-IsRun :
    (k a : ℕ) (b after : Buddy) (l : Live) (ls rest : List Live) (r : IsRun k a b ls)
    → Picks l ls rest
    → Freed b after k a r.tree l.block
    → IsRun k a after rest
Freed-IsRun k a b after l ls rest r p m =
    let lives = Picks-All (IsLive b k a r.tree) p r.lives in
    let distinct = Picks-Distinct p r.distinct in
    record {
      tree = m.tree;
      valid = m.valid;
      lives =
          All-both (IsLive b k a r.tree) (λ n. n.block ≢ l.block) (IsLive after k a m.tree) rest
            (λ n live ne.
              kept_live b after k a r.tree m.tree n live
                (λ w low high. m.kept n.block n.order w ne live.owned low high)
                (m.handed n.block ∙ rw (==_ne l.block n.block (λ e. ne (sym e))) refl))
            lives.1 distinct.0;
      distinct = distinct.1;
      bytes = omega (arith, m.bytes l.order lives.0.owned, r.bytes, Picks-bytes p);
    }

-- What a caller writes to its payload is seen by no header and no other payload.
filled_IsBuddy :
    (k a : ℕ) (b : Buddy) (t : Tree) (l : Live) (words : ℕ → ℕ)
    → IsBuddy b k a t
    → IsLive b k a t l
    → OnlyPayload l b.words words
    → IsBuddy (record b { words = words }) k a t
filled_IsBuddy k a b t l words v live only =
    let at = handed_out-tag t k a l.block l.order live.owned in
    let block_place = v.holds.layout.aligned l.block (λ z. omega (arith, z, at)) in
    record {
      holds = record {
        base_is = v.holds.base_is;
        size_is = v.holds.size_is;
        order_is = v.holds.order_is;
        small = v.holds.small;
        start = v.holds.start;
        entries = v.holds.entries;
        layout = Layout-agree v.holds.layout words (λ y some_y.
            let place = v.holds.layout.aligned y some_y in
            let out : (y + 24 ≤ l.pointer) ⊎ (l.pointer + l.size ≤ y) =
              elim (ℕ_discrete l.block y) [
                | yes e ↦ inl (omega (arith, e, live.inside))
                | no ne ↦ omega (
                  arith,
                  nothing_inside t k a l.block y (λ z. omega (arith, z, at)) some_y ne,
                  place,
                  block_place,
                  live.inside,
                  ap (λ (n : ℕ). 2 ^ tag_order n) at,
                  ap (λ (n : ℕ). 2 ^ n) {x = tag_order (used_tag l.order)} {y = l.order}
                      (omega arith),
                )
              ] in
            (
              only y (omega (arith, out)),
              only (y + 8) (omega (arith, out)),
              only (y + 16) (omega (arith, out)),
            ));
      };
      sound = v.sound;
      counted = v.counted;
    }

payloads_apart :
    (k a : ℕ) (b : Buddy) (t : Tree) (l n : Live)
    → IsLive b k a t l
    → IsLive b k a t n
    → n.block ≢ l.block
    → (n.pointer - 8 + 8 ≤ l.pointer) ⊎ (l.pointer + l.size ≤ n.pointer - 8)
payloads_apart k a b t l n live other ne = omega (
  arith,
  live.inside,
  other.inside,
  used_apart t k a n.block n.order l.block l.order (used_tag l.order)
      (handed_out-tag t k a n.block n.order other.owned)
      (handed_out-tag t k a l.block l.order live.owned) (omega arith) (omega arith) ne,
)

filled-IsRun :
    (k a : ℕ) (b : Buddy) (words : ℕ → ℕ) (l : Live) (ls rest : List Live) (r : IsRun k a b ls)
    → Picks l ls rest
    → OnlyPayload l b.words words
    → IsRun k a (record b { words = words }) ls
filled-IsRun k a b words l ls rest r p only =
    let lives = Picks-All (IsLive b k a r.tree) p r.lives in
    let distinct = Picks-Distinct p r.distinct in
    record {
      tree = r.tree;
      valid = filled_IsBuddy k a b r.tree l words r.valid lives.0 only;
      lives =
          All-Picks (IsLive (record b { words = words }) k a r.tree) p
            (record {
              back = only (l.pointer - 8) (omega (arith, lives.0.inside)) ∙ lives.0.back;
              owned = lives.0.owned;
              inside = lives.0.inside;
            })
            (All-both (IsLive b k a r.tree) (λ n. n.block ≢ l.block)
              (IsLive (record b { words = words }) k a r.tree) rest
              (λ n live ne. record {
                back =
                    only (n.pointer - 8) (payloads_apart k a b r.tree l n lives.0 live ne)
                    ∙ live.back;
                owned = live.owned;
                inside = live.inside;
              })
              lives.1 distinct.0);
      distinct = r.distinct;
      bytes = r.bytes;
    }

started-IsRun : (k a : ℕ) (b : Buddy) → IsBuddy b k a Tree.free → IsRun k a b []
started-IsRun k a b v = record {
  tree = Tree.free;
  valid = v;
  lives = tt;
  distinct = tt;
  bytes = v.counted ∙ (unfold used_sum in refl);
}

noted-IsRun :
    (k a : ℕ) (b : Buddy) (raw : ℕ) (ls : List Live)
    → IsRun k a b ls
    → IsRun k a (record b { owned = raw }) ls
noted-IsRun k a b raw ls r = record {
  tree = r.tree;
  valid = owned-IsBuddy b k a raw r.tree r.valid;
  lives =
      All-mono (IsLive b k a r.tree) (IsLive (record b { owned = raw }) k a r.tree) ls
        (λ l live. record { back = live.back; owned = live.owned; inside = live.inside }) r.lives;
  distinct = r.distinct;
  bytes = r.bytes;
}

-- After any run the buddy is sound, and every payload lies in a block of its own that is handed out.
pub Reach-IsRun : {k a : ℕ} {b : Buddy} {ls : List Live} → Reach k a b ls → IsRun k a b ls
Reach-IsRun {k} {a} (init words b deep small place e) =
    let start = buddy_init-IsBuddy words a k deep small place.0 place.1 place.2 in
    started-IsRun k a b (subst (λ c. IsBuddy c k a Tree.free) (cc (start.1, e)) start.2)
Reach-IsRun {k} {a} (init_owned malloc words b deep small given leads e at) =
    let start = buddy_init_owned-IsBuddy malloc words k deep small given leads in
    let valid : IsBuddy b k b.base Tree.free =
      subst (λ (c : Buddy). IsBuddy c k c.base Tree.free) (cc (start.1, e)) start.2 in
    started-IsRun k a b (subst (λ n. IsBuddy b k n Tree.free) at valid)
Reach-IsRun {k} {a} (refuse b ls size align r null) =
    let ih = Reach-IsRun r in
    elim (buddy_alloc_lem b k a ih.tree size align ih.valid) [
      | inl same ↦ subst (λ c. IsRun k a c ls) (sym (ap (λ (p : Buddy × ℕ). p.0) same.0)) ih
      | inr m ↦ absurd (omega (arith, m.inside, null))
    ]
Reach-IsRun {k} {a} (alloc b ls size align r given) =
    let ih = Reach-IsRun r in
    elim (buddy_alloc_lem b k a ih.tree size align ih.valid) [
      | inl same ↦ absurd (given (ap (λ (p : Buddy × ℕ). p.1) same.0))
      | inr m ↦ Allocated-IsRun k a b _ ls size align _ ih m
    ]
Reach-IsRun {k} {a} (free b l ls rest r p) =
    let ih = Reach-IsRun r in
    let live = (Picks-All (IsLive b k a ih.tree) p ih.lives).0 in
    Freed-IsRun k a b (buddy_free b l.pointer) l ls rest ih p (
      subst (Freed b (buddy_free b l.pointer) k a ih.tree) live.back (
        buddy_free_lem b k a ih.tree l.pointer l.order ih.valid (omega (arith, live.inside))
          (ap (handed_out ih.tree k a) live.back ∙ live.owned)))
Reach-IsRun {k} {a} (fill b words l ls rest r p only) =
    filled-IsRun k a b words l ls rest (Reach-IsRun r) p only
Reach-IsRun {k} {a} (own b raw ls r) = noted-IsRun k a b raw ls (Reach-IsRun r)
