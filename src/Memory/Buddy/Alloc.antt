-- ===== src/Memory/Buddy/Alloc.antt =====
-- pai_buddy_alloc: the search for an order, the block that is handed out, and the payload in it.
pub mod Given
pub mod Result
use prospero_ai.Prelude.{
  ℕ, zero, suc, ◌+◌, ◌-◌, ◌*◌, ◌/◌, ◌%◌, ◌^◌, ◌≤◌, ◌<◌, ◌≡◌, ◌≢◌, ◌⊎◌, refl, sym, ap, ◌∙◌, subst,
  List, [], ◌∷◌, length, get_or, Bool, Bool-cases, inl, inr, true, false, ◌==◌, leb, ltb, ltb→lt,
  ◌&&◌, if◌then◌else◌, arith,
}
use prospero_ai.Prelude.Bits.{two_pow_pos}
use prospero_ai.Prelude.Occurs.{update}
use native.Mathlib.Nat.{pow-suc}
use native.Mathlib.Decide.{ℕ_discrete}
use prospero_ai.Memory.Align.{add64, is_pow2, align_up, ceil_log2}
use prospero_ai.Memory.Align.Round.{align_up_bounds}
use prospero_ai.Memory.Align.Log2.{pow_mono, le-ceil_log2}
use prospero_ai.Memory.Buddy.{
  Buddy, write, magic_alloc, block_header, find_order, order_of, bad_request, block_set_header,
  split_loop, take_block,
}
use prospero_ai.Memory.Buddy.Tree.{
  Tree, free, used, held, split, tag, free_tag, used_tag, Turn, plug, Fits, IsSound, IsSoundAround,
  used_sum, used_around, first_is_free, is_free,
}
use prospero_ai.Memory.Buddy.Tree.Tags.{tag-plug, tag-plug-update}
use prospero_ai.Memory.Buddy.Tree.Sound.{
  Fits-range, Fits-length, IsSound-plug, plug-IsSound, used_sum-plug, used_sum-le, pow_64,
}
use prospero_ai.Memory.Buddy.Layout.{Layout}
use prospero_ai.Memory.Buddy.Layout.Moves.{Layout-take, Layout-ext}
use prospero_ai.Memory.Buddy.Invariant.{Holds, IsBuddy, in_use, handed_out}
use prospero_ai.Memory.Buddy.Split.{Cut}

-- The first order from `o` on whose list is not empty.
pub find_order_lem :
    (rounds : ℕ) (b : Buddy) (o : ℕ)
    → b.max_order + 1 ≤ o + rounds
    → let found = find_order rounds b o in
      (o ≤ found)
      × ((i : ℕ) → o ≤ i → i < found → get_or b.free_lists i 0 ≡ 0)
      × ((b.max_order < found) ⊎ (get_or b.free_lists found 0 ≢ 0))
unfolding find_order
find_order_lem zero b o enough =
    (omega arith, λ i low high. absurd (omega (arith, low, high)), inl (omega arith))
find_order_lem (suc rounds) b o enough =
    elim (Bool-cases (leb o b.max_order && get_or b.free_lists o 0 == 0)) [
      | inl more ↦
          let ih = find_order_lem rounds b (o + 1) (omega arith) in
          rw more (
            omega (arith, ih.0),
            λ i low high. elim (ℕ_discrete i o) [
              | yes e ↦ ground (arith, more, e, ap (λ (n : ℕ). get_or b.free_lists n 0) e)
              | no ne ↦ ih.1 i (omega (arith, low, ne)) high
            ],
            ih.2,
          )
      | inr done ↦
          rw done
            (omega arith, λ i low high. absurd (omega (arith, low, high)), ground (arith, done))
    ]

-- The guards keep the sum from wrapping around.
sum_exact :
    (size align : ℕ)
    → bad_request size align ≡ false
    → add64 (add64 size align) block_header ≡ size + align + 32
unfolding bad_request
sum_exact size align good = ground (arith, good)

abbrev at_least_six : ℕ → ℕ
at_least_six order = if ltb order 6 then 6 else order

-- The order of a sum of bytes, 6 at least, holds that many.
at_least_six_lem :
    (v : ℕ)
    → at_least_six (ceil_log2 v) ≤ 30
    → (6 ≤ at_least_six (ceil_log2 v)) × (v ≤ 2 ^ at_least_six (ceil_log2 v))
at_least_six_lem v small = elim (Bool-cases (ltb (ceil_log2 v) 6)) [
  | inl e ↦ rw e (
    omega arith,
    omega (
      arith,
      le-ceil_log2 v (omega (arith, ltb→lt _ _ e)),
      pow_mono (ceil_log2 v) 6 (omega (arith, ltb→lt _ _ e)),
    ),
  )
  | inr e ↦ rw e (ground (arith, e), le-ceil_log2 v (ground (arith, e, small)))
]

-- `order_of` holds the payload, its alignment and the header.
pub order_of_lem :
    (size align : ℕ)
    → bad_request size align ≡ false
    → order_of size align ≤ 30
    → (6 ≤ order_of size align) × (size + align + 32 ≤ 2 ^ order_of size align)
unfolding order_of
order_of_lem size align good small =
    let (deep, holds) = at_least_six_lem (add64 (add64 size align) block_header) small in
    (deep, omega (arith, holds, sum_exact size align good))

-- The held block is handed out: its header is written, and words of its payload.
module _ (b : Buddy) (k a x order : ℕ) (fs : List Turn) (deep : 6 ≤ order)
    (fit : Fits fs order x k a) (h : Holds b k a (plug held fs)) where
  take_tags :
      (y : ℕ) → tag (plug used fs) k a y ≡ update (tag (plug held fs) k a) x (used_tag order) y
  take_tags y =
      tag-plug-update held used fs order x k a x fit (omega arith)
        (omega (arith, two_pow_pos order)) (λ y ne. unfold tag in ground (arith, ne)) y
      ∙ (unfold tag in ground arith)

  held_empty : (y : ℕ) → x ≤ y → y < x + 2 ^ order → tag (plug held fs) k a y ≡ 0
  held_empty y low high = tag-plug held fs order x k a y fit low high ∙ (unfold tag in refl)

  pub take-Layout :
      (words' : ℕ → ℕ)
      → (words' x ≡ magic_alloc) × (words' (x + 8) ≡ order)
      → ((w : ℕ) → (w < x) ⊎ (x + 2 ^ order ≤ w) → words' w ≡ b.words w)
      → Layout words' b.free_lists h.entries (tag (plug used fs) k a)
  take-Layout words' header others =
      let range = Fits-range fs order x k a fit deep h.start.0 in
      Layout-ext take_tags (
        Layout-take h.layout words' x order
          (held_empty x (omega arith) (omega (arith, two_pow_pos order)))
          (omega (arith, range, h.start)) header
          (λ y some_y.
            let out : (y < x) ⊎ (x + 2 ^ order ≤ y) = ground (arith, held_empty y, some_y) in
            let place = h.layout.aligned y some_y in
            (
              others y out,
              others (y + 8) (omega (arith, out, place, range)),
              others (y + 16) (omega (arith, out, place, range)),
            )))

  pub take_handed_out :
      (y : ℕ)
      → handed_out (plug used fs) k a y
        ≡ update (handed_out (plug held fs) k a) x (used_tag order) y
  unfolding handed_out
  take_handed_out y = ground (arith, take_tags y)
