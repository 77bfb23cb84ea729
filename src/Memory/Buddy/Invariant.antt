-- ===== src/Memory/Buddy/Invariant.antt =====
-- What holds of a buddy allocator between two calls, and within one.
use prospero_ai.Prelude.{ℕ, ◌+◌, ◌%◌, ◌^◌, ◌≤◌, ◌<◌, ◌≡◌, List, ◌==◌, if◌then◌else◌}
use prospero_ai.Memory.Buddy.{Buddy}
use prospero_ai.Memory.Buddy.Tree.{Tree, tag, used_sum, IsSound}
use prospero_ai.Memory.Buddy.Layout.{Layout}

-- The lists and headers show the blocks of `t`, a region of order `k` at `a`.
pub record Holds (b : Buddy) (k a : ℕ) (t : Tree) : Type 0 where
  pub base_is : b.base ≡ a
  pub size_is : b.size ≡ 2 ^ k
  pub order_is : b.max_order ≡ k
  pub small : k ≤ 30
  pub start : (a % 64 ≡ 0) × (0 < a) × (a + 2 ^ k ≤ 2 ^ 64)
  pub entries : ℕ → List ℕ
  pub layout : Layout b.words b.free_lists entries (tag t k a)

pub record IsBuddy (b : Buddy) (k a : ℕ) (t : Tree) : Type 0 where
  pub holds : Holds b k a t
  pub sound : IsSound t k
  pub counted : b.used_bytes ≡ used_sum t k

-- The block that is handed out at an address, as its tag, or 0.
abbrev pub in_use : ℕ → ℕ
in_use v = if v % 2 == 0 then v else 0

unfoldable pub handed_out : Tree → (k a y : ℕ) → ℕ
handed_out t k a y = in_use (tag t k a y)
