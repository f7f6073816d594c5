-- ===== src/Space/Invariant.antt =====
-- The invariant of the two trees of an address space, and what they stand for: a set of addresses.
use cerius.Base.{ℕ, ◌+◌, ◌≤◌, ◌<◌, ◌^◌, ◌≡◌, ◌⊎◌}
use cerius.Order.{IsSorted}
use cerius.Range.{RangePair}
use cerius.Range.Laws.{range_ordered}
use cerius.Range.Count.{count, swap}
use cerius.Avl.{EntryClass, plain_entry}
use cerius.Avl.Model.{to_list, IsAvl}
use cerius.Space.{Space}

-- No byte of the two ranges is shared, and they do not touch.
abbrev pub Separate : RangePair → RangePair → Type 0
Separate p q = (p.x + p.y < q.x) ⊎ (q.x + q.y < p.x)

module _ {κ} {C : Type κ} where
  -- How often `p`, as (start, length), stands among the free ranges.
  abbrev pub times : Space C → RangePair → ℕ
  times s p = count p (to_list s.tree_start)

  -- The address lies in a free range.
  abbrev pub Covers : Space C → ℕ → Type 0
  Covers s a = (p : RangePair) × (0 < times s p) × (p.x ≤ a) × (a < p.x + p.y)

module _ {κ} {C : Type κ} ⦃c : EntryClass RangePair C⦄ where
  -- Both trees are valid search trees of the same ranges; no range occurs twice, is empty or leaves
  -- the 64-bit space; and two free ranges neither meet nor touch.
  pub record IsSpace (s : Space C) : Type κ where
    pub start_avl : IsAvl s.tree_start
    pub start_sorted : IsSorted (to_list s.tree_start)
    pub length_avl : IsAvl s.tree_length
    pub length_sorted : IsSorted (to_list s.tree_length)
    pub mirrored : (p : RangePair) → count (swap p) (to_list s.tree_length) ≡ times s p
    pub once : (p : RangePair) → times s p ≤ 1
    pub proper : (p : RangePair) → 0 < times s p → (0 < p.y) × (p.x + p.y < 2 ^ 64)
    pub apart : (p q : RangePair) → 0 < times s p → 0 < times s q → (p ≡ q) ⊎ Separate p q
