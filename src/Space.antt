-- ===== src/Space.antt =====
-- bootloader/memory/AddressSpaceManager: the free ranges of an address space in two trees.
-- `tree_start` holds them as (start, length), `tree_length` as (length, start). `tree_length` is a
-- plain tree or the tree of bootloader/memory/AslrTree, by the class of its entries.
pub mod Invariant
pub mod Edit
pub mod Lookup
pub mod Alloc
pub mod Free
use cerius.Base.{
  ℕ, ◌-◌, ◌+◌, Bool, true, false, Option, none, some, Result, ok, fault, Fault, kassert, ◌>>=◌,
  ◌>>◌, ltb, leb, ◌==◌, if◌then◌else◌, add64, sub64,
}
use cerius.Range.{RangePair, range_pair}
use cerius.Range.Laws.{range_ordered}
use cerius.Avl.{AvlEntry, EntryClass, plain_entry, add, tree_del, find_bound}

abbrev pub StartTree : Type 0
StartTree = AvlEntry RangePair (Unit {0})

pub record Space {κ} (C : Type κ) : Type κ where
  pub tree_start : StartTree
  pub tree_length : AvlEntry RangePair C

abbrev pub uint64_max : ℕ
uint64_max = 0xffff_ffff_ffff_ffff

-- `kassert(treeStart.findBound(...))`, with the range that is found
abbrev pub found_range : Option RangePair → Result RangePair
found_range none = fault Fault.assertion
found_range (some p) = ok p

module _ {κ} {C : Type κ} ⦃c : EntryClass RangePair C⦄ where
  -- `treeStart.del(p)`, `treeLength.del(p)`: the results are not read
  unfoldable pub del_start : Space C → RangePair → Result (Space C)
  del_start s p = do (e, found) ← tree_del s.tree_start p; ok (record s { tree_start = e })

  unfoldable pub del_length : Space C → RangePair → Result (Space C)
  del_length s p = do (e, found) ← tree_del s.tree_length p; ok (record s { tree_length = e })

  -- `treeStart.add(p)`, `treeLength.add(p)`
  unfoldable pub add_start : Space C → RangePair → Result (Space C)
  add_start s p = do e ← add s.tree_start p; ok (record s { tree_start = e })

  unfoldable pub add_length : Space C → RangePair → Result (Space C)
  add_length s p = do e ← add s.tree_length p; ok (record s { tree_length = e })

  -- The two `add` calls of a branch of `allocSubrangeFromSuperRange`, for a range that remains
  unfoldable pub keep : Bool → (start length : ℕ) → Space C → Result (Space C)
  keep test start length s =
      if test
      then (do s ← add_length s (range_pair length start); add_start s (range_pair start length))
      else ok s

  -- `allocSubrangeFromSuperRange`: `sub` and `super` are (length, start)
  unfoldable pub alloc_subrange : Space C → (sub super : RangePair) → Result (Space C)
  alloc_subrange s sub super = do
    let super_end = add64 super.y super.x
    let sub_end = add64 sub.y sub.x
    s ← del_length s (range_pair super.x super.y)
    s ← del_start s (range_pair super.y super.x)
    s ← keep (ltb super.y sub.y) super.y (sub64 sub.y super.y) s
    keep (ltb sub_end super_end) sub_end (sub64 super_end sub_end) s

  -- `alloc`: `range` is (length, start)
  pub alloc : Space C → RangePair → Result (Space C)
  alloc s range = do
    super ← found_range (find_bound s.tree_start (range_pair range.y uint64_max) true)
    kassert (leb (add64 range.y range.x) (add64 super.x super.y))
    alloc_subrange s range (range_pair super.y super.x)

  -- The range that ends where the freed one starts is merged: the state and `mergedStart`.
  pub merge_before : Space C → (start : ℕ) → Option RangePair → Result (Space C × ℕ)
  merge_before s start none = ok (s, start)
  merge_before s start (some p) = do
    kassert (leb (add64 p.x p.y) start)
    let merged = (do
      s ← del_start s (range_pair p.x p.y)
      s ← del_length s (range_pair p.y p.x)
      ok (s, p.x))
    if add64 p.x p.y == start then merged else ok (s, start)

  -- The range that starts where the freed one ends is merged: the state and `mergedEnd`.
  pub merge_after : Space C → (end : ℕ) → Option RangePair → Result (Space C × ℕ)
  merge_after s end none = ok (s, end)
  merge_after s end (some p) = do
    kassert (leb end p.x)
    let merged = (do
      s ← del_start s (range_pair p.x p.y)
      s ← del_length s (range_pair p.y p.x)
      ok (s, add64 p.x p.y))
    if p.x == end then merged else ok (s, end)

  -- `free`: the state and the merged range as (start, length)
  pub free : Space C → (start size : ℕ) → Result (Space C × RangePair)
  free s start size = do
    (s, merged_start) ← merge_before s start (find_bound s.tree_start (range_pair start 0) true)
    (s, merged_end) ←
        merge_after s (add64 start size) (find_bound s.tree_start (range_pair start 0) false)
    let merged_size = sub64 merged_end merged_start
    s ← add_start s (range_pair merged_start merged_size)
    s ← add_length s (range_pair merged_size merged_start)
    ok (s, range_pair merged_start merged_size)
