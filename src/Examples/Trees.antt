-- ===== src/Examples/Trees.antt =====
-- Inputs for bootloader/memory/AvlTree and bootloader/memory/AslrTree.
use cerius.Base.{◌≡◌, refl, true, arith, Returns}
use cerius.Order.{IsSorted}
use cerius.Order.Sorted.{insert}
use cerius.Range.{RangePair, range_pair}
use cerius.Range.Laws.{range_ordered}
use cerius.Range.Count.{sum_x}
use cerius.Avl.{
  AvlEntry, plain_entry, null, get_height, clone, invcache, rebalance, add, tree_del, find_bound,
}
use cerius.Avl.Model.{to_list, IsAvl}
use cerius.Avl.Rebalance.{Rebalanced, rebalance-Rebalanced}
use cerius.Avl.Add.{Grown, add-insert}
use cerius.Avl.Del.{Removed, tree_del-Removed}
use cerius.Avl.Bound.{IsBound, find_bound-IsBound}
use cerius.Aslr.{AslrEntry, aslr_entry, find_nth, find_random_range}
use cerius.Aslr.Caches.{available, Caches, IsAvl-Caches}
use cerius.Aslr.Nth.{Fits, find_nth-Fits}
use cerius.Aslr.Random.{Answer, find_random_range-Answer}

abbrev Tree : Type 0
Tree = AvlEntry RangePair (Unit {0})

-- 1, 2, 3 in a line to the left, whose root is to be rebalanced
abbrev line : Tree
line = invcache (clone (range_pair 1 0)) (range_pair 2 0) null

abbrev right_line : Tree
right_line = invcache null (range_pair 4 0) (clone (range_pair 6 0))

abbrev four : Tree
four = invcache line (range_pair 4 0) (clone (range_pair 6 0))

line-IsAvl : IsAvl line
line-IsAvl = ((tt, tt, refl, omega arith, refl), tt, refl, omega arith, refl)

four-IsAvl : IsAvl four
four-IsAvl = (line-IsAvl, (tt, tt, refl, omega arith, refl), refl, omega arith, refl)

four-IsSorted : IsSorted (to_list four)
four-IsSorted = ((refl, (refl, (refl, tt))), ((refl, (refl, tt)), ((refl, tt), (tt, tt))))

rebalance_example :
    Returns (Rebalanced line (range_pair 3 0) null) (rebalance line (range_pair 3 0) null)
rebalance_example = rebalance-Rebalanced line (range_pair 3 0) null line-IsAvl tt (omega arith)

add_example :
    Returns
      (Grown (insert (range_pair 0 0) (to_list four)) (get_height four))
      (add four (range_pair 0 0))
add_example = add-insert four (range_pair 0 0) four-IsAvl four-IsSorted

del_example :
    Returns
      (λ (e, found). IsAvl e × Removed (range_pair 4 0) (to_list four) found (to_list e))
      (tree_del four (range_pair 4 0))
del_example = tree_del-Removed four (range_pair 4 0) four-IsAvl four-IsSorted

find_bound_example :
    IsBound true (range_pair 5 0) (to_list four) (find_bound four (range_pair 5 0) true)
find_bound_example = find_bound-IsBound four (range_pair 5 0) true four-IsSorted

-- Two free ranges, as (length, start): 16 bytes at 0x1000 and 32 at 0x2000
abbrev free_ranges : AslrEntry
free_ranges = invcache (clone (range_pair 16 0x1000)) (range_pair 32 0x2000) null

free_ranges-IsAvl : IsAvl free_ranges
free_ranges-IsAvl = ((tt, tt, refl, omega arith, refl), tt, refl, omega arith, refl)

free_ranges-sum : sum_x (to_list free_ranges) ≡ 48
unfolding sum_x
free_ranges-sum = refl

free_ranges-places : available 8 (to_list free_ranges) ≡ 34
unfolding available
free_ranges-places = refl

sums_example : Caches free_ranges
sums_example = IsAvl-Caches free_ranges free_ranges-IsAvl (omega (arith, free_ranges-sum))

find_nth_example :
    Returns (λ (start, super). Fits 8 (to_list free_ranges) start super) (find_nth free_ranges 30 8)
find_nth_example =
    find_nth-Fits free_ranges 30 7 free_ranges-IsAvl
      (record {
        long = (omega arith, (omega arith, tt));
        inside = (omega arith, (omega arith, tt));
        total = omega (arith, free_ranges-sum);
      })
      (omega (arith, free_ranges-places))

find_random_range_example :
    Returns (λ (r, seed). Answer 20 (to_list free_ranges) r) (find_random_range free_ranges 20 1234)
find_random_range_example =
    find_random_range-Answer free_ranges 19 1234 free_ranges-IsAvl ((refl, tt), (tt, tt))
      (omega arith, (omega arith, tt)) (omega (arith, free_ranges-sum))
