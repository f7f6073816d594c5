-- ===== src/Examples/Managers.antt =====
-- Inputs for bootloader/memory/PhysicalSpaceManager and bootloader/memory/LinearSpaceManager.
use cerius.Base.{◌+◌, ◌≡◌, inl, refl, ap, arith, ok, Returns}
use cerius.Range.{RangePair, range_pair}
use cerius.Range.Laws.{range_ordered}
use cerius.Range.Count.{sum_x}
use cerius.Avl.{plain_entry}
use cerius.Avl.Model.{to_list}
use cerius.Aslr.{aslr_entry}
use cerius.Space.Free.{Freed}
use cerius.Manager.{Memory, physical_alloc, physical_free, alloc_aslr, linear_free}
use cerius.Manager.Physical.{
  IsPhysical, PhysicalAnswer, physical_alloc-PhysicalAnswer, physical_free-Freed,
}
use cerius.Manager.Linear.{LinearAnswer, alloc_aslr-LinearAnswer, linear_free-Freed}
use cerius.Examples.Single.{single, single-only, single-IsSpace}

-- Four free pages at 0x100000 in both spaces, while the reserve is locked once
abbrev pages : RangePair
pages = range_pair 0x100000 0x4000

abbrev memory : Memory
memory = record {
  physical = single pages;
  available_memory = 0x4000;
  linear = single pages;
  seed = 1;
  lock_cnt = 1;
}

pages-end : (q : RangePair) → q ≡ pages → q.x + q.y ≡ 0x104000
pages-end q is = ap (λ (p : RangePair). p.x + p.y) is

pages-sum : sum_x (to_list memory.linear.tree_length) ≡ 0x4000
unfolding sum_x
pages-sum = refl

memory-IsPhysical : IsPhysical memory
unfolding sum_x
memory-IsPhysical = record {
  space = single-IsSpace pages (omega arith) (omega arith);
  available = refl;
  fits = omega arith;
}

physical_alloc_example : Returns (PhysicalAnswer memory 0x1000) (physical_alloc ok memory 0x1000)
physical_alloc_example =
    physical_alloc-PhysicalAnswer ok memory 0x1000 memory-IsPhysical (omega arith) (omega arith)
      refl

physical_free_example :
    Returns
      (λ m'.
        ((p : RangePair) × Freed 0x104000 0x1000 memory.physical m'.physical p)
        × IsPhysical m'
        × (m'.lock_cnt ≡ memory.lock_cnt)
        × (m'.linear ≡ memory.linear))
      (physical_free ok memory 0x104000 0x1000)
physical_free_example =
    physical_free-Freed ok memory 0x104000 0x1000 memory-IsPhysical (omega arith) (omega arith) refl
      refl (omega arith) (omega arith)
      λ q h. inl (omega (arith, pages-end q (single-only pages q h)))

alloc_aslr_example :
    Returns (LinearAnswer memory 0x1000 0x1000) (alloc_aslr ok memory 0x1000 0x1000)
alloc_aslr_example =
    alloc_aslr-LinearAnswer ok memory 0x1000 0x1000
      (single-IsSpace pages (omega arith) (omega arith)) (omega (arith, pages-sum)) (omega arith)
      (omega arith) (omega arith) refl refl (omega arith)

linear_free_example :
    Returns
      (λ m'.
        ((p : RangePair) × Freed 0x104000 0x1000 memory.linear m'.linear p)
        × (m'.lock_cnt ≡ memory.lock_cnt)
        × (m'.physical ≡ memory.physical))
      (linear_free ok memory 0x104000 0x1000)
linear_free_example =
    linear_free-Freed ok memory 0x104000 0x1000 (single-IsSpace pages (omega arith) (omega arith))
      (omega arith) (omega arith) refl refl (omega arith)
      λ q h. inl (omega (arith, pages-end q (single-only pages q h)))
