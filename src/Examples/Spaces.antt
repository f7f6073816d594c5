-- ===== src/Examples/Spaces.antt =====
-- Inputs for bootloader/memory/AddressSpaceManager.
use cerius.Base.{◌+◌, ◌≤◌, ◌<◌, ◌≡◌, inl, ap, arith, Returns, fault, Fault}
use cerius.Range.{RangePair, range_pair}
use cerius.Range.Laws.{range_ordered}
use cerius.Examples.Single.{single, single-free, single-only, single-IsSpace}
use cerius.Avl.{plain_entry}
use cerius.Aslr.{AslrFields, aslr_entry}
use cerius.Space.{Space, alloc_subrange, alloc, free}
use cerius.Space.Invariant.{times, IsSpace}
use cerius.Space.Alloc.{Allocated, alloc_subrange-Allocated, alloc-Allocated, alloc_fault}
use cerius.Space.Free.{Freed, free-Freed}

-- 32 free bytes at 0x1000
abbrev block : RangePair
block = range_pair 0x1000 32

abbrev space : Space AslrFields
space = single block

space-IsSpace : IsSpace space
space-IsSpace = single-IsSpace block (omega arith) (omega arith)

-- The 8 bytes at 0x1008
abbrev inner : RangePair
inner = range_pair 8 0x1008

space-free : 0 < times space block
space-free = single-free block

alloc_subrange_example :
    Returns (Allocated space inner) (alloc_subrange space inner (range_pair 32 0x1000))
alloc_subrange_example =
    alloc_subrange-Allocated space inner block space-IsSpace space-free (omega arith) (omega arith)
      (omega arith)

alloc_example : Returns (Allocated space inner) (alloc space inner)
alloc_example =
    alloc-Allocated space inner block space-IsSpace space-free (omega arith) (omega arith)
      (omega arith)

block-end : (p : RangePair) → p ≡ block → p.x + p.y ≡ 0x1020
block-end p is = ap (λ (q : RangePair). q.x + q.y) is

beyond : (p : RangePair) → p ≡ block → ¬ (0x1018 + 16 ≤ p.x + p.y)
beyond p is h = absurd (omega (arith, block-end p is))

alloc_fault_example : alloc space (range_pair 16 0x1018) ≡ fault Fault.assertion
alloc_fault_example =
    alloc_fault space (range_pair 16 0x1018) space-IsSpace (omega arith)
      λ p h (from, until). beyond p (single-only block p h) until

free_example : Returns (λ (s, m). Freed 0x1020 16 space s m) (free space 0x1020 16)
free_example =
    free-Freed 0x1020 16 space space-IsSpace (omega arith) (omega arith)
      λ q h. inl (omega (arith, block-end q (single-only block q h)))
