-- ===== src/Examples/Arrays.antt =====
-- A heap with one free part for bootloader/memory/Heap.
use cerius.Base.{ℕ, ◌+◌, ◌≡◌, refl, ap, inl, arith, Result, ok, Returns}
use cerius.Range.{RangePair, range_pair}
use cerius.Range.Laws.{range_ordered}
use cerius.Avl.{plain_entry}
use cerius.Heap.{HeapState, round_up, alloc_array_no_create_entry}
use cerius.Heap.Arrays.{CanGrow, ArrayAnswer, alloc_array-ArrayAnswer}
use cerius.Examples.Single.{single, single-only, single-IsSpace}

-- The rest of the chunk at 0x100000, whose first 0x40000 bytes are taken
abbrev part : RangePair
part = range_pair 0x140000 0x40000

part-start : (q : RangePair) → q ≡ part → q.x ≡ 0x140000
part-start q is = ap (λ (p : RangePair). p.x) is

part-end : (q : RangePair) → q ≡ part → q.x + q.y ≡ 0x180000
part-end q is = ap (λ (p : RangePair). p.x + p.y) is

-- Memory as the address of the next chunk
abbrev next_chunk : ℕ → (length align : ℕ) → Result (ℕ × ℕ)
next_chunk next length align = ok (next + length, next)

abbrev heap : HeapState ℕ
heap = record { ranges = single part; memory = 0x200000 }

heap-CanGrow : CanGrow next_chunk (λ m start length. ok m) (λ h. ok (h, 0)) (λ h p. ok h) heap
heap-CanGrow = record {
  space = single-IsSpace part (omega arith) (omega arith);
  high = λ q free. omega (arith, part-start q (single-only part q free));
  memory = 0x280000;
  chunk = 0x200000;
  given = refl;
  some_chunk = omega arith;
  below = omega arith;
  apart = λ q free. inl (omega (arith, part-end q (single-only part q free)));
}

alloc_array_example :
    Returns
      (ArrayAnswer next_chunk
        (λ m start length. ok m)
        (λ h. ok (h, 0))
        (λ h p. ok h)
        (round_up 8 1001)
        heap)
      (alloc_array_no_create_entry next_chunk
        (λ m start length. ok m)
        (λ h. ok (h, 0))
        (λ h p. ok h)
        1001
        heap)
alloc_array_example =
    alloc_array-ArrayAnswer next_chunk (λ m start length. ok m) (λ h. ok (h, 0)) (λ h p. ok h) 1001
      heap heap-CanGrow (omega arith) (omega arith)
