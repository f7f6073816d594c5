-- ===== src/Examples/Chunks.antt =====
-- Inputs for bootloader/memory/PrimitiveHeap.
use cerius.Base.{ℕ, ◌≡◌, refl, arith, Returns, ok, [], ◌∷◌, ◌==◌, if◌then◌else◌, ◌^◌}
use cerius.Bitmap.{lowest_set_bit, binarylog}
use cerius.Bitmap.Lowest.{lowest, IsLowest, binarylog-lowest}
use cerius.PrimitiveHeap.{
  PrimitiveHeapChunk, Chunks, find_optimal_e_length, add_chunk_to_ll, remove_chunk_from_ll,
  take_bit,
}
use cerius.PrimitiveHeap.Length.{IsLargest, find_optimal_e_length-IsLargest}
use cerius.PrimitiveHeap.Links.{IsLinked, SameContents, add_chunk_to_ll-IsLinked}
use cerius.PrimitiveHeap.Unlink.{remove_chunk_from_ll-IsLinked}
use cerius.PrimitiveHeap.Slots.{Taken, take_bit-Taken}

lowest_example :
    IsLowest 64 40 (lowest 64 40)
    × (lowest_set_bit 40 ≡ 2 ^ lowest 64 40)
    × (binarylog (lowest_set_bit 40) ≡ ok (lowest 64 40))
lowest_example = binarylog-lowest 40 (omega arith) (omega arith)

-- The heap of the tree entries: 8192 bytes for objects of 48
optimal_example : Returns (IsLargest 8192 0 48) (find_optimal_e_length 8192 0 48)
optimal_example =
    find_optimal_e_length-IsLargest 8192 0 48 (omega arith) (omega arith) (omega arith)

abbrev chunk : (next prev : ℕ) → PrimitiveHeapChunk
chunk next prev = record { next = next; prev = prev; numavailableentry = 1; bm = 6 ∷ [] }

-- The chunks at 0x2000, 0x4000 and 0x6000, in a list
abbrev three : Chunks
three a =
    if a == 0x2000
    then chunk 0x4000 0
    else (if a == 0x4000 then chunk 0x6000 0x2000 else chunk 0 0x4000)

add_chunk_example :
    Returns
      (λ (m, root).
        IsLinked m 0 root (0x8000 ∷ 0x2000 ∷ 0x4000 ∷ 0x6000 ∷ []) × SameContents three m)
      (add_chunk_to_ll three 0x8000 0x2000)
add_chunk_example =
    add_chunk_to_ll-IsLinked three 0x8000 0x2000 (0x2000 ∷ 0x4000 ∷ 0x6000 ∷ []) (omega arith)
      (omega arith, (omega arith, (omega arith, tt)))
      ((omega arith, (omega arith, tt)), ((omega arith, tt), (tt, tt)))
      (refl, omega arith, refl, (refl, omega arith, refl, (refl, omega arith, refl, refl)))

remove_chunk_example :
    Returns
      (λ (m, root). IsLinked m 0 root (0x2000 ∷ 0x6000 ∷ []) × SameContents three m)
      (remove_chunk_from_ll three 0x4000 0x2000)
remove_chunk_example =
    remove_chunk_from_ll-IsLinked three 0x4000 0x2000 (0x2000 ∷ []) (0x6000 ∷ [])
      ((omega arith, (omega arith, tt)), ((omega arith, tt), (tt, tt)))
      (refl, omega arith, refl, (refl, omega arith, refl, (refl, omega arith, refl, refl)))

take_bit_example : Returns (λ (index, bm). Taken 0 (0 ∷ 6 ∷ []) index bm) (take_bit 0 (0 ∷ 6 ∷ []))
take_bit_example =
    take_bit-Taken 0 (0 ∷ 6 ∷ []) (omega arith, (omega arith, tt))
      λ h. absurd (omega (arith, h.1.0))
