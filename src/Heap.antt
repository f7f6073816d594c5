-- ===== src/Heap.antt =====
-- bootloader/memory/Heap: the arrays of the heap, which are cut out of chunks of memory.
-- `ranges` is the pair of trees of the free parts of the chunks. `memory_alloc` and `memory_free` are
-- `alloc` and `free` of bootloader/memory/MemoryManager, on its state `M`; `alloc_single` and
-- `free_single` are what `allocSingleNoCreateEntry(0)` and `freeSingleNoDeleteEntry(p, 0)` do.
pub mod Arrays
use cerius.Base.{
  ℕ, ◌+◌, ◌-◌, ◌*◌, ◌/◌, ◌%◌, ◌^◌, Option, none, some, Bool, true, false, ◌&&◌, not, Result, ok,
  ◌>>=◌, ◌>>◌, kassert, leb, ◌==◌, if◌then◌else◌, add64,
}
use cerius.Range.{RangePair, range_pair}
use cerius.Range.Laws.{range_ordered}
use cerius.Avl.{plain_entry, find_bound}
use cerius.Space.{Space, alloc_subrange, alloc, free}

-- `chunkSize`
abbrev pub chunk_size : ℕ
chunk_size = 512 * 1024

pub record HeapState {ℓ} (M : Type ℓ) : Type ℓ where
  pub ranges : Space (Unit {0})
  pub memory : M

-- `if (size % unit) size += unit - size%unit`
pub round_up : (unit size : ℕ) → ℕ
round_up unit size = if size % unit == 0 then size else add64 size (unit - size % unit)

module _ {ℓ} {M : Type ℓ} (memory_alloc : M → (length align : ℕ) → Result (M × ℕ))
    (memory_free : M → (start length : ℕ) → Result M)
    (alloc_single : HeapState M → Result (HeapState M × ℕ))
    (free_single : HeapState M → ℕ → Result (HeapState M)) where
  -- `allocArrayNoCreateEntry` behind its call of `findBound`
  pub take_array : (size : ℕ) → HeapState M → Option RangePair → Result (HeapState M × ℕ)
  take_array size h (some p) = do
    ranges ← alloc_subrange h.ranges (range_pair p.y size) p
    ok (record h { ranges = ranges }, p.y)
  take_array size h none = do
    got ← memory_alloc h.memory chunk_size chunk_size
    kassert (not (got.1 == 0))
    freed ← free h.ranges (add64 got.1 size) (chunk_size - size)
    ok (record { ranges = freed.0; memory = got.0 }, got.1)

  -- `allocArrayNoCreateEntry`
  pub alloc_array_no_create_entry : (size : ℕ) → HeapState M → Result (HeapState M × ℕ)
  alloc_array_no_create_entry size h =
      let size8 = round_up 8 size in
      let large = (do
        got ← memory_alloc h.memory (round_up 4096 size8) 4096
        ok (record h { memory = got.0 }, got.1)) in
      let array =
        if leb size8 (chunk_size / 2)
        then take_array size8 h (find_bound h.ranges.tree_length (range_pair size8 0) false)
        else large in
      if size == 0 then alloc_single h else array

  -- `freeArrayNoDeleteEntry`: a chunk that is free as a whole goes back.
  pub free_array_no_delete_entry : (p size : ℕ) → HeapState M → Result (HeapState M)
  free_array_no_delete_entry p size h =
      let size8 = round_up 8 size in
      let chunk_start = p - p % chunk_size in
      let small = (do
        freed ← free h.ranges p size8
        let range = freed.1
        let whole = (do
          memory ← memory_free h.memory chunk_start chunk_size
          ranges ← alloc freed.0 (range_pair chunk_size chunk_start)
          ok (record { ranges = ranges; memory = memory }))
        let is_whole =
            leb range.x chunk_start && leb (add64 chunk_start chunk_size) (add64 range.x range.y)
        if is_whole then whole else ok (record h { ranges = freed.0 })) in
      let large = (do
        memory ← memory_free h.memory p (round_up 4096 size8)
        ok (record h { memory = memory })) in
      let array = if leb size8 (chunk_size / 2) then small else large in
      if size == 0 then free_single h p else array
