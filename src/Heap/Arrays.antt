-- ===== src/Heap/Arrays.antt =====
-- `Heap::allocArrayNoCreateEntry`: where an array is put.
use cerius.Base.{
  ℕ, ◌+◌, ◌-◌, ◌/◌, ◌%◌, ◌^◌, ◌≤◌, ◌<◌, ◌≡◌, inl, inr, refl, arith, Option, Bool-cases, Result, ok,
  Returns, returns, bind, le→leb, ge→ltb, ◌==◌, ==→≡, ==→≢, ≢→==, add64,
}
use cerius.Range.{RangePair, range_pair}
use cerius.Range.Laws.{range_ordered}
use cerius.Range.Count.{swap}
use cerius.Avl.{plain_entry}
use cerius.Space.{Space, alloc_subrange, keep, free}
use cerius.Space.Invariant.{IsSpace, times}
use cerius.Space.Lookup.{Shortest, absent, shortest, find_bound-Shortest}
use cerius.Space.Alloc.{Allocated, alloc_subrange-Allocated}
use cerius.Space.Free.{Busy, Freed, free-Freed}
use cerius.Heap.{HeapState, chunk_size, round_up, take_array, alloc_array_no_create_entry}

-- The size that an array gets: the next multiple of 8
round_up-next :
    (size : ℕ)
    → 0 < size
    → size ≤ chunk_size
    → (size ≤ round_up 8 size) × (round_up 8 size < size + 8) × (round_up 8 size % 8 ≡ 0)
unfolding round_up
round_up-next size some' small = elim (Bool-cases (size % 8 == 0)) [
  | inl even ↦ rw even (omega arith, omega arith, ==→≡ (size % 8) 0 even)
  | inr odd ↦ let ne = ==→≢ (size % 8) 0 odd in rw odd (omega arith, omega arith, omega arith)
]

-- The two numbers of the block may be exchanged where it begins its range at an address that is not below
-- its size.
alloc_subrange-exchanged :
    (s : Space (Unit {0})) (size : ℕ) (p : RangePair)
    → size ≤ p.y
    → alloc_subrange s (range_pair p.y size) p ≡ alloc_subrange s (range_pair size p.y) p
unfolding alloc_subrange keep
alloc_subrange-exchanged s size p above =
    let ends : add64 size p.y ≡ add64 p.y size = omega arith in
    rw (ge→ltb p.y size above, ge→ltb p.y p.y (omega arith), ends) refl

module _ {ℓ} {M : Type ℓ} (memory_alloc : M → (length align : ℕ) → Result (M × ℕ))
    (memory_free : M → (start length : ℕ) → Result M)
    (alloc_single : HeapState M → Result (HeapState M × ℕ))
    (free_single : HeapState M → ℕ → Result (HeapState M)) where
  -- Where an array of `size` bytes is put: at the start of a shortest free part that is long enough; or, where
  -- there is none, at the start of a new chunk, the rest of which becomes free.
  pub data ArrayAnswer (size : ℕ) (h : HeapState M) : HeapState M × ℕ → Type ℓ where
    reused :
        {h' : HeapState M} {p : RangePair}
        → 0 < times h.ranges p
        → ((q : RangePair) → 0 < times h.ranges q → size ≤ q.y → p.y ≤ q.y)
        → Allocated h.ranges (range_pair size p.x) h'.ranges
        → h'.memory ≡ h.memory
        → ArrayAnswer size h (h', p.x)
    fresh :
        {h' : HeapState M} {chunk : ℕ} {m : RangePair}
        → ((q : RangePair) → 0 < times h.ranges q → q.y < size)
        → memory_alloc h.memory chunk_size chunk_size ≡ ok (h'.memory, chunk)
        → Freed (chunk + size) (chunk_size - size) h.ranges h'.ranges m
        → ArrayAnswer size h (h', chunk)

  -- What the heap relies on: its free parts lie above the first chunk of the address space, and there is
  -- memory for one more chunk, away from them.
  pub record CanGrow (h : HeapState M) : Type ℓ where
    pub space : IsSpace h.ranges
    pub high : (q : RangePair) → 0 < times h.ranges q → chunk_size ≤ q.x
    pub memory : M
    pub chunk : ℕ
    pub given : memory_alloc h.memory chunk_size chunk_size ≡ ok (memory, chunk)
    pub some_chunk : 0 < chunk
    pub below : chunk + chunk_size < 2 ^ 64
    pub apart : Busy chunk chunk_size h.ranges

  take_array-ArrayAnswer :
      (size : ℕ) (h : HeapState M) {r : Option RangePair}
      → CanGrow h
      → 0 < size
      → size ≤ chunk_size / 2
      → Shortest h.ranges size r
      → Returns
          (ArrayAnswer size h)
          (take_array memory_alloc memory_free alloc_single free_single size h r)
  unfolding take_array
  take_array-ArrayAnswer size h grow some' small (shortest {p} free long least) =
      rw (alloc_subrange-exchanged h.ranges size (swap p) (omega (arith, grow.high p free))) (
        bind
          (alloc_subrange-Allocated h.ranges (range_pair size p.x) p grow.space free some'
            (omega arith) (omega arith))
          λ ranges a. returns (reused free least a refl))
  take_array-ArrayAnswer size h grow some' small (absent short) =
      let start : add64 grow.chunk size ≡ grow.chunk + size = omega (arith, grow.below) in
      rw (grow.given, ≢→== grow.chunk 0 (omega (arith, grow.some_chunk)), start)
        (bind
          (free-Freed (grow.chunk + size) (chunk_size - size) h.ranges grow.space (omega arith)
            (omega (arith, grow.below))
            (λ q free. elim (grow.apart q free) [
              | inl before ↦ inl (omega arith)
              | inr after ↦ inr (omega arith)
            ]))
          λ f freed. returns (fresh short grow.given freed))

  -- Where the free parts are valid and all begin at or above `chunkSize`, and
  -- `MemoryManager::alloc` gives one more chunk, not null, that ends below 2 ^ 64 and of which
  -- no byte is free: for 1 to half a chunk of bytes `allocArrayNoCreateEntry` succeeds with the
  -- answer for the next multiple of 8 bytes. Either exactly the block is taken out of a shortest
  -- free part that is long enough, or no part is, and the new chunk holds the block, of which
  -- exactly the rest becomes free.
  pub alloc_array-ArrayAnswer :
      (size : ℕ) (h : HeapState M)
      → CanGrow h
      → 0 < size
      → size ≤ chunk_size / 2
      → Returns
          (ArrayAnswer (round_up 8 size) h)
          (alloc_array_no_create_entry memory_alloc memory_free alloc_single free_single size h)
  unfolding alloc_array_no_create_entry
  alloc_array-ArrayAnswer size h grow some' small =
      let next = round_up-next size some' (omega arith) in
      rw
        (≢→== size 0 (omega arith), le→leb (round_up 8 size) (chunk_size / 2) (omega (arith, next)))
        (take_array-ArrayAnswer (round_up 8 size) h grow (omega (arith, next)) (omega (arith, next))
          (find_bound-Shortest h.ranges (round_up 8 size) grow.space))
