-- ===== src/PrimitiveHeap.antt =====
-- bootloader/memory/PrimitiveHeap: objects of one size in chunks, whose free slots are the set bits
-- of a bitmap. The chunks with free slots stand in two doubly linked lists, `nonempty_ll` and
-- `empty_ll`. A pointer to a chunk is its address, 0 is the null pointer, and `chunks` is the memory
-- at the chunks' addresses. The allocator and the deallocator that the constructor is given are
-- parameters that may work on this heap themselves.
pub mod Length
pub mod Links
pub mod Unlink
pub mod Slots
use cerius.Base.{
  ℕ, zero, suc, ◌+◌, ◌-◌, ◌*◌, ◌/◌, ◌%◌, ◌^◌, Bool, true, false, ◌&&◌, ◌||◌, not, List, [], ◌∷◌,
  ◌++◌, Result, ok, fault, Fault, kassert, ◌>>=◌, ◌>>◌, ltb, leb, ◌==◌, if◌then◌else◌, add64, sub64,
  bit_and, bit_or,
}
use cerius.Bitmap.{lowest_set_bit, binarylog}

pub record PrimitiveHeapChunk : Type 0 where
  pub next : ℕ
  pub prev : ℕ
  pub numavailableentry : ℕ
  -- the array behind the objects
  pub bm : List ℕ

abbrev pub Chunks : Type 0
Chunks = ℕ → PrimitiveHeapChunk

-- The memory after the chunk at `p` is written.
abbrev pub write : Chunks → ℕ → PrimitiveHeapChunk → Chunks
write chunks p chunk q = if q == p then chunk else chunks q

pub record PrimitiveHeap : Type 0 where
  pub nonempty_ll_root : ℕ
  pub empty_ll_root : ℕ
  pub chunk_size : ℕ
  pub object_size : ℕ
  pub padding_size : ℕ
  pub bm_length : ℕ
  pub e_length : ℕ
  pub num_available_units : ℕ
  pub align : ℕ
  pub lock_cnt : ℕ
  pub min_units : ℕ
  pub max_units : ℕ
  pub chunks : Chunks

-- `a - b` of two counts.
abbrev pub less : ℕ → ℕ → Result ℕ
less a b = if ltb a b then fault Fault.negative else ok (a - b)

-- `addChunkToLL`: the memory and the root afterwards
pub add_chunk_to_ll : Chunks → (chunk root : ℕ) → Result (Chunks × ℕ)
add_chunk_to_ll chunks chunk root =
    let chunks' = write chunks chunk (record (chunks chunk) { prev = 0; next = root }) in
    if root == 0 then ok (chunks', chunk) else (do
      kassert ((chunks' root).prev == 0)
      ok (write chunks' root (record (chunks' root) { prev = chunk }), chunk))

-- `removeChunkFromLL`
pub unlink_before : Chunks → (chunk root : ℕ) → Result (Chunks × ℕ)
unlink_before chunks chunk root =
    let prev = (chunks chunk).prev in
    let next = (chunks chunk).next in
    if prev == 0
    then (do kassert (chunk == root); ok (chunks, next))
    else ok (write chunks prev (record (chunks prev) { next = next }), root)

pub remove_chunk_from_ll : Chunks → (chunk root : ℕ) → Result (Chunks × ℕ)
unfolding unlink_before
remove_chunk_from_ll chunks chunk root = do
  (chunks', root') ← unlink_before chunks chunk root
  let next = (chunks' chunk).next
  if next == 0
      then ok (chunks', root')
      else ok (write chunks' next (record (chunks' next) { prev = (chunks' chunk).prev }), root')

-- The bytes that `n` objects and their bitmaps take in a chunk, with the header.
abbrev pub chunk_bytes : (padding_size object_size n : ℕ) → ℕ
chunk_bytes padding_size object_size n = 3 * 8 + padding_size + n * object_size + (n + 63) / 64 * 8

-- The value of an `int` expression, of which none is negative here
abbrev pub int : ℕ → Result ℕ
int x = if ltb x (2 ^ 31) then ok x else fault Fault.overflow

-- The same bytes as `findOptimalELength` computes them: every part is at most the sum.
abbrev pub int_bytes : (padding_size object_size n : ℕ) → Result ℕ
int_bytes padding_size object_size n = do
  words ← int (n + 63)
  int (chunk_bytes padding_size object_size n)

-- `findOptimalELength`, with `chunkSize`, `paddingSize` and `objectSize` of type `int`
pub find_optimal_e_length : (chunk_size padding_size object_size : ℕ) → Result ℕ
find_optimal_e_length chunk_size padding_size object_size = do
  room ← less chunk_size (3 * 8 + padding_size)
  bits ← int (8 * room)
  unit ← int (8 * object_size + 1)
  let lim = bits / unit
  bytes ← int_bytes padding_size object_size lim
  if leb bytes chunk_size then ok lim else (do
    lim' ← less lim 1
    bytes' ← int_bytes padding_size object_size lim'
    kassert (leb bytes' chunk_size)
    ok lim')

-- `paddingSize` as the constructor sets it
abbrev pub padding_for : (align : ℕ) → ℕ
padding_for align = if 3 * 8 % align == 0 then 0 else align - 3 * 8 % align

-- `findBeginningOfEArray`
abbrev pub find_beginning_of_e_array : PrimitiveHeap → ℕ → ℕ
find_beginning_of_e_array h chunk = add64 chunk (3 * 8 + h.padding_size)

abbrev ones : ℕ
ones = 0xffff_ffff_ffff_ffff

-- The loop of `replenish(chunk)` that sets all bits of the words before the last one.
full_words : ℕ → List ℕ → List ℕ
full_words zero rest = rest
full_words (suc n) rest = ones ∷ full_words n rest

-- The bitmap that `replenish(chunk)` writes, in which every slot is free.
full_bitmap : (bm_length e_length : ℕ) → List ℕ
unfolding full_words
full_bitmap bm_length e_length =
    full_words (bm_length - 1) ((if e_length % 64 == 0 then ones else 2 ^ (e_length % 64) - 1) ∷ [])

-- `replenish(chunk)`
pub replenish_chunk : PrimitiveHeap → (chunk : ℕ) → Result PrimitiveHeap
unfolding full_bitmap
replenish_chunk h chunk = do
  kassert (chunk % h.chunk_size == 0)
  (chunks, root) ←
      add_chunk_to_ll
        (write h.chunks chunk (record (h.chunks chunk) {
          numavailableentry = h.e_length;
          bm = full_bitmap h.bm_length h.e_length;
        }))
        chunk h.empty_ll_root
  ok (record h {
    chunks = chunks;
    empty_ll_root = root;
    num_available_units = h.num_available_units + h.e_length;
  })

-- `(empty_ll_root != NULL) && (numAvailableUnits > maxUnits)`
abbrev pub needs_trim : PrimitiveHeap → Bool
needs_trim h = not (h.empty_ll_root == 0) && ltb h.max_units h.num_available_units

-- The constructor. Its memory holds what it held; `initChunk` is embraced unless it is null.
pub construct :
    (chunk_size object_size align init_chunk min_units max_units : ℕ)
    → Chunks
    → Result PrimitiveHeap
construct chunk_size object_size align init_chunk min_units max_units chunks = do
  kassert (chunk_size % 8 == 0)
  kassert (object_size % 8 == 0)
  kassert (align % 8 == 0)
  kassert (init_chunk % chunk_size == 0)
  kassert (object_size % align == 0)
  kassert (chunk_size % align == 0)
  kassert (leb (object_size + 4 * 8) chunk_size)
  e_length ← find_optimal_e_length chunk_size (padding_for align) object_size
  kassert (not (e_length == 1))
  kassert (leb (min_units + e_length) max_units)
  kassert (ltb 0 e_length && ltb min_units e_length)
  let h : PrimitiveHeap = record {
    nonempty_ll_root = 0;
    empty_ll_root = 0;
    chunk_size = chunk_size;
    object_size = object_size;
    padding_size = padding_for align;
    bm_length = (e_length + 63) / 64;
    e_length = e_length;
    num_available_units = 0;
    align = align;
    lock_cnt = 0;
    min_units = min_units;
    max_units = max_units;
    chunks = chunks;
  }
  if init_chunk == 0 then ok h else replenish_chunk h init_chunk

-- `lock`
abbrev pub lock : PrimitiveHeap → PrimitiveHeap
lock h = record h { lock_cnt = h.lock_cnt + 1 }

-- The loop of `alloc` over the words from number `bmindex` on: the index of the lowest set bit, and
-- the words without it. An index that stays -1 fails the assertion behind the loop.
pub take_bit : (bmindex : ℕ) → List ℕ → Result (ℕ × List ℕ)
unfolding lowest_set_bit
take_bit bmindex [] = fault Fault.assertion
take_bit bmindex (word ∷ words) =
    let here = (do
      log ← binarylog (lowest_set_bit word)
      ok (64 * bmindex + log, bit_and word (ones - lowest_set_bit word) ∷ words)) in
    let behind = (do (index, words') ← take_bit (bmindex + 1) words; ok (index, word ∷ words')) in
    if word == 0 then behind else here

-- `bm[i] |= bit`
set_bits : List ℕ → (i bit : ℕ) → Result (List ℕ)
set_bits [] i bit = fault Fault.out_of_bounds
set_bits (word ∷ words) zero bit = ok (bit_or word bit ∷ words)
set_bits (word ∷ words) (suc i) bit = do words' ← set_bits words i bit; ok (word ∷ words')

-- The first chunk of `empty_ll` becomes the only one of `nonempty_ll`, if that is empty.
open_chunk : PrimitiveHeap → Result PrimitiveHeap
open_chunk h =
    if h.nonempty_ll_root == 0
    then (do
      kassert (not (h.empty_ll_root == 0))
      (chunks, empty) ← remove_chunk_from_ll h.chunks h.empty_ll_root h.empty_ll_root
      (chunks', nonempty) ← add_chunk_to_ll chunks h.empty_ll_root h.nonempty_ll_root
      ok (record h { chunks = chunks'; empty_ll_root = empty; nonempty_ll_root = nonempty }))
    else ok h

-- `alloc` from the choice of the slot on
pub take_slot : PrimitiveHeap → Result (PrimitiveHeap × ℕ)
take_slot h = do
  kassert (not (h.nonempty_ll_root == 0))
  let root = h.nonempty_ll_root
  (index, bm) ← take_bit 0 (h.chunks root).bm
  let left = sub64 (h.chunks root).numavailableentry 1
  num ← less h.num_available_units 1
  let chunks = write h.chunks root (record (h.chunks root) { numavailableentry = left; bm = bm })
  let res = add64 (find_beginning_of_e_array h root) (h.object_size * index)
  (chunks', root') ← if left == 0 then remove_chunk_from_ll chunks root root else ok (chunks, root)
  kassert (res % h.align == 0)
  ok (record h { chunks = chunks'; nonempty_ll_root = root'; num_available_units = num }, res)

-- `free` up to its last test
give_slot : PrimitiveHeap → (p : ℕ) → Result PrimitiveHeap
give_slot h p = do
  let chunk = p - p % h.chunk_size
  -- an `int`: a value of at least `2 ^ 31` is negative
  let index = sub64 p (find_beginning_of_e_array h chunk) / h.object_size % 2 ^ 32
  kassert (leb (2 ^ 31) index || ltb index h.e_length)
  bm ← set_bits (h.chunks chunk).bm (index / 64) (2 ^ (index % 64))
  let num = add64 (h.chunks chunk).numavailableentry 1
  let chunks = write h.chunks chunk (record (h.chunks chunk) { numavailableentry = num; bm = bm })
  (chunks', nonempty) ←
      if num == 1
      then add_chunk_to_ll chunks chunk h.nonempty_ll_root
      else ok (chunks, h.nonempty_ll_root)
  (chunks'', nonempty', empty) ←
      if num == h.e_length
      then (do
        (chunks1, nonempty') ← remove_chunk_from_ll chunks' chunk nonempty
        (chunks2, empty) ← add_chunk_to_ll chunks1 chunk h.empty_ll_root
        ok (chunks2, nonempty', empty))
      else ok (chunks', nonempty, h.empty_ll_root)
  ok (record h {
    chunks = chunks'';
    nonempty_ll_root = nonempty';
    empty_ll_root = empty;
    num_available_units = h.num_available_units + 1;
  })

module _ (allocator : PrimitiveHeap → Result (PrimitiveHeap × ℕ))
    (deallocator : PrimitiveHeap → ℕ → Result PrimitiveHeap) where
  -- `replenish()`
  pub replenish : PrimitiveHeap → Result PrimitiveHeap
  replenish h = do (h, chunk) ← allocator h; replenish_chunk h chunk

  -- The loop of `trim`, with the rounds left
  pub trim_loop : ℕ → PrimitiveHeap → Result PrimitiveHeap
  trim_loop zero h = if needs_trim h then fault Fault.out_of_fuel else ok h
  trim_loop (suc rounds) h = elim (needs_trim h) [
    | false ↦ ok h
    | true ↦ (do
      (chunks, root) ← remove_chunk_from_ll h.chunks h.empty_ll_root h.empty_ll_root
      num ← less h.num_available_units h.e_length
      h' ←
          deallocator
            (record h { chunks = chunks; empty_ll_root = root; num_available_units = num })
            h.empty_ll_root
      trim_loop rounds h')
  ]

  -- `trim`: a round takes at least one unit
  pub trim : PrimitiveHeap → Result PrimitiveHeap
  trim h = trim_loop h.num_available_units h

  -- `unlock`
  pub unlock : PrimitiveHeap → Result PrimitiveHeap
  unlock h = do
    kassert (ltb 0 h.lock_cnt)
    let held = record h { lock_cnt = h.lock_cnt - 1 }
    let refilled =
        (if leb h.num_available_units h.min_units
          then replenish h
          else (if ltb h.max_units h.num_available_units then trim h else ok h))
    if h.lock_cnt == 1
        then (do h' ← refilled; left ← less h'.lock_cnt 1; ok (record h' { lock_cnt = left }))
        else ok held

  -- `alloc`
  pub alloc : PrimitiveHeap → (size align : ℕ) → Result (PrimitiveHeap × ℕ)
  alloc h size align = do
    kassert (size == h.object_size)
    kassert (align == h.align)
    h ←
        if leb h.num_available_units h.min_units && (h.lock_cnt == 0)
        then (do h ← replenish (lock h); unlock h)
        else ok h
    kassert (ltb 0 h.num_available_units)
    h ← open_chunk h
    take_slot h

  -- `free`
  pub free : PrimitiveHeap → (p size : ℕ) → Result PrimitiveHeap
  free h p size = do
    kassert (p % h.align == 0)
    kassert (size == h.object_size)
    h ← give_slot h p
    if h.lock_cnt == 0 then (do h ← trim (lock h); unlock h) else ok h
