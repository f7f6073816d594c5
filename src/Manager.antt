-- ===== src/Manager.antt =====
-- bootloader/memory/PhysicalSpaceManager and bootloader/memory/LinearSpaceManager: the two address
-- spaces, which are changed while the reserve of bootloader/memory/Reserve is locked.
-- `settle` is what the last `unlock` does to refill or to trim the reserve, by way of these
-- managers again. It runs only where no caller holds the lock.
pub mod Physical
pub mod Linear
use cerius.Base.{
  ℕ, ◌+◌, ◌-◌, ◌%◌, Bool, true, false, Option, none, some, Result, ok, fault, Fault, kassert, ◌>>=◌,
  ◌>>◌, ltb, leb, ◌==◌, if◌then◌else◌, add64, sub64,
}
use cerius.Range.{RangePair, range_pair}
use cerius.Range.Laws.{range_ordered}
use cerius.Avl.{plain_entry, find_bound}
use cerius.Aslr.{AslrFields, aslr_entry, Chosen, find_random_range}
use cerius.Space.{Space, alloc_subrange, free}

-- The static fields of the two managers, the seed of the generator and the reserve's `lockCnt`.
pub record Memory : Type 0 where
  pub physical : Space (Unit {0})
  pub available_memory : ℕ
  pub linear : Space AslrFields
  pub seed : ℕ
  pub lock_cnt : ℕ

-- `MemoryReserveManager::lock`
abbrev pub lock : Memory → Memory
lock m = record m { lock_cnt = m.lock_cnt + 1 }

-- `x % y` in C, where a zero divisor stops the program.
abbrev pub modulo : ℕ → ℕ → Result ℕ
modulo x y = if y == 0 then fault Fault.division else ok (x % y)

-- `if (start%align) start += align- start%align;`
pub align_up : (start align : ℕ) → Result ℕ
align_up start align = do
  rest ← modulo start align
  if rest == 0 then ok start else ok (add64 start (sub64 align rest))

module _ (settle : Memory → Result Memory) where
  -- `MemoryReserveManager::unlock`
  pub unlock : Memory → Result Memory
  unlock m = do
    kassert (ltb 0 m.lock_cnt)
    let last = (do m ← settle m; ok (record m { lock_cnt = m.lock_cnt - 1 }))
    if m.lock_cnt == 1 then last else ok (record m { lock_cnt = m.lock_cnt - 1 })

  -- `PhysicalSpaceManager::alloc` behind its call of `findBound`
  pub place : Memory → (length : ℕ) → Option RangePair → Result (Memory × ℕ)
  place m length none = ok (lock m, 0)
  place m length (some super) = do
    kassert (leb length super.x)
    physical ← alloc_subrange m.physical (range_pair length super.y) super
    m' ← unlock (record m {
      physical = physical;
      available_memory = sub64 m.available_memory length;
      lock_cnt = m.lock_cnt + 1;
    })
    ok (m', super.y)

  -- `PhysicalSpaceManager::alloc`
  pub physical_alloc : Memory → (length : ℕ) → Result (Memory × ℕ)
  physical_alloc m length = do
    kassert (length % 4096 == 0)
    place m length (find_bound m.physical.tree_length (range_pair length 0) false)

  -- `PhysicalSpaceManager::free`
  pub physical_free : Memory → (start length : ℕ) → Result Memory
  physical_free m start length = do
    kassert (start % 4096 == 0)
    kassert (length % 4096 == 0)
    (physical, merged) ← free m.physical start length
    unlock (record m {
      physical = physical;
      available_memory = add64 m.available_memory length;
      lock_cnt = m.lock_cnt + 1;
    })

  -- `LinearSpaceManager::allocAslr` behind its call of `findRandomRange`, whose seed is the next one
  pub place_aslr : Memory → (length align : ℕ) → Option Chosen × ℕ → Result (Memory × ℕ)
  place_aslr m length align (none, seed) =
      ok (record m { seed = seed; lock_cnt = m.lock_cnt + 1 }, 0)
  place_aslr m length align (some c, seed) = do
    start ← align_up c.start align
    kassert (leb c.super.y start)
    kassert (leb (add64 start length) (add64 c.super.y c.super.x))
    linear ← alloc_subrange m.linear (range_pair length start) c.super
    m' ← unlock (record m { linear = linear; seed = seed; lock_cnt = m.lock_cnt + 1 })
    ok (m', start)

  -- `LinearSpaceManager::allocAslr`
  pub alloc_aslr : Memory → (length align : ℕ) → Result (Memory × ℕ)
  alloc_aslr m length align = do
    kassert (length % 4096 == 0)
    kassert (align % 4096 == 0)
    answer ← find_random_range m.linear.tree_length (sub64 (add64 length align) 1) m.seed
    place_aslr m length align answer

  -- `LinearSpaceManager::free`
  pub linear_free : Memory → (start length : ℕ) → Result Memory
  linear_free m start length = do
    kassert (start % 4096 == 0)
    kassert (length % 4096 == 0)
    (linear, merged) ← free m.linear start length
    unlock (record m { linear = linear; lock_cnt = m.lock_cnt + 1 })
