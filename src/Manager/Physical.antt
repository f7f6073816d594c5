-- ===== src/Manager/Physical.antt =====
-- `PhysicalSpaceManager::alloc` and `free`, called while the reserve is locked.
use cerius.Base.{
  ℕ, ◌+◌, ◌-◌, ◌%◌, ◌≤◌, ◌<◌, ◌^◌, ◌≡◌, refl, Option, Result, ok, arith, add64, sub64, Returns,
  returns, bind, ≡→==, ≢→==, le→leb, lt→ltb,
}
use cerius.Range.{RangePair, range_pair}
use cerius.Range.Laws.{range_ordered}
use cerius.Range.Count.{sum_x}
use cerius.Avl.{plain_entry}
use cerius.Avl.Model.{to_list}
use cerius.Space.{free}
use cerius.Space.Lookup.{Shortest, absent, shortest, find_bound-Shortest}
use cerius.Space.Invariant.{IsSpace, times}
use cerius.Space.Alloc.{Allocated, alloc_subrange-Allocated}
use cerius.Space.Free.{Busy, Freed, free-Freed}
use cerius.Manager.{Memory, lock, unlock, place, physical_alloc, physical_free}

-- The free ranges are valid and `availableMemory` is the number of their bytes.
pub record IsPhysical (m : Memory) : Type 0 where
  pub space : IsSpace m.physical
  pub available : m.available_memory ≡ sum_x (to_list m.physical.tree_length)
  pub fits : m.available_memory < 2 ^ 64

-- The two ways in which `alloc` ends: no free range is long enough, and the lock is left taken; or
-- the block is the start of a shortest range that is long enough.
pub data PhysicalAnswer (m : Memory) (length : ℕ) : Memory × ℕ → Type 0 where
  unavailable :
      ((q : RangePair) → 0 < times m.physical q → q.y < length)
      → PhysicalAnswer m length (lock m, 0)
  placed :
      {m' : Memory} {p : RangePair}
      → 0 < times m.physical p
      → length ≤ p.y
      → ((q : RangePair) → 0 < times m.physical q → length ≤ q.y → p.y ≤ q.y)
      → Allocated m.physical (range_pair length p.x) m'.physical
      → IsPhysical m'
      → m'.lock_cnt ≡ m.lock_cnt
      → m'.linear ≡ m.linear
      → PhysicalAnswer m length (m', p.x)

module _ (settle : Memory → Result Memory) where
  -- While another holds the lock, `unlock` only counts down.
  pub unlock_nested :
      (m : Memory) → 1 < m.lock_cnt → unlock settle m ≡ ok (record m { lock_cnt = m.lock_cnt - 1 })
  unfolding unlock
  unlock_nested m held =
      rw (lt→ltb 0 m.lock_cnt (omega arith), ≢→== m.lock_cnt 1 (omega arith)) refl

  place-PhysicalAnswer :
      (m : Memory) (length : ℕ) {r : Option RangePair}
      → IsPhysical m
      → 0 < m.lock_cnt
      → 0 < length
      → Shortest m.physical length r
      → Returns (PhysicalAnswer m length) (place settle m length r)
  unfolding place
  place-PhysicalAnswer m length i held some' (absent short) = returns (unavailable short)
  place-PhysicalAnswer m length i held some' (shortest {p} free long least) =
      let fit = i.space.proper p free in
      rw (le→leb length p.y long) (
        bind
          (alloc_subrange-Allocated m.physical (range_pair length p.x) p i.space free some'
            (omega arith) (omega arith))
          λ space a.
            let left : sub64 m.available_memory length ≡ sum_x (to_list space.tree_length) =
              omega (arith, a.total, i.available, i.fits) in
            rw
              (unlock_nested
                (record m {
                  physical = space;
                  available_memory = sub64 m.available_memory length;
                  lock_cnt = m.lock_cnt + 1;
                })
                (omega arith))
              (returns (
                placed free long least a
                  (record { space = a.space; available = left; fits = omega arith }) (omega arith)
                  refl)))

  -- Where the lock is held, the free ranges are valid and `availableMemory` counts them, `alloc` of
  -- at least one byte, in whole pages, fails no assertion. Either every free range is too short, the
  -- result is 0 and the lock count stays one too high; or the result is the start of a shortest free
  -- range that is long enough, exactly the block's addresses are no longer free, `availableMemory`
  -- counts the free ranges again, and the lock count is what it was.
  pub physical_alloc-PhysicalAnswer :
      (m : Memory) (length : ℕ)
      → IsPhysical m
      → 0 < m.lock_cnt
      → 0 < length
      → length % 4096 ≡ 0
      → Returns (PhysicalAnswer m length) (physical_alloc settle m length)
  unfolding physical_alloc
  physical_alloc-PhysicalAnswer m length i held some' pages =
      rw (≡→== (length % 4096) 0 pages)
        (place-PhysicalAnswer m length i held some' (find_bound-Shortest m.physical length i.space))

  -- Where the lock is held, the free ranges are valid and `availableMemory` counts them, `free`
  -- of at least one byte in whole pages, of a block that ends below 2 ^ 64, of which no byte is
  -- free and whose bytes do not make `availableMemory` wrap around, fails no assertion; exactly
  -- the block has become free, `availableMemory` counts the free ranges again, and the lock
  -- count is what it was.
  pub physical_free-Freed :
      (m : Memory) (start length : ℕ)
      → IsPhysical m
      → 0 < m.lock_cnt
      → 0 < length
      → length % 4096 ≡ 0
      → start % 4096 ≡ 0
      → start + length < 2 ^ 64
      → m.available_memory + length < 2 ^ 64
      → Busy start length m.physical
      → Returns
          (λ m'.
            ((p : RangePair) × Freed start length m.physical m'.physical p)
            × IsPhysical m'
            × (m'.lock_cnt ≡ m.lock_cnt)
            × (m'.linear ≡ m.linear))
          (physical_free settle m start length)
  unfolding physical_free
  physical_free-Freed m start length i held some' pages page fits more busy =
      rw (≡→== (start % 4096) 0 page, ≡→== (length % 4096) 0 pages)
        (bind (free-Freed start length m.physical i.space some' fits busy) λ (space, p) f.
          let all : add64 m.available_memory length ≡ sum_x (to_list space.tree_length) =
            omega (arith, f.total, i.available) in
          rw
            (unlock_nested
              (record m {
                physical = space;
                available_memory = add64 m.available_memory length;
                lock_cnt = m.lock_cnt + 1;
              })
              (omega arith))
            (returns (
              (p, f),
              record { space = f.space; available = all; fits = omega arith },
              omega arith,
              refl,
            )))
