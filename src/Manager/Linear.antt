-- ===== src/Manager/Linear.antt =====
-- `LinearSpaceManager::allocAslr` and `free`, called while the reserve is locked.
use native.Mathlib.Nat.{zero-mod, mod-lt, mod-add-div, mul-add-mod_self_left}
use cerius.Base.{
  ℕ, ◌+◌, ◌-◌, ◌*◌, ◌/◌, ◌%◌, ◌≤◌, ◌<◌, ◌^◌, ◌≡◌, refl, Option, none, some, Result, arith, ◌==◌,
  add64, sub64, Returns, returns, bind, ≡→==, ≢→==, ==→≡, le→leb, inl, inr, Bool-cases, ==→≢, ◌∙◌,
}
use cerius.Range.{RangePair, range_pair}
use cerius.Range.Laws.{range_ordered}
use cerius.Range.Count.{swap, sum_x, count-Has, All-count, count-All}
use cerius.Avl.Model.{to_list}
use cerius.Aslr.{aslr_entry, Chosen}
use cerius.Aslr.Random.{Answer, find_random_range-Answer}
use cerius.Space.Invariant.{IsSpace, times}
use cerius.Space.Alloc.{Allocated, alloc_subrange-Allocated}
use cerius.Space.Free.{Busy, Freed, free-Freed}
use cerius.Manager.{Memory, align_up, place_aslr, alloc_aslr, linear_free}
use cerius.Manager.Physical.{unlock_nested}

-- The address is rounded up to a multiple of the alignment, by less than the alignment.
pub align_up-next :
    (start align : ℕ)
    → 0 < align
    → start + align < 2 ^ 64
    → Returns (λ a. (a % align ≡ 0) × (start ≤ a) × (a < start + align)) (align_up start align)
unfolding align_up
align_up-next start align some' small =
    rw (≢→== align 0 (omega arith)) (elim (Bool-cases (start % align == 0)) [
      | inl even ↦ rw even (returns (==→≡ (start % align) 0 even, omega arith, omega arith))
      | inr odd ↦
          let less = mod-lt start some' in
          let parts = mod-add-div start align in
          let ne = ==→≢ (start % align) 0 odd in
          let up : add64 start (sub64 align (start % align)) ≡ align * (start / align + 1) + 0 =
            omega arith in
          rw (odd, up)
            (returns (
              mul-add-mod_self_left align (start / align + 1) 0 ∙ zero-mod align,
              omega arith,
              omega arith,
            ))
    ])

-- The two ways in which `allocAslr` ends: every free range is shorter than `length + align - 1`,
-- and the lock is left taken; or the block is aligned and has left the free addresses.
pub data LinearAnswer (m : Memory) (length align : ℕ) : Memory × ℕ → Type 0 where
  unavailable :
      {seed : ℕ}
      → ((q : RangePair) → 0 < times m.linear q → q.y + 1 < length + align)
      → LinearAnswer m length align (record m { seed = seed; lock_cnt = m.lock_cnt + 1 }, 0)
  placed :
      {m' : Memory} {start : ℕ}
      → start % align ≡ 0
      → Allocated m.linear (range_pair length start) m'.linear
      → m'.lock_cnt ≡ m.lock_cnt
      → m'.physical ≡ m.physical
      → LinearAnswer m length align (m', start)

module _ (settle : Memory → Result Memory) where
  place_aslr-LinearAnswer :
      (m : Memory) (length align seed : ℕ) (r : Option Chosen)
      → IsSpace m.linear
      → 0 < m.lock_cnt
      → 0 < length
      → 0 < align
      → length + align < 2 ^ 64
      → Answer (length + align - 1) (to_list m.linear.tree_length) r
      → Returns (LinearAnswer m length align) (place_aslr settle m length align (r, seed))
  unfolding place_aslr
  place_aslr-LinearAnswer m length align seed none i held some' one' small short = returns (
      unavailable λ q free.
        let h =
          All-count (λ p. p.x < length + align - 1) (swap q) (to_list m.linear.tree_length) short
            (omega (arith, i.mirrored q)) in
        omega arith)
  place_aslr-LinearAnswer m length align seed (some c) i held some' one' small (fits, among) =
      let free : 0 < times m.linear (swap c.super) = omega (
        arith,
        count-Has c.super (to_list m.linear.tree_length) fits.listed,
        i.mirrored (swap c.super),
      ) in
      let inside = i.proper (swap c.super) free in
      bind (align_up-next c.start align one' (omega (arith, fits.until))) λ start (even, lo, hi).
        let from : c.super.y ≤ start = omega (arith, fits.from) in
        let until : start + length ≤ c.super.y + c.super.x = omega (arith, fits.until) in
        rw
          (
            le→leb c.super.y start from,
            le→leb (add64 start length) (add64 c.super.y c.super.x) (omega arith),
          )
          (bind
            (alloc_subrange-Allocated m.linear (range_pair length start) (swap c.super) i free some'
              from until)
            λ linear a.
              rw
                (unlock_nested settle
                  (record m { linear = linear; seed = seed; lock_cnt = m.lock_cnt + 1 })
                  (omega arith))
                (returns (placed even a (omega arith) refl)))

  -- Where the lock is held, the free ranges are valid and have fewer than `2 ^ 63` bytes together,
  -- `allocAslr` of at least one byte and of a positive alignment, both in whole pages and together
  -- below `2 ^ 64`, fails no assertion. Either every free range has fewer than
  -- `length + align - 1` bytes, the result is 0 and the lock count stays one too high; or the result
  -- is a multiple of the alignment, exactly the block's addresses are no longer free, and the lock
  -- count is what it was.
  pub alloc_aslr-LinearAnswer :
      (m : Memory) (length align : ℕ)
      → IsSpace m.linear
      → sum_x (to_list m.linear.tree_length) < 2 ^ 63
      → 0 < m.lock_cnt
      → 0 < length
      → 0 < align
      → length % 4096 ≡ 0
      → align % 4096 ≡ 0
      → length + align < 2 ^ 64
      → Returns (LinearAnswer m length align) (alloc_aslr settle m length align)
  unfolding alloc_aslr
  alloc_aslr-LinearAnswer m length align i total held some' one' pages even small =
      let size : sub64 (add64 length align) 1 ≡ length + align - 2 + 1 = omega arith in
      let size' : length + align - 2 + 1 ≡ length + align - 1 = omega arith in
      rw (≡→== (length % 4096) 0 pages, ≡→== (align % 4096) 0 even, size)
        (bind
          (find_random_range-Answer m.linear.tree_length (length + align - 2) m.seed i.length_avl
            i.length_sorted
            (count-All (λ p. p.y + p.x ≤ 2 ^ 64) (to_list m.linear.tree_length)
              λ p free. omega (arith, i.mirrored (swap p), i.proper (swap p)))
            total)
          λ (r, seed) ans.
            place_aslr-LinearAnswer m length align seed r i held some' one' small (rw size' at ans))

  -- Where the lock is held and the free ranges are valid, `free` of at least one byte in whole
  -- pages, of a block that ends below 2 ^ 64 and of which no byte is free, fails no assertion;
  -- exactly the block has become free, and the lock count is what it was.
  pub linear_free-Freed :
      (m : Memory) (start length : ℕ)
      → IsSpace m.linear
      → 0 < m.lock_cnt
      → 0 < length
      → length % 4096 ≡ 0
      → start % 4096 ≡ 0
      → start + length < 2 ^ 64
      → Busy start length m.linear
      → Returns
          (λ m'.
            ((p : RangePair) × Freed start length m.linear m'.linear p)
            × (m'.lock_cnt ≡ m.lock_cnt)
            × (m'.physical ≡ m.physical))
          (linear_free settle m start length)
  unfolding linear_free
  linear_free-Freed m start length i held some' pages page fits busy =
      rw (≡→== (start % 4096) 0 page, ≡→== (length % 4096) 0 pages)
        (bind (free-Freed start length m.linear i some' fits busy) λ (space, p) f.
          rw
            (unlock_nested settle (record m { linear = space; lock_cnt = m.lock_cnt + 1 })
              (omega arith))
            (returns ((p, f), omega arith, refl)))
