-- ===== src/Pager/Blocks.antt =====
-- The blocks of the address space that the entries of a table cover, and the bounds of the loops. The
-- lemmas go by the four heights of a table, where the sizes are numbers.
use cerius.Base.{
  ℕ, zero, suc, ◌+◌, ◌-◌, ◌*◌, ◌/◌, ◌%◌, ◌^◌, ◌≤◌, ◌<◌, ◌≡◌, refl, arith, min, max, add64, sub64,
  mul64, inl, inr, ◌∙◌, lt-or-ge, le→leb, gt→leb,
}
use cerius.Pager.{child_size, index, index_from, index_start, index_end, divru}

-- The number of the block of this size that the address is in
unfoldable pub block : (height p : ℕ) → ℕ
block height p = p / child_size height

index_from_small : (x : ℕ) → x < 2 ^ 31 → index_from x ≡ x
index_from_small x h =
    let same : x % 2 ^ 32 ≡ x = omega arith in rw (same, gt→leb (2 ^ 31) x h) refl

index_from_negative : (x : ℕ) → 2 ^ 31 ≤ x % 2 ^ 32 → index_from x ≡ 0
index_from_negative x h = rw (le→leb (2 ^ 31) (x % 2 ^ 32) h) refl

-- An entry's index is the last digit of the number of its block.
pub index-block : (height : ℕ) → height ≤ 3 → (p : ℕ) → index height p ≡ block height p % 512
unfolding block
index-block zero low p = omega arith
index-block (suc zero) low p = omega arith
index-block (suc (suc zero)) low p = omega arith
index-block (suc (suc (suc zero))) low p = omega arith
index-block (suc (suc (suc (suc height)))) low p = absurd (omega arith)

-- A block lies in the block of the next height.
pub block-suc : (height : ℕ) → height ≤ 3 → (p : ℕ) → block (suc height) p ≡ block height p / 512
unfolding block
block-suc zero low p = omega arith
block-suc (suc zero) low p = omega arith
block-suc (suc (suc zero)) low p = omega arith
block-suc (suc (suc (suc zero))) low p = omega arith
block-suc (suc (suc (suc (suc height)))) low p = absurd (omega arith)

-- An address lies in its block.
pub block_bounds :
    (height : ℕ)
    → height ≤ 3
    → (p : ℕ)
    → (block height p * child_size height ≤ p)
      × (p < block height p * child_size height + child_size height)
unfolding block
block_bounds zero low p = (omega arith, omega arith)
block_bounds (suc zero) low p = (omega arith, omega arith)
block_bounds (suc (suc zero)) low p = (omega arith, omega arith)
block_bounds (suc (suc (suc zero))) low p = (omega arith, omega arith)
block_bounds (suc (suc (suc (suc height)))) low p = absurd (omega arith)

-- The block is unique.
pub block_at :
    (height : ℕ)
    → height ≤ 3
    → (b p : ℕ) → b * child_size height ≤ p
    → p < b * child_size height + child_size height
    → block height p ≡ b
unfolding block
block_at zero low b p lower upper = omega arith
block_at (suc zero) low b p lower upper = omega arith
block_at (suc (suc zero)) low b p lower upper = omega arith
block_at (suc (suc (suc zero))) low b p lower upper = omega arith
block_at (suc (suc (suc (suc height)))) low b p lower upper = absurd (omega arith)

-- Where the block of an entry begins.
pub child_base :
    (height : ℕ)
    → height ≤ 3
    → (q i base : ℕ) → base ≡ q * child_size (suc height)
    → i < 512
    → q < 2 ^ (36 - height * 9 - 9)
    → add64 base (mul64 i (child_size height)) ≡ (512 * q + i) * child_size height
unfolding block
child_base zero low q i base e small fits = omega arith
child_base (suc zero) low q i base e small fits = omega arith
child_base (suc (suc zero)) low q i base e small fits = omega arith
child_base (suc (suc (suc zero))) low q i base e small fits = omega arith
child_base (suc (suc (suc (suc height)))) low q i base e small fits = absurd (omega arith)

-- It begins where a block of the table's entries begins.
pub base_aligned :
    (height : ℕ)
    → height ≤ 3
    → (q base : ℕ) → base ≡ q * child_size (suc height)
    → base % child_size height ≡ 0
base_aligned zero low q base e = omega arith
base_aligned (suc zero) low q base e = omega arith
base_aligned (suc (suc zero)) low q base e = omega arith
base_aligned (suc (suc (suc zero))) low q base e = omega arith
base_aligned (suc (suc (suc (suc height)))) low q base e = absurd (omega arith)

-- Where the loop over the entries begins.
pub index_start-block :
    (height : ℕ)
    → height ≤ 3
    → (q start base : ℕ) → base ≡ q * child_size (suc height)
    → base < start + 2 ^ 42
    → start < base + child_size (suc height)
    → base < 2 ^ 48
    → start < 2 ^ 48
    → index_start height start base ≡ block height start - 512 * q
unfolding block
index_start-block zero low q start base e near below lim lim' =
    let far = sub64 start base / child_size 0 in
    elim (lt-or-ge start base) [
      | inl before ↦ index_from_negative far (omega arith) ∙ omega arith
      | inr after ↦ index_from_small far (omega arith) ∙ omega arith
    ]
index_start-block (suc zero) low q start base e near below lim lim' =
    let far = sub64 start base / child_size 1 in
    elim (lt-or-ge start base) [
      | inl before ↦ index_from_negative far (omega arith) ∙ omega arith
      | inr after ↦ index_from_small far (omega arith) ∙ omega arith
    ]
index_start-block (suc (suc zero)) low q start base e near below lim lim' =
    let far = sub64 start base / child_size 2 in
    elim (lt-or-ge start base) [
      | inl before ↦ index_from_negative far (omega arith) ∙ omega arith
      | inr after ↦ index_from_small far (omega arith) ∙ omega arith
    ]
index_start-block (suc (suc (suc zero))) low q start base e near below lim lim' =
    let far = sub64 start base / child_size 3 in
    elim (lt-or-ge start base) [
      | inl before ↦ index_from_negative far (omega arith) ∙ omega arith
      | inr after ↦ index_from_small far (omega arith) ∙ omega arith
    ]
index_start-block (suc (suc (suc (suc height)))) low q start base e near below lim lim' =
    absurd (omega arith)

-- Where it ends.
pub index_end-block :
    (height : ℕ)
    → height ≤ 3
    → (q end base : ℕ) → base ≡ q * child_size (suc height)
    → base < end
    → end < base + child_size (suc height) + 2 ^ 42
    → end ≤ 2 ^ 48
    → index_end height end base ≡ min 512 (block height (end - 1) + 1 - 512 * q)
unfolding block
index_end-block zero low q end base e near below lim =
    let far = divru (sub64 end base) (child_size 0) in
    omega (arith, index_from_small far (omega arith))
index_end-block (suc zero) low q end base e near below lim =
    let far = divru (sub64 end base) (child_size 1) in
    omega (arith, index_from_small far (omega arith))
index_end-block (suc (suc zero)) low q end base e near below lim =
    let far = divru (sub64 end base) (child_size 2) in
    omega (arith, index_from_small far (omega arith))
index_end-block (suc (suc (suc zero))) low q end base e near below lim =
    let far = divru (sub64 end base) (child_size 3) in
    omega (arith, index_from_small far (omega arith))
index_end-block (suc (suc (suc (suc height)))) low q end base e near below lim =
    absurd (omega arith)

-- Blocks stand in the order of their addresses.
pub block_mono : (height : ℕ) → height ≤ 3 → (p p' : ℕ) → p ≤ p' → block height p ≤ block height p'
unfolding block
block_mono zero low p p' le = omega arith
block_mono (suc zero) low p p' le = omega arith
block_mono (suc (suc zero)) low p p' le = omega arith
block_mono (suc (suc (suc zero))) low p p' le = omega arith
block_mono (suc (suc (suc (suc height)))) low p p' le = absurd (omega arith)

-- A block between those of the ends of a range has an address of the range.
pub block_hit :
    (height : ℕ)
    → height ≤ 3
    → (start stop b : ℕ) → start < stop
    → block height start ≤ b
    → b ≤ block height (stop - 1)
    → (max start (b * child_size height) < stop)
      × (block height (max start (b * child_size height)) ≡ b)
unfolding block
block_hit zero low start stop b some' from to = (omega arith, omega arith)
block_hit (suc zero) low start stop b some' from to = (omega arith, omega arith)
block_hit (suc (suc zero)) low start stop b some' from to = (omega arith, omega arith)
block_hit (suc (suc (suc zero))) low start stop b some' from to = (omega arith, omega arith)
block_hit (suc (suc (suc (suc height)))) low start stop b some' from to = absurd (omega arith)

-- An address of 48 bits has tables of few blocks.
pub block_room :
    (height : ℕ)
    → height ≤ 3
    → (q i : ℕ) → (512 * q + i) * child_size height < 2 ^ 48
    → q < 2 ^ (36 - height * 9 - 9)
unfolding block
block_room zero low q i h = omega arith
block_room (suc zero) low q i h = omega arith
block_room (suc (suc zero)) low q i h = omega arith
block_room (suc (suc (suc zero))) low q i h = omega arith
block_room (suc (suc (suc (suc height)))) low q i h = absurd (omega arith)

-- A table whose block has a part of the range begins before the range's end.
pub block_part :
    (height : ℕ)
    → height ≤ 3
    → (q start stop base : ℕ) → base ≡ q * child_size (suc height)
    → start < stop
    → block (suc height) start ≤ q
    → q ≤ block (suc height) (stop - 1)
    → (start < base + child_size (suc height)) × (base < stop)
unfolding block
block_part zero low q start stop base e some' from to = (omega arith, omega arith)
block_part (suc zero) low q start stop base e some' from to = (omega arith, omega arith)
block_part (suc (suc zero)) low q start stop base e some' from to = (omega arith, omega arith)
block_part (suc (suc (suc zero))) low q start stop base e some' from to = (omega arith, omega arith)
block_part (suc (suc (suc (suc height)))) low q start stop base e some' from to =
    absurd (omega arith)

-- So does a block.
pub block_first :
    (height : ℕ)
    → height ≤ 3
    → (b stop : ℕ) → 0 < stop
    → b ≤ block height (stop - 1)
    → b * child_size height < stop
unfolding block
block_first zero low b stop some' to = omega arith
block_first (suc zero) low b stop some' to = omega arith
block_first (suc (suc zero)) low b stop some' to = omega arith
block_first (suc (suc (suc zero))) low b stop some' to = omega arith
block_first (suc (suc (suc (suc height)))) low b stop some' to = absurd (omega arith)
