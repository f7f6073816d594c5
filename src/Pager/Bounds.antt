-- ===== src/Pager/Bounds.antt =====
-- The bounds of the loops of `Pager::pagein` and `Pager::pageout` over the entries of a table.
use cerius.Base.{ℕ, suc, ◌+◌, ◌*◌, ◌-◌, ◌^◌, ◌≤◌, ◌<◌, ◌≡◌, ◌∙◌, ap, arith, min, add64}
use cerius.Pager.{child_size, index_start, index_end}
use cerius.Pager.Blocks.{
  block, block-suc, block_mono, block_part, index_start-block, index_end-block,
}

-- For the table of block `q`, which has a part of the range
pub record HasBounds (start_lin length height base q : ℕ) : Type 0 where
  pub first : index_start height start_lin base ≡ block height start_lin - 512 * q
  pub last :
      index_end height (add64 start_lin length) base
      ≡ min 512 (block height (start_lin + length - 1) + 1 - 512 * q)
  pub ordered : block height start_lin ≤ block height (start_lin + length - 1)
  pub early : block height start_lin < 512 * q + 512
  pub late : 512 * q ≤ block height (start_lin + length - 1)

module _ (start_lin length : ℕ) (some_page : 0 < length) (range : start_lin + length ≤ 2 ^ 48)
    (few : length < 2 ^ 42) where
  pub part-HasBounds :
      (height : ℕ)
      → height ≤ 3
      → (base q : ℕ) → base ≡ q * child_size (suc height)
      → block (suc height) start_lin ≤ q
      → q ≤ block (suc height) (start_lin + length - 1)
      → HasBounds start_lin length height base q
  part-HasBounds height low base q base_eq from to =
      let stop : ℕ = start_lin + length in
      let near = block_part height low q start_lin stop base base_eq (omega arith) from to in
      let end : add64 start_lin length ≡ stop = omega arith in
      record {
        first =
            index_start-block height low q start_lin base base_eq (omega (arith, near)) near.0
              (omega (arith, near)) (omega arith);
        last =
            ap (λ e. index_end height e base) end
            ∙ index_end-block height low q stop base base_eq near.1 (omega (arith, near)) range;
        ordered = block_mono height low start_lin (stop - 1) (omega arith);
        early = omega (arith, block-suc height low start_lin);
        late = omega (arith, block-suc height low (stop - 1));
      }

  -- An address of the range and of the table is in a block between the bounds.
  pub in_bounds :
      (height : ℕ)
      → height ≤ 3
      → (base q p : ℕ) → HasBounds start_lin length height base q
      → start_lin ≤ p
      → p < start_lin + length
      → 512 * q ≤ block height p
      → block height p < 512 * q + 512
      → (512 * q + (block height start_lin - 512 * q) ≤ block height p)
        × (block height p < 512 * q + min 512 (block height (start_lin + length - 1) + 1 - 512 * q))
  in_bounds height low base q p h above below lo hi = (
    omega (arith, h, block_mono height low start_lin p above),
    omega (arith, h, block_mono height low p (start_lin + length - 1) (omega arith)),
  )
