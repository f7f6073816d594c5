-- ===== src/PrimitiveHeap/Slots.antt =====
-- The slot that `PrimitiveHeap::alloc` takes, and the bitmap of a new chunk.
use cerius.Base.{
  ℕ, ◌+◌, ◌-◌, ◌*◌, ◌^◌, ◌≤◌, ◌<◌, ◌≡◌, refl, arith, Bool-cases, inl, inr, Returns, returns, bind,
  ◌==◌, ==→≡, ==→≢, List, [], ◌∷◌, ◌++◌, All, length, ap,
}
use cerius.Bitmap.Lowest.{lowest, binarylog-lowest}
use cerius.PrimitiveHeap.{take_bit}

-- The words before the one that is used are 0. Of that one, number `n`, the lowest set bit, `k`, is
-- cleared, and the index counts the bits of the words from number `first` on. Nothing else changes.
pub record Taken (first : ℕ) (bm : List ℕ) (index : ℕ) (bm' : List ℕ) : Type 0 where
  pub before : List ℕ
  pub word : ℕ
  pub behind : List ℕ
  pub k : ℕ
  pub old : bm ≡ before ++ (word ∷ behind)
  pub new : bm' ≡ before ++ ((word - 2 ^ k) ∷ behind)
  pub zeros : All (λ w. w ≡ 0) before
  pub bit : k < 64
  pub within : 2 ^ k ≤ word
  pub lowest_bit : (m : ℕ) × (word ≡ 2 ^ k * (2 * m + 1))
  pub position : index ≡ 64 * (first + length before) + k

-- Some word is not 0.
abbrev pub SomeFree : List ℕ → Type 0
SomeFree bm = ¬ All (λ w. w ≡ 0) bm

-- In words of 64 bits that are not all 0, the loop of `alloc` finds the lowest bit that is set,
-- clears it and no other, and fails no assertion.
pub take_bit-Taken :
    (first : ℕ) (bm : List ℕ)
    → All (λ w. w < 2 ^ 64) bm
    → SomeFree bm
    → Returns (λ (index, bm'). Taken first bm index bm') (take_bit first bm)
unfolding take_bit
take_bit-Taken first [] small free = absurd (free tt)
take_bit-Taken first (w ∷ ws) small free = elim (Bool-cases (w == 0)) [
  | inl empty ↦
      let is : w ≡ 0 = ==→≡ w 0 empty in
      rw empty (
        bind (take_bit-Taken (first + 1) ws small.1 (λ none'. free (is, none'))) λ (index, ws') t.
          returns (record {
            before = w ∷ t.before;
            word = t.word;
            behind = t.behind;
            k = t.k;
            old = ap (λ l. w ∷ l) t.old;
            new = ap (λ l. w ∷ l) t.new;
            zeros = (is, t.zeros);
            bit = t.bit;
            within = t.within;
            lowest_bit = t.lowest_bit;
            position = omega (arith, t.position);
          }))
  | inr full ↦
      let (low, power, log) = binarylog-lowest w (omega (arith, ==→≢ w 0 full)) small.0 in
      let k = lowest 64 w in
      rw (full, log, power)
        (returns (record {
          before = [];
          word = w;
          behind = ws;
          k = k;
          old = refl;
          new = ap (λ x. x ∷ ws) low.rest;
          zeros = tt;
          bit = low.below;
          within = low.within;
          lowest_bit = low.odd;
          position = omega arith;
        }))
]
