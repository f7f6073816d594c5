-- ===== src/Pageout/Unmapped.antt =====
-- `Pager::pageout` as a whole: what it unmaps, and what it leaves.
use cerius.Base.{
  ℕ, zero, suc, ◌+◌, ◌*◌, ◌-◌, ◌/◌, ◌%◌, ◌^◌, ◌≤◌, ◌<◌, ◌≡◌, ◌⊎◌, inl, ◌∙◌, sym, ap, refl, arith,
  min, some, Result, ok, Returns, returns, bind, ◌>>=◌, ≡→==, add64, sub64,
}
use cerius.Pager.{Paging, index_start, index_end, child_size, for_indexes, walk, lintophy}
use cerius.Pager.Blocks.{block}
use cerius.Pager.Bounds.{part-HasBounds, in_bounds}
use cerius.Pager.Leaf.{walk-leaf, resolve, Place, IsTree}
use cerius.Pager.Moved.{IsOutside}
use cerius.Pageout.{finish, page_out_round, table_out_round, pageout_table, pageout}
use cerius.Pageout.Removal.{
  IsPaged, Removed, Left, IsRemoval, for_indexes-Removed, Removed-all, finish-Left,
}
use cerius.Pageout.Rounds.{IsRange, page_out_round-Removed}
use cerius.Pageout.Children.{IsPartOut, UnmapsTable, table_out_round-Removed}

-- What `pageout` promises: no address of the range is mapped any more, no other address of 48 bits is mapped
-- otherwise, and the page tables stay a tree.
pub record IsUnmapped {ℓ} {R : Type ℓ} (start_lin length : ℕ) (place : Place) (s s' : Paging R)
    : Type ℓ where
  pub target : (p : ℕ) → start_lin ≤ p → p < start_lin + length → lintophy s' p ≡ ok 0
  pub others :
      (p : ℕ)
      → p < 2 ^ 48
      → (p < start_lin) ⊎ (start_lin + length ≤ p)
      → lintophy s' p ≡ lintophy s p
  pub tree : IsTree place s'.nodes
  pub root : s'.pml4 ≡ s.pml4

module _ {ℓ} {R : Type ℓ} (reserve_alloc : R → Result (R × ℕ)) (reserve_free : R → ℕ → Result R)
    (settle trim : Paging R → Result (Paging R)) (start_lin length : ℕ)
    (req : IsRange start_lin length) (place : Place)
    (frees : (r : R) (node h q : ℕ)
      → place node ≡ some (h, q)
      → (r' : R) × (reserve_free r node ≡ ok r')) where
  abbrev stop : ℕ
  stop = start_lin + length

  -- A loop over the entries of a table, and what follows it
  loop-Left :
      (height : ℕ) (low : height ≤ 3) (node base q : ℕ) (s : Paging R)
      (body : ℕ → Paging R → Result (Paging R))
      (part : IsPartOut reserve_alloc reserve_free settle trim start_lin length req place height
        node base q s)
      → IsRemoval reserve_alloc start_lin stop place height node q low part.at body
      → Returns (Left reserve_alloc start_lin stop place height (512 * q) (512 * q + 512) node s) (
          for_indexes
            (index_end height (add64 start_lin length) base - index_start height start_lin base)
            (index_start height start_lin base)
            body
            s
          >>= λ s'. finish reserve_alloc reserve_free settle trim node s')
  loop-Left height low node base q s body part round =
      let h =
        part-HasBounds start_lin length req.some_page req.range req.few height low base q
          part.base_eq part.from part.to in
      let i : ℕ = block height start_lin - 512 * q in
      let j : ℕ = min 512 (block height (stop - 1) + 1 - 512 * q) in
      rw (h.first, h.last)
        (bind
          (for_indexes-Removed reserve_alloc start_lin stop place height node q low part.at body
            round (j - i) i (512 * q + i) (512 * q + j) s refl (omega (arith, h)) (omega (arith, h))
            (omega (arith, h)) (omega (arith, h)) part.tree part.locked
            (λ p small above below lo hi.
              part.paged p small above below (omega (arith, h)) (omega (arith, h))))
          λ s' step.
            finish-Left reserve_alloc start_lin stop place height node q low part.at reserve_free
              settle trim (λ r. frees r node height q part.at) (512 * q) (512 * q + 512) s s'
              (omega (arith, step.lock, part.locked))
              (Removed-all reserve_alloc start_lin stop place height node q low part.at
                (omega (arith, h)) (omega (arith, h))
                (λ p above below lo hi.
                  in_bounds start_lin length req.some_page req.range req.few height low base q p h
                    above below lo hi)
                step))

  -- The private `pageout` unmaps its part of the range.
  pageout_table-Left :
      (height : ℕ)
      → height ≤ 3
      → UnmapsTable reserve_alloc reserve_free settle trim start_lin length req place height
  unfolding pageout_table
  pageout_table-Left zero low node base q s part =
      let from : sub64 start_lin base % child_size zero % 2 ^ 32 ≡ 0 =
        omega (arith, req.aligned, part.base_eq, req.range) in
      let to : sub64 (add64 start_lin length) base % child_size zero % 2 ^ 32 ≡ 0 =
        omega (arith, req.aligned, req.whole, part.base_eq, req.range) in
      rw
        (
          ≡→== (sub64 start_lin base % child_size zero % 2 ^ 32) 0 from,
          ≡→== (sub64 (add64 start_lin length) base % child_size zero % 2 ^ 32) 0 to,
        )
        (loop-Left zero low node base q s
          (page_out_round reserve_alloc reserve_free settle trim start_lin length node base) part
          (page_out_round-Removed reserve_alloc reserve_free settle trim start_lin length req place
            node q base part.at part.base_eq))
  pageout_table-Left (suc height) low node base q s part =
      loop-Left (suc height) low node base q s
        (table_out_round reserve_alloc reserve_free settle trim start_lin length (suc height)
          (pageout_table reserve_alloc reserve_free settle trim start_lin length height) node base)
        part
        (table_out_round-Removed reserve_alloc reserve_free settle trim start_lin length req place
          height (omega arith) (pageout_table-Left height (omega arith)) node q base part.at
          part.base_eq)

  target_address :
      (s s' : Paging R)
      → Removed reserve_alloc start_lin stop place 3 0 512 s.pml4 s s'
      → (p : ℕ) → start_lin ≤ p
      → p < stop
      → walk 3 s'.nodes s'.pml4 p ≡ ok 0
  unfolding block
  target_address s s' step p above below = rw step.root (
      walk-leaf 3 s'.nodes s.pml4 p
      ∙ ap (resolve p) (
          step.removed p (omega (arith, req.range)) above below (omega arith)
            (omega (arith, req.range))))

  other_address :
      (s s' : Paging R)
      → Removed reserve_alloc start_lin stop place 3 0 512 s.pml4 s s'
      → place s.pml4 ≡ some (3, 0)
      → (p : ℕ) → p < 2 ^ 48
      → IsOutside reserve_alloc start_lin stop p
      → walk 3 s'.nodes s'.pml4 p ≡ walk 3 s.nodes s.pml4 p
  unfolding block
  other_address s s' step root p small out =
      let first : p / child_size 4 ≡ 0 = omega arith in
      rw step.root (
        walk-leaf 3 s'.nodes s.pml4 p
        ∙ ap (resolve p) (
            step.kept 3 s.pml4 p (omega arith) small (inl out)
              (root ∙ ap (λ b. some (3, b)) (sym first)))
        ∙ sym (walk-leaf 3 s.nodes s.pml4 p))

  -- For a range of at least one and fewer than 2 ^ 30 whole pages with addresses below 2 ^ 48;
  -- page tables that are a tree and map every address of the range by an entry of height 0, not by
  -- a large page; and a reserve that is locked and takes every table back: `pageout` succeeds.
  -- Then `lintophy` finds no address of the range any more and translates all other addresses
  -- below 2 ^ 48 as before, and the tables are a tree again.
  pub pageout-IsUnmapped :
      (s : Paging R)
      → IsTree place s.nodes
      → place s.pml4 ≡ some (3, 0)
      → 0 < s.lock_cnt
      → IsPaged reserve_alloc start_lin stop place 3 0 512 s.pml4 s
      → Returns
          (IsUnmapped start_lin length place s)
          (pageout reserve_alloc reserve_free settle trim start_lin length s)
  unfolding pageout lintophy block
  pageout-IsUnmapped s tree root locked paged =
      let part : IsPartOut reserve_alloc reserve_free settle trim start_lin length req place 3
          s.pml4 0 0 s =
        record {
          base_eq = refl;
          tree = tree;
          locked = locked;
          at = root;
          from = omega (arith, req.range, req.some_page);
          to = omega arith;
          paged = paged;
        } in
      rw (≡→== (start_lin % 4096) 0 req.aligned, ≡→== (length % 4096) 0 req.whole)
        (bind (pageout_table-Left 3 (omega arith) s.pml4 0 0 s part) λ r left.
          let first : walk 3 r.0.nodes r.0.pml4 start_lin ≡ ok 0 =
            target_address s r.0 left.steps start_lin (omega arith)
              (omega (arith, req.some_page)) in
          rw first (
            returns (record {
              target = target_address s r.0 left.steps;
              others = λ p small out. other_address s r.0 left.steps root p small out;
              tree = left.steps.tree;
              root = left.steps.root;
            })))
