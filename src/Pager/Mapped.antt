-- ===== src/Pager/Mapped.antt =====
-- `Pager::pagein` as a whole: what it maps, and what it leaves.
use cerius.Base.{
  ℕ, zero, suc, ◌+◌, ◌*◌, ◌-◌, ◌/◌, ◌%◌, ◌^◌, ◌≤◌, ◌<◌, ◌≡◌, ◌⊎◌, inl, ◌∙◌, sym, ap, refl, subst,
  arith, min, some, List, length, Result, ok, Returns, returns, bind, mono, ≡→==, add64,
}
use cerius.Pager.{
  Paging, child_size, index_start, index_end, for_indexes, page_round, table_round, check_range,
  pagein_table, pagein, lintophy, walk,
}
use cerius.Pager.Blocks.{block, base_aligned, base_aligned}
use cerius.Pager.Entries.{page_address-page_entry}
use cerius.Pager.Leaf.{leaf, walk-leaf, resolve, Place}
use cerius.Pager.Moved.{Invariant, Stepped, IsEmpty, IsOutside}
use cerius.Pager.Pages.{entry_of, page_round-Stepped}
use cerius.Pager.Steps.{sum_from, IsRound, for_indexes-Stepped, Stepped-all, Stepped-cost}
use cerius.Pager.Bounds.{part-HasBounds, in_bounds}
use cerius.Pager.Children.{tables, IsRequest, IsPart, MapsTable, table_round-Stepped}

sum_from-none : (rounds b : ℕ) → sum_from rounds b (λ b. 0) ≡ 0
unfolding sum_from
sum_from-none zero b = refl
sum_from-none (suc rounds) b = omega (arith, sum_from-none rounds (b + 1))

-- What `pagein` promises: the range is mapped to the physical range, byte by byte, no other address of 48
-- bits is mapped otherwise, and the page tables stay a tree, with the reserve that is left.
pub record IsMapped {ℓ} {R : Type ℓ} (reserve_alloc : R → Result (R × ℕ))
    (start_phy start_lin size cost : ℕ) (supply : List ℕ) (s s' : Paging R) : Type ℓ where
  pub target :
      (p : ℕ)
      → start_lin ≤ p
      → p < start_lin + size
      → lintophy s' p ≡ ok (start_phy + (p - start_lin))
  pub others :
      (p : ℕ) → p < 2 ^ 48 → (p < start_lin) ⊎ (start_lin + size ≤ p) → lintophy s' p ≡ lintophy s p
  -- by entries of height 0, as `pageout` needs them
  pub paged :
      (p : ℕ)
      → start_lin ≤ p
      → p < start_lin + size
      → (entry : ℕ) × (leaf 3 s'.nodes s'.pml4 p ≡ some (0, entry))
  pub place' : Place
  pub supply' : List ℕ
  pub invariant : Invariant reserve_alloc start_lin (start_lin + size) place' s' supply'
  pub spent : length supply ≤ length supply' + cost

module _ {ℓ} {R : Type ℓ} (reserve_alloc : R → Result (R × ℕ))
    (settle : Paging R → Result (Paging R)) (start_phy start_lin length' prefs : ℕ)
    (req : IsRequest start_phy start_lin length' prefs) where
  abbrev stop : ℕ
  stop = start_lin + length'

  abbrev entry : ℕ → ℕ
  entry = entry_of start_phy start_lin prefs

  -- A round of the loop at height 0
  page-Stepped :
      (node base q i b : ℕ) (place : Place) (s : Paging R) (supply : List ℕ)
      → base ≡ q * child_size 1
      → b ≡ 512 * q + i
      → i < 512
      → Invariant reserve_alloc start_lin stop place s supply
      → place node ≡ some (0, q)
      → block 0 start_lin ≤ b
      → b ≤ block 0 (stop - 1)
      → IsEmpty reserve_alloc start_lin stop 0 b (b + 1) node s
      → Returns
          (Stepped reserve_alloc start_lin stop entry 0 b (b + 1) 0 node place s supply)
          (page_round reserve_alloc settle start_phy start_lin length' prefs node base i s)
  unfolding block
  page-Stepped node base q i b place s supply base_eq at_b few inv at from to empty = rw at_b (
      page_round-Stepped reserve_alloc settle start_phy start_lin length' prefs req.range
        req.phy_range req.aligned req.whole req.pages req.is_prefs place s supply node q i base inv
        at base_eq few (omega (arith, req.aligned)) (omega (arith, req.some_page))
        (subst (λ b. IsEmpty reserve_alloc start_lin stop 0 b (b + 1) node s) at_b empty))

  check_range-ok :
      (height base q : ℕ)
      → height ≤ 3
      → base ≡ q * child_size (suc height)
      → check_range reserve_alloc settle start_phy start_lin length' prefs height base ≡ ok tt
  unfolding check_range
  check_range-ok height base q low e =
      rw
        (
          ≡→== (start_phy % 4096) 0 req.pages,
          ≡→== (start_lin % 4096) 0 req.aligned,
          ≡→== (length' % 4096) 0 req.whole,
          ≡→== (base % child_size height) 0 (base_aligned height low q base e),
        )
        refl

  loop-Stepped :
      (height : ℕ)
      → height ≤ 3
      → (node base q : ℕ) (place : Place) (s : Paging R) (supply : List ℕ) (cost : ℕ → ℕ)
        (body : ℕ → Paging R → Result (Paging R))
      → IsPart reserve_alloc settle start_phy start_lin length' prefs req height node base q place s
          supply
      → IsRound reserve_alloc settle start_lin stop entry height q node cost body
      → sum_from
          (min 512 (block height (stop - 1) + 1 - 512 * q) - (block height start_lin - 512 * q))
          (512 * q + (block height start_lin - 512 * q))
          cost
        ≤ length supply
      → Returns
          (Stepped reserve_alloc start_lin stop entry height
            (512 * q)
            (512 * q + 512)
            (sum_from
              (min 512 (block height (stop - 1) + 1 - 512 * q) - (block height start_lin - 512 * q))
              (512 * q + (block height start_lin - 512 * q))
              cost)
            node
            place
            s
            supply)
          (for_indexes
            (index_end height (add64 start_lin length') base - index_start height start_lin base)
            (index_start height start_lin base)
            body
            s)
  loop-Stepped height low node base q place s supply cost body part round enough =
      let h =
        part-HasBounds start_lin length' req.some_page req.range req.few height low base q
          part.base_eq part.from part.to in
      let i : ℕ = block height start_lin - 512 * q in
      let j : ℕ = min 512 (block height (stop - 1) + 1 - 512 * q) in
      rw (h.first, h.last)
        (mono
          (for_indexes-Stepped reserve_alloc settle start_lin stop entry height q node body cost low
            round (j - i) i (512 * q + i) (512 * q + j) place s supply refl (omega (arith, h))
            (omega (arith, h)) (omega (arith, h)) (omega (arith, h)) part.invariant part.at
            (λ p small above below lo hi.
              part.empty p small above below (omega (arith, h)) (omega (arith, h)))
            enough)
          λ s' step.
            Stepped-all reserve_alloc settle start_lin stop entry q low (omega (arith, h))
              (omega (arith, h))
              (λ p above below lo hi.
                in_bounds start_lin length' req.some_page req.range req.few height low base q p h
                  above below lo hi)
              step)

  -- The private `pagein` maps its part of the range, with the tables that `tables` allows for.
  pagein_table-Stepped :
      (height : ℕ)
      → height ≤ 3
      → MapsTable reserve_alloc settle start_phy start_lin length' prefs req height
  unfolding pagein_table tables
  pagein_table-Stepped zero low node base q place s supply part =
      let none' =
        sum_from-none (min 512 (block 0 (stop - 1) + 1 - 512 * q) - (block 0 start_lin - 512 * q))
          (512 * q + (block 0 start_lin - 512 * q)) in
      rw (check_range-ok zero base q low part.base_eq) (
        mono
          (loop-Stepped zero low node base q place s supply (λ b. 0)
            (page_round reserve_alloc settle start_phy start_lin length' prefs node base) part
            (λ i b place s supply at_b few inv at from to empty enough.
              page-Stepped node base q i b place s supply part.base_eq at_b few inv at from to
                empty)
            (omega (arith, none')))
          λ s' step.
            Stepped-cost reserve_alloc settle start_lin stop entry (omega (arith, none')) step)
  pagein_table-Stepped (suc height) low node base q place s supply part =
      rw (check_range-ok (suc height) base q low part.base_eq) (
        loop-Stepped (suc height) low node base q place s supply
          (λ b. 1 + tables height start_lin stop b)
          (table_round reserve_alloc settle start_phy start_lin length' prefs (suc height)
            (pagein_table reserve_alloc settle start_phy start_lin length' prefs height) node base)
          part
          (λ i b place s supply at_b few inv at from to empty enough.
            table_round-Stepped reserve_alloc settle start_phy start_lin length' prefs req height
              (omega arith) (pagein_table-Stepped height (omega arith)) node q i base b part.base_eq
              at_b few from to place s supply inv at empty enough)
          part.enough)

  -- By the entries of the range, its addresses are translated as they should.
  target_address :
      (place : Place) (s : Paging R) (supply : List ℕ) (s' : Paging R)
      → Stepped reserve_alloc start_lin stop entry 3 0 512
          (tables 3 start_lin stop 0)
          s.pml4
          place
          s
          supply
          s'
      → (p : ℕ) → start_lin ≤ p
      → p < stop
      → lintophy s' p ≡ ok (start_phy + (p - start_lin))
  unfolding lintophy block
  target_address place s supply s' step p above below =
      let page : ℕ = start_phy + (p / 4096 * 4096 - start_lin) in
      let at_page : page + p % 4096 ≡ start_phy + (p - start_lin) = omega (arith, req.aligned) in
      rw step.moved.root (
        walk-leaf 3 s'.nodes s.pml4 p
        ∙ ap (resolve p) (
            step.filled p (omega (arith, req.range)) above below (omega arith)
              (omega (arith, req.range)))
        ∙ page_address-page_entry page prefs (omega (arith, req.pages, req.aligned))
            (omega (arith, req.phy_range)) req.is_prefs p
        ∙ ap ok at_page)

  paged_page :
      (place : Place) (s : Paging R) (supply : List ℕ) (s' : Paging R)
      → Stepped reserve_alloc start_lin stop entry 3 0 512
          (tables 3 start_lin stop 0)
          s.pml4
          place
          s
          supply
          s'
      → (p : ℕ) → start_lin ≤ p
      → p < stop
      → (e : ℕ) × (leaf 3 s'.nodes s'.pml4 p ≡ some (0, e))
  unfolding block
  paged_page place s supply s' step p above below = (
    entry p,
    rw step.moved.root (
        step.filled p (omega (arith, req.range)) above below (omega arith)
          (omega (arith, req.range))),
  )

  other_address :
      (place : Place) (s : Paging R) (supply : List ℕ) (s' : Paging R)
      → Stepped reserve_alloc start_lin stop entry 3 0 512
          (tables 3 start_lin stop 0)
          s.pml4
          place
          s
          supply
          s'
      → place s.pml4 ≡ some (3, 0)
      → (p : ℕ) → p < 2 ^ 48
      → IsOutside reserve_alloc start_lin stop p
      → lintophy s' p ≡ lintophy s p
  unfolding lintophy block
  other_address place s supply s' step root p small out =
      let first : block 4 p ≡ 0 = omega arith in
      rw step.moved.root (
        walk-leaf 3 s'.nodes s.pml4 p
        ∙ ap (resolve p) (
            step.moved.kept 3 s.pml4 p (omega arith) small (inl out)
              (root ∙ ap (λ b. some (3, b)) (sym first)))
        ∙ sym (walk-leaf 3 s.nodes s.pml4 p))

  -- For a range of at least one and fewer than 2 ^ 30 whole pages, with linear addresses below 2 ^
  -- 48, physical ones below 2 ^ 52 and preferences of `PagePrefs`; page tables that are a tree and
  -- map none of the linear range; and a reserve that is locked and gives as many new tables as
  -- `tables` computes from the range, each at its own unused address outside of the range that is
  -- mapped to a physical page: `pagein` succeeds. Then `lintophy` translates every byte of the
  -- range to its byte of the physical range and all other addresses below 2 ^ 48 as before, the
  -- range is mapped by entries of height 0, as `pageout` needs it, the tables are a tree again,
  -- and the rest of the reserve is usable as before.
  pub pagein-IsMapped :
      (place : Place) (s : Paging R) (supply : List ℕ)
      → Invariant reserve_alloc start_lin stop place s supply
      → IsEmpty reserve_alloc start_lin stop 3 0 512 s.pml4 s
      → tables 3 start_lin stop 0 ≤ length supply
      → Returns
          (IsMapped reserve_alloc start_phy start_lin length' (tables 3 start_lin stop 0) supply s)
          (pagein reserve_alloc settle start_phy start_lin length' prefs s)
  unfolding pagein lintophy block
  pagein-IsMapped place s supply inv empty enough =
      let root_part : IsPart reserve_alloc settle start_phy start_lin length' prefs req 3 s.pml4 0 0
          place s supply =
        record {
          base_eq = refl;
          invariant = inv;
          at = inv.root;
          from = omega (arith, req.range, req.some_page);
          to = omega arith;
          empty = empty;
          enough = enough;
        } in
      let free : walk 3 s.nodes s.pml4 start_lin ≡ ok 0 =
        walk-leaf 3 s.nodes s.pml4 start_lin
        ∙ ap (resolve start_lin) (
            empty start_lin (omega (arith, req.range, req.some_page)) (omega arith)
              (omega (arith, req.some_page)) (omega arith)
              (omega (arith, req.range, req.some_page))) in
      rw
        (
          ≡→== (start_phy % 4096) 0 req.pages,
          ≡→== (start_lin % 4096) 0 req.aligned,
          ≡→== (length' % 4096) 0 req.whole,
          free,
        )
        (bind (pagein_table-Stepped 3 (omega arith) s.pml4 0 0 place s supply root_part) λ s' step.
          let first : walk 3 s'.nodes s'.pml4 start_lin ≡ ok start_phy =
            target_address place s supply s' step start_lin (omega arith)
              (omega (arith, req.some_page))
            ∙ ap ok (omega arith) in
          rw (first, ≡→== start_phy start_phy refl)
            (returns (record {
              target = λ p above below. target_address place s supply s' step p above below;
              others = λ p small out. other_address place s supply s' step inv.root p small out;
              paged = λ p above below. paged_page place s supply s' step p above below;
              place' = step.place';
              supply' = step.supply';
              invariant = step.invariant;
              spent = step.moved.spent;
            })))
