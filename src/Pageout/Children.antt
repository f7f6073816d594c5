-- ===== src/Pageout/Children.antt =====
-- The round of the loop of `Pager::pageout` above height 0, by what the recursion into the child does.
use cerius.Base.{
  ℕ, suc, ◌+◌, ◌*◌, ◌-◌, ◌^◌, ◌≤◌, ◌<◌, ◌≡◌, inl, inr, ◌∙◌, sym, ap, refl, subst, arith, max, some,
  Bool, Bool-cases, true, false, Result, Returns, returns, bind, add64, mul64,
}
use cerius.Pager.{Paging, is_present, is_large, index, child_size}
use cerius.Pager.Blocks.{block, block-suc, block_hit, block_room, block_first, child_base}
use cerius.Pager.Leaf.{leaf, leaf_missing, leaf_entry, index_entry, index_bound, Place, IsTree}
use cerius.Pager.Moved.{IsKept-below}
use cerius.Pageout.{clear_entry, table_out_round, pageout_table}
use cerius.Pageout.Removal.{IsPaged, Removed, Left, IsRemoval, Removed-again}
use cerius.Pageout.Rounds.{IsRange, present_at_leaf, leaf_page-small, clear_entry-Removed}

module _ {ℓ} {R : Type ℓ} (reserve_alloc : R → Result (R × ℕ)) (reserve_free : R → ℕ → Result R)
    (settle trim : Paging R → Result (Paging R)) (start_lin length : ℕ)
    (req : IsRange start_lin length) (place : Place) where
  abbrev pub stop : ℕ
  stop = start_lin + length

  -- A table's part of the range, as the recursion needs it
  pub record IsPartOut (height node base q : ℕ) (s : Paging R) : Type ℓ where
    pub base_eq : base ≡ q * child_size (suc height)
    pub tree : IsTree place s.nodes
    pub locked : 0 < s.lock_cnt
    pub at : place node ≡ some (height, q)
    pub from : block (suc height) start_lin ≤ q
    pub to : q ≤ block (suc height) (stop - 1)
    pub paged : IsPaged reserve_alloc start_lin stop place height (512 * q) (512 * q + 512) node s

  abbrev pub UnmapsTable : (height : ℕ) → Type ℓ
  UnmapsTable height =
      (node base q : ℕ) (s : Paging R)
      → IsPartOut height node base q s
      → Returns (Left reserve_alloc start_lin stop place height (512 * q) (512 * q + 512) node s)
          (pageout_table reserve_alloc reserve_free settle trim start_lin length height node base s)

  module _ (height : ℕ) (low : height < 3) (below : UnmapsTable height) (node q base : ℕ)
      (at : place node ≡ some (suc height, q))
      (base_eq : base ≡ q * child_size (suc (suc height))) where
    -- The recursion into a child, as a step of the table
    entered-Removed :
        (i b : ℕ) (s s' : Paging R)
        → b ≡ 512 * q + i
        → i < 512
        → is_present ((s.nodes node).phy i) ≡ true
        → is_large ((s.nodes node).phy i) ≡ false
        → Removed reserve_alloc start_lin stop place height
            (512 * b)
            (512 * b + 512)
            ((s.nodes node).lin i)
            s
            s'
        → Removed reserve_alloc start_lin stop place (suc height) b (b + 1) node s s'
    entered-Removed i b s s' at_b few present small st =
        let same = st.above node (suc height) q (omega arith) at in
        record {
          tree = st.tree;
          kept = λ h a p lim low' out on.
              st.kept h a p lim low' (IsKept-below reserve_alloc start_lin stop height low b p out)
                on;
          above = λ a h r higher on. st.above a h r (omega arith) on;
          root = st.root;
          lock = st.lock;
          removed = λ p low' above below' lo hi.
              let e : block (suc height) p ≡ b = omega arith in
              leaf_entry s'.nodes node p height i
                (index_entry (suc height) (omega arith) q i b p at_b few e) (rw same present)
                (rw same small)
              ∙ ap (λ t. leaf height s'.nodes (t.lin i) p) same
              ∙ st.removed p low' above below' (omega (arith, block-suc height (omega arith) p))
                  (omega (arith, block-suc height (omega arith) p));
        }

    -- The same where the child has been given back, and its entry set to 0
    emptied-Removed :
        (i b : ℕ) (s : Paging R) (r : Paging R × Bool)
        → b ≡ 512 * q + i
        → i < 512
        → is_present ((s.nodes node).phy i) ≡ true
        → is_large ((s.nodes node).phy i) ≡ false
        → r.1 ≡ true
        → Left reserve_alloc start_lin stop place height
            (512 * b)
            (512 * b + 512)
            ((s.nodes node).lin i)
            s
            r
        → Removed reserve_alloc start_lin stop place
            (suc height)
            b
            (b + 1)
            node
            s
            (clear_entry node i r.0)
    emptied-Removed i b s r at_b few present small gone left =
        let same = left.steps.above node (suc height) q (omega arith) at in
        Removed-again reserve_alloc start_lin stop place
          (entered-Removed i b s r.0 at_b few present small left.steps)
          (clear_entry-Removed reserve_alloc reserve_free settle trim start_lin length req place
            (suc height) node q i b r.0 (omega arith) at few at_b left.steps.tree
            λ p low' out e.
              leaf_entry r.0.nodes node p height i
                (index_entry (suc height) (omega arith) q i b p at_b few e) (rw same present)
                (rw same small)
              ∙ ap (λ t. leaf height r.0.nodes (t.lin i) p) same
              ∙ leaf_missing r.0.nodes ((s.nodes node).lin i) p height
                  (left.empty gone (index height p) (index_bound height (omega arith) p)))

    -- A round above height 0, where no large page is in the range
    pub table_out_round-Removed :
        IsRemoval reserve_alloc start_lin stop place (suc height) node q (omega arith) at (
          table_out_round reserve_alloc reserve_free settle trim start_lin length
            (suc height)
            (pageout_table reserve_alloc reserve_free settle trim start_lin length height)
            node
            base)
    unfolding table_out_round
    table_out_round-Removed i b s at_b few tree locked from to paged =
        let p : ℕ = max start_lin (b * child_size (suc height)) in
        let hit =
          block_hit (suc height) (omega arith) start_lin stop b (omega (arith, req.some_page)) from
            to in
        let mapped =
          paged p (omega (arith, hit.0, req.range)) (omega arith) hit.0 (omega (arith, hit.1))
            (omega (arith, hit.1)) in
        let at_i = index_entry (suc height) (omega arith) q i b p at_b few hit.1 in
        let present : is_present ((s.nodes node).phy i) ≡ true =
          subst (λ j. is_present ((s.nodes node).phy j) ≡ true) at_i
            (present_at_leaf (suc height) s.nodes node p _ mapped.1) in
        let small : is_large ((s.nodes node).phy i) ≡ false =
          subst (λ j. is_large ((s.nodes node).phy j) ≡ false) at_i
            (leaf_page-small s.nodes node p height mapped.0 (rw at_i present) mapped.1) in
        let first : b * child_size (suc height) < stop =
          block_first (suc height) (omega arith) b stop (omega (arith, req.some_page)) to in
        let room : q < 2 ^ (36 - suc height * 9 - 9) =
          block_room (suc height) (omega arith) q i
            (rw (← at_b) (omega (arith, first, req.range))) in
        let cur : add64 base (mul64 i (child_size (suc height))) ≡ b * child_size (suc height) =
          rw at_b (child_base (suc height) (omega arith) q i base base_eq few room) in
        let part : IsPartOut height ((s.nodes node).lin i) (b * child_size (suc height)) b s =
          record {
            base_eq = refl;
            tree = tree;
            locked = locked;
            at =
                tree.edge node height q i at few present small
                ∙ ap (λ b. some (height, b)) (sym at_b);
            from = from;
            to = to;
            paged = λ p low' above below' lo hi.
                child_paged i b s at_b few present small paged p low' above below' lo hi;
          } in
        rw (cur, present, small)
          (bind (below ((s.nodes node).lin i) (b * child_size (suc height)) b s part) λ r left.
            elim (Bool-cases r.1) [
              | inl gone ↦
                  rw gone (returns (emptied-Removed i b s r at_b few present small gone left))
              | inr stays ↦
                  rw stays (returns (entered-Removed i b s r.0 at_b few present small left.steps))
            ])
      where
        child_paged :
            (i b : ℕ) (s : Paging R)
            → b ≡ 512 * q + i
            → i < 512
            → is_present ((s.nodes node).phy i) ≡ true
            → is_large ((s.nodes node).phy i) ≡ false
            → IsPaged reserve_alloc start_lin stop place (suc height) b (b + 1) node s
            → IsPaged reserve_alloc start_lin stop place height
                (512 * b)
                (512 * b + 512)
                ((s.nodes node).lin i)
                s
        child_paged i b s at_b few present small paged p low' above below' lo hi =
            let e : block (suc height) p ≡ b = omega (arith, block-suc height (omega arith) p) in
            let old = paged p low' above below' (omega (arith, e)) (omega (arith, e)) in
            (
              old.0,
              sym (
                    leaf_entry s.nodes node p height i
                      (index_entry (suc height) (omega arith) q i b p at_b few e) present small)
                  ∙ old.1,
            )
