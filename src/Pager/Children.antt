-- ===== src/Pager/Children.antt =====
-- A round of the loop of `Pager::pagein` above height 0, by what the recursion into the child does.
use cerius.Base.{
  ℕ, zero, suc, ◌+◌, ◌*◌, ◌-◌, ◌%◌, ◌^◌, ◌≤◌, ◌<◌, ◌≡◌, ◌⊎◌, inl, inr, ◌∙◌, sym, ap, refl, subst,
  arith, min, max, some, List, [], ◌∷◌, length, Result, Returns, bind, mono, lt→ltb, Bool-cases,
  true, false, add64, mul64,
}
use cerius.Pager.{Paging, is_present, is_large, index, child_size, table_round, pagein_table}
use cerius.Pager.Blocks.{block, block-suc, block_hit, block_room, block_first, child_base}
use cerius.Pager.Entries.{IsPrefs}
use cerius.Pager.Leaf.{leaf, unmapped_small, index_entry, leaf_entry, Place, IsOnWay}
use cerius.Pager.Moved.{Invariant, Moved-trans, Stepped, IsEmpty, IsKept-below}
use cerius.Pager.Pages.{entry_of}
use cerius.Pager.Tables.{add_table-Added}
use cerius.Pager.Steps.{sum_from, Stepped-cost}

-- An upper bound on the tables that `pagein` makes below the table of block `q`: one for each entry that
-- the range from `start` to `stop` touches, and those below it
unfoldable pub tables : (height start stop q : ℕ) → ℕ
tables zero start stop q = 0
tables (suc height) start stop q =
    sum_from
      (min 512 (block (suc height) (stop - 1) + 1 - 512 * q) - (block (suc height) start - 512 * q))
      (512 * q + (block (suc height) start - 512 * q)) (λ b. 1 + tables height start stop b)

-- What a caller asks for: whole pages, whose linear addresses have 48 bits and whose physical ones 52,
-- and preferences of `PagePrefs`
pub record IsRequest (start_phy start_lin length prefs : ℕ) : Type 0 where
  pub some_page : 0 < length
  pub range : start_lin + length ≤ 2 ^ 48
  pub phy_range : start_phy + length ≤ 2 ^ 52
  pub few : length < 2 ^ 42
  pub aligned : start_lin % 4096 ≡ 0
  pub whole : length % 4096 ≡ 0
  pub pages : start_phy % 4096 ≡ 0
  pub is_prefs : IsPrefs prefs

module _ {ℓ} {R : Type ℓ} (reserve_alloc : R → Result (R × ℕ))
    (settle : Paging R → Result (Paging R)) (start_phy start_lin length' prefs : ℕ)
    (req : IsRequest start_phy start_lin length' prefs) where
  abbrev pub stop : ℕ
  stop = start_lin + length'

  abbrev pub entry : ℕ → ℕ
  entry = entry_of start_phy start_lin prefs

  -- A table's part of the range, as the recursion needs it
  pub record IsPart (height node base q : ℕ) (place : Place) (s : Paging R) (supply : List ℕ)
      : Type ℓ where
    pub base_eq : base ≡ q * child_size (suc height)
    pub invariant : Invariant reserve_alloc start_lin stop place s supply
    pub at : place node ≡ some (height, q)
    pub from : block (suc height) start_lin ≤ q
    pub to : q ≤ block (suc height) (stop - 1)
    pub empty : IsEmpty reserve_alloc start_lin stop height (512 * q) (512 * q + 512) node s
    pub enough : tables height start_lin stop q ≤ length supply

  abbrev pub MapsTable : (height : ℕ) → Type ℓ
  MapsTable height =
      (node base q : ℕ) (place : Place) (s : Paging R) (supply : List ℕ)
      → IsPart height node base q place s supply
      → Returns
          (Stepped reserve_alloc start_lin stop entry height (512 * q) (512 * q + 512)
            (tables height start_lin stop q) node place s supply)
          (pagein_table reserve_alloc settle start_phy start_lin length' prefs height node base s)

  module _ (height : ℕ) (low : height < 3) (below : MapsTable height) (node q i base b : ℕ)
      (base_eq : base ≡ q * child_size (suc (suc height))) (at_b : b ≡ 512 * q + i) (few : i < 512)
      (from : block (suc height) start_lin ≤ b) (to : b ≤ block (suc height) (stop - 1)) where
    hit :
        (max start_lin (b * child_size (suc height)) < stop)
        × (block (suc height) (max start_lin (b * child_size (suc height))) ≡ b)
    hit =
        block_hit (suc height) (omega arith) start_lin stop b (omega (arith, req.some_page)) from to

    index_at : (p : ℕ) → block (suc height) p ≡ b → index (suc height) p ≡ i
    index_at p e = index_entry (suc height) (omega arith) q i b p at_b few e

    -- Which of the child's blocks hold an address is which entry it has above.
    child_block :
        (p : ℕ)
        → 512 * b ≤ block height p
        → block height p < 512 * b + 512
        → block (suc height) p ≡ b
    child_block p lo hi = omega (arith, block-suc height (omega arith) p)

    entry_small :
        (s : Paging R)
        → IsEmpty reserve_alloc start_lin stop (suc height) b (b + 1) node s
        → is_present ((s.nodes node).phy i) ≡ true
        → is_large ((s.nodes node).phy i) ≡ false
    entry_small s empty present =
        let p : ℕ = max start_lin (b * child_size (suc height)) in
        let at_i = index_at p hit.1 in
        let none' =
          empty p (omega (arith, hit.0, req.range)) (omega arith) hit.0 (omega (arith, hit.1))
            (omega (arith, hit.1)) in
        subst (λ j. is_large ((s.nodes node).phy j) ≡ false) at_i
          (unmapped_small s.nodes node p height (rw at_i present) none')

    -- The recursion into the child of an entry that is present
    enter-Stepped :
        (place : Place) (s : Paging R) (supply : List ℕ)
        → Invariant reserve_alloc start_lin stop place s supply
        → place node ≡ some (suc height, q)
        → IsEmpty reserve_alloc start_lin stop (suc height) b (b + 1) node s
        → is_present ((s.nodes node).phy i) ≡ true
        → tables height start_lin stop b ≤ length supply
        → Returns
            (Stepped reserve_alloc start_lin stop entry
              (suc height)
              b
              (b + 1)
              (tables height start_lin stop b)
              node
              place
              s
              supply)
            (pagein_table reserve_alloc settle start_phy start_lin length' prefs height
              ((s.nodes node).lin i)
              (b * child_size (suc height))
              s)
    enter-Stepped place s supply inv at empty present enough =
        let child : ℕ = (s.nodes node).lin i in
        let small = entry_small s empty present in
        let edge = inv.tree.edge node height q i at few present small in
        let part : IsPart height child (b * child_size (suc height)) b place s supply = record {
          base_eq = refl;
          invariant = inv;
          at = edge ∙ ap (λ b. some (height, b)) (sym at_b);
          from = from;
          to = to;
          empty = λ p low' above below' lo hi.
              let e = child_block p lo hi in
              sym (leaf_entry s.nodes node p height i (index_at p e) present small)
              ∙ empty p low' above below' (omega (arith, e)) (omega (arith, e));
          enough = enough;
        } in
        mono (below child (b * child_size (suc height)) b place s supply part) λ s' st.
          let same = st.moved.above node (suc height) q (omega arith) at in
          record {
            place' = st.place';
            supply' = st.supply';
            invariant = st.invariant;
            moved = record {
              kept = λ h a p few' low' out on.
                  st.moved.kept h a p few' low'
                    (IsKept-below reserve_alloc start_lin stop height low b p out) on;
              extends = st.moved.extends;
              above = λ a h r higher on. st.moved.above a h r (omega arith) on;
              root = st.moved.root;
              spent = st.moved.spent;
            };
            filled = λ p low' above below' lo hi.
                let e : block (suc height) p ≡ b = omega arith in
                leaf_entry s'.nodes node p height i (index_at p e) (rw same present) (rw same small)
                ∙ ap (λ t. leaf height s'.nodes (t.lin i) p) same
                ∙ st.filled p low' above below' (omega (arith, block-suc height (omega arith) p))
                    (omega (arith, block-suc height (omega arith) p));
          }

    -- A round of the loop above height 0
    pub table_round-Stepped :
        (place : Place) (s : Paging R) (supply : List ℕ)
        → Invariant reserve_alloc start_lin stop place s supply
        → place node ≡ some (suc height, q)
        → IsEmpty reserve_alloc start_lin stop (suc height) b (b + 1) node s
        → 1 + tables height start_lin stop b ≤ length supply
        → Returns
            (Stepped reserve_alloc start_lin stop entry
              (suc height)
              b
              (b + 1)
              (1 + tables height start_lin stop b)
              node
              place
              s
              supply)
            (table_round reserve_alloc settle start_phy start_lin length' prefs
              (suc height)
              (pagein_table reserve_alloc settle start_phy start_lin length' prefs height)
              node
              base
              i
              s)
    unfolding table_round
    table_round-Stepped place s [] inv at empty enough = absurd (omega arith)
    table_round-Stepped place s (child ∷ supply) inv at empty enough =
        let first : b * child_size (suc height) < stop =
          block_first (suc height) (omega arith) b stop (omega (arith, req.some_page)) to in
        let room : q < 2 ^ (36 - suc height * 9 - 9) =
          block_room (suc height) (omega arith) q i
            (rw (← at_b) (omega (arith, first, req.range))) in
        let cur : add64 base (mul64 i (child_size (suc height))) ≡ b * child_size (suc height) =
          rw at_b (child_base (suc height) (omega arith) q i base base_eq few room) in
        let end : add64 start_lin length' ≡ stop = omega (arith, req.range) in
        rw (cur, end, lt→ltb (b * child_size (suc height)) stop first)
          (elim (Bool-cases (is_present ((s.nodes node).phy i))) [
            | inl present ↦ rw present (
                mono (enter-Stepped place s (child ∷ supply) inv at empty present (omega arith))
                  λ s' st. Stepped-cost reserve_alloc settle start_lin stop entry (omega arith) st)
            | inr off ↦ rw off (
                bind
                  (add_table-Added reserve_alloc settle start_lin stop place s child supply height
                    node q i low few inv at off b)
                  λ s' a.
                    mono
                      (enter-Stepped a.place' s' a.supply' a.invariant (a.moved.extends node _ at)
                        (λ p low' above below' lo hi.
                          a.moved.kept (suc height) node p (omega arith) low' (inr (edges p lo hi))
                            (in_table_at place at p lo hi)
                          ∙ empty p low' above below' lo hi)
                        a.present (omega (arith, a.moved.spent)))
                      λ s'' st. record {
                        place' = st.place';
                        supply' = st.supply';
                        invariant = st.invariant;
                        moved =
                            Moved-trans reserve_alloc start_lin stop (omega arith) (omega arith)
                              a.moved st.moved;
                        filled = st.filled;
                      })
          ])
      where
        edges :
            (p : ℕ)
            → b ≤ block (suc height) p
            → block (suc height) p < b + 1
            → (block (suc height) p < b) ⊎ (b ≤ block (suc height) p)
        edges p lo hi = inr lo

        in_table_at :
            (place : Place)
            → place node ≡ some (suc height, q)
            → (p : ℕ) → b ≤ block (suc height) p
            → block (suc height) p < b + 1
            → IsOnWay place (suc height) p node
        in_table_at place at p lo hi =
            let up : q ≡ block (suc (suc height)) p =
              omega (arith, block-suc (suc height) (omega arith) p) in
            at ∙ ap (λ x. some (suc height, x)) up
