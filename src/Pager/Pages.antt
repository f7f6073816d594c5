-- ===== src/Pager/Pages.antt =====
-- A round of the loop of `Pager::pagein` at height 0: the entry of a page.
use cerius.Base.{
  ℕ, zero, suc, ◌+◌, ◌*◌, ◌-◌, ◌/◌, ◌%◌, ◌^◌, ◌≤◌, ◌<◌, ◌≡◌, ◌≢◌, ◌⊎◌, inl, inr, ◌∙◌, sym, ap, refl,
  arith, some, List, All-imp, Result, Returns, returns, bit_or, add64, sub64, mul64, lt→ltb, le→leb,
  Bool-cases, subst, true, false, ◌==◌, ≡→==, ≢→==, ==→≡, ==→≢,
}
use cerius.Pager.{
  Nodes, Paging, is_present, is_large, set_node, set_entry, page_round, index, child_size,
}
use cerius.Pager.Blocks.{block, child_base}
use cerius.Pager.Entries.{IsPrefs, page_entry-present}
use cerius.Pager.Leaf.{leaf, leaf-same, one_table, unmapped_page, leaf_page, Place, IsTree, IsOnWay}
use cerius.Pager.Moved.{Invariant, Moved, Usable-Moved, Stepped, IsEmpty, IsKept}

-- The entry for the page of `p`
abbrev pub entry_of : (start_phy start_lin prefs p : ℕ) → ℕ
entry_of start_phy start_lin prefs p =
    bit_or (bit_or (start_phy + (p / 4096 * 4096 - start_lin)) 3) prefs

module _ {ℓ} {R : Type ℓ} (reserve_alloc : R → Result (R × ℕ))
    (settle : Paging R → Result (Paging R)) (start_phy start_lin length prefs : ℕ)
    (range : start_lin + length ≤ 2 ^ 48) (phy_range : start_phy + length ≤ 2 ^ 52)
    (aligned : start_lin % 4096 ≡ 0) (whole : length % 4096 ≡ 0) (pages : start_phy % 4096 ≡ 0)
    (is : IsPrefs prefs) (place : Place) (s : Paging R) (supply : List ℕ) (node q i base : ℕ)
    (inv : Invariant reserve_alloc start_lin (start_lin + length) place s supply)
    (at : place node ≡ some (0, q)) (begins : base ≡ q * child_size 1) (small : i < 512)
    (from : start_lin ≤ (512 * q + i) * 4096) (to : (512 * q + i) * 4096 < start_lin + length)
    (empty : IsEmpty reserve_alloc start_lin
      (start_lin + length)
      0
      (512 * q + i)
      (512 * q + i + 1)
      node
      s) where
  -- The table with the new entry
  changed : Nodes
  changed =
      set_node s.nodes node
        (set_entry (s.nodes node) i (entry_of start_phy start_lin prefs ((512 * q + i) * 4096)))

  changed-here :
      changed node
      ≡ set_entry (s.nodes node) i (entry_of start_phy start_lin prefs ((512 * q + i) * 4096))
  unfolding changed
  changed-here = rw (≡→== node node refl) refl

  changed-else : (a : ℕ) → a ≢ node → changed a ≡ s.nodes a
  unfolding changed
  changed-else a ne = rw (≢→== a node ne) refl

  changed-IsTree : IsTree place changed
  changed-IsTree = record {
    edge = λ a h r j on few present small'.
        let other : a ≢ node = λ e.
          absurd
            (omega (arith, (one_table place node (suc h) r 0 q (ap place (sym e) ∙ on) at).0)) in
        let same = changed-else a other in
        subst (λ t. place (t.lin j) ≡ some (h, 512 * r + j)) (sym same)
          (inv.tree.edge a h r j on few (subst (λ t. is_present (t.phy j) ≡ true) same present)
            (subst (λ t. is_large (t.phy j) ≡ false) same small'));
  }

  -- No kept address has the entry's index in this table.
  not_entry :
      (h p : ℕ)
      → h ≡ 0
      → block (suc h) p ≡ q
      → IsKept reserve_alloc start_lin (start_lin + length) 0 (512 * q + i) (512 * q + i + 1) p
      → index h p ≢ i
  unfolding block
  not_entry zero p zero' e out same = absurd (omega arith)
  not_entry (suc h) p zero' e out same = absurd (omega arith)

  changed-kept :
      (h a p : ℕ)
      → h ≤ 3
      → p < 2 ^ 48
      → IsKept reserve_alloc start_lin (start_lin + length) 0 (512 * q + i) (512 * q + i + 1) p
      → IsOnWay place h p a
      → leaf h changed a p ≡ leaf h s.nodes a p
  changed-kept h a p low small' out on = leaf-same place s.nodes inv.tree changed p same h low a on
    where
      same :
          (h a : ℕ)
          → h ≤ 3
          → IsOnWay place h p a
          → (((changed a).phy (index h p) ≡ (s.nodes a).phy (index h p))
              × ((changed a).lin (index h p) ≡ (s.nodes a).lin (index h p)))
            ⊎ (leaf h changed a p ≡ leaf h s.nodes a p)
      same h a low on = elim (Bool-cases (a == node)) [
        | inr other ↦ inl (rw (changed-else a (==→≢ a node other)) (refl, refl))
        | inl here ↦
            let e = ==→≡ a node here in
            let one = one_table place node h (block (suc h) p) 0 q (ap place (sym e) ∙ on) at in
            let off = not_entry h p one.0 one.1 out in
            inl (rw (e, changed-here, ≢→== (index h p) i off) (refl, refl))
      ]

  start_page :
      IsEmpty reserve_alloc start_lin (start_lin + length) 0 (512 * q + i) (512 * q + i + 1) node s
      → is_present ((s.nodes node).phy i) ≡ false
  unfolding block
  start_page e =
      let p : ℕ = (512 * q + i) * 4096 in
      let at_i : index 0 p ≡ i = omega arith in
      subst (λ j. is_present ((s.nodes node).phy j) ≡ false) at_i
        (unmapped_page s.nodes node p (e p (omega arith) from to (omega arith) (omega arith)))

  abbrev changed_state : Paging R
  changed_state = record s { nodes = changed }

  changed-Moved :
      Moved reserve_alloc start_lin
        (start_lin + length)
        0
        (512 * q + i)
        (512 * q + i + 1)
        0
        place
        s
        supply
        place
        changed_state
        supply
  changed-Moved = record {
    kept = changed-kept;
    extends = λ a x on. on;
    above = λ a h r higher on.
        changed-else a
          λ e. absurd (omega (arith, (one_table place node h r 0 q (ap place (sym e) ∙ on) at).0));
    root = refl;
    spent = omega arith;
  }

  changed-Filled :
      (p : ℕ)
      → p < 2 ^ 48
      → start_lin ≤ p
      → p < start_lin + length
      → 512 * q + i ≤ block 0 p
      → block 0 p < 512 * q + i + 1
      → leaf 0 changed node p ≡ some (0, entry_of start_phy start_lin prefs p)
  unfolding block
  changed-Filled p low above below lo hi =
      let at_i : index 0 p ≡ i = omega arith in
      let page : p / 4096 * 4096 ≡ (512 * q + i) * 4096 = omega arith in
      let again : (512 * q + i) * 4096 / 4096 * 4096 ≡ (512 * q + i) * 4096 = omega arith in
      let entry : (changed node).phy (index 0 p) ≡ entry_of start_phy start_lin prefs p =
        rw (changed-here, at_i, ≡→== i i refl, page, again) refl in
      let on : is_present ((changed node).phy (index 0 p)) ≡ true = rw entry (
        page_entry-present (start_phy + (p / 4096 * 4096 - start_lin)) prefs (omega arith)
          (omega arith) is) in
      leaf_page changed node p on ∙ ap (λ e. some (0, e)) entry

  -- The round ends, and maps the page of the entry.
  pub page_round-Stepped :
      Returns
        (Stepped reserve_alloc start_lin
          (start_lin + length)
          (entry_of start_phy start_lin prefs)
          0
          (512 * q + i)
          (512 * q + i + 1)
          0
          node
          place
          s
          supply)
        (page_round reserve_alloc settle start_phy start_lin length prefs node base i s)
  unfolding page_round changed
  page_round-Stepped =
      let cur : ℕ = (512 * q + i) * 4096 in
      let at_cur : add64 base (mul64 i (child_size 0)) ≡ cur =
        child_base 0 (omega arith) q i base begins small (omega arith) in
      let end : add64 start_lin length ≡ start_lin + length = omega arith in
      let again : cur / 4096 * 4096 ≡ cur = omega arith in
      let target : add64 start_phy (sub64 cur start_lin)
          ≡ start_phy + (cur / 4096 * 4096 - start_lin) =
        omega arith in
      rw
        (
          at_cur,
          end,
          lt→ltb cur (start_lin + length) to,
          le→leb start_lin cur from,
          start_page empty,
          target,
        )
        (returns (record {
          place' = place;
          supply' = supply;
          moved = changed-Moved;
          filled = changed-Filled;
          invariant = record {
            tree = changed-IsTree;
            root = inv.root;
            locked = inv.locked;
            gives = inv.gives;
            distinct = inv.distinct;
            usable =
                All-imp _ supply
                  (λ n u.
                    Usable-Moved reserve_alloc start_lin (start_lin + length) n inv.root
                      changed-Moved u.fresh u)
                  inv.usable;
          };
        }))
