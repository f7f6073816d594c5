-- ===== src/Pager/Tables.antt =====
-- A new child table: the entry that `Pager::pagein` makes where there is none.
use cerius.Base.{
  ℕ, zero, suc, ◌+◌, ◌*◌, ◌-◌, ◌≤◌, ◌<◌, ◌≡◌, ◌≢◌, ◌⊎◌, inl, inr, ◌∙◌, sym, ap, refl, subst, arith,
  none, some, List, [], ◌∷◌, All, Result, ok, Returns, returns, bit_or, lt→ltb, Bool-cases, true,
  false, ◌==◌, ≡→==, ≢→==, ==→≡, ==→≢, if◌then◌else◌,
}
use cerius.Pager.{
  PageTreeNode, Nodes, Paging, lintophy, is_present, is_large, set_node, set_entry, set_child,
  clear_entries, add_table, unlock, index,
}
use cerius.Pager.Blocks.{block}
use cerius.Pager.Entries.{table_entry-present, table_entry-small}
use cerius.Pager.Leaf.{
  leaf, leaf-same, one_table, none≢some, leaf_missing, leaf_child, index_bound, Place, IsTree,
  IsOnWay,
}
use cerius.Pager.Moved.{Invariant, Moved, Usable, Usable-Moved}

clear_entries-before :
    (rounds i : ℕ) (t : PageTreeNode) (j : ℕ) → j < i → (clear_entries rounds i t).phy j ≡ t.phy j
unfolding clear_entries
clear_entries-before zero i t j h = refl
clear_entries-before (suc rounds) i t j h =
    clear_entries-before rounds (i + 1) (set_entry t i 0) j (omega arith)
    ∙ rw (≢→== j i (omega arith)) refl

clear_entries-none :
    (rounds i : ℕ) (t : PageTreeNode) (j : ℕ)
    → i ≤ j
    → j < i + rounds
    → (clear_entries rounds i t).phy j ≡ 0
unfolding clear_entries
clear_entries-none zero i t j from to = absurd (omega arith)
clear_entries-none (suc rounds) i t j from to = elim (Bool-cases (j == i)) [
  | inl here ↦
      clear_entries-before rounds (i + 1) (set_entry t i 0) j (omega (arith, ==→≡ j i here))
      ∙ rw here refl
  | inr else' ↦
      clear_entries-none rounds (i + 1) (set_entry t i 0) j (omega (arith, ==→≢ j i else'))
        (omega arith)
]

true≢false' : ¬ (true ≡ false)
true≢false' e = cc e

-- Where a caller holds the lock, `unlock` only counts down.
unlock_nested {ℓ} :
    {R : Type ℓ} (reserve_alloc : R → Result (R × ℕ)) (settle : Paging R → Result (Paging R))
    (s : Paging R) (left : ℕ)
    → 0 < left
    → s.lock_cnt ≡ left + 1
    → unlock reserve_alloc settle s ≡ ok (record s { lock_cnt = left })
unfolding unlock
unlock_nested reserve_alloc settle s left some' e =
    let back : s.lock_cnt - 1 ≡ left = omega arith in
    rw (lt→ltb 0 s.lock_cnt (omega arith), ≢→== s.lock_cnt 1 (omega arith), back) refl

module _ {ℓ} {R : Type ℓ} (reserve_alloc : R → Result (R × ℕ))
    (settle : Paging R → Result (Paging R)) (start end : ℕ) where
  -- What a new table leaves behind
  pub record Added (height lo node i : ℕ) (place : Place) (s : Paging R) (supply : List ℕ)
      (s' : Paging R) : Type ℓ where
    pub place' : Place
    pub supply' : List ℕ
    pub moved : Moved reserve_alloc start end height lo lo 1 place s supply place' s' supply'
    pub invariant : Invariant reserve_alloc start end place' s' supply'
    pub present : is_present ((s'.nodes node).phy i) ≡ true

  module _ (place : Place) (s : Paging R) (child : ℕ) (supply : List ℕ) (height node q i : ℕ)
      (low : height < 3) (small : i < 512)
      (inv : Invariant reserve_alloc start end place s (child ∷ supply))
      (at : place node ≡ some (suc height, q))
      (off : is_present ((s.nodes node).phy i) ≡ false) where
    abbrev frame : ℕ
    frame = inv.usable.0.frame

    abbrev entry : ℕ
    entry = bit_or frame 3

    linked : Nodes
    linked = set_node s.nodes node (set_entry (set_child (s.nodes node) i child) i entry)

    changed : Nodes
    changed = set_node linked child (clear_entries 512 0 (linked child))

    grown : Place
    grown a = if a == child then some (height, 512 * q + i) else place a

    child≢node : child ≢ node
    child≢node e = none≢some (sym inv.usable.0.fresh ∙ ap place e ∙ at)

    changed-child : (j : ℕ) → j < 512 → (changed child).phy j ≡ 0
    unfolding changed
    changed-child j h =
        rw (≡→== child child refl) (clear_entries-none 512 0 (linked child) j (omega arith) h)

    changed-node : changed node ≡ set_entry (set_child (s.nodes node) i child) i entry
    unfolding changed linked
    changed-node = rw (≢→== node child λ e. child≢node (sym e), ≡→== node node refl) refl

    changed-else : (a : ℕ) → a ≢ node → a ≢ child → changed a ≡ s.nodes a
    unfolding changed linked
    changed-else a ne nc = rw (≢→== a child nc, ≢→== a node ne) refl

    -- The entry leads to the child.
    entry-phy : (changed node).phy i ≡ entry
    entry-phy = rw (changed-node, ≡→== i i refl) refl

    entry-lin : (changed node).lin i ≡ child
    entry-lin = rw (changed-node, ≡→== i i refl) refl

    entry-present : is_present ((changed node).phy i) ≡ true
    entry-present = rw entry-phy (table_entry-present frame inv.usable.0.aligned)

    entry-small : is_large ((changed node).phy i) ≡ false
    entry-small = rw entry-phy (table_entry-small frame inv.usable.0.aligned)

    -- The other entries of the table are the old ones.
    other_entry :
        (j : ℕ)
        → j ≢ i
        → ((changed node).phy j ≡ (s.nodes node).phy j)
          × ((changed node).lin j ≡ (s.nodes node).lin j)
    other_entry j ne = rw (changed-node, ≢→== j i ne) (refl, refl)

    -- Through the new child, no address is mapped.
    through_child : (p : ℕ) → leaf height changed child p ≡ none
    through_child p =
        leaf_missing changed child p height
          (rw (changed-child (index height p) (index_bound height (omega arith) p)) refl)

    -- What the walk to `p` meets at a table, before and after
    abbrev IsSame : (p h a : ℕ) → Type 0
    IsSame p h a =
        (((changed a).phy (index h p) ≡ (s.nodes a).phy (index h p))
          × ((changed a).lin (index h p) ≡ (s.nodes a).lin (index h p)))
        ⊎ (leaf h changed a p ≡ leaf h s.nodes a p)

    at_entry :
        (p : ℕ)
        → index (suc height) p ≡ i
        → leaf (suc height) changed node p ≡ leaf (suc height) s.nodes node p
    at_entry p at_i =
        leaf_child changed node p height (rw at_i entry-present) (rw at_i entry-small)
        ∙ ap (λ c. leaf height changed c p) (ap ((changed node).lin) at_i ∙ entry-lin)
        ∙ through_child p
        ∙ sym (leaf_missing s.nodes node p (suc height) (rw at_i off))

    at_table : (p : ℕ) → IsSame p (suc height) node
    at_table p = elim (Bool-cases (index (suc height) p == i)) [
      | inl here ↦ inr (at_entry p (==→≡ (index (suc height) p) i here))
      | inr else' ↦ inl (other_entry (index (suc height) p) (==→≢ (index (suc height) p) i else'))
    ]

    on_way : (p h a : ℕ) → IsOnWay place h p a → IsSame p h a
    on_way p h a on = elim (Bool-cases (a == child)) [
      | inl new ↦
          absurd (none≢some (sym inv.usable.0.fresh ∙ ap place (sym (==→≡ a child new)) ∙ on))
      | inr old ↦ elim (Bool-cases (a == node)) [
        | inr else' ↦ inl (rw (changed-else a (==→≢ a node else') (==→≢ a child old)) (refl, refl))
        | inl here ↦
            let e = ==→≡ a node here in
            let one =
              one_table place node h (block (suc h) p) (suc height) q (ap place (sym e) ∙ on) at in
            rw (e, one.0) (at_table p)
      ]
    ]

    changed-kept :
        (h a p : ℕ) → h ≤ 3 → IsOnWay place h p a → leaf h changed a p ≡ leaf h s.nodes a p
    changed-kept h a p few on =
        leaf-same place s.nodes inv.tree changed p (λ h a few on. on_way p h a on) h few a on

    grown-extends : (a : ℕ) (x : ℕ × ℕ) → place a ≡ some x → grown a ≡ some x
    unfolding grown
    grown-extends a x on =
        let old : a ≢ child = λ e. none≢some (sym inv.usable.0.fresh ∙ ap place (sym e) ∙ on) in
        rw (≢→== a child old) on

    grown-child : grown child ≡ some (height, 512 * q + i)
    unfolding grown
    grown-child = rw (≡→== child child refl) refl

    grown-else : (a : ℕ) → a ≢ child → grown a ≡ place a
    unfolding grown
    grown-else a ne = rw (≢→== a child ne) refl

    -- Whatever table has the entry, it leads on by the tree's rule.
    edge_old :
        (a h r j : ℕ)
        → a ≢ child
        → grown a ≡ some (suc h, r)
        → j < 512
        → is_present ((changed a).phy j) ≡ true
        → is_large ((changed a).phy j) ≡ false
        → grown ((changed a).lin j) ≡ some (h, 512 * r + j)
    edge_old a h r j old on few present small' =
        let on' : place a ≡ some (suc h, r) = sym (grown-else a old) ∙ on in
        elim (Bool-cases (a == node)) [
          | inr else' ↦
              let same = changed-else a (==→≢ a node else') old in
              rw same (
                grown-extends _ _ (
                  inv.tree.edge a h r j on' few
                    (subst (λ t. is_present (t.phy j) ≡ true) same present)
                    (subst (λ t. is_large (t.phy j) ≡ false) same small')))
          | inl here ↦
              let e = ==→≡ a node here in
              let one = one_table place node (suc h) r (suc height) q (ap place (sym e) ∙ on') at in
              elim (Bool-cases (j == i)) [
                | inl this ↦
                    let up : h ≡ height = omega (arith, one.0) in
                    rw (e, ==→≡ j i this, entry-lin, up, one.1) grown-child
                | inr that ↦
                    let same = other_entry j (==→≢ j i that) in
                    rw (e, same.1)
                      (grown-extends _ _ (
                        inv.tree.edge node h r j (ap place (sym e) ∙ on') few
                          (subst (λ x. is_present x ≡ true) (ap (λ a. (changed a).phy j) e ∙ same.0)
                            present)
                          (subst (λ x. is_large x ≡ false) (ap (λ a. (changed a).phy j) e ∙ same.0)
                            small')))
              ]
        ]

    changed-IsTree : IsTree grown changed
    changed-IsTree = record {
      edge = λ a h r j on few present small'. elim (Bool-cases (a == child)) [
        | inr old ↦ edge_old a h r j (==→≢ a child old) on few present small'
        | inl new ↦
            let zero' : (changed a).phy j ≡ 0 = rw (==→≡ a child new) (changed-child j few) in
            absurd (true≢false' (sym present ∙ ap is_present zero'))
      ];
    }

    after : R → Paging R
    after r = record s { nodes = changed; reserve = r }

    changed-Moved :
        (lo : ℕ) (r : R)
        → Moved reserve_alloc start end
            (suc height)
            lo
            lo
            1
            place
            s
            (child ∷ supply)
            grown
            (after r)
            supply
    unfolding after
    changed-Moved lo r = record {
      kept = λ h a p few low' kept' on. changed-kept h a p few on;
      extends = grown-extends;
      above = λ a h r' higher on.
          changed-else a
            (λ e. absurd (
              omega
                (arith, (one_table place node h r' (suc height) q (ap place (sym e) ∙ on) at).0)))
            (λ e. none≢some (sym inv.usable.0.fresh ∙ ap place (sym e) ∙ on));
      root = refl;
      spent = omega arith;
    }

    Usable-rest :
        (r : R) (ns : List ℕ)
        → All (λ b. b ≢ child) ns
        → All (Usable reserve_alloc start end place s) ns
        → All (Usable reserve_alloc start end grown (after r)) ns
    Usable-rest r [] ne us = tt
    Usable-rest r (n ∷ ns) ne us = (
      Usable-Moved reserve_alloc start end n inv.root (changed-Moved 0 r)
          (grown-else n ne.0 ∙ us.0.fresh) us.0,
      Usable-rest r ns ne.1 us.1,
    )

    -- The new table has been given by the reserve, has the place of the entry's block, and changes no
    -- mapping.
    pub add_table-Added :
        (lo : ℕ)
        → Returns
            (Added (suc height) lo node i place s (child ∷ supply))
            (add_table reserve_alloc settle node i s)
    unfolding add_table lintophy changed linked after
    add_table-Added lo =
        let g = inv.gives in
        let u = inv.usable.0 in
        let locked =
          unlock_nested reserve_alloc settle
            (record s { nodes = changed; reserve = g.0; lock_cnt = s.lock_cnt + 1 }) s.lock_cnt
            inv.locked refl in
        rw (g.1, u.mapped, ≢→== u.frame 0 u.present, locked)
          (returns (record {
            place' = grown;
            supply' = supply;
            moved = changed-Moved lo g.0;
            present = entry-present;
            invariant = record {
              tree = changed-IsTree;
              root = grown-extends s.pml4 (3, 0) inv.root;
              locked = inv.locked;
              gives = g.2;
              distinct = inv.distinct.1;
              usable = Usable-rest g.0 supply inv.distinct.0 inv.usable.1;
            };
          }))
