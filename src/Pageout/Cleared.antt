-- ===== src/Pageout/Cleared.antt =====
-- An entry that `Pager::pageout` sets to 0.
use cerius.Base.{
  ℕ, zero, suc, ◌+◌, ◌*◌, ◌≤◌, ◌<◌, ◌≡◌, ◌≢◌, ◌⊎◌, inl, inr, ◌∙◌, sym, ap, refl, subst, arith, none,
  some, Bool-cases, true, false, ◌||◌, ◌==◌, ≡→==, ≢→==, ==→≡, ==→≢,
}
use cerius.Pager.{PageTreeNode, Nodes, is_present, is_large, index, set_node, set_entry}
use cerius.Pager.Blocks.{block, index-block, block-suc}
use cerius.Pager.Leaf.{leaf, leaf-same, one_table, leaf_missing, Place, IsTree, IsOnWay}
use cerius.Pageout.{any_present}

true≢false' : ¬ (true ≡ false)
true≢false' e = cc e

module _ (place : Place) (nodes : Nodes) (tree : IsTree place nodes) (height node q i b : ℕ)
    (low : height ≤ 3) (at : place node ≡ some (height, q)) (few : i < 512)
    (at_b : b ≡ 512 * q + i) where
  unfoldable pub cleared : Nodes
  cleared = set_node nodes node (set_entry (nodes node) i 0)

  cleared-here : cleared node ≡ set_entry (nodes node) i 0
  unfolding cleared
  cleared-here = rw (≡→== node node refl) refl

  pub cleared-else : (a : ℕ) → a ≢ node → cleared a ≡ nodes a
  unfolding cleared
  cleared-else a ne = rw (≢→== a node ne) refl

  cleared-entry : is_present ((cleared node).phy i) ≡ false
  cleared-entry = rw (cleared-here, ≡→== i i refl) refl

  other_entry :
      (j : ℕ)
      → j ≢ i
      → ((cleared node).phy j ≡ (nodes node).phy j) × ((cleared node).lin j ≡ (nodes node).lin j)
  other_entry j ne = rw (cleared-here, ≢→== j i ne) (refl, refl)

  edge_node :
      (h r j : ℕ)
      → place node ≡ some (suc h, r)
      → j < 512
      → is_present ((cleared node).phy j) ≡ true
      → is_large ((cleared node).phy j) ≡ false
      → place ((cleared node).lin j) ≡ some (h, 512 * r + j)
  edge_node h r j on lim present small = elim (Bool-cases (j == i)) [
    | inl this ↦ absurd (
        true≢false' (
          sym present
          ∙ ap (λ j. is_present ((cleared node).phy j)) (==→≡ j i this)
          ∙ cleared-entry))
    | inr that ↦
        let same = other_entry j (==→≢ j i that) in
        rw same.1 (
          tree.edge node h r j on lim (subst (λ e. is_present e ≡ true) same.0 present)
            (subst (λ e. is_large e ≡ false) same.0 small))
  ]

  pub cleared-IsTree : IsTree place cleared
  cleared-IsTree = record {
    edge = λ a h r j on lim present small. elim (Bool-cases (a == node)) [
      | inl here ↦
          let e = ==→≡ a node here in
          subst (λ a. place ((cleared a).lin j) ≡ some (h, 512 * r + j)) (sym e)
            (edge_node h r j (ap place (sym e) ∙ on) lim
              (subst (λ a. is_present ((cleared a).phy j) ≡ true) e present)
              (subst (λ a. is_large ((cleared a).phy j) ≡ false) e small))
      | inr else' ↦
          let same = cleared-else a (==→≢ a node else') in
          rw same (
            tree.edge a h r j on lim (subst (λ t. is_present (t.phy j) ≡ true) same present)
              (subst (λ t. is_large (t.phy j) ≡ false) same small))
    ];
  }

  -- The block of the entry is not mapped by the table any more.
  pub cleared-none : (p : ℕ) → block height p ≡ b → leaf height cleared node p ≡ none
  cleared-none p e =
      let at_i : index height p ≡ i = omega (arith, index-block height low p) in
      leaf_missing cleared node p height (rw at_i cleared-entry)

  -- An address of another block, or one that was not mapped before, is mapped as before.
  pub cleared-kept :
      (p : ℕ)
      → (block height p ≢ b) ⊎ (leaf height nodes node p ≡ none)
      → (h a : ℕ) → h ≤ 3
      → IsOnWay place h p a
      → leaf h cleared a p ≡ leaf h nodes a p
  cleared-kept p out h a lim on =
      leaf-same place nodes tree cleared p (λ h a lim on. same h a on) h lim a on
    where
      at_node :
          block (suc height) p ≡ q
          → (((cleared node).phy (index height p) ≡ (nodes node).phy (index height p))
              × ((cleared node).lin (index height p) ≡ (nodes node).lin (index height p)))
            ⊎ (leaf height cleared node p ≡ leaf height nodes node p)
      at_node up = elim (Bool-cases (index height p == i)) [
        | inr else' ↦ inl (other_entry (index height p) (==→≢ (index height p) i else'))
        | inl this ↦
            let e = ==→≡ (index height p) i this in
            let here : block height p ≡ b =
              omega (arith, index-block height low p, block-suc height low p) in
            elim out [
              | inl apart ↦ absurd (apart here)
              | inr none' ↦ inr (cleared-none p here ∙ sym none')
            ]
      ]

      same :
          (h a : ℕ)
          → IsOnWay place h p a
          → (((cleared a).phy (index h p) ≡ (nodes a).phy (index h p))
              × ((cleared a).lin (index h p) ≡ (nodes a).lin (index h p)))
            ⊎ (leaf h cleared a p ≡ leaf h nodes a p)
      same h a on = elim (Bool-cases (a == node)) [
        | inr else' ↦ inl (rw (cleared-else a (==→≢ a node else')) (refl, refl))
        | inl here ↦
            let e = ==→≡ a node here in
            let one =
              one_table place node h (block (suc h) p) height q (ap place (sym e) ∙ on) at in
            rw (e, one.0) (at_node (ap (λ h. block (suc h) p) (sym one.0) ∙ one.1))
      ]

-- Where no entry is found present, none is.
pub any_present-none :
    (rounds i : ℕ) (t : PageTreeNode)
    → any_present rounds i t ≡ false
    → (j : ℕ) → i ≤ j
    → j < i + rounds
    → is_present (t.phy j) ≡ false
unfolding any_present
any_present-none zero i t h j from to = absurd (omega arith)
any_present-none (suc rounds) i t h j from to = elim (Bool-cases (is_present (t.phy i))) [
  | inl on ↦ absurd (true≢false' (sym (rw on refl) ∙ h))
  | inr off ↦ elim (Bool-cases (j == i)) [
    | inl this ↦ rw (==→≡ j i this) off
    | inr that ↦
        any_present-none rounds (i + 1) t
          (subst (λ x. (x || any_present rounds (i + 1) t) ≡ false) off h) j
          (omega (arith, ==→≢ j i that)) (omega arith)
  ]
]
