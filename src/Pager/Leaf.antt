-- ===== src/Pager/Leaf.antt =====
-- The entry that maps an address, and what a change of the tables leaves of it.
use cerius.Base.{
  ℕ, zero, suc, ◌+◌, ◌*◌, ◌≤◌, ◌<◌, ◌≡◌, ◌⊎◌, inl, inr, ◌∙◌, sym, ap, refl, arith, true, false,
  Bool-cases, Option, none, some, if◌then◌else◌, Result, ok,
}
use cerius.Pager.{Nodes, is_present, is_large, index, page_address, walk}
use cerius.Pager.Blocks.{block, index-block, block-suc}

-- The height and the entry at which the walk from a table of this height ends
unfoldable pub leaf : (height : ℕ) → Nodes → (node p : ℕ) → Option (ℕ × ℕ)
leaf zero nodes node p =
    let entry = (nodes node).phy (index zero p) in
    if is_present entry then some (zero, entry) else none
leaf (suc height) nodes node p =
    let entry = (nodes node).phy (index (suc height) p) in
    let below = leaf height nodes ((nodes node).lin (index (suc height) p)) p in
    if is_present entry then (if is_large entry then some (suc height, entry) else below) else none

abbrev pub resolve : (p : ℕ) → Option (ℕ × ℕ) → Result ℕ
resolve p none = ok 0
resolve p (some e) = page_address e.0 e.1 p

pub walk-leaf :
    (height : ℕ) (nodes : Nodes) (node p : ℕ)
    → walk height nodes node p ≡ resolve p (leaf height nodes node p)
unfolding walk leaf
walk-leaf zero nodes node p = elim (Bool-cases (is_present ((nodes node).phy (index zero p)))) [
  | inl on ↦ rw on refl
  | inr off ↦ rw off refl
]
walk-leaf (suc height) nodes node p =
    let entry : ℕ = (nodes node).phy (index (suc height) p) in
    elim (Bool-cases (is_present entry)) [
      | inr off ↦ rw off refl
      | inl on ↦ elim (Bool-cases (is_large entry)) [
        | inl large ↦ rw (on, large) refl
        | inr small ↦
            rw (on, small) (walk-leaf height nodes ((nodes node).lin (index (suc height) p)) p)
      ]
    ]

-- Which table stands at an address: its height, and the number of the block that it covers
abbrev pub Place : Type 0
Place = ℕ → Option (ℕ × ℕ)

-- Every entry that leads to a child leads to the table of the entry's block.
pub record IsTree (place : Place) (nodes : Nodes) : Type 0 where
  pub edge :
      (node height q i : ℕ)
      → place node ≡ some (suc height, q)
      → i < 512
      → is_present ((nodes node).phy i) ≡ true
      → is_large ((nodes node).phy i) ≡ false
      → place ((nodes node).lin i) ≡ some (height, 512 * q + i)

-- A table on the way to `p`
abbrev pub IsOnWay : Place → (height p node : ℕ) → Type 0
IsOnWay place height p node = place node ≡ some (height, block (suc height) p)

pub index_bound : (height : ℕ) → height ≤ 3 → (p : ℕ) → index height p < 512
index_bound height low p = omega (arith, index-block height low p)

-- A block by its entry in the table above
pub block_split :
    (height : ℕ)
    → height ≤ 3
    → (p : ℕ) → block height p ≡ 512 * block (suc height) p + index height p
block_split height low p = omega (arith, index-block height low p, block-suc height low p)

module _ (place : Place) (nodes : Nodes) (tree : IsTree place nodes) where
  -- The child of an entry on the way is on the way.
  pub child-IsOnWay :
      (height : ℕ)
      → height < 3
      → (node p : ℕ) → IsOnWay place (suc height) p node
      → is_present ((nodes node).phy (index (suc height) p)) ≡ true
      → is_large ((nodes node).phy (index (suc height) p)) ≡ false
      → IsOnWay place height p ((nodes node).lin (index (suc height) p))
  child-IsOnWay height low node p on present small =
      let way =
        tree.edge node height (block (suc (suc height)) p) (index (suc height) p) on
          (index_bound (suc height) (omega arith) p) present small in
      way ∙ ap (λ b. some (height, b)) (sym (block_split (suc height) (omega arith) p))

  -- Where every table on the way keeps the entry for `p`, or at least what it leads to, the leaf stays.
  pub leaf-same :
      (changed : Nodes) (p : ℕ)
      → ((height node : ℕ)
          → height ≤ 3
          → IsOnWay place height p node
          → (((changed node).phy (index height p) ≡ (nodes node).phy (index height p))
              × ((changed node).lin (index height p) ≡ (nodes node).lin (index height p)))
            ⊎ (leaf height changed node p ≡ leaf height nodes node p))
      → (height : ℕ) → height ≤ 3
      → (node : ℕ) → IsOnWay place height p node
      → leaf height changed node p ≡ leaf height nodes node p
  unfolding leaf
  leaf-same changed p same zero low node on = elim (same zero node low on) [
    | inl s ↦ rw s.0 refl
    | inr s ↦ s
  ]
  leaf-same changed p same (suc height) low node on = elim (same (suc height) node low on) [
    | inr s ↦ s
    | inl s ↦ elim (Bool-cases (is_present ((nodes node).phy (index (suc height) p)))) [
      | inr off ↦ rw (s.0, off) refl
      | inl present ↦ elim (Bool-cases (is_large ((nodes node).phy (index (suc height) p)))) [
        | inl large ↦ rw (s.0, present, large) refl
        | inr small ↦
            rw (s.0, s.1, present, small)
              (leaf-same changed p same height (omega arith)
                ((nodes node).lin (index (suc height) p))
                (child-IsOnWay height (omega arith) node p on present small))
      ]
    ]
  ]

pub none≢some : {x : ℕ × ℕ} → ¬ (none ≡ some x)
none≢some e = cc e

-- There is one table at an address.
pub one_table :
    (place : Place) (a h q h' q' : ℕ)
    → place a ≡ some (h, q)
    → place a ≡ some (h', q')
    → (h ≡ h') × (q ≡ q')
one_table place a h q h' q' e f =
    let pair : Type 0 = ℕ × ℕ in
    let x : pair = (h, q) in
    let y : pair = (h', q') in let one : some x ≡ some y = sym e ∙ f in (cc one, cc one)

module _ (nodes : Nodes) (node p : ℕ) where
  pub leaf_missing :
      (height : ℕ)
      → is_present ((nodes node).phy (index height p)) ≡ false
      → leaf height nodes node p ≡ none
  unfolding leaf
  leaf_missing zero off = rw off refl
  leaf_missing (suc height) off = rw off refl

  pub leaf_page :
      is_present ((nodes node).phy (index zero p)) ≡ true
      → leaf zero nodes node p ≡ some (0, (nodes node).phy (index zero p))
  unfolding leaf
  leaf_page on = rw on refl

  pub leaf_child :
      (height : ℕ)
      → is_present ((nodes node).phy (index (suc height) p)) ≡ true
      → is_large ((nodes node).phy (index (suc height) p)) ≡ false
      → leaf (suc height) nodes node p
        ≡ leaf height nodes ((nodes node).lin (index (suc height) p)) p
  unfolding leaf
  leaf_child height on small = rw (on, small) refl

  pub leaf_large :
      (height : ℕ)
      → is_present ((nodes node).phy (index (suc height) p)) ≡ true
      → is_large ((nodes node).phy (index (suc height) p)) ≡ true
      → leaf (suc height) nodes node p ≡ some (suc height, (nodes node).phy (index (suc height) p))
  unfolding leaf
  leaf_large height on large = rw (on, large) refl

  -- Where the walk ends without a page, an entry maps no page.
  pub unmapped_page :
      leaf zero nodes node p ≡ none → is_present ((nodes node).phy (index zero p)) ≡ false
  unmapped_page h = elim (Bool-cases (is_present ((nodes node).phy (index zero p)))) [
    | inr off ↦ off
    | inl on ↦ absurd (none≢some (sym h ∙ leaf_page on))
  ]

  pub unmapped_small :
      (height : ℕ)
      → is_present ((nodes node).phy (index (suc height) p)) ≡ true
      → leaf (suc height) nodes node p ≡ none
      → is_large ((nodes node).phy (index (suc height) p)) ≡ false
  unmapped_small height on h =
      elim (Bool-cases (is_large ((nodes node).phy (index (suc height) p)))) [
        | inr small ↦ small
        | inl large ↦ absurd (none≢some (sym h ∙ leaf_large height on large))
      ]

-- The entry of a block, and the way on to its child
pub index_entry :
    (height : ℕ)
    → height ≤ 3
    → (q i b p : ℕ) → b ≡ 512 * q + i
    → i < 512
    → block height p ≡ b
    → index height p ≡ i
index_entry height low q i b p at_b few e = omega (arith, index-block height low p)

pub leaf_entry :
    (nodes : Nodes) (node p height i : ℕ)
    → index (suc height) p ≡ i
    → is_present ((nodes node).phy i) ≡ true
    → is_large ((nodes node).phy i) ≡ false
    → leaf (suc height) nodes node p ≡ leaf height nodes ((nodes node).lin i) p
leaf_entry nodes node p height i at_i present small =
    leaf_child nodes node p height (rw at_i present) (rw at_i small)
    ∙ ap (λ j. leaf height nodes ((nodes node).lin j) p) at_i
