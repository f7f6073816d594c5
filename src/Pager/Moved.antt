-- ===== src/Pager/Moved.antt =====
-- The invariant of the page tables, and what a step of `pagein` may change.
use cerius.Base.{
  ℕ, suc, ◌+◌, ◌*◌, ◌%◌, ◌^◌, ◌≤◌, ◌<◌, ◌≡◌, ◌≢◌, ◌⊎◌, inl, inr, ◌∙◌, sym, ap, refl, arith, none,
  some, List, [], ◌∷◌, length, All, IsDistinct, Result, ok,
}
use cerius.Pager.{Paging, walk, lintophy}
use cerius.Pager.Blocks.{block, block-suc}
use cerius.Pager.Leaf.{leaf, resolve, walk-leaf, Place, IsTree, IsOnWay}

-- The reserve gives these addresses next, in this order.
abbrev pub Gives {ℓ} : {R : Type ℓ} → (R → Result (R × ℕ)) → R → List ℕ → Type ℓ
Gives reserve_alloc r [] = Unit
Gives {R = R} reserve_alloc r (n ∷ ns) =
    (r' : R) × (reserve_alloc r ≡ ok (r', n)) × Gives reserve_alloc r' ns

module _ {ℓ} {R : Type ℓ} (reserve_alloc : R → Result (R × ℕ)) (start end : ℕ) where
  abbrev pub IsOutside : ℕ → Type 0
  IsOutside p = (p < start) ⊎ (end ≤ p)

  -- An address where no table stands yet, and which is mapped to the start of a physical page
  pub record Usable (place : Place) (s : Paging R) (n : ℕ) : Type 0 where
    pub fresh : place n ≡ none
    pub low : n < 2 ^ 48
    pub outside : IsOutside n
    pub frame : ℕ
    pub mapped : lintophy s n ≡ ok frame
    pub present : frame ≢ 0
    pub aligned : frame % 4096 ≡ 0

  pub record Invariant (place : Place) (s : Paging R) (supply : List ℕ) : Type ℓ where
    pub tree : IsTree place s.nodes
    pub root : place s.pml4 ≡ some (3, 0)
    pub locked : 0 < s.lock_cnt
    pub gives : Gives reserve_alloc s.reserve supply
    pub distinct : IsDistinct supply
    pub usable : All (Usable place s) supply

  -- The address is not in the range, or in none of the blocks from `lo` to `hi`.
  abbrev pub IsKept : (height lo hi p : ℕ) → Type 0
  IsKept height lo hi p = IsOutside p ⊎ ((block height p < lo) ⊎ (hi ≤ block height p))

  -- What is kept by a block's entry is kept by all the entries of the child.
  pub IsKept-below :
      (height : ℕ)
      → height < 3
      → (b p : ℕ) → IsKept (suc height) b (b + 1) p
      → IsKept height (512 * b) (512 * b + 512) p
  IsKept-below height low b p (inl out) = inl out
  IsKept-below height low b p (inr (inl less)) =
      inr (inl (omega (arith, block-suc height (omega arith) p)))
  IsKept-below height low b p (inr (inr more)) =
      inr (inr (omega (arith, block-suc height (omega arith) p)))

  -- A step for the blocks from `lo` to `hi` of tables of this height: the tables stay where they are,
  -- those of greater height as they are; no address outside of the blocks is mapped otherwise; `cost` new
  -- tables at most are made.
  pub record Moved (height lo hi cost : ℕ) (place : Place) (s : Paging R) (supply : List ℕ)
      (place' : Place) (s' : Paging R) (supply' : List ℕ) : Type ℓ where
    pub kept :
        (h node p : ℕ)
        → h ≤ 3
        → p < 2 ^ 48
        → IsKept height lo hi p
        → IsOnWay place h p node
        → leaf h s'.nodes node p ≡ leaf h s.nodes node p
    pub extends : (node : ℕ) (x : ℕ × ℕ) → place node ≡ some x → place' node ≡ some x
    pub above :
        (node h q : ℕ) → height < h → place node ≡ some (h, q) → s'.nodes node ≡ s.nodes node
    pub root : s'.pml4 ≡ s.pml4
    pub spent : length supply ≤ length supply' + cost

  pub Moved-trans :
      {height lo mid hi c d : ℕ} {place place' place'' : Place} {s s' s'' : Paging R}
      {l l' l'' : List ℕ}
      → lo ≤ mid
      → mid ≤ hi
      → Moved height lo mid c place s l place' s' l'
      → Moved height mid hi d place' s' l' place'' s'' l''
      → Moved height lo hi (c + d) place s l place'' s'' l''
  Moved-trans {height} {lo} {mid} {hi} {place} {s} {s''} up down f g = record {
    kept = λ h node p low small out on.
        g.kept h node p low small (after p out) (f.extends node _ on)
        ∙ f.kept h node p low small (before p out) on;
    extends = λ node x on. g.extends node x (f.extends node x on);
    above = λ node h q higher on.
        g.above node h q higher (f.extends node _ on) ∙ f.above node h q higher on;
    root = g.root ∙ f.root;
    spent = omega (arith, f.spent, g.spent);
  }
    where
      before : (p : ℕ) → IsKept height lo hi p → IsKept height lo mid p
      before p (inl out) = inl out
      before p (inr (inl less)) = inr (inl less)
      before p (inr (inr more)) = inr (inr (omega arith))

      after : (p : ℕ) → IsKept height lo hi p → IsKept height mid hi p
      after p (inl out) = inl out
      after p (inr (inl less)) = inr (inl (omega arith))
      after p (inr (inr more)) = inr (inr more)

  pub Moved-refl :
      (height lo : ℕ) (place : Place) (s : Paging R) (l : List ℕ)
      → Moved height lo lo 0 place s l place s l
  Moved-refl height lo place s l = record {
    kept = λ h node p low small out on. refl;
    extends = λ node x on. on;
    above = λ node h q higher on. refl;
    root = refl;
    spent = omega arith;
  }

  -- An address of the supply stays usable, where no table was put there.
  pub Usable-Moved :
      {height lo hi cost : ℕ} {place place' : Place} {s s' : Paging R} {l l' : List ℕ} (n : ℕ)
      → place s.pml4 ≡ some (3, 0)
      → Moved height lo hi cost place s l place' s' l'
      → place' n ≡ none
      → Usable place s n
      → Usable place' s' n
  unfolding lintophy block
  Usable-Moved {place} {s} {s'} n root m free u =
      let first : block 4 n ≡ 0 = omega (arith, u.low) in
      let on : IsOnWay place 3 n s.pml4 = root ∙ ap (λ b. some (3, b)) (sym first) in
      let mapped : walk 3 s'.nodes s.pml4 n ≡ ok u.frame =
        walk-leaf 3 s'.nodes s.pml4 n
        ∙ ap (resolve n) (m.kept 3 s.pml4 n (omega arith) u.low (inl u.outside) on)
        ∙ sym (walk-leaf 3 s.nodes s.pml4 n)
        ∙ u.mapped in
      record {
        fresh = free;
        low = u.low;
        outside = u.outside;
        frame = u.frame;
        mapped = rw m.root mapped;
        present = u.present;
        aligned = u.aligned;
      }

  -- No address of the range in these blocks is mapped by the table at `node`.
  abbrev pub IsEmpty : (height lo hi node : ℕ) → Paging R → Type 0
  IsEmpty height lo hi node s =
      (p : ℕ)
      → p < 2 ^ 48
      → start ≤ p
      → p < end
      → lo ≤ block height p
      → block height p < hi
      → leaf height s.nodes node p ≡ none

  module _ (entry : (p : ℕ) → ℕ) where
    -- Each of them is mapped by its entry.
    abbrev pub IsFilled : (height lo hi node : ℕ) → Paging R → Type 0
    IsFilled height lo hi node s =
        (p : ℕ)
        → p < 2 ^ 48
        → start ≤ p
        → p < end
        → lo ≤ block height p
        → block height p < hi
        → leaf height s.nodes node p ≡ some (0, entry p)

    -- What a step of `pagein` leaves behind
    pub record Stepped (height lo hi cost node : ℕ) (place : Place) (s : Paging R) (supply : List ℕ)
        (s' : Paging R) : Type ℓ where
      pub place' : Place
      pub supply' : List ℕ
      pub moved : Moved height lo hi cost place s supply place' s' supply'
      pub invariant : Invariant place' s' supply'
      pub filled : IsFilled height lo hi node s'
