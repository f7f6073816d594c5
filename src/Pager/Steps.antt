-- ===== src/Pager/Steps.antt =====
-- Steps of `Pager::pagein` one after the other, and its loops over the entries of a table.
use cerius.Base.{
  ℕ, zero, suc, ◌+◌, ◌*◌, ◌-◌, ◌≤◌, ◌<◌, ◌≡◌, inl, inr, ◌∙◌, ap, arith, some, List, length, Result,
  Returns, returns, bind, mono, lt-or-ge,
}
use cerius.Pager.{Paging, for_indexes}
use cerius.Pager.Blocks.{block, block-suc}
use cerius.Pager.Leaf.{Place, IsOnWay}
use cerius.Pager.Moved.{Invariant, Moved-trans, Moved-refl, Stepped, IsEmpty, IsKept}

unfoldable pub sum_from : (rounds b : ℕ) → (ℕ → ℕ) → ℕ
sum_from zero b f = 0
sum_from (suc rounds) b f = f b + sum_from rounds (b + 1) f

module _ {ℓ} {R : Type ℓ} (reserve_alloc : R → Result (R × ℕ))
    (settle : Paging R → Result (Paging R)) (start stop : ℕ) (entry : ℕ → ℕ) where
  in_table :
      (place : Place) (height node q p : ℕ)
      → height ≤ 3
      → place node ≡ some (height, q)
      → 512 * q ≤ block height p
      → block height p < 512 * q + 512
      → IsOnWay place height p node
  in_table place height node q p low at from to =
      let up : q ≡ block (suc height) p = omega (arith, block-suc height low p) in
      at ∙ ap (λ b. some (height, b)) up

  -- Two steps for neighbouring blocks of one table
  Stepped-trans :
      {height lo mid hi c d node q : ℕ} {place : Place} {s s' s'' : Paging R} {supply : List ℕ}
      → height ≤ 3
      → place node ≡ some (height, q)
      → 512 * q ≤ lo
      → lo ≤ mid
      → mid ≤ hi
      → hi ≤ 512 * q + 512
      → (first : Stepped reserve_alloc start stop entry height lo mid c node place s supply s')
      → Stepped reserve_alloc start stop entry height mid hi d node first.place' s' first.supply'
          s''
      → Stepped reserve_alloc start stop entry height lo hi (c + d) node place s supply s''
  Stepped-trans {height} {lo} {mid} {hi} {node = node} {q} low at in' up up' below first second =
      record {
        place' = second.place';
        supply' = second.supply';
        moved = Moved-trans reserve_alloc start stop up up' first.moved second.moved;
        invariant = second.invariant;
        filled = λ p small above below' from to. elim (lt-or-ge (block height p) mid) [
          | inr later ↦ second.filled p small above below' later to
          | inl sooner ↦
              let on =
                in_table first.place' height node q p low (first.moved.extends node _ at)
                  (omega arith) (omega arith) in
              second.moved.kept height node p low small (inr (inl sooner)) on
              ∙ first.filled p small above below' from sooner
        ];
      }

  -- A step leaves the later blocks empty.
  IsEmpty-later :
      {height lo mid hi c node q : ℕ} {place : Place} {s s' : Paging R} {supply : List ℕ}
      → height ≤ 3
      → place node ≡ some (height, q)
      → 512 * q ≤ lo
      → lo ≤ mid
      → hi ≤ 512 * q + 512
      → Stepped reserve_alloc start stop entry height lo mid c node place s supply s'
      → IsEmpty reserve_alloc start stop height lo hi node s
      → IsEmpty reserve_alloc start stop height mid hi node s'
  IsEmpty-later {height} {node = node} {q} {place} low at in' up below step empty p small above
        below' from to =
      let on = in_table place height node q p low at (omega arith) (omega arith) in
      step.moved.kept height node p low small (inr (inr from)) on
      ∙ empty p small above below' (omega arith) to

  -- What a round of the loop does for the entry of block `b`
  abbrev pub IsRound :
      (height q node : ℕ) → (cost : ℕ → ℕ) → (ℕ → Paging R → Result (Paging R)) → Type ℓ
  IsRound height q node cost body =
      (i b : ℕ) (place : Place) (s : Paging R) (supply : List ℕ)
      → b ≡ 512 * q + i
      → i < 512
      → Invariant reserve_alloc start stop place s supply
      → place node ≡ some (height, q)
      → block height start ≤ b
      → b ≤ block height (stop - 1)
      → IsEmpty reserve_alloc start stop height b (b + 1) node s
      → cost b ≤ length supply
      → Returns
          (Stepped reserve_alloc start stop entry height b (b + 1) (cost b) node place s supply)
          (body i s)

  -- The loop over the entries of a table, by what a round of it does
  pub for_indexes-Stepped :
      (height q node : ℕ) (body : ℕ → Paging R → Result (Paging R)) (cost : ℕ → ℕ)
      → height ≤ 3
      → IsRound height q node cost body
      → (rounds i b e : ℕ) (place : Place) (s : Paging R) (supply : List ℕ) → b ≡ 512 * q + i
      → e ≡ b + rounds
      → i + rounds ≤ 512
      → block height start ≤ b
      → e ≤ block height (stop - 1) + 1
      → Invariant reserve_alloc start stop place s supply
      → place node ≡ some (height, q)
      → IsEmpty reserve_alloc start stop height b e node s
      → sum_from rounds b cost ≤ length supply
      → Returns
          (Stepped reserve_alloc start stop entry height b e
            (sum_from rounds b cost)
            node
            place
            s
            supply)
          (for_indexes rounds i body s)
  unfolding for_indexes sum_from
  for_indexes-Stepped height q node body cost low round zero i b e place s supply at_b at_e in' from
        to inv at empty enough =
      let same : e ≡ b = omega arith in
      rw same (
        returns (record {
          place' = place;
          supply' = supply;
          moved = Moved-refl reserve_alloc start stop height b place s supply;
          invariant = inv;
          filled = λ p small above below lo hi. absurd (omega arith);
        }))
  for_indexes-Stepped height q node body cost low round (suc rounds) i b e place s supply at_b at_e
        in' from to inv at empty enough =
      bind
        (round i b place s supply at_b (omega arith) inv at from (omega arith)
          (λ p small above below lo hi. empty p small above below lo (omega arith)) (omega arith))
        λ s' step.
          mono
            (for_indexes-Stepped height q node body cost low round rounds (i + 1) (b + 1) e
              step.place' s' step.supply' (omega arith) (omega arith) (omega arith) (omega arith) to
              step.invariant (step.moved.extends node _ at)
              (IsEmpty-later low at (omega arith) (omega arith) (omega arith) step empty)
              (omega (arith, step.moved.spent)))
            λ s'' rest.
              Stepped-trans low at (omega arith) (omega arith) (omega arith) (omega arith) step rest

  -- What the loop has done in its own blocks it has done in all blocks of the table.
  pub Stepped-all :
      (q : ℕ) {height lo hi c node : ℕ} {place : Place} {s s' : Paging R} {supply : List ℕ}
      → height ≤ 3
      → 512 * q ≤ lo
      → hi ≤ 512 * q + 512
      → ((p : ℕ)
          → start ≤ p
          → p < stop
          → 512 * q ≤ block height p
          → block height p < 512 * q + 512
          → (lo ≤ block height p) × (block height p < hi))
      → Stepped reserve_alloc start stop entry height lo hi c node place s supply s'
      → Stepped reserve_alloc start stop entry height
          (512 * q)
          (512 * q + 512)
          c
          node
          place
          s
          supply
          s'
  Stepped-all q {height} {lo} {hi} {node = node} low from to all step = record {
    place' = step.place';
    supply' = step.supply';
    invariant = step.invariant;
    moved = record {
      kept = λ h a p few small out on. step.moved.kept h a p few small (narrow p out) on;
      extends = step.moved.extends;
      above = step.moved.above;
      root = step.moved.root;
      spent = step.moved.spent;
    };
    filled = λ p small above below lo' hi'.
        let in' = all p above below lo' hi' in step.filled p small above below in'.0 in'.1;
  }
    where
      narrow :
          (p : ℕ)
          → IsKept reserve_alloc start stop height (512 * q) (512 * q + 512) p
          → IsKept reserve_alloc start stop height lo hi p
      narrow p (inl out) = inl out
      narrow p (inr (inl less)) = inr (inl (omega arith))
      narrow p (inr (inr more)) = inr (inr (omega arith))

  -- A bound on the cost may be raised.
  pub Stepped-cost :
      {height lo hi c d node : ℕ} {place : Place} {s s' : Paging R} {supply : List ℕ}
      → c ≤ d
      → Stepped reserve_alloc start stop entry height lo hi c node place s supply s'
      → Stepped reserve_alloc start stop entry height lo hi d node place s supply s'
  Stepped-cost more step = record {
    place' = step.place';
    supply' = step.supply';
    invariant = step.invariant;
    moved = record {
      kept = step.moved.kept;
      extends = step.moved.extends;
      above = step.moved.above;
      root = step.moved.root;
      spent = omega (arith, step.moved.spent);
    };
    filled = step.filled;
  }
