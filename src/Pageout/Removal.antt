-- ===== src/Pageout/Removal.antt =====
-- Steps of `Pager::pageout`, one after the other, and the end of a call for one table.
use cerius.Base.{
  ℕ, zero, suc, ◌+◌, ◌*◌, ◌-◌, ◌^◌, ◌≤◌, ◌<◌, ◌≡◌, inl, inr, ◌∙◌, ap, refl, arith, some, Bool,
  Bool-cases, true, false, Result, ok, Returns, returns, bind, mono, ≢→==, lt-or-ge,
}
use cerius.Pager.{Paging, is_present, for_indexes}
use cerius.Pager.Blocks.{block, block-suc}
use cerius.Pager.Leaf.{leaf, Place, IsTree, IsOnWay}
use cerius.Pager.Moved.{IsEmpty, IsKept}
use cerius.Pageout.{any_present, finish, give_table}
use cerius.Pageout.Cleared.{any_present-none}

module _ {ℓ} {R : Type ℓ} (reserve_alloc : R → Result (R × ℕ)) (start stop : ℕ)
    (place : Place) where
  -- Every address of the range in these blocks is mapped by an entry of height 0.
  abbrev pub IsPaged : (height lo hi node : ℕ) → Paging R → Type 0
  IsPaged height lo hi node s =
      (p : ℕ)
      → p < 2 ^ 48
      → start ≤ p
      → p < stop
      → lo ≤ block height p
      → block height p < hi
      → (entry : ℕ) × (leaf height s.nodes node p ≡ some (0, entry))

  -- A step for the blocks from `lo` to `hi` of the table at `node`: none of their addresses in the range is
  -- mapped any more, all others are as before, and so are the tables of greater height.
  pub record Removed (height lo hi node : ℕ) (s s' : Paging R) : Type ℓ where
    pub tree : IsTree place s'.nodes
    pub kept :
        (h a p : ℕ)
        → h ≤ 3
        → p < 2 ^ 48
        → IsKept reserve_alloc start stop height lo hi p
        → IsOnWay place h p a
        → leaf h s'.nodes a p ≡ leaf h s.nodes a p
    pub above : (a h q : ℕ) → height < h → place a ≡ some (h, q) → s'.nodes a ≡ s.nodes a
    pub root : s'.pml4 ≡ s.pml4
    pub lock : s'.lock_cnt ≡ s.lock_cnt
    pub removed : IsEmpty reserve_alloc start stop height lo hi node s'

  -- A call for a table: whether it gave the table back, all of whose entries are 0 then
  pub record Left (height lo hi node : ℕ) (s : Paging R) (r : Paging R × Bool) : Type ℓ where
    pub steps : Removed height lo hi node s r.0
    pub empty : r.1 ≡ true → (j : ℕ) → j < 512 → is_present ((r.0.nodes node).phy j) ≡ false

  -- A second step for the same blocks
  pub Removed-again :
      {height lo hi node : ℕ} {s s' s'' : Paging R}
      → Removed height lo hi node s s'
      → Removed height lo hi node s' s''
      → Removed height lo hi node s s''
  Removed-again f g = record {
    tree = g.tree;
    kept = λ h a p lim small out on. g.kept h a p lim small out on ∙ f.kept h a p lim small out on;
    above = λ a h r higher on. g.above a h r higher on ∙ f.above a h r higher on;
    root = g.root ∙ f.root;
    lock = g.lock ∙ f.lock;
    removed = g.removed;
  }

  module _ (height node q : ℕ) (low : height ≤ 3) (at : place node ≡ some (height, q)) where
    on_way :
        (p : ℕ)
        → 512 * q ≤ block height p
        → block height p < 512 * q + 512
        → IsOnWay place height p node
    on_way p from to =
        let up : q ≡ block (suc height) p = omega (arith, block-suc height low p) in
        at ∙ ap (λ b. some (height, b)) up

    Removed-refl : (lo : ℕ) (s : Paging R) → IsTree place s.nodes → Removed height lo lo node s s
    Removed-refl lo s tree = record {
      tree = tree;
      kept = λ h a p lim small out on. refl;
      above = λ a h r higher on. refl;
      root = refl;
      lock = refl;
      removed = λ p small above below from to. absurd (omega arith);
    }

    Removed-trans :
        {lo mid hi : ℕ} {s s' s'' : Paging R}
        → 512 * q ≤ lo
        → lo ≤ mid
        → mid ≤ hi
        → hi ≤ 512 * q + 512
        → Removed height lo mid node s s'
        → Removed height mid hi node s' s''
        → Removed height lo hi node s s''
    Removed-trans {lo} {mid} {hi} in' up up' below f g = record {
      tree = g.tree;
      kept = λ h a p lim small out on.
          g.kept h a p lim small (after p out) on ∙ f.kept h a p lim small (before p out) on;
      above = λ a h r higher on. g.above a h r higher on ∙ f.above a h r higher on;
      root = g.root ∙ f.root;
      lock = g.lock ∙ f.lock;
      removed = λ p small above below' from to. elim (lt-or-ge (block height p) mid) [
        | inr later ↦ g.removed p small above below' later to
        | inl sooner ↦
            g.kept height node p low small (inr (inl sooner)) (on_way p (omega arith) (omega arith))
            ∙ f.removed p small above below' from sooner
      ];
    }
      where
        before :
            (p : ℕ)
            → IsKept reserve_alloc start stop height lo hi p
            → IsKept reserve_alloc start stop height lo mid p
        before p (inl out) = inl out
        before p (inr (inl less)) = inr (inl less)
        before p (inr (inr more)) = inr (inr (omega arith))

        after :
            (p : ℕ)
            → IsKept reserve_alloc start stop height lo hi p
            → IsKept reserve_alloc start stop height mid hi p
        after p (inl out) = inl out
        after p (inr (inl less)) = inr (inl (omega arith))
        after p (inr (inr more)) = inr (inr more)

    -- What a round of the loop does for the entry of block `b`
    abbrev pub IsRemoval : (ℕ → Paging R → Result (Paging R)) → Type ℓ
    IsRemoval body =
        (i b : ℕ) (s : Paging R)
        → b ≡ 512 * q + i
        → i < 512
        → IsTree place s.nodes
        → 0 < s.lock_cnt
        → block height start ≤ b
        → b ≤ block height (stop - 1)
        → IsPaged height b (b + 1) node s
        → Returns (Removed height b (b + 1) node s) (body i s)

    pub for_indexes-Removed :
        (body : ℕ → Paging R → Result (Paging R))
        → IsRemoval body
        → (rounds i b e : ℕ) (s : Paging R) → b ≡ 512 * q + i
        → e ≡ b + rounds
        → i + rounds ≤ 512
        → block height start ≤ b
        → e ≤ block height (stop - 1) + 1
        → IsTree place s.nodes
        → 0 < s.lock_cnt
        → IsPaged height b e node s
        → Returns (Removed height b e node s) (for_indexes rounds i body s)
    unfolding for_indexes
    for_indexes-Removed body round zero i b e s at_b at_e in' from to tree locked paged =
        let same : e ≡ b = omega arith in rw same (returns (Removed-refl b s tree))
    for_indexes-Removed body round (suc rounds) i b e s at_b at_e in' from to tree locked paged =
        bind
          (round i b s at_b (omega arith) tree locked from (omega arith)
            (λ p small above below lo hi. paged p small above below lo (omega arith)))
          λ s' step.
            mono
              (for_indexes-Removed body round rounds (i + 1) (b + 1) e s' (omega arith)
                (omega arith) (omega arith) (omega arith) to step.tree (omega (arith, step.lock))
                (later s' step))
              λ s'' rest.
                Removed-trans (omega arith) (omega arith) (omega arith) (omega arith) step rest
      where
        later :
            (s' : Paging R) → Removed height b (b + 1) node s s' → IsPaged height (b + 1) e node s'
        later s' step p small above below lo hi =
            let old = paged p small above below (omega arith) hi in
            (
              old.0,
              step.kept height node p low small (inr (inr lo))
                    (on_way p (omega arith) (omega arith))
                  ∙ old.1,
            )

    -- The steps cover all blocks of the table.
    pub Removed-all :
        {lo hi : ℕ} {s s' : Paging R}
        → 512 * q ≤ lo
        → hi ≤ 512 * q + 512
        → ((p : ℕ)
            → start ≤ p
            → p < stop
            → 512 * q ≤ block height p
            → block height p < 512 * q + 512
            → (lo ≤ block height p) × (block height p < hi))
        → Removed height lo hi node s s'
        → Removed height (512 * q) (512 * q + 512) node s s'
    Removed-all {lo} {hi} from to all step = record {
      tree = step.tree;
      kept = λ h a p lim small out on. step.kept h a p lim small (narrow p out) on;
      above = step.above;
      root = step.root;
      lock = step.lock;
      removed = λ p small above below lo' hi'.
          let in' = all p above below lo' hi' in step.removed p small above below in'.0 in'.1;
    }
      where
        narrow :
            (p : ℕ)
            → IsKept reserve_alloc start stop height (512 * q) (512 * q + 512) p
            → IsKept reserve_alloc start stop height lo hi p
        narrow p (inl out) = inl out
        narrow p (inr (inl less)) = inr (inl (omega arith))
        narrow p (inr (inr more)) = inr (inr (omega arith))

    -- `finish` changes no table.
    pub finish-Left :
        (reserve_free : R → ℕ → Result R) (settle trim : Paging R → Result (Paging R))
        → ((r : R) → (r' : R) × (reserve_free r node ≡ ok r'))
        → (lo hi : ℕ) (s s' : Paging R) → 0 < s'.lock_cnt
        → Removed height lo hi node s s'
        → Returns (Left height lo hi node s) (finish reserve_alloc reserve_free settle trim node s')
    unfolding finish give_table
    finish-Left reserve_free settle trim frees lo hi s s' locked step =
        elim (Bool-cases (any_present 512 0 (s'.nodes node))) [
          | inl some' ↦ rw some' (returns (record { steps = step; empty = λ e. absurd (f≢t e) }))
          | inr none' ↦
              let given = frees s'.reserve in
              rw (none', given.1, ≢→== s'.lock_cnt 0 (omega arith))
                (returns (record {
                  steps = record {
                    tree = step.tree;
                    kept = step.kept;
                    above = step.above;
                    root = step.root;
                    lock = step.lock;
                    removed = step.removed;
                  };
                  empty = λ e j lim.
                      any_present-none 512 0 (s'.nodes node) none' j (omega arith) (omega arith);
                }))
        ]
      where
        f≢t : ¬ (false ≡ true)
        f≢t e = cc e
