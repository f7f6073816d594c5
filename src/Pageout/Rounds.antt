-- ===== src/Pageout/Rounds.antt =====
-- The round of the loop of `Pager::pageout` at height 0, and an entry that is set to 0.
use cerius.Base.{
  ℕ, suc, ◌+◌, ◌*◌, ◌/◌, ◌%◌, ◌^◌, ◌≤◌, ◌<◌, ◌≡◌, ◌≢◌, ◌⊎◌, inl, inr, ◌∙◌, sym, ap, refl, subst,
  arith, none, some, Bool, Bool-cases, true, false, Result, returns, ◌==◌, ◌&&◌, ≡→==, ==→≡, ==→≢,
  add64, sub64, if◌then◌else◌, not, ◌||◌, ltb, leb,
}
use cerius.Pager.{
  Nodes, Paging, is_present, is_large, index, child_size, index_start, index_end, index_from, divru,
}
use cerius.Pager.Blocks.{block}
use cerius.Pager.Leaf.{leaf, leaf_missing, leaf_large, none≢some, one_table, Place, IsTree}
use cerius.Pager.Moved.{IsKept, IsOutside}
use cerius.Pageout.{start_mod, end_mod, is_covered, clear_entry, page_out_round}
use cerius.Pageout.Cleared.{cleared, cleared-IsTree, cleared-else, cleared-none, cleared-kept}
use cerius.Pageout.Removal.{Removed, IsRemoval}

-- What a caller asks for: whole pages of 48-bit addresses
pub record IsRange (start_lin length : ℕ) : Type 0 where
  pub some_page : 0 < length
  pub range : start_lin + length ≤ 2 ^ 48
  pub few : length < 2 ^ 42
  pub aligned : start_lin % 4096 ≡ 0
  pub whole : length % 4096 ≡ 0

if_none : (b : Bool) (x : ℕ) → x ≡ 0 → (if b then 0 else x) ≡ 0
if_none true x e = refl
if_none false x e = e

both_hold : (a b : Bool) (x y : ℕ) → x ≡ 0 → y ≡ 0 → ((a || (x == 0)) && (b || (y == 0))) ≡ true
both_hold true true x y e f = refl
both_hold true false x y e f = ≡→== y 0 f
both_hold false true x y e f = rw (≡→== x 0 e) refl
both_hold false false x y e f = rw (≡→== x 0 e) (≡→== y 0 f)

-- Whole pages are covered.
page_covered :
    (start_lin end_lin base i : ℕ)
    → start_lin % 4096 ≡ 0
    → end_lin % 4096 ≡ 0
    → base % 4096 ≡ 0
    → base < 2 ^ 64
    → is_covered 0 start_lin end_lin base i ≡ true
page_covered start_lin end_lin base i a e b small =
    let sm : start_mod 0 start_lin base ≡ 0 =
      if_none (leb (2 ^ 31) (sub64 start_lin base / child_size 0 % 2 ^ 32))
        (sub64 start_lin base % child_size 0 % 2 ^ 32) (omega arith) in
    let em : end_mod 0 end_lin base ≡ 0 =
      if_none (ltb 512 (index_from (divru (sub64 end_lin base) (child_size 0))))
        (sub64 end_lin base % child_size 0 % 2 ^ 32) (omega arith) in
    both_hold (not (i == index_start 0 start_lin base)) (not (i + 1 == index_end 0 end_lin base))
      (start_mod 0 start_lin base) (end_mod 0 end_lin base) sm em

pub present_at_leaf :
    (height : ℕ) (nodes : Nodes) (node p : ℕ) (x : ℕ × ℕ)
    → leaf height nodes node p ≡ some x
    → is_present ((nodes node).phy (index height p)) ≡ true
present_at_leaf height nodes node p x h =
    elim (Bool-cases (is_present ((nodes node).phy (index height p)))) [
      | inl on ↦ on
      | inr off ↦ absurd (none≢some (sym (leaf_missing nodes node p height off) ∙ h))
    ]

-- An address that a page of height 0 maps is not mapped by a large page.
pub leaf_page-small :
    (nodes : Nodes) (node p height e : ℕ)
    → is_present ((nodes node).phy (index (suc height) p)) ≡ true
    → leaf (suc height) nodes node p ≡ some (0, e)
    → is_large ((nodes node).phy (index (suc height) p)) ≡ false
leaf_page-small nodes node p height e on h =
    elim (Bool-cases (is_large ((nodes node).phy (index (suc height) p)))) [
      | inr small ↦ small
      | inl large ↦
          let large_leaf = leaf_large nodes node p height on large in
          absurd (
            omega
              (arith, (one_table (λ a. leaf (suc height) nodes node p) 0 _ _ 0 e large_leaf h).0))
    ]

module _ {ℓ} {R : Type ℓ} (reserve_alloc : R → Result (R × ℕ)) (reserve_free : R → ℕ → Result R)
    (settle trim : Paging R → Result (Paging R)) (start_lin length : ℕ)
    (req : IsRange start_lin length) (place : Place) where
  abbrev pub stop : ℕ
  stop = start_lin + length

  -- An entry set to 0, as a step
  pub clear_entry-Removed :
      (height node q i b : ℕ) (s : Paging R)
      → height ≤ 3
      → place node ≡ some (height, q)
      → i < 512
      → b ≡ 512 * q + i
      → IsTree place s.nodes
      → ((p : ℕ)
          → p < 2 ^ 48
          → IsOutside reserve_alloc start_lin stop p
          → block height p ≡ b
          → leaf height s.nodes node p ≡ none)
      → Removed reserve_alloc start_lin stop place height b (b + 1) node s (clear_entry node i s)
  unfolding cleared
  clear_entry-Removed height node q i b s low at few at_b tree outer = record {
    tree = cleared-IsTree place s.nodes tree height node q i b low at few at_b;
    kept = λ h a p lim small out on.
        cleared-kept place s.nodes tree height node q i b low at few at_b p (apart p small out) h a
          lim on;
    above = λ a h r higher on.
        cleared-else place s.nodes tree height node q i b low at few at_b a λ e.
          absurd (omega (arith, (one_table place node h r height q (ap place (sym e) ∙ on) at).0));
    root = refl;
    lock = refl;
    removed = λ p small above below from to.
        cleared-none place s.nodes tree height node q i b low at few at_b p (omega arith);
  }
    where
      apart :
          (p : ℕ)
          → p < 2 ^ 48
          → IsKept reserve_alloc start_lin stop height b (b + 1) p
          → (block height p ≢ b) ⊎ (leaf height s.nodes node p ≡ none)
      apart p small (inr (inl less)) = inl (omega arith)
      apart p small (inr (inr more)) = inl (omega arith)
      apart p small (inl out) = elim (Bool-cases (block height p == b)) [
        | inl here ↦ inr (outer p small out (==→≡ (block height p) b here))
        | inr else' ↦ inl (==→≢ (block height p) b else')
      ]

  -- A round at height 0
  pub page_out_round-Removed :
      (node q base : ℕ) (at : place node ≡ some (0, q))
      → base ≡ q * child_size 1
      → IsRemoval reserve_alloc start_lin stop place 0 node q
          (omega arith)
          at
          (page_out_round reserve_alloc reserve_free settle trim start_lin length node base)
  unfolding page_out_round block
  page_out_round-Removed node q base at base_eq i b s at_b few tree locked from to paged =
      let p : ℕ = b * 4096 in
      let at_i : index 0 p ≡ i = omega arith in
      let mapped =
        paged p (omega (arith, req.range)) (omega (arith, req.aligned))
          (omega (arith, req.aligned, req.whole, req.some_page)) (omega arith) (omega arith) in
      let present : is_present ((s.nodes node).phy i) ≡ true =
        subst (λ j. is_present ((s.nodes node).phy j) ≡ true) at_i
          (present_at_leaf 0 s.nodes node p _ mapped.1) in
      let covered : is_covered 0 start_lin (add64 start_lin length) base i ≡ true =
        page_covered start_lin (add64 start_lin length) base i req.aligned
          (omega (arith, req.range, req.aligned, req.whole)) (omega arith)
          (omega (arith, req.range)) in
      rw (present, covered)
        (returns (
          clear_entry-Removed 0 node q i b s (omega arith) at few at_b tree (λ p small out e.
            absurd (elim out [
              | inl before ↦ omega (arith, req.aligned)
              | inr after ↦ omega (arith, req.aligned, req.whole, req.some_page)
            ]))))
