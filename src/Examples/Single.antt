-- ===== src/Examples/Single.antt =====
-- An address space with one free range.
use cerius.Base.{[], ◌∷◌, ◌+◌, ◌≤◌, ◌<◌, ◌^◌, ◌≡◌, refl, inl, inr, arith}
use cerius.Range.{RangePair}
use cerius.Range.Laws.{range_ordered}
use cerius.Range.Count.{count, one, one-swap, one-cases, one_refl, swap}
use cerius.Avl.{EntryClass, plain_entry, clone}
use cerius.Space.{Space}
use cerius.Space.Invariant.{IsSpace}

single-count : (p q : RangePair) → count q (p ∷ []) ≡ one q p
unfolding count
single-count p q = omega arith

pub single-free : (p : RangePair) → 0 < count p (p ∷ [])
single-free p = omega (arith, single-count p p, one_refl p)

pub single-only : (p q : RangePair) → 0 < count q (p ∷ []) → q ≡ p
single-only p q h = elim (one-cases q p) [
  | inl (o, is) ↦ is
  | inr o ↦ absurd (omega (arith, single-count p q))
]

single_once : (p q : RangePair) → count q (p ∷ []) ≤ 1
single_once p q = elim (one-cases q p) [
  | inl (o, is) ↦ omega (arith, single-count p q)
  | inr o ↦ omega (arith, single-count p q)
]

module _ {κ} {C : Type κ} ⦃c : EntryClass RangePair C⦄ where
  abbrev pub single : RangePair → Space C
  single p = record { tree_start = clone p; tree_length = clone (swap p) }

  pub single-IsSpace : (p : RangePair) → 0 < p.y → p.x + p.y < 2 ^ 64 → IsSpace (single p)
  unfolding count
  single-IsSpace p some' fits = record {
    start_avl = (tt, tt, refl, omega arith, refl);
    start_sorted = (tt, tt);
    length_avl = (tt, tt, refl, omega arith, c.construct-invcache (swap p));
    length_sorted = (tt, tt);
    mirrored = λ q. omega (arith, single-count p q, one-swap q p);
    once = single_once p;
    proper = λ q h. rw (single-only p q h) (some', fits);
    apart = λ q r h h'. inl (rw (single-only p q h, single-only p r h') refl);
  }
