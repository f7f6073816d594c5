-- ===== src/Space/Lookup.antt =====
-- What `findBound` finds among the free ranges.
use cerius.Base.{
  lt-or-ge, ℕ, ◌≤◌, ◌+◌, ◌<◌, ◌≡◌, Bool, true, false, Option, none, some, arith, ◌⊎◌, inl, inr,
}
use cerius.Range.{RangePair, range_pair, le}
use cerius.Range.Laws.{range_ordered, x_mono}
use cerius.Range.Count.{count-Has, All-count, swap}
use cerius.Avl.{EntryClass, plain_entry, find_bound}
use cerius.Avl.Model.{to_list}
use cerius.Avl.Bound.{IsBound, nothing, nearest, Side, find_bound-IsBound}
use cerius.Space.{Space}
use cerius.Space.Invariant.{IsSpace, times}

-- The result of `findBound` in terms of the free ranges.
pub data Found {κ} {C : Type κ} (s : Space C) (upper : Bool) (x : RangePair)
    : Option RangePair → Type κ where
  missing : ((q : RangePair) → 0 < times s q → ¬ Side upper x q) → Found s upper x none
  hit :
      {p : RangePair}
      → 0 < times s p
      → Side upper x p
      → ((q : RangePair) → 0 < times s q → (¬ Side upper x q) ⊎ Side upper p q)
      → Found s upper x (some p)

-- A shortest free range of at least `length` bytes, as (length, start), or that there is none.
pub data Shortest {κ} {C : Type κ} (s : Space C) (length : ℕ) : Option RangePair → Type κ where
  absent : ((q : RangePair) → 0 < times s q → q.y < length) → Shortest s length none
  shortest :
      {p : RangePair}
      → 0 < times s p
      → length ≤ p.y
      → ((q : RangePair) → 0 < times s q → length ≤ q.y → p.y ≤ q.y)
      → Shortest s length (some (swap p))

module _ {κ} {C : Type κ} ⦃c : EntryClass RangePair C⦄ where
  pub find_bound-Found :
      (s : Space C) (upper : Bool) (x : RangePair)
      → IsSpace s
      → Found s upper x (find_bound s.tree_start x upper)
  find_bound-Found s upper x i = go (find_bound-IsBound s.tree_start x upper i.start_sorted)
    where
      go : {r : Option RangePair} → IsBound upper x (to_list s.tree_start) r → Found s upper x r
      go (nothing none') =
          missing (λ q free. All-count (λ z. ¬ Side upper x z) q (to_list s.tree_start) none' free)
      go (nearest {y} has side rest) = hit (count-Has y (to_list s.tree_start) has) side (λ q free.
          All-count (λ z. (¬ Side upper x z) ⊎ Side upper y z) q (to_list s.tree_start) rest free)

  -- A free range below the bound is the nearest one, or ends before it.
  pub nearest_below :
      (s : Space C) (x p q : RangePair)
      → IsSpace s
      → 0 < times s p
      → 0 < times s q
      → (¬ Side true x q) ⊎ Side true p q
      → Side true x q
      → (q ≡ p) ⊎ (q.x + q.y < p.x)
  nearest_below s x p q i fp fq o below = elim (i.apart q p fq fp) [
    | inl same ↦ inl same
    | inr (inl before) ↦ inr before
    | inr (inr behind) ↦
        absurd
          (elim o [ inl out ↦ out below | inr le' ↦ let mono' = x_mono q p le' in omega arith ])
  ]

  -- A free range above the bound is the nearest one, or starts behind it.
  pub nearest_above :
      (s : Space C) (x p q : RangePair)
      → IsSpace s
      → 0 < times s p
      → 0 < times s q
      → (¬ Side false x q) ⊎ Side false p q
      → Side false x q
      → (q ≡ p) ⊎ (p.x + p.y < q.x)
  nearest_above s x p q i fp fq o above = elim (i.apart q p fq fp) [
    | inl same ↦ inl same
    | inr (inr behind) ↦ inr behind
    | inr (inl before) ↦
        absurd
          (elim o [ inl out ↦ out above | inr le' ↦ let mono' = x_mono p q le' in omega arith ])
  ]

  -- The search by length, for any block of `length` bytes.
  pub find_bound-Shortest :
      (s : Space C) (length : ℕ)
      → IsSpace s
      → Shortest s length (find_bound s.tree_length (range_pair length 0) false)
  find_bound-Shortest s length i =
      go (find_bound-IsBound s.tree_length (range_pair length 0) false i.length_sorted)
    where
      x : RangePair
      x = range_pair length 0

      above : (q : RangePair) → length ≤ q.y → le x (swap q) ≡ true
      above q h = ground arith

      go : {r : Option RangePair} → IsBound false x (to_list s.tree_length) r → Shortest s length r
      go (nothing none') = absent (λ q free. elim (lt-or-ge q.y length) [
        | inl short ↦ short
        | inr long ↦ absurd (
            All-count (λ z. ¬ Side false x z) (swap q) (to_list s.tree_length) none'
              (omega (arith, i.mirrored q)) (above q long))
      ])
      go (nearest {y} has side rest) =
          shortest {p = swap y}
            (omega (arith, count-Has y (to_list s.tree_length) has, i.mirrored (swap y)))
            (x_mono x y side)
            (λ q free long.
              elim (All-count (λ z. (¬ Side false x z) ⊎ Side false y z) (swap q)
                (to_list s.tree_length) rest (omega (arith, i.mirrored q))) [
                  | inl out ↦ absurd (out (above q long))
                  | inr le' ↦ x_mono y (swap q) le'
                ])
