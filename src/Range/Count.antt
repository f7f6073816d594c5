-- ===== src/Range/Count.antt =====
-- Range pairs in a list by how often each occurs, and the list operations of the trees in these
-- terms.
use cerius.Base.{
  ℕ, ◌+◌, ◌<◌, ◌≡◌, refl, List, [], ◌∷◌, ◌++◌, arith, All, if◌then◌else◌, Bool-cases, ◌⊎◌, inl, inr,
  subst, sym,
}
use cerius.Order.Sorted.{insert}
use cerius.Range.{RangePair, range_pair, eq, le}
use cerius.Range.Laws.{range_ordered, eq→≡}
use cerius.Avl.Bound.{Has}

-- 1 if the pairs are the same, else 0.
abbrev pub one : RangePair → RangePair → ℕ
one a p = if eq a p then 1 else 0

unfoldable pub count : RangePair → List RangePair → ℕ
count a [] = 0
count a (p ∷ l) = one a p + count a l

abbrev pub swap : RangePair → RangePair
swap p = range_pair p.y p.x

pub count-append :
    (a : RangePair) (xs ys : List RangePair) → count a (xs ++ ys) ≡ count a xs + count a ys
unfolding count
count-append a [] ys = omega arith
count-append a (p ∷ xs) ys = omega (arith, count-append a xs ys)

pub count-insert :
    (a p : RangePair) (l : List RangePair) → count a (insert p l) ≡ one a p + count a l
unfolding count insert
count-insert a p [] = omega arith
count-insert a p (q ∷ l) = elim (Bool-cases (le q p)) [
  | inl b ↦ rw b (omega (arith, count-insert a p l))
  | inr b ↦ rw b (omega arith)
]

pub one_refl : (p : RangePair) → one p p ≡ 1
one_refl p = ground arith

pub count-Has : (p : RangePair) (l : List RangePair) → Has p l → 0 < count p l
unfolding count
count-Has p l (xs, ys, e) = rw e (omega (arith, count-append p xs (p ∷ ys), one_refl p))

-- What holds of all pairs of a list holds of each that occurs.
pub All-count {κ} :
    (P : RangePair → Type κ) (p : RangePair) (l : List RangePair) → All P l → 0 < count p l → P p
unfolding count
All-count P p [] a h = absurd (omega arith)
All-count P p (q ∷ l) a h = elim (Bool-cases (eq p q)) [
  | inl same ↦ subst P (sym (eq→≡ p q same)) a.0
  | inr other ↦ let h' : 0 < 0 + count p l = rw other at h in All-count P p l a.1 (omega arith)
]

-- The sum of the lengths.
unfoldable pub sum_x : List RangePair → ℕ
sum_x [] = 0
sum_x (p ∷ l) = p.x + sum_x l

pub sum_x-append : (xs ys : List RangePair) → sum_x (xs ++ ys) ≡ sum_x xs + sum_x ys
unfolding sum_x
sum_x-append [] ys = omega arith
sum_x-append (p ∷ xs) ys = omega (arith, sum_x-append xs ys)

pub sum_x-cons : (p : RangePair) (l : List RangePair) → sum_x (p ∷ l) ≡ p.x + sum_x l
unfolding sum_x
sum_x-cons p l = refl

pub sum_x-insert : (p : RangePair) (l : List RangePair) → sum_x (insert p l) ≡ p.x + sum_x l
unfolding sum_x insert
sum_x-insert p [] = omega arith
sum_x-insert p (q ∷ l) = elim (Bool-cases (le q p)) [
  | inl b ↦ rw b (omega (arith, sum_x-insert p l))
  | inr b ↦ rw b (omega arith)
]

pub count-cons : (a p : RangePair) (l : List RangePair) → count a (p ∷ l) ≡ one a p + count a l
unfolding count
count-cons a p l = refl

pub one-swap : (a p : RangePair) → one (swap a) (swap p) ≡ one a p
one-swap a p = ground arith

-- `a` is `p`, or `one` tells them apart.
pub one-cases : (a p : RangePair) → ((one a p ≡ 1) × (a ≡ p)) ⊎ (one a p ≡ 0)
one-cases a p = elim (Bool-cases (eq a p)) [
  | inl same ↦ inl (rw same, eq→≡ a p same)
  | inr other ↦ inr (rw other)
]

-- What holds of each pair that occurs holds of all.
pub count-All {κ} :
    (P : RangePair → Type κ) (l : List RangePair)
    → ((p : RangePair) → 0 < count p l → P p)
    → All P l
unfolding count
count-All P [] h = tt
count-All P (p ∷ l) h =
    (h p (omega (arith, one_refl p)), count-All P l (λ q free. h q (omega arith)))
