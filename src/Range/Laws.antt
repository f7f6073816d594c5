-- ===== src/Range/Laws.antt =====
-- The comparison operators of `RangePair` are one total order, and `==` is equality.
use cerius.Base.{◌≤◌, ◌≡◌, true, arith}
use cerius.Order.{IsLawful, Ordered}
use cerius.Range.{RangePair, lt, le, eq}

-- `<`, `<=` and `==` of range pairs belong to one total preorder: `<=` is total and transitive,
-- `a < b` holds where `b <= a` does not, and `==` where both are at most the other.
pub range-IsLawful : IsLawful lt le eq
range-IsLawful = record {
  le_total = λ a b. ground arith;
  le_trans = λ a b c. ground arith;
  lt-not-le = λ a b. ground arith;
  eq-le = λ a b. ground arith;
}

instance abbrev pub range_ordered : Ordered RangePair
range_ordered = record { lt = lt; le = le; eq = eq; lawful = range-IsLawful }

-- Range pairs that compare equal are the same pair.
pub eq→≡ : (a b : RangePair) → eq a b ≡ true → a ≡ b
eq→≡ a b h = ground arith

pub x_mono : (p o : RangePair) → le p o ≡ true → p.x ≤ o.x
x_mono p o h = ground arith
