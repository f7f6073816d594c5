-- ===== src/Range.antt =====
-- bootloader/common/RangePair: a pair of a start and a length, in one order or the other, and its
-- comparison operators.
pub mod Laws
pub mod Count
use cerius.Base.{ℕ, Bool, ltb, leb, ◌==◌, ◌&&◌, not, if◌then◌else◌}

pub record RangePair : Type 0 where
  pub x : ℕ
  pub y : ℕ

abbrev pub range_pair : ℕ → ℕ → RangePair
range_pair a b = record { x = a; y = b }

-- `operator<`
abbrev pub lt : RangePair → RangePair → Bool
lt p o = if not (p.x == o.x) then ltb p.x o.x else ltb p.y o.y

-- `operator<=`
abbrev pub le : RangePair → RangePair → Bool
le p o = if not (p.x == o.x) then ltb p.x o.x else leb p.y o.y

-- `operator==`
abbrev pub eq : RangePair → RangePair → Bool
eq p o = (p.x == o.x) && (p.y == o.y)
