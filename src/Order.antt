-- ===== src/Order.antt =====
-- What `AvlEntry<T>` asks of its element type: the three comparison operators, and the laws by
-- which they are one total preorder (`==` may identify elements that differ, as it does for
-- `HeapObject` and `SizePHPair`, which compare by one field).
pub mod Sorted
use cerius.Base.{◌≡◌, Bool, true, false, ◌&&◌, not, List, [], ◌∷◌, All}

pub record IsLawful {ℓ} {T : Type ℓ} (lt le eq : T → T → Bool) : Type ℓ where
  pub le_total : (a b : T) → le a b ≡ false → le b a ≡ true
  pub le_trans : (a b c : T) → le a b ≡ true → le b c ≡ true → le a c ≡ true
  pub lt-not-le : (a b : T) → lt a b ≡ not (le b a)
  pub eq-le : (a b : T) → eq a b ≡ (le a b && le b a)

pub record Ordered {ℓ} (T : Type ℓ) : Type ℓ where
  pub lt : T → T → Bool
  pub le : T → T → Bool
  pub eq : T → T → Bool
  pub lawful : IsLawful lt le eq
  pub open lawful use *

module _ {ℓ} {T : Type ℓ} ⦃o : Ordered T⦄ where
  infix 50 ◌≼◌ ◌≺◌ ◌≈◌
  abbrev pub ◌≼◌ : T → T → Type 0
  a ≼ b = o.le a b ≡ true

  abbrev pub ◌≺◌ : T → T → Type 0
  a ≺ b = o.lt a b ≡ true

  abbrev pub ◌≈◌ : T → T → Type 0
  a ≈ b = o.eq a b ≡ true

  -- Every element is at most each of those behind it.
  abbrev pub IsSorted : List T → Type ℓ
  IsSorted [] = Unit
  IsSorted (x ∷ xs) = All (λ y. x ≼ y) xs × IsSorted xs
