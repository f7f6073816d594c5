-- ===== src/Base/Bits.antt =====
-- `bit_and` and `bit_or` by the lowest digit, with a mask of ones and of numbers that share no digit.
use Prim.Native.Nat.{
  ℕ, zero, suc, ◌+◌, ◌-◌, ◌*◌, ◌/◌, ◌%◌, ◌^◌, ◌≤◌, ◌<◌, min, max, bit_and, bit_or, digits,
  bit_and-bitwise, bit_or-bitwise,
}
use mathlib.Core.Path.{◌≡◌, refl, sym, ap, ◌∙◌}
use native.Mathlib.Nat.{pow-suc, pow-succ', mul_assoc, div-div-eq-div-mul}
use native.Mathlib.Omega.{arith}

-- A count of digits that is large enough gives the same digits as any other.
enough_digits :
    (n m a b : ℕ) → a ≤ n → a ≤ m → digits (λ b. zero) min n a b ≡ digits (λ b. zero) min m a b
enough_digits zero zero a b p q = refl
enough_digits (suc n) (suc m) zero b p q = refl
enough_digits zero (suc m) zero b p q = refl
enough_digits (suc n) zero zero b p q = refl
enough_digits zero (suc m) (suc a) b p q = absurd (omega arith)
enough_digits (suc n) zero (suc a) b p q = absurd (omega arith)
enough_digits (suc n) (suc m) (suc a) b p q =
    omega (arith, enough_digits n m (suc a / 2) (b / 2) (omega arith) (omega arith))

bit_and_low : (a b : ℕ) → bit_and a b ≡ bit_and (a / 2) (b / 2) * 2 + min (a % 2) (b % 2)
bit_and_low zero b = omega (arith, bit_and-bitwise zero b, bit_and-bitwise zero (b / 2))
bit_and_low (suc a) b =
    let rest = enough_digits a (suc a / 2) (suc a / 2) (b / 2) (omega arith) (omega arith) in
    omega (arith, bit_and-bitwise (suc a) b, bit_and-bitwise (suc a / 2) (b / 2), rest)

-- The same for numbers whose halves are known.
pub bit_and_halves :
    (a b a' b' : ℕ)
    → a / 2 ≡ a'
    → b / 2 ≡ b'
    → bit_and a b ≡ bit_and a' b' * 2 + min (a % 2) (b % 2)
bit_and_halves a b a' b' e f = rw (sym e, sym f) (bit_and_low a b)

pub bit_and-zero : (b : ℕ) → bit_and zero b ≡ 0
bit_and-zero b = bit_and-bitwise zero b

-- A mask of `n` ones keeps `n` digits.
pub bit_and_ones : (n a : ℕ) → a < 2 ^ n → bit_and a (2 ^ n - 1) ≡ a
bit_and_ones zero zero h = bit_and-zero 0
bit_and_ones zero (suc a) h = absurd (omega arith)
bit_and_ones (suc n) a h = omega (
  arith,
  bit_and_halves a (2 ^ suc n - 1) (a / 2) (2 ^ n - 1) refl (omega arith),
  bit_and_ones n (a / 2) (omega arith),
)

-- The same lemmas for `bit_or`
enough_or_digits :
    (n m a b : ℕ) → a ≤ n → a ≤ m → digits (λ b. b) max n a b ≡ digits (λ b. b) max m a b
enough_or_digits zero zero a b p q = refl
enough_or_digits (suc n) (suc m) zero b p q = refl
enough_or_digits zero (suc m) zero b p q = refl
enough_or_digits (suc n) zero zero b p q = refl
enough_or_digits zero (suc m) (suc a) b p q = absurd (omega arith)
enough_or_digits (suc n) zero (suc a) b p q = absurd (omega arith)
enough_or_digits (suc n) (suc m) (suc a) b p q =
    omega (arith, enough_or_digits n m (suc a / 2) (b / 2) (omega arith) (omega arith))

pub bit_or-zero : (b : ℕ) → bit_or zero b ≡ b
bit_or-zero b = bit_or-bitwise zero b

bit_or_low : (a b : ℕ) → bit_or a b ≡ bit_or (a / 2) (b / 2) * 2 + max (a % 2) (b % 2)
bit_or_low zero b = omega (arith, bit_or-bitwise zero b, bit_or-bitwise zero (b / 2))
bit_or_low (suc a) b =
    let rest = enough_or_digits a (suc a / 2) (suc a / 2) (b / 2) (omega arith) (omega arith) in
    omega (arith, bit_or-bitwise (suc a) b, bit_or-bitwise (suc a / 2) (b / 2), rest)

digits-none : (n a : ℕ) → a ≤ n → digits (λ b. b) max n a 0 ≡ a
digits-none zero zero h = refl
digits-none zero (suc a) h = absurd (omega arith)
digits-none (suc n) zero h = refl
digits-none (suc n) (suc a) h = omega (arith, digits-none n (suc a / 2) (omega arith))

pub bit_or-none : (a : ℕ) → bit_or a 0 ≡ a
bit_or-none a = bit_or-bitwise a 0 ∙ digits-none a a (omega arith)

-- Digits below `n` join those from `n` on by addition.
pub bit_or_join : (n a b : ℕ) → b < 2 ^ n → bit_or (a * 2 ^ n) b ≡ a * 2 ^ n + b
bit_or_join zero a b h =
    let none : b ≡ 0 = omega arith in
    let one : a * 2 ^ 0 ≡ a = omega arith in rw (none, one) (omega (arith, bit_or-none a))
bit_or_join (suc n) a b h =
    let twice : a * 2 ^ suc n ≡ a * 2 ^ n * 2 =
      ap (λ p. a * p) (pow-suc 2 n) ∙ sym (mul_assoc a (2 ^ n) 2) in
    let rest : bit_or (a * 2 ^ n) (b / 2) ≡ a * 2 ^ n + b / 2 =
      bit_or_join n a (b / 2) (omega arith) in
    let half : a * 2 ^ n * 2 / 2 ≡ a * 2 ^ n = omega arith in
    let low : bit_or (a * 2 ^ n * 2) b
        ≡ bit_or (a * 2 ^ n) (b / 2) * 2 + max (a * 2 ^ n * 2 % 2) (b % 2) =
      bit_or_low (a * 2 ^ n * 2) b ∙ rw half refl in
    rw twice (omega (arith, low, rest))

-- The same where the low digits come first
pub join_bit_or : (n a b : ℕ) → b < 2 ^ n → bit_or b (a * 2 ^ n) ≡ a * 2 ^ n + b
join_bit_or zero a b h =
    let none : b ≡ 0 = omega arith in rw none (omega (arith, bit_or-zero (a * 2 ^ 0)))
join_bit_or (suc n) a b h =
    let twice : a * 2 ^ suc n ≡ a * 2 ^ n * 2 =
      ap (λ p. a * p) (pow-suc 2 n) ∙ sym (mul_assoc a (2 ^ n) 2) in
    let rest : bit_or (b / 2) (a * 2 ^ n) ≡ a * 2 ^ n + b / 2 =
      join_bit_or n a (b / 2) (omega arith) in
    let half : a * 2 ^ n * 2 / 2 ≡ a * 2 ^ n = omega arith in
    let low : bit_or b (a * 2 ^ n * 2)
        ≡ bit_or (b / 2) (a * 2 ^ n) * 2 + max (b % 2) (a * 2 ^ n * 2 % 2) =
      bit_or_low b (a * 2 ^ n * 2) ∙ rw half refl in
    rw twice (omega (arith, low, rest))

-- The digits from the `n`th on, and the lowest
pub bit_or-div : (n a b : ℕ) → bit_or a b / 2 ^ n ≡ bit_or (a / 2 ^ n) (b / 2 ^ n)
bit_or-div zero a b =
    let one : (x : ℕ) → x / 2 ^ 0 ≡ x = λ x. omega arith in rw (one a, one b, one (bit_or a b)) refl
bit_or-div (suc n) a b =
    let halves : (x : ℕ) → x / 2 ^ suc n ≡ x / 2 / 2 ^ n =
      λ x. rw (pow-succ' 2 n) (sym (div-div-eq-div-mul x 2 (2 ^ n))) in
    let half : bit_or a b / 2 ≡ bit_or (a / 2) (b / 2) = omega (arith, bit_or_low a b) in
    rw (halves a, halves b, halves (bit_or a b), half) (bit_or-div n (a / 2) (b / 2))

pub bit_or-odd : (a b : ℕ) → bit_or a b % 2 ≡ max (a % 2) (b % 2)
bit_or-odd a b = omega (arith, bit_or_low a b)
