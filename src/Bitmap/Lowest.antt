-- ===== src/Bitmap/Lowest.antt =====
-- The lowest set bit of a word, by arithmetic.
use cerius.Base.{
  ℕ, zero, suc, ◌+◌, ◌-◌, ◌*◌, ◌/◌, ◌%◌, ◌^◌, ◌≤◌, ◌<◌, ◌≡◌, ◌≢◌, ap, subst, inl, inr, refl, ok,
  fault, Bool, true, false, arith, bit_and, bit_and_halves, bit_and-zero, bit_and_ones, ◌==◌,
  if◌then◌else◌, Bool-cases, ==→≡, ==→≢, sub64, ◌&&◌, Result, lt-or-ge,
}
use cerius.Bitmap.{lowest_set_bit, binarylog}

-- The number of zeros below the lowest one, among `n` digits.
pub lowest : (n x : ℕ) → ℕ
lowest zero x = 0
lowest (suc n) x = let above = lowest n (x / 2) in if x % 2 == 1 then 0 else suc above

-- No digit is set both in a number and in its complement.
bit_and_complement : (n x : ℕ) → x < 2 ^ n → bit_and x (2 ^ n - 1 - x) ≡ 0
bit_and_complement zero zero h = bit_and-zero 0
bit_and_complement zero (suc x) h = absurd (omega arith)
bit_and_complement (suc n) x h = omega (
  arith,
  bit_and_halves x (2 ^ suc n - 1 - x) (x / 2) (2 ^ n - 1 - x / 2) refl (omega arith),
  bit_and_complement n (x / 2) (omega arith),
)

-- Digit `k` is the lowest one of `x` among `n` digits, `x & -x` is its power, and `x & ~power` is
-- `x` without it.
pub record IsLowest (n x k : ℕ) : Type 0 where
  pub below : k < n
  pub odd : (m : ℕ) × (x ≡ 2 ^ k * (2 * m + 1))
  pub power : bit_and x (2 ^ n - x) ≡ 2 ^ k
  pub within : 2 ^ k ≤ x
  pub rest : bit_and x (2 ^ n - 1 - 2 ^ k) ≡ x - 2 ^ k

IsLowest-odd : (n x : ℕ) → x % 2 ≡ 1 → x < 2 ^ suc n → IsLowest (suc n) x 0
IsLowest-odd n x o h = record {
  below = omega arith;
  odd = (x / 2, omega arith);
  power = omega (
    arith,
    bit_and_halves x (2 ^ suc n - x) (x / 2) (2 ^ n - 1 - x / 2) refl (omega arith),
    bit_and_complement n (x / 2) (omega arith),
  );
  within = omega arith;
  rest = omega (
    arith,
    bit_and_halves x (2 ^ suc n - 1 - 2 ^ 0) (x / 2) (2 ^ n - 1) refl (omega arith),
    bit_and_ones n (x / 2) (omega arith),
  );
}

double_odd : (x p m : ℕ) → x ≡ 2 * (x / 2) → x / 2 ≡ p * (2 * m + 1) → x ≡ 2 * p * (2 * m + 1)
double_odd x p m even half = omega (arith, even, half)

IsLowest-even :
    (n x k : ℕ) → x % 2 ≢ 1 → x < 2 ^ suc n → IsLowest n (x / 2) k → IsLowest (suc n) x (suc k)
IsLowest-even n x k e h r =
    let twice : 2 ^ suc k ≡ 2 * 2 ^ k = omega arith in
    record {
      below = omega (arith, r.below);
      odd = (r.odd.0, rw twice (double_odd x (2 ^ k) r.odd.0 (omega arith) r.odd.1));
      power = omega (
        arith,
        bit_and_halves x (2 ^ suc n - x) (x / 2) (2 ^ n - x / 2) refl (omega arith),
        r.power,
      );
      within = omega (arith, r.within);
      rest = omega (
        arith,
        bit_and_halves x (2 ^ suc n - 1 - 2 ^ suc k) (x / 2) (2 ^ n - 1 - 2 ^ k) refl
            (omega (arith, r.within)),
        r.rest,
        r.within,
      );
    }

pub lowest-IsLowest : (n x : ℕ) → 0 < x → x < 2 ^ n → IsLowest n x (lowest n x)
unfolding lowest
lowest-IsLowest zero x pos h = absurd (omega arith)
lowest-IsLowest (suc n) x pos h = elim (Bool-cases (x % 2 == 1)) [
  | inl odd ↦ rw odd (IsLowest-odd n x (==→≡ (x % 2) 1 odd) h)
  | inr even ↦
      let e = ==→≢ (x % 2) 1 even in
      rw even (
        IsLowest-even n x (lowest n (x / 2)) e h
          (lowest-IsLowest n (x / 2) (omega arith) (omega arith)))
]

IsLog : (r : Result ℕ) (k : ℕ) → elim r [ ok a ↦ a == k | fault e ↦ false ] ≡ true → r ≡ ok k
IsLog (ok a) k h = ap ok (==→≡ a k h)
IsLog (fault e) k h = absurd (ground arith)

is_log : ℕ → Bool
is_log k = elim (binarylog (2 ^ k)) [ ok a ↦ a == k | fault e ↦ false ]

is_log-binarylog : (k : ℕ) → is_log k ≡ true → binarylog (2 ^ k) ≡ ok k
unfolding is_log
is_log-binarylog k h = IsLog (binarylog (2 ^ k)) k h

and-true : (a b : Bool) → (a && b) ≡ true → (a ≡ true) × (b ≡ true)
and-true a b h = ground arith

-- `binarylog` on the powers of two below `2 ^ n`, by evaluation.
logs : ℕ → Bool
logs zero = true
logs (suc n) = logs n && is_log n

logs-64 : logs 64 ≡ true
unfolding logs is_log binarylog lowest_set_bit
logs-64 = refl

logs-binarylog : (n k : ℕ) → logs n ≡ true → k < n → binarylog (2 ^ k) ≡ ok k
unfolding logs
logs-binarylog zero k h less = absurd (omega arith)
logs-binarylog (suc n) k h less =
    let parts = and-true (logs n) (is_log n) h in
    elim (lt-or-ge k n) [
      | inl lower ↦ logs-binarylog n k parts.0 lower
      | inr last ↦
          let same : n ≡ k = omega arith in
          subst (λ j. binarylog (2 ^ j) ≡ ok j) same (is_log-binarylog n parts.1)
    ]

-- For a word that is not 0, `leastSignificantSetBitOf` is the power of two whose exponent is the
-- number of zeros below the lowest one, and `binarylog` of it is that number.
pub binarylog-lowest :
    (x : ℕ)
    → 0 < x
    → x < 2 ^ 64
    → IsLowest 64 x (lowest 64 x)
      × (lowest_set_bit x ≡ 2 ^ lowest 64 x)
      × (binarylog (lowest_set_bit x) ≡ ok (lowest 64 x))
unfolding lowest_set_bit
binarylog-lowest x pos h =
    let r = lowest-IsLowest 64 x pos h in
    let power : bit_and x (sub64 0 x) ≡ 2 ^ lowest 64 x =
      let e : sub64 0 x ≡ 2 ^ 64 - x = omega arith in rw e r.power in
    (r, power, rw power (logs-binarylog 64 (lowest 64 x) logs-64 r.below))
