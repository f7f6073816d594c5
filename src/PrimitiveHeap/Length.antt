-- ===== src/PrimitiveHeap/Length.antt =====
-- `PrimitiveHeap::findOptimalELength` finds the largest number of objects for which a chunk has room.
use cerius.Base.{
  ok, ◌^◌, refl, lt→ltb, ℕ, suc, ◌+◌, ◌-◌, ◌*◌, ◌/◌, ◌≤◌, ◌<◌, ◌≡◌, arith, Bool-cases, inl, inr,
  Returns, returns, leb, le→leb, leb→le, leb→gt, ge→ltb, lt-or-ge, subst,
}
use native.Mathlib.Nat.{le-div_iff_mul-le, div-mul-le_self}
use cerius.PrimitiveHeap.{chunk_bytes, int, int_bytes, find_optimal_e_length}

-- `n` objects fit into the chunk, and no larger number does.
pub record IsLargest (chunk_size padding_size object_size n : ℕ) : Type 0 where
  pub fits : chunk_bytes padding_size object_size n ≤ chunk_size
  pub largest : (m : ℕ) → chunk_bytes padding_size object_size m ≤ chunk_size → m ≤ n

int-small : (x : ℕ) → x < 2 ^ 31 → int x ≡ ok x
int-small x h = rw (lt→ltb x (2 ^ 31) h) refl

int_bytes-small :
    (p s n : ℕ)
    → n + 63 < 2 ^ 31
    → chunk_bytes p s n < 2 ^ 31
    → int_bytes p s n ≡ ok (chunk_bytes p s n)
int_bytes-small p s n rounded all =
    rw (lt→ltb (n + 63) (2 ^ 31) rounded, lt→ltb (chunk_bytes p s n) (2 ^ 31) all) refl

-- The quotient in `findOptimalELength` is a bound, from `x / 64 ≤ ceil(x / 64)`.
quotient_bounds : (room s m : ℕ) → m * s + (m + 63) / 64 * 8 ≤ room → m ≤ 8 * room / (8 * s + 1)
quotient_bounds room s m fits =
    (le-div_iff_mul-le {k = 8 * s + 1} {x = m} {y = 8 * room} (omega arith)).1 (omega arith)

-- The number below the quotient fits, if objects have at least 8 bytes.
below_fits :
    (room s q : ℕ) → 8 ≤ s → suc q * (8 * s + 1) ≤ 8 * room → q * s + (q + 63) / 64 * 8 ≤ room
below_fits room s q big h = omega arith

module _ (c p s q : ℕ) (bound : (m : ℕ) → chunk_bytes p s m ≤ c → m ≤ q)
    (full : c < chunk_bytes p s q) where
  -- Where the bound itself does not fit, a smaller number is the largest if it fits.
  one_less-IsLargest : (k : ℕ) → q ≡ suc k → chunk_bytes p s k ≤ c → IsLargest c p s k
  one_less-IsLargest k e fits = record {
    fits = fits;
    largest = λ m h. elim (lt-or-ge m q) [
      | inl below ↦ omega arith
      | inr top ↦
          let same : m ≡ q = omega (arith, bound m h) in
          absurd (omega (arith, subst (λ n. chunk_bytes p s n ≤ c) same h))
    ];
  }

-- For a chunk of less than 2 ^ 28 bytes, with room for one object of at least 8 bytes and its bitmap,
-- no `int` overflows and no assertion fails, and the result is the largest number of objects that
-- fit.
pub find_optimal_e_length-IsLargest :
    (chunk_size padding_size object_size : ℕ)
    → chunk_size < 2 ^ 28
    → 8 ≤ object_size
    → chunk_bytes padding_size object_size 1 ≤ chunk_size
    → Returns
        (IsLargest chunk_size padding_size object_size)
        (find_optimal_e_length chunk_size padding_size object_size)
unfolding find_optimal_e_length
find_optimal_e_length-IsLargest c p s small big one' =
    let room = c - (24 + p) in
    let q = 8 * room / (8 * s + 1) in
    let bound : (m : ℕ) → chunk_bytes p s m ≤ c → m ≤ q =
      λ m fits. quotient_bounds room s m (omega arith) in
    let quotient = div-mul-le_self (8 * room) (8 * s + 1) in
    let bits : int (8 * room) ≡ ok (8 * room) = int-small (8 * room) (omega arith) in
    let unit : int (8 * s + 1) ≡ ok (8 * s + 1) = int-small (8 * s + 1) (omega arith) in
    let all : int_bytes p s q ≡ ok (chunk_bytes p s q) =
      int_bytes-small p s q (omega arith) (omega arith) in
    rw (ge→ltb c (24 + p) (omega arith), bits, unit, all)
      (elim (Bool-cases (leb (chunk_bytes p s q) c)) [
        | inl fits ↦
            rw fits (returns (record { fits = leb→le (chunk_bytes p s q) c fits; largest = bound }))
        | inr full ↦
            let some' : 1 ≤ q = bound 1 one' in
            let k = q - 1 in
            let top : q ≡ suc k = omega arith in
            let fits : chunk_bytes p s k ≤ c =
              omega (arith, below_fits room s k big (rw top at quotient)) in
            let less' = int_bytes-small p s k (omega arith) (omega arith) in
            rw (full, ge→ltb q 1 some', less', le→leb (chunk_bytes p s k) c fits)
              (returns
                (one_less-IsLargest c p s q bound (leb→gt (chunk_bytes p s q) c full) k top fits))
      ])
