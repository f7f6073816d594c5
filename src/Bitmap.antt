-- ===== src/Bitmap.antt =====
-- bootloader/memory/PrimitiveHeap/BitmapHelper: the lowest bit that is set in a 64-bit word.
pub mod Lowest
use cerius.Base.{
  ℕ, zero, suc, ◌+◌, ◌-◌, ◌/◌, ◌^◌, Bool, List, [], ◌∷◌, Result, ok, fault, Fault, kassert, ◌>>=◌,
  ◌>>◌, ◌==◌, if◌then◌else◌, not, sub64, bit_and,
}

-- `leastSignificantSetBitOf`: `-x` wraps around
unfoldable pub lowest_set_bit : ℕ → ℕ
lowest_set_bit x = bit_and x (sub64 0 x)

-- `isPowerOfTwo`
pub is_power_of_two : ℕ → Result Bool
unfolding lowest_set_bit
is_power_of_two x = do kassert (not (x == 0)); ok (x == lowest_set_bit x)

-- `a[i]` of an array that is only read
abbrev pub array_get {ℓ} : {A : Type ℓ} → List A → ℕ → Result A
array_get [] i = fault Fault.out_of_bounds
array_get (x ∷ xs) zero = ok x
array_get (x ∷ xs) (suc i) = array_get xs i

abbrev zeros : ℕ → List ℕ → List ℕ
zeros zero l = l
zeros (suc n) l = 0 ∷ zeros n l

abbrev bytelog : List ℕ
bytelog =
    0 ∷ 0 ∷ 1 ∷ 0 ∷ 2 ∷ zeros 3 (3 ∷ zeros 7 (4 ∷ zeros 15 (5 ∷ zeros 31 (6 ∷ zeros 63 (7 ∷ [])))))

-- `if ((x & ones) == 0) { res += width; x >>= width; }`
abbrev skip_zeros : (width : ℕ) → ℕ × ℕ → ℕ × ℕ
skip_zeros width (x, res) =
    if bit_and x (2 ^ width - 1) == 0 then (x / 2 ^ width, res + width) else (x, res)

-- `binarylog`
pub binarylog : ℕ → Result ℕ
unfolding is_power_of_two
binarylog x = do
  power ← is_power_of_two x
  kassert power
  let (byte, res) = skip_zeros 8 (skip_zeros 16 (skip_zeros 32 (x, 0)))
  log ← array_get bytelog byte
  ok (log + res)
