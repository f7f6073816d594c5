-- ===== src/Pci/Listed.antt =====
-- The lists that the enumeration of `PciDevice::EnumerateDevices` fills its array with.
use cerius.Base.{
  ℕ, ◌-◌, ◌≤◌, ◌<◌, ◌≡◌, arith, true, false, inl, inr, List, [], ◌++◌, length, length-append, All,
  All-append, ◌⊎◌, ltb→ge, ltb,
}
use cerius.Pci.Reach.{IsIn, IsIn-left, IsIn-right}
use cerius.Pci.{PciDevice, is_present, is_bridge}

-- The places that a configuration address tells apart: 256 buses of 32 slots of 8 functions.
pub record IsAddress (d : PciDevice) : Type 0 where
  pub bus : d.bus < 256
  pub slot : d.slot < 32
  pub function : d.function < 8

module _ (config : ℕ → ℕ) where
  -- A function that answers and is not a bridge
  abbrev pub IsEnd : PciDevice → Type 0
  IsEnd d = IsAddress d × (is_present config d ≡ true) × (is_bridge config d ≡ false)

  -- At most `max_length` devices, each of which answers and is not a bridge; while there is room, none
  -- of those that are to be found is missing.
  pub record Listed (max_length : ℕ) (IsSought : PciDevice → Type 0) (l : List PciDevice)
      : Type 0 where
    pub bound : length l ≤ max_length
    pub devices : All IsEnd l
    pub all : length l < max_length → (e : PciDevice) → IsSought e → IsIn e l

  pub Listed-none :
      (max_length : ℕ) (S : PciDevice → Type 0) → ((e : PciDevice) → ¬ S e) → Listed max_length S []
  Listed-none max_length S none' = record {
    bound = omega arith;
    devices = tt;
    all = λ room e s. absurd (none' e s);
  }

  pub Listed-full :
      (max_length : ℕ) (S : PciDevice → Type 0) → ltb 0 max_length ≡ false → Listed max_length S []
  Listed-full max_length S full = record {
    bound = omega arith;
    devices = tt;
    all = λ room e s. absurd (omega (arith, ltb→ge 0 max_length full));
  }

  pub Listed-imp :
      (max_length : ℕ) (S T : PciDevice → Type 0) (l : List PciDevice)
      → ((e : PciDevice) → T e → S e)
      → Listed max_length S l
      → Listed max_length T l
  Listed-imp max_length S T l imp h = record {
    bound = h.bound;
    devices = h.devices;
    all = λ room e t. h.all room e (imp e t);
  }

  pub Listed-append :
      (max_length : ℕ) (S T U : PciDevice → Type 0) (here rest : List PciDevice)
      → ((e : PciDevice) → U e → S e ⊎ T e)
      → Listed max_length S here
      → Listed (max_length - length here) T rest
      → Listed max_length U (here ++ rest)
  Listed-append max_length S T U here rest split h r = record {
    bound = omega (arith, length-append here rest, h.bound, r.bound);
    devices = All-append _ here rest h.devices r.devices;
    all = λ room e u.
        let sum = length-append here rest in
        elim (split e u) [
          | inl s ↦ IsIn-left e here rest (h.all (omega (arith, sum)) e s)
          | inr t ↦ IsIn-right e here rest (r.all (omega (arith, sum)) e t)
        ];
  }
