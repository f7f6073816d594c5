-- ===== src/Initializer.antt =====
-- bootloader/memory/Initializer: `PartitionRange`, which is to pass the parts of a range outside of
-- the forbidden ranges to a callback, and the page bounds of a range of the memory map.
pub mod Faults
use cerius.Base.{
  ℕ, ◌+◌, ◌-◌, ◌%◌, Bool, true, false, List, [], ◌∷◌, Result, ok, fault, Fault, ◌>>=◌, ltb, leb,
  ◌==◌, if◌then◌else◌, max, min, add64, sub64, Option, none, some,
}

pub record MmiRange : Type 0 where
  pub s : ℕ
  pub e : ℕ

module _ {ℓ} {S : Type ℓ} (callback : MmiRange → S → Result S) where
  -- `PartitionRange` on the forbidden ranges from `forbids[i]` on, and the state that the callback
  -- changes. Where `i == lenForbids` the function goes on after the callback and reads `forbids[i]`.
  pub partition_range : List MmiRange → MmiRange → S → Result S
  partition_range [] range state = do state' ← callback range state; fault Fault.out_of_bounds
  partition_range (forbid ∷ forbids) range state =
      let before =
        partition_range forbids (record { s = range.s; e = min range.e forbid.s }) state in
      do
        state' ← if ltb range.s forbid.s then before else ok state
        let behind =
            partition_range forbids (record { s = max range.s forbid.e; e = range.e }) state'
        if ltb forbid.e range.e then behind else ok state'

-- The bounds in whole pages of a range of the memory map, as `Initialize` computes them; `none`
-- where the range is left out.
unfoldable pub page_bounds : (base size : ℕ) → Option MmiRange
page_bounds base size =
    let end = add64 base size in
    let base' = if base % 4096 == 0 then base else add64 base (sub64 base (base % 4096)) in
    let end' = sub64 end (end % 4096) in
    if leb end' base' then none else some (record { s = base'; e = end' })
