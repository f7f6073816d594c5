-- ===== src/Examples/Buses.antt =====
-- A machine for bootloader/drivers/pci: function 0 of slot 0 of bus 0 is a bridge to bus 1, and every
-- other function answers as an IDE controller.
use cerius.Base.{
  ℕ, ◌+◌, ◌*◌, ◌/◌, ◌%◌, ◌^◌, ◌<◌, ◌≡◌, ◌∙◌, refl, true, false, Bool-cases, inl, inr, ◌==◌, ==→≡,
  if◌then◌else◌, Returns, arith, bit_or, sym, bit_or_join, join_bit_or,
}
use cerius.Pci.{
  PciDevice, config_address, get_vendor_id, get_header_type, config_read_dword, get_base_class,
  get_sub_class, get_secondary_bus, is_bridge, enumerate_devices,
}
use cerius.Pci.Reach.{IsReached, OnBus}
use cerius.Pci.Bound.{enumerate_devices-Listed}
use cerius.Pci.Listed.{IsAddress, Listed}

-- What the bridge answers in its registers 2 and 6: its class, and its secondary bus
abbrev bridge_registers : ℕ → ℕ
bridge_registers low = if low == 8 then 0x06040000 else if low == 24 then 0x100 else 0

abbrev pub bridged : ℕ → ℕ
bridged address =
    if address / 2 ^ 8 % 2 ^ 16 == 0 then bridge_registers (address % 2 ^ 8) else 0x01010101

config_address-sum :
    (d : PciDevice) (reg : ℕ)
    → IsAddress d
    → reg < 16
    → config_address d reg
      ≡ 1 * 2 ^ 31 + (((d.bus * 32 + d.slot) * 8 + d.function) * 2 ^ 8 + reg * 2 ^ 2)
config_address-sum d reg at few =
    let slots : bit_or (d.bus * 2 ^ 16) (d.slot * 2 ^ 11) ≡ (d.bus * 32 + d.slot) * 2 ^ 11 =
      bit_or_join 16 d.bus (d.slot * 2 ^ 11) (omega (arith, at.slot)) ∙ omega arith in
    let functions : bit_or ((d.bus * 32 + d.slot) * 2 ^ 11) (d.function * 2 ^ 8)
        ≡ ((d.bus * 32 + d.slot) * 8 + d.function) * 2 ^ 8 =
      bit_or_join 11 (d.bus * 32 + d.slot) (d.function * 2 ^ 8) (omega (arith, at.function))
      ∙ omega arith in
    let registers =
      bit_or_join 8 ((d.bus * 32 + d.slot) * 8 + d.function) (reg * 2 ^ 2) (omega arith) in
    rw (slots, functions, registers)
      (join_bit_or 31 1 (((d.bus * 32 + d.slot) * 8 + d.function) * 2 ^ 8 + reg * 2 ^ 2)
        (omega (arith, at.bus, at.slot, at.function)))

-- A register of a function of the machine
bridged-register :
    (d : PciDevice) (reg : ℕ)
    → IsAddress d
    → reg < 16
    → bridged (config_address d reg) ≡ (
        if (d.bus * 32 + d.slot) * 8 + d.function == 0
        then bridge_registers (reg * 2 ^ 2)
        else 0x01010101)
bridged-register d reg at few =
    let place : (1 * 2 ^ 31 + (((d.bus * 32 + d.slot) * 8 + d.function) * 2 ^ 8 + reg * 2 ^ 2))
          / 2 ^ 8
          % 2 ^ 16
        ≡ (d.bus * 32 + d.slot) * 8 + d.function =
      omega (arith, at.bus, at.slot, at.function) in
    let low : (1 * 2 ^ 31 + (((d.bus * 32 + d.slot) * 8 + d.function) * 2 ^ 8 + reg * 2 ^ 2))
          % 2 ^ 8
        ≡ reg * 2 ^ 2 =
      omega arith in
    rw (config_address-sum d reg at few, place, low) refl

pub bridged-bridges :
    (d : PciDevice) → IsAddress d → is_bridge bridged d ≡ true → d.bus < get_secondary_bus bridged d
unfolding get_base_class get_sub_class get_secondary_bus config_read_dword
bridged-bridges d at h = elim (Bool-cases ((d.bus * 32 + d.slot) * 8 + d.function == 0)) [
  | inl first ↦
      let zero' = ==→≡ _ _ first in
      rw (bridged-register d 6 at (omega arith), first) (omega (arith, zero'))
  | inr other ↦
      let no : is_bridge bridged d ≡ false =
        rw (bridged-register d 2 at (omega arith), other) refl in
      absurd (cc (sym h ∙ no))
]

-- A function behind the bridge is to be found.
behind_bridge : IsReached bridged (record { bus = 1; slot = 0; function = 0 })
unfolding OnBus get_vendor_id get_header_type get_base_class get_sub_class get_secondary_bus
    config_read_dword
behind_bridge = inr (
  refl,
  (0, omega arith, (refl, inl (inr (refl, (0, omega arith, (refl, inl (inl (refl, refl)))))))),
)

enumerate_example : Returns (Listed bridged 40 (IsReached bridged)) (enumerate_devices bridged 40)
enumerate_example = enumerate_devices-Listed bridged bridged-bridges 40
