-- ===== src/Pci.antt =====
-- bootloader/drivers/pci: the enumeration of the devices on the PCI buses.
-- `config` is the machine's configuration space: the double word that port 0xCFC gives after an
-- address has been written to port 0xCF8. `x & 0xFF` is written `x % 2 ^ 8`. What the functions
-- write to `array` is the list they return; the count that they return is its length.
pub mod Bound
pub mod Listed
pub mod Reach
use cerius.Base.{
  ℕ, zero, suc, ◌+◌, ◌-◌, ◌*◌, ◌/◌, ◌%◌, ◌^◌, Bool, true, false, ◌&&◌, List, [], ◌∷◌, ◌++◌, length,
  Result, ok, fault, Fault, ◌>>=◌, ltb, ◌==◌, if◌then◌else◌, not, bit_and, bit_or,
}

-- The place of a device: each field is a `BYTE` of the source.
pub record PciDevice : Type 0 where
  pub bus : ℕ
  pub slot : ℕ
  pub function : ℕ

-- The address of a register of a device
abbrev pub config_address : PciDevice → (reg : ℕ) → ℕ
config_address d reg =
    bit_or
      (bit_or (bit_or (bit_or (d.bus * 2 ^ 16) (d.slot * 2 ^ 11)) (d.function * 2 ^ 8))
        (reg * 2 ^ 2))
      0x80000000

module _ (config : ℕ → ℕ) where
  -- `ConfigReadDword`
  unfoldable pub config_read_dword : PciDevice → (reg : ℕ) → ℕ
  config_read_dword d reg = if ltb 15 reg then 0 else config (config_address d reg)

  -- `GetVendorID`, `GetBaseClass`, `GetHeaderType`, `GetSubClass` and `GetSecondaryBus`
  unfoldable pub get_vendor_id : PciDevice → ℕ
  get_vendor_id d = config_read_dword d 0 % 2 ^ 16

  unfoldable pub get_base_class : PciDevice → ℕ
  get_base_class d = config_read_dword d 2 / 2 ^ 24 % 2 ^ 8

  unfoldable pub get_header_type : PciDevice → ℕ
  get_header_type d = config_read_dword d 3 / 2 ^ 16 % 2 ^ 8

  unfoldable pub get_sub_class : PciDevice → ℕ
  get_sub_class d = config_read_dword d 2 / 2 ^ 16 % 2 ^ 8

  unfoldable pub get_secondary_bus : PciDevice → ℕ
  get_secondary_bus d = config_read_dword d 6 / 2 ^ 8 % 2 ^ 8

  -- `GetBar`
  pub get_bar : PciDevice → (bar : ℕ) → ℕ
  get_bar d bar = if ltb 5 bar then 0 else config_read_dword d (bar + 4)

  -- `GetVendorID() != 0xFFFF`
  abbrev pub is_present : PciDevice → Bool
  is_present d = not (get_vendor_id d == 0xffff)

  -- `(baseClass == 0x06) && (subClass == 0x04)`
  abbrev pub is_bridge : PciDevice → Bool
  is_bridge d = (get_base_class d == 0x06) && (get_sub_class d == 0x04)

  -- `(headerType & 0x80) != 0`
  abbrev pub is_multi_function : PciDevice → Bool
  is_multi_function d = not (bit_and (get_header_type d) 0x80 == 0)

  module _ (check_secondary : (bus max_length : ℕ) → Result (List PciDevice)) where
    -- `CheckFunction`, whose call of `CheckBus` is `check_secondary`
    pub check_function : PciDevice → (max_length : ℕ) → Result (List PciDevice)
    check_function d max_length =
        if is_bridge d then check_secondary (get_secondary_bus d) max_length else ok (d ∷ [])

    -- The loop of `CheckDevice` over the functions, with the rounds left
    pub check_functions : (rounds : ℕ) → PciDevice → (max_length : ℕ) → Result (List PciDevice)
    unfolding check_function
    check_functions zero d max_length = ok []
    check_functions (suc rounds) d max_length =
        let next : PciDevice = record d { function = d.function + 1 } in
        let absent = check_functions rounds next max_length in
        let present = (do
          here ← check_function d max_length
          rest ← check_functions rounds next (max_length - length here)
          ok (here ++ rest)) in
        if ltb 0 max_length then (if is_present d then present else absent) else ok []

    -- `CheckDevice`
    pub check_device : (bus slot max_length : ℕ) → Result (List PciDevice)
    unfolding check_function
    check_device bus slot max_length =
        let d : PciDevice = record { bus = bus; slot = slot; function = 0 } in
        let present = (do
          here ← check_function d max_length
          rest ←
              if is_multi_function d
              then check_functions 7 (record d { function = 1 }) (max_length - length here)
              else ok []
          ok (here ++ rest)) in
        if is_present d then present else ok []

    -- The loop of `CheckBus` over the devices, with the rounds left
    pub check_devices : (rounds bus device max_length : ℕ) → Result (List PciDevice)
    check_devices zero bus device max_length = ok []
    check_devices (suc rounds) bus device max_length =
        let looked = (do
          here ← check_device bus device max_length
          rest ← check_devices rounds bus (device + 1) (max_length - length here)
          ok (here ++ rest)) in
        if ltb 0 max_length then looked else ok []

  -- `CheckBus`, with a bound on how deep the bridges are nested
  pub check_bus : (depth bus max_length : ℕ) → Result (List PciDevice)
  check_bus zero bus max_length = fault Fault.out_of_fuel
  check_bus (suc depth) bus max_length = check_devices (check_bus depth) 32 bus 0 max_length

  -- The loop of `EnumerateDevices` over the host controllers, with the rounds left
  pub check_hosts : (rounds function max_length : ℕ) → Result (List PciDevice)
  check_hosts zero function max_length = ok []
  check_hosts (suc rounds) function max_length =
      let looked = (do
        here ← check_bus 256 function max_length
        rest ← check_hosts rounds (function + 1) (max_length - length here)
        ok (here ++ rest)) in
      let d : PciDevice = record { bus = 0; slot = 0; function = function } in
      if ltb 0 max_length then (if is_present d then looked else ok []) else ok []

  -- `EnumerateDevices`
  pub enumerate_devices : (max_length : ℕ) → Result (List PciDevice)
  enumerate_devices max_length =
      if is_multi_function (record { bus = 0; slot = 0; function = 0 })
      then check_hosts 8 0 max_length
      else check_bus 256 0 max_length
