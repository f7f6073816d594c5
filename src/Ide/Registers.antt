-- ===== src/Ide/Registers.antt =====
-- What a disk reads in its registers after the writes of a round of `IdeDisk::Read`.
use cerius.Base.{
  ℕ, ◌+◌, ◌-◌, ◌*◌, ◌/◌, ◌%◌, ◌^◌, ◌≤◌, ◌<◌, ◌≡◌, refl, arith, Bool, true, false, List, [], ◌∷◌,
  ◌==◌, if◌then◌else◌, bit_or, bit_or-none, bit_or_join,
}
use cerius.Ide.{
  IdeDisk, command28, command48, device_bit, reg_sec_count0, reg_lba0, reg_lba1, reg_lba2,
  reg_hd_dev_sel, reg_command,
}

-- A register of the disk is a queue of two bytes: the last byte written, and the one before.
abbrev pub Register : Type 0
Register = ℕ × ℕ

abbrev pub push : (value : ℕ) → Register → Register
push value r = (value, r.0)

abbrev pub register : (reg : ℕ) → List (ℕ × ℕ) → Register → Register
register reg [] r = r
register reg (w ∷ writes) r = register reg writes (if w.0 == reg then push w.1 r else r)

-- What a command asks for, by the definition of the registers in the ATA standard: with 28-bit
-- addresses the highest four bits stand in the device register, with 48-bit addresses the three
-- higher bytes are those that were written first.
pub record Request : Type 0 where
  pub lba : ℕ
  pub count : ℕ
  pub slave : ℕ
  pub opcode : ℕ

abbrev pub last : (reg : ℕ) → List (ℕ × ℕ) → ℕ
last reg writes = (register reg writes (0, 0)).0

abbrev pub previous : (reg : ℕ) → List (ℕ × ℕ) → ℕ
previous reg writes = (register reg writes (0, 0)).1

unfoldable pub decode28 : List (ℕ × ℕ) → Request
decode28 w = record {
  lba =
      last reg_hd_dev_sel w % 2 ^ 4 * 2 ^ 24
      + last reg_lba2 w * 2 ^ 16
      + last reg_lba1 w * 2 ^ 8
      + last reg_lba0 w;
  count = last reg_sec_count0 w;
  slave = last reg_hd_dev_sel w / 2 ^ 4 % 2;
  opcode = last reg_command w;
}

unfoldable pub decode48 : List (ℕ × ℕ) → Request
decode48 w = record {
  lba =
      previous reg_lba2 w * 2 ^ 40
      + previous reg_lba1 w * 2 ^ 32
      + previous reg_lba0 w * 2 ^ 24
      + last reg_lba2 w * 2 ^ 16
      + last reg_lba1 w * 2 ^ 8
      + last reg_lba0 w;
  count = previous reg_sec_count0 w * 2 ^ 8 + last reg_sec_count0 w;
  slave = last reg_hd_dev_sel w / 2 ^ 4 % 2;
  opcode = last reg_command w;
}

-- The byte of the device register
device_byte :
    (disk : IdeDisk) (n : ℕ)
    → n < 2 ^ 4
    → bit_or (bit_or 0xe0 (device_bit disk * 2 ^ 4)) n ≡ 0xe0 + device_bit disk * 2 ^ 4 + n
device_byte disk n h = by_device disk.master
  where
    by_device :
        (master : Bool)
        → bit_or (bit_or 0xe0 ((if master then 0 else 1) * 2 ^ 4)) n
          ≡ 0xe0 + (if master then 0 else 1) * 2 ^ 4 + n
    by_device true = bit_or_join 4 14 n h
    by_device false = bit_or_join 4 15 n h

device_bit_bound : (disk : IdeDisk) → device_bit disk ≤ 1
device_bit_bound disk = by_device disk.master
  where
    by_device : (master : Bool) → (if master then 0 else 1) ≤ 1
    by_device true = omega arith
    by_device false = omega arith

same_request :
    (a b : Request)
    → a.lba ≡ b.lba
    → a.count ≡ b.count
    → a.slave ≡ b.slave
    → a.opcode ≡ b.opcode
    → a ≡ b
same_request a b l c s o = λ i. record { lba = l i; count = c i; slave = s i; opcode = o i }

-- On a disk with 28-bit addresses, the registers that a round writes ask the disk for exactly the
-- sectors of the round, by READ SECTORS, on the right one of the two devices: for an address
-- below 2 ^ 28 and a count below 256.
pub command28-decode28 :
    (disk : IdeDisk) (cur_lba count : ℕ)
    → cur_lba < 2 ^ 28
    → count < 256
    → decode28 (command28 disk cur_lba count)
      ≡ record { lba = cur_lba; count = count; slave = device_bit disk; opcode = 0x20 }
unfolding decode28 command28
command28-decode28 disk cur_lba count h few =
    let byte = device_byte disk (cur_lba / 2 ^ 24 % 2 ^ 4) (omega arith) in
    let bound = device_bit_bound disk in
    same_request _ _ (omega (arith, byte, bound)) (omega arith) (omega (arith, byte, bound)) refl

-- On a disk with 48-bit addresses, the count, the device and the command are right for counts below
-- 2 ^ 16, while the bits 4 to 7 and 28 to 31 of the address are lost: the disk reads from `cur_lba`
-- without them.
pub command48-decode48 :
    (disk : IdeDisk) (cur_lba count : ℕ)
    → cur_lba < 2 ^ 48
    → count < 2 ^ 16
    → decode48 (command48 disk cur_lba count) ≡ record {
      lba = cur_lba - (cur_lba / 2 ^ 4 % 2 ^ 4 * 2 ^ 4 + cur_lba / 2 ^ 28 % 2 ^ 4 * 2 ^ 28);
      count = count;
      slave = device_bit disk;
      opcode = 0x24;
    }
unfolding decode48 command48
command48-decode48 disk cur_lba count h few =
    let byte = device_byte disk 0 (omega arith) in
    let none : bit_or (bit_or 0xe0 (device_bit disk * 2 ^ 4)) 0
        ≡ bit_or 0xe0 (device_bit disk * 2 ^ 4) =
      bit_or-none _ in
    let bound = device_bit_bound disk in
    same_request _ _ (omega arith) (omega arith) (omega (arith, byte, none, bound)) refl
