-- ===== src/Ide.antt =====
-- bootloader/drivers/Ata/Ide: the disks of an IDE controller, read through I/O ports.
-- `Ports` is what the machine gives: an `OutB`, an `InB` and an `InW` of common/port_io.h change the
-- state `D` of the devices. The words that `Read` stores are a function of their index in `buf`.
pub mod Drives
pub mod Registers
pub mod Stream
pub mod Transfer
use cerius.Base.{
  ℕ, zero, suc, ◌+◌, ◌-◌, ◌*◌, ◌/◌, ◌%◌, ◌^◌, ◌≡◌, refl, Bool, true, false, ◌&&◌, ◌||◌, not, min,
  List, [], ◌∷◌, ◌++◌, length, Result, ok, fault, Fault, ◌>>=◌, ◌>>◌, kassert, ltb, leb, ◌==◌,
  if◌then◌else◌, bit_and, bit_or, add64, mul64, Option, none, some,
}
use cerius.Pci.{PciDevice, get_base_class, get_sub_class, get_bar, enumerate_devices}

pub record IdeDisk : Type 0 where
  pub con : PciDevice
  pub primary : Bool
  pub master : Bool
  pub port : ℕ
  pub con_port : ℕ
  pub lba48 : Bool
  pub capacity : ℕ

pub record Ports {ℓ} (D : Type ℓ) : Type ℓ where
  pub out_b : D → (port value : ℕ) → D
  pub in_b : D → (port : ℕ) → D × ℕ
  pub in_w : D → (port : ℕ) → D × ℕ

-- The registers of IdeDefs.h, by their distance from the port of the disk
abbrev pub reg_data : ℕ
reg_data = 0

abbrev pub reg_sec_count0 : ℕ
reg_sec_count0 = 2

abbrev pub reg_lba0 : ℕ
reg_lba0 = 3

abbrev pub reg_lba1 : ℕ
reg_lba1 = 4

abbrev pub reg_lba2 : ℕ
reg_lba2 = 5

abbrev pub reg_hd_dev_sel : ℕ
reg_hd_dev_sel = 6

abbrev pub reg_command : ℕ
reg_command = 7

abbrev pub reg_status : ℕ
reg_status = 7

-- `status & ATA_SR_ERR) || (status & ATA_SR_DF)`
abbrev pub is_error : (status : ℕ) → Bool
is_error status = not (bit_and status 0x01 == 0) || not (bit_and status 0x20 == 0)

-- `((status & ATA_SR_BSY) == 0) && (status & ATA_SR_DRQ)`
abbrev pub is_ready : (status : ℕ) → Bool
is_ready status = (bit_and status 0x80 == 0) && not (bit_and status 0x08 == 0)

-- `sectors_to_read` of a round of `Read`, which is given at most 8192 sectors
pub sectors_to_read : IdeDisk → (sectors_left : ℕ) → ℕ
sectors_to_read disk left = if disk.lba48 then min left 65535 else min left 255

-- `1 - master`
abbrev pub device_bit : IdeDisk → ℕ
device_bit disk = if disk.master then 0 else 1

-- What a round of `Read` writes to the registers: `OutB` takes the low byte of its argument.
pub command28 : IdeDisk → (cur_lba count : ℕ) → List (ℕ × ℕ)
command28 disk cur_lba count =
    (
      reg_hd_dev_sel,
      bit_or (bit_or 0xe0 (device_bit disk * 2 ^ 4)) (cur_lba / 2 ^ 24 % 2 ^ 4) % 2 ^ 8,
    )
    ∷ (reg_sec_count0, count % 2 ^ 8)
    ∷ (reg_lba0, cur_lba % 2 ^ 8)
    ∷ (reg_lba1, cur_lba / 2 ^ 8 % 2 ^ 8)
    ∷ (reg_lba2, cur_lba / 2 ^ 16 % 2 ^ 8)
    ∷ (reg_command, 0x20)
    ∷ []

pub command48 : IdeDisk → (cur_lba count : ℕ) → List (ℕ × ℕ)
command48 disk cur_lba count =
    (reg_hd_dev_sel, bit_or 0xe0 (device_bit disk * 2 ^ 4) % 2 ^ 8)
    ∷ (reg_sec_count0, count / 2 ^ 8 % 2 ^ 8)
    ∷ (reg_sec_count0, count % 2 ^ 8)
    ∷ (reg_lba0, cur_lba / 2 ^ 24 % 2 ^ 4)
    ∷ (reg_lba0, cur_lba % 2 ^ 4)
    ∷ (reg_lba1, cur_lba / 2 ^ 32 % 2 ^ 8)
    ∷ (reg_lba1, cur_lba / 2 ^ 8 % 2 ^ 8)
    ∷ (reg_lba2, cur_lba / 2 ^ 40 % 2 ^ 8)
    ∷ (reg_lba2, cur_lba / 2 ^ 16 % 2 ^ 8)
    ∷ (reg_command, 0x24)
    ∷ []

pub read_command : IdeDisk → (cur_lba count : ℕ) → List (ℕ × ℕ)
read_command disk cur_lba count =
    if disk.lba48 then command48 disk cur_lba count else command28 disk cur_lba count

abbrev pub store : (ℕ → ℕ) → ℕ → ℕ → ℕ → ℕ
store buf i w j = if j == i then w else buf j

-- Where a run leaves the machine and the buffer, and what it returns
pub record Run {ℓ} (D : Type ℓ) : Type ℓ where
  pub device : D
  pub buf : ℕ → ℕ
  pub success : Bool

abbrev pub as_list : Option IdeDisk → List IdeDisk
as_list none = []
as_list (some disk) = disk ∷ []

-- A port of a base address register, which holds 0 or 1 for the legacy port
abbrev pub port_of : (bar legacy : ℕ) → ℕ
port_of bar legacy = if ltb (bar % 2 ^ 16) 2 then legacy else bar % 2 ^ 16

module _ {ℓ} {D : Type ℓ} (ports : Ports D) where
  unfoldable pub out_all : (port : ℕ) → List (ℕ × ℕ) → D → D
  out_all port [] d = d
  out_all port (w ∷ writes) d = out_all port writes (ports.out_b d (port + w.0) w.1)

  abbrev pub status_read : (port : ℕ) → D → D × ℕ
  status_read port d = ports.in_b d (port + reg_status)

  -- `for (int i=0; i<3; i++) PortIO::InB(port + PATA_REG_STATUS)`
  abbrev pub settle : (port : ℕ) → D → D
  settle port d = (status_read port (status_read port (status_read port d).0).0).0

  -- The polling loop of `Read`: whether the disk has data, with the rounds left
  pub poll : (rounds port : ℕ) → D → Result (D × Bool)
  poll zero port d = fault Fault.out_of_fuel
  poll (suc rounds) port d =
      let rest = poll rounds port (status_read port d).0 in
      let status = (status_read port d).1 in
      if is_error status
      then ok ((status_read port d).0, false)
      else (if is_ready status then ok ((status_read port d).0, true) else rest)

  -- The loops that read 256 words, with the rounds left
  pub read_words : (rounds port i : ℕ) → D → (ℕ → ℕ) → D × (ℕ → ℕ)
  read_words zero port i d buf = (d, buf)
  read_words (suc rounds) port i d buf =
      read_words rounds port (i + 1) (ports.in_w d (port + reg_data)).0
        (store buf i (ports.in_w d (port + reg_data)).1)

  -- One sector: the body of the loop over `sectors_to_read`
  pub read_sector : (polls port : ℕ) → D → (ℕ → ℕ) → Result (Run D)
  read_sector polls port d buf = do
    polled ← poll polls port (settle port d)
    ok (
        if polled.1
        then record {
          device = (read_words 256 port 0 polled.0 buf).0;
          buf = (read_words 256 port 0 polled.0 buf).1;
          success = true;
        }
        else record { device = polled.0; buf = buf; success = false })

  -- The loop over `sectors_to_read`, with the sectors left
  pub read_sectors : (sectors polls port : ℕ) → D → (ℕ → ℕ) → Result (Run D)
  read_sectors zero polls port d buf = ok (record { device = d; buf = buf; success = true })
  read_sectors (suc sectors) polls port d buf = do
    r ← read_sector polls port d buf
    let rest = read_sectors sectors polls port r.device r.buf
    if r.success then rest else ok r

  -- The loop over `curLBA`, with the rounds left
  pub read_chunks :
      (rounds polls : ℕ) → IdeDisk → (cur_lba end_lba : ℕ) → D → (ℕ → ℕ) → Result (Run D)
  read_chunks zero polls disk cur_lba end_lba d buf = fault Fault.out_of_fuel
  read_chunks (suc rounds) polls disk cur_lba end_lba d buf =
      let count = sectors_to_read disk (end_lba - cur_lba) in
      let chunk = (do
        r ←
            read_sectors count polls disk.port
              (out_all disk.port (read_command disk cur_lba count) d) buf
        let rest = read_chunks rounds polls disk (cur_lba + count) end_lba r.device r.buf
        if r.success then rest else ok r) in
      if ltb cur_lba end_lba then chunk else ok (record { device = d; buf = buf; success = true })

  -- `Read`, with a bound on the polls of a sector; `address` is where `buf` points.
  pub read : (polls : ℕ) → IdeDisk → (lba_start byte_cnt address : ℕ) → D → (ℕ → ℕ) → Result (Run D)
  read polls disk lba_start byte_cnt address d buf = do
    kassert (address % 2 == 0)
    kassert (byte_cnt % 512 == 0)
    kassert (leb byte_cnt (4 * 1024 * 1024))
    kassert (leb (add64 (mul64 lba_start 512) byte_cnt) disk.capacity)
    read_chunks (byte_cnt / 512 + 1) polls disk lba_start (add64 lba_start (byte_cnt / 512)) d buf

  -- The polling loop of `Identify`, with the rounds left
  unfoldable pub poll_identify : (rounds port : ℕ) → D → Result (D × Bool)
  poll_identify zero port d = fault Fault.out_of_fuel
  poll_identify (suc rounds) port d =
      let rest = poll_identify rounds port (status_read port d).0 in
      let status = (status_read port d).1 in
      if status == 0
      then ok ((status_read port d).0, false)
      else (if is_ready status
          then ok ((status_read port d).0, true)
          else (if is_error status then ok ((status_read port d).0, false) else rest))

  -- `Identify`, whose words are in the buffer of the run
  pub identify : (polls port : ℕ) (master : Bool) → D → (ℕ → ℕ) → Result (Run D)
  identify polls port master d buf = do
    let asked =
        out_all port ((reg_hd_dev_sel, if master then 0xa0 else 0xb0) ∷ (reg_command, 0xec) ∷ []) d
    polled ← poll_identify polls port (settle port asked)
    ok (
        if polled.1
        then record {
          device = (read_words 256 port 0 polled.0 buf).0;
          buf = (read_words 256 port 0 polled.0 buf).1;
          success = true;
        }
        else record { device = polled.0; buf = buf; success = false })

  -- The capacity by the words of `Identify`: with 28-bit addresses, the product of an `int` and a
  -- `uint32_t`, which wraps at 32 bits
  unfoldable pub capacity_of : (words : ℕ → ℕ) → (lba48 : Bool) → ℕ
  capacity_of words lba48 =
      if lba48
      then mul64 512 (words 100 + words 101 * 2 ^ 16 + words 102 * 2 ^ 32 + words 103 * 2 ^ 48)
      else 512 * (words 60 + words 61 * 2 ^ 16) % 2 ^ 32

  -- `Init`: the disk, where there is one; `noise` is what the local array holds at first.
  pub init :
      (polls : ℕ) (noise : ℕ → ℕ) (con : PciDevice) (primary master : Bool) (port con_port : ℕ)
      → D
      → Result (D × Option IdeDisk)
  init polls noise con primary master port con_port d = do
    r ← identify polls port master d noise
    let lba48 = not (bit_and (r.buf 83) (2 ^ 10) == 0)
    let disk : IdeDisk = record {
      con = con;
      primary = primary;
      master = master;
      port = port;
      con_port = con_port;
      lba48 = lba48;
      capacity = capacity_of r.buf lba48;
    }
    ok (r.device, if r.success && not (bit_and (r.buf 49) (2 ^ 9) == 0) then some disk else none)

  module _ (polls : ℕ) (noise : ℕ → ℕ) (config : ℕ → ℕ) where
    -- The body of the loops over `primary` and `master`, with the room that is left in the array
    pub probe : (con : PciDevice) (primary master : Bool) (room : ℕ) → D → Result (D × List IdeDisk)
    probe con primary master room d =
        let port =
          if primary
          then port_of (get_bar config con 0) 0x1f0
          else port_of (get_bar config con 2) 0x170 in
        let con_port =
          if primary
          then port_of (get_bar config con 1) 0x3f6
          else port_of (get_bar config con 3) 0x376 in
        let tried = (do
          r ← init polls noise con primary master port con_port d
          ok (r.0, as_list r.1)) in
        if ltb 0 room then tried else ok (d, [])

    -- The two loops, unrolled
    pub probe_all : (con : PciDevice) (room : ℕ) → D → Result (D × List IdeDisk)
    probe_all con room d = do
      a ← probe con false false room d
      b ← probe con false true (room - length a.1) a.0
      c ← probe con true false (room - length a.1 - length b.1) b.0
      e ← probe con true true (room - length a.1 - length b.1 - length c.1) c.0
      ok (e.0, a.1 ++ (b.1 ++ (c.1 ++ e.1)))

    -- The loop over the devices of the PCI buses
    pub probe_devices : List PciDevice → (room : ℕ) → D → Result (D × List IdeDisk)
    probe_devices [] room d = ok (d, [])
    probe_devices (con ∷ devices) room d =
        let found = (do
          here ← probe_all con room d
          rest ← probe_devices devices (room - length here.1) here.0
          ok (rest.0, here.1 ++ rest.1)) in
        let passed = probe_devices devices room d in
        if ltb 0 room
        then (if (get_base_class config con == 0x01) && (get_sub_class config con == 0x01)
            then found
            else passed)
        else ok (d, [])

    -- `EnumerateDisks`
    pub enumerate_disks : (max_length : ℕ) → D → Result (D × List IdeDisk)
    enumerate_disks max_length d = do
      devices ← enumerate_devices config 100
      probe_devices devices max_length d
