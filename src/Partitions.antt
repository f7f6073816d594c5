-- ===== src/Partitions.antt =====
-- bootloader/drivers/mbr and bootloader/drivers/Gpt: the partition tables of a disk.
-- A `Disk` is the abstract class of bootloader/drivers/Disk.h: `read` gives the bytes it writes to
-- the buffer, or `none` where it returns false.
pub mod Tables
pub mod Reads
use cerius.Base.{
  ℕ, zero, suc, ◌+◌, ◌-◌, ◌*◌, ◌/◌, ◌%◌, ◌^◌, Bool, true, false, ◌&&◌, ◌||◌, not, Option, none,
  some, List, [], ◌∷◌, Result, ok, fault, Fault, kassert, ◌>>=◌, ◌>>◌, ltb, leb, ◌==◌,
  if◌then◌else◌, add64, sub64, mul64,
}
use cerius.Bitmap.{array_get}

pub record Disk : Type 0 where
  pub read : (lba byte_cnt : ℕ) → Option (List ℕ)
  pub get_capacity : ℕ

-- The `width` bytes from `i` on as a number, lowest byte first
unfoldable pub little_endian : (width : ℕ) → List ℕ → (i : ℕ) → Result ℕ
little_endian zero bytes i = ok 0
little_endian (suc width) bytes i = do
  low ← array_get bytes i
  high ← little_endian width bytes (i + 1)
  ok (low + 2 ^ 8 * high)

pub record MbrPartition : Type 0 where
  pub status : ℕ
  pub partition_type : ℕ
  pub lba_start : ℕ
  pub byte_len : ℕ

-- One round of the loop of `Mbr::Init`
pub mbr_partition : List ℕ → (current : ℕ) → Result MbrPartition
mbr_partition buf current = do
  let base = 446 + current * 16
  status ← array_get buf base
  partition_type ← array_get buf (base + 4)
  lba_start ← little_endian 4 buf (base + 8)
  sectors ← little_endian 4 buf (base + 12)
  ok (record {
    status = status;
    partition_type = partition_type;
    lba_start = lba_start;
    byte_len = mul64 512 sectors;
  })

-- The loop of `Mbr::Init`
pub mbr_partitions : List ℕ → Result (List MbrPartition)
mbr_partitions buf = do
  a ← mbr_partition buf 0
  b ← mbr_partition buf 1
  c ← mbr_partition buf 2
  d ← mbr_partition buf 3
  ok (a ∷ b ∷ c ∷ d ∷ [])

-- `Mbr::Init` behind its call of `Read`
pub mbr_load : Option (List ℕ) → Result (Option (List MbrPartition))
mbr_load none = ok none
mbr_load (some buf) = do
  first ← array_get buf 510
  second ← array_get buf 511
  let parsed = (do ps ← mbr_partitions buf; ok (some ps))
  if (first == 0x55) && (second == 0xaa) then parsed else ok none

-- `Mbr::Init`: the partitions, or `none` for false
pub mbr_init : Disk → Result (Option (List MbrPartition))
mbr_init disk = mbr_load (disk.read 0 512)

-- `MbrPartition::IsValid`
abbrev pub mbr_is_valid : MbrPartition → Bool
mbr_is_valid p = (p.status == 0x80) || (p.status == 0x00)

-- `MbrPartition::Read`
pub mbr_read : Disk → MbrPartition → (rel_lba byte_cnt : ℕ) → Result (Option (List ℕ))
mbr_read disk p rel_lba byte_cnt =
    let inside = (do
      kassert (leb (add64 (mul64 rel_lba 512) byte_cnt) p.byte_len)
      ok (disk.read (add64 p.lba_start rel_lba) byte_cnt)) in
    if mbr_is_valid p then inside else ok none

pub record GptPartition : Type 0 where
  pub type0 : ℕ
  pub type1 : ℕ
  pub guid0 : ℕ
  pub guid1 : ℕ
  pub lba_start : ℕ
  pub byte_len : ℕ
  pub attr : ℕ
  -- the 72 bytes of the name, as one number
  pub name : ℕ

-- `buf[i]` of the array of `uint64_t`
abbrev pub word : List ℕ → ℕ → Result ℕ
word buf i = little_endian 8 buf (8 * i)

-- One round of the loop of `Gpt::Init`, with the constructor of `GptPartition`
pub gpt_partition : List ℕ → (i : ℕ) → Result GptPartition
gpt_partition buf i = do
  let base = 512 / 8 + 128 / 8 * i
  type0 ← word buf base
  type1 ← word buf (base + 1)
  guid0 ← word buf (base + 2)
  guid1 ← word buf (base + 3)
  lba_start ← word buf (base + 4)
  last_lba ← word buf (base + 5)
  attr ← word buf (base + 6)
  name ← little_endian 72 buf (8 * (base + 7))
  ok (record {
    type0 = type0;
    type1 = type1;
    guid0 = guid0;
    guid1 = guid1;
    lba_start = lba_start;
    byte_len = mul64 512 (add64 (sub64 last_lba lba_start) 1);
    attr = attr;
    name = name;
  })

-- The loop of `Gpt::Init` from entry `i` on, with the entries left
pub gpt_partitions : List ℕ → (left i : ℕ) → Result (List GptPartition)
gpt_partitions buf zero i = ok []
gpt_partitions buf (suc left) i = do
  p ← gpt_partition buf i
  rest ← gpt_partitions buf left (i + 1)
  ok (p ∷ rest)

pub record Gpt : Type 0 where
  pub disk_guid0 : ℕ
  pub disk_guid1 : ℕ
  pub parts : List GptPartition

-- `Gpt::Init` behind its test of where the entries start: the array of the partitions is allocated. The number
-- of partitions is a `uint32_t` stored in an `int`, of which a negative one is refused like one above
-- 128.
pub gpt_table : List ℕ → Result (Option Gpt)
gpt_table buf = do
  disk_guid0 ← word buf 7
  disk_guid1 ← word buf 8
  entries ← word buf 10
  entry_size ← little_endian 4 buf (4 * 21)
  let parsed = (do
    parts ← gpt_partitions buf (entries % 2 ^ 32) 0
    ok (some (record { disk_guid0 = disk_guid0; disk_guid1 = disk_guid1; parts = parts })))
  if ltb 128 (entries % 2 ^ 32) then ok none else (if entry_size == 128 then parsed else ok none)

-- `Gpt::Init` behind its call of `Read`; `buf` holds sectors 1 to 33
pub gpt_load : Option (List ℕ) → Result (Option Gpt)
gpt_load none = ok none
gpt_load (some buf) = do
  signature ← word buf 0
  entries_lba ← word buf 9
  let table = gpt_table buf
  if (signature == 0x5452415020494645) && (entries_lba == 2) then table else ok none

-- `Gpt::Init`: the table, or `none` for false
pub gpt_init : Disk → Result (Option Gpt)
gpt_init disk =
    if ltb disk.get_capacity (512 * 34) then ok none else gpt_load (disk.read 1 (512 * 33))

-- `GptPartition::IsValid`
abbrev pub gpt_is_valid : GptPartition → Bool
gpt_is_valid p = not ((p.type0 == 0) && (p.type1 == 0))

-- `GptPartition::Read`
pub gpt_read : Disk → GptPartition → (rel_lba byte_cnt : ℕ) → Result (Option (List ℕ))
gpt_read disk p rel_lba byte_cnt = do
  kassert (leb (add64 (mul64 rel_lba 512) byte_cnt) p.byte_len)
  ok (disk.read (add64 p.lba_start rel_lba) byte_cnt)
