-- ===== src/Examples/Disks.antt =====
-- Inputs for bootloader/drivers/mbr, bootloader/drivers/Gpt and bootloader/memory/Initializer.
use cerius.Base.{
  ℕ, zero, suc, ◌+◌, ◌≡◌, ◌%◌, refl, sym, ap, ◌∙◌, arith, Option, none, some, List, [], ◌∷◌, length,
  Returns, ok, ltb, if◌then◌else◌, ge→ltb,
}
use cerius.Partitions.{Disk, MbrPartition, mbr_init, mbr_read, GptPartition, gpt_init, gpt_read}
use cerius.Partitions.Tables.{IsExact, IsMbr, IsGpt, mbr_init-IsMbr, gpt_init-IsGpt}
use cerius.Partitions.Reads.{AgreeInside, mbr_read-AgreeInside, gpt_read-AgreeInside}
use cerius.Initializer.{partition_range, page_bounds}
use cerius.Initializer.Faults.{
  PartitionAnswer, partition_range-PartitionAnswer, page_bounds-unaligned,
}

abbrev zeros : ℕ → List ℕ
zeros zero = []
zeros (suc n) = 0 ∷ zeros n

length-zeros : (n : ℕ) → length (zeros n) ≡ n
length-zeros zero = refl
length-zeros (suc n) = omega (arith, length-zeros n)

-- A disk of a megabyte that is all zeros
abbrev blank : Disk
blank = record { read = λ lba byte_cnt. some (zeros byte_cnt); get_capacity = 0x100000 }

length_or : Option (List ℕ) → ℕ
length_or none = 0
length_or (some l) = length l

blank-IsExact : IsExact blank
unfolding length_or
blank-IsExact lba byte_cnt bytes e = sym (ap length_or e) ∙ length-zeros byte_cnt

mbr_init_example : Returns IsMbr (mbr_init blank)
mbr_init_example = mbr_init-IsMbr blank blank-IsExact

gpt_init_example : Returns IsGpt (gpt_init blank)
gpt_init_example = gpt_init-IsGpt blank blank-IsExact

-- A disk that differs from the blank one before sector 64
abbrev other : Disk
other = record {
  read = λ lba byte_cnt. if ltb lba 64 then none else some (zeros byte_cnt);
  get_capacity = 0x100000;
}

disks-AgreeInside : AgreeInside 64 0x10000 blank other
disks-AgreeInside lba byte_cnt from until = rw (ge→ltb lba 64 from) refl

abbrev mbr_partition_1 : MbrPartition
mbr_partition_1 = record { status = 0x80; partition_type = 7; lba_start = 64; byte_len = 0x10000 }

mbr_read_example : mbr_read blank mbr_partition_1 3 1024 ≡ mbr_read other mbr_partition_1 3 1024
mbr_read_example =
    mbr_read-AgreeInside mbr_partition_1 3 1024 blank other disks-AgreeInside (omega arith)
      (omega arith)

abbrev gpt_partition_1 : GptPartition
gpt_partition_1 = record {
  type0 = 1;
  type1 = 2;
  guid0 = 3;
  guid1 = 4;
  lba_start = 64;
  byte_len = 0x10000;
  attr = 0;
  name = 0;
}

gpt_read_example : gpt_read blank gpt_partition_1 3 1024 ≡ gpt_read other gpt_partition_1 3 1024
gpt_read_example =
    gpt_read-AgreeInside gpt_partition_1 3 1024 blank other disks-AgreeInside (omega arith)
      (omega arith)

-- The linear address space, of which the first megabyte is forbidden
partition_example :
    PartitionAnswer
      (λ range n. ok (n + 1))
      (record { s = 0; e = 0x100000 } ∷ [])
      (record { s = 0; e = 0x8000_0000_0000 })
      0
      (partition_range
        (λ range n. ok (n + 1))
        (record { s = 0; e = 0x100000 } ∷ [])
        (record { s = 0; e = 0x8000_0000_0000 })
        0)
partition_example =
    partition_range-PartitionAnswer (λ range n. ok (n + 1)) (record { s = 0; e = 0x100000 } ∷ [])
      (record { s = 0; e = 0x8000_0000_0000 }) 0 (omega arith)

page_bounds_example : 0x3000_0400 % 4096 ≡ 0x1800_0400 % 4096
unfolding page_bounds
page_bounds_example =
    page_bounds-unaligned 0x1800_0400 0x8000_0000 (record { s = 0x3000_0400; e = 0x9800_0000 })
      (omega arith) (omega arith) refl
