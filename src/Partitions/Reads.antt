-- ===== src/Partitions/Reads.antt =====
-- A partition's `Read` asks the disk for sectors of the partition only.
use cerius.Base.{
  ℕ, ◌+◌, ◌*◌, ◌≤◌, ◌<◌, ◌^◌, ◌≡◌, refl, ap, arith, Bool-cases, inl, inr, ok, leb, leb→le, kassert,
  ◌>>◌, add64, mul64,
}
use cerius.Partitions.{Disk, MbrPartition, mbr_is_valid, mbr_read, GptPartition, gpt_read}

-- The disks give the same for every request inside `byte_len` bytes from sector `lba_start` on.
abbrev pub AgreeInside : (lba_start byte_len : ℕ) → Disk → Disk → Type 0
AgreeInside lba_start byte_len d d' =
    (lba byte_cnt : ℕ)
    → lba_start ≤ lba
    → lba * 512 + byte_cnt ≤ lba_start * 512 + byte_len
    → d.read lba byte_cnt ≡ d'.read lba byte_cnt

-- The check and the request that both kinds of partition make.
checked_read :
    (lba_start byte_len rel_lba byte_cnt : ℕ) (d d' : Disk)
    → AgreeInside lba_start byte_len d d'
    → rel_lba * 512 + byte_cnt < 2 ^ 64
    → lba_start + rel_lba < 2 ^ 64
    → (kassert (leb (add64 (mul64 rel_lba 512) byte_cnt) byte_len)
        >> ok (d.read (add64 lba_start rel_lba) byte_cnt))
      ≡ (kassert (leb (add64 (mul64 rel_lba 512) byte_cnt) byte_len)
          >> ok (d'.read (add64 lba_start rel_lba) byte_cnt))
checked_read lba_start byte_len rel_lba byte_cnt d d' agree small small' =
    elim (Bool-cases (leb (add64 (mul64 rel_lba 512) byte_cnt) byte_len)) [
      | inr out ↦ rw out refl
      | inl fits ↦
          let inside = leb→le (add64 (mul64 rel_lba 512) byte_cnt) byte_len fits in
          rw fits (ap ok (agree (add64 lba_start rel_lba) byte_cnt (omega arith) (omega arith)))
    ]

-- Where neither the end of a request nor its sector exceeds 64 bits, what `MbrPartition::Read`
-- gives depends on the disk inside the partition only, whatever is asked for.
pub mbr_read-AgreeInside :
    (p : MbrPartition) (rel_lba byte_cnt : ℕ) (d d' : Disk)
    → AgreeInside p.lba_start p.byte_len d d'
    → rel_lba * 512 + byte_cnt < 2 ^ 64
    → p.lba_start + rel_lba < 2 ^ 64
    → mbr_read d p rel_lba byte_cnt ≡ mbr_read d' p rel_lba byte_cnt
unfolding mbr_read
mbr_read-AgreeInside p rel_lba byte_cnt d d' agree small small' =
    elim (Bool-cases (mbr_is_valid p)) [
      | inl valid ↦
          rw valid (checked_read p.lba_start p.byte_len rel_lba byte_cnt d d' agree small small')
      | inr invalid ↦ rw invalid refl
    ]

-- Where neither the end of a request nor its sector exceeds 64 bits, what `GptPartition::Read`
-- gives depends on the disk inside the partition only, whatever is asked for.
pub gpt_read-AgreeInside :
    (p : GptPartition) (rel_lba byte_cnt : ℕ) (d d' : Disk)
    → AgreeInside p.lba_start p.byte_len d d'
    → rel_lba * 512 + byte_cnt < 2 ^ 64
    → p.lba_start + rel_lba < 2 ^ 64
    → gpt_read d p rel_lba byte_cnt ≡ gpt_read d' p rel_lba byte_cnt
unfolding gpt_read
gpt_read-AgreeInside p rel_lba byte_cnt d d' agree small small' =
    checked_read p.lba_start p.byte_len rel_lba byte_cnt d d' agree small small'
