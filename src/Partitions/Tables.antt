-- ===== src/Partitions/Tables.antt =====
-- `Mbr::Init` and `Gpt::Init` read no byte beyond their buffers.
use cerius.Base.{
  ℕ, zero, suc, ◌+◌, ◌*◌, ◌≤◌, ◌<◌, ◌≡◌, refl, arith, Bool-cases, inl, inr, Option, none, some,
  List, [], ◌∷◌, length, Returns, returns, bind, ltb, ltb→ge, ◌==◌, ◌&&◌, ◌^◌, ◌%◌, ◌/◌, All,
}
use cerius.Bitmap.{array_get}
use cerius.Partitions.{
  Disk, little_endian, MbrPartition, mbr_partition, mbr_partitions, mbr_load, mbr_init,
  gpt_partition, gpt_partitions, Gpt, gpt_table, gpt_load, gpt_init, word,
}

array_get-Returns : (l : List ℕ) (i : ℕ) → i < length l → Returns (λ x. Unit {0}) (array_get l i)
array_get-Returns [] i h = absurd (omega arith)
array_get-Returns (x ∷ l) zero h = returns tt
array_get-Returns (x ∷ l) (suc i) h = array_get-Returns l i (omega arith)

little_endian-Returns :
    (width : ℕ) (l : List ℕ) (i : ℕ)
    → i + width ≤ length l
    → Returns (λ x. Unit {0}) (little_endian width l i)
unfolding little_endian
little_endian-Returns zero l i h = returns tt
little_endian-Returns (suc width) l i h =
    bind (array_get-Returns l i (omega arith))
      λ low a. bind (little_endian-Returns width l (i + 1) (omega arith)) λ high b. returns tt

-- The disk gives as many bytes as it is asked for, if any.
abbrev pub IsExact : Disk → Type 0
IsExact disk =
    (lba byte_cnt : ℕ) (bytes : List ℕ)
    → disk.read lba byte_cnt ≡ some bytes
    → length bytes ≡ byte_cnt

mbr_partition-Returns :
    (buf : List ℕ) (current : ℕ)
    → length buf ≡ 512
    → current < 4
    → Returns (λ p. p.byte_len % 512 ≡ 0) (mbr_partition buf current)
unfolding mbr_partition
mbr_partition-Returns buf current size few =
    bind (array_get-Returns buf (446 + current * 16) (omega arith)) λ status a.
      bind (array_get-Returns buf (446 + current * 16 + 4) (omega arith)) λ kind b.
        bind (little_endian-Returns 4 buf (446 + current * 16 + 8) (omega arith)) λ start c.
          bind (little_endian-Returns 4 buf (446 + current * 16 + 12) (omega arith))
            λ sectors d. returns (omega arith)

-- What a table of the first sector promises: four partitions of whole sectors.
abbrev pub IsMbr : Option (List MbrPartition) → Type 0
IsMbr none = Unit
IsMbr (some ps) = (length ps ≡ 4) × All (λ p. p.byte_len % 512 ≡ 0) ps

mbr_partitions-Returns :
    (buf : List ℕ) → length buf ≡ 512 → Returns (λ ps. IsMbr (some ps)) (mbr_partitions buf)
unfolding mbr_partitions
mbr_partitions-Returns buf size = bind (mbr_partition-Returns buf 0 size (omega arith)) λ a pa.
    bind (mbr_partition-Returns buf 1 size (omega arith)) λ b pb.
      bind (mbr_partition-Returns buf 2 size (omega arith)) λ c pc.
        bind (mbr_partition-Returns buf 3 size (omega arith))
          λ d pd. returns (refl, (pa, (pb, (pc, (pd, tt)))))

mbr_load-IsMbr :
    (r : Option (List ℕ))
    → ((bytes : List ℕ) → r ≡ some bytes → length bytes ≡ 512)
    → Returns IsMbr (mbr_load r)
unfolding mbr_load
mbr_load-IsMbr none exact = returns tt
mbr_load-IsMbr (some buf) exact =
    let size = exact buf refl in
    bind (array_get-Returns buf 510 (omega arith)) λ first a.
      bind (array_get-Returns buf 511 (omega arith)) λ second b.
        elim (Bool-cases ((first == 0x55) && (second == 0xaa))) [
          | inl signed ↦ rw signed (bind (mbr_partitions-Returns buf size) λ ps good. returns good)
          | inr other ↦ rw other (returns tt)
        ]

-- On a disk that gives as many bytes as it is asked for, `Mbr::Init` reads no byte beyond its
-- buffer; where it returns true it has set four partitions of whole sectors.
pub mbr_init-IsMbr : (disk : Disk) → IsExact disk → Returns IsMbr (mbr_init disk)
unfolding mbr_init
mbr_init-IsMbr disk exact = mbr_load-IsMbr (disk.read 0 512) (exact 0 512)

gpt_partition-Returns :
    (buf : List ℕ) (i : ℕ)
    → length buf ≡ 512 * 33
    → i < 128
    → Returns (λ p. p.byte_len % 512 ≡ 0) (gpt_partition buf i)
unfolding gpt_partition
gpt_partition-Returns buf i size few =
    let base = 512 / 8 + 128 / 8 * i in
    bind (word-Returns base (omega arith)) λ t0 a.
      bind (word-Returns (base + 1) (omega arith)) λ t1 b.
        bind (word-Returns (base + 2) (omega arith)) λ g0 c.
          bind (word-Returns (base + 3) (omega arith)) λ g1 d.
            bind (word-Returns (base + 4) (omega arith)) λ start e.
              bind (word-Returns (base + 5) (omega arith)) λ last f.
                bind (word-Returns (base + 6) (omega arith)) λ attr g.
                  bind (little_endian-Returns 72 buf (8 * (base + 7)) (omega arith))
                    λ name h. returns (omega arith)
  where
    word-Returns : (j : ℕ) → j < 64 * 33 → Returns (λ x. Unit {0}) (word buf j)
    word-Returns j h = little_endian-Returns 8 buf (8 * j) (omega arith)

gpt_partitions-Returns :
    (buf : List ℕ) (left i : ℕ)
    → length buf ≡ 512 * 33
    → left + i ≤ 128
    → Returns
        (λ ps. (length ps ≡ left) × All (λ p. p.byte_len % 512 ≡ 0) ps)
        (gpt_partitions buf left i)
unfolding gpt_partitions
gpt_partitions-Returns buf zero i size few = returns (refl, tt)
gpt_partitions-Returns buf (suc left) i size few =
    bind (gpt_partition-Returns buf i size (omega arith)) λ p whole.
      bind (gpt_partitions-Returns buf left (i + 1) size (omega arith))
        λ ps (count, all). returns (omega arith, (whole, all))

-- What the table of a disk promises: at most 128 partitions, of whole sectors.
abbrev pub IsGpt : Option Gpt → Type 0
IsGpt none = Unit
IsGpt (some g) = (length g.parts ≤ 128) × All (λ p. p.byte_len % 512 ≡ 0) g.parts

gpt_table-IsGpt : (buf : List ℕ) → length buf ≡ 512 * 33 → Returns IsGpt (gpt_table buf)
unfolding gpt_table
gpt_table-IsGpt buf size = bind (little_endian-Returns 8 buf 56 (omega arith)) λ guid0 a.
    bind (little_endian-Returns 8 buf 64 (omega arith)) λ guid1 b.
      bind (little_endian-Returns 8 buf 80 (omega arith)) λ entries c.
        bind (little_endian-Returns 4 buf 84 (omega arith)) λ entry_size d.
          elim (Bool-cases (ltb 128 (entries % 2 ^ 32))) [
            | inl many ↦ rw many (returns tt)
            | inr few ↦ elim (Bool-cases (entry_size == 128)) [
              | inr other ↦ rw (few, other) (returns tt)
              | inl known ↦
                  let bound = ltb→ge 128 (entries % 2 ^ 32) few in
                  rw (few, known)
                    (bind (gpt_partitions-Returns buf (entries % 2 ^ 32) 0 size (omega arith))
                      λ ps (count, all). returns (omega arith, all))
            ]
          ]

gpt_load-IsGpt :
    (r : Option (List ℕ))
    → ((bytes : List ℕ) → r ≡ some bytes → length bytes ≡ 512 * 33)
    → Returns IsGpt (gpt_load r)
unfolding gpt_load
gpt_load-IsGpt none exact = returns tt
gpt_load-IsGpt (some buf) exact =
    let size = exact buf refl in
    bind (little_endian-Returns 8 buf 0 (omega arith)) λ signature a.
      bind (little_endian-Returns 8 buf 72 (omega arith)) λ entries_lba b.
        elim (Bool-cases ((signature == 0x5452415020494645) && (entries_lba == 2))) [
          | inl known ↦ rw known (gpt_table-IsGpt buf size)
          | inr other ↦ rw other (returns tt)
        ]

-- On a disk that gives as many bytes as it is asked for, `Gpt::Init` reads no byte beyond its
-- buffer; where it returns true it has set at most 128 partitions of whole sectors.
pub gpt_init-IsGpt : (disk : Disk) → IsExact disk → Returns IsGpt (gpt_init disk)
unfolding gpt_init
gpt_init-IsGpt disk exact = elim (Bool-cases (ltb disk.get_capacity (512 * 34))) [
  | inl small ↦ rw small (returns tt)
  | inr large ↦ rw large (gpt_load-IsGpt (disk.read 1 (512 * 33)) (exact 1 (512 * 33)))
]
