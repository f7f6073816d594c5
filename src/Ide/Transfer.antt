-- ===== src/Ide/Transfer.antt =====
-- What `IdeDisk::Read` leaves in the buffer.
use cerius.Base.{
  ℕ, zero, suc, ◌+◌, ◌-◌, ◌*◌, ◌/◌, ◌%◌, ◌^◌, ◌≤◌, ◌<◌, ◌≡◌, refl, ap, arith, true, false,
  if◌then◌else◌, min, ok, Returns, returns, bind, mono, ≡→==, inl, inr, lt-or-ge, subst, add64,
  mul64, lt→ltb, ge→ltb, le→leb, ≡→==,
}
use cerius.Ide.{
  IdeDisk, Ports, Run, sectors_to_read, read_command, out_all, read_sectors, read_chunks, read,
  command28, command48, device_bit,
}
use cerius.Ide.Registers.{command28-decode28}
use cerius.Ide.Stream.{Serves, HoldsSector, HoldsSector-trans, read_sectors-HoldsSector}

module _ {ℓ} {D : Type ℓ} (ports : Ports D) (disk : IdeDisk) (sectors polls : ℕ)
    (content : (sector word : ℕ) → ℕ) (Idle : D → Type ℓ)
    (Streams : D → (s w left busy : ℕ) → Type ℓ)
    (serves : Serves ports disk.port (device_bit disk) sectors polls content Idle Streams)
    (short : disk.lba48 ≡ false) (small : sectors ≤ 2 ^ 28) where
  -- A round starts the transfer of the sectors that it then reads.
  chunk-HoldsSector :
      (m cur : ℕ) (d : D) (buf : ℕ → ℕ)
      → suc m ≤ 255
      → cur + suc m ≤ sectors
      → Idle d
      → Returns
          (λ r. HoldsSector content (cur + m) buf r × Idle r.device)
          (read_sectors ports
            (suc m)
            polls
            disk.port
            (out_all ports disk.port (command28 disk cur (suc m)) d)
            buf)
  unfolding command28
  chunk-HoldsSector m cur d buf few fits idle =
      let decoded = command28-decode28 disk cur (suc m) (omega arith) (omega arith) in
      let started =
        serves.starts d _ _ _ _ _ _ cur (suc m) idle decoded (omega arith) (omega arith)
          (omega arith) (omega arith) (omega arith) (omega arith) fits in
      read_sectors-HoldsSector ports disk.port (device_bit disk) sectors polls content Idle Streams
        serves m _ cur started.0 buf started.2 started.1

  short_count : (left n : ℕ) → min left 255 ≡ n → sectors_to_read disk left ≡ n
  unfolding sectors_to_read
  short_count left n e = rw short e

  short_command : (cur count : ℕ) → read_command disk cur count ≡ command28 disk cur count
  unfolding read_command
  short_command cur count =
      ap (λ b. if b then command48 disk cur count else command28 disk cur count) short

  read_chunks_done :
      (rounds cur end : ℕ) (d : D) (buf : ℕ → ℕ)
      → 0 < rounds
      → end ≤ cur
      → read_chunks ports rounds polls disk cur end d buf
        ≡ ok (record { device = d; buf = buf; success = true })
  unfolding read_chunks
  read_chunks_done zero cur end d buf some h = absurd (omega arith)
  read_chunks_done (suc rounds) cur end d buf some h = rw (ge→ltb cur end h) refl

  read_chunks-HoldsSector :
      (rounds cur last : ℕ) (d : D) (buf : ℕ → ℕ)
      → cur ≤ last
      → last < sectors
      → last - cur + 1 < rounds
      → Idle d
      → Returns
          (λ r. HoldsSector content last buf r × Idle r.device)
          (read_chunks ports rounds polls disk cur (suc last) d buf)
  unfolding read_chunks
  read_chunks-HoldsSector zero cur last d buf some fits enough idle = absurd (omega arith)
  read_chunks-HoldsSector (suc rounds) cur last d buf some fits enough idle =
      elim (lt-or-ge (suc last - cur) 256) [
        | inl whole ↦
            let count = short_count (suc last - cur) (suc (last - cur)) (omega arith) in
            let end : cur + (last - cur) ≡ last = omega arith in
            rw (lt→ltb cur (suc last) (omega arith), count, short_command cur (suc (last - cur)))
              (bind (chunk-HoldsSector (last - cur) cur d buf (omega arith) (omega arith) idle)
                λ r h.
                  rw
                    (
                      h.0.ended,
                      read_chunks_done rounds (cur + suc (last - cur)) (suc last) r.device r.buf
                          (omega arith) (omega arith),
                    )
                    (let done : Run D = record { device = r.device; buf = r.buf; success = true } in
                      let held : HoldsSector content (cur + (last - cur)) buf done = record {
                        ended = refl;
                        sector = h.0.sector;
                        beyond = h.0.beyond;
                      } in
                      returns (subst (λ k. HoldsSector content k buf done) end held, h.1)))
        | inr more ↦
            let count = short_count (suc last - cur) 255 (omega arith) in
            rw (lt→ltb cur (suc last) (omega arith), count, short_command cur 255)
              (bind (chunk-HoldsSector 254 cur d buf (omega arith) (omega arith) idle) λ r h.
                rw h.0.ended (
                  mono
                    (read_chunks-HoldsSector rounds (cur + 255) last r.device r.buf (omega arith)
                      fits (omega arith) h.1)
                    λ q g. (HoldsSector-trans h.0 g.0, g.1)))
      ]

  -- For a disk with 28-bit addresses that serves its sectors as the ATA standard says, within the
  -- number of polls given, and that is idle at first, and a `Read` of 1 to 8192 whole sectors within
  -- the capacity of at most 2^28 sectors to an even address: `Read` ends with success, the first 512
  -- bytes of the buffer are those of the LAST sector that was asked for, nothing is written behind
  -- them, and the disk is idle again. So a `Read` of one sector gives that sector, and one of several
  -- loses all but the last.
  pub read-HoldsSector :
      (lba n address : ℕ) (d : D) (buf : ℕ → ℕ)
      → disk.capacity ≡ sectors * 512
      → lba + suc n ≤ sectors
      → suc n ≤ 8192
      → address % 2 ≡ 0
      → Idle d
      → Returns
          (λ r. HoldsSector content (lba + n) buf r × Idle r.device)
          (read ports polls disk lba (suc n * 512) address d buf)
  unfolding read
  read-HoldsSector lba n address d buf capacity fits bound even idle =
      let whole : suc n * 512 / 512 ≡ suc n = omega arith in
      let start : add64 (mul64 lba 512) (suc n * 512) ≡ lba * 512 + suc n * 512 = omega arith in
      let end : add64 lba (suc n) ≡ suc (lba + n) = omega arith in
      rw
        (
          ≡→== (address % 2) 0 even,
          ≡→== (suc n * 512 % 512) 0 (omega arith),
          le→leb (suc n * 512) (4 * 1024 * 1024) (omega arith),
          start,
          le→leb (lba * 512 + suc n * 512) disk.capacity (omega arith),
          whole,
          end,
        )
        (read_chunks-HoldsSector (suc n + 1) lba (lba + n) d buf (omega arith) (omega arith)
          (omega arith) idle)
