-- ===== src/Ide/Stream.antt =====
-- What `IdeDisk::Read` stores of the sectors of one command, from a disk that serves them.
use cerius.Base.{
  ℕ, zero, suc, ◌+◌, ◌-◌, ◌≤◌, ◌<◌, ◌≡◌, ◌∙◌, refl, arith, true, false, List, [], ◌∷◌, Returns,
  returns, bind, mono, ≢→==, ≡→==, ◌≢◌, inl, inr, lt-or-ge, subst, ≡→==,
}
use cerius.Ide.{
  Ports, Run, is_error, is_ready, out_all, status_read, settle, poll, read_words, read_sector,
  read_sectors, store, reg_data, reg_hd_dev_sel, reg_sec_count0, reg_lba0, reg_lba1, reg_lba2,
  reg_command,
}
use cerius.Ide.Registers.{decode28}

-- The buffer after a successful run: its first 256 words are those of sector `s`, the others are old.
pub record HoldsSector {ℓ} {D : Type ℓ} (content : (sector word : ℕ) → ℕ) (s : ℕ) (old : ℕ → ℕ)
    (r : Run D) : Type ℓ where
  pub ended : r.success ≡ true
  pub sector : (j : ℕ) → j < 256 → r.buf j ≡ content s j
  pub beyond : (j : ℕ) → 256 ≤ j → r.buf j ≡ old j

module _ {ℓ} {D : Type ℓ} {content : (sector word : ℕ) → ℕ} where
  -- A later run on the buffer that an earlier one left
  pub HoldsSector-trans :
      {s t : ℕ} {old : ℕ → ℕ} {r q : Run D}
      → HoldsSector content s old r
      → HoldsSector content t r.buf q
      → HoldsSector content t old q
  HoldsSector-trans first second = record {
    ended = second.ended;
    sector = second.sector;
    beyond = λ j a. second.beyond j a ∙ first.beyond j a;
  }

-- The writes of a command with a 28-bit address
abbrev pub writes28 : (device sec_count lba0 lba1 lba2 command : ℕ) → List (ℕ × ℕ)
writes28 device sec_count lba0 lba1 lba2 command =
    (reg_hd_dev_sel, device)
    ∷ (reg_sec_count0, sec_count)
    ∷ (reg_lba0, lba0)
    ∷ (reg_lba1, lba1)
    ∷ (reg_lba2, lba2)
    ∷ (reg_command, command)
    ∷ []

module _ {ℓ} {D : Type ℓ} (ports : Ports D) where
  -- The documented behaviour of a disk of `sectors` sectors behind `port`, whose sector `s` has the
  -- words `content s`. `Idle d` says that no transfer is under way. `Streams d s w left busy` says
  -- that the disk gives word `w` of sector `s` next, that `left` sectors are asked for from there on,
  -- and, before the first word of a sector, that the next `busy` readings of the status show that it
  -- is not ready. What the status shows in the middle or at the end of a sector is left open.
  pub record Serves (port slave sectors polls : ℕ) (content : (sector word : ℕ) → ℕ)
      (Idle : D → Type ℓ) (Streams : D → (s w left busy : ℕ) → Type ℓ) : Type ℓ where
    -- READ SECTORS starts a transfer on an idle disk, by registers that are bytes.
    pub starts :
        (d : D) (device sec_count lba0 lba1 lba2 command s n : ℕ)
        → Idle d
        → decode28 (writes28 device sec_count lba0 lba1 lba2 command)
          ≡ record { lba = s; count = n; slave = slave; opcode = 0x20 }
        → device < 256
        → sec_count < 256
        → lba0 < 256
        → lba1 < 256
        → lba2 < 256
        → 0 < n
        → s + n ≤ sectors
        → (busy : ℕ) × (busy < polls)
          × Streams
              (out_all ports port (writes28 device sec_count lba0 lba1 lba2 command) d)
              s
              0
              n
              busy
    pub waits :
        (d : D) (s left busy : ℕ)
        → Streams d s 0 (suc left) (suc busy)
        → (is_error (status_read ports port d).1 ≡ false)
          × (is_ready (status_read ports port d).1 ≡ false)
          × Streams (status_read ports port d).0 s 0 (suc left) busy
    pub answers :
        (d : D) (s left : ℕ)
        → Streams d s 0 (suc left) 0
        → (is_error (status_read ports port d).1 ≡ false)
          × (is_ready (status_read ports port d).1 ≡ true)
          × Streams (status_read ports port d).0 s 0 (suc left) 0
    -- Each reading of the data register gives the next word.
    pub gives :
        (d : D) (s w left : ℕ)
        → Streams d s w (suc left) 0
        → w < 256
        → ((ports.in_w d (port + reg_data)).1 ≡ content s w)
          × Streams (ports.in_w d (port + reg_data)).0 s (suc w) (suc left) 0
    -- After the last word of a sector, the disk is busy with the next one for a while;
    pub turns :
        (d : D) (s left : ℕ)
        → Streams d s 256 (suc (suc left)) 0
        → (busy : ℕ) × (busy < polls) × Streams d (suc s) 0 (suc left) busy
    -- after the last word of the last sector, it is idle.
    pub ends : (d : D) (s : ℕ) → Streams d s 256 1 0 → Idle d

  module _ (port slave sectors polls : ℕ) (content : (sector word : ℕ) → ℕ) (Idle : D → Type ℓ)
      (Streams : D → (s w left busy : ℕ) → Type ℓ)
      (serves : Serves port slave sectors polls content Idle Streams) where
    -- A reading of the status moves a transfer on by at most a round of waiting.
    settle_once :
        (d : D) (s left busy : ℕ)
        → Streams d s 0 (suc left) busy
        → Streams (status_read ports port d).0 s 0 (suc left) (busy - 1)
    settle_once d s left zero h = (serves.answers d s left h).2
    settle_once d s left (suc busy) h =
        let one : suc busy - 1 ≡ busy = omega arith in rw one (serves.waits d s left busy h).2

    settle-Streams :
        (d : D) (s left busy : ℕ)
        → Streams d s 0 (suc left) busy
        → Streams (settle ports port d) s 0 (suc left) (busy - 1 - 1 - 1)
    settle-Streams d s left busy h =
        settle_once _ s left (busy - 1 - 1)
          (settle_once _ s left (busy - 1) (settle_once d s left busy h))

    poll-Streams :
        (rounds : ℕ) (d : D) (s left busy : ℕ)
        → Streams d s 0 (suc left) busy
        → busy < rounds
        → Returns (λ r. (r.1 ≡ true) × Streams r.0 s 0 (suc left) 0) (poll ports rounds port d)
    unfolding poll
    poll-Streams zero d s left busy h few = absurd (omega arith)
    poll-Streams (suc rounds) d s left zero h few =
        let a = serves.answers d s left h in rw (a.0, a.1) (returns (refl, a.2))
    poll-Streams (suc rounds) d s left (suc busy) h few =
        let a = serves.waits d s left busy h in
        rw (a.0, a.1) (poll-Streams rounds _ s left busy a.2 (omega arith))

    -- The words that a loop reads, where it puts them, and how far the transfer is then
    record HasWords (s i n left : ℕ) (old : ℕ → ℕ) (r : D × (ℕ → ℕ)) : Type ℓ where
      inside : (j : ℕ) → i ≤ j → j < i + n → r.1 j ≡ content s j
      before : (j : ℕ) → j < i → r.1 j ≡ old j
      after : (j : ℕ) → i + n ≤ j → r.1 j ≡ old j
      streams : Streams r.0 s (i + n) (suc left) 0

    read_words-HasWords :
        (n : ℕ) (d : D) (s i left : ℕ) (buf : ℕ → ℕ)
        → Streams d s i (suc left) 0
        → i + n ≤ 256
        → HasWords s i n left buf (read_words ports n port i d buf)
    unfolding read_words
    read_words-HasWords zero d s i left buf h fits =
        let none : i + 0 ≡ i = omega arith in
        record {
          inside = λ j a b. absurd (omega arith);
          before = λ j a. refl;
          after = λ j a. refl;
          streams = rw none h;
        }
    read_words-HasWords (suc n) d s i left buf h fits =
        let word : D × ℕ = ports.in_w d (port + reg_data) in
        let g = serves.gives d s i left h (omega arith) in
        let next : suc i ≡ i + 1 = omega arith in
        let end : i + suc n ≡ i + 1 + n = omega arith in
        let rest =
          read_words-HasWords n word.0 s (i + 1) left (store buf i word.1)
            (subst (λ k. Streams word.0 s k (suc left) 0) next g.1) (omega arith) in
        let other : (j : ℕ) → j ≢ i → store buf i word.1 j ≡ buf j =
          λ j ne. rw (≢→== j i ne) refl in
        let here : store buf i word.1 i ≡ content s i = rw (≡→== i i refl) g.0 in
        record {
          inside = λ j a b. elim (lt-or-ge i j) [
            | inl more ↦ rest.inside j (omega arith) (omega arith)
            | inr same ↦ let at : j ≡ i = omega arith in rw at (rest.before i (omega arith) ∙ here)
          ];
          before = λ j a. rest.before j (omega arith) ∙ other j (omega arith);
          after = λ j a. rest.after j (omega arith) ∙ other j (omega arith);
          streams = rw end rest.streams;
        }

    -- How a sector leaves the disk, with the sectors left: idle, or before the next sector
    Next : D → (s left : ℕ) → Type ℓ
    Next d s zero = Idle d
    Next d s (suc left) = (busy : ℕ) × (busy < polls) × Streams d (suc s) 0 (suc left) busy

    sector_end : (d : D) (s left : ℕ) → Streams d s 256 (suc left) 0 → Next d s left
    unfolding Next
    sector_end d s zero h = serves.ends d s h
    sector_end d s (suc left) h = serves.turns d s left h

    read_sector-HoldsSector :
        (d : D) (s left busy : ℕ) (buf : ℕ → ℕ)
        → Streams d s 0 (suc left) busy
        → busy < polls
        → Returns
            (λ r. HoldsSector content s buf r × Next r.device s left)
            (read_sector ports polls port d buf)
    unfolding read_sector
    read_sector-HoldsSector d s left busy buf h few =
        bind
          (poll-Streams polls _ s left (busy - 1 - 1 - 1) (settle-Streams d s left busy h)
            (omega arith))
          λ polled q.
            let w = read_words-HasWords 256 polled.0 s 0 left buf q.1 (omega arith) in
            rw q.0 (
              returns (
                record {
                  ended = refl;
                  sector = λ j a. w.inside j (omega arith) (omega arith);
                  beyond = λ j a. w.after j (omega arith);
                },
                sector_end _ s left w.streams,
              ))

    -- Of several sectors, all are stored in the same place, and the last stays; then the disk is idle.
    pub read_sectors-HoldsSector :
        (n : ℕ) (d : D) (s busy : ℕ) (buf : ℕ → ℕ)
        → Streams d s 0 (suc n) busy
        → busy < polls
        → Returns
            (λ r. HoldsSector content (s + n) buf r × Idle r.device)
            (read_sectors ports (suc n) polls port d buf)
    unfolding read_sectors Next
    read_sectors-HoldsSector zero d s busy buf h few =
        let none : s + 0 ≡ s = omega arith in
        bind (read_sector-HoldsSector d s 0 busy buf h few) λ r q.
          rw (none, q.0.ended)
            (returns (record { ended = refl; sector = q.0.sector; beyond = q.0.beyond }, q.1))
    read_sectors-HoldsSector (suc n) d s busy buf h few =
        let next : suc s + n ≡ s + suc n = omega arith in
        bind (read_sector-HoldsSector d s (suc n) busy buf h few) λ r q. rw q.0.ended (
          mono
            (subst
              (λ k.
                Returns (λ q. HoldsSector content k r.buf q × Idle q.device)
                  (read_sectors ports (suc n) polls port r.device r.buf))
              next (read_sectors-HoldsSector n r.device (suc s) q.1.0 r.buf q.1.2 q.1.1))
            λ last h. (HoldsSector-trans q.0 h.0, h.1))
