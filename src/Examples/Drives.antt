-- ===== src/Examples/Drives.antt =====
-- A disk and a machine for bootloader/drivers/Ata/Ide.
use cerius.Base.{
  ℕ, ◌+◌, ◌-◌, ◌∙◌, ◌*◌, ◌/◌, ◌%◌, ◌^◌, ◌<◌, ◌≡◌, refl, ap, arith, true, false, ◌==◌, if◌then◌else◌,
  Returns, returns, ltb, ≢→==, lt→ltb, Bool, false, Bool-cases, inl, inr, suc,
}
use cerius.Pci.{PciDevice}
use cerius.Ide.{IdeDisk, Ports, read, enumerate_disks, command28, command48, poll_identify, out_all}
use cerius.Ide.Registers.{decode28, decode48, command28-decode28, command48-decode48}
use cerius.Ide.Stream.{Serves, HoldsSector}
use cerius.Ide.Transfer.{read-HoldsSector}
use cerius.Examples.Buses.{bridged, bridged-bridges}
use cerius.Ide.Drives.{Found, IdentifyEnds, IsIdeDisk, channel_port, enumerate_disks-Found}

abbrev no_device : PciDevice
no_device = record { bus = 0; slot = 0; function = 0 }

abbrev small_disk : IdeDisk
small_disk = record {
  con = no_device;
  primary = true;
  master = true;
  port = 0x1f0;
  con_port = 0x3f6;
  lba48 = false;
  capacity = 1000 * 512;
}

abbrev large_disk : IdeDisk
large_disk = record {
  con = no_device;
  primary = true;
  master = true;
  port = 0x1f0;
  con_port = 0x3f6;
  lba48 = true;
  capacity = 2 ^ 40;
}

command28_example :
    decode28 (command28 small_disk 70000 3)
    ≡ record { lba = 70000; count = 3; slave = 0; opcode = 0x20 }
command28_example = command28-decode28 small_disk 70000 3 (omega arith) (omega arith)

command48_example : decode48 (command48 large_disk 70000 300) ≡ record {
  lba = 70000 - (70000 / 2 ^ 4 % 2 ^ 4 * 2 ^ 4 + 70000 / 2 ^ 28 % 2 ^ 4 * 2 ^ 28);
  count = 300;
  slave = 0;
  opcode = 0x24;
}
command48_example = command48-decode48 large_disk 70000 300 (omega arith) (omega arith)

-- A disk with its registers, the index of the word that it gives next, the number of the words that
-- are asked for, and the number of readings of the status that still find it busy: 4 after a command,
-- 2 after the last word of a sector
record Toy : Type 0 where
  device : ℕ
  sec_count : ℕ
  lba0 : ℕ
  lba1 : ℕ
  lba2 : ℕ
  next : ℕ
  asked : ℕ
  busy : ℕ

abbrev toy_out : Toy → (port value : ℕ) → Toy
toy_out d port value =
    if port == 0x1f6
    then record d { device = value % 2 ^ 8 }
    else if port == 0x1f5
    then record d { lba2 = value % 2 ^ 8 }
    else if port == 0x1f4
    then record d { lba1 = value % 2 ^ 8 }
    else if port == 0x1f3
    then record d { lba0 = value % 2 ^ 8 }
    else if port == 0x1f2
    then record d { sec_count = value % 2 ^ 8 }
    else if port == 0x1f7
    then record d {
      next = (d.device % 2 ^ 4 * 2 ^ 24 + d.lba2 * 2 ^ 16 + d.lba1 * 2 ^ 8 + d.lba0) * 256;
      asked = d.sec_count * 256;
      busy = 4;
    }
    else d

-- Busy, idle, or ready with data
abbrev toy_status : (busy asked : ℕ) → ℕ
toy_status busy asked = if ltb 0 busy then 0x80 else if asked == 0 then 0x50 else 0x58

abbrev toy_content : (sector word : ℕ) → ℕ
toy_content sector word = sector + word

abbrev toy_ports : Ports Toy
toy_ports = record {
  out_b = toy_out;
  in_b = λ d port. (record d { busy = d.busy - 1 }, toy_status d.busy d.asked);
  in_w = λ d port. (
    record d {
      next = d.next + 1;
      asked = d.asked - 1;
      busy = if (d.next + 1) % 256 == 0 then 2 else 0;
    },
    toy_content (d.next / 256) (d.next % 256),
  );
}

abbrev ToyIdle : Toy → Type 0
ToyIdle d = d.asked ≡ 0

record ToyStreams (d : Toy) (s w left busy : ℕ) : Type 0 where
  next : d.next ≡ s * 256 + w
  asked : d.asked + w ≡ left * 256
  busy_before : w < 256 → d.busy ≡ busy
  busy_bound : d.busy < 5

words : (s w : ℕ) → w < 256 → toy_content ((s * 256 + w) / 256) ((s * 256 + w) % 256) ≡ s + w
words s w few = omega arith

toy-waits :
    (d : Toy) (s left busy : ℕ)
    → ToyStreams d s 0 (suc left) (suc busy)
    → ToyStreams (record d { busy = d.busy - 1 }) s 0 (suc left) busy
toy-waits d s left busy h = record {
  next = h.next;
  asked = h.asked;
  busy_before = λ few. omega (arith, h.busy_before few);
  busy_bound = omega (arith, h.busy_bound);
}

toy-gives :
    (d : Toy) (s w left : ℕ)
    → ToyStreams d s w (suc left) 0
    → w < 256
    → ToyStreams (toy_ports.in_w d 0x1f0).0 s (suc w) (suc left) 0
toy-gives d s w left h few = record {
  next = omega (arith, h.next);
  asked = omega (arith, h.asked);
  busy_before = λ more. rw (≢→== ((d.next + 1) % 256) 0 (λ e. absurd (omega (arith, h.next)))) refl;
  busy_bound = elim (Bool-cases ((d.next + 1) % 256 == 0)) [
    | inl last ↦ rw last (omega arith)
    | inr more ↦ rw more (omega arith)
  ];
}

toy-Serves : Serves toy_ports 0x1f0 0 1000 5 toy_content ToyIdle ToyStreams
unfolding decode28 out_all
toy-Serves = record {
  starts = λ d device sec_count lba0 lba1 lba2 command s n idle e b0 b1 b2 b3 b4 some' fits. (
    4,
    omega arith,
    record {
      next = omega (arith, ap (λ r. r.lba) e);
      asked = omega (arith, ap (λ r. r.count) e);
      busy_before = λ few. refl;
      busy_bound = omega arith;
    },
  );
  waits = λ d s left busy h.
      let wait : toy_status d.busy d.asked ≡ 0x80 =
        rw (lt→ltb 0 d.busy (omega (arith, h.busy_before (omega arith)))) refl in
      (rw wait refl, rw wait refl, toy-waits d s left busy h);
  answers = λ d s left h.
      let none : d.busy ≡ 0 = h.busy_before (omega arith) in
      let ready : toy_status d.busy d.asked ≡ 0x58 =
        rw (none, ≢→== d.asked 0 (λ e. absurd (omega (arith, h.asked)))) refl in
      (
        rw ready refl,
        rw ready refl,
        record {
          next = h.next;
          asked = h.asked;
          busy_before = λ few. omega arith;
          busy_bound = omega arith;
        },
      );
  gives = λ d s w left h few. (
    ap (λ p. toy_content (p / 256) (p % 256)) h.next ∙ words s w few,
    toy-gives d s w left h few,
  );
  turns = λ d s left h. (
    d.busy,
    h.busy_bound,
    record {
      next = omega (arith, h.next);
      asked = omega (arith, h.asked);
      busy_before = λ few. refl;
      busy_bound = h.busy_bound;
    },
  );
  ends = λ d s h. omega (arith, h.asked);
}

abbrev toy_start : Toy
toy_start = record {
  device = 0;
  sec_count = 0;
  lba0 = 0;
  lba1 = 0;
  lba2 = 0;
  next = 0;
  asked = 0;
  busy = 0;
}

read_example :
    Returns
      (λ r. HoldsSector toy_content 12 (λ i. 0) r × ToyIdle r.device)
      (read toy_ports 5 small_disk 10 (3 * 512) 4096 toy_start (λ i. 0))
read_example =
    read-HoldsSector toy_ports small_disk 1000 5 toy_content ToyIdle ToyStreams toy-Serves refl
      (omega arith) 10 2 4096 toy_start (λ i. 0) refl (omega arith) (omega arith) refl refl

-- Channels with a drive that has data ready once IDENTIFY was the last that was written, and is idle
-- otherwise
abbrev drives : Ports Bool
drives = record {
  out_b = λ asked port value. value == 0xec;
  in_b = λ asked port. (asked, if asked then 0x58 else 0x50);
  in_w = λ asked port. (asked, 0xffff);
}

drives-IdentifyEnds :
    (port : ℕ) (master : Bool) (asked : Bool) → IdentifyEnds drives 1 port master asked
unfolding poll_identify out_all
drives-IdentifyEnds port master asked = returns tt

enumerate_disks_example :
    Returns (Found (IsIdeDisk bridged) 4) (enumerate_disks drives 1 (λ i. 0) bridged 4 false)
enumerate_disks_example =
    enumerate_disks-Found drives 1 (λ i. 0) bridged
      (λ con primary master asked is.
        drives-IdentifyEnds (channel_port bridged con primary) master asked)
      4 false bridged-bridges
