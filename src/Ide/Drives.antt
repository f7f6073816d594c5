-- ===== src/Ide/Drives.antt =====
-- What `IdeDisk::EnumerateDisks` and the functions under it find.
use cerius.Base.{
  ℕ, ◌-◌, ◌≤◌, ◌<◌, ◌^◌, ◌%◌, ◌≡◌, refl, arith, Bool, true, false, Bool-cases, inl, inr, List, [],
  ◌∷◌, ◌++◌, length, length-append, All, All-append, All-imp, Returns, returns, bind, ltb, ltb→lt,
  ltb→ge, ◌==◌, ◌&&◌, ==→≡, if◌then◌else◌, not, bit_and,
}
use cerius.Pci.{PciDevice, get_base_class, get_sub_class, get_secondary_bus, is_bridge, get_bar}
use cerius.Pci.Bound.{enumerate_devices-Listed}
use cerius.Pci.Listed.{IsAddress, IsEnd}
use cerius.Ide.{
  IdeDisk, Ports, poll_identify, identify, settle, out_all, reg_hd_dev_sel, reg_command, init,
  as_list, port_of, probe, probe_all, probe_devices, enumerate_disks,
}

port_of_bound : (bar legacy : ℕ) → 2 ≤ legacy → 2 ≤ port_of bar legacy
port_of_bound bar legacy h = elim (Bool-cases (ltb (bar % 2 ^ 16) 2)) [
  | inl low ↦ rw low h
  | inr high ↦ rw high (ltb→ge (bar % 2 ^ 16) 2 high)
]

-- A disk of the device `con`, whose command port is no legacy marker
abbrev IsDiskOf : PciDevice → IdeDisk → Type 0
IsDiskOf con disk = (disk.con ≡ con) × (2 ≤ disk.port)

-- A function of the class of IDE controllers that is enumerated
abbrev pub IsController : (config : ℕ → ℕ) → PciDevice → Type 0
IsController config con =
    IsEnd config con × (get_base_class config con ≡ 0x01) × (get_sub_class config con ≡ 0x01)

-- The port of the registers of a channel
abbrev pub channel_port : (config : ℕ → ℕ) → PciDevice → (primary : Bool) → ℕ
channel_port config con primary =
    if primary then port_of (get_bar config con 0) 0x1f0 else port_of (get_bar config con 2) 0x170

-- A disk of an IDE controller that answers on the bus
abbrev pub IsIdeDisk : (config : ℕ → ℕ) → IdeDisk → Type 0
IsIdeDisk config disk = IsController config disk.con × (2 ≤ disk.port)

-- The polling ends after IDENTIFY has been sent to a disk.
abbrev pub IdentifyEnds {ℓ} : {D : Type ℓ} → Ports D → (polls port : ℕ) (master : Bool) → D → Type ℓ
IdentifyEnds ports polls port master d =
    Returns (λ r. Unit {0})
      (poll_identify ports polls port (
        settle ports port (
          out_all ports port
            ((reg_hd_dev_sel, if master then 0xa0 else 0xb0) ∷ (reg_command, 0xec) ∷ []) d)))

-- At most `room` disks, each with `P`
pub record Found {ℓ} {D : Type ℓ} (P : IdeDisk → Type 0) (room : ℕ) (r : D × List IdeDisk)
    : Type 0 where
  pub bound : length r.1 ≤ room
  pub disks : All P r.1

module _ {ℓ} {D : Type ℓ} {P : IdeDisk → Type 0} where
  Found-none : (room : ℕ) (d : D) → Found P room (d, [])
  Found-none room d = record { bound = omega arith; disks = tt }

  Found-append :
      (room : ℕ) (here rest : D × List IdeDisk)
      → Found P room here
      → Found P (room - length here.1) rest
      → Found P room (rest.0, here.1 ++ rest.1)
  Found-append room here rest h r = record {
    bound = omega (arith, length-append here.1 rest.1, h.bound, r.bound);
    disks = All-append P here.1 rest.1 h.disks r.disks;
  }

module _ {ℓ} {D : Type ℓ} (ports : Ports D) (polls : ℕ) (noise : ℕ → ℕ) (config : ℕ → ℕ)
    (answers : (con : PciDevice) (primary master : Bool) (d : D)
      → IsController config con
      → IdentifyEnds ports polls (channel_port config con primary) master d) where
  identify_ends :
      (port : ℕ) (master : Bool) (d : D) (buf : ℕ → ℕ)
      → IdentifyEnds ports polls port master d
      → Returns (λ r. Unit {0}) (identify ports polls port master d buf)
  unfolding identify
  identify_ends port master d buf ends = bind ends λ polled u. returns tt

  init-IsDiskOf :
      (con : PciDevice) (primary master : Bool) (port con_port : ℕ) (d : D)
      → 2 ≤ port
      → IdentifyEnds ports polls port master d
      → Returns
          (λ r. All (IsDiskOf con) (as_list r.1) × (length (as_list r.1) ≤ 1))
          (init ports polls noise con primary master port con_port d)
  unfolding init
  init-IsDiskOf con primary master port con_port d high ends =
      bind (identify_ends port master d noise ends) λ r u.
        elim (Bool-cases (r.success && not (bit_and (r.buf 49) (2 ^ 9) == 0))) [
          | inl is ↦ rw is (returns (((refl, high), tt), omega arith))
          | inr not' ↦ rw not' (returns (tt, omega arith))
        ]

  probe-Found :
      (con : PciDevice) (primary master : Bool) (room : ℕ) (d : D)
      → IsController config con
      → Returns
          (Found (IsDiskOf con) room)
          (probe ports polls noise config con primary master room d)
  unfolding probe
  probe-Found con primary master room d is = elim (Bool-cases (ltb 0 room)) [
    | inl some' ↦
        let fits = ltb→lt 0 room some' in
        rw some' (
          bind
            (init-IsDiskOf con primary master _ _ d (by_channel primary)
              (answers con primary master d is))
            λ r h. returns (record { bound = omega (arith, h.1); disks = h.0 }))
    | inr full ↦ rw full (returns (Found-none room d))
  ]
    where
      by_channel : (primary : Bool) → 2 ≤ channel_port config con primary
      by_channel true = port_of_bound (get_bar config con 0) 0x1f0 (omega arith)
      by_channel false = port_of_bound (get_bar config con 2) 0x170 (omega arith)

  probe_all-Found :
      (con : PciDevice) (room : ℕ) (d : D)
      → IsController config con
      → Returns (Found (IsDiskOf con) room) (probe_all ports polls noise config con room d)
  unfolding probe_all
  probe_all-Found con room d is = bind (probe-Found con false false room d is) λ a ha.
      bind (probe-Found con false true (room - length a.1) a.0 is) λ b hb.
        bind (probe-Found con true false (room - length a.1 - length b.1) b.0 is) λ c hc.
          bind (probe-Found con true true (room - length a.1 - length b.1 - length c.1) c.0 is)
            λ e he. returns (
              Found-append room a (e.0, b.1 ++ (c.1 ++ e.1)) ha
                (Found-append (room - length a.1) b (e.0, c.1 ++ e.1) hb
                  (Found-append (room - length a.1 - length b.1) c e hc he)))

  probe_devices-Found :
      (devices : List PciDevice) (room : ℕ) (d : D)
      → All (IsEnd config) devices
      → Returns
          (Found (IsIdeDisk config) room)
          (probe_devices ports polls noise config devices room d)
  unfolding probe_devices
  probe_devices-Found [] room d h = returns (Found-none room d)
  probe_devices-Found (con ∷ devices) room d h =
      let skipped = probe_devices-Found devices room d h.1 in
      elim (Bool-cases (ltb 0 room)) [
        | inr full ↦ rw full (returns (Found-none room d))
        | inl some' ↦ elim (Bool-cases (get_base_class config con == 0x01)) [
          | inr other ↦ rw (some', other) skipped
          | inl base ↦ elim (Bool-cases (get_sub_class config con == 0x01)) [
            | inr other ↦ rw (some', base, other) skipped
            | inl sub ↦
                let is : IsController config con = (h.0, ==→≡ _ _ base, ==→≡ _ _ sub) in
                rw (some', base, sub)
                  (bind (probe_all-Found con room d is) λ here p.
                    bind (probe_devices-Found devices (room - length here.1) here.0 h.1)
                      λ rest q. returns (Found-append room here rest (ide_disks here p is) q))
          ]
        ]
      ]
    where
      ide_disks :
          (here : D × List IdeDisk)
          → Found (IsDiskOf con) room here
          → IsController config con
          → Found (IsIdeDisk config) room here
      ide_disks here p is = record {
        bound = p.bound;
        disks = All-imp (IsDiskOf con) here.1 (λ disk of. rw of.0 (is, of.1)) p.disks;
      }

  -- On a machine where every bridge, at an address of a bus below 256, a slot below 32 and a function
  -- below 8, leads to a bus with a higher number, and where on the channels of the IDE controllers the
  -- polling ends after `Identify` has sent its command, from every state of the machine:
  -- `EnumerateDisks` ends. It finds at most `max_length` disks, and each belongs to a device that has
  -- such an address, answers with the class of an IDE controller (1, 1), is no bridge, and is reached
  -- by a port that is not 0 or 1, the marks of a legacy controller.
  pub enumerate_disks-Found :
      (max_length : ℕ) (d : D)
      → ((c : PciDevice)
          → IsAddress c
          → is_bridge config c ≡ true
          → c.bus < get_secondary_bus config c)
      → Returns
          (Found (IsIdeDisk config) max_length)
          (enumerate_disks ports polls noise config max_length d)
  unfolding enumerate_disks
  enumerate_disks-Found max_length d above =
      bind (enumerate_devices-Listed config above 100)
        λ devices h. probe_devices-Found devices max_length d h.devices
