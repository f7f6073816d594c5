-- ===== src/Pci/Bound.antt =====
-- What `PciDevice::EnumerateDevices` and the functions under it list.
use cerius.Base.{
  ℕ, zero, suc, ◌+◌, ◌-◌, ◌≤◌, ◌<◌, ◌≡◌, refl, arith, true, Bool-cases, inl, inr, List, [], length,
  Result, ok, Returns, returns, bind, mono, sym, ◌∙◌, ltb, ltb→lt, if◌then◌else◌,
}
use cerius.Pci.Listed.{IsAddress, Listed, Listed-none, Listed-full, Listed-imp, Listed-append}
use cerius.Pci.Reach.{
  IsIn, Through, AmongFunctions, AmongFunctions-next, InSlot, AmongSlots, AmongSlots-next, OnBus,
  OnHosts, OnHosts-next, IsReached,
}
use cerius.Pci.{
  PciDevice, is_present, is_bridge, is_multi_function, get_secondary_bus, check_function,
  check_functions, check_device, check_devices, check_bus, check_hosts, enumerate_devices,
}

get_secondary_bus_byte : (config : ℕ → ℕ) (d : PciDevice) → get_secondary_bus config d < 256
unfolding get_secondary_bus
get_secondary_bus_byte config d = omega arith

module _ (config : ℕ → ℕ) where
  module _ (check_secondary : (bus max_length : ℕ) → Result (List PciDevice)) (bus : ℕ)
      (low : bus < 256) (Behind : (bus : ℕ) → PciDevice → Type 0)
      (secondary : (b max_length : ℕ)
        → bus < b
        → b < 256
        → Returns (Listed config max_length (Behind b)) (check_secondary b max_length))
      (above : (d : PciDevice)
        → IsAddress d
        → is_bridge config d ≡ true
        → d.bus < get_secondary_bus config d) where
    check_function-Listed :
        (d : PciDevice) (max_length : ℕ)
        → d.bus ≡ bus
        → IsAddress d
        → 0 < max_length
        → is_present config d ≡ true
        → Returns
            (Listed config max_length (Through config Behind d))
            (check_function config check_secondary d max_length)
    unfolding check_function IsIn
    check_function-Listed d max_length on at some' here = elim (Bool-cases (is_bridge config d)) [
      | inl bridge ↦ rw bridge (
          mono
            (secondary (get_secondary_bus config d) max_length (omega (arith, above d at bridge))
              (get_secondary_bus_byte config d))
            λ l h.
              Listed-imp config max_length _ _ l
                (λ e t. elim t [
                  | inl end ↦ absurd (cc (sym bridge ∙ end.0))
                  | inr behind ↦ behind.1
                ])
                h)
      | inr end ↦ rw end (
          returns (record {
            bound = omega arith;
            devices = ((at, here, end), tt);
            all = λ room e t. elim t [
              | inl same ↦ inl same.1
              | inr bridge ↦ absurd (cc (sym end ∙ bridge.0))
            ];
          }))
    ]

    check_functions-Listed :
        (rounds : ℕ) (d : PciDevice) (max_length : ℕ)
        → d.bus ≡ bus
        → d.slot < 32
        → rounds + d.function ≤ 8
        → Returns
            (Listed config max_length (AmongFunctions config Behind rounds d))
            (check_functions config check_secondary rounds d max_length)
    unfolding check_functions
    check_functions-Listed zero d max_length on slot few =
        returns (Listed-none config max_length _ λ e h. absurd (omega (arith, h.1)))
    check_functions-Listed (suc rounds) d max_length on slot few =
        let next : PciDevice = record d { function = d.function + 1 } in
        let at : IsAddress d = record { bus = omega arith; slot = slot; function = omega arith } in
        let later : rounds + (d.function + 1) ≤ 8 = omega arith in
        elim (Bool-cases (ltb 0 max_length)) [
          | inr full ↦ rw full (returns (Listed-full config max_length _ full))
          | inl room ↦ elim (Bool-cases (is_present config d)) [
            | inr absent ↦
                rw (room, absent)
                  (mono (check_functions-Listed rounds next max_length on slot later) λ l h.
                    Listed-imp config max_length _ _ l
                      (λ e s. elim (AmongFunctions-next config Behind rounds d e s) [
                        | inl here ↦ absurd (cc (sym absent ∙ here.0))
                        | inr rest ↦ rest
                      ])
                      h)
            | inl present ↦
                rw (room, present)
                  (bind
                    (check_function-Listed d max_length on at (ltb→lt 0 max_length room) present)
                    λ here h.
                      bind
                        (check_functions-Listed rounds next (max_length - length here) on slot
                          later)
                        λ rest r. returns (
                          Listed-append config max_length _ _ _ here rest
                            (λ e s. elim (AmongFunctions-next config Behind rounds d e s) [
                              | inl here ↦ inl here.1
                              | inr rest ↦ inr rest
                            ])
                            h r))
          ]
        ]

    -- What the further functions of a slot add
    IsFurther : (slot : ℕ) (e : PciDevice) → Type 0
    IsFurther slot e =
        (is_multi_function config (record { bus = bus; slot = slot; function = 0 }) ≡ true)
        × AmongFunctions config Behind 7 (record { bus = bus; slot = slot; function = 1 }) e

    IsFurther-Listed :
        (slot max_length : ℕ)
        → slot < 32
        → Returns (Listed config max_length (IsFurther slot)) (
            if is_multi_function config (record { bus = bus; slot = slot; function = 0 })
            then check_functions config check_secondary 7
                (record { bus = bus; slot = slot; function = 1 })
                max_length
            else ok [])
    unfolding IsFurther
    IsFurther-Listed slot max_length few =
        let d : PciDevice = record { bus = bus; slot = slot; function = 0 } in
        elim (Bool-cases (is_multi_function config d)) [
          | inl multi ↦ rw multi (
              mono
                (check_functions-Listed 7 (record d { function = 1 }) max_length refl few
                  (omega arith))
                λ l h. Listed-imp config max_length _ _ l (λ e s. s.1) h)
          | inr single ↦
              rw single
                (returns (Listed-none config max_length _ λ e s. absurd (cc (sym single ∙ s.0))))
        ]

    check_device-Listed :
        (slot max_length : ℕ)
        → slot < 32
        → 0 < max_length
        → Returns
            (Listed config max_length (InSlot config Behind bus slot))
            (check_device config check_secondary bus slot max_length)
    unfolding check_device IsFurther
    check_device-Listed slot max_length few room =
        let d : PciDevice = record { bus = bus; slot = slot; function = 0 } in
        let at : IsAddress d = record { bus = low; slot = few; function = omega arith } in
        elim (Bool-cases (is_present config d)) [
          | inr absent ↦
              rw absent
                (returns (Listed-none config max_length _ λ e s. absurd (cc (sym absent ∙ s.0))))
          | inl present ↦ rw present (
              bind (check_function-Listed d max_length refl at room present) λ here h.
                bind (IsFurther-Listed slot (max_length - length here) few) λ rest r.
                  returns (Listed-append config max_length _ _ _ here rest (λ e s. s.1) h r))
        ]

    check_devices-Listed :
        (rounds device max_length : ℕ)
        → rounds + device ≤ 32
        → Returns
            (Listed config max_length (AmongSlots config Behind rounds bus device))
            (check_devices config check_secondary rounds bus device max_length)
    unfolding check_devices
    check_devices-Listed zero device max_length few =
        returns (Listed-none config max_length _ λ e h. absurd (omega (arith, h.1)))
    check_devices-Listed (suc rounds) device max_length few = elim (Bool-cases (ltb 0 max_length)) [
      | inr full ↦ rw full (returns (Listed-full config max_length _ full))
      | inl room ↦ rw room (
          bind (check_device-Listed device max_length (omega arith) (ltb→lt 0 max_length room))
            λ here h.
              bind
                (check_devices-Listed rounds (device + 1) (max_length - length here) (omega arith))
                λ rest r. returns (
                  Listed-append config max_length _ _ _ here rest
                    (AmongSlots-next config Behind rounds bus device) h r))
    ]

  module _
      (above : (d : PciDevice)
        → IsAddress d
        → is_bridge config d ≡ true
        → d.bus < get_secondary_bus config d) where
    -- The walk over a bus ends within `256 - bus` nested bridges.
    check_bus-Listed :
        (depth bus max_length : ℕ)
        → bus < 256
        → 256 ≤ depth + bus
        → Returns
            (Listed config max_length (OnBus config depth bus))
            (check_bus config depth bus max_length)
    unfolding check_bus OnBus
    check_bus-Listed zero bus max_length small deep = absurd (omega arith)
    check_bus-Listed (suc depth) bus max_length small deep =
        check_devices-Listed (check_bus config depth) bus small (OnBus config depth)
          (λ b m up byte. check_bus-Listed depth b m byte (omega arith)) above 32 0 max_length
          (omega arith)

    check_hosts-Listed :
        (rounds function max_length : ℕ)
        → rounds + function ≤ 8
        → Returns
            (Listed config max_length (OnHosts config rounds function))
            (check_hosts config rounds function max_length)
    unfolding check_hosts
    check_hosts-Listed zero function max_length few =
        returns (Listed-none config max_length _ λ e h. absurd (omega (arith, h.1)))
    check_hosts-Listed (suc rounds) function max_length few =
        let d : PciDevice = record { bus = 0; slot = 0; function = function } in
        elim (Bool-cases (ltb 0 max_length)) [
          | inr full ↦ rw full (returns (Listed-full config max_length _ full))
          | inl room ↦ elim (Bool-cases (is_present config d)) [
            | inr absent ↦
                rw (room, absent)
                  (returns (
                    Listed-none config max_length _ λ e s.
                      absurd (cc (sym absent ∙ (OnHosts-next config rounds function e s).0))))
            | inl present ↦
                rw (room, present)
                  (bind (check_bus-Listed 256 function max_length (omega arith) (omega arith))
                    λ here h.
                      bind
                        (check_hosts-Listed rounds (function + 1) (max_length - length here)
                          (omega arith))
                        λ rest r. returns (
                          Listed-append config max_length _ _ _ here rest
                            (λ e s. (OnHosts-next config rounds function e s).1) h r))
          ]
        ]

    -- Where every bridge, at an address of a bus below 256, a slot below 32 and a function below 8,
    -- leads to a bus of a higher number, the enumeration ends, with bridges nested at most 256 deep. It
    -- lists at most `max_length` devices, which all have such an address, answer and are no bridges.
    -- If it lists fewer, no device is missing that answers and can be reached: on bus 0, or of several
    -- host controllers, up to the first that does not answer, on the bus with the number of each,
    -- and behind the bridges there.
    pub enumerate_devices-Listed :
        (max_length : ℕ)
        → Returns
            (Listed config max_length (IsReached config))
            (enumerate_devices config max_length)
    unfolding enumerate_devices
    enumerate_devices-Listed max_length =
        let d : PciDevice = record { bus = 0; slot = 0; function = 0 } in
        elim (Bool-cases (is_multi_function config d)) [
          | inl multi ↦ rw multi (
              mono (check_hosts-Listed 8 0 max_length (omega arith)) λ l h.
                Listed-imp config max_length _ _ l
                  (λ e s. elim s [
                    | inl hosts ↦ hosts.1
                    | inr one ↦ absurd (cc (sym multi ∙ one.0))
                  ])
                  h)
          | inr single ↦ rw single (
              mono (check_bus-Listed 256 0 max_length (omega arith) (omega arith)) λ l h.
                Listed-imp config max_length _ _ l
                  (λ e s. elim s [
                    | inl hosts ↦ absurd (cc (sym single ∙ hosts.0))
                    | inr one ↦ one.1
                  ])
                  h)
        ]
