-- ===== src/Pci/Reach.antt =====
-- The functions that the enumeration of `PciDevice::EnumerateDevices` is to find, by what a PCI machine
-- shows of them: a slot is looked at when its function 0 answers, its functions 1 to 7 when function
-- 0 has the bit of a device with several functions, and behind a bridge comes its secondary bus.
use cerius.Base.{
  ℕ, zero, suc, ◌+◌, ◌<◌, ◌≤◌, ◌≡◌, ◌⊎◌, inl, inr, subst, arith, true, false, List, [], ◌∷◌, ◌++◌,
}
use cerius.Pci.{PciDevice, is_present, is_bridge, is_multi_function, get_secondary_bus}

unfoldable pub IsIn : PciDevice → List PciDevice → Type 0
IsIn e [] = ⊥
IsIn e (d ∷ l) = (e ≡ d) ⊎ IsIn e l

pub IsIn-left : (e : PciDevice) (l r : List PciDevice) → IsIn e l → IsIn e (l ++ r)
unfolding IsIn
IsIn-left e [] r h = absurd h
IsIn-left e (d ∷ l) r (inl same) = inl same
IsIn-left e (d ∷ l) r (inr h) = inr (IsIn-left e l r h)

pub IsIn-right : (e : PciDevice) (l r : List PciDevice) → IsIn e r → IsIn e (l ++ r)
unfolding IsIn
IsIn-right e [] r h = h
IsIn-right e (d ∷ l) r h = inr (IsIn-right e l r h)

module _ (config : ℕ → ℕ) where
  module _ (Behind : (bus : ℕ) → PciDevice → Type 0) where
    -- `e` is the function `d`, or is behind it if that is a bridge.
    abbrev pub Through : (d e : PciDevice) → Type 0
    Through d e =
        ((is_bridge config d ≡ false) × (e ≡ d))
        ⊎ ((is_bridge config d ≡ true) × Behind (get_secondary_bus config d) e)

    -- The same for one of the `rounds` functions from `d` on, which answers
    abbrev pub AmongFunctions : (rounds : ℕ) (d e : PciDevice) → Type 0
    AmongFunctions rounds d e =
        (k : ℕ) × (k < rounds)
        × (is_present config (record d { function = d.function + k }) ≡ true)
        × Through (record d { function = d.function + k }) e

    abbrev pub InSlot : (bus slot : ℕ) (e : PciDevice) → Type 0
    InSlot bus slot e =
        let d : PciDevice = record { bus = bus; slot = slot; function = 0 } in
        (is_present config d ≡ true)
        × (Through d e
            ⊎ ((is_multi_function config d ≡ true)
                × AmongFunctions 7 (record { bus = bus; slot = slot; function = 1 }) e))

    -- In one of the `rounds` slots from `slot` on
    abbrev pub AmongSlots : (rounds bus slot : ℕ) (e : PciDevice) → Type 0
    AmongSlots rounds bus slot e = (k : ℕ) × (k < rounds) × InSlot bus (slot + k) e

    pub AmongFunctions-next :
        (rounds : ℕ) (d e : PciDevice)
        → AmongFunctions (suc rounds) d e
        → ((is_present config d ≡ true) × Through d e)
          ⊎ AmongFunctions rounds (record d { function = d.function + 1 }) e
    AmongFunctions-next rounds d e (zero, few, present, h) =
        let here : d.function + 0 ≡ d.function = omega arith in
        inl (
          subst
            (λ f.
              (is_present config (record d { function = f }) ≡ true)
              × Through (record d { function = f }) e)
            here (present, h))
    AmongFunctions-next rounds d e (suc k, few, present, h) =
        let later : d.function + suc k ≡ d.function + 1 + k = omega arith in
        let found : (is_present config (record d { function = d.function + 1 + k }) ≡ true)
            × Through (record d { function = d.function + 1 + k }) e =
          subst
            (λ f.
              (is_present config (record d { function = f }) ≡ true)
              × Through (record d { function = f }) e)
            later (present, h) in
        inr (k, omega arith, found.0, found.1)

    pub AmongSlots-next :
        (rounds bus slot : ℕ) (e : PciDevice)
        → AmongSlots (suc rounds) bus slot e
        → InSlot bus slot e ⊎ AmongSlots rounds bus (slot + 1) e
    AmongSlots-next rounds bus slot e (zero, few, h) =
        let here : slot + 0 ≡ slot = omega arith in inl (subst (λ s. InSlot bus s e) here h)
    AmongSlots-next rounds bus slot e (suc k, few, h) =
        let later : slot + suc k ≡ slot + 1 + k = omega arith in
        inr (k, omega arith, subst (λ s. InSlot bus s e) later h)

  -- On a bus or behind its bridges, of which fewer than `depth` are nested
  unfoldable pub OnBus : (depth bus : ℕ) → PciDevice → Type 0
  OnBus zero bus e = ⊥
  OnBus (suc depth) bus e = AmongSlots (OnBus depth) 32 bus 0 e

  -- On the bus of one of the `rounds` host controllers from `function` on, where all before it answer
  abbrev pub OnHosts : (rounds function : ℕ) → PciDevice → Type 0
  OnHosts rounds function e =
      (k : ℕ) × (k < rounds)
      × ((j : ℕ)
          → j ≤ k
          → is_present config (record { bus = 0; slot = 0; function = function + j }) ≡ true)
      × OnBus 256 (function + k) e

  pub OnHosts-next :
      (rounds function : ℕ) (e : PciDevice)
      → OnHosts (suc rounds) function e
      → (is_present config (record { bus = 0; slot = 0; function = function }) ≡ true)
        × (OnBus 256 function e ⊎ OnHosts rounds (function + 1) e)
  OnHosts-next rounds function e (k, few, present, h) =
      let here : function + 0 ≡ function = omega arith in
      (
        subst (λ f. is_present config (record { bus = 0; slot = 0; function = f }) ≡ true) here
            (present 0 (omega arith)),
        later k few present h,
      )
    where
      later :
          (k : ℕ)
          → k < suc rounds
          → ((j : ℕ)
              → j ≤ k
              → is_present config (record { bus = 0; slot = 0; function = function + j }) ≡ true)
          → OnBus 256 (function + k) e
          → OnBus 256 function e ⊎ OnHosts rounds (function + 1) e
      later zero few present h =
          let here : function + 0 ≡ function = omega arith in
          inl (subst (λ f. OnBus 256 f e) here h)
      later (suc k) few present h =
          let next : (j : ℕ) → function + suc j ≡ function + 1 + j = λ j. omega arith in
          inr (
            k,
            omega arith,
            λ j a.
                subst (λ f. is_present config (record { bus = 0; slot = 0; function = f }) ≡ true)
                  (next j) (present (suc j) (omega arith)),
            subst (λ f. OnBus 256 f e) (next k) h,
          )

  -- What the enumeration is to find: of several host controllers, their buses, and bus 0 otherwise
  abbrev pub IsReached : PciDevice → Type 0
  IsReached e =
      let host : PciDevice = record { bus = 0; slot = 0; function = 0 } in
      ((is_multi_function config host ≡ true) × OnHosts 8 0 e)
      ⊎ ((is_multi_function config host ≡ false) × OnBus 256 0 e)
