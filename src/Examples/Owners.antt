-- ===== src/Examples/Owners.antt =====
-- Inputs for bootloader/shared_ptr.
use cerius.Base.{
  ℕ, ◌≡◌, ◌≢◌, refl, arith, inl, inr, Bool-cases, [], ◌∷◌, ◌>>=◌, Returns, ◌==◌, if◌then◌else◌,
  ==→≡, sym, ◌∙◌,
}
use cerius.Pointers.{
  UniqueStore, unique_reset, SharedStore, shared_reset, shared_copy, shared_destroy, empty,
}
use cerius.Pointers.Unique.{IsOwned, reset, UniqueStep-IsOwned}
use cerius.Pointers.Shared.{IsOwner, shared_reset-twice, IsCountedDown, shared_destroy-copy}

-- Address 5 holds object 7.
abbrev one_owner : UniqueStore
one_owner = record { held = λ a. if a == 5 then 7 else 0; deleted = [] }

holds-5 : (a : ℕ) → one_owner.held a ≢ 0 → a ≡ 5
holds-5 a = elim (Bool-cases (a == 5)) [
  | inl here ↦ λ ne. ==→≡ a 5 here
  | inr other ↦ rw other λ ne. absurd (ne refl)
]

one_owner-IsOwned : IsOwned one_owner
one_owner-IsOwned = record {
  single = λ a b ne e. holds-5 a ne ∙ sym (holds-5 b (λ z. ne (e ∙ z)));
  alive = λ a ne. tt;
  once = tt;
}

unique_example : IsOwned (unique_reset one_owner 5)
unique_example = UniqueStep-IsOwned one_owner (unique_reset one_owner 5) one_owner-IsOwned (reset 5)

-- The pointers at 1 and 2 own object 9, whose counter is at 3.
abbrev two_owners : SharedStore
two_owners = record {
  ptrs = λ a.
      if a == 1
      then record { p = 9; cnt = 3 }
      else (if a == 2 then record { p = 9; cnt = 3 } else empty);
  counters = λ c. 2;
  next_counter = 4;
  deleted = [];
}

first-IsOwner : IsOwner two_owners 1 2
first-IsOwner = record { some_object = omega arith; some_counter = omega arith; counted = refl }

shared_reset_example :
    Returns
      (λ s'.
        IsCountedDown two_owners 1 s'
        × Returns
            (λ s''.
              (s''.deleted ≡ 9 ∷ [])
              × (s''.ptrs 1 ≡ empty)
              × (s''.ptrs 2 ≡ record { p = 9; cnt = 3 }))
            (shared_reset s' 1))
      (shared_reset two_owners 1)
shared_reset_example = shared_reset-twice two_owners 1 2 (omega arith) first-IsOwner refl

shared_copy_example :
    Returns
      (λ s'.
        ((c : ℕ) → s'.counters c ≡ 2)
        × ((b : ℕ) → b ≢ 6 → s'.ptrs b ≡ two_owners.ptrs b)
        × (s'.deleted ≡ []))
      (shared_copy two_owners 6 1 >>= λ s'. shared_destroy s' 6)
shared_copy_example =
    shared_destroy-copy two_owners 6 1 2 (omega arith) first-IsOwner (omega arith) (omega arith)
