-- ===== src/Pointers.antt =====
-- bootloader/shared_ptr: `unique_ptr` and `shared_ptr`. A pointer object has an address, an object
-- that it points to is a number, and 0 is the null pointer. `deleted` holds the objects that the
-- deleter `D` has been given, the latest first.
pub mod Unique
pub mod Shared
use cerius.Base.{
  ℕ, ◌+◌, Bool, List, ◌∷◌, Result, ok, kassert, ◌>>=◌, ◌>>◌, ◌==◌, not, if◌then◌else◌, sub64, add64,
}

pub record UniqueStore : Type 0 where
  -- the field `p` of the `unique_ptr` at each address
  pub held : ℕ → ℕ
  pub deleted : List ℕ

abbrev pub update {ℓ} : {A : Type ℓ} → (ℕ → A) → ℕ → A → ℕ → A
update f a x b = if b == a then x else f b

-- `if (p != nullptr) D(p);`
abbrev pub dispose : ℕ → List ℕ → List ℕ
dispose p deleted = if p == 0 then deleted else p ∷ deleted

-- `unique_ptr(T*)`
abbrev pub unique_construct : UniqueStore → (a p : ℕ) → UniqueStore
unique_construct s a p = record s { held = update s.held a p }

-- `unique_ptr(unique_ptr&&)`, of another object
abbrev pub unique_move : UniqueStore → (a o : ℕ) → UniqueStore
unique_move s a o = record s { held = update (update s.held a (s.held o)) o 0 }

-- `~unique_ptr`: what the address holds is not read any more, and is 0 here
abbrev pub unique_destroy : UniqueStore → (a : ℕ) → UniqueStore
unique_destroy s a = record { held = update s.held a 0; deleted = dispose (s.held a) s.deleted }

-- `operator=(unique_ptr&&)`
abbrev pub unique_assign : UniqueStore → (a o : ℕ) → UniqueStore
unique_assign s a o = if o == a then s else record {
  held = update (update s.held a (s.held o)) o 0;
  deleted = dispose (s.held a) s.deleted;
}

-- `reset()`
abbrev pub unique_reset : UniqueStore → (a : ℕ) → UniqueStore
unique_reset s a = record {
  held = if s.held a == 0 then s.held else update s.held a 0;
  deleted = dispose (s.held a) s.deleted;
}

-- `reset(T*)`
abbrev pub unique_reset_to : UniqueStore → (a p : ℕ) → UniqueStore
unique_reset_to s a p =
    if s.held a == p
    then s
    else record { held = update s.held a p; deleted = dispose (s.held a) s.deleted }

-- The fields of a `shared_ptr`; `cnt` is the address of a counter.
pub record SharedPtr : Type 0 where
  pub p : ℕ
  pub cnt : ℕ

pub record SharedStore : Type 0 where
  pub ptrs : ℕ → SharedPtr
  pub counters : ℕ → ℕ
  -- where `new int64_t` puts the next counter
  pub next_counter : ℕ
  pub deleted : List ℕ

abbrev pub empty : SharedPtr
empty = record { p = 0; cnt = 0 }

-- `reset()` behind `(*cnt)--`
pub give_up : SharedStore → (a count : ℕ) → SharedStore
give_up s a count =
    let s' : SharedStore = record s { counters = update s.counters (s.ptrs a).cnt count } in
    if count == 0
    then record s' { ptrs = update s.ptrs a empty; deleted = (s.ptrs a).p ∷ s.deleted }
    else s'

-- `reset()`
pub shared_reset : SharedStore → (a : ℕ) → Result SharedStore
unfolding give_up
shared_reset s a =
    let last = (do kassert ((s.ptrs a).p == 0); ok s) in
    let counted = (do
      kassert (not ((s.ptrs a).p == 0))
      ok (give_up s a (sub64 (s.counters (s.ptrs a).cnt) 1))) in
    if (s.ptrs a).cnt == 0 then last else counted

-- `reset(T*)`
pub shared_reset_to : SharedStore → (a p : ℕ) → Result SharedStore
shared_reset_to s a p =
    let changed = (do
      s ← shared_reset s a
      ok (
          if p == 0
          then record s { ptrs = update s.ptrs a (record { p = p; cnt = 0 }) }
          else record s {
            ptrs = update s.ptrs a (record { p = p; cnt = s.next_counter });
            counters = update s.counters s.next_counter 1;
            next_counter = s.next_counter + 1;
          })) in
    if (s.ptrs a).p == p then ok s else changed

-- `operator=(const shared_ptr&)`
pub shared_assign : SharedStore → (a o : ℕ) → Result SharedStore
shared_assign s a o =
    let assigned = (do
      s ← shared_reset s a
      let s' : SharedStore = record s { ptrs = update s.ptrs a (s.ptrs o) }
      let cnt = (s.ptrs o).cnt
      ok (
          if cnt == 0
          then s'
          else record s' { counters = update s.counters cnt (add64 (s.counters cnt) 1) })) in
    if o == a then ok s else assigned

-- `operator=(shared_ptr&&)`
pub shared_move_assign : SharedStore → (a o : ℕ) → Result SharedStore
shared_move_assign s a o =
    let assigned = (do
      s ← shared_reset s a
      ok (record s { ptrs = update (update s.ptrs a (s.ptrs o)) o empty })) in
    if o == a then ok s else assigned

-- `shared_ptr()`
abbrev pub shared_default : SharedStore → (a : ℕ) → SharedStore
shared_default s a = record s { ptrs = update s.ptrs a empty }

-- `shared_ptr(T*)`
pub shared_construct : SharedStore → (a p : ℕ) → Result SharedStore
shared_construct s a p = shared_reset_to (shared_default s a) a p

-- `shared_ptr(const shared_ptr&)`, and `shared_ptr(shared_ptr&&)`, where `o` is an lvalue and the
-- assignment is the copying one too
pub shared_copy : SharedStore → (a o : ℕ) → Result SharedStore
shared_copy s a o = shared_assign (shared_default s a) a o

-- `~shared_ptr`
pub shared_destroy : SharedStore → (a : ℕ) → Result SharedStore
shared_destroy s a = shared_reset s a

-- `use_count`
abbrev pub use_count : SharedStore → (a : ℕ) → ℕ
use_count s a = if (s.ptrs a).cnt == 0 then 0 else s.counters (s.ptrs a).cnt
