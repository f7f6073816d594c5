-- ===== src/Pager.antt =====
-- bootloader/memory/Pager: the page tables, a tree of tables at linear addresses.
-- `nodes` is the memory that the tables take up, by their addresses. `reserve_alloc` is
-- `MemoryReserveManager::alloc`, on the state `R` of the reserve, and `settle` is what the last
-- `unlock` does to refill the reserve. `x & 1` is written `x % 2`, and `x & (1 << 7)` is `x / 2 ^ 7 % 2`.
pub mod Blocks
pub mod Bounds
pub mod Entries
pub mod Leaf
pub mod Moved
pub mod Tables
pub mod Pages
pub mod Steps
pub mod Children
pub mod Mapped
use cerius.Base.{
  ℕ, zero, suc, ◌+◌, ◌-◌, ◌*◌, ◌/◌, ◌%◌, ◌^◌, Bool, true, false, ◌||◌, not, min, Result, ok, fault,
  Fault, ◌>>=◌, ◌>>◌, kassert, ltb, leb, ◌==◌, if◌then◌else◌, bit_or, add64, sub64, mul64,
}

-- A table: the entries that the machine reads, and the linear addresses of the child tables
pub record PageTreeNode : Type 0 where
  pub phy : ℕ → ℕ
  pub lin : ℕ → ℕ

abbrev pub Nodes : Type 0
Nodes = ℕ → PageTreeNode

pub record Paging {ℓ} (R : Type ℓ) : Type ℓ where
  pub nodes : Nodes
  pub pml4 : ℕ
  pub reserve : R
  pub lock_cnt : ℕ

-- The size of what an entry of a table of this height covers
abbrev pub child_size : (height : ℕ) → ℕ
child_size height = 2 ^ (12 + height * 9)

-- Conversion of a `uint64_t` to `int`, where a negative number is replaced by 0
abbrev pub index_from : ℕ → ℕ
index_from x = if leb (2 ^ 31) (x % 2 ^ 32) then 0 else x % 2 ^ 32

abbrev pub divru : ℕ → ℕ → ℕ
divru x y = sub64 (add64 x y) 1 / y

-- `indexStart` and `indexEnd`
abbrev pub index_start : (height start_lin base : ℕ) → ℕ
index_start height start_lin base = index_from (sub64 start_lin base / child_size height)

abbrev pub index_end : (height end_lin base : ℕ) → ℕ
index_end height end_lin base =
    min 512 (index_from (divru (sub64 end_lin base) (child_size height)))

abbrev pub is_present : (entry : ℕ) → Bool
is_present entry = not (entry % 2 == 0)

abbrev pub is_large : (entry : ℕ) → Bool
is_large entry = not (entry / 2 ^ 7 % 2 == 0)

abbrev pub index : (height p : ℕ) → ℕ
index height p = p / 2 ^ 12 / 2 ^ (height * 9) % 512

-- The check of the reserved bits of an entry with the page-size bit; at height 0, the shift is by -1.
unfoldable pub check_large : (height entry : ℕ) → Result (Unit {0})
check_large zero entry = if is_large entry then fault Fault.shift else ok tt
check_large (suc height) entry =
    if is_large entry
    then (do kassert (ltb (suc height) 3); kassert (entry / 2 ^ 13 % 2 ^ (suc height * 9 - 1) == 0))
    else ok tt

-- The bits 12 to 51, or 13 to 51 of a large page
abbrev pub page_frame : (height entry : ℕ) → ℕ
page_frame height entry =
    if (height == 1) || (height == 2)
    then entry / 2 ^ 13 % 2 ^ 39 * 2 ^ 13
    else entry / 2 ^ 12 % 2 ^ 40 * 2 ^ 12

unfoldable pub page_address : (height entry p : ℕ) → Result ℕ
page_address height entry p = do
  check_large height entry
  ok (page_frame height entry + p % child_size height)

-- The loop of `lintophy`, from a table of this height on
unfoldable pub walk : (height : ℕ) → Nodes → (node p : ℕ) → Result ℕ
walk zero nodes node p =
    let entry = (nodes node).phy (index zero p) in
    if is_present entry then page_address zero entry p else ok 0
walk (suc height) nodes node p =
    let entry = (nodes node).phy (index (suc height) p) in
    let below = walk height nodes ((nodes node).lin (index (suc height) p)) p in
    if is_present entry
    then (if is_large entry then page_address (suc height) entry p else below)
    else ok 0

abbrev pub set_entry : PageTreeNode → (i entry : ℕ) → PageTreeNode
set_entry t i entry = record t { phy = λ j. if j == i then entry else t.phy j }

abbrev pub set_child : PageTreeNode → (i child : ℕ) → PageTreeNode
set_child t i child = record t { lin = λ j. if j == i then child else t.lin j }

abbrev pub set_node : Nodes → (node : ℕ) → PageTreeNode → Nodes
set_node nodes node t a = if a == node then t else nodes a

-- `for (int i=0;i<512;i++) newChildLin->phy[i] = 0`, with the rounds left
pub clear_entries : (rounds i : ℕ) → PageTreeNode → PageTreeNode
clear_entries zero i t = t
clear_entries (suc rounds) i t = clear_entries rounds (i + 1) (set_entry t i 0)

-- `for (int i=indexStart; i<indexEnd; i++)`, with the rounds left
unfoldable pub for_indexes {ℓ} : {S : Type ℓ} (rounds i : ℕ) → (ℕ → S → Result S) → S → Result S
for_indexes zero i body s = ok s
for_indexes (suc rounds) i body s = do s' ← body i s; for_indexes rounds (i + 1) body s'

module _ {ℓ} {R : Type ℓ} where
  unfoldable pub lintophy : Paging R → (p : ℕ) → Result ℕ
  lintophy s p = walk 3 s.nodes s.pml4 p

  module _ (reserve_alloc : R → Result (R × ℕ)) (settle : Paging R → Result (Paging R)) where
    -- `MemoryReserveManager::unlock`
    pub unlock : Paging R → Result (Paging R)
    unlock s = do
      kassert (ltb 0 s.lock_cnt)
      let last = (do s ← settle s; ok (record s { lock_cnt = s.lock_cnt - 1 }))
      if s.lock_cnt == 1 then last else ok (record s { lock_cnt = s.lock_cnt - 1 })

    -- A new child of entry `i`, with the reserve locked
    pub add_table : (node i : ℕ) → Paging R → Result (Paging R)
    add_table node i s = do
      got ← reserve_alloc s.reserve
      let child = got.1
      phy ← walk 3 s.nodes s.pml4 child
      kassert (not (phy == 0))
      let linked =
          set_node s.nodes node (set_entry (set_child (s.nodes node) i child) i (bit_or phy 3))
      unlock (record s {
        nodes = set_node linked child (clear_entries 512 0 (linked child));
        reserve = got.0;
        lock_cnt = s.lock_cnt + 1;
      })

    module _ (start_phy start_lin length prefs : ℕ) where
      -- A round of the loop at height 0: the page of entry `i`
      pub page_round : (node base i : ℕ) → Paging R → Result (Paging R)
      page_round node base i s = do
        let cur = add64 base (mul64 i (child_size 0))
        kassert (ltb cur (add64 start_lin length))
        kassert (leb start_lin cur)
        kassert (not (is_present ((s.nodes node).phy i)))
        ok (record s {
          nodes = set_node s.nodes node (
              set_entry (s.nodes node) i
                (bit_or (bit_or (add64 start_phy (sub64 cur start_lin)) 3) prefs));
        })

      -- A round above height 0: the child of entry `i`, which is made where there is none
      pub table_round :
          (height : ℕ)
          → ((node base : ℕ) → Paging R → Result (Paging R))
          → (node base i : ℕ) → Paging R
          → Result (Paging R)
      table_round height recur node base i s = do
        let cur = add64 base (mul64 i (child_size height))
        kassert (ltb cur (add64 start_lin length))
        s' ← (if is_present ((s.nodes node).phy i) then ok s else add_table node i s)
        recur ((s'.nodes node).lin i) cur s'

      pub check_range : (height base : ℕ) → Result (Unit {0})
      check_range height base = do
        kassert (start_phy % 4096 == 0)
        kassert (start_lin % 4096 == 0)
        kassert (length % 4096 == 0)
        kassert (base % child_size height == 0)

      -- The private `pagein`
      pub pagein_table : (height node base : ℕ) → Paging R → Result (Paging R)
      pagein_table zero node base s = do
        check_range zero base
        for_indexes (index_end zero (add64 start_lin length) base - index_start zero start_lin base)
            (index_start zero start_lin base) (page_round node base) s
      pagein_table (suc height) node base s = do
        check_range (suc height) base
        for_indexes
            (index_end (suc height) (add64 start_lin length) base
              - index_start (suc height) start_lin base)
            (index_start (suc height) start_lin base)
            (table_round (suc height) (pagein_table height) node base) s

      -- The public `pagein`
      pub pagein : Paging R → Result (Paging R)
      pagein s = do
        kassert (start_phy % 4096 == 0)
        kassert (start_lin % 4096 == 0)
        kassert (length % 4096 == 0)
        before ← lintophy s start_lin
        kassert (before == 0)
        s' ← pagein_table 3 s.pml4 0 s
        after ← lintophy s' start_lin
        kassert (after == start_phy)
        ok s'
