-- ===== src/Pageout.antt =====
-- bootloader/memory/Pager: `pageout`, which takes a range out of the page tables again, splits the large
-- pages that it has to keep a part of, and gives the tables back that are left empty.
-- `reserve_free` is what `MemoryReserveManager::free` does to the reserve, and `trim` what follows where
-- no caller holds the lock. `x & ~0x1080` and the other masks are written by the digits that they keep.
-- `invlpg` is not there: the model has no cache of translations.
pub mod Children
pub mod Cleared
pub mod Removal
pub mod Rounds
pub mod Unmapped
use cerius.Base.{
  ℕ, zero, suc, ◌+◌, ◌-◌, ◌*◌, ◌/◌, ◌%◌, ◌^◌, Bool, true, false, ◌&&◌, ◌||◌, not, Result, ok, fault,
  Fault, ◌>>=◌, ◌>>◌, kassert, ltb, leb, ◌==◌, if◌then◌else◌, bit_or, add64, sub64, mul64,
}
use cerius.Pager.{
  PageTreeNode, Nodes, Paging, child_size, index_from, divru, index_start, index_end, is_present,
  is_large, walk, lintophy, set_entry, set_child, set_node, for_indexes, unlock,
}

-- `indexStartMod` and `indexEndMod`, as they stand at the loop
abbrev pub start_mod : (height start_lin base : ℕ) → ℕ
start_mod height start_lin base =
    if leb (2 ^ 31) (sub64 start_lin base / child_size height % 2 ^ 32)
    then 0
    else sub64 start_lin base % child_size height % 2 ^ 32

abbrev pub end_mod : (height end_lin base : ℕ) → ℕ
end_mod height end_lin base =
    if ltb 512 (index_from (divru (sub64 end_lin base) (child_size height)))
    then 0
    else sub64 end_lin base % child_size height % 2 ^ 32

-- Whether the range covers all of entry `i`
abbrev pub is_covered : (height start_lin end_lin base i : ℕ) → Bool
is_covered height start_lin end_lin base i =
    (not (i == index_start height start_lin base) || (start_mod height start_lin base == 0))
    && (not (i + 1 == index_end height end_lin base) || (end_mod height end_lin base == 0))

-- `x & ~0x1080`
abbrev pub without_pat : ℕ → ℕ
without_pat x = x - x / 2 ^ 12 % 2 * 2 ^ 12 - x / 2 ^ 7 % 2 * 2 ^ 7

-- `curChildPhyRangeStart` and `curPrefs`
abbrev pub range_start : (entry : ℕ) → ℕ
range_start entry = entry / 2 ^ 21 % 2 ^ 31 * 2 ^ 21

abbrev pub entry_prefs : (entry : ℕ) → ℕ
entry_prefs entry = entry - range_start entry

-- Entry `j` of the table that takes the place of a large page
pub split_entry : (height entry j : ℕ) → ℕ
split_entry height entry j =
    let page = add64 (range_start entry) (child_size height / 512 * j) in
    if height == 2
    then bit_or page (entry_prefs entry)
    else bit_or (bit_or page (without_pat (entry_prefs entry)))
        (entry_prefs entry / 2 ^ 12 % 2 * 2 ^ 7)

-- The loop that fills that table, with the rounds left
pub split_entries : (rounds j height entry : ℕ) → PageTreeNode → PageTreeNode
split_entries zero j height entry t = t
split_entries (suc rounds) j height entry t =
    split_entries rounds (j + 1) height entry (set_entry t j (split_entry height entry j))

-- `havePresentChild`, with the rounds left
pub any_present : (rounds i : ℕ) → PageTreeNode → Bool
any_present zero i t = false
any_present (suc rounds) i t = is_present (t.phy i) || any_present rounds (i + 1) t

abbrev pub clear_entry {ℓ} : {R : Type ℓ} → (node i : ℕ) → Paging R → Paging R
clear_entry node i s = record s { nodes = set_node s.nodes node (set_entry (s.nodes node) i 0) }

module _ {ℓ} {R : Type ℓ} (reserve_alloc : R → Result (R × ℕ)) (reserve_free : R → ℕ → Result R)
    (settle trim : Paging R → Result (Paging R)) where
  -- `MemoryReserveManager::free`
  pub give_table : (node : ℕ) → Paging R → Result (Paging R)
  give_table node s = do
    reserve ← reserve_free s.reserve node
    let freed : Paging R = record s { reserve = reserve }
    let last = (do
      s' ← trim (record freed { lock_cnt = s.lock_cnt + 1 })
      unlock reserve_alloc settle s')
    if s.lock_cnt == 0 then last else ok freed

  -- The table with smaller pages that takes the place of the large page of entry `i`
  pub split : (height node i : ℕ) → Paging R → Result (Paging R × ℕ)
  split height node i s = do
    let entry = (s.nodes node).phy i
    kassert (not (height == 3))
    got ← reserve_alloc s.reserve
    let child = got.1
    phy ← walk 3 s.nodes s.pml4 child
    let linked = set_node s.nodes node (
        set_child (set_entry (s.nodes node) i (bit_or phy (without_pat (entry_prefs entry)))) i
          child)
    s' ← unlock reserve_alloc settle (record s {
      nodes = set_node linked child (split_entries 512 0 height entry (linked child));
      reserve = got.0;
      lock_cnt = s.lock_cnt + 1;
    })
    ok (s', child)

  -- What follows the loop: an empty table is given back.
  pub finish : (node : ℕ) → Paging R → Result (Paging R × Bool)
  finish node s =
      let empty = (do s' ← give_table node s; ok (s', true)) in
      if any_present 512 0 (s.nodes node) then ok (s, false) else empty

  module _ (start_lin length : ℕ) where
    -- A round of the loop at height 0; a page that is not covered fails `kassert(height > 0)`
    pub page_out_round : (node base i : ℕ) → Paging R → Result (Paging R)
    page_out_round node base i s = do
      kassert (is_present ((s.nodes node).phy i))
      kassert (is_covered zero start_lin (add64 start_lin length) base i)
      ok (clear_entry node i s)

    -- A round above height 0, whose recursion is `recur`
    pub table_out_round :
        (height : ℕ)
        → ((node base : ℕ) → Paging R → Result (Paging R × Bool))
        → (node base i : ℕ) → Paging R
        → Result (Paging R)
    table_out_round height recur node base i s = do
      let entry = (s.nodes node).phy i
      let cur = add64 base (mul64 i (child_size height))
      kassert (is_present entry)
      let parted = (do
        r ← split height node i s
        below ← recur r.1 cur r.0
        kassert (not below.1)
        ok below.0)
      let entered = (do
        below ← recur ((s.nodes node).lin i) cur s
        ok (if below.1 then clear_entry node i below.0 else below.0))
      let covered =
          if is_covered height start_lin (add64 start_lin length) base i
          then ok (clear_entry node i s)
          else parted
      if is_large entry then covered else entered

    -- The private `pageout`
    pub pageout_table : (height node base : ℕ) → Paging R → Result (Paging R × Bool)
    pageout_table zero node base s = do
      kassert (
          (sub64 start_lin base % child_size zero % 2 ^ 32 == 0)
          && (sub64 (add64 start_lin length) base % child_size zero % 2 ^ 32 == 0))
      s' ←
          for_indexes
            (index_end zero (add64 start_lin length) base - index_start zero start_lin base)
            (index_start zero start_lin base) (page_out_round node base) s
      finish node s'
    pageout_table (suc height) node base s = do
      s' ←
          for_indexes
            (index_end (suc height) (add64 start_lin length) base
              - index_start (suc height) start_lin base)
            (index_start (suc height) start_lin base)
            (table_out_round (suc height) (pageout_table height) node base) s
      finish node s'

    -- The public `pageout`
    pub pageout : Paging R → Result (Paging R)
    pageout s = do
      kassert (start_lin % 4096 == 0)
      kassert (length % 4096 == 0)
      r ← pageout_table 3 s.pml4 0 s
      after ← lintophy r.0 start_lin
      kassert (after == 0)
      ok r.0
