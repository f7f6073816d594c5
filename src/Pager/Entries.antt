-- ===== src/Pager/Entries.antt =====
-- The entries that the pager writes, read again.
use cerius.Base.{
  ℕ, zero, ◌+◌, ◌*◌, ◌/◌, ◌%◌, ◌^◌, ◌<◌, ◌≡◌, ◌∙◌, refl, arith, true, false, ≡→==, ≢→==, ok, bit_or,
  bit_or_join, join_bit_or, bit_or-div, bit_or-odd,
}
use cerius.Pager.{is_present, is_large, page_address, check_large}

is_present-odd : (entry : ℕ) → entry % 2 ≡ 1 → is_present entry ≡ true
is_present-odd entry h = rw (≢→== (entry % 2) 0 (omega arith)) refl

is_large-none : (entry : ℕ) → entry / 2 ^ 7 % 2 ≡ 0 → is_large entry ≡ false
is_large-none entry h = rw (≡→== (entry / 2 ^ 7 % 2) 0 h) refl

-- `newChildPhy | 3` for a table at the start of a page
pub table_entry : (phy : ℕ) → phy % 4096 ≡ 0 → bit_or phy 3 ≡ phy + 3
table_entry phy h =
    let pages : phy / 4 * 2 ^ 2 ≡ phy = omega arith in
    let join : bit_or (phy / 4 * 2 ^ 2) 3 ≡ phy / 4 * 2 ^ 2 + 3 =
      bit_or_join 2 (phy / 4) 3 (omega arith) in
    rw (← pages) join

pub table_entry-present : (phy : ℕ) → phy % 4096 ≡ 0 → is_present (bit_or phy 3) ≡ true
table_entry-present phy h = is_present-odd (bit_or phy 3) (omega (arith, table_entry phy h))

pub table_entry-small : (phy : ℕ) → phy % 4096 ≡ 0 → is_large (bit_or phy 3) ≡ false
table_entry-small phy h = is_large-none (bit_or phy 3) (omega (arith, table_entry phy h))

-- The preferences of `PagePrefs` are bits below 7 and bit 63: none that an entry's address takes up.
abbrev pub IsPrefs : ℕ → Type 0
IsPrefs prefs = (prefs % 2 ^ 63 < 2 ^ 7) × (prefs < 2 ^ 64)

-- `(startPhy + offset) | 3 | prefs`, without its lowest 7 bits
page_entry_high :
    (frame prefs : ℕ)
    → frame % 4096 ≡ 0
    → frame < 2 ^ 52
    → IsPrefs prefs
    → bit_or (bit_or frame 3) prefs / 2 ^ 7 ≡ prefs / 2 ^ 63 * 2 ^ 56 + frame / 2 ^ 7
page_entry_high frame prefs page small ok' =
    let entry = table_entry frame page in
    let low : bit_or frame 3 / 2 ^ 7 ≡ frame / 2 ^ 7 = omega (arith, entry) in
    let high : prefs / 2 ^ 7 ≡ prefs / 2 ^ 63 * 2 ^ 56 = omega arith in
    bit_or-div 7 (bit_or frame 3) prefs
    ∙ rw (low, high) (join_bit_or 56 (prefs / 2 ^ 63) (frame / 2 ^ 7) (omega arith))

module _ (frame prefs : ℕ) (page : frame % 4096 ≡ 0) (small : frame < 2 ^ 52)
    (is : IsPrefs prefs) where
  pub page_entry-present : is_present (bit_or (bit_or frame 3) prefs) ≡ true
  page_entry-present =
      is_present-odd (bit_or (bit_or frame 3) prefs)
        (omega (arith, bit_or-odd (bit_or frame 3) prefs, table_entry frame page))

  -- The entry leads to the page that it was made for.
  pub page_address-page_entry :
      (p : ℕ) → page_address zero (bit_or (bit_or frame 3) prefs) p ≡ ok (frame + p % 4096)
  unfolding page_address check_large
  page_address-page_entry p =
      let entry : ℕ = bit_or (bit_or frame 3) prefs in
      let high : entry / 2 ^ 7 ≡ prefs / 2 ^ 63 * 2 ^ 56 + frame / 2 ^ 7 =
        page_entry_high frame prefs page small is in
      let plain = is_large-none entry (omega (arith, high)) in
      let at : entry / 2 ^ 12 % 2 ^ 40 * 2 ^ 12 ≡ frame = omega (arith, high) in rw (plain, at) refl
