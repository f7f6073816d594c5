-- ===== src/Display.antt =====
-- bootloader/drivers/display8025_col and `memory_copy` of bootloader/common/utils: the text screen of
-- 25 rows of 80 cells, each of which is a character byte and an attribute byte.
pub mod Scroll
pub mod Cursor
use cerius.Base.{
  ℕ, zero, suc, ◌+◌, ◌-◌, ◌*◌, ◌/◌, ◌%◌, Bool, true, false, ◌&&◌, ◌==◌, if◌then◌else◌,
}

-- The bytes of the video memory, by their offsets
abbrev pub Video : Type 0
Video = ℕ → ℕ

abbrev pub poke : Video → ℕ → ℕ → Video
poke m a x b = if b == a then x else m b

-- `memory_copy`
unfoldable pub memory_copy : Video → (dest src size : ℕ) → Video
memory_copy m dest src zero = m
memory_copy m dest src (suc size) = memory_copy (poke m dest (m src)) (dest + 1) (src + 1) size

abbrev pub get_screen_offset : (col row : ℕ) → ℕ
get_screen_offset col row = (row * 80 + col) * 2

abbrev pub get_row_from_offset : ℕ → ℕ
get_row_from_offset offset = offset / 2 / 80

abbrev pub get_col_from_offset : ℕ → ℕ
get_col_from_offset offset = offset / 2 % 80

-- The first loop of `scroll_up`, with the rounds left
pub copy_rows : (rounds row x : ℕ) → Video → Video
copy_rows zero row x m = m
copy_rows (suc rounds) row x m =
    copy_rows rounds (row + 1) x
      (memory_copy m (get_screen_offset 0 row) (get_screen_offset 0 (row + x)) (80 * 2))

-- The two loops that clear the bottom rows
pub clear_cells : (rounds col row : ℕ) → Video → Video
clear_cells zero col row m = m
clear_cells (suc rounds) col row m =
    clear_cells rounds (col + 1) row (poke m (get_screen_offset col row) 0x20)

pub clear_rows : (rounds row : ℕ) → Video → Video
clear_rows zero row m = m
clear_rows (suc rounds) row m = clear_rows rounds (row + 1) (clear_cells 80 0 row m)

-- `scroll_up`, by at most 25 rows
pub scroll_up : (x : ℕ) → Video → Video
scroll_up x m = if x == 0 then m else clear_rows x (25 - x) (copy_rows (25 - x) 0 x m)

-- `d8025_offset` and the screen; the registers of the device are not kept.
pub record Screen : Type 0 where
  pub video : Video
  pub d8025_offset : ℕ
  pub d8025_offset_initialized : Bool

-- `get_cursor`, where `device` is the number of characters that the device reports
abbrev pub get_cursor : (device : ℕ) → Screen → ℕ
get_cursor device s = if s.d8025_offset_initialized then s.d8025_offset else device * 2

abbrev pub set_cursor : Video → (offset : ℕ) → Screen
set_cursor video offset = record {
  video = video;
  d8025_offset = offset;
  d8025_offset_initialized = true;
}

-- `pchar`
pub pchar : (device : ℕ) → (character : ℕ) → Screen → Screen
pchar device character s =
    let offset = get_cursor device s in
    let row = get_row_from_offset offset in
    let shown = poke (poke s.video offset character) (offset + 1) 0x0f in
    if character == 10
    then (if row == 24
        then set_cursor (scroll_up 1 s.video) (get_screen_offset 0 (row - 1 + 1))
        else set_cursor s.video (get_screen_offset 0 (row + 1)))
    else (if (row == 24) && (get_col_from_offset offset == 79)
        then set_cursor (scroll_up 1 shown) (offset - 2 * 80 + 2)
        else set_cursor shown (offset + 2))
