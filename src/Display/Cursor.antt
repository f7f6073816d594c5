-- ===== src/Display/Cursor.antt =====
-- The rows that `scroll_up` blanks, its result, and the cursor of `pchar`.
use cerius.Base.{
  ℕ, zero, suc, ◌+◌, ◌-◌, ◌*◌, ◌%◌, ◌≤◌, ◌<◌, ◌≡◌, ◌≢◌, ◌⊎◌, inl, inr, refl, ap, arith, true,
  Bool-cases, ◌==◌, ==→≡, ==→≢, ≢→==, ◌∙◌, lt-or-ge,
}
use cerius.Display.{
  Video, poke, get_screen_offset, get_row_from_offset, get_col_from_offset, copy_rows, clear_cells,
  clear_rows, scroll_up, Screen, set_cursor, pchar,
}
use cerius.Display.Scroll.{poke_here, poke_else, at_row, copy_rows-here, copy_rows-else}

clear_cells-else :
    (rounds col row : ℕ) (m : Video) (r k : ℕ)
    → k < 160
    → col + rounds ≤ 80
    → (r ≢ row) ⊎ (k % 2 ≡ 1) ⊎ (k < 2 * col)
    → at_row (clear_cells rounds col row m) r k ≡ at_row m r k
unfolding clear_cells
clear_cells-else zero col row m r k small fits out = refl
clear_cells-else (suc rounds) col row m r k small fits out =
    clear_cells-else rounds (col + 1) row (poke m (get_screen_offset col row) 0x20) r k small
      (omega arith)
      (elim out [
        | inl other ↦ inl other
        | inr (inl odd) ↦ inr (inl odd)
        | inr (inr left) ↦ inr (inr (omega arith))
      ])
    ∙ poke_else m (get_screen_offset col row) 0x20 (get_screen_offset 0 r + k) (elim out [
      | inl other ↦ omega arith
      | inr (inl odd) ↦ omega arith
      | inr (inr left) ↦ omega arith
    ])

clear_cells-here :
    (rounds col row : ℕ) (m : Video) (j : ℕ)
    → col + rounds ≤ 80
    → col ≤ j
    → j < col + rounds
    → clear_cells rounds col row m (get_screen_offset j row) ≡ 0x20
unfolding clear_cells
clear_cells-here zero col row m j fits lo hi = absurd (omega arith)
clear_cells-here (suc rounds) col row m j fits lo hi =
    let m' = poke m (get_screen_offset col row) 0x20 in
    elim (lt-or-ge col j) [
      | inl later ↦
          clear_cells-here rounds (col + 1) row m' j (omega arith) (omega arith) (omega arith)
      | inr now ↦
          ap (clear_cells rounds (col + 1) row m') (omega arith)
          ∙ clear_cells-else rounds (col + 1) row m' row (2 * col) (omega arith) (omega arith)
              (inr (inr (omega arith)))
          ∙ ap m' (omega arith)
          ∙ poke_here m (get_screen_offset col row) 0x20
    ]

clear_rows-else :
    (rounds row : ℕ) (m : Video) (r k : ℕ)
    → k < 160
    → (r < row) ⊎ (k % 2 ≡ 1)
    → at_row (clear_rows rounds row m) r k ≡ at_row m r k
unfolding clear_rows
clear_rows-else zero row m r k small out = refl
clear_rows-else (suc rounds) row m r k small out =
    clear_rows-else rounds (row + 1) (clear_cells 80 0 row m) r k small
      (elim out [ inl above ↦ inl (omega arith) | inr odd ↦ inr odd ])
    ∙ clear_cells-else 80 0 row m r k small (omega arith)
        (elim out [ inl above ↦ inl (omega arith) | inr odd ↦ inr (inl odd) ])

clear_rows-here :
    (rounds row : ℕ) (m : Video) (r j : ℕ)
    → j < 80
    → row ≤ r
    → r < row + rounds
    → at_row (clear_rows rounds row m) r (2 * j) ≡ 0x20
unfolding clear_rows
clear_rows-here zero row m r j small lo hi = absurd (omega arith)
clear_rows-here (suc rounds) row m r j small lo hi =
    let m' = clear_cells 80 0 row m in
    elim (lt-or-ge row r) [
      | inl later ↦ clear_rows-here rounds (row + 1) m' r j small (omega arith) (omega arith)
      | inr now ↦
          clear_rows-else rounds (row + 1) m' r (2 * j) (omega arith) (inl (omega arith))
          ∙ ap m' (omega arith)
          ∙ clear_cells-here 80 0 row m j (omega arith) (omega arith) (omega arith)
    ]

-- The screen `m'` is `m` with its rows `x` further up; the bottom rows have blanks for characters
-- and keep their attributes.
pub record Scrolled (x : ℕ) (m m' : Video) : Type 0 where
  pub moved : (r k : ℕ) → k < 160 → r + x < 25 → at_row m' r k ≡ at_row m (r + x) k
  pub blank : (r j : ℕ) → j < 80 → r < 25 → 25 ≤ r + x → at_row m' r (2 * j) ≡ 0x20
  pub colour :
      (r j : ℕ) → j < 80 → r < 25 → 25 ≤ r + x → at_row m' r (2 * j + 1) ≡ at_row m r (2 * j + 1)

-- `scroll_up` by one row to 25 moves every byte of the rows that stay on the screen up by that many
-- rows, and fills the characters of the bottom rows with blanks, whose attributes stay.
pub scroll_up-Scrolled : (x : ℕ) (m : Video) → 0 < x → x ≤ 25 → Scrolled x m (scroll_up x m)
unfolding scroll_up
scroll_up-Scrolled x m pos fits = rw (≢→== x 0 (omega arith)) (
    let up = copy_rows (25 - x) 0 x m in
    record {
      moved = λ r k small on.
          clear_rows-else x (25 - x) up r k small (inl (omega arith))
          ∙ copy_rows-here (25 - x) 0 x m r k small (omega arith) (omega arith);
      blank =
          λ r j small on below. clear_rows-here x (25 - x) up r j small (omega arith) (omega arith);
      colour = λ r j small on below.
          clear_rows-else x (25 - x) up r (2 * j + 1) (omega arith) (inr (omega arith))
          ∙ copy_rows-else (25 - x) 0 x m r (2 * j + 1) (omega arith) (inr (omega arith));
    })

-- The cursor stands at a cell of the screen.
pub record IsOnScreen (s : Screen) : Type 0 where
  pub known : s.d8025_offset_initialized ≡ true
  pub even : s.d8025_offset % 2 ≡ 0
  pub inside : s.d8025_offset < 25 * 80 * 2

on_screen :
    (video : Video) {offset : ℕ}
    → offset % 2 ≡ 0
    → offset < 25 * 80 * 2
    → IsOnScreen (set_cursor video offset)
on_screen video even inside = record { known = refl; even = even; inside = inside }

-- `pchar` keeps the cursor on the screen, for any character.
pub pchar-IsOnScreen :
    (device character : ℕ) (s : Screen) → IsOnScreen s → IsOnScreen (pchar device character s)
unfolding pchar
pchar-IsOnScreen device character s i = rw i.known (elim (Bool-cases (character == 10)) [
  | inl line ↦ elim (Bool-cases (row == 24)) [
    | inl bottom ↦ rw (line, bottom) (on_screen _ (omega arith) (omega (arith, i.inside)))
    | inr upper ↦
        let up = ==→≢ row 24 upper in
        rw (line, upper) (on_screen _ (omega arith) (omega (arith, i.inside)))
  ]
  | inr shown ↦ elim (Bool-cases (row == 24)) [
    | inr upper ↦
        let up = ==→≢ row 24 upper in
        rw (shown, upper) (on_screen _ (omega (arith, i.even)) (omega (arith, i.inside)))
    | inl bottom ↦ elim (Bool-cases (column == 79)) [
      | inl last ↦
          let low = ==→≡ row 24 bottom in
          rw (shown, bottom, last) (on_screen _ (omega (arith, i.even)) (omega (arith, i.inside)))
      | inr before ↦
          let left = ==→≢ column 79 before in
          rw (shown, bottom, before)
            (on_screen _ (omega (arith, i.even)) (omega (arith, i.inside, i.even)))
    ]
  ]
])
  where
    row : ℕ
    row = get_row_from_offset s.d8025_offset

    column : ℕ
    column = get_col_from_offset s.d8025_offset
