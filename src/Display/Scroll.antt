-- ===== src/Display/Scroll.antt =====
-- `scroll_up` moves the rows up and blanks the bottom ones, and `pchar` keeps the cursor on the
-- screen.
use cerius.Base.{
  ℕ, zero, suc, ◌+◌, ◌*◌, ◌≤◌, ◌<◌, ◌≡◌, ◌≢◌, ◌⊎◌, inl, inr, refl, ap, arith, ≡→==, ≢→==, ◌∙◌,
  lt-or-ge,
}
use cerius.Display.{Video, poke, memory_copy, get_screen_offset, copy_rows}

pub poke_here : (m : Video) (a x : ℕ) → poke m a x a ≡ x
poke_here m a x = rw (≡→== a a refl) refl

pub poke_else : (m : Video) (a x b : ℕ) → b ≢ a → poke m a x b ≡ m b
poke_else m a x b ne = rw (≢→== b a ne) refl

-- Outside of its destination `memory_copy` changes nothing.
memory_copy-else :
    (size : ℕ) (m : Video) (dest src b : ℕ)
    → (b < dest) ⊎ (dest + size ≤ b)
    → memory_copy m dest src size b ≡ m b
unfolding memory_copy
memory_copy-else zero m dest src b out = refl
memory_copy-else (suc size) m dest src b out =
    memory_copy-else size (poke m dest (m src)) (dest + 1) (src + 1) b
      (elim out [ inl below ↦ inl (omega arith) | inr above ↦ inr (omega arith) ])
    ∙ poke_else m dest (m src) b (elim out [ inl below ↦ omega arith | inr above ↦ omega arith ])

-- In its destination stands what stood in the source, which may overlap it from above.
memory_copy-here :
    (size : ℕ) (m : Video) (dest src i : ℕ)
    → dest ≤ src
    → i < size
    → memory_copy m dest src size (dest + i) ≡ m (src + i)
unfolding memory_copy
memory_copy-here zero m dest src i up h = absurd (omega arith)
memory_copy-here (suc size) m dest src zero up h =
    memory_copy-else size (poke m dest (m src)) (dest + 1) (src + 1) (dest + 0) (inl (omega arith))
    ∙ ap (poke m dest (m src)) (omega arith)
    ∙ poke_here m dest (m src)
    ∙ ap m (omega arith)
memory_copy-here (suc size) m dest src (suc i) up h =
    ap (memory_copy (poke m dest (m src)) (dest + 1) (src + 1) size) (omega arith)
    ∙ memory_copy-here size (poke m dest (m src)) (dest + 1) (src + 1) i (omega arith) (omega arith)
    ∙ poke_else m dest (m src) (src + 1 + i) (omega arith)
    ∙ ap m (omega arith)

-- The byte `k` of a row.
abbrev pub at_row : Video → (row k : ℕ) → ℕ
at_row m row k = m (get_screen_offset 0 row + k)

pub copy_rows-else :
    (rounds row x : ℕ) (m : Video) (r k : ℕ)
    → k < 160
    → (r < row) ⊎ (row + rounds ≤ r)
    → at_row (copy_rows rounds row x m) r k ≡ at_row m r k
unfolding copy_rows
copy_rows-else zero row x m r k small out = refl
copy_rows-else (suc rounds) row x m r k small out =
    copy_rows-else rounds (row + 1) x
      (memory_copy m (get_screen_offset 0 row) (get_screen_offset 0 (row + x)) (80 * 2)) r k small
      (elim out [ inl below ↦ inl (omega arith) | inr above ↦ inr (omega arith) ])
    ∙ memory_copy-else (80 * 2) m (get_screen_offset 0 row) (get_screen_offset 0 (row + x))
        (get_screen_offset 0 r + k)
        (elim out [ inl below ↦ inl (omega arith) | inr above ↦ inr (omega arith) ])

pub copy_rows-here :
    (rounds row x : ℕ) (m : Video) (r k : ℕ)
    → k < 160
    → row ≤ r
    → r < row + rounds
    → at_row (copy_rows rounds row x m) r k ≡ at_row m (r + x) k
unfolding copy_rows
copy_rows-here zero row x m r k small lo hi = absurd (omega arith)
copy_rows-here (suc rounds) row x m r k small lo hi =
    let to = get_screen_offset 0 row in
    let from = get_screen_offset 0 (row + x) in
    elim (lt-or-ge row r) [
      | inl later ↦
          copy_rows-here rounds (row + 1) x (memory_copy m to from (80 * 2)) r k small (omega arith)
            (omega arith)
          ∙ memory_copy-else (80 * 2) m to from (get_screen_offset 0 (r + x) + k)
              (inr (omega arith))
      | inr now ↦
          let same : r ≡ row = omega arith in
          rw same (
            copy_rows-else rounds (row + 1) x (memory_copy m to from (80 * 2)) row k small
              (inl (omega arith))
            ∙ memory_copy-here (80 * 2) m to from k (omega arith) (omega arith))
    ]
