-- ===== src/Examples/Screens.antt =====
-- Inputs for bootloader/drivers/display8025_col.
use cerius.Base.{refl, arith, true}
use cerius.Display.{Screen, scroll_up, pchar}
use cerius.Display.Cursor.{Scrolled, scroll_up-Scrolled, IsOnScreen, pchar-IsOnScreen}

-- Every byte holds its offset; the cursor is at the last cell.
abbrev full : Screen
full = record { video = λ a. a; d8025_offset = 3998; d8025_offset_initialized = true }

full-IsOnScreen : IsOnScreen full
full-IsOnScreen = record { known = refl; even = refl; inside = omega arith }

scroll_example : Scrolled 3 full.video (scroll_up 3 full.video)
scroll_example = scroll_up-Scrolled 3 full.video (omega arith) (omega arith)

pchar_example : IsOnScreen (pchar 0 65 full)
pchar_example = pchar-IsOnScreen 0 65 full full-IsOnScreen
