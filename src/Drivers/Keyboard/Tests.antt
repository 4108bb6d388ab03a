-- ===== src/Drivers/Keyboard/Tests.antt =====
-- Runs of the keyboard driver, and its theorems at concrete states.
use h3os.Base.{◌≡◌, refl, true, false, [], ◌∷◌, arith, ◌==◌, if◌then◌else◌}
use h3os.Drivers.Keyboard.{Keyboard, kbd_push, key_char}
use h3os.Drivers.Keyboard.Ring.{IsValid, contents, kbd_push_refines}

-- `a` at index 255 and `b` at index 0; Shift is held.
abbrev wrapped : Keyboard
wrapped = record {
  kbd_buf = λ i. if i == 255 then b'a' else b'b';
  kbd_head = 1;
  kbd_tail = 255;
  shift = true;
  caps = false;
  ctrl = false;
}

contents-wrapped : contents wrapped ≡ b'a' ∷ b'b' ∷ []
contents-wrapped = refl

kbd_push_refines_example :
    IsValid (kbd_push wrapped 99) × (contents (kbd_push wrapped 99) ≡ b'a' ∷ b'b' ∷ 99 ∷ [])
kbd_push_refines_example = kbd_push_refines wrapped 99 (omega arith)

caps_one : key_char false true 2 ≡ b'!'
unfolding key_char
caps_one = refl
