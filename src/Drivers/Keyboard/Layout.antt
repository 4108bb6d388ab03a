-- ===== src/Drivers/Keyboard/Layout.antt =====
-- What a key press puts into the buffer.
use h3os.Base.{
  ℕ, ◌+◌, ◌-◌, ◌≡◌, ◌≢◌, ◌<◌, refl, arith, Bool, true, false, not, [], ◌∷◌, ◌==◌, ltb, leb,
  if◌then◌else◌, ap, ◌∙◌, get_or, xor, ◌&&◌, ◌||◌, ==_iff,
}
use h3os.Base.Bits.{all_below, all_below_sound, get_bit}
use h3os.Drivers.Keyboard.{Keyboard, kbd_push, keyboard_irq, press, key_char, ctrl_char}

-- The letter of a scancode: the three rows of a QWERTY keyboard start at 16, 30 and 44.
abbrev pub letter : ℕ → ℕ
letter sc =
    if leb 16 sc && ltb sc 26
    then get_or (b'q' ∷ b'w' ∷ b'e' ∷ b'r' ∷ b't' ∷ b'y' ∷ b'u' ∷ b'i' ∷ b'o' ∷ b'p' ∷ []) (sc - 16)
        0
    else if leb 30 sc && ltb sc 39
    then get_or (b'a' ∷ b's' ∷ b'd' ∷ b'f' ∷ b'g' ∷ b'h' ∷ b'j' ∷ b'k' ∷ b'l' ∷ []) (sc - 30) 0
    else if leb 44 sc && ltb sc 51
    then get_or (b'z' ∷ b'x' ∷ b'c' ∷ b'v' ∷ b'b' ∷ b'n' ∷ b'm' ∷ []) (sc - 44) 0
    else 0

-- What a key press should push: for a letter its control code under Ctrl, else the letter, upper
-- case if exactly one of Shift and Caps Lock is on.
abbrev pub wanted : Bool → Bool → Bool → ℕ → ℕ
wanted shift caps ctrl l = if ctrl then l - b'a' + 1 else if xor shift caps then l - 32 else l

-- Not a byte of a modifier key, nor of a key release.
plain : ℕ → Bool
plain sc = not (
    sc == 0x1D
    || sc == 0x9D
    || sc == 0x2A
    || sc == 0x36
    || sc == 0xAA
    || sc == 0xB6
    || sc == 0x3A
    || get_bit sc 7)

agrees : Bool → Bool → Bool → ℕ → Bool
agrees shift caps ctrl sc =
    letter sc == 0
    || (ctrl_char ctrl (key_char shift caps sc) == wanted shift caps ctrl (letter sc)
        && not (key_char shift caps sc == 0)
        && plain sc)

agrees_table : (shift caps ctrl : Bool) → all_below 128 (agrees shift caps ctrl) ≡ true
unfolding all_below agrees ctrl_char key_char plain get_bit
agrees_table false false false = refl
agrees_table false false true = refl
agrees_table false true false = refl
agrees_table false true true = refl
agrees_table true false false = refl
agrees_table true false true = refl
agrees_table true true false = refl
agrees_table true true true = refl

parts :
    (a b c d : Bool)
    → (a || (b && c && d)) ≡ true
    → a ≡ false
    → (b ≡ true) × (c ≡ true) × (d ≡ true)
parts a b c d h e = ground arith

eq_of_agrees :
    (shift caps ctrl : Bool) (sc : ℕ)
    → agrees shift caps ctrl sc ≡ true
    → letter sc ≢ 0
    → (ctrl_char ctrl (key_char shift caps sc) ≡ wanted shift caps ctrl (letter sc))
      × (key_char shift caps sc ≢ 0)
      × (plain sc ≡ true)
unfolding agrees
eq_of_agrees shift caps ctrl sc h ne =
    let (a, b, c) =
      parts (letter sc == 0)
        (ctrl_char ctrl (key_char shift caps sc) == wanted shift caps ctrl (letter sc))
        (not (key_char shift caps sc == 0)) (plain sc) h (ne_test (letter sc) ne) in
    ((==_iff _ _).0 a, not_zero (key_char shift caps sc) b, c)
  where
    ne_test : (n : ℕ) → n ≢ 0 → (n == 0) ≡ false
    ne_test n ne = ground arith

    not_zero : (n : ℕ) → not (n == 0) ≡ true → n ≢ 0
    not_zero n h = ground arith

-- A byte that is no modifier's and no release reaches `press`.
irq_plain :
    (s : Keyboard) (sc : ℕ)
    → plain sc ≡ true
    → keyboard_irq s sc ≡ press s (key_char s.shift s.caps sc)
unfolding keyboard_irq plain
irq_plain s sc h = ground arith

press_ne_zero : (s : Keyboard) (c : ℕ) → c ≢ 0 → press s c ≡ kbd_push s (ctrl_char s.ctrl c)
unfolding press
press_ne_zero s c ne = ground arith

-- A press of a letter key pushes exactly one character: under Ctrl the control code 1 to 26 of the
-- letter, whatever Shift and Caps Lock are; else the letter, upper case when exactly one of Shift
-- and Caps Lock is on. The modifiers stay as they are.
pub keyboard_irq-letter :
    (s : Keyboard) (sc : ℕ)
    → sc < 128
    → letter sc ≢ 0
    → keyboard_irq s sc ≡ kbd_push s (wanted s.shift s.caps s.ctrl (letter sc))
keyboard_irq-letter s sc lt ne =
    let (a, b, c) =
      eq_of_agrees s.shift s.caps s.ctrl sc
        (all_below_sound 128 (agrees s.shift s.caps s.ctrl) sc (agrees_table s.shift s.caps s.ctrl)
          lt)
        ne in
    irq_plain s sc c ∙ press_ne_zero s (key_char s.shift s.caps sc) b ∙ ap (kbd_push s) a

-- Caps Lock alone turns a key that is no letter to its shifted character: `1` to `!`, and so on.
shifted : ℕ → Bool
shifted sc = not (letter sc == 0) || key_char false true sc == key_char true false sc

shifted_table : all_below 128 shifted ≡ true
unfolding all_below shifted key_char
shifted_table = refl

-- Caps Lock without Shift acts as Shift on every key that is no letter: the character pushed for the
-- key is the one that Shift gives without Caps Lock.
pub key_char_caps :
    (sc : ℕ) → sc < 128 → letter sc ≡ 0 → key_char false true sc ≡ key_char true false sc
unfolding shifted
key_char_caps sc lt e =
    let h = all_below_sound 128 shifted sc shifted_table lt in (==_iff _ _).0 (rw e at h)
