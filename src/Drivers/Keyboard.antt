-- ===== src/Drivers/Keyboard.antt =====
-- drivers/keyboard/keyboard.c: scancodes of set 1 to characters, and the ring buffer that the
-- interrupt handler fills and the readers empty.
pub mod Ring
pub mod Layout
mod Tests
use h3os.Base.{
  ℕ, ◌+◌, ◌-◌, ◌%◌, Bool, true, false, not, xor, Option, none, some, List, [], ◌∷◌, ◌&&◌, ◌||◌,
  ◌==◌, leb, ltb, if◌then◌else◌, get_or, u32, update,
}
use h3os.Base.Bits.{get_bit}

-- `KBD_BUF_SIZE`
abbrev pub buf_size : ℕ
buf_size = 256

pub record Keyboard : Type 0 where
  pub kbd_buf : ℕ → ℕ
  pub kbd_head : ℕ
  pub kbd_tail : ℕ
  pub shift : Bool
  pub caps : Bool
  pub ctrl : Bool

-- Entries that the source leaves out are 0.
abbrev pub scancode_map : List ℕ
scancode_map =
    0 ∷ 27 ∷ b'1' ∷ b'2' ∷ b'3' ∷ b'4' ∷ b'5' ∷ b'6' ∷ b'7' ∷ b'8' ∷ b'9' ∷ b'0' ∷ b'-' ∷ b'=' ∷ 8
    ∷ 9 ∷ b'q' ∷ b'w' ∷ b'e' ∷ b'r' ∷ b't' ∷ b'y' ∷ b'u' ∷ b'i' ∷ b'o' ∷ b'p' ∷ b'[' ∷ b']' ∷ 10 ∷ 0
    ∷ b'a' ∷ b's' ∷ b'd' ∷ b'f' ∷ b'g' ∷ b'h' ∷ b'j' ∷ b'k' ∷ b'l' ∷ b';' ∷ 39 ∷ b'`' ∷ 0 ∷ 92
    ∷ b'z' ∷ b'x' ∷ b'c' ∷ b'v' ∷ b'b' ∷ b'n' ∷ b'm' ∷ b',' ∷ b'.' ∷ b'/' ∷ 0 ∷ b'*' ∷ 0 ∷ b' ' ∷ 0
    ∷ []

abbrev pub scancode_map_shift : List ℕ
scancode_map_shift =
    0 ∷ 27 ∷ b'!' ∷ b'@' ∷ b'#' ∷ b'$' ∷ b'%' ∷ b'^' ∷ b'&' ∷ b'*' ∷ b'(' ∷ b')' ∷ b'_' ∷ b'+' ∷ 8
    ∷ 9 ∷ b'Q' ∷ b'W' ∷ b'E' ∷ b'R' ∷ b'T' ∷ b'Y' ∷ b'U' ∷ b'I' ∷ b'O' ∷ b'P' ∷ b'{' ∷ b'}' ∷ 10 ∷ 0
    ∷ b'A' ∷ b'S' ∷ b'D' ∷ b'F' ∷ b'G' ∷ b'H' ∷ b'J' ∷ b'K' ∷ b'L' ∷ b':' ∷ 34 ∷ b'~' ∷ 0 ∷ b'|'
    ∷ b'Z' ∷ b'X' ∷ b'C' ∷ b'V' ∷ b'B' ∷ b'N' ∷ b'M' ∷ b'<' ∷ b'>' ∷ b'?' ∷ 0 ∷ b'*' ∷ 0 ∷ b' ' ∷ 0
    ∷ []

pub kbd_push : Keyboard → ℕ → Keyboard
kbd_push s c =
    let next = u32 (s.kbd_head + 1) % buf_size in
    if next == s.kbd_tail
    then s
    else record s { kbd_buf = update s.kbd_buf s.kbd_head c; kbd_head = next }

abbrev pub is_lower : ℕ → Bool
is_lower c = leb b'a' c && leb c b'z'

abbrev pub is_upper : ℕ → Bool
is_upper c = leb b'A' c && leb c b'Z'

-- The character of a key, 0 for none. The two tests on a letter's case read the character that
-- the one before leaves.
pub key_char : Bool → Bool → ℕ → ℕ
key_char shift caps sc =
    if ltb sc 128
    then (let c =
          if xor shift caps then get_or scancode_map_shift sc 0 else get_or scancode_map sc 0 in
        let c' = if not shift && caps && is_lower c then c - 32 else c in
        if shift && caps && is_upper c' then c' + 32 else c')
    else 0

-- With Ctrl held, a letter of either case gives its control code.
pub ctrl_char : Bool → ℕ → ℕ
ctrl_char ctrl c =
    let base = if is_upper c then c - b'A' + b'a' else c in
    if ctrl && is_lower base then base - b'a' + 1 else c

pub press : Keyboard → ℕ → Keyboard
press s c = if c == 0 then s else kbd_push s (ctrl_char s.ctrl c)

-- `sc` is the byte that the controller's port 0x60 gives.
pub keyboard_irq : Keyboard → ℕ → Keyboard
keyboard_irq s sc =
    if sc == 0x1D
    then record s { ctrl = true }
    else if sc == 0x9D
    then record s { ctrl = false }
    else if (sc == 0x2A) || (sc == 0x36)
    then record s { shift = true }
    else if (sc == 0xAA) || (sc == 0xB6)
    then record s { shift = false }
    else if sc == 0x3A
    then record s { caps = not s.caps }
    else if get_bit sc 7
    then s
    else press s (key_char s.shift s.caps sc)

-- `keyboard_init`, less the installation of the handler; the bytes of the buffer stay.
pub keyboard_init : Keyboard → Keyboard
keyboard_init s = record s { kbd_head = 0; kbd_tail = 0; shift = false; caps = false; ctrl = false }

pub keyboard_has_char : Keyboard → Bool
keyboard_has_char s = not (s.kbd_head == s.kbd_tail)

pub keyboard_try_read : Keyboard → Option ℕ × Keyboard
keyboard_try_read s =
    if s.kbd_head == s.kbd_tail
    then (none, s)
    else (some (s.kbd_buf s.kbd_tail), record s { kbd_tail = u32 (s.kbd_tail + 1) % buf_size })

-- 0 when the buffer is empty.
pub keyboard_read_char : Keyboard → ℕ × Keyboard
keyboard_read_char s = elim ((keyboard_try_read s).0) [
  | none ↦ (0, (keyboard_try_read s).1)
  | some c ↦ (c, (keyboard_try_read s).1)
]
