-- ===== src/Kernel/Log.antt =====
-- kernel/core/log.c: the formatted log. The bytes go into a ring of 8192 and out of the serial port;
-- the wait for the port is left out. An argument list is a list of typed values; `none` is what is
-- undefined in C, an argument that is missing or of another type, a format that ends in `%`, or a level
-- without a name.
pub mod Ring
pub mod Format
pub mod Directives
mod Tests
use h3os.Base.{
  ℕ, zero, suc, ◌+◌, ◌-◌, ◌%◌, ◌^◌, Bool, true, false, Option, none, some, List, [], ◌∷◌, ◌++◌,
  ◌==◌, ◌&&◌, ◌||◌, ltb, if◌then◌else◌, update, u64, u8,
}
use h3os.Base.Int.{ℤ}
use h3os.Kernel.Strings.{utoa, itoa}

-- `LOG_RING_SIZE`
abbrev pub ring_size : ℕ
ring_size = 8192

-- The static variables of the file, and the bytes sent to the serial port so far.
pub record Log : Type 0 where
  pub log_ring : ℕ → ℕ
  pub log_pos : ℕ
  pub min_level : ℕ
  pub sent : List ℕ

unfoldable pub ring_putc : Log → ℕ → Log
ring_putc s c = record s {
  log_ring = update s.log_ring (s.log_pos % ring_size) c;
  log_pos = u64 (s.log_pos + 1);
  sent = s.sent ++ (c ∷ []);
}

unfoldable pub ring_puts : Log → List ℕ → Log
ring_puts s [] = s
ring_puts s (c ∷ text) = ring_puts (ring_putc s c) text

-- A variable argument; `none` is `NULL`.
pub data Arg : Type 0 where
  string : Option (List ℕ) → Arg
  int long_long : ℤ → Arg
  unsigned pointer unsigned_long_long : ℕ → Arg

-- Where the parse of the format stands: outside a directive, behind `%`, behind `%l`, behind `%ll`.
pub data Mode : Type 0 where
  plain percent long long2 : Mode

-- `(null)`
abbrev pub null_text : List ℕ
null_text = b'(' ∷ b'n' ∷ b'u' ∷ b'l' ∷ b'l' ∷ b')' ∷ []

abbrev pub text_of : Option (List ℕ) → List ℕ
text_of none = null_text
text_of (some t) = t

-- What a directive makes of the next argument.
abbrev pub as_string : Arg → Option (List ℕ)
as_string (string t) = some (text_of t)
as_string _ = none

abbrev pub as_char : Arg → Option (List ℕ)
as_char (int (ℤ.pos n)) = some (u8 n ∷ [])
as_char (int (ℤ.negsuc n)) = some ((255 - u8 n) ∷ [])
as_char _ = none

abbrev pub as_int : Arg → Option (List ℕ)
as_int (int v) = some (itoa v 10)
as_int _ = none

abbrev pub as_unsigned : ℕ → Arg → Option (List ℕ)
as_unsigned base (unsigned v) = some (utoa v base)
as_unsigned base _ = none

abbrev pub as_pointer : Arg → Option (List ℕ)
as_pointer (pointer v) = some (b'0' ∷ b'x' ∷ utoa v 16)
as_pointer _ = none

abbrev pub as_unsigned_long_long : ℕ → Arg → Option (List ℕ)
as_unsigned_long_long base (unsigned_long_long v) = some (utoa v base)
as_unsigned_long_long base _ = none

abbrev pub as_long_long : Arg → Option (List ℕ)
as_long_long (long_long v) = some (itoa v 10)
as_long_long _ = none

-- The mode after a byte of the format, the text that goes out, and the arguments that are left.
abbrev pub Piece : Type 0
Piece = Mode × List ℕ × List Arg

-- `va_arg` and what is made of it, back outside a directive.
abbrev pub with_arg : List Arg → (Arg → Option (List ℕ)) → Option Piece
with_arg [] f = none
with_arg (a ∷ args) f = elim (f a) [ none ↦ none | some t ↦ some (plain, t, args) ]

unfoldable pub next_plain : ℕ → List Arg → Option Piece
next_plain c args = if c == b'%' then some (percent, [], args) else some (plain, c ∷ [], args)

unfoldable pub next_percent : ℕ → List Arg → Option Piece
next_percent c args =
    if c == b's'
    then with_arg args as_string
    else if c == b'c'
    then with_arg args as_char
    else if (c == b'd') || (c == b'i')
    then with_arg args as_int
    else if c == b'u'
    then with_arg args (as_unsigned 10)
    else if c == b'x'
    then with_arg args (as_unsigned 16)
    else if c == b'p'
    then with_arg args as_pointer
    else if c == b'l'
    then some (long, [], args)
    else if c == b'%'
    then some (plain, b'%' ∷ [], args)
    else some (plain, b'%' ∷ c ∷ [], args)

unfoldable pub next_long2 : ℕ → List Arg → Option Piece
next_long2 c args =
    if c == b'u'
    then with_arg args (as_unsigned_long_long 10)
    else if c == b'x'
    then with_arg args (as_unsigned_long_long 16)
    else if c == b'd'
    then with_arg args as_long_long
    else next_plain c args

unfoldable pub next_byte : Mode → ℕ → List Arg → Option Piece
next_byte plain c args = next_plain c args
next_byte percent c args = next_percent c args
next_byte long c args = if c == b'l' then some (long2, [], args) else next_plain c args
next_byte long2 c args = next_long2 c args

abbrev pub is_percent : Mode → Bool
is_percent percent = true
is_percent _ = false

-- The loop of `kvprintf`.
unfoldable pub kvprintf : Mode → List ℕ → List Arg → Log → Option Log
kvprintf mode [] args s = if is_percent mode then none else some s
kvprintf mode (c ∷ fmt) args s = elim (next_byte mode c args) [
  | none ↦ none
  | some (mode', text, args') ↦ kvprintf mode' fmt args' (ring_puts s text)
]

-- `names`, for the six levels
abbrev pub level_name : ℕ → List ℕ
level_name level =
    if level == 0
    then b'T' ∷ b'R' ∷ b'A' ∷ b'C' ∷ b'E' ∷ []
    else if level == 1
    then b'D' ∷ b'E' ∷ b'B' ∷ b'U' ∷ b'G' ∷ []
    else if level == 2
    then b'I' ∷ b'N' ∷ b'F' ∷ b'O' ∷ []
    else if level == 3
    then b'W' ∷ b'A' ∷ b'R' ∷ b'N' ∷ []
    else if level == 4
    then b'E' ∷ b'R' ∷ b'R' ∷ b'O' ∷ b'R' ∷ []
    else b'F' ∷ b'A' ∷ b'T' ∷ b'A' ∷ b'L' ∷ []

-- The part of a line before the message.
abbrev pub heading : ℕ → List ℕ → List ℕ
heading level subsystem =
    (b'[' ∷ []) ++ (level_name level ++ ((b']' ∷ b'[' ∷ []) ++ (subsystem ++ (b']' ∷ b' ' ∷ []))))

-- A level above the six is undefined: there is no name for it.
unfoldable pub klog : ℕ → List ℕ → List ℕ → List Arg → Log → Option Log
klog level subsystem fmt args s =
    if ltb level s.min_level
    then some s
    else (if ltb 5 level
        then none
        else elim (kvprintf plain fmt args (
            ring_puts
              (ring_puts
                (ring_puts (ring_puts (ring_putc s b'[') (level_name level)) (b']' ∷ b'[' ∷ []))
                subsystem)
              (b']' ∷ b' ' ∷ []))) [ none ↦ none | some t ↦ some (ring_putc t 10) ])

unfoldable pub klog_init : Log → Log
klog_init s = record s { log_ring = λ i. 0; log_pos = 0 }
