-- ===== src/Terminal.antt =====
-- applications/terminal/terminal.c: the rows of the shell's window, its input line, and the words of a
-- command. A row is the text that its string holds.
pub mod Screen
pub mod Input
mod Tests
use h3os.Base.{
  ℕ, zero, suc, ◌+◌, ◌-◌, Bool, true, false, not, List, [], ◌∷◌, ◌++◌, Option, none, some, length,
  take, drop, get_or, ◌==◌, ◌&&◌, ◌||◌, ltb, leb, if◌then◌else◌, update,
}
use h3os.Base.Loops.{for_range}

-- `TERM_COLS`, `TERM_ROWS` and `TERM_IN`
abbrev pub term_cols : ℕ
term_cols = 72

abbrev pub term_rows : ℕ
term_rows = 24

abbrev pub term_in : ℕ
term_in = 128

-- `term_state_t`; `in_len` is the length of the input.
pub record Term : Type 0 where
  pub lines : ℕ → List ℕ
  pub row : ℕ
  pub input : List ℕ

-- The rows move up by one, the first one first.
unfoldable pub scroll : (ℕ → List ℕ) → ℕ → List ℕ
scroll lines =
    update (for_range (term_rows - 1) 0 (λ i l. update l i (l (i + 1))) lines) (term_rows - 1) []

unfoldable pub term_newline : Term → Term
term_newline t =
    if ltb t.row (term_rows - 1)
    then record t { row = t.row + 1; lines = update t.lines (t.row + 1) [] }
    else record t { lines = update (scroll t.lines) t.row [] }

-- A character at the end of its row, or of the next one when that is full.
unfoldable pub put_char : Term → ℕ → Term
put_char t c = record t { lines = update t.lines t.row (t.lines t.row ++ (c ∷ [])) }

unfoldable pub print_char : Term → ℕ → Term
print_char t c =
    if c == 10
    then term_newline t
    else (if leb term_cols (length (t.lines t.row))
        then put_char (term_newline t) c
        else put_char t c)

unfoldable pub term_print : Term → List ℕ → Term
term_print t [] = t
term_print t (c ∷ s) = term_print (print_char t c) s

unfoldable pub term_println : Term → List ℕ → Term
term_println t s = term_newline (term_print t s)

-- The loops of `next_arg`: the spaces, and the word with what stands behind its space.
unfoldable pub skip_spaces : List ℕ → List ℕ
skip_spaces [] = []
skip_spaces (c ∷ p) = let rest = skip_spaces p in if c == 32 then rest else c ∷ p

unfoldable pub read_word : List ℕ → List ℕ × List ℕ
read_word [] = ([], [])
read_word (c ∷ p) = let (word, rest) = read_word p in if c == 32 then ([], p) else (c ∷ word, rest)

abbrev pub word_of : List ℕ → Option (List ℕ) × List ℕ
word_of [] = (none, [])
word_of (c ∷ p) = let (word, rest) = read_word (c ∷ p) in (some word, rest)

unfoldable pub next_arg : List ℕ → Option (List ℕ) × List ℕ
next_arg p = word_of (skip_spaces p)

unfoldable pub ends_with_exe : List ℕ → Bool
ends_with_exe s =
    let e = drop (length s - 4) s in
    not (ltb (length s) 4)
    && (get_or e 0 0 == b'.')
    && ((get_or e 1 0 == b'e') || (get_or e 1 0 == b'E'))
    && ((get_or e 2 0 == b'x') || (get_or e 2 0 == b'X'))
    && ((get_or e 3 0 == b'e') || (get_or e 3 0 == b'E'))

-- What `term_on_key` does before `run_command`: the line to run, if the key ends one. `cwd` is the
-- working directory. A `char` is signed, so keys from 128 on are below 32.
abbrev pub prompt : List ℕ → List ℕ → List ℕ
prompt cwd input = (b'h' ∷ b'3' ∷ b'o' ∷ b's' ∷ b':' ∷ []) ++ (cwd ++ ((b'>' ∷ b' ' ∷ []) ++ input))

unfoldable pub enter_line : Term → List ℕ → Term
enter_line t cwd =
    record (term_println
      (term_print (term_print (term_print t (b'h' ∷ b'3' ∷ b'o' ∷ b's' ∷ b':' ∷ [])) cwd)
        (b'>' ∷ b' ' ∷ []))
      t.input) { input = [] }

unfoldable pub edit : Term → ℕ → Term
edit t c =
    if c == 8
    then record t { input = take (length t.input - 1) t.input }
    else (if ltb (length t.input + 1) term_in && leb 32 c && ltb c 128
        then record t { input = t.input ++ (c ∷ []) }
        else t)

unfoldable pub term_on_key : Term → List ℕ → ℕ → Term × Option (List ℕ)
term_on_key t cwd c =
    if (c == 10) || (c == 13) then (enter_line t cwd, some t.input) else (edit t c, none)
