-- ===== src/Terminal/Tests.antt =====
-- A command line, and a print that scrolls.
use h3os.Base.{ℕ, refl, arith, List, [], ◌∷◌}
use h3os.Terminal.{Term, term_print}
use h3os.Terminal.Screen.{Transcript, Shows, write_all, term_print-Shows, Fits, term_print-Fits}

abbrev blank : Term
blank = record { lines = λ i. []; row = 0; input = [] }

abbrev nothing : Transcript
nothing = record { last = 0; rows = λ i. [] }

abbrev two_rows : List ℕ
two_rows = b'a' ∷ 10 ∷ b'b' ∷ []

term_print-Shows_example : Shows (term_print blank two_rows) (write_all nothing two_rows)
term_print-Shows_example = term_print-Shows blank nothing two_rows (omega arith, λ i le. refl)

term_print-Fits_example : Fits (term_print blank two_rows)
term_print-Fits_example = term_print-Fits blank two_rows (omega arith, λ i lt. omega arith)

-- Two spaces, `mv`, a space, `a`, three spaces and `b`, at the end of the line.
abbrev move : List (ℕ × List ℕ)
move = (2, b'm' ∷ b'v' ∷ []) ∷ (0, b'a' ∷ []) ∷ (2, b'b' ∷ []) ∷ []
