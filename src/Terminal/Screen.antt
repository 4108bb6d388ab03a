-- ===== src/Terminal/Screen.antt =====
-- What the rows of the terminal (applications/terminal/terminal.c) show: the end of all that was
-- printed.
use h3os.Base.{
  ℕ, ◌+◌, ◌-◌, ◌≤◌, ◌<◌, true, false, List, [], ◌∷◌, ◌++◌, length, length-append, ◌==◌, ltb, leb,
  if◌then◌else◌, update, min, ◌≡◌, refl, ap, ◌∙◌, arith, Bool-cases, inl, inr,
}
use h3os.Base.Loops.{for_range_inv}
use h3os.Terminal.{
  Term, term_cols, term_rows, scroll, term_newline, put_char, print_char, term_print,
}

-- Everything printed, without end: the row that is written, and the rows up to it.
pub record Transcript : Type 0 where
  pub last : ℕ
  pub rows : ℕ → List ℕ

abbrev new_row : Transcript → Transcript
new_row w = record { last = w.last + 1; rows = update w.rows (w.last + 1) [] }

abbrev put : Transcript → ℕ → Transcript
put w c = record w { rows = update w.rows w.last (w.rows w.last ++ (c ∷ [])) }

unfoldable pub write : Transcript → ℕ → Transcript
write w c =
    if c == 10
    then new_row w
    else (if leb term_cols (length (w.rows w.last)) then put (new_row w) c else put w c)

unfoldable pub write_all : Transcript → List ℕ → Transcript
write_all w [] = w
write_all w (c ∷ s) = write_all (write w c) s

-- The terminal shows the last 24 rows.
abbrev pub Shows : Term → Transcript → Type 0
Shows t w =
    (t.row ≡ min w.last (term_rows - 1))
    × ((i : ℕ) → i ≤ t.row → t.lines i ≡ w.rows (w.last - t.row + i))

shift_step :
    (lines l : ℕ → List ℕ) (k j : ℕ)
    → l j ≡ (if ltb j k then lines (j + 1) else lines j)
    → l (k + 1) ≡ (if ltb (k + 1) k then lines (k + 1 + 1) else lines (k + 1))
    → update l k (l (k + 1)) j ≡ (if ltb j (k + 1) then lines (j + 1) else lines j)
shift_step lines l k j here next = elim (Bool-cases (k == j)) [
  | inl e ↦
      let same : k ≡ j = ground arith in
      let above : ltb (k + 1) k ≡ false = ground arith in
      let below : ltb j (k + 1) ≡ true = ground arith in
      let moved : lines (k + 1) ≡ lines (j + 1) = ap (λ i. lines (i + 1)) same in
      rw (e, below) (next ∙ rw above moved)
  | inr ne ↦ rw ne (here ∙ (let same : ltb j k ≡ ltb j (k + 1) = ground arith in rw same refl))
]

scroll_lem :
    (lines : ℕ → List ℕ) (i : ℕ)
    → i < 24
    → scroll lines i ≡ (if ltb i 23 then lines (i + 1) else [])
unfolding scroll
scroll_lem lines i lt =
    let moved =
      for_range_inv (λ k l. (j : ℕ) → l j ≡ (if ltb j k then lines (j + 1) else lines j))
        (λ k l. update l k (l (k + 1))) 23 0 23 lines (omega arith)
        (λ k l above below done j. shift_step lines l k j (done j) (done (k + 1)))
        (λ j. ground arith) i in
    elim (Bool-cases (23 == i)) [
      | inl e ↦ rw e (ground arith)
      | inr ne ↦ rw ne (moved ∙ ground arith)
    ]

newline-Shows : (t : Term) (w : Transcript) → Shows t w → Shows (term_newline t) (new_row w)
unfolding term_newline
newline-Shows t w (here, same) = elim (Bool-cases (ltb t.row 23)) [
  | inl room ↦
      let under : t.row < 23 = ground arith in
      let level : t.row ≡ w.last = ground arith in
      rw room (
        omega arith,
        λ i le. elim (Bool-cases (t.row + 1 == i)) [
          | inl e ↦
              let new : (w.last + 1 == w.last + 1 - (t.row + 1) + i) ≡ true = ground arith in
              rw (e, new) refl
          | inr ne ↦
              let old : (w.last + 1 == w.last + 1 - (t.row + 1) + i) ≡ false = ground arith in
              let place : w.last - t.row + i ≡ w.last + 1 - (t.row + 1) + i = omega arith in
              rw (ne, old) (same i (ground arith) ∙ ap w.rows place)
        ],
      )
  | inr full ↦
      let bottom : t.row ≡ 23 = ground arith in
      let far : 23 ≤ w.last = ground arith in
      rw full (
        omega arith,
        λ i le. elim (Bool-cases (t.row == i)) [
          | inl e ↦
              let new : (w.last + 1 == w.last + 1 - t.row + i) ≡ true = ground arith in
              rw (e, new) refl
          | inr ne ↦
              let old : (w.last + 1 == w.last + 1 - t.row + i) ≡ false = ground arith in
              let below : ltb i 23 ≡ true = ground arith in
              let place : w.last - t.row + (i + 1) ≡ w.last + 1 - t.row + i = ground arith in
              rw (ne, old)
                (scroll_lem t.lines i (ground arith)
                  ∙ rw below (same (i + 1) (ground arith) ∙ ap w.rows place))
        ],
      )
]

put-Shows : (t : Term) (w : Transcript) (c : ℕ) → Shows t w → Shows (put_char t c) (put w c)
unfolding put_char
put-Shows t w c (here, same) =
    let bottom : t.lines t.row ≡ w.rows w.last =
      same t.row (omega arith) ∙ ap w.rows (let le : t.row ≤ w.last = omega arith in omega arith) in
    (
      here,
      λ i le. elim (Bool-cases (t.row == i)) [
        | inl e ↦
            let last : (w.last == w.last - t.row + i) ≡ true = ground arith in
            rw (e, last) (ap (λ l. l ++ (c ∷ [])) bottom)
        | inr ne ↦
            let other : (w.last == w.last - t.row + i) ≡ false = ground arith in
            rw (ne, other) (same i le)
      ],
    )

print_char-Shows :
    (t : Term) (w : Transcript) (c : ℕ) → Shows t w → Shows (print_char t c) (write w c)
unfolding print_char write
print_char-Shows t w c (here, same) =
    let bottom : t.lines t.row ≡ w.rows w.last =
      same t.row (omega arith) ∙ ap w.rows (let le : t.row ≤ w.last = omega arith in omega arith) in
    elim (Bool-cases (c == 10)) [
      | inl e ↦ rw e (newline-Shows t w (here, same))
      | inr ne ↦ elim (Bool-cases (leb term_cols (length (w.rows w.last)))) [
        | inl full ↦
            rw (ne, bottom, full)
              (put-Shows (term_newline t) (new_row w) c (newline-Shows t w (here, same)))
        | inr room ↦ rw (ne, bottom, room) (put-Shows t w c (here, same))
      ]
    ]

-- A terminal that shows the last 24 rows of what was printed so far, broken at 72 characters and at each
-- newline, does so after any further text: its rows are then the last 24 of the longer print.
pub term_print-Shows :
    (t : Term) (w : Transcript) (s : List ℕ) → Shows t w → Shows (term_print t s) (write_all w s)
unfolding term_print write_all
term_print-Shows t w [] shown = shown
term_print-Shows t w (c ∷ s) shown =
    term_print-Shows (print_char t c) (write w c) s (print_char-Shows t w c shown)

-- The rows fit into their arrays of 73 bytes.
abbrev pub Fits : Term → Type 0
Fits t = (t.row < term_rows) × ((i : ℕ) → i < term_rows → length (t.lines i) ≤ term_cols)

newline-Fits : (t : Term) → Fits t → Fits (term_newline t)
unfolding term_newline
newline-Fits t (low, fits) = elim (Bool-cases (ltb t.row 23)) [
  | inl room ↦
      let under : t.row < 23 = ground arith in
      rw room (
        omega arith,
        λ i lt. elim (Bool-cases (t.row + 1 == i)) [
          | inl e ↦ rw e (omega arith)
          | inr ne ↦ rw ne (fits i lt)
        ],
      )
  | inr full ↦ rw full (
    low,
    λ i lt. elim (Bool-cases (t.row == i)) [
      | inl e ↦ rw e (omega arith)
      | inr ne ↦
          rw (ne, scroll_lem t.lines i lt)
            (elim (Bool-cases (ltb i 23)) [
              | inl below ↦ rw below (fits (i + 1) (ground arith))
              | inr end ↦ rw end (omega arith)
            ])
    ],
  )
]

put-Fits : (t : Term) (c : ℕ) → Fits t → length (t.lines t.row) < term_cols → Fits (put_char t c)
unfolding put_char
put-Fits t c (low, fits) room = (
  low,
  λ i lt. elim (Bool-cases (t.row == i)) [
    | inl e ↦ let more = length-append (t.lines t.row) (c ∷ []) in rw e (omega arith)
    | inr ne ↦ rw ne (fits i lt)
  ],
)

newline_empty : (t : Term) → length ((term_newline t).lines (term_newline t).row) < term_cols
unfolding term_newline
newline_empty t = elim (Bool-cases (ltb t.row 23)) [
  | inl room ↦ rw room (ground arith)
  | inr full ↦ rw full (ground arith)
]

print_char-Fits : (t : Term) (c : ℕ) → Fits t → Fits (print_char t c)
unfolding print_char
print_char-Fits t c fits = elim (Bool-cases (c == 10)) [
  | inl e ↦ rw e (newline-Fits t fits)
  | inr ne ↦ elim (Bool-cases (leb term_cols (length (t.lines t.row)))) [
    | inl full ↦ rw (ne, full) (put-Fits (term_newline t) c (newline-Fits t fits) (newline_empty t))
    | inr room ↦ rw (ne, room) (put-Fits t c fits (ground arith))
  ]
]

-- `term_print` keeps the row in the table, and every row within 72 characters, so that its NUL is in
-- its array too.
pub term_print-Fits : (t : Term) (s : List ℕ) → Fits t → Fits (term_print t s)
unfolding term_print
term_print-Fits t [] fits = fits
term_print-Fits t (c ∷ s) fits = term_print-Fits (print_char t c) s (print_char-Fits t c fits)
