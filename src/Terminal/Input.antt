-- ===== src/Terminal/Input.antt =====
-- The input line and the words of a command (applications/terminal/terminal.c).
use h3os.Base.{
  ℕ, zero, suc, ◌+◌, ◌≤◌, ◌<◌, true, false, List, [], ◌∷◌, ◌++◌, Option, none, some, length,
  length-append, map, take, take_all, take-append_full, ◌==◌, ◌&&◌, ◌||◌, ltb, leb, if◌then◌else◌,
  ◌≡◌, refl, sym, ap, ◌∙◌, arith, Bool-cases, inl, inr, AllOf,
}
use mathlib.Core.List.{append_assoc, append-nil}
use h3os.Terminal.{Term, term_in, next_arg, edit, term_on_key}

-- A word: not empty, and without spaces.
abbrev pub NoSpace : List ℕ → Type 0
NoSpace = AllOf (λ c. (c == 32) ≡ false)

abbrev pub IsWord : List ℕ → Type 0
IsWord w = (0 < length w) × NoSpace w

-- So many spaces, and then `p`.
unfoldable pub padded : ℕ → List ℕ → List ℕ
padded zero p = p
padded (suc n) p = 32 ∷ padded n p

-- What follows a word: the rest of the line, behind a space if there is any of it.
unfoldable pub behind : List ℕ → List ℕ
behind [] = []
behind (c ∷ line) = 32 ∷ c ∷ line

-- A command line: the words, each with the number of the spaces before it, less the one that every word
-- but the first needs, and so many spaces at the end.
unfoldable pub joined : ℕ → List (ℕ × List ℕ) → List ℕ
joined trail [] = padded trail []
joined trail ((n, w) ∷ ws) = padded n (w ++ behind (joined trail ws))

abbrev pub words_of : List (ℕ × List ℕ) → List (List ℕ)
words_of = map (λ g. g.1)

-- The words that calls of `next_arg` give, up to the first `NULL`.
unfoldable pub all_args : ℕ → List ℕ → List (List ℕ)
all_args zero p = []
all_args (suc n) p =
    let (word, p') = next_arg p in
    let rest = all_args n p' in elim word [ none ↦ [] | some w ↦ w ∷ rest ]

abbrev next_args : ℕ → Option (List ℕ) × List ℕ → List (List ℕ)
next_args n (word, p') = let rest = all_args n p' in elim word [ none ↦ [] | some w ↦ w ∷ rest ]

-- Typing keys, one by one.
unfoldable pub type_all : Term → List ℕ → List ℕ → Term
type_all t cwd [] = t
type_all t cwd (c ∷ keys) = type_all (term_on_key t cwd c).0 cwd keys

abbrev pub IsPrintable : ℕ → Type 0
IsPrintable c = (32 ≤ c) × (c < 128)

type_printable :
    (t : Term) (cwd : List ℕ) (c : ℕ)
    → IsPrintable c
    → (term_on_key t cwd c).0.input
      ≡ (if ltb (length t.input + 1) term_in then t.input ++ (c ∷ []) else t.input)
unfolding term_on_key edit
type_printable t cwd c (low, high) =
    let not_newline : ((c == 10) || (c == 13)) ≡ false = ground arith in
    let not_back : (c == 8) ≡ false = ground arith in
    let printable : (leb 32 c && ltb c 128) ≡ true = ground arith in
    elim (Bool-cases (ltb (length t.input + 1) term_in)) [
      | inl room ↦ rw (not_newline, not_back, room, printable) refl
      | inr full ↦ rw (not_newline, not_back, full) refl
    ]

-- Printable keys make the input the text typed, cut to 127 characters.
pub type_all_lem :
    (t : Term) (cwd keys : List ℕ)
    → length t.input ≤ 127
    → AllOf IsPrintable keys
    → (type_all t cwd keys).input ≡ take 127 (t.input ++ keys)
unfolding type_all
type_all_lem t cwd [] le printable = rw (append-nil t.input) (sym (take_all 127 t.input le))
type_all_lem t cwd (c ∷ keys) le (ok, others) =
    let t' = (term_on_key t cwd c).0 in
    let typed = type_printable t cwd c ok in
    elim (Bool-cases (ltb (length t.input + 1) term_in)) [
      | inl room ↦
          let e : t'.input ≡ t.input ++ (c ∷ []) = typed ∙ rw room refl in
          let le' : length t'.input ≤ 127 =
            rw e (let more = length-append t.input (c ∷ []) in ground arith) in
          type_all_lem t' cwd keys le' others
          ∙ (ap (λ l. take 127 (l ++ keys)) e ∙ ap (take 127) (append_assoc t.input (c ∷ []) keys))
      | inr full ↦
          let e : t'.input ≡ t.input = typed ∙ rw full refl in
          let whole : length t.input ≡ 127 = ground arith in
          type_all_lem t' cwd keys (rw e le) others
          ∙ (ap (λ l. take 127 (l ++ keys)) e
              ∙ (take-append_full 127 t.input keys whole
                  ∙ sym (take-append_full 127 t.input (c ∷ keys) whole)))
    ]
