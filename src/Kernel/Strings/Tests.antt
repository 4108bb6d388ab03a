-- ===== src/Kernel/Strings/Tests.antt =====
-- Strings in a memory of a few bytes, and the theorems at them.
use h3os.Base.{ℕ, ◌+◌, ◌-◌, ◌≡◌, refl, arith, Option, some, [], ◌∷◌, get_or, if◌then◌else◌}
use h3os.Boot.{Bytes}
use h3os.Kernel.Strings.{memmove, strstr, search_from, matches_at, utoa, low_digits, turn}
use h3os.Kernel.Strings.Copy.{in_range, memmove_lem}
use h3os.Kernel.Strings.Text.{IsString, Occurs, strstr_lem}

-- `abab` at 8, `ab` at 16 and `ba` at 32.
abbrev memory : Bytes
memory a =
    get_or
      (0 ∷ 0 ∷ 0 ∷ 0 ∷ 0 ∷ 0 ∷ 0 ∷ 0 ∷ 97 ∷ 98 ∷ 97 ∷ 98 ∷ 0 ∷ 0 ∷ 0 ∷ 0 ∷ 97 ∷ 98 ∷ 0 ∷ 0 ∷ 0 ∷ 0
        ∷ 0 ∷ 0 ∷ 0 ∷ 0 ∷ 0 ∷ 0 ∷ 0 ∷ 0 ∷ 0 ∷ 0 ∷ 98 ∷ 97 ∷ 0 ∷ [])
      a 0

-- The ranges overlap.
memmove_lem_example :
    memmove memory 9 8 4 12 ≡ (if in_range 9 4 12 then memory (8 + (12 - 9)) else memory 12)
memmove_lem_example = memmove_lem memory 9 8 4 12

text_at_8 : IsString memory 8 (97 ∷ 98 ∷ 97 ∷ 98 ∷ [])
text_at_8 = omega arith

text_at_16 : IsString memory 16 (97 ∷ 98 ∷ [])
text_at_16 = omega arith

text_at_32 : IsString memory 32 (98 ∷ 97 ∷ [])
text_at_32 = omega arith

strstr_lem_example :
    (o : Option ℕ) × (strstr 8 memory 8 32 ≡ o) × Occurs (98 ∷ 97 ∷ []) (97 ∷ 98 ∷ 97 ∷ 98 ∷ []) 8 o
strstr_lem_example =
    strstr_lem 8 memory 8 32 (97 ∷ 98 ∷ 97 ∷ 98 ∷ []) (98 ∷ 97 ∷ []) text_at_8 text_at_32
      (omega arith) (omega arith)

found : strstr 8 memory 8 32 ≡ some 9
unfolding strstr search_from matches_at
found = refl

beef : utoa 0xBEEF 16 ≡ b'b' ∷ b'e' ∷ b'e' ∷ b'f' ∷ []
unfolding utoa low_digits turn
beef = refl
