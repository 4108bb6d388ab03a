-- ===== src/Vfs/Start.antt =====
-- The tree that `vfs_init` of filesystem/vfs/vfs.c starts with.
use h3os.Base.{ℕ, Bool, Option, none, some, List, [], ◌∷◌}
use h3os.Vfs.{Vfs, endless, null, at, unset, dir, new_node, slash, alloc_node, vfs_write}
use h3os.Vfs.Paths.{vfs_mkdir, vfs_create}

-- `memset` of the table.
abbrev pub empty : Vfs
empty = record { nodes = λ i. new_node [] unset 0; node_count = 0; root = none; cwd = [] }

-- The root and the working directory.
unfoldable pub make_root : Vfs
make_root =
    let (r, s) = alloc_node empty (slash ∷ []) dir 493 in record s { root = r; cwd = slash ∷ [] }

-- `none`: a walk does not end within its rounds.
unfoldable pub make_dirs : ℕ → Vfs → List (List ℕ × ℕ) → Option Vfs
make_dirs fuel s [] = some s
make_dirs fuel s ((path, mode) ∷ dirs) =
    let (found, s') = vfs_mkdir fuel s path mode in
    let rest = make_dirs fuel s' dirs in elim found [ endless ↦ none | null ↦ rest | at i ↦ rest ]

-- A file with a text; `malloced` tells whether `kmalloc` gives a buffer.
unfoldable pub seed : ℕ → Bool → List ℕ → List ℕ → Vfs → Option Vfs
seed fuel malloced path text s =
    let (found, s') = vfs_create fuel s path 420 in
    elim found [
      | endless ↦ none
      | null ↦ some s'
      | at i ↦ some (vfs_write malloced s' (some i) text).1
    ]

abbrev pub then_seed : ℕ → Bool → List ℕ → List ℕ → Option Vfs → Option Vfs
then_seed fuel malloced path text none = none
then_seed fuel malloced path text (some s) = seed fuel malloced path text s

-- The directories, with modes of 0755 and 0777.
abbrev pub first_dirs : List (List ℕ × ℕ)
first_dirs =
    (b'/' ∷ b'b' ∷ b'i' ∷ b'n' ∷ [], 493)
    ∷ (b'/' ∷ b'e' ∷ b't' ∷ b'c' ∷ [], 493)
    ∷ (b'/' ∷ b'h' ∷ b'o' ∷ b'm' ∷ b'e' ∷ [], 493)
    ∷ (b'/' ∷ b'h' ∷ b'o' ∷ b'm' ∷ b'e' ∷ b'/' ∷ b'u' ∷ b's' ∷ b'e' ∷ b'r' ∷ [], 493)
    ∷ (b'/' ∷ b't' ∷ b'm' ∷ b'p' ∷ [], 511)
    ∷ (b'/' ∷ b'v' ∷ b'a' ∷ b'r' ∷ [], 493)
    ∷ (b'/' ∷ b'u' ∷ b's' ∷ b'r' ∷ [], 493)
    ∷ (b'/' ∷ b'u' ∷ b's' ∷ b'r' ∷ b'/' ∷ b's' ∷ b'h' ∷ b'a' ∷ b'r' ∷ b'e' ∷ [], 493)
    ∷ (b'/' ∷ b'd' ∷ b'e' ∷ b'v' ∷ [], 493)
    ∷ (b'/' ∷ b'p' ∷ b'r' ∷ b'o' ∷ b'c' ∷ [], 493)
    ∷ (b'/' ∷ b'v' ∷ b'a' ∷ b'r' ∷ b'/' ∷ b'l' ∷ b'i' ∷ b'b' ∷ [], 493)
    ∷ (
      b'/' ∷ b'v' ∷ b'a' ∷ b'r' ∷ b'/' ∷ b'l' ∷ b'i' ∷ b'b' ∷ b'/' ∷ b'h' ∷ b'3' ∷ b'p' ∷ b'k'
          ∷ b'g' ∷ [],
      493,
    )
    ∷ (
      b'/' ∷ b'u' ∷ b's' ∷ b'r' ∷ b'/' ∷ b's' ∷ b'h' ∷ b'a' ∷ b'r' ∷ b'e' ∷ b'/' ∷ b'p' ∷ b'a'
          ∷ b'c' ∷ b'k' ∷ b'a' ∷ b'g' ∷ b'e' ∷ b's' ∷ [],
      493,
    )
    ∷ []

abbrev pub motd_path : List ℕ
motd_path = b'/' ∷ b'e' ∷ b't' ∷ b'c' ∷ b'/' ∷ b'm' ∷ b'o' ∷ b't' ∷ b'd' ∷ []

abbrev pub motd_text : List ℕ
motd_text =
    b'W' ∷ b'e' ∷ b'l' ∷ b'c' ∷ b'o' ∷ b'm' ∷ b'e' ∷ b' ' ∷ b't' ∷ b'o' ∷ b' ' ∷ b'H' ∷ b'3' ∷ b'O'
    ∷ b'S' ∷ b' ' ∷ 226 ∷ 128 ∷ 148 ∷ b' ' ∷ b'T' ∷ b'h' ∷ b'e' ∷ b' ' ∷ b'F' ∷ b'u' ∷ b't' ∷ b'u'
    ∷ b'r' ∷ b'e' ∷ b' ' ∷ b'S' ∷ b't' ∷ b'a' ∷ b'r' ∷ b't' ∷ b's' ∷ b' ' ∷ b'H' ∷ b'e' ∷ b'r'
    ∷ b'e' ∷ b'.' ∷ 10 ∷ []

abbrev pub release_path : List ℕ
release_path =
    b'/' ∷ b'e' ∷ b't' ∷ b'c' ∷ b'/' ∷ b'h' ∷ b'3' ∷ b'o' ∷ b's' ∷ b'-' ∷ b'r' ∷ b'e' ∷ b'l' ∷ b'e'
    ∷ b'a' ∷ b's' ∷ b'e' ∷ []

abbrev pub release_text : List ℕ
release_text =
    b'N' ∷ b'A' ∷ b'M' ∷ b'E' ∷ b'=' ∷ 34 ∷ b'H' ∷ b'3' ∷ b'O' ∷ b'S' ∷ 34 ∷ 10 ∷ b'V' ∷ b'E' ∷ b'R'
    ∷ b'S' ∷ b'I' ∷ b'O' ∷ b'N' ∷ b'=' ∷ 34 ∷ b'0' ∷ b'.' ∷ b'1' ∷ b'.' ∷ b'0' ∷ 34 ∷ 10 ∷ b'C'
    ∷ b'O' ∷ b'D' ∷ b'E' ∷ b'N' ∷ b'A' ∷ b'M' ∷ b'E' ∷ b'=' ∷ 34 ∷ b'H' ∷ b'o' ∷ b'r' ∷ b'i' ∷ b'z'
    ∷ b'o' ∷ b'n' ∷ 34 ∷ 10 ∷ []

abbrev pub db_path : List ℕ
db_path =
    b'/' ∷ b'v' ∷ b'a' ∷ b'r' ∷ b'/' ∷ b'l' ∷ b'i' ∷ b'b' ∷ b'/' ∷ b'h' ∷ b'3' ∷ b'p' ∷ b'k' ∷ b'g'
    ∷ b'/' ∷ b'd' ∷ b'b' ∷ []

abbrev pub db_text : List ℕ
db_text =
    b'b' ∷ b'a' ∷ b's' ∷ b'e' ∷ b'-' ∷ b's' ∷ b'y' ∷ b's' ∷ b't' ∷ b'e' ∷ b'm' ∷ b' ' ∷ b'0' ∷ b'.'
    ∷ b'1' ∷ b'.' ∷ b'0' ∷ b' ' ∷ b'i' ∷ b'n' ∷ b's' ∷ b't' ∷ b'a' ∷ b'l' ∷ b'l' ∷ b'e' ∷ b'd' ∷ 10
    ∷ b'h' ∷ b'o' ∷ b'r' ∷ b'i' ∷ b'z' ∷ b'o' ∷ b'n' ∷ b'-' ∷ b'd' ∷ b'e' ∷ b's' ∷ b'k' ∷ b't'
    ∷ b'o' ∷ b'p' ∷ b' ' ∷ b'0' ∷ b'.' ∷ b'1' ∷ b'.' ∷ b'0' ∷ b' ' ∷ b'i' ∷ b'n' ∷ b's' ∷ b't'
    ∷ b'a' ∷ b'l' ∷ b'l' ∷ b'e' ∷ b'd' ∷ 10 ∷ []

unfoldable pub vfs_init : ℕ → Bool → Option Vfs
vfs_init fuel malloced = then_seed fuel malloced db_path db_text (
    then_seed fuel malloced release_path release_text
      (then_seed fuel malloced motd_path motd_text (make_dirs fuel make_root first_dirs)))
