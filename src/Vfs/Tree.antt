-- ===== src/Vfs/Tree.antt =====
-- The tree as a whole (filesystem/vfs/vfs.c): its start, the list of a directory, and the working
-- directory.
use h3os.Base.{
  ℕ, zero, suc, ◌-◌, Bool, false, Option, none, some, List, [], ◌∷◌, ◌++◌, length, ◌==◌, ltb,
  if◌then◌else◌, take,
}
use h3os.Base.Int.{ℤ, pos, negsuc}
use h3os.Vfs.{Node, Vfs, Found, endless, null, at, is_dir, name_max, slash, vfs_resolve}

-- The nodes from `o` along the siblings; `none`: not within the rounds.
unfoldable pub siblings : ℕ → (ℕ → Node) → Option ℕ → Option (List ℕ)
siblings zero ns o = none
siblings (suc fuel) ns none = some []
siblings (suc fuel) ns (some c) = elim (siblings fuel ns (ns c).sibling) [
  | none ↦ none
  | some rest ↦ some (c ∷ rest)
]

-- The nodes that `cb` is called with, in order.
unfoldable pub vfs_list : ℕ → Vfs → Option ℕ → Option (List ℕ)
vfs_list fuel s none = some []
vfs_list fuel s (some d) =
    if is_dir (s.nodes d).type then siblings fuel s.nodes (s.nodes d).child else some []

abbrev is_root : Vfs → ℕ → Bool
is_root s i = elim s.root [ none ↦ false | some r ↦ i == r ]

-- The names from a node up to the root.
unfoldable pub names_up : ℕ → Vfs → Option ℕ → Option (List (List ℕ))
names_up zero s o = none
names_up (suc fuel) s none = some []
names_up (suc fuel) s (some i) =
    let rest = names_up fuel s (s.nodes i).parent in
    if is_root s i then some [] else elim rest [
      | none ↦ none
      | some names ↦ some (take (name_max - 1) (s.nodes i).name ∷ names)
    ]

-- The path of these names, the last one first.
unfoldable pub join_names : List (List ℕ) → List ℕ
join_names [] = slash ∷ []
join_names (name ∷ names) =
    let above = join_names names in
    (if ltb 1 (length above) then above ++ (slash ∷ []) else above) ++ name

-- At most 32 names are kept.
unfoldable pub enter_dir : ℕ → Vfs → ℕ → Option (ℤ × Vfs)
enter_dir fuel s i = elim (names_up fuel s (some i)) [
  | none ↦ none
  | some names ↦ some (pos 0, record s { cwd = join_names (take 32 names) })
]

unfoldable pub chdir_to : ℕ → Vfs → Found → Option (ℤ × Vfs)
chdir_to fuel s endless = none
chdir_to fuel s null = some (negsuc 0, s)
chdir_to fuel s (at i) = if is_dir (s.nodes i).type then enter_dir fuel s i else some (negsuc 0, s)

unfoldable pub vfs_chdir : ℕ → Vfs → List ℕ → Option (ℤ × Vfs)
vfs_chdir fuel s path = chdir_to fuel s (vfs_resolve fuel s path)
