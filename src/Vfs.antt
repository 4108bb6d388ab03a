-- ===== src/Vfs.antt =====
-- filesystem/vfs/vfs.c and vfs.h: the file system in memory, its table of nodes and the walk along a
-- path. A node is named by its index in the table and `none` is `NULL`; a string is its bytes before
-- the terminating 0, without one of 0. Where the source writes a string behind the end of its buffer,
-- which is undefined, the string is kept whole.
pub mod Nodes
pub mod Paths
pub mod Start
pub mod Tree
mod Tests
use h3os.Base.{
  ℕ, zero, suc, ◌+◌, ◌-◌, Bool, true, false, not, Option, none, some, List, [], ◌∷◌, ◌++◌, length,
  ◌==◌, ◌&&◌, ◌||◌, ltb, leb, if◌then◌else◌, update, take, u32, u64, min, ◌^◌, ◌%◌,
}
use h3os.Base.Int.{ℤ, negsuc, to_i32}

abbrev pub name_max : ℕ
name_max = 128

abbrev pub path_max : ℕ
path_max = 256

abbrev pub max_nodes : ℕ
max_nodes = 256

-- `vfs_type_t`, and the 0 of a node that is not in use.
pub data VfsType : Type 0 where
  unset file dir : VfsType

abbrev pub is_file : VfsType → Bool
is_file file = true
is_file _ = false

abbrev pub is_dir : VfsType → Bool
is_dir dir = true
is_dir _ = false

-- `vfs_node_t`; `data` is the bytes it points to.
pub record Node : Type 0 where
  pub name : List ℕ
  pub type : VfsType
  pub mode : ℕ
  pub uid : ℕ
  pub gid : ℕ
  pub size : ℕ
  pub bytes : Option (List ℕ)
  pub parent : Option ℕ
  pub child : Option ℕ
  pub sibling : Option ℕ

-- The static variables of the file.
pub record Vfs : Type 0 where
  pub nodes : ℕ → Node
  pub node_count : ℕ
  pub root : Option ℕ
  pub cwd : List ℕ

-- `strcmp(a, b) == 0`
unfoldable pub same_name : List ℕ → List ℕ → Bool
same_name [] [] = true
same_name [] (y ∷ ys) = false
same_name (x ∷ xs) [] = false
same_name (x ∷ xs) (y ∷ ys) = x == y && same_name xs ys

abbrev pub new_node : List ℕ → VfsType → ℕ → Node
new_node name type mode = record {
  name = take (name_max - 1) name;
  type = type;
  mode = mode;
  uid = 0;
  gid = 0;
  size = 0;
  bytes = none;
  parent = none;
  child = none;
  sibling = none;
}

unfoldable pub alloc_node : Vfs → List ℕ → VfsType → ℕ → Option ℕ × Vfs
alloc_node s name type mode = if leb max_nodes s.node_count then (none, s) else (
  some s.node_count,
  record s {
    nodes = update s.nodes s.node_count (new_node name type mode);
    node_count = s.node_count + 1;
  },
)

-- The two nodes may be the same: the writes happen in turn.
unfoldable pub link_child : Vfs → ℕ → ℕ → Vfs
link_child s p c =
    let ns =
      update s.nodes c (record (s.nodes c) { parent = some p; sibling = (s.nodes p).child }) in
    record s { nodes = update ns p (record (ns p) { child = some c }) }

-- What a walk along pointers answers: nothing within its rounds, `NULL`, or a node.
pub data Found : Type 0 where
  endless null : Found
  at : ℕ → Found

-- The loop of `find_child` from a node of the list on.
unfoldable pub find_sibling : ℕ → (ℕ → Node) → List ℕ → Option ℕ → Found
find_sibling zero ns name o = endless
find_sibling (suc fuel) ns name none = null
find_sibling (suc fuel) ns name (some c) =
    let rest = find_sibling fuel ns name (ns c).sibling in
    if same_name (ns c).name name then at c else rest

abbrev pub find_child : ℕ → Vfs → ℕ → List ℕ → Found
find_child fuel s d name = find_sibling fuel s.nodes name (s.nodes d).child

-- Once the parent is known, `vfs_mkdir` and `vfs_create` differ only in the type.
unfoldable pub add_node : ℕ → Vfs → Found → List ℕ → VfsType → ℕ → Found × Vfs
add_node fuel s endless leaf type mode = (endless, s)
add_node fuel s null leaf type mode = (null, s)
add_node fuel s (at p) leaf type mode =
    let (o, s') = alloc_node s leaf type mode in
    if not (is_dir (s.nodes p).type) || length leaf == 0
    then (null, s)
    else elim (find_child fuel s p leaf) [
      | endless ↦ (endless, s)
      | at c ↦ (at c, s)
      | null ↦ elim o [ none ↦ (null, s) | some n ↦ (at n, link_child s' p n) ]
    ]

-- `/` and `.`
abbrev pub slash : ℕ
slash = 47

abbrev pub dot : ℕ
dot = 46

abbrev pub starts_with_slash : List ℕ → Bool
starts_with_slash [] = false
starts_with_slash (c ∷ p) = c == slash

abbrev pub ends_with_slash : List ℕ → Bool
ends_with_slash [] = false
ends_with_slash (c ∷ []) = c == slash
ends_with_slash (c ∷ d ∷ p) = ends_with_slash (d ∷ p)

abbrev pub normalize_path : List ℕ → List ℕ → List ℕ
normalize_path cwd path = take (path_max - 1) (
    if starts_with_slash path
    then path
    else if ends_with_slash cwd
    then cwd ++ path
    else cwd ++ (slash ∷ path))

-- `while (*p && *p != '/' && i + 1 < VFS_NAME_MAX) part[i++] = *p++;`, with room for `left` bytes: the
-- part and what is left of the path.
unfoldable pub read_part : ℕ → List ℕ → List ℕ × List ℕ
read_part zero p = ([], p)
read_part (suc left) [] = ([], [])
read_part (suc left) (c ∷ p) =
    let (part, rest) = read_part left p in if c == slash then ([], c ∷ p) else (c ∷ part, rest)

unfoldable pub skip_slashes : List ℕ → List ℕ
skip_slashes [] = []
skip_slashes (c ∷ p) = let rest = skip_slashes p in if c == slash then rest else c ∷ p

-- Where one part of a path leads from a node.
unfoldable pub step : ℕ → Vfs → ℕ → List ℕ → Found
step fuel s cur part =
    if length part == 0 || same_name part (dot ∷ [])
    then at cur
    else if same_name part (dot ∷ dot ∷ [])
    then elim (s.nodes cur).parent [ none ↦ at cur | some p ↦ at p ]
    else find_child fuel s cur part

abbrev pub and_then : Found → (ℕ → Found) → Found
and_then endless f = endless
and_then null f = null
and_then (at i) f = f i

-- The loop of `vfs_resolve`; a round takes at least one byte off the path.
unfoldable pub walk : ℕ → ℕ → Vfs → ℕ → List ℕ → Found
walk zero fuel s cur p = endless
walk (suc rounds) fuel s cur [] = at cur
walk (suc rounds) fuel s cur (c ∷ p) =
    let (part, rest) = read_part (name_max - 1) (c ∷ p) in
    and_then (step fuel s cur part) (λ i. walk rounds fuel s i (skip_slashes rest))

abbrev pub from_root : Option ℕ → (ℕ → Found) → Found
from_root none f = null
from_root (some r) f = f r

-- The walk starts behind the first byte of the path; an empty path cannot come about.
unfoldable pub resolve_full : ℕ → Vfs → List ℕ → Found
resolve_full fuel s [] = null
resolve_full fuel s (c ∷ p) = from_root s.root (λ r. walk path_max fuel s r p)

abbrev pub vfs_resolve : ℕ → Vfs → List ℕ → Found
vfs_resolve fuel s path = resolve_full fuel s (normalize_path s.cwd path)

-- `malloced` tells whether `kmalloc` gave a buffer.
unfoldable pub vfs_write : Bool → Vfs → Option ℕ → List ℕ → ℤ × Vfs
vfs_write malloced s none buf = (negsuc 0, s)
vfs_write malloced s (some i) buf =
    if is_file (s.nodes i).type && malloced
    then (
      to_i32 (length buf),
      record s {
        nodes = update s.nodes i (record (s.nodes i) { bytes = some buf; size = length buf });
      },
    )
    else (negsuc 0, s)

abbrev pub contents : Option (List ℕ) → List ℕ
contents none = []
contents (some b) = b

-- The result and the bytes copied to `buf`.
unfoldable pub vfs_read : Vfs → Option ℕ → ℕ → ℤ × List ℕ
vfs_read s none max = (negsuc 0, [])
vfs_read s (some i) max =
    if is_file (s.nodes i).type
    then (
      to_i32 (min (s.nodes i).size max),
      take (min (s.nodes i).size max) (contents (s.nodes i).bytes),
    )
    else (negsuc 0, [])
