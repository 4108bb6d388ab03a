-- ===== src/Vfs/Nodes.antt =====
-- The nodes of the file system: the children of a directory, and the bytes of a file.
use h3os.Base.{
  take_all, ℕ, zero, suc, ◌+◌, ◌-◌, ◌≡◌, ◌<◌, refl, ap, ap₂, ◌∙◌, arith, Bool, true, false, Option,
  none, some, List, [], ◌∷◌, length, ◌==◌, ◌&&◌, leb, if◌then◌else◌, update, take, min, Bool-cases,
  inl, inr, AllOf,
}
use h3os.Base.Int.{negsuc, to_i32}
use h3os.Vfs.{
  Node, Vfs, VfsType, is_dir, is_file, same_name, null, at, find_sibling, find_child, add_node,
  alloc_node, link_child, new_node, name_max, max_nodes, vfs_write, vfs_read,
}

-- From the node `o` the list of siblings is this one.
abbrev pub IsSiblings : (ℕ → Node) → Option ℕ → List ℕ → Type 0
IsSiblings ns o [] = o ≡ none
IsSiblings ns o (i ∷ is) = (o ≡ some i) × IsSiblings ns (ns i).sibling is

-- Two tables with the same names and siblings below `n`.
abbrev Agrees : ℕ → (ℕ → Node) → (ℕ → Node) → Type 0
Agrees n ns ms = (j : ℕ) → j < n → ((ms j).name ≡ (ns j).name) × ((ms j).sibling ≡ (ns j).sibling)

find_sibling_same :
    (fuel n : ℕ) (ns ms : ℕ → Node) (name : List ℕ) (o : Option ℕ) (is : List ℕ)
    → IsSiblings ns o is
    → AllOf (λ i. i < n) is
    → Agrees n ns ms
    → find_sibling fuel ms name o ≡ find_sibling fuel ns name o
unfolding find_sibling
find_sibling_same zero n ns ms name o is c b a = refl
find_sibling_same (suc fuel) n ns ms name o [] c b a = rw c refl
find_sibling_same (suc fuel) n ns ms name o (i ∷ is) (e, c) (lt, b) a =
    let (p, q) = a i lt in
    let rest : find_sibling fuel ms name (ms i).sibling ≡ find_sibling fuel ns name (ns i).sibling =
      ap (find_sibling fuel ms name) q
      ∙ find_sibling_same fuel n ns ms name (ns i).sibling is c b a in
    rw e (ap₂ (λ x r. if same_name x name then at i else r) p rest)

-- A directory to whose list of children a node can be added.
pub record IsOpen (s : Vfs) (p : ℕ) (children : List ℕ) : Type 0 where
  pub listed : IsSiblings s.nodes (s.nodes p).child children
  pub older : AllOf (λ i. i < s.node_count) children
  pub old : p < s.node_count
  pub is_directory : is_dir (s.nodes p).type ≡ true
  pub room : s.node_count < max_nodes

-- The states after the node is taken, and after it is linked.
abbrev taken : Vfs → List ℕ → VfsType → ℕ → Vfs
taken s leaf type mode = record s {
  nodes = update s.nodes s.node_count (new_node leaf type mode);
  node_count = s.node_count + 1;
}

abbrev added : Vfs → ℕ → List ℕ → VfsType → ℕ → Vfs
added s p leaf type mode = link_child (taken s leaf type mode) p s.node_count

alloc_node_room :
    (s : Vfs) (leaf : List ℕ) (type : VfsType) (mode : ℕ)
    → s.node_count < max_nodes
    → alloc_node s leaf type mode ≡ (some s.node_count, taken s leaf type mode)
unfolding alloc_node
alloc_node_room s leaf type mode lt =
    let e : leb max_nodes s.node_count ≡ false = ground arith in rw e refl

add_node_adds :
    (fuel : ℕ) (s : Vfs) (p : ℕ) (leaf : List ℕ) (type : VfsType) (mode : ℕ) (children : List ℕ)
    → IsOpen s p children
    → (length leaf == 0) ≡ false
    → find_child fuel s p leaf ≡ null
    → add_node fuel s (at p) leaf type mode ≡ (at s.node_count, added s p leaf type mode)
unfolding add_node
add_node_adds fuel s p leaf type mode children o named fresh =
    rw (o.is_directory, named, fresh, alloc_node_room s leaf type mode o.room)
      (ap (λ q. (at s.node_count, link_child q.1 p s.node_count))
        (alloc_node_room s leaf type mode o.room))

module _ (s : Vfs) (p : ℕ) (leaf : List ℕ) (type : VfsType) (mode : ℕ) (lt : p < s.node_count) where
  added_head : ((added s p leaf type mode).nodes p).child ≡ some s.node_count
  unfolding link_child
  added_head = let self : (p == p) ≡ true = ground arith in rw self refl

  added_new :
      (((added s p leaf type mode).nodes s.node_count).name ≡ take (name_max - 1) leaf)
      × (((added s p leaf type mode).nodes s.node_count).sibling ≡ (s.nodes p).child)
  unfolding link_child
  added_new =
      let apart : (p == s.node_count) ≡ false = ground arith in
      let apart' : (s.node_count == p) ≡ false = ground arith in
      let self : (s.node_count == s.node_count) ≡ true = ground arith in
      rw (apart, apart', self) (refl, refl)

  added-Agrees : Agrees s.node_count s.nodes (added s p leaf type mode).nodes
  unfolding link_child
  added-Agrees j old =
      let apart : (s.node_count == p) ≡ false = ground arith in
      let fresh : (s.node_count == j) ≡ false = ground arith in
      elim (Bool-cases (p == j)) [
        | inr other ↦ rw (other, fresh) (refl, refl)
        | inl same ↦
            let e : p ≡ j = ground arith in
            rw (same, apart) (ap (λ q. (s.nodes q).name) e, ap (λ q. (s.nodes q).sibling) e)
      ]

-- The new node and the old ones in the state left.
find_added :
    (fuel : ℕ) (s : Vfs) (p : ℕ) (leaf name : List ℕ) (type : VfsType) (mode : ℕ)
    (children : List ℕ)
    → IsOpen s p children
    → find_child (suc fuel) (added s p leaf type mode) p name ≡ (
        if same_name (take (name_max - 1) leaf) name
        then at s.node_count
        else find_child fuel s p name)
unfolding find_sibling
find_added fuel s p leaf name type mode children o =
    let t = added s p leaf type mode in
    let (named, next) = added_new s p leaf type mode o.old in
    let rest : find_sibling fuel t.nodes name (t.nodes s.node_count).sibling
        ≡ find_child fuel s p name =
      ap (find_sibling fuel t.nodes name) next
      ∙ find_sibling_same fuel s.node_count s.nodes t.nodes name (s.nodes p).child children o.listed
          o.older (added-Agrees s p leaf type mode o.old) in
    ap (find_sibling (suc fuel) t.nodes name) (added_head s p leaf type mode o.old)
    ∙ ap₂ (λ x r. if same_name x name then at s.node_count else r) named rest

same_name_self : (n : List ℕ) → same_name n n ≡ true
unfolding same_name
same_name_self [] = refl
same_name_self (x ∷ xs) = ground (arith, same_name_self xs)

-- In a directory without a child of this name, with room in the table, and for a name of 1 to 127
-- bytes: `vfs_mkdir` and `vfs_create`, once they have the parent, return a node of the name, which a
-- search then finds; a search for any other name finds what it found before.
pub find_child-add_node :
    (fuel : ℕ) (s : Vfs) (p : ℕ) (leaf name : List ℕ) (type : VfsType) (mode : ℕ)
    (children : List ℕ)
    → IsOpen s p children
    → 0 < length leaf
    → length leaf < name_max
    → find_child fuel s p leaf ≡ null
    → let (found, t) = add_node fuel s (at p) leaf type mode in
      (found ≡ at s.node_count)
      × (find_child (suc fuel) t p leaf ≡ found)
      × (find_child (suc fuel) t p name
          ≡ (if same_name leaf name then at s.node_count else find_child fuel s p name))
find_child-add_node fuel s p leaf name type mode children o named short fresh =
    let nonempty : (length leaf == 0) ≡ false = ground arith in
    let whole = take_all (name_max - 1) leaf (omega arith) in
    let other = find_added fuel s p leaf name type mode children o in
    let self = find_added fuel s p leaf leaf type mode children o in
    rw (add_node_adds fuel s p leaf type mode children o nonempty fresh)
      (refl, self ∙ rw (whole, same_name_self leaf) refl, other ∙ rw whole refl)

-- What a write to the node `i` leaves: all nodes but this one, and the rest of the state.
abbrev pub WroteOnly : Vfs → Vfs → ℕ → Bool → List ℕ → Type 0
WroteOnly s t i done buf =
    (t.root ≡ s.root)
    × (t.node_count ≡ s.node_count)
    × (t.cwd ≡ s.cwd)
    × ((k : ℕ)
        → t.nodes k ≡ (
            if done && (i == k)
            then record (s.nodes i) { bytes = some buf; size = length buf }
            else s.nodes k))

-- A file written, with a buffer from `kmalloc`, reads back as the bytes written, as far as the reader
-- has room, and nothing but its bytes and size changes. Without a buffer, or on a node that is no
-- file, the write returns -1 and changes nothing.
pub vfs_read-vfs_write :
    (malloced : Bool) (s : Vfs) (i j : ℕ) (buf : List ℕ) (max : ℕ)
    → let (r, t) = vfs_write malloced s (some i) buf in
      let done = is_file (s.nodes i).type && malloced in
      (r ≡ (if done then to_i32 (length buf) else negsuc 0))
      × (vfs_read t (some j) max ≡ (
          if done && (i == j)
          then (to_i32 (min (length buf) max), take (min (length buf) max) buf)
          else vfs_read s (some j) max))
      × WroteOnly s t i done buf
unfolding vfs_write vfs_read
vfs_read-vfs_write malloced s i j buf max =
    elim (Bool-cases (is_file (s.nodes i).type && malloced)) [
      | inr refused ↦ rw refused (refl, refl, (refl, refl, refl, λ k. refl))
      | inl done ↦
          let is_f : is_file (s.nodes i).type ≡ true = ground (arith, done) in
          elim (Bool-cases (i == j)) [
            | inr other ↦ rw (done, other) (refl, refl, (refl, refl, refl, λ k. refl))
            | inl same ↦ rw (done, same, is_f) (refl, refl, (refl, refl, refl, λ k. refl))
          ]
    ]
