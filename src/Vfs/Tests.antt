-- ===== src/Vfs/Tests.antt =====
-- Runs of the file system, and its theorems at concrete states.
use h3os.Base.{
  ℕ, ◌≡◌, refl, arith, true, Option, none, some, List, [], ◌∷◌, ◌==◌, ◌&&◌, if◌then◌else◌, take,
  min,
}
use h3os.Base.Int.{negsuc, pos, to_i32}
use h3os.Vfs.Tree.{vfs_chdir, chdir_to, enter_dir, names_up, join_names, vfs_list, siblings}
use h3os.Vfs.{
  Node, Vfs, file, dir, is_file, new_node, slash, dot, at, find_child, add_node, same_name,
  find_sibling, vfs_read, vfs_write, vfs_resolve, alloc_node, link_child, step, walk, resolve_full,
  read_part, skip_slashes,
}
use h3os.Vfs.Start.{vfs_init, seed, make_dirs, make_root}
use h3os.Vfs.Paths.{vfs_mkdir, vfs_create, vfs_rename, vfs_rename_fails, ensure_parent, split_last}
use h3os.Vfs.Nodes.{WroteOnly, IsOpen, find_child-add_node, vfs_read-vfs_write}

-- The root, with the directory `a` and in it the file `b`.
abbrev table : ℕ → Node
table i =
    if i == 0
    then record (new_node (slash ∷ []) dir 0) { child = some 1 }
    else if i == 1
    then record (new_node (97 ∷ []) dir 0) { parent = some 0; child = some 2 }
    else record (new_node (98 ∷ []) file 0) { parent = some 1 }

abbrev small : Vfs
small = record { nodes = table; node_count = 3; root = some 0; cwd = slash ∷ [] }

-- `/a/../a//b` is the file.
run_resolve :
    vfs_resolve 4 small (slash ∷ 97 ∷ slash ∷ dot ∷ dot ∷ slash ∷ 97 ∷ slash ∷ slash ∷ 98 ∷ [])
    ≡ at 2
unfolding resolve_full walk step read_part skip_slashes find_sibling same_name
run_resolve = refl

small-IsOpen : IsOpen small 1 (2 ∷ [])
small-IsOpen = record {
  listed = (refl, refl);
  older = omega arith;
  old = omega arith;
  is_directory = refl;
  room = omega arith;
}

find_child-add_node_example :
    let (found, t) = add_node 3 small (at 1) (99 ∷ []) file 0 in
    (found ≡ at 3)
    × (find_child 4 t 1 (99 ∷ []) ≡ found)
    × (find_child 4 t 1 (98 ∷ [])
        ≡ (if same_name (99 ∷ []) (98 ∷ []) then at 3 else find_child 3 small 1 (98 ∷ [])))
unfolding find_sibling same_name
find_child-add_node_example =
    find_child-add_node 3 small 1 (99 ∷ []) (98 ∷ []) file 0 (2 ∷ []) small-IsOpen (omega arith)
      (omega arith) refl

vfs_read-vfs_write_example :
    let (r, t) = vfs_write true small (some 2) (1 ∷ 2 ∷ 3 ∷ []) in
    (r ≡ (if is_file (small.nodes 2).type && true then to_i32 3 else negsuc 0))
    × (vfs_read t (some 2) 2 ≡ (
        if is_file (small.nodes 2).type && true && (2 == 2)
        then (to_i32 (min 3 2), take (min 3 2) (1 ∷ 2 ∷ 3 ∷ []))
        else vfs_read small (some 2) 2))
    × WroteOnly small t 2 (is_file (small.nodes 2).type && true) (1 ∷ 2 ∷ 3 ∷ [])
vfs_read-vfs_write_example = vfs_read-vfs_write true small 2 2 (1 ∷ 2 ∷ 3 ∷ []) 2

-- The same table with 3 bytes in the file, and its state after `vfs_create` of `/c`.
abbrev filled : Vfs
filled = (record small {
  nodes =
      λ i. if i == 2 then record (table 2) { bytes = some (1 ∷ 2 ∷ 3 ∷ []); size = 3 } else table i;
})

abbrev path_b : List ℕ
path_b = slash ∷ 97 ∷ slash ∷ 98 ∷ []

abbrev path_c : List ℕ
path_c = slash ∷ 99 ∷ []

abbrev created : Vfs
created = (vfs_create 4 filled path_c 420).1

vfs_rename_fails_example :
    vfs_rename true 4 filled path_b path_c
    ≡ some (negsuc 0, (vfs_write true created (some 3) (1 ∷ 2 ∷ 3 ∷ [])).1)
unfolding resolve_full walk step read_part skip_slashes find_sibling same_name vfs_create add_node
    alloc_node link_child ensure_parent split_last
vfs_rename_fails_example =
    vfs_rename_fails true 4 filled created path_b path_c (1 ∷ 2 ∷ 3 ∷ []) 2 3 refl refl refl refl
      refl (omega arith) (omega arith)

-- Into the directory `a`, and into the file, which fails.
run_chdir : vfs_chdir 4 small (97 ∷ []) ≡ some (pos 0, record small { cwd = slash ∷ 97 ∷ [] })
unfolding vfs_chdir chdir_to enter_dir names_up join_names resolve_full walk step read_part
    skip_slashes find_sibling same_name
run_chdir = refl

run_list : vfs_list 2 small (some 1) ≡ some (2 ∷ [])
unfolding vfs_list siblings
run_list = refl

-- After the start the table has 17 nodes, and `user` in `/home` is node 4.
abbrev count_of : Option Vfs → ℕ
count_of none = 0
count_of (some s) = s.node_count

run_init : count_of (vfs_init 16 true) ≡ 17
unfolding vfs_init seed make_dirs make_root vfs_mkdir vfs_create ensure_parent split_last alloc_node
    add_node link_child vfs_write resolve_full walk step read_part skip_slashes find_sibling
    same_name
run_init = refl
