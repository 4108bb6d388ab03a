-- ===== src/Vfs/Paths.antt =====
-- The operations of filesystem/vfs/vfs.c that take paths: `vfs_mkdir`, `vfs_create`, `vfs_unlink`,
-- `vfs_copy` and `vfs_rename`. `none` is a walk that does not end within its rounds.
use h3os.Base.{
  take_all, ℕ, zero, suc, ◌≡◌, ◌<◌, ◌^◌, refl, ap, ap₂, ◌∙◌, arith, Bool, true, false, not, Option,
  none, some, List, [], ◌∷◌, length, ◌==◌, ◌&&◌, ◌||◌, if◌then◌else◌, update, take, Bool-cases, inl,
  inr,
}
use h3os.Base.Int.{ℤ, pos, negsuc}
use h3os.Vfs.{
  Node, Vfs, file, dir, is_file, slash, Found, endless, null, at, from_root, normalize_path,
  vfs_resolve, add_node, vfs_write, contents,
}

abbrev pub has_slash : List ℕ → Bool
has_slash [] = false
has_slash (c ∷ p) = c == slash || has_slash p

-- A path with a slash: what stands before its last slash, and what stands behind.
unfoldable pub split_last : List ℕ → List ℕ × List ℕ
split_last [] = ([], [])
split_last (c ∷ p) =
    let (before, leaf) = split_last p in if has_slash p then (c ∷ before, leaf) else ([], p)

-- The parent of a path and the name in it.
unfoldable pub ensure_parent : ℕ → Vfs → List ℕ → Found × List ℕ
ensure_parent fuel s path =
    let (before, leaf) = split_last (normalize_path s.cwd path) in
    (if length before == 0 then from_root s.root at else vfs_resolve fuel s before, leaf)

unfoldable pub vfs_mkdir : ℕ → Vfs → List ℕ → ℕ → Found × Vfs
vfs_mkdir fuel s path mode =
    let (parent, leaf) = ensure_parent fuel s path in add_node fuel s parent leaf dir mode

unfoldable pub vfs_create : ℕ → Vfs → List ℕ → ℕ → Found × Vfs
vfs_create fuel s path mode =
    let (parent, leaf) = ensure_parent fuel s path in add_node fuel s parent leaf file mode

abbrev pub is_node : Option ℕ → ℕ → Bool
is_node none n = false
is_node (some i) n = i == n

-- The loop of `vfs_unlink` over the siblings.
unfoldable pub drop_sibling : ℕ → (ℕ → Node) → ℕ → Option ℕ → Option (ℕ → Node)
drop_sibling zero ns n o = none
drop_sibling (suc fuel) ns n none = some ns
drop_sibling (suc fuel) ns n (some c) =
    let rest = drop_sibling fuel ns n (ns c).sibling in
    if is_node (ns c).sibling n
    then some (update ns c (record (ns c) { sibling = (ns n).sibling }))
    else rest

unfoldable pub drop_child : ℕ → (ℕ → Node) → ℕ → ℕ → Option (ℕ → Node)
drop_child fuel ns p n =
    if is_node (ns p).child n
    then some (update ns p (record (ns p) { child = (ns n).sibling }))
    else drop_sibling fuel ns n (ns p).child

abbrev pub cleared : Node → Node
cleared n = record n { bytes = none; size = 0; name = [] }

unfoldable pub unlink_from : ℕ → Vfs → Option ℕ → ℕ → Option (ℤ × Vfs)
unlink_from fuel s none n = some (negsuc 0, s)
unlink_from fuel s (some p) n = elim (drop_child fuel s.nodes p n) [
  | none ↦ none
  | some ns ↦ some (pos 0, record s { nodes = update ns n (cleared (ns n)) })
]

unfoldable pub unlink_node : ℕ → Vfs → Found → Option (ℤ × Vfs)
unlink_node fuel s endless = none
unlink_node fuel s null = some (negsuc 0, s)
unlink_node fuel s (at n) =
    if is_node s.root n then some (negsuc 0, s) else unlink_from fuel s (s.nodes n).parent n

abbrev pub vfs_unlink : ℕ → Vfs → List ℕ → Option (ℤ × Vfs)
vfs_unlink fuel s path = unlink_node fuel s (vfs_resolve fuel s path)

abbrev pub has_data : Option (List ℕ) → Bool
has_data none = false
has_data (some b) = true

-- The end of `vfs_copy` from the node `i`, with what `vfs_create` gave.
unfoldable pub copy_to : Bool → ℕ → Found × Vfs → Option (ℤ × Vfs)
copy_to malloced i (endless, t) = none
copy_to malloced i (null, t) = some (negsuc 0, t)
copy_to malloced i (at d, t) =
    if not ((t.nodes i).size == 0) && has_data (t.nodes i).bytes
    then some (vfs_write malloced t (some d) (take (t.nodes i).size (contents (t.nodes i).bytes)))
    else some (pos 0, t)

unfoldable pub copy_from : Bool → ℕ → Vfs → Found → List ℕ → Option (ℤ × Vfs)
copy_from malloced fuel s endless dst = none
copy_from malloced fuel s null dst = some (negsuc 0, s)
copy_from malloced fuel s (at i) dst =
    if is_file (s.nodes i).type
    then copy_to malloced i
        (vfs_create fuel s dst (if (s.nodes i).mode == 0 then 420 else (s.nodes i).mode))
    else some (negsuc 0, s)

abbrev pub vfs_copy : Bool → ℕ → Vfs → List ℕ → List ℕ → Option (ℤ × Vfs)
vfs_copy malloced fuel s src dst = copy_from malloced fuel s (vfs_resolve fuel s src) dst

abbrev pub is_zero : ℤ → Bool
is_zero (pos n) = n == 0
is_zero (negsuc n) = false

unfoldable pub rename_copied : ℕ → List ℕ → Option (ℤ × Vfs) → Option (ℤ × Vfs)
rename_copied fuel src none = none
rename_copied fuel src (some (r, t)) =
    if is_zero r then vfs_unlink fuel t src else some (negsuc 0, t)

abbrev pub vfs_rename : Bool → ℕ → Vfs → List ℕ → List ℕ → Option (ℤ × Vfs)
vfs_rename malloced fuel s src dst = rename_copied fuel src (vfs_copy malloced fuel s src dst)

write_not_zero :
    (malloced : Bool) (t : Vfs) (d : ℕ) (buf : List ℕ)
    → 0 < length buf
    → length buf < 2 ^ 31
    → is_zero (vfs_write malloced t (some d) buf).0 ≡ false
unfolding vfs_write
write_not_zero malloced t d buf lo hi = elim (Bool-cases (is_file (t.nodes d).type && malloced)) [
  | inl done ↦ rw done (ground arith)
  | inr refused ↦ rw refused refl
]

copied :
    (malloced : Bool) (t : Vfs) (buf : List ℕ) (i d : ℕ)
    → (t.nodes i).bytes ≡ some buf
    → (t.nodes i).size ≡ length buf
    → 0 < length buf
    → copy_to malloced i (at d, t) ≡ some (vfs_write malloced t (some d) buf)
unfolding copy_to
copied malloced t buf i d bytes_at size_at lo =
    let some_bytes : ((t.nodes i).size == 0) ≡ false = ground (arith, size_at) in
    let has : has_data (t.nodes i).bytes ≡ true = rw bytes_at refl in
    let whole : take (t.nodes i).size (contents (t.nodes i).bytes) ≡ buf =
      ap₂ (λ n o. take n (contents o)) size_at bytes_at ∙ take_all (length buf) buf (omega arith) in
    rw (some_bytes, has) (ap (λ b. some (vfs_write malloced t (some d) b)) whole)

copy_found :
    (malloced : Bool) (fuel : ℕ) (s : Vfs) (dst : List ℕ) (i : ℕ)
    → is_file (s.nodes i).type ≡ true
    → copy_from malloced fuel s (at i) dst
      ≡ copy_to malloced i
          (vfs_create fuel s dst (if (s.nodes i).mode == 0 then 420 else (s.nodes i).mode))
unfolding copy_from
copy_found malloced fuel s dst i is_f = rw is_f refl

rename_refused :
    (fuel : ℕ) (src : List ℕ) (w : ℤ × Vfs)
    → is_zero w.0 ≡ false
    → rename_copied fuel src (some w) ≡ some (negsuc 0, w.1)
unfolding rename_copied
rename_refused fuel src (r, t) e = rw e refl

-- `vfs_rename` never succeeds on a file that holds bytes, up to 2^31 of them: where `vfs_create` gives
-- the target, the copy is written or refused, the result is -1 either way, and the state is the one
-- that the copy left, with the source in place, since `vfs_copy` returns the size it wrote.
pub vfs_rename_fails :
    (malloced : Bool) (fuel : ℕ) (s t : Vfs) (src dst buf : List ℕ) (i d : ℕ)
    → vfs_resolve fuel s src ≡ at i
    → is_file (s.nodes i).type ≡ true
    → vfs_create fuel s dst (if (s.nodes i).mode == 0 then 420 else (s.nodes i).mode) ≡ (at d, t)
    → (t.nodes i).bytes ≡ some buf
    → (t.nodes i).size ≡ length buf
    → 0 < length buf
    → length buf < 2 ^ 31
    → vfs_rename malloced fuel s src dst ≡ some (negsuc 0, (vfs_write malloced t (some d) buf).1)
vfs_rename_fails malloced fuel s t src dst buf i d found is_f made bytes_at size_at lo hi =
    ap (λ f. rename_copied fuel src (copy_from malloced fuel s f dst)) found
    ∙ ap (rename_copied fuel src) (
        copy_found malloced fuel s dst i is_f
        ∙ ap (copy_to malloced i) made
        ∙ copied malloced t buf i d bytes_at size_at lo)
    ∙ rename_refused fuel src (vfs_write malloced t (some d) buf)
        (write_not_zero malloced t d buf lo hi)
