-- ===== src/Loader.antt =====
-- loader/pe.c and loader/pe.h: the loader of PE32+ programs. A file lies in memory from `file` on;
-- addresses are exact. The program itself is a parameter.
pub mod Image
pub mod Relocs
mod Tests
use h3os.Base.{
  ℕ, zero, suc, ◌+◌, ◌-◌, ◌*◌, ◌/◌, ◌%◌, ◌^◌, Bool, true, false, not, Option, none, some, ◌==◌,
  ◌&&◌, ◌||◌, ltb, leb, if◌then◌else◌, update, u32, u64, sub_u64, page_size, align_up, min,
}
use h3os.Base.Int.{ℤ, pos, negsuc}
use h3os.Base.Loops.{for_range}
use h3os.Boot.{Bytes, load_u32, load_u64}
use h3os.Kernel.Strings.{memset, memcpy}
use h3os.Memory.Pmm.{pmm_alloc_pages}
use h3os.Memory.Heap.{Heap, kmalloc, Outcome, returned, panic, out_of_fuel}

abbrev pub load_u16 : Bytes → ℕ → ℕ
load_u16 m a = m a + 256 * m (a + 1)

abbrev pub store_u32 : Bytes → ℕ → ℕ → Bytes
store_u32 m a v =
    update
      (update (update (update m a (v % 256)) (a + 1) (v / 256 % 256)) (a + 2) (v / 65536 % 256))
      (a + 3) (v / 16777216 % 256)

abbrev pub store_u64 : Bytes → ℕ → ℕ → Bytes
store_u64 m a v = store_u32 (store_u32 m a v) (a + 4) (v / 4294967296)

-- The sizes of `dos_header_t`, `coff_header_t`, `pe32plus_optional_t` and `section_header_t`.
abbrev pub dos_size : ℕ
dos_size = 64

abbrev pub coff_size : ℕ
coff_size = 24

abbrev pub optional_size : ℕ
optional_size = 112

abbrev pub section_size : ℕ
section_size = 40

-- `dos->e_lfanew`, and where the headers and the section table stand.
abbrev pub e_lfanew : Bytes → ℕ → ℕ
e_lfanew m file = load_u32 m (file + 60)

abbrev pub coff_of : Bytes → ℕ → ℕ
coff_of m file = file + e_lfanew m file

abbrev pub opt_of : Bytes → ℕ → ℕ
opt_of m file = coff_of m file + coff_size

abbrev pub secs_of : Bytes → ℕ → ℕ
secs_of m file = opt_of m file + load_u16 m (coff_of m file + 20)

-- `info.error`
pub data Error : Type 0 where
  too_small not_mz bad_lfanew no_signature bad_sig not_amd64 small_optional not_pe32plus : Error

-- `pe_info_t` of a file that is accepted.
pub record PeInfo : Type 0 where
  pub machine : ℕ
  pub entry_rva : ℕ
  pub image_base : ℕ
  pub size_of_image : ℕ
  pub size_of_headers : ℕ
  pub number_of_sections : ℕ

pub data Probe : Type 0 where
  rejected : Error → Probe
  accepted : PeInfo → Probe

abbrev pub info_of : Bytes → ℕ → PeInfo
info_of m file = record {
  machine = load_u16 m (coff_of m file + 4);
  entry_rva = load_u32 m (opt_of m file + 16);
  image_base = load_u64 m (opt_of m file + 24);
  size_of_image = load_u32 m (opt_of m file + 56);
  size_of_headers = load_u32 m (opt_of m file + 60);
  number_of_sections = load_u16 m (coff_of m file + 6);
}

-- The tests behind those of the DOS header.
unfoldable pub probe_coff : Bytes → ℕ → Probe
probe_coff m file =
    let p = coff_of m file in
    if not (m p == 0x50) || not (m (p + 1) == 0x45) || not (m (p + 2) == 0) || not (m (p + 3) == 0)
    then rejected no_signature
    else (if not (load_u32 m p == 0x4550)
        then rejected bad_sig
        else (if not (load_u16 m (p + 4) == 0x8664)
            then rejected not_amd64
            else (if ltb (load_u16 m (p + 20)) optional_size
                then rejected small_optional
                else (if not (load_u16 m (opt_of m file) == 0x20B)
                    then rejected not_pe32plus
                    else accepted (info_of m file)))))

unfoldable pub pe_probe : Bytes → ℕ → ℕ → Probe
pe_probe m file size =
    if (file == 0) || ltb size dos_size
    then rejected too_small
    else (if not (load_u16 m file == 0x5A4D)
        then rejected not_mz
        else (if (e_lfanew m file == 0) || ltb size (e_lfanew m file + coff_size + 4)
            then rejected bad_lfanew
            else probe_coff m file))

-- `*(u64*)target += delta`, or the same with 32 bits, by the type of the entry.
unfoldable pub apply_entry : Bytes → (page delta e : ℕ) → Bytes
apply_entry m page delta e =
    let target = page + e % 4096 in
    if e / 4096 == 10
    then store_u64 m target (u64 (load_u64 m target + delta))
    else (if e / 4096 == 3 then store_u32 m target (u32 (load_u32 m target + delta)) else m)

-- The entries of a block, read while they are applied.
unfoldable pub apply_block : Bytes → (page delta entries count : ℕ) → Bytes
apply_block m page delta entries count =
    for_range count 0 (λ i n. apply_entry n page delta (load_u16 n (entries + 2 * i))) m

-- The loop over the blocks, from `at` in the directory's bytes; `none`: the rounds do not suffice.
unfoldable pub reloc_loop : ℕ → Bytes → (image dir size delta at : ℕ) → Option Bytes
reloc_loop zero m image dir size delta at = none
reloc_loop (suc fuel) m image dir size delta at =
    let block = image + dir + at in
    let block_size = load_u32 m (block + 4) in
    let m' = apply_block m (image + load_u32 m block) delta (block + 8) ((block_size - 8) / 2) in
    let rest = reloc_loop fuel m' image dir size delta (u32 (at + block_size)) in
    if leb (u32 (at + 8)) size then (if ltb block_size 8 then some m else rest) else some m

-- `dirs[5]`, behind the optional header.
abbrev pub reloc_dir : Bytes → ℕ → ℕ
reloc_dir m opt = opt + 112 + 8 * 5

unfoldable pub apply_relocations : ℕ → Bytes → (image preferred opt : ℕ) → Option Bytes
apply_relocations fuel m image preferred opt =
    let dir = load_u32 m (reloc_dir m opt) in
    let size = load_u32 m (reloc_dir m opt + 4) in
    let moved = reloc_loop fuel m image dir size (sub_u64 image preferred) 0 in
    if (image == preferred) || ltb (load_u32 m (opt + 108)) 6 || (dir == 0) || (size == 0)
    then some m
    else moved

-- `section_header_t`
pub record Section : Type 0 where
  pub virtual_address : ℕ
  pub size_of_raw_data : ℕ
  pub pointer_to_raw_data : ℕ

abbrev pub section_at : Bytes → ℕ → ℕ → Section
section_at m secs i = record {
  virtual_address = load_u32 m (secs + section_size * i + 12);
  size_of_raw_data = load_u32 m (secs + section_size * i + 16);
  pointer_to_raw_data = load_u32 m (secs + section_size * i + 20);
}

-- Whether the section is copied: it has bytes, in the file and in the image.
abbrev pub is_copied : ℕ → ℕ → Section → Bool
is_copied size image_size s =
    not ((s.size_of_raw_data == 0) || (s.pointer_to_raw_data == 0))
    && leb (s.pointer_to_raw_data + s.size_of_raw_data) size
    && leb (s.virtual_address + s.size_of_raw_data) image_size

unfoldable pub copy_section : (file size image image_size : ℕ) → Section → Bytes → Bytes
copy_section file size image image_size s m =
    if is_copied size image_size s
    then memcpy m (image + s.virtual_address) (file + s.pointer_to_raw_data) s.size_of_raw_data
    else m

-- The image: zeros, the headers and the sections.
unfoldable pub load_image : Bytes → (file size image : ℕ) → PeInfo → Bytes
load_image m file size image info =
    let secs = secs_of m file in
    let cleared = memset m image 0 info.size_of_image in
    let headed =
      memcpy cleared image file (min (min info.size_of_headers size) info.size_of_image) in
    for_range info.number_of_sections 0
      (λ i n. copy_section file size image info.size_of_image (section_at n secs i) n) headed

-- How `pe_run` ends: -1 before the program starts, the program's code, in `kpanic`, or not within the
-- rounds.
pub data Run : Type 0 where
  failed : Run
  exited : ℤ → Run
  panicked : Run
  endless : Run

-- `entry(&g_api)`: the code that the program returns, and the one that it gave to `exit`, if it did.
abbrev pub Program : Type 0
Program = Bytes → ℕ → ℤ × Option ℤ

abbrev pub exit_code : ℤ × Option ℤ → ℤ
exit_code (rc, none) = rc
exit_code (rc, some code) = code

-- From the image's memory on.
unfoldable pub run_image : ℕ → Program → Bytes → (file size image : ℕ) → PeInfo → Run
run_image fuel entry m file size image info =
    elim (apply_relocations fuel (load_image m file size image info) image info.image_base
      (opt_of m file)) [
        | none ↦ endless
        | some loaded ↦
            if leb info.size_of_image info.entry_rva
            then failed
            else exited (exit_code (entry loaded (image + info.entry_rva)))
      ]

-- With memory from the heap, when there are no pages.
unfoldable pub run_in_heap : ℕ → Program → Bytes → (file size : ℕ) → PeInfo → Outcome → Run
run_in_heap fuel entry m file size info panic = panicked
run_in_heap fuel entry m file size info out_of_fuel = endless
run_in_heap fuel entry m file size info (returned image heap) =
    if image == 0 then failed else run_image fuel entry m file size image info

unfoldable pub run_accepted : ℕ → Program → Bytes → Heap → (file size : ℕ) → PeInfo → Run
run_accepted fuel entry m heap file size info =
    let pages = align_up info.size_of_image page_size / page_size in
    let (image, pmm) = pmm_alloc_pages heap.pmm pages in
    if pages == 0
    then failed
    else (if image == 0
        then run_in_heap fuel entry m file size info
            (kmalloc fuel (record heap { pmm = pmm }) info.size_of_image)
        else run_image fuel entry m file size image info)

unfoldable pub pe_run : ℕ → Program → Bytes → Heap → (file size : ℕ) → Run
pe_run fuel entry m heap file size = elim (pe_probe m file size) [
  | rejected error ↦ failed
  | accepted info ↦ run_accepted fuel entry m heap file size info
]
