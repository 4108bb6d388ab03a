-- ===== src/Memory/Pmm.antt =====
-- memory/pmm.c: the bitmap page allocator. The file's static variables are one record that every
-- function takes and returns.
pub mod Bitmap
pub mod Alloc
pub mod Count
pub mod Free
pub mod Init
pub mod Inv
pub mod Start
mod Tests
pub mod Reserve
pub mod Runs
pub mod Samples
use h3os.Base.{
  ℕ, zero, suc, ◌+◌, ◌-◌, ◌*◌, ◌/◌, ◌%◌, ◌^◌, Bool, true, false, not, Option, none, some, min,
  if◌then◌else◌, ◌==◌, ltb, leb, u32, u64, sub_u64, page_size, align_up, align_down, update,
}
use h3os.Base.Bits.{get_bit, set_bit, clear_bit}
use h3os.Base.Loops.{for_range}
use h3os.Boot.{
  Bytes, load_u32, load_u64, tag_size, tag_mmap, memory_available, Found, at, null, endless,
  mb2_find,
}

-- `PMM_MAX_PAGES`
abbrev pub max_pages : ℕ
max_pages = 524288

-- The array `page_bitmap` has `max_pages / 8` bytes; no function reads or writes beyond them
-- (`IsValid` bounds every page number that is used).
pub record Pmm : Type 0 where
  pub page_bitmap : ℕ → ℕ
  pub total_pages : ℕ
  pub used_pages : ℕ
  pub highest_page : ℕ

unfoldable pub bitmap_test : Pmm → ℕ → Bool
bitmap_test s page = get_bit (s.page_bitmap (page / 8)) (page % 8)

unfoldable pub bitmap_set : Pmm → ℕ → Pmm
bitmap_set s page = record s {
  page_bitmap = update s.page_bitmap (page / 8) (set_bit (s.page_bitmap (page / 8)) (page % 8));
}

pub bitmap_clear : Pmm → ℕ → Pmm
bitmap_clear s page = record s {
  page_bitmap = update s.page_bitmap (page / 8) (clear_bit (s.page_bitmap (page / 8)) (page % 8));
}

-- `bitmap_set(p); used_pages++;`
unfoldable pub take_page : Pmm → ℕ → Pmm
take_page s p = record (bitmap_set s p) { used_pages = u64 (s.used_pages + 1) }

-- The body of the loop of `reserve_region`.
pub reserve_page : ℕ → Pmm → Pmm
reserve_page p s = if bitmap_test s p then s else take_page s p

-- `for (p = start; p < end && p < PMM_MAX_PAGES; p++)`
pub for_pages : ℕ → ℕ → (ℕ → Pmm → Pmm) → Pmm → Pmm
for_pages start end body s = for_range (min end max_pages - start) start body s

pub reserve_region : Pmm → ℕ → ℕ → Pmm
reserve_region s addr len =
    for_pages (addr / page_size) (align_up (u64 (addr + len)) page_size / page_size) reserve_page s

-- `mb2_mmap_entry_t`
pub record MmapEntry : Type 0 where
  pub addr : ℕ
  pub len : ℕ
  pub type : ℕ

pub read_entry : Bytes → ℕ → MmapEntry
read_entry m a = record {
  addr = load_u64 m a;
  len = load_u64 m (a + 8);
  type = load_u32 m (a + 16);
}

-- The pages that an entry spans, and those that lie in it whole.
abbrev pub entry_end : MmapEntry → ℕ
entry_end e = u64 (e.addr + e.len)

-- The body of the loop over the memory map.
pub add_entry : MmapEntry → Pmm → Pmm
add_entry e s =
    let end_page = align_up (entry_end e) page_size / page_size in
    let s' : Pmm = record s {
      highest_page = if ltb s.highest_page end_page then end_page else s.highest_page;
      total_pages = if ltb s.total_pages end_page then end_page else s.total_pages;
    } in
    if e.type == memory_available
    then for_pages (align_up e.addr page_size / page_size)
        (align_down (entry_end e) page_size / page_size) (λ p t. bitmap_clear t p) s'
    else s'

-- All pages reserved, and no page counted.
pub blank : Pmm
blank = record { page_bitmap = λ _. 255; total_pages = 0; used_pages = 0; highest_page = 0 }

-- Without a memory map: 128 MiB, the first MiB reserved.
pub fallback_map : Pmm → Pmm
fallback_map s = record (for_pages 256 32768 (λ p t. bitmap_clear t p) s) {
  total_pages = 32768;
  highest_page = 32768;
  used_pages = 256;
}

-- `if (bitmap_test(p)) used_pages++;`
pub count_page : ℕ → Pmm → Pmm
count_page p s = if bitmap_test s p then record s { used_pages = u64 (s.used_pages + 1) } else s

-- The cap on `total_pages`, and the count of the used pages.
pub recount : Pmm → Pmm
recount s =
    let total = if ltb max_pages s.total_pages then max_pages else s.total_pages in
    for_range total 0 count_page (record s { total_pages = total; used_pages = 0 })

-- The tag at `mmap`: 16 bytes of header, then entries of `entry_size` bytes each.
pub scan_mmap : Bytes → ℕ → ℕ → Pmm → Pmm
scan_mmap m mmap entry_size s =
    for_range (u32 (tag_size m mmap + 2 ^ 32 - 16) / entry_size) 0
      (λ i t. add_entry (read_entry m (mmap + 16 + u32 (i * entry_size))) t) s

-- The low memory and the kernel, up to the linker's `_kernel_end`.
pub reserve_kernel : ℕ → Pmm → Pmm
reserve_kernel kernel_end s =
    reserve_region (reserve_region s 0 0x100000) 0x100000 (sub_u64 kernel_end 0x100000)

-- `none`: a walk over tags that does not end, or the division by an entry size of 0.
pub pmm_init : ℕ → Bytes → ℕ → Option Pmm
pmm_init kernel_end m mb2 = elim (mb2_find m mb2 tag_mmap) [
  | endless ↦ none
  | null ↦ some (reserve_kernel kernel_end (fallback_map blank))
  | at mmap ↦
      if load_u32 m (mmap + 8) == 0
      then none
      else some
          (reserve_kernel kernel_end (recount (scan_mmap m mmap (load_u32 m (mmap + 8)) blank)))
]

-- The first clear page from `p` on, within so many rounds.
unfoldable pub find_free : Pmm → ℕ → ℕ → Option ℕ
find_free s zero p = none
find_free s (suc n) p = let rest = find_free s n (p + 1) in if bitmap_test s p then rest else some p

-- The address is 0 when no page is free.
unfoldable pub pmm_alloc_page : Pmm → ℕ × Pmm
pmm_alloc_page s = elim (find_free s s.total_pages 0) [
  | none ↦ (0, s)
  | some p ↦ (u64 (p * page_size), take_page s p)
]

-- Whether `n` pages from `p` on are clear.
pub run_free : Pmm → ℕ → ℕ → Bool
run_free s zero p = true
run_free s (suc n) p = let rest = run_free s n (p + 1) in if bitmap_test s p then false else rest

-- `for (p = 0; p + count <= total_pages; p++)`, within so many rounds.
pub find_run : Pmm → ℕ → ℕ → ℕ → Option ℕ
find_run s count zero p = none
find_run s count (suc n) p =
    let rest = find_run s count n (p + 1) in
    if leb (u64 (p + count)) s.total_pages
    then (if run_free s count p then some p else rest)
    else none

pub take_run : Pmm → ℕ → ℕ → Pmm
take_run s count p = for_range count p (λ q t. take_page t q) s

-- A run cannot start behind `total_pages`, so that many rounds and one more suffice.
pub pmm_alloc_pages : Pmm → ℕ → ℕ × Pmm
pmm_alloc_pages s count =
    if count == 0
    then (0, s)
    else if count == 1
    then pmm_alloc_page s
    else elim (find_run s count (s.total_pages + 1) 0) [
      | none ↦ (0, s)
      | some p ↦ (u64 (p * page_size), take_run s count p)
    ]

pub pmm_free_page : Pmm → ℕ → Pmm
pmm_free_page s addr =
    if leb s.total_pages (addr / page_size)
    then s
    else if bitmap_test s (addr / page_size)
    then record (bitmap_clear s (addr / page_size)) { used_pages = sub_u64 s.used_pages 1 }
    else s

pub pmm_free_pages : Pmm → ℕ → ℕ → Pmm
pmm_free_pages s addr count =
    for_range count 0 (λ i t. pmm_free_page t (u64 (addr + i * page_size))) s

-- `pmm_stats_t`
pub record Stats : Type 0 where
  pub total_pages : ℕ
  pub used_pages : ℕ
  pub free_pages : ℕ
  pub total_bytes : ℕ

pub pmm_get_stats : Pmm → Stats
pmm_get_stats s = record {
  total_pages = s.total_pages;
  used_pages = s.used_pages;
  free_pages = if ltb s.used_pages s.total_pages then s.total_pages - s.used_pages else 0;
  total_bytes = u64 (s.total_pages * page_size);
}
