-- ===== src/Memory/Vmm.antt =====
-- memory/vmm.c and memory/vmm.h: the four levels of page tables. Physical memory is a word at each
-- multiple of 8; a table is the address of its first word.
pub mod Walk
pub mod Chain
pub mod Map
pub mod Unmap
mod Tests
use h3os.Base.{
  ℕ, ◌+◌, ◌*◌, ◌/◌, ◌%◌, ◌^◌, Bool, true, false, not, if◌then◌else◌, ◌==◌, ltb, leb, ◌&&◌, update,
  page_size,
}
use h3os.Memory.Pmm.{Pmm, pmm_alloc_page}

-- `pml4`, the memory, and the pages that are free.
pub record Vmm : Type 0 where
  pub pml4 : ℕ
  pub words : ℕ → ℕ
  pub pmm : Pmm

-- `e & PTE_PRESENT`, `e & PTE_HUGE`, `e & ~0xFFF` and `e & ~0x1FFFFF`
abbrev pub is_present : ℕ → Bool
is_present e = e % 2 == 1

abbrev pub is_huge : ℕ → Bool
is_huge e = e / 128 % 2 == 1

abbrev pub frame_of : ℕ → ℕ
frame_of e = e / 4096 * 4096

abbrev pub huge_frame_of : ℕ → ℕ
huge_frame_of e = e / 0x200000 * 0x200000

-- `e | (1 << k)`
abbrev pub or_bit : ℕ → ℕ → ℕ
or_bit e k = if e / 2 ^ k % 2 == 1 then e else e + 2 ^ k

-- `i4`, `i3`, `i2` and `i1`: the index of an address in the table of a level.
abbrev pub index : ℕ → ℕ → ℕ
index shift virt = virt / 2 ^ shift % 512

abbrev pub slot : ℕ → ℕ → ℕ
slot table i = table + 8 * i

-- A new table: `memset` of its page, and its entry.
unfoldable pub enter_table : Vmm → Pmm → ℕ → ℕ → ℕ → Vmm
enter_table s pmm page table i =
    let zeroed : ℕ → ℕ = λ a. if leb page a && ltb a (page + page_size) then 0 else s.words a in
    record s { words = update zeroed (slot table i) (or_bit (or_bit page 0) 1); pmm = pmm }

-- The table below, or 0 for `NULL`.
unfoldable pub table_walk_alloc : Vmm → ℕ → ℕ → ℕ × Vmm
table_walk_alloc s table i =
    if is_present (s.words (slot table i))
    then (frame_of (s.words (slot table i)), s)
    else (let (page, pmm) = pmm_alloc_page s.pmm in
        if page == 0
        then (0, record s { pmm = pmm })
        else (let t = enter_table s pmm page table i in (frame_of (t.words (slot table i)), t)))

-- `(phys & ~0xFFF) | (flags & 0xFFF) | PTE_PRESENT`: the first two have no bit in common.
abbrev pub leaf : ℕ → ℕ → ℕ
leaf phys flags = or_bit (frame_of phys + flags % 4096) 0

abbrev pub set_leaf : Vmm → ℕ → ℕ → ℕ → ℕ → Vmm
set_leaf s pt virt phys flags = record s {
  words = update s.words (slot pt (index 12 virt)) (leaf phys flags);
}

-- The four steps of `vmm_map_page`, the last first.
unfoldable pub map_in_pd : ℕ × Vmm → (virt phys flags : ℕ) → Bool × Vmm
map_in_pd (pd, s) virt phys flags =
    if pd == 0
    then (false, s)
    else (if is_huge (s.words (slot pd (index 21 virt)))
        then (false, s)
        else (let (pt, t) = table_walk_alloc s pd (index 21 virt) in
            if pt == 0 then (false, t) else (true, set_leaf t pt virt phys flags)))

unfoldable pub map_in_pdpt : ℕ × Vmm → (virt phys flags : ℕ) → Bool × Vmm
map_in_pdpt (pdpt, s) virt phys flags =
    if pdpt == 0
    then (false, s)
    else map_in_pd (table_walk_alloc s pdpt (index 30 virt)) virt phys flags

unfoldable pub vmm_map_page : Vmm → (virt phys flags : ℕ) → Bool × Vmm
vmm_map_page s virt phys flags =
    map_in_pdpt (table_walk_alloc s s.pml4 (index 39 virt)) virt phys flags

abbrev pub entry_4 : Vmm → ℕ → ℕ
entry_4 s virt = s.words (slot s.pml4 (index 39 virt))

abbrev pub entry_3 : Vmm → ℕ → ℕ
entry_3 s virt = s.words (slot (frame_of (entry_4 s virt)) (index 30 virt))

abbrev pub entry_2 : Vmm → ℕ → ℕ
entry_2 s virt = s.words (slot (frame_of (entry_3 s virt)) (index 21 virt))

abbrev pub slot_1 : Vmm → ℕ → ℕ
slot_1 s virt = slot (frame_of (entry_2 s virt)) (index 12 virt)

unfoldable pub vmm_unmap_page : Vmm → ℕ → Bool × Vmm
vmm_unmap_page s virt =
    if not (is_present (entry_4 s virt))
    then (false, s)
    else (if not (is_present (entry_3 s virt))
        then (false, s)
        else (if is_huge (entry_2 s virt)
            then (false, s)
            else (if not (is_present (entry_2 s virt))
                then (false, s)
                else (true, record s { words = update s.words (slot_1 s virt) 0 }))))

unfoldable pub vmm_resolve : Vmm → ℕ → ℕ
vmm_resolve s virt =
    if not (is_present (entry_4 s virt))
    then 0
    else (if not (is_present (entry_3 s virt))
        then 0
        else (if is_huge (entry_2 s virt)
            then huge_frame_of (entry_2 s virt) + virt % 0x200000
            else (if not (is_present (entry_2 s virt))
                then 0
                else (if not (is_present (s.words (slot_1 s virt)))
                    then 0
                    else frame_of (s.words (slot_1 s virt)) + virt % 4096))))
