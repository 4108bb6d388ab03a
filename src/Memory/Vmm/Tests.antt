-- ===== src/Memory/Vmm/Tests.antt =====
-- An empty root table in page 1.
use h3os.Base.{ℕ, ◌≡◌, ◌<◌, refl, arith, true, if◌then◌else◌, ◌==◌}
use h3os.Memory.Pmm.{bitmap_test, pmm_alloc_page, find_free, take_page, bitmap_set}
use h3os.Base.Bits.{get_bit, set_bit}
use h3os.Memory.Pmm.Samples.{eight, eight-IsValid}
use h3os.Memory.Vmm.{
  Vmm, vmm_map_page, map_in_pdpt, map_in_pd, table_walk_alloc, enter_table, vmm_unmap_page,
}
use h3os.Memory.Vmm.Walk.{Levels, IsValid}
use h3os.Memory.Vmm.Map.{Maps, vmm_map_page-Maps}
use h3os.Memory.Vmm.Unmap.{Unmaps, vmm_unmap_page-Unmaps}

abbrev bare : Vmm
bare = record { pml4 = 4096; words = λ a. 0; pmm = eight }

abbrev bare_level : Levels
bare_level p = if p == 1 then 4 else 0

bare-IsValid : IsValid bare_level bare
unfolding bitmap_test get_bit
bare-IsValid = record {
  root = 1;
  at_root = refl;
  root_level = refl;
  owned = λ p lt. owned p lt;
  zero_used = refl;
  zero_level = refl;
  pages_valid = eight-IsValid;
  links = λ p k i high hi here small. absurd (ground arith);
}
  where
    owned : (p : ℕ) → 0 < bare_level p → bitmap_test eight p ≡ true
    owned p lt = let e : p ≡ 1 = ground arith in rw e refl

-- Three tables are made on the way.
maps_once : (vmm_map_page bare 0x401000 0x7000 2).0 ≡ true
unfolding vmm_map_page map_in_pdpt map_in_pd table_walk_alloc enter_table pmm_alloc_page find_free
    take_page bitmap_set bitmap_test get_bit set_bit
maps_once = refl

vmm_map_page-Maps_example : Maps 0x401000 0x7000 2 (vmm_map_page bare 0x401000 0x7000 2)
vmm_map_page-Maps_example = vmm_map_page-Maps bare_level bare 0x401000 0x7000 2 bare-IsValid

vmm_unmap_page-Unmaps_example : Unmaps bare_level bare 0x401000 (vmm_unmap_page bare 0x401000)
vmm_unmap_page-Unmaps_example = vmm_unmap_page-Unmaps bare_level bare bare-IsValid 0x401000
