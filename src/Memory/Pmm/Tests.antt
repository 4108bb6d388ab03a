-- ===== src/Memory/Pmm/Tests.antt =====
-- Runs of the page allocator, and its theorems at concrete states.
use h3os.Base.{ℕ, zero, suc, ◌*◌, ◌≡◌, ◌<◌, refl, arith, some, page_size, [], ◌∷◌, sym, ◌∙◌, get_or}
use h3os.Base.Bits.{get_bit, clear_bit}
use h3os.Boot.{Bytes, tag_mmap, at, mb2_find, mb2_walk}
use h3os.Boot.Tags.{Before, here, past}
use h3os.Memory.Pmm.{
  Pmm, bitmap_test, bitmap_clear, find_free, pmm_alloc_page, pmm_alloc_pages, find_run, run_free,
  pmm_free_page, pmm_init, read_entry,
}
use h3os.Memory.Pmm.Inv.{IsValid}
use h3os.Memory.Pmm.Init.{IsSane}
use h3os.Memory.Pmm.Runs.{AllocatesRun, pmm_alloc_pages_lem}
use h3os.Memory.Pmm.Free.{
  alloc_page, alloc_pages, free_page, free_pages, perform_all, perform_all-IsValid,
}
use h3os.Memory.Pmm.Start.{entry_count, entry_at, IsReadable, Starts, pmm_init-Starts}
use h3os.Memory.Pmm.Samples.{eight, eight-IsValid}

alloc_page_runs : (pmm_alloc_page eight).0 ≡ 2 * page_size
unfolding pmm_alloc_page find_free bitmap_test get_bit
alloc_page_runs = refl

alloc_pages_runs : (pmm_alloc_pages eight 3).0 ≡ 4 * page_size
unfolding pmm_alloc_pages find_run run_free bitmap_test get_bit
alloc_pages_runs = refl

-- A free page of address 0 is handed out as 0, the value that also reports failure.
page_zero : (pmm_alloc_page (pmm_free_page eight 0)).0 ≡ 0
unfolding pmm_alloc_page find_free bitmap_test pmm_free_page bitmap_clear clear_bit get_bit
page_zero = refl

pmm_alloc_pages_lem_example : AllocatesRun eight 3 (pmm_alloc_pages eight 3)
pmm_alloc_pages_lem_example = pmm_alloc_pages_lem eight 3 eight-IsValid (omega arith) (omega arith)

perform_all-IsValid_example :
    IsValid (perform_all eight (alloc_page ∷ alloc_pages 2 ∷ free_page 4096 ∷ free_pages 0 9 ∷ []))
perform_all-IsValid_example =
    perform_all-IsValid (alloc_page ∷ alloc_pages 2 ∷ free_page 4096 ∷ free_pages 0 9 ∷ [])
      eight-IsValid

-- Boot information at address 8: a memory map with one available entry of 512 pages from 0, then the
-- end tag.
abbrev image : Bytes
image = λ a.
    get_or
      (0 ∷ 0 ∷ 0 ∷ 0 ∷ 0 ∷ 0 ∷ 0 ∷ 0 ∷ 56 ∷ 0 ∷ 0 ∷ 0 ∷ 0 ∷ 0 ∷ 0 ∷ 0 ∷ 6 ∷ 0 ∷ 0 ∷ 0 ∷ 40 ∷ 0 ∷ 0
        ∷ 0 ∷ 24 ∷ 0 ∷ 0 ∷ 0 ∷ 0 ∷ 0 ∷ 0 ∷ 0 ∷ 0 ∷ 0 ∷ 0 ∷ 0 ∷ 0 ∷ 0 ∷ 0 ∷ 0 ∷ 0 ∷ 0 ∷ 32 ∷ 0 ∷ 0
        ∷ 0 ∷ 0 ∷ 0 ∷ 1 ∷ 0 ∷ 0 ∷ 0 ∷ 0 ∷ 0 ∷ 0 ∷ 0 ∷ 0 ∷ 0 ∷ 0 ∷ 0 ∷ 8 ∷ 0 ∷ 0 ∷ 0 ∷ [])
      a 0

image_found : mb2_find image 8 tag_mmap ≡ at 16
unfolding mb2_find mb2_walk
image_found = refl

Before-image : {p q : ℕ} → p ≡ 16 → Before image 64 tag_mmap p q → q ≡ 16
Before-image e (here p) = e
Before-image e (past p q lt a b c) = absurd (b (rw e refl))

at-injective : {a b : ℕ} → at a ≡ at b → a ≡ b
at-injective e = cc

image_at : (mmap : ℕ) → mb2_find image 8 tag_mmap ≡ at mmap → mmap ≡ 16
image_at mmap e = sym (at-injective (sym image_found ∙ e))

image-IsSane : (i : ℕ) → i < entry_count image 16 → IsSane (read_entry image (entry_at image 16 i))
unfolding read_entry
image-IsSane zero lt = omega arith
image-IsSane (suc i) lt = absurd (omega arith)

image-IsReadable : IsReadable image 8
image-IsReadable = record {
  moves = λ ne p b lt a c. absurd (c (rw (Before-image refl b) refl));
  sized = λ mmap e. rw (image_at mmap e) (omega arith);
  sane = λ mmap e. rw (image_at mmap e) image-IsSane;
}

pmm_init-Starts_example : (s : Pmm) × (pmm_init 0x102345 image 8 ≡ some s) × Starts 0x102345 s
pmm_init-Starts_example =
    pmm_init-Starts 0x102345 image 8 image-IsReadable (omega arith) (omega arith)
