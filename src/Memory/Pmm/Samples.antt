-- ===== src/Memory/Pmm/Samples.antt =====
-- A small state of the page allocator for the tests.
use h3os.Base.{ℕ, ◌/◌, ◌%◌, ◌≡◌, ◌≤◌, refl, arith, true, false, if◌then◌else◌, ◌==◌}
use h3os.Base.Bits.{get_bit}
use h3os.Memory.Pmm.{Pmm, bitmap_test}
use h3os.Memory.Pmm.Count.{count_used}
use h3os.Memory.Pmm.Inv.{IsValid}
use h3os.Memory.Pmm.Init.{get_bit_full}

-- Eight pages; 0, 1 and 3 are in use.
abbrev pub eight : Pmm
eight = record {
  page_bitmap = λ i. if i == 0 then 11 else 255;
  total_pages = 8;
  used_pages = 3;
  highest_page = 8;
}

pub eight-IsValid : IsValid eight
unfolding bitmap_test count_used get_bit
eight-IsValid = record {
  bytes = λ i. ground arith;
  bounded = omega arith;
  counted = refl;
  above = λ p le lt. beyond p le;
}
  where
    beyond : (p : ℕ) → 8 ≤ p → get_bit (if p / 8 == 0 then 11 else 255) (p % 8) ≡ true
    beyond p le =
        let e : (p / 8 == 0) ≡ false = ground arith in rw e (get_bit_full (p % 8) (omega arith))
