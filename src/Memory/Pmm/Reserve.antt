-- ===== src/Memory/Pmm/Reserve.antt =====
-- `reserve_region`, and what `pmm_init` leaves behind.
use h3os.Base.{
  ℕ, ◌+◌, ◌-◌, ◌*◌, ◌/◌, ◌^◌, ◌≡◌, ◌≤◌, ◌<◌, refl, arith, true, false, if◌then◌else◌, ◌==◌, u64,
  page_size, Bool-cases, inl, inr, leb, ltb, ◌&&◌, min, align_up,
}
use h3os.Base.Loops.{for_range_inv}
use h3os.Memory.Pmm.{Pmm, max_pages, bitmap_test, reserve_page, for_pages, reserve_region}
use h3os.Memory.Pmm.Inv.{IsValid, take_page_test, take_page-IsValid, total-take_page}

-- `t` is `s` with the pages from `start` up to `j` marked, and valid.
pub record Reserved (s : Pmm) (start j : ℕ) (t : Pmm) : Type 0 where
  pub valid : IsValid t
  pub total : t.total_pages ≡ s.total_pages
  pub marks : (p : ℕ) → bitmap_test t p ≡ (if leb start p && ltb p j then true else bitmap_test s p)

reserve_page-Reserved :
    {s : Pmm} {start k : ℕ} {t : Pmm}
    → start ≤ k
    → k < max_pages
    → Reserved s start k t
    → Reserved s start (k + 1) (reserve_page k t)
unfolding reserve_page
reserve_page-Reserved {s} {start} {k} {t} lo hi h = elim (Bool-cases (bitmap_test t k)) [
  | inl set ↦ rw set (record {
    valid = h.valid;
    total = h.total;
    marks = λ p. elim (Bool-cases (k == p)) [
      | inl e ↦ let e' : k ≡ p = ground arith in let set' = rw e' at set in ground arith
      | inr ne ↦ ground (arith, h.marks p)
    ];
  })
  | inr clear ↦ rw clear (record {
    valid = take_page-IsValid h.valid k clear (inside clear);
    total = omega (arith, total-take_page t k, h.total);
    marks = λ p. ground (arith, take_page_test h.valid k p, h.marks p);
  })
]
  where
    inside : bitmap_test t k ≡ false → k < t.total_pages
    inside clear = ground (arith, h.valid.above k)

for_pages-Reserved :
    (s : Pmm) (start end : ℕ)
    → IsValid s
    → Reserved s start (start + (min end max_pages - start)) (for_pages start end reserve_page s)
unfolding for_pages
for_pages-Reserved s start end v =
    for_range_inv (λ k t. Reserved s start k t) reserve_page (min end max_pages - start) start
      (start + (min end max_pages - start)) s refl
      (λ k t lo hi h. reserve_page-Reserved lo (omega arith) h)
      (record { valid = v; total = refl; marks = λ p. ground arith })

-- On a valid state `reserve_region` marks exactly the pages of the bitmap that the region touches,
-- besides those marked before, and leaves the state valid, if the end of the region lies below the
-- last page of the address space.
pub reserve_region_lem :
    (s : Pmm) (addr len : ℕ)
    → IsValid s
    → addr + len + 4095 < 2 ^ 64
    → IsValid (reserve_region s addr len)
      × ((p : ℕ)
          → p < max_pages
          → bitmap_test (reserve_region s addr len) p ≡ (
              if leb (addr / page_size) p && ltb (p * page_size) (addr + len)
              then true
              else bitmap_test s p))
unfolding reserve_region
reserve_region_lem s addr len v small = (r.valid, λ p lt. ground (arith, r.marks p))
  where
    r :
        Reserved s
          (addr / page_size)
          (addr / page_size
            + (min (align_up (u64 (addr + len)) page_size / page_size) max_pages
                - addr / page_size))
          (reserve_region s addr len)
    r = for_pages-Reserved s _ _ v
