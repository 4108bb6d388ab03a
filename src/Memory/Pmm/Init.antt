-- ===== src/Memory/Pmm/Init.antt =====
-- `pmm_init`: what the allocator starts from.
use h3os.Base.{
  ℕ, ◌+◌, ◌-◌, ◌/◌, ◌%◌, ◌^◌, ◌≡◌, ◌≤◌, ◌<◌, refl, arith, true, false, if◌then◌else◌, ◌==◌,
  page_size, Bool-cases, inl, inr, leb, sym, ap, ◌∙◌, ltb, ◌&&◌, min, align_up, align_down,
}
use h3os.Base.Bits.{all_below, all_below_sound, get_bit}
use h3os.Base.Loops.{for_range_inv}
use h3os.Boot.{memory_available}
use h3os.Memory.Pmm.{
  Pmm, max_pages, bitmap_test, bitmap_clear, for_pages, MmapEntry, entry_end, add_entry, blank,
  fallback_map, count_page, recount,
}
use h3os.Memory.Pmm.Bitmap.{AreBytes, bitmap_test-bitmap_clear, bitmap_clear-AreBytes}
use h3os.Memory.Pmm.Count.{
  count_used, count_used-le, count_used_step, count_used_same, count_used_zero, count_used_prefix,
}
use h3os.Memory.Pmm.Inv.{IsValid}

-- Between the entries of the map: nothing from `total_pages` on is clear.
pub record IsDraft (s : Pmm) : Type 0 where
  pub bytes : AreBytes s
  pub above : (p : ℕ) → s.total_pages ≤ p → p < max_pages → bitmap_test s p ≡ true

-- `t` is `s` with the pages from `start` up to `j` cleared.
record Cleared (s : Pmm) (start j : ℕ) (t : Pmm) : Type 0 where
  bytes : AreBytes t
  total : t.total_pages ≡ s.total_pages
  marks : (p : ℕ) → bitmap_test t p ≡ (if leb start p && ltb p j then false else bitmap_test s p)

clear_total : (t : Pmm) (p : ℕ) → (bitmap_clear t p).total_pages ≡ t.total_pages
unfolding bitmap_clear
clear_total t p = refl

for_pages-Cleared :
    (s : Pmm) (start end : ℕ)
    → AreBytes s
    → Cleared s start
        (start + (min end max_pages - start))
        (for_pages start end (λ p t. bitmap_clear t p) s)
unfolding for_pages
for_pages-Cleared s start end b =
    for_range_inv (λ k t. Cleared s start k t) _ (min end max_pages - start) start
      (start + (min end max_pages - start)) s refl
      (λ k t lo hi h. record {
        bytes = bitmap_clear-AreBytes t h.bytes k;
        total = omega (arith, clear_total t k, h.total);
        marks = λ p. ground (arith, bitmap_test-bitmap_clear t h.bytes k p, h.marks p);
      })
      (record { bytes = b; total = refl; marks = λ p. ground arith })

IsDraft-for_pages :
    (s : Pmm) (start end : ℕ)
    → IsDraft s
    → end ≤ s.total_pages
    → IsDraft (for_pages start end (λ p t. bitmap_clear t p) s)
IsDraft-for_pages s start end d le = record {
  bytes = c.bytes;
  above = λ p le' lt. ground (arith, c.marks p, c.total, d.above p);
}
  where
    c :
        Cleared s start
          (start + (min end max_pages - start))
          (for_pages start end (λ p t. bitmap_clear t p) s)
    c = for_pages-Cleared s start end d.bytes

-- The end of an entry is not in the last page of the address space.
abbrev pub IsSane : MmapEntry → Type 0
IsSane e = entry_end e + 4095 < 2 ^ 64

test_same :
    (s t : Pmm) → t.page_bitmap ≡ s.page_bitmap → (q : ℕ) → bitmap_test t q ≡ bitmap_test s q
unfolding bitmap_test
test_same s t e q = rw e

-- The sizes after an entry.
grown : MmapEntry → Pmm → Pmm
grown e s =
    let end_page = align_up (entry_end e) page_size / page_size in
    record s {
      highest_page = if ltb s.highest_page end_page then end_page else s.highest_page;
      total_pages = if ltb s.total_pages end_page then end_page else s.total_pages;
    }

grown-IsDraft : (e : MmapEntry) (s : Pmm) → IsDraft s → IsDraft (grown e s)
unfolding grown
grown-IsDraft e s d = record {
  bytes = d.bytes;
  above = λ p le lt. test_same s (grown e s) refl p ∙ d.above p (ground arith) lt;
}

grown-end :
    (e : MmapEntry) (s : Pmm)
    → IsSane e
    → align_down (entry_end e) page_size / page_size ≤ (grown e s).total_pages
unfolding grown
grown-end e s sane = ground arith

pub add_entry-IsDraft : (e : MmapEntry) (s : Pmm) → IsSane e → IsDraft s → IsDraft (add_entry e s)
unfolding add_entry grown
add_entry-IsDraft e s sane d = elim (Bool-cases (e.type == memory_available)) [
  | inl t ↦ rw t (IsDraft-for_pages (grown e s) _ _ (grown-IsDraft e s d) (grown-end e s sane))
  | inr f ↦ rw f (grown-IsDraft e s d)
]

-- The loop that counts the pages marked.
count_page-bitmap : (p : ℕ) (s : Pmm) (q : ℕ) → bitmap_test (count_page p s) q ≡ bitmap_test s q
unfolding count_page bitmap_test
count_page-bitmap p s q = ground arith

-- After the first `k` rounds of the recount, over the bitmap of `s`.
record Counted (s : Pmm) (k : ℕ) (t : Pmm) : Type 0 where
  bitmap : t.page_bitmap ≡ s.page_bitmap
  total : t.total_pages ≡ s.total_pages
  used : t.used_pages ≡ count_used (bitmap_test s) k

Counted-step :
    (s : Pmm) (k : ℕ) (t : Pmm) → k < max_pages → Counted s k t → Counted s (k + 1) (count_page k t)
unfolding count_page
Counted-step s k t lt c = record {
  bitmap = ground (arith, c.bitmap);
  total = ground (arith, c.total);
  used = ground (
    arith,
    test_same s t c.bitmap k,
    c.used,
    count_used_step (bitmap_test s) k,
    count_used-le (bitmap_test s) k,
  );
}

capped : Pmm → Pmm
capped s = record s {
  total_pages = if ltb max_pages s.total_pages then max_pages else s.total_pages;
  used_pages = 0;
}

recount-Counted : (s : Pmm) → Counted (capped s) (capped s).total_pages (recount s)
unfolding recount capped
recount-Counted s =
    for_range_inv (λ k t. Counted (capped s) k t) count_page (capped s).total_pages 0
      (capped s).total_pages (capped s) (omega arith)
      (λ k t lo hi h. Counted-step (capped s) k t (ground arith) h)
      (record { bitmap = refl; total = refl; used = sym (count_used_zero _) })

capped-total :
    (s : Pmm)
    → ((capped s).total_pages ≤ max_pages)
      × ((p : ℕ) → (capped s).total_pages ≤ p → p < max_pages → s.total_pages ≤ p)
unfolding capped
capped-total s = (ground arith, λ p le lt. ground arith)

capped-bitmap : (s : Pmm) → (capped s).page_bitmap ≡ s.page_bitmap
unfolding capped
capped-bitmap s = refl

pub recount-IsValid : (s : Pmm) → IsDraft s → IsValid (recount s)
recount-IsValid s d = record {
  bytes = λ i. omega (arith, d.bytes i, ap (λ (f : ℕ → ℕ). f i) same);
  bounded = omega (arith, c.total, (capped-total s).0);
  counted =
      c.used
      ∙ ap (count_used (bitmap_test (capped s))) (sym c.total)
      ∙ sym (
          count_used_same (bitmap_test (capped s)) (bitmap_test (recount s)) (recount s).total_pages
            (λ q lt. test_same (capped s) (recount s) c.bitmap q));
  above = λ p le lt.
      test_same s (recount s) same p
      ∙ d.above p ((capped-total s).1 p (omega (arith, c.total)) lt) lt;
}
  where
    c : Counted (capped s) (capped s).total_pages (recount s)
    c = recount-Counted s

    same : (recount s).page_bitmap ≡ s.page_bitmap
    same = c.bitmap ∙ capped-bitmap s

-- `blank`: every page is marked.
full_table : all_below 8 (λ k. get_bit 255 k) ≡ true
unfolding all_below get_bit
full_table = refl

pub get_bit_full : (k : ℕ) → k < 8 → get_bit 255 k ≡ true
get_bit_full k lt = all_below_sound 8 (λ k. get_bit 255 k) k full_table lt

pub blank-IsDraft : IsDraft blank
unfolding blank bitmap_test
blank-IsDraft = record {
  bytes = λ i. omega arith;
  above = λ p le lt. get_bit_full (p % 8) (omega arith);
}

fallback-Cleared :
    Cleared blank 256
      (256 + (min 32768 max_pages - 256))
      (for_pages 256 32768 (λ p t. bitmap_clear t p) blank)
fallback-Cleared = for_pages-Cleared blank 256 32768 blank-IsDraft.bytes

fallback_marks :
    (p : ℕ)
    → bitmap_test (fallback_map blank) p
      ≡ (if leb 256 p && ltb p 32768 then false else bitmap_test blank p)
fallback_marks p =
    test_same (for_pages 256 32768 (λ p t. bitmap_clear t p) blank) (fallback_map blank)
      (unfold fallback_map in refl) p
    ∙ fallback-Cleared.marks p

blank-total : blank.total_pages ≡ 0
unfolding blank
blank-total = refl

blank_marked : (p : ℕ) → p < max_pages → bitmap_test blank p ≡ true
blank_marked p lt = blank-IsDraft.above p (omega (arith, blank-total)) lt

pub fallback-IsValid : IsValid (fallback_map blank)
unfolding fallback_map
fallback-IsValid = record {
  bytes = fallback-Cleared.bytes;
  bounded = omega arith;
  counted = sym (
      count_used_prefix (bitmap_test (fallback_map blank)) 256 32768
        (λ q lt. ground (arith, fallback_marks q, blank_marked q))
        (λ q le lt. ground (arith, fallback_marks q)));
  above = λ p le lt. ground (arith, fallback_marks p, blank_marked p);
}
