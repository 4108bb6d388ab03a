-- ===== src/Memory/Pmm/Inv.antt =====
-- What holds of the allocator between any two calls, and that each of them keeps it.
use h3os.Base.{ℕ, ◌+◌, ◌≡◌, ◌≤◌, ◌<◌, refl, arith, true, false, u64, sub_u64}
use h3os.Memory.Pmm.{Pmm, max_pages, bitmap_test, bitmap_set, bitmap_clear, take_page}
use h3os.Memory.Pmm.Bitmap.{
  AreBytes, bitmap_test-bitmap_set, bitmap_test-bitmap_clear, bitmap_set-AreBytes,
  bitmap_clear-AreBytes,
}
use h3os.Memory.Pmm.Count.{count_used, count_used-le, count_used_set, count_used_clear, Writes}

-- The bitmap is an array of bytes, no page lies behind the end of the bitmap, `used_pages` is the
-- number of the pages marked, and every page from `total_pages` on is marked.
pub record IsValid (s : Pmm) : Type 0 where
  pub bytes : AreBytes s
  pub bounded : s.total_pages ≤ max_pages
  pub counted : s.used_pages ≡ count_used (bitmap_test s) s.total_pages
  pub above : (p : ℕ) → s.total_pages ≤ p → p < max_pages → bitmap_test s p ≡ true

pub used-le-total : {s : Pmm} → IsValid s → s.used_pages ≤ s.total_pages
used-le-total {s} v = omega (arith, v.counted, count_used-le (bitmap_test s) s.total_pages)

-- Taking a clear page, where the count cannot wrap.
pub take_page_test :
    {s : Pmm} → IsValid s → (p : ℕ) → Writes (bitmap_test s) (bitmap_test (take_page s p)) p true
unfolding take_page bitmap_test bitmap_set
take_page_test {s} v p q = unfold bitmap_test bitmap_set in bitmap_test-bitmap_set s v.bytes p q

module _ {s : Pmm} (v : IsValid s) (p : ℕ) where
  take_page-bytes : AreBytes (take_page s p)
  unfolding take_page
  take_page-bytes i = bitmap_set-AreBytes s v.bytes p i

  pub take_page-IsValid : bitmap_test s p ≡ false → p < s.total_pages → IsValid (take_page s p)
  unfolding take_page bitmap_set
  take_page-IsValid clear lt = record {
    bytes = take_page-bytes;
    bounded = v.bounded;
    counted = counts;
    above = λ q le lt'. ground (arith, take_page_test v p q, v.above q le lt');
  }
    where
      counts : u64 (s.used_pages + 1) ≡ count_used (bitmap_test (take_page s p)) s.total_pages
      counts =
          let more =
            count_used_set (bitmap_test s) (bitmap_test (take_page s p)) p s.total_pages
              (take_page_test v p) clear lt in
          omega (
            arith,
            more,
            v.counted,
            v.bounded,
            count_used-le (bitmap_test (take_page s p)) s.total_pages,
          )

-- `bitmap_clear(p); used_pages--;`
unfoldable pub drop_page : Pmm → ℕ → Pmm
drop_page s p = record (bitmap_clear s p) { used_pages = sub_u64 s.used_pages 1 }

module _ {s : Pmm} (v : IsValid s) (p : ℕ) where
  pub drop_page_test : Writes (bitmap_test s) (bitmap_test (drop_page s p)) p false
  unfolding drop_page bitmap_test bitmap_clear
  drop_page_test q = unfold bitmap_test bitmap_clear in bitmap_test-bitmap_clear s v.bytes p q

  drop_page-bytes : AreBytes (drop_page s p)
  unfolding drop_page
  drop_page-bytes i = bitmap_clear-AreBytes s v.bytes p i

  pub drop_page-IsValid : bitmap_test s p ≡ true → p < s.total_pages → IsValid (drop_page s p)
  unfolding drop_page bitmap_clear
  drop_page-IsValid marked lt = record {
    bytes = drop_page-bytes;
    bounded = v.bounded;
    counted = counts;
    above = λ q le lt'. ground (arith, drop_page_test q, v.above q le lt');
  }
    where
      counts : sub_u64 s.used_pages 1 ≡ count_used (bitmap_test (drop_page s p)) s.total_pages
      counts =
          let fewer =
            count_used_clear (bitmap_test s) (bitmap_test (drop_page s p)) p s.total_pages
              drop_page_test marked lt in
          omega (arith, fewer, v.counted, v.bounded, count_used-le (bitmap_test s) s.total_pages)

pub total-take_page : (s : Pmm) (p : ℕ) → (take_page s p).total_pages ≡ s.total_pages
unfolding take_page bitmap_set
total-take_page s p = refl

pub used-take_page : (s : Pmm) (p : ℕ) → (take_page s p).used_pages ≡ u64 (s.used_pages + 1)
unfolding take_page
used-take_page s p = refl
