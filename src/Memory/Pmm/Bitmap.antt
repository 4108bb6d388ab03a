-- ===== src/Memory/Pmm/Bitmap.antt =====
-- The bitmap as a set of pages: what a read sees after a write.
use h3os.Base.{ℕ, ◌/◌, ◌%◌, ◌≡◌, ◌<◌, arith, if◌then◌else◌, ◌==◌, true, false}
use h3os.Base.Bits.{get_bit-set_bit, get_bit-clear_bit, set_bit-lt, clear_bit-lt}
use h3os.Memory.Pmm.{Pmm, bitmap_test, bitmap_set, bitmap_clear}

-- Every byte of the bitmap is one.
abbrev pub AreBytes : Pmm → Type 0
AreBytes s = (i : ℕ) → s.page_bitmap i < 256

module _ (s : Pmm) (b : AreBytes s) (p q : ℕ) where
  pub bitmap_test-bitmap_set :
      bitmap_test (bitmap_set s p) q ≡ (if p == q then true else bitmap_test s q)
  unfolding bitmap_test bitmap_set
  bitmap_test-bitmap_set = ground (
    arith,
    get_bit-set_bit (p % 8) (q % 8) (s.page_bitmap (p / 8)) (omega arith) (omega arith) (b (p / 8)),
  )

  pub bitmap_test-bitmap_clear :
      bitmap_test (bitmap_clear s p) q ≡ (if p == q then false else bitmap_test s q)
  unfolding bitmap_test bitmap_clear
  bitmap_test-bitmap_clear = ground (
    arith,
    get_bit-clear_bit (p % 8) (q % 8) (s.page_bitmap (p / 8)) (omega arith) (omega arith)
        (b (p / 8)),
  )

pub bitmap_set-AreBytes : (s : Pmm) → AreBytes s → (p : ℕ) → AreBytes (bitmap_set s p)
unfolding bitmap_set
bitmap_set-AreBytes s b p i =
    ground (arith, b i, set_bit-lt (p % 8) (s.page_bitmap (p / 8)) (omega arith) (b (p / 8)))

pub bitmap_clear-AreBytes : (s : Pmm) → AreBytes s → (p : ℕ) → AreBytes (bitmap_clear s p)
unfolding bitmap_clear
bitmap_clear-AreBytes s b p i =
    ground (arith, b i, clear_bit-lt (p % 8) (s.page_bitmap (p / 8)) (omega arith) (b (p / 8)))
