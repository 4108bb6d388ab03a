-- ===== src/Memory/Pmm/Alloc.antt =====
-- The two allocating calls: what they return, what they mark, and when they fail.
use h3os.Base.{
  ℕ, zero, suc, ◌+◌, ◌*◌, ◌≡◌, ◌≤◌, ◌<◌, arith, true, false, some, none, if◌then◌else◌, ◌==◌, u64,
  page_size, Option, Bool-cases, inl, inr,
}
use h3os.Memory.Pmm.{Pmm, bitmap_test, take_page, find_free, pmm_alloc_page}
use h3os.Memory.Pmm.Inv.{
  IsValid, used-le-total, take_page_test, take_page-IsValid, total-take_page, used-take_page,
}

-- `find_free` returns the first clear page of its range.
pub data FirstFree (s : Pmm) (p j : ℕ) : Option ℕ → Type 0 where
  free_at :
      (q : ℕ)
      → p ≤ q
      → q < j
      → bitmap_test s q ≡ false
      → ((r : ℕ) → p ≤ r → r < q → bitmap_test s r ≡ true)
      → FirstFree s p j (some q)
  all_used : ((r : ℕ) → p ≤ r → r < j → bitmap_test s r ≡ true) → FirstFree s p j none

FirstFree-skip :
    {s : Pmm} {p j : ℕ} {o : Option ℕ}
    → bitmap_test s p ≡ true
    → FirstFree s (p + 1) j o
    → FirstFree s p j o
FirstFree-skip {s} {p} t (free_at q a b c d) =
    free_at q (omega arith) b c λ r lo hi. elim (Bool-cases (p == r)) [
      | inl e ↦ ground arith
      | inr ne ↦ d r (ground arith) hi
    ]
FirstFree-skip {s} {p} t (all_used d) =
    all_used λ r lo hi. elim (Bool-cases (p == r)) [
      | inl e ↦ ground arith
      | inr ne ↦ d r (ground arith) hi
    ]

find_free_first : (s : Pmm) (n p j : ℕ) → p + n ≡ j → FirstFree s p j (find_free s n p)
unfolding find_free
find_free_first s zero p j e = all_used λ r lo hi. absurd (omega arith)
find_free_first s (suc n) p j e = elim (Bool-cases (bitmap_test s p)) [
  | inl t ↦ rw t (FirstFree-skip t (find_free_first s n (p + 1) j (omega arith)))
  | inr f ↦ rw f (free_at p (omega arith) (omega arith) f λ r lo hi. absurd (omega arith))
]

-- What `pmm_alloc_page` does: it takes the first clear page, or there is none and it changes
-- nothing.
pub data AllocatesPage (s : Pmm) : ℕ × Pmm → Type 0 where
  page :
      (p : ℕ) (t : Pmm)
      → p < s.total_pages
      → bitmap_test s p ≡ false
      → ((r : ℕ) → r < p → bitmap_test s r ≡ true)
      → ((q : ℕ) → bitmap_test t q ≡ (if p == q then true else bitmap_test s q))
      → t.used_pages ≡ s.used_pages + 1
      → t.total_pages ≡ s.total_pages
      → IsValid t
      → AllocatesPage s (p * page_size, t)
  exhausted : ((r : ℕ) → r < s.total_pages → bitmap_test s r ≡ true) → AllocatesPage s (0, s)

pub used_at_clear :
    {s : Pmm}
    → IsValid s
    → (p : ℕ) → bitmap_test s p ≡ false
    → p < s.total_pages
    → u64 (s.used_pages + 1) ≡ s.used_pages + 1
used_at_clear v p c lt = omega (arith, used-le-total v, v.bounded)

alloc_first :
    {s : Pmm}
    → IsValid s
    → (o : Option ℕ) → FirstFree s 0 s.total_pages o
    → AllocatesPage s (elim o [ none ↦ (0, s) | some p ↦ (u64 (p * page_size), take_page s p) ])
alloc_first {s} v (some _) (free_at q lo hi clear least) =
    let e : u64 (q * page_size) ≡ q * page_size = omega (arith, v.bounded) in
    rw e (
      page q (take_page s q) hi clear (λ r lt. least r (omega arith) lt) (take_page_test v q)
        (rw (used-take_page s q) (used_at_clear v q clear hi)) (total-take_page s q)
        (take_page-IsValid v q clear hi))
alloc_first v none (all_used d) = exhausted (λ r lt. d r (omega arith) lt)

-- On a valid state `pmm_alloc_page` takes the lowest clear page below `total_pages`: it returns that
-- page's address, marks that page and no other, counts one page more, and leaves a valid state. It
-- returns 0 and leaves the state as it was only if every page is marked.
pub pmm_alloc_page_lem : (s : Pmm) → IsValid s → AllocatesPage s (pmm_alloc_page s)
unfolding pmm_alloc_page
pmm_alloc_page_lem s v =
    alloc_first v (find_free s s.total_pages 0)
      (find_free_first s s.total_pages 0 s.total_pages (omega arith))
