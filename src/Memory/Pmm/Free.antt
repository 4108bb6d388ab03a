-- ===== src/Memory/Pmm/Free.antt =====
-- Freeing, and the invariant along every sequence of calls.
use h3os.Base.{
  ℕ, zero, suc, ◌+◌, ◌*◌, ◌/◌, ◌^◌, ◌≡◌, ◌≤◌, ◌<◌, refl, arith, true, false, if◌then◌else◌, ◌==◌,
  u64, sub_u64, page_size, Bool-cases, inl, inr, leb, ltb, ◌&&◌, List, [], ◌∷◌, leb→le, ◌⊎◌,
}
use h3os.Base.Loops.{for_range_inv}
use h3os.Memory.Pmm.{
  Pmm, bitmap_test, pmm_alloc_page, pmm_alloc_pages, pmm_free_page, pmm_free_pages, pmm_get_stats,
}
use h3os.Memory.Pmm.Inv.{IsValid, used-le-total, drop_page, drop_page_test, drop_page-IsValid}
use h3os.Memory.Pmm.Count.{count_used}
use h3os.Memory.Pmm.Alloc.{AllocatesPage, page, exhausted, pmm_alloc_page_lem}
use h3os.Memory.Pmm.Runs.{AllocatesRun, run, refused, pmm_alloc_pages_lem}

free_page_cases :
    (s : Pmm) (addr : ℕ)
    → ((pmm_free_page s addr ≡ s)
        × ((s.total_pages ≤ addr / page_size) ⊎ (bitmap_test s (addr / page_size) ≡ false)))
      ⊎ ((pmm_free_page s addr ≡ drop_page s (addr / page_size))
          × (bitmap_test s (addr / page_size) ≡ true)
          × (addr / page_size < s.total_pages))
unfolding pmm_free_page drop_page
free_page_cases s addr = elim (Bool-cases (leb s.total_pages (addr / page_size))) [
  | inl out ↦ rw out (inl (refl, inl (leb→le _ _ out)))
  | inr ins ↦ rw ins (elim (Bool-cases (bitmap_test s (addr / page_size))) [
    | inl t ↦ rw t (inr (refl, refl, ground arith))
    | inr f ↦ rw f (inl (refl, inr refl))
  ])
]

pub pmm_free_page-IsValid : {s : Pmm} → IsValid s → (addr : ℕ) → IsValid (pmm_free_page s addr)
pmm_free_page-IsValid {s} v addr = elim (free_page_cases s addr) [
  | inl (e, _) ↦ rw e v
  | inr (e, t, lt) ↦ rw e (drop_page-IsValid v (addr / page_size) t lt)
]

-- `pmm_free_page` clears the page of its address, if that lies below `total_pages`, and no other.
pub pmm_free_page_test :
    {s : Pmm}
    → IsValid s
    → (addr q : ℕ)
    → bitmap_test (pmm_free_page s addr) q
      ≡ (if (addr / page_size == q) && ltb q s.total_pages then false else bitmap_test s q)
pmm_free_page_test {s} v addr q = elim (free_page_cases s addr) [
  | inl (e, inl out) ↦ rw e (ground arith)
  | inl (e, inr f) ↦ rw e (elim (Bool-cases (addr / page_size == q)) [
    | inl same ↦ let e' : addr / page_size ≡ q = ground arith in let f' = rw e' at f in ground arith
    | inr other ↦ ground arith
  ])
  | inr (e, t, lt) ↦ rw e (ground (arith, drop_page_test v (addr / page_size) q))
]

-- One page fewer is counted, and the total stays.
drop_page-used : (s : Pmm) (p : ℕ) → (drop_page s p).used_pages ≡ sub_u64 s.used_pages 1
unfolding drop_page
drop_page-used s p = refl

same_page : (p : ℕ) → p * page_size / page_size ≡ p
same_page p = omega arith

module _ {s : Pmm} (v : IsValid s) where
  Restores : ℕ × Pmm → Type 0
  Restores (addr, t) =
      ((q : ℕ) → bitmap_test (pmm_free_page t addr) q ≡ bitmap_test s q)
      × ((pmm_free_page t addr).used_pages ≡ s.used_pages)

  free-Restores :
      (r : ℕ)
      → r < s.total_pages
      → bitmap_test s r ≡ false
      → (o : ℕ × Pmm) → AllocatesPage s o
      → Restores o
  unfolding Restores
  free-Restores r lt clear _ (page p t fits c least marks used total valid) =
      elim (free_page_cases t (p * page_size)) [
        | inl (e, inl out) ↦ absurd (omega (arith, same_page p))
        | inl (e, inr f) ↦ absurd (ground (arith, same_page p, marks p, rw same_page at f))
        | inr (e, m, lt') ↦
            rw (e, same_page p)
              (
                (λ q. ground (arith, drop_page_test valid p q, marks q)),
                omega (arith, drop_page-used t p, used, used-le-total v, v.bounded),
              )
      ]
  free-Restores r lt clear _ (exhausted h) = absurd (ground (arith, h r lt))

-- Freeing the page that `pmm_alloc_page` just returned gives back every bit of the bitmap and the
-- count of used pages, if a page was clear.
pub pmm_free_page-pmm_alloc_page :
    (s : Pmm)
    → IsValid s
    → (r : ℕ) → r < s.total_pages
    → bitmap_test s r ≡ false
    → let (addr, t) = pmm_alloc_page s in
      ((q : ℕ) → bitmap_test (pmm_free_page t addr) q ≡ bitmap_test s q)
      × ((pmm_free_page t addr).used_pages ≡ s.used_pages)
unfolding Restores
pmm_free_page-pmm_alloc_page s v r lt clear =
    free-Restores v r lt clear (pmm_alloc_page s) (pmm_alloc_page_lem s v)

pub pmm_free_pages-IsValid :
    {s : Pmm} → IsValid s → (addr count : ℕ) → IsValid (pmm_free_pages s addr count)
unfolding pmm_free_pages
pmm_free_pages-IsValid {s} v addr count =
    for_range_inv (λ _ t. IsValid t) _ count 0 count s (omega arith)
      (λ k t lo hi h. pmm_free_page-IsValid h (u64 (addr + k * page_size))) v

page-IsValid : {s : Pmm} {o : ℕ × Pmm} → IsValid s → AllocatesPage s o → IsValid o.1
page-IsValid v (page p t a b c d e f valid) = valid
page-IsValid v (exhausted h) = v

run-IsValid : {s : Pmm} {count : ℕ} {o : ℕ × Pmm} → IsValid s → AllocatesRun s count o → IsValid o.1
run-IsValid v (run p t a b c taken) = taken.valid
run-IsValid v (refused h) = v

pmm_alloc_pages-IsValid :
    (s : Pmm) (count : ℕ) → IsValid s → count < 2 ^ 64 → IsValid (pmm_alloc_pages s count).1
pmm_alloc_pages-IsValid s zero v small = unfold pmm_alloc_pages in v
pmm_alloc_pages-IsValid s (suc n) v small =
    run-IsValid v (pmm_alloc_pages_lem s (suc n) v (omega arith) small)

-- A client's call. `size_t` arguments are below 2^64.
pub data Call : Type 0 where
  alloc_page : Call
  alloc_pages : ℕ → Call
  free_page : ℕ → Call
  free_pages : ℕ → ℕ → Call

pub perform : Pmm → Call → Pmm
perform s alloc_page = (pmm_alloc_page s).1
perform s (alloc_pages n) = (pmm_alloc_pages s (u64 n)).1
perform s (free_page a) = pmm_free_page s a
perform s (free_pages a n) = pmm_free_pages s a n

pub perform_all : Pmm → List Call → Pmm
perform_all s [] = s
perform_all s (c ∷ cs) = perform_all (perform s c) cs

perform-IsValid : {s : Pmm} → IsValid s → (c : Call) → IsValid (perform s c)
unfolding perform
perform-IsValid {s} v alloc_page = page-IsValid v (pmm_alloc_page_lem s v)
perform-IsValid {s} v (alloc_pages n) = pmm_alloc_pages-IsValid s (u64 n) v (omega arith)
perform-IsValid v (free_page a) = pmm_free_page-IsValid v a
perform-IsValid v (free_pages a n) = pmm_free_pages-IsValid v a n

-- From a valid state every sequence of allocations and frees, whatever the addresses freed, leads
-- to a valid state: `used_pages` is the number of marked pages and never wraps, and no page behind
-- the bitmap is named.
pub perform_all-IsValid : (cs : List Call) {s : Pmm} → IsValid s → IsValid (perform_all s cs)
unfolding perform_all
perform_all-IsValid [] v = v
perform_all-IsValid (c ∷ cs) v = perform_all-IsValid cs (perform-IsValid v c)

-- In a valid state the statistics add up: the free pages are exactly the clear pages, and free and
-- used pages make up the total, whose size in bytes does not wrap.
pub pmm_get_stats_lem :
    (s : Pmm)
    → IsValid s
    → let st = pmm_get_stats s in
      (st.free_pages + st.used_pages ≡ st.total_pages)
      × (st.used_pages ≡ count_used (bitmap_test s) s.total_pages)
      × (st.total_bytes ≡ s.total_pages * page_size)
unfolding pmm_get_stats
pmm_get_stats_lem s v = ground (arith, used-le-total v, v.counted, v.bounded)
