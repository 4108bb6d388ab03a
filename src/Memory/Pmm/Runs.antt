-- ===== src/Memory/Pmm/Runs.antt =====
-- `pmm_alloc_pages`: contiguous runs.
use h3os.Base.{
  ℕ, zero, suc, ◌+◌, ◌-◌, ◌*◌, ◌^◌, ◌≡◌, ◌≤◌, ◌<◌, refl, arith, Bool, true, false, some, none,
  if◌then◌else◌, ◌==◌, u64, page_size, Option, Bool-cases, inl, inr, leb, leb→le, ltb, ◌&&◌,
}
use h3os.Base.Loops.{for_range_inv}
use h3os.Memory.Pmm.{
  Pmm, max_pages, bitmap_test, take_page, run_free, find_run, take_run, pmm_alloc_pages,
}
use h3os.Memory.Pmm.Inv.{
  IsValid, take_page_test, take_page-IsValid, total-take_page, used-take_page,
}
use h3os.Memory.Pmm.Alloc.{AllocatesPage, page, exhausted, pmm_alloc_page_lem, used_at_clear}

-- The pages from `p` up to `j` are clear.
abbrev pub AreClear : Pmm → ℕ → ℕ → Type 0
AreClear s p j = (r : ℕ) → p ≤ r → r < j → bitmap_test s r ≡ false

abbrev pub within : ℕ → ℕ → ℕ → Bool
within p j q = leb p q && ltb q j

-- `t` is `s` with the pages from `p` up to `j` marked and counted.
pub record Taken (s : Pmm) (p j : ℕ) (t : Pmm) : Type 0 where
  pub valid : IsValid t
  pub used : t.used_pages ≡ s.used_pages + (j - p)
  pub total : t.total_pages ≡ s.total_pages
  pub marks : (q : ℕ) → bitmap_test t q ≡ (if within p j q then true else bitmap_test s q)

Taken-step :
    {s : Pmm} {p k j : ℕ} {t : Pmm}
    → AreClear s p j
    → p ≤ k
    → k < j
    → j ≤ s.total_pages
    → Taken s p k t
    → Taken s p (k + 1) (take_page t k)
Taken-step {s} {p} {k} {j} {t} clear lo hi fits h =
    let c : bitmap_test t k ≡ false = ground (arith, h.marks k, clear k lo hi) in
    let lt : k < t.total_pages = omega (arith, h.total) in
    record {
      valid = take_page-IsValid h.valid k c lt;
      used = omega (arith, used-take_page t k, used_at_clear h.valid k c lt, h.used);
      total = omega (arith, total-take_page t k, h.total);
      marks = λ q. ground (arith, take_page_test h.valid k q, h.marks q);
    }

take_run-Taken :
    (s : Pmm) (count p : ℕ)
    → IsValid s
    → AreClear s p (p + count)
    → p + count ≤ s.total_pages
    → Taken s p (p + count) (take_run s count p)
unfolding take_run
take_run-Taken s count p v clear fits =
    for_range_inv (λ k t. Taken s p k t) (λ q t. take_page t q) count p (p + count) s refl
      (λ k t lo hi h. Taken-step clear lo hi fits h)
      (record { valid = v; used = omega arith; total = refl; marks = λ q. ground arith })

-- A run of `n` pages from `p` is clear, or it holds a marked page.
data RunTest (s : Pmm) (p j : ℕ) : Bool → Type 0 where
  clear_run : AreClear s p j → RunTest s p j true
  blocked : (r : ℕ) → p ≤ r → r < j → bitmap_test s r ≡ true → RunTest s p j false

RunTest-skip :
    {s : Pmm} {p j : ℕ} {b : Bool}
    → bitmap_test s p ≡ false
    → RunTest s (p + 1) j b
    → RunTest s p j b
RunTest-skip {s} {p} c (clear_run h) =
    clear_run λ r lo hi. elim (Bool-cases (p == r)) [
      | inl e ↦ ground arith
      | inr ne ↦ h r (ground arith) hi
    ]
RunTest-skip c (blocked r lo hi t) = blocked r (omega arith) hi t

run_free_lem : (s : Pmm) (n p j : ℕ) → p + n ≡ j → RunTest s p j (run_free s n p)
unfolding run_free
run_free_lem s zero p j e = clear_run λ r lo hi. absurd (omega arith)
run_free_lem s (suc n) p j e = elim (Bool-cases (bitmap_test s p)) [
  | inl t ↦ rw t (blocked p (omega arith) (omega arith) t)
  | inr f ↦ rw f (RunTest-skip f (run_free_lem s n (p + 1) j (omega arith)))
]

-- No run of `count` clear pages starts from `p` on.
abbrev pub NoRun : Pmm → ℕ → ℕ → Type 0
NoRun s count p =
    (q : ℕ)
    → p ≤ q
    → q + count ≤ s.total_pages
    → (r : ℕ) × (q ≤ r) × (r < q + count) × (bitmap_test s r ≡ true)

data FirstRun (s : Pmm) (count p : ℕ) : Option ℕ → Type 0 where
  run_at :
      (q : ℕ)
      → p ≤ q
      → q + count ≤ s.total_pages
      → AreClear s q (q + count)
      → ((q' : ℕ)
          → p ≤ q'
          → q' < q
          → (r : ℕ) × (q' ≤ r) × (r < q' + count) × (bitmap_test s r ≡ true))
      → FirstRun s count p (some q)
  no_run : NoRun s count p → FirstRun s count p none

abbrev Blocked : Pmm → ℕ → ℕ → Type 0
Blocked s q count = (r : ℕ) × (q ≤ r) × (r < q + count) × (bitmap_test s r ≡ true)

module _ (s : Pmm) (count p : ℕ) where
  here_or_later :
      {P : ℕ → Type 0}
      → Blocked s p count
      → ((q : ℕ) → p + 1 ≤ q → P q → Blocked s q count)
      → (q : ℕ) → p ≤ q
      → P q
      → Blocked s q count
  here_or_later b later q lo h = elim (Bool-cases (p == q)) [
    | inl e ↦ (b.0, ground arith, ground arith, b.3)
    | inr ne ↦ later q (ground arith) h
  ]

  FirstRun-skip :
      {o : Option ℕ} → Blocked s p count → FirstRun s count (p + 1) o → FirstRun s count p o
  FirstRun-skip b (run_at q lo fits clear least) =
      run_at q (omega arith) fits clear (here_or_later {P = λ q'. q' < q} b least)
  FirstRun-skip b (no_run h) = no_run (here_or_later {P = λ q. q + count ≤ s.total_pages} b h)

  FirstRun-step :
      {b : Bool} {rest : Option ℕ}
      → p + count ≤ s.total_pages
      → RunTest s p (p + count) b
      → FirstRun s count (p + 1) rest
      → FirstRun s count p (if b then some p else rest)
  FirstRun-step fits (clear_run h) later =
      run_at p (omega arith) fits h λ q lo hi. absurd (omega arith)
  FirstRun-step fits (blocked r lo hi t) later = FirstRun-skip (r, lo, hi, t) later

-- The sum `p + count` does not wrap in any round that is reached.
find_run_first :
    (s : Pmm) (count n p : ℕ)
    → s.total_pages ≤ max_pages
    → 0 < count
    → p + count < 2 ^ 64
    → p + n ≡ s.total_pages + 1
    → FirstRun s count p (find_run s count n p)
unfolding find_run
find_run_first s count zero p bound pos small e = no_run λ q lo fits. absurd (omega arith)
find_run_first s count (suc n) p bound pos small e =
    elim (Bool-cases (leb (u64 (p + count)) s.total_pages)) [
      | inr big ↦ rw big (no_run λ q lo fits. absurd (ground arith))
      | inl fits ↦
          let le : p + count ≤ s.total_pages = omega (arith, leb→le _ _ fits) in
          rw fits (
            FirstRun-step s count p le (run_free_lem s count p (p + count) refl)
              (find_run_first s count n (p + 1) bound pos (omega arith) (omega arith)))
    ]

-- What `pmm_alloc_pages` does: it marks the first run of `count` clear pages and returns the address
-- of its first page, or there is no such run and nothing changes.
pub data AllocatesRun (s : Pmm) (count : ℕ) : ℕ × Pmm → Type 0 where
  run :
      (p : ℕ) (t : Pmm)
      → p + count ≤ s.total_pages
      → AreClear s p (p + count)
      → ((q : ℕ) → q < p → (r : ℕ) × (q ≤ r) × (r < q + count) × (bitmap_test s r ≡ true))
      → Taken s p (p + count) t
      → AllocatesRun s count (p * page_size, t)
  refused : NoRun s count 0 → AllocatesRun s count (0, s)

one_page : {s : Pmm} {r : ℕ × Pmm} → AllocatesPage s r → AllocatesRun s 1 r
one_page {s} (page p t lt clear least marks used total valid) =
    run p t (omega arith) (λ r lo hi. let e : r ≡ p = omega arith in rw e clear)
      (λ q lt'. (q, omega arith, omega arith, least q lt'))
      (record {
        valid = valid;
        used = omega arith;
        total = total;
        marks = λ q. ground (arith, marks q);
      })
one_page (exhausted h) = refused λ q lo fits. (q, omega arith, omega arith, h q (omega arith))

alloc_run :
    {s : Pmm} (count : ℕ)
    → IsValid s
    → (o : Option ℕ) → FirstRun s count 0 o
    → AllocatesRun s count
        (elim o [ none ↦ (0, s) | some p ↦ (u64 (p * page_size), take_run s count p) ])
alloc_run {s} count v (some _) (run_at q lo fits clear least) =
    let e : u64 (q * page_size) ≡ q * page_size = omega (arith, v.bounded) in
    rw e (
      run q (take_run s count q) fits clear (λ q' lt. least q' (omega arith) lt)
        (take_run-Taken s count q v clear fits))
alloc_run count v none (no_run h) = refused h

-- On a valid state, for `count` pages with 0 < `count` < 2^64: `pmm_alloc_pages` finds the lowest
-- run of `count` clear pages below `total_pages`, marks exactly its pages, counts them, keeps the
-- state valid and returns the address of the first; it returns 0 and changes nothing only if every
-- such run holds a marked page.
pub pmm_alloc_pages_lem :
    (s : Pmm) (count : ℕ)
    → IsValid s
    → 0 < count
    → count < 2 ^ 64
    → AllocatesRun s count (pmm_alloc_pages s count)
unfolding pmm_alloc_pages
pmm_alloc_pages_lem s count v pos small = elim (Bool-cases (count == 0)) [
  | inl e ↦ absurd (ground arith)
  | inr ne ↦ rw ne (elim (Bool-cases (count == 1)) [
    | inl e ↦ let one : count ≡ 1 = ground arith in rw one (one_page (pmm_alloc_page_lem s v))
    | inr many ↦ rw many (
        alloc_run count v (find_run s count (s.total_pages + 1) 0)
          (find_run_first s count (s.total_pages + 1) 0 v.bounded pos (omega arith) (omega arith)))
  ])
]
