-- ===== src/Memory/Heap/Alloc.antt =====
-- `kmalloc`: which block it takes, and when it fails.
use h3os.Base.{
  ℕ, zero, suc, ◌+◌, ◌-◌, ◌*◌, ◌%◌, ◌^◌, ◌≡◌, ◌≢◌, ◌≤◌, ◌<◌, refl, arith, Bool, true, false, not,
  ◌&&◌, Distinct, List, ◌∷◌, ◌++◌, length, ◌==◌, ltb, if◌then◌else◌, ap, ◌∙◌, update, Bool-cases,
  inl, inr, u64, AllOf, page_size,
}
use h3os.Memory.Pmm
use h3os.Memory.Pmm.{Pmm}
use h3os.Memory.Heap.{
  Block, Blocks, Heap, magic_number, header, heap_min, set_prev, heap_add_region, pages_for,
  expand_heap, rounded, Search, fits, no_fit, find_fit, use_block, Outcome, returned, attempts,
  kmalloc,
}
use h3os.Memory.Heap.Chain.{
  IsChain, IsLinked, Fits, NoFit, FirstFit, first, none_fits, find_fit_lem,
}
use h3os.Memory.Heap.Split.{Same, set_prev-Same}
use h3os.Memory.Heap.Links.{Off}
use h3os.Memory.Heap.Fit.{Cut, marked-Cut}

-- `kmalloc` looks for at least the size asked for and at least 32 bytes, in multiples of 16.
pub rounded_bounds :
    (size : ℕ)
    → 0 < size
    → size ≤ 2 ^ 63
    → (size ≤ rounded size)
      × (32 ≤ rounded size)
      × (rounded size % 16 ≡ 0)
      × (rounded size < size + 32)
unfolding rounded
rounded_bounds size pos le = ground arith

-- The heap `t` is `s` with a region of the pages that a block of `need` bytes needs, which the page
-- allocator gave at `phys`: one free block over all of the region, in front of the list, which is kept.
pub record Grown (s : Heap) (need phys : ℕ) (t : Heap) : Type 0 where
  pub taken : Pmm.pmm_alloc_pages s.pmm (pages_for need) ≡ (phys, t.pmm)
  pub head : t.heap_head ≡ phys
  pub ne_null : phys ≢ 0
  pub magic : (t.mem phys).magic ≡ magic_number
  pub fit : Fits t.mem need phys
  pub size : (t.mem phys).size + header ≡ pages_for need * page_size
  pub next : (t.mem phys).next ≡ s.heap_head
  pub total : t.heap_total ≡ u64 (s.heap_total + pages_for need * page_size)
  pub used : t.heap_used ≡ s.heap_used
  pub allocs : t.heap_allocs ≡ s.heap_allocs
  pub others : (a : ℕ) → a ≢ phys → Same (t.mem a) (s.mem a)
  pub linked :
      (a : ℕ)
      → a ≢ phys
      → (t.mem a).prev ≡ (if (a == s.heap_head) && not (a == 0) then phys else (s.mem a).prev)

set_prev_prev :
    (m : Blocks) (p v a : ℕ)
    → (set_prev m p v a).prev ≡ (if (a == p) && not (a == 0) then v else (m a).prev)
unfolding set_prev
set_prev_prev m p v a = ground arith

-- The region is not cut at 2^64 bytes.
region_bytes :
    (need : ℕ)
    → need ≤ 2 ^ 63 + 32
    → (u64 (pages_for need * page_size) ≡ pages_for need * page_size)
      × (need + header ≤ pages_for need * page_size)
      × (header + heap_min ≤ pages_for need * page_size)
region_bytes need le = ground arith

module _ (s : Heap) (need phys : ℕ) (ne : phys ≢ 0) (le : need ≤ 2 ^ 63 + 32) (pmm : Pmm)
    (taken : Pmm.pmm_alloc_pages s.pmm (pages_for need) ≡ (phys, pmm)) where
  abbrev new : Blocks
  new = update s.mem phys (record {
    magic = magic_number;
    size = u64 (pages_for need * page_size) - header;
    free = true;
    next = s.heap_head;
    prev = 0;
  })

  same : (a : ℕ) → Same (set_prev new s.heap_head phys a) (new a)
  same a = set_prev-Same new s.heap_head phys a

  self : (phys == phys) ≡ true
  self = ground arith

  new_off : (a : ℕ) → a ≢ phys → new a ≡ s.mem a
  new_off a na = ground arith

  after_size : (set_prev new s.heap_head phys phys).size ≡ u64 (pages_for need * page_size) - header
  after_size = (same phys).1 ∙ rw self refl

  after_free : (set_prev new s.heap_head phys phys).free ≡ true
  after_free = (same phys).2 ∙ rw self refl

  add_region-Grown :
      Grown s need phys
        (heap_add_region (record s { pmm = pmm }) phys (u64 (pages_for need * page_size)))
  unfolding heap_add_region
  add_region-Grown =
      let (whole, room, least) = region_bytes need le in
      let large : ltb (u64 (pages_for need * page_size)) (header + heap_min) ≡ false =
        ground arith in
      rw large (record {
        taken = taken;
        head = refl;
        ne_null = ne;
        magic = (same phys).0 ∙ rw self refl;
        fit = (after_free, omega (arith, after_size, whole, room));
        size = omega (arith, after_size, whole, room);
        next = (same phys).3 ∙ rw self refl;
        total = ap (λ z. u64 (s.heap_total + z)) whole;
        used = refl;
        allocs = refl;
        others = λ a na.
            let e = new_off a na in
            (
              (same a).0 ∙ ap (λ (c : Block). c.magic) e,
              (same a).1 ∙ ap (λ (c : Block). c.size) e,
              (same a).2 ∙ ap (λ (c : Block). c.free) e,
              (same a).3 ∙ ap (λ (c : Block). c.next) e,
            );
        linked = λ a na.
            set_prev_prev new s.heap_head phys a
            ∙ ap (λ (c : Block). if (a == s.heap_head) && not (a == 0) then phys else c.prev)
                (new_off a na);
      })

-- What `expand_heap` gives: a new region, or 0 from the page allocator, and nothing else changes.
data Expands (s : Heap) (need : ℕ) : Bool × Heap → Type 0 where
  grew : (phys : ℕ) (t : Heap) → Grown s need phys t → Expands s need (true, t)
  stuck :
      (pmm : Pmm)
      → Pmm.pmm_alloc_pages s.pmm (pages_for need) ≡ (0, pmm)
      → Expands s need (false, record s { pmm = pmm })

expand_heap-Expands :
    (s : Heap) (need : ℕ) → need ≤ 2 ^ 63 + 32 → Expands s need (expand_heap s need)
unfolding expand_heap
expand_heap-Expands s need le =
    let (phys, pmm) = Pmm.pmm_alloc_pages s.pmm (pages_for need) in
    elim (Bool-cases (phys == 0)) [
      | inl e ↦ rw e (stuck pmm (let z : phys ≡ 0 = ground arith in ap (λ q. (q, pmm)) z))
      | inr ne ↦ rw ne (grew phys _ (add_region-Grown s need phys (ground arith) le pmm refl))
    ]

-- How a call of `kmalloc` for `size` bytes ends, over the list `bs`: it takes the first block that
-- fits; or none fits, and it takes the block of a new region; or the page allocator gives 0 for one,
-- and only what it did is left.
pub data Serves (s : Heap) (size : ℕ) (bs : List ℕ) : Outcome → Type 0 where
  from_list :
      (before after : List ℕ) (b : ℕ)
      → bs ≡ before ++ b ∷ after
      → Fits s.mem size b
      → NoFit s.mem size before
      → Serves s size bs (returned (b + header) (use_block s b size))
  from_region :
      (phys : ℕ) (t : Heap)
      → NoFit s.mem size bs
      → Grown s size phys t
      → Serves s size bs (returned (phys + header) (use_block t phys size))
  refused :
      (pmm : Pmm)
      → NoFit s.mem size bs
      → Pmm.pmm_alloc_pages s.pmm (pages_for size) ≡ (0, pmm)
      → Serves s size bs (returned 0 (record s { pmm = pmm }))

-- The walk over the list that begins with a new region ends there.
find_fit_head :
    (fuel : ℕ) (m : Blocks) (size b : ℕ)
    → b ≢ 0
    → (m b).magic ≡ magic_number
    → Fits m size b
    → find_fit (suc fuel) m size b ≡ fits b
unfolding find_fit
find_fit_head fuel m size b ne mg f = ground arith

module _ (left fuel : ℕ) (s : Heap) (size : ℕ) where
  attempts-fits :
      (b : ℕ)
      → find_fit fuel s.mem size s.heap_head ≡ fits b
      → attempts (suc left) fuel s size ≡ returned (b + header) (use_block s b size)
  unfolding attempts
  attempts-fits b e = rw (attempts, e) refl

  attempts_no_fit :
      find_fit fuel s.mem size s.heap_head ≡ no_fit
      → attempts (suc left) fuel s size ≡ (
          if (expand_heap s size).0
          then attempts left fuel (expand_heap s size).1 size
          else returned 0 (expand_heap s size).1)
  unfolding attempts
  attempts_no_fit e = rw (attempts, e) refl

module _ (fuel : ℕ) (s : Heap) (size : ℕ) (bs : List ℕ) where
  second_attempt :
      (r : Bool × Heap)
      → NoFit s.mem size bs
      → Expands s size r
      → Serves s size bs (if r.0 then attempts 1 (suc fuel) r.1 size else returned 0 r.1)
  second_attempt _ n (grew phys t g) =
      let e : find_fit (suc fuel) t.mem size t.heap_head ≡ fits phys =
        ap (find_fit (suc fuel) t.mem size) g.head
        ∙ find_fit_head fuel t.mem size phys g.ne_null g.magic g.fit in
      rw (attempts-fits 0 (suc fuel) t size phys e) (from_region phys t n g)
  second_attempt _ n (stuck pmm e) = refused pmm n e

  first_attempt :
      {r : Search}
      → size ≤ 2 ^ 63 + 32
      → FirstFit s.mem size bs r
      → find_fit (suc fuel) s.mem size s.heap_head ≡ r
      → Serves s size bs (attempts 2 (suc fuel) s size)
  first_attempt le (first before after b e f n ne mg) eq =
      rw (attempts-fits 1 (suc fuel) s size b eq) (from_list before after b e f n)
  first_attempt le (none_fits n) eq =
      rw (attempts_no_fit 1 (suc fuel) s size eq)
        (second_attempt (expand_heap s size) n (expand_heap-Expands s size le))

-- On a heap whose list of blocks is sound and shorter than the rounds of the walk, `kmalloc` for 0 <
-- size ≤ 2^63 bytes returns without a panic: it takes the first block of the list that is free and
-- holds the rounded size; if there is none, it takes the block of a new region, which `pmm_alloc_pages`
-- gave and which stands in front of the list that was there; and it returns `NULL`, with nothing
-- changed but by `pmm_alloc_pages`, only if, besides, that returned 0.
pub kmalloc-Serves :
    (fuel : ℕ) (s : Heap) (size : ℕ) (bs : List ℕ)
    → IsChain s.mem s.heap_head bs
    → length bs < fuel
    → 0 < size
    → size ≤ 2 ^ 63
    → Serves s (rounded size) bs (kmalloc fuel s size)
unfolding kmalloc
kmalloc-Serves zero s size bs h lt pos le = absurd (omega arith)
kmalloc-Serves (suc fuel) s size bs h lt pos le = elim (Bool-cases (size == 0)) [
  | inl z ↦ absurd (ground arith)
  | inr nz ↦ rw nz (
      first_attempt fuel s (rounded size) bs (omega (arith, rounded_bounds size pos le))
        (find_fit_lem (suc fuel) s.mem (rounded size) s.heap_head bs h lt) refl)
]

-- Taking a block that holds `size` bytes, at most 2^63 + 32, from a list of different blocks whose `next` and `prev` fields
-- agree, away from the other headers: the list stays sound both ways, the block is no longer free and counts as used, and it is taken whole or cut in two whose
-- sizes and new header make up the old size.
pub use_block-Cut :
    (s : Heap) (b size : ℕ) (before after : List ℕ)
    → IsChain s.mem s.heap_head (before ++ b ∷ after)
    → IsLinked s.mem 0 (before ++ b ∷ after)
    → Distinct (before ++ b ∷ after)
    → size ≤ 2 ^ 63 + 32
    → size ≤ (s.mem b).size
    → AllOf (Off b size) before
    → AllOf (Off b size) after
    → let t = use_block s b size in
      Cut s.mem t.mem t.heap_head b size before after
      × ((t.mem b).free ≡ false)
      × (t.heap_used ≡ u64 (s.heap_used + (t.mem b).size))
unfolding use_block
use_block-Cut s b size before after h back d small fit ob oa = (
  marked-Cut s.mem s.heap_head b size before after h back d small fit ob oa,
  ground arith,
  ground arith,
)
