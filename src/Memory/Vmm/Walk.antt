-- ===== src/Memory/Vmm/Walk.antt =====
-- `table_walk_alloc` of memory/vmm.c: the levels that page tables have, and that a step down keeps
-- them.
use h3os.Base.{
  ℕ, ◌+◌, ◌*◌, ◌/◌, ◌<◌, true, false, if◌then◌else◌, ◌==◌, ltb, leb, ◌&&◌, update, page_size, ◌≡◌,
  refl, sym, ap, arith, Bool-cases, ◌⊎◌, inl, inr,
}
use mathlib.Core.Path.{subst}
use h3os.Memory.Pmm.{Pmm, bitmap_test, pmm_alloc_page}
use h3os.Memory.Pmm.Inv
use h3os.Memory.Pmm.Alloc.{AllocatesPage, page, exhausted, pmm_alloc_page_lem}
use h3os.Memory.Vmm.{
  Vmm, is_present, is_huge, frame_of, or_bit, slot, enter_table, table_walk_alloc,
}

-- The level of a page that holds a table, 4 for the root, and 0 for any other page.
abbrev pub Levels : Type 0
Levels = ℕ → ℕ

abbrev pub entry : Vmm → ℕ → ℕ → ℕ
entry s p i = s.words (slot (p * 4096) i)

-- The tables are in used pages, and an entry that is in use leads one level down; huge pages are in
-- tables of level 2 only.
pub record IsValid (level : Levels) (s : Vmm) : Type 0 where
  pub root : ℕ
  pub at_root : s.pml4 ≡ root * 4096
  pub root_level : level root ≡ 4
  pub owned : (p : ℕ) → 0 < level p → bitmap_test s.pmm p ≡ true
  pub zero_used : bitmap_test s.pmm 0 ≡ true
  pub zero_level : level 0 ≡ 0
  pub pages_valid : Inv.IsValid s.pmm
  pub links :
      (p k i : ℕ)
      → level p ≡ k + 2
      → i < 512
      → is_present (entry s p i) ≡ true
      → (0 < k) ⊎ (is_huge (entry s p i) ≡ false)
      → level (entry s p i / 4096) ≡ k + 1

new_entry : (p : ℕ) → or_bit (or_bit (p * 4096) 0) 1 ≡ p * 4096 + 3
new_entry p = ground arith

pub same_slot :
    (p q i j : ℕ)
    → i < 512
    → j < 512
    → (slot (p * 4096) i == slot (q * 4096) j) ≡ ((p == q) && (i == j))
same_slot p q i j hi hj = ground arith

in_page :
    (p q j : ℕ)
    → j < 512
    → (leb (p * 4096) (slot (q * 4096) j) && ltb (slot (q * 4096) j) (p * 4096 + page_size))
      ≡ (p == q)
in_page p q j hj = ground arith

-- The entries after a new table in page `p` was entered.
enter_table_entry :
    (s : Vmm) (pmm : Pmm) (p q i r j : ℕ)
    → i < 512
    → j < 512
    → entry (enter_table s pmm (p * 4096) (q * 4096) i) r j
      ≡ (if (q == r) && (i == j) then p * 4096 + 3 else (if p == r then 0 else entry s r j))
unfolding enter_table
enter_table_entry s pmm p q i r j hi hj =
    rw (same_slot q r i j hi hj, in_page p r j hj, new_entry p) refl

-- Entries in use stay as they are, and tables keep their level.
abbrev pub Keeps : Levels → Vmm → Levels → Vmm → Type 0
Keeps level s level' t =
    (t.pml4 ≡ s.pml4)
    × ((p : ℕ) → 0 < level p → level' p ≡ level p)
    × ((p j : ℕ)
        → 0 < level p
        → j < 512
        → is_present (entry s p j) ≡ true
        → entry t p j ≡ entry s p j)

-- No page is left.
abbrev pub IsFull : Vmm → Type 0
IsFull s = (r : ℕ) → r < s.pmm.total_pages → bitmap_test s.pmm r ≡ true

-- What the step from entry `i` of the table in page `p`, of level k + 2, answers: the table below, or
-- nothing since no page is left.
pub data Walked (level : Levels) (s : Vmm) (p i k : ℕ) : ℕ × Vmm → Type 0 where
  found :
      (level' : Levels) (t : Vmm) (child : ℕ)
      → IsValid level' t
      → Keeps level s level' t
      → level' child ≡ k + 1
      → is_present (entry t p i) ≡ true
      → frame_of (entry t p i) ≡ child * 4096
      → (is_huge (entry s p i) ≡ false → is_huge (entry t p i) ≡ false)
      → Walked level s p i k (child * 4096, t)
  failed : IsFull s → Walked level s p i k (0, s)

-- A page that is not in use holds no table.
fresh :
    {level : Levels} {s : Vmm}
    → IsValid level s
    → (p : ℕ) → bitmap_test s.pmm p ≡ false
    → (r : ℕ) → 0 < level r
    → (p == r) ≡ false
fresh {level} {s} v p clear r lt = elim (Bool-cases (p == r)) [
  | inr e ↦ e
  | inl e ↦
      let same : p ≡ r = ground arith in
      let used : bitmap_test s.pmm p ≡ true = rw same (v.owned r lt) in absurd (ground arith)
]

not_zero :
    {level : Levels} {s : Vmm}
    → IsValid level s
    → (p : ℕ) → bitmap_test s.pmm p ≡ false
    → (p == 0) ≡ false
not_zero {level} {s} v p clear = elim (Bool-cases (p == 0)) [
  | inr e ↦ e
  | inl e ↦
      let same : p ≡ 0 = ground arith in
      let used : bitmap_test s.pmm p ≡ true = rw same v.zero_used in absurd (ground arith)
]

not_entry :
    (q r i n : ℕ) (s : Vmm)
    → is_present (entry s q i) ≡ false
    → is_present (entry s r n) ≡ true
    → ((q == r) && (i == n)) ≡ false
not_entry q r i n s absent here = elim (Bool-cases ((q == r) && (i == n))) [
  | inr e ↦ e
  | inl e ↦
      let same : q ≡ r = ground arith in
      let same' : i ≡ n = ground arith in
      let there : is_present (entry s q i) ≡ true = rw (same, same') here in absurd (ground arith)
]

module _ (level : Levels) (s : Vmm) (v : IsValid level s) (q i k : ℕ) (hq : level q ≡ k + 2)
    (hi : i < 512) where
  module _ (pmm : Pmm) (p : ℕ) (pv : Inv.IsValid pmm) (clear : bitmap_test s.pmm p ≡ false)
      (marks : (r : ℕ) → bitmap_test pmm r ≡ (if p == r then true else bitmap_test s.pmm r)) where
    abbrev level_with : Levels
    level_with = update level p (k + 1)

    abbrev after : Vmm
    after = enter_table s pmm (p * 4096) (q * 4096) i

    new_links :
        (r j n : ℕ)
        → level_with r ≡ j + 2
        → n < 512
        → is_present (entry after r n) ≡ true
        → (0 < j) ⊎ (is_huge (entry after r n) ≡ false)
        → level_with (entry after r n / 4096) ≡ j + 1
    new_links r j n hr hn here small =
        let read = enter_table_entry s pmm p q i r n hi hn in
        let above = fresh v p clear q (omega arith) in
        elim (Bool-cases (p == r)) [
          | inl e ↦ absurd (ground arith)
          | inr ne ↦ elim (Bool-cases ((q == r) && (i == n))) [
            | inl e ↦
                let same : q ≡ r = ground arith in
                let there : entry after r n / 4096 ≡ p = ground arith in
                let level_there : level_with p ≡ k + 1 = ground arith in
                let level_same : level q ≡ level r = ap level same in rw there (ground arith)
            | inr ne' ↦
                let old : entry after r n ≡ entry s r n = ground arith in
                let low : level r ≡ j + 2 = ground arith in
                let linked =
                  v.links r j n low hn (subst (λ e. is_present e ≡ true) old here)
                    (subst (λ e. (0 < j) ⊎ (is_huge e ≡ false)) old small) in
                let other = fresh v p clear (entry s r n / 4096) (omega arith) in
                rw (old, other) linked
          ]
        ]

    enter_table-IsValid : IsValid level_with after
    enter_table-IsValid = record {
      root = v.root;
      at_root = unfold enter_table in v.at_root;
      root_level = rw (fresh v p clear v.root (omega (arith, v.root_level))) v.root_level;
      owned = λ r lt. unfold enter_table in ground (arith, marks r, v.owned r);
      zero_used = unfold enter_table in ground (arith, marks 0, v.zero_used);
      zero_level =
          let used = v.zero_used in
          let low = v.zero_level in
          let other : (p == 0) ≡ false = not_zero v p clear in ground arith;
      pages_valid = unfold enter_table in pv;
      links = new_links;
    }

    enter_table-Keeps : is_present (entry s q i) ≡ false → Keeps level s level_with after
    enter_table-Keeps absent = (
      unfold enter_table in refl,
      λ r lt. rw (fresh v p clear r lt) refl,
      λ r n lt hn here.
          let read = enter_table_entry s pmm p q i r n hi hn in
          let other = fresh v p clear r lt in
          let apart : ((q == r) && (i == n)) ≡ false = not_entry q r i n s absent here in
          rw (read, apart, other) refl,
    )

    enter_table-found :
        is_present (entry s q i) ≡ false → Walked level s q i k (frame_of (entry after q i), after)
    enter_table-found absent =
        let read : entry after q i ≡ p * 4096 + 3 =
          let e = enter_table_entry s pmm p q i q i hi hi in ground arith in
        let frame : frame_of (entry after q i) ≡ p * 4096 = rw read ground arith in
        subst (λ f. Walked level s q i k (f, after)) (sym frame)
          (found level_with after p enter_table-IsValid (enter_table-Keeps absent) (ground arith)
            (rw read ground arith) frame (λ h. rw read ground arith))

  pub step_down :
      (0 < k) ⊎ (is_huge (entry s q i) ≡ false)
      → Walked level s q i k (table_walk_alloc s (q * 4096) i)
  unfolding table_walk_alloc
  step_down small = elim (Bool-cases (is_present (entry s q i))) [
    | inl here ↦
        let e = entry s q i in
        let linked = v.links q k i hq hi here small in
        rw here (
          found level s (e / 4096) v (refl, (λ r lt. refl), λ r n lt hn there. refl) linked here
            refl (λ h. h))
    | inr absent ↦
        rw absent (allocated (pmm_alloc_page s.pmm) (pmm_alloc_page_lem s.pmm v.pages_valid) absent)
  ]
    where
      allocated :
          (o : ℕ × Pmm)
          → AllocatesPage s.pmm o
          → is_present (entry s q i) ≡ false
          → Walked level s q i k (
              if o.0 == 0 then (0, record s { pmm = o.1 }) else (
                frame_of (entry (enter_table s o.1 o.0 (q * 4096) i) q i),
                enter_table s o.1 o.0 (q * 4096) i,
              ))
      allocated _ (exhausted full) absent = failed full
      allocated _ (page p pmm below clear least marks used total pv) absent =
          let positive : (p * 4096 == 0) ≡ false = let e = not_zero v p clear in ground arith in
          rw positive (enter_table-found pmm p pv clear marks absent)
