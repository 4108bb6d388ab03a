-- ===== src/Memory/Pmm/Start.antt =====
-- What `pmm_init` leaves behind.
use h3os.Base.{
  ℕ, ◌+◌, ◌-◌, ◌*◌, ◌/◌, ◌^◌, ◌≡◌, ◌≢◌, ◌≤◌, ◌<◌, refl, arith, true, some, if◌then◌else◌, ◌==◌, u32,
  sub_u64, page_size, Bool-cases, inl, inr, leb, ltb, ◌&&◌, ◌⊎◌,
}
use h3os.Base.Loops.{for_range_inv}
use h3os.Boot.{Bytes, load_u32, tag_size, tag_mmap, Found, at, null, endless, mb2_find}
use h3os.Boot.Tags.{Moves, FindsFirst, first, ended, ran_out, mb2_find_first}
use h3os.Memory.Pmm.{
  Pmm, max_pages, bitmap_test, read_entry, blank, scan_mmap, reserve_region, reserve_kernel,
  pmm_init,
}
use h3os.Memory.Pmm.Inv.{IsValid}
use h3os.Memory.Pmm.Init.{
  IsDraft, IsSane, add_entry-IsDraft, blank-IsDraft, recount-IsValid, fallback-IsValid,
}
use h3os.Memory.Pmm.Reserve.{reserve_region_lem}

-- How many entries the map at `mmap` has, and where the entry `i` stands.
abbrev pub entry_count : Bytes → ℕ → ℕ
entry_count m mmap = u32 (tag_size m mmap + 2 ^ 32 - 16) / load_u32 m (mmap + 8)

abbrev pub entry_at : Bytes → ℕ → ℕ → ℕ
entry_at m mmap i = mmap + 16 + u32 (i * load_u32 m (mmap + 8))

-- What the boot loader promises: tags that move the walk on, a memory map whose entries have a size
-- and do not reach into the last page of the address space.
pub record IsReadable (m : Bytes) (mb2 : ℕ) : Type 0 where
  pub moves : mb2 ≢ 0 → Moves m (mb2 + load_u32 m mb2) tag_mmap (mb2 + 8)
  pub sized : (mmap : ℕ) → mb2_find m mb2 tag_mmap ≡ at mmap → load_u32 m (mmap + 8) ≢ 0
  pub sane :
      (mmap : ℕ)
      → mb2_find m mb2 tag_mmap ≡ at mmap
      → (i : ℕ) → i < entry_count m mmap
      → IsSane (read_entry m (entry_at m mmap i))

scan_mmap-IsDraft :
    (m : Bytes) (mmap : ℕ) (s : Pmm)
    → ((i : ℕ) → i < entry_count m mmap → IsSane (read_entry m (entry_at m mmap i)))
    → IsDraft s
    → IsDraft (scan_mmap m mmap (load_u32 m (mmap + 8)) s)
unfolding scan_mmap
scan_mmap-IsDraft m mmap s sane d =
    for_range_inv (λ _ t. IsDraft t) _ (entry_count m mmap) 0 (entry_count m mmap) s (omega arith)
      (λ i t lo hi h. add_entry-IsDraft (read_entry m (entry_at m mmap i)) t (sane i hi) h) d

-- The state is valid, and the pages below `end` are marked.
abbrev pub Starts : ℕ → Pmm → Type 0
Starts end s = IsValid s × ((p : ℕ) → p < max_pages → p * page_size < end → bitmap_test s p ≡ true)

reserve_kernel-Starts :
    (kernel_end : ℕ) (s : Pmm)
    → 0x100000 ≤ kernel_end
    → kernel_end + 4095 < 2 ^ 64
    → IsValid s
    → Starts kernel_end (reserve_kernel kernel_end s)
unfolding reserve_kernel
reserve_kernel-Starts kernel_end s lo hi v =
    (kernel.0, λ p lt below. ground (arith, low.1 p lt, kernel.1 p lt))
  where
    low :
        IsValid (reserve_region s 0 0x100000)
        × ((p : ℕ)
            → p < max_pages
            → bitmap_test (reserve_region s 0 0x100000) p ≡ (
                if leb (0 / page_size) p && ltb (p * page_size) (0 + 0x100000)
                then true
                else bitmap_test s p))
    low = reserve_region_lem s 0 0x100000 v (omega arith)

    len : ℕ
    len = sub_u64 kernel_end 0x100000

    kernel :
        IsValid (reserve_region (reserve_region s 0 0x100000) 0x100000 len)
        × ((p : ℕ)
            → p < max_pages
            → bitmap_test (reserve_region (reserve_region s 0 0x100000) 0x100000 len) p ≡ (
                if leb (0x100000 / page_size) p && ltb (p * page_size) (0x100000 + len)
                then true
                else bitmap_test (reserve_region s 0 0x100000) p))
    kernel = reserve_region_lem (reserve_region s 0 0x100000) 0x100000 len low.0 (omega arith)

Found-cases : (f : Found) → ((a : ℕ) × (f ≡ at a)) ⊎ ((f ≡ null) ⊎ (f ≡ endless))
Found-cases (at a) = inl (a, refl)
Found-cases null = inr (inl refl)
Found-cases endless = inr (inr refl)

FindsFirst-ends :
    {m : Bytes} {end type start : ℕ} {f : Found} → FindsFirst m end type start f → f ≢ endless
FindsFirst-ends (first q a b c d) = λ e. cc
FindsFirst-ends (ended q a b c) = λ e. cc
FindsFirst-ends (ran_out q a b) = λ e. cc

mb2_find_ends : (m : Bytes) (mb2 : ℕ) → IsReadable m mb2 → mb2_find m mb2 tag_mmap ≢ endless
mb2_find_ends m mb2 r = elim (Bool-cases (mb2 == 0)) [
  | inl e ↦ unfold mb2_find in rw e (λ e'. cc)
  | inr ne ↦ FindsFirst-ends (mb2_find_first m mb2 tag_mmap (ground arith) (r.moves (ground arith)))
]

-- With a readable map, or none, and a kernel that ends above 1 MiB and below the last page of the
-- address space, `pmm_init` returns: `used_pages` is the number of marked pages, every page from
-- `total_pages` on is marked, and so is every page that starts below the end of the kernel.
pub pmm_init-Starts :
    (kernel_end : ℕ) (m : Bytes) (mb2 : ℕ)
    → IsReadable m mb2
    → 0x100000 ≤ kernel_end
    → kernel_end + 4095 < 2 ^ 64
    → (s : Pmm) × (pmm_init kernel_end m mb2 ≡ some s) × Starts kernel_end s
unfolding pmm_init
pmm_init-Starts kernel_end m mb2 r lo hi = elim (Found-cases (mb2_find m mb2 tag_mmap)) [
  | inl (mmap, e) ↦ elim (Bool-cases (load_u32 m (mmap + 8) == 0)) [
    | inl z ↦ absurd (r.sized mmap e (ground arith))
    | inr nz ↦ (
      _,
      rw (pmm_init, e, nz),
      reserve_kernel-Starts kernel_end _ lo hi
          (recount-IsValid _ (scan_mmap-IsDraft m mmap blank (r.sane mmap e) blank-IsDraft)),
    )
  ]
  | inr (inl e) ↦ (_, rw (pmm_init, e), reserve_kernel-Starts kernel_end _ lo hi fallback-IsValid)
  | inr (inr e) ↦ absurd (mb2_find_ends m mb2 r e)
]
