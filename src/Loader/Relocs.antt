-- ===== src/Loader/Relocs.antt =====
-- A relocation of loader/pe.c: what it makes of the eight bytes at its target.
use h3os.Base.{
  ℕ, ◌+◌, ◌/◌, ◌%◌, ◌^◌, ◌≤◌, ◌<◌, true, ◌==◌, u32, u64, ◌≡◌, ◌∙◌, arith, sub_u64, ◌⊎◌, inl,
}
use h3os.Boot.{Bytes, load_u32, load_u64}
use h3os.Loader.{store_u32, store_u64, apply_entry}

module _ (m : Bytes) (a v : ℕ) where
  stored_0 : store_u32 m a v a ≡ v % 256
  stored_0 = ground arith

  stored_1 : store_u32 m a v (a + 1) ≡ v / 256 % 256
  stored_1 = ground arith

  stored_2 : store_u32 m a v (a + 2) ≡ v / 65536 % 256
  stored_2 = ground arith

  stored_3 : store_u32 m a v (a + 3) ≡ v / 16777216 % 256
  stored_3 = ground arith

  load_u32-store_u32 : load_u32 (store_u32 m a v) a ≡ u32 v
  load_u32-store_u32 = rw (stored_0, stored_1, stored_2, stored_3) omega arith

  store_u32-apart : (b : ℕ) → (b < a) ⊎ (a + 4 ≤ b) → store_u32 m a v b ≡ m b
  store_u32-apart b away = ground arith

module _ (m : Bytes) (a v : ℕ) where
  load_u64-store_u64 : v < 2 ^ 64 → load_u64 (store_u64 m a v) a ≡ v
  load_u64-store_u64 lt =
      let low : load_u32 (store_u64 m a v) a ≡ u32 v = low_word in
      let high : load_u32 (store_u64 m a v) (a + 4) ≡ u32 (v / 4294967296) =
        load_u32-store_u32 (store_u32 m a v) (a + 4) (v / 4294967296) in
      omega arith
    where
      half : Bytes
      half = store_u32 m a v

      below : (b : ℕ) → b < a + 4 → store_u64 m a v b ≡ half b
      below b lt' = store_u32-apart half (a + 4) (v / 4294967296) b (inl lt')

      low_word : load_u32 (store_u64 m a v) a ≡ u32 v
      low_word =
          rw
            (
              below a (omega arith),
              below (a + 1) (omega arith),
              below (a + 2) (omega arith),
              below (a + 3) (omega arith),
            )
            (load_u32-store_u32 m a v)

  store_u64-apart : (b : ℕ) → (b < a) ⊎ (a + 8 ≤ b) → store_u64 m a v b ≡ m b
  store_u64-apart b away =
      store_u32-apart (store_u32 m a v) (a + 4) (v / 4294967296) b (omega arith)
      ∙ store_u32-apart m a v b (omega arith)

-- A relocation of 64 bits makes an address that the linker wrote for the preferred base the address for
-- the base that the image has, and changes no byte but these eight.
pub apply_entry_lem :
    (m : Bytes) (image preferred page e rva : ℕ)
    → e / 4096 ≡ 10
    → image < 2 ^ 64
    → preferred + rva < 2 ^ 64
    → image + rva < 2 ^ 64
    → load_u64 m (page + e % 4096) ≡ preferred + rva
    → (let moved = apply_entry m page (sub_u64 image preferred) e in
        (load_u64 moved (page + e % 4096) ≡ image + rva)
        × ((b : ℕ) → (b < page + e % 4096) ⊎ (page + e % 4096 + 8 ≤ b) → moved b ≡ m b))
unfolding apply_entry
apply_entry_lem m image preferred page e rva kind small low high old =
    let is_64 : (e / 4096 == 10) ≡ true = ground arith in
    let target = page + e % 4096 in
    let sum : u64 (load_u64 m target + sub_u64 image preferred) ≡ image + rva =
      rw old omega arith in
    rw is_64 (
      rw sum (load_u64-store_u64 m target (image + rva) high),
      λ b away. store_u64-apart m target (u64 (load_u64 m target + sub_u64 image preferred)) b away,
    )
