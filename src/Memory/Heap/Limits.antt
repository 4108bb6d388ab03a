-- ===== src/Memory/Heap/Limits.antt =====
-- Requests at the limits of 64 bits.
use h3os.Base.{
  ℕ, ◌+◌, ◌-◌, ◌*◌, ◌^◌, ◌≡◌, ◌≤◌, ◌<◌, refl, arith, u64, ap, Bool-cases, inl, inr, ◌==◌,
}
use h3os.Memory.Heap.{Heap, rounded, kmalloc, kcalloc}

rounded_wraps : (size : ℕ) → 2 ^ 64 - 15 ≤ size → size < 2 ^ 64 → rounded size ≡ rounded 1
unfolding rounded
rounded_wraps size lo hi = ground arith

-- For the 15 largest sizes the rounding wraps to 0: `kmalloc` looks for 32 bytes, and returns any
-- block that it would return for one byte.
pub kmalloc_wraps :
    (fuel : ℕ) (s : Heap) (size : ℕ)
    → 2 ^ 64 - 15 ≤ size
    → size < 2 ^ 64
    → kmalloc fuel s size ≡ kmalloc fuel s 1
unfolding kmalloc
kmalloc_wraps fuel s size lo hi = elim (Bool-cases (size == 0)) [
  | inl z ↦ absurd (ground arith)
  | inr nz ↦ rw (nz, rounded_wraps size lo hi) refl
]

-- `kcalloc` multiplies modulo 2^64: a request of 2^64 bytes and `extra` more is one of `extra`.
pub kcalloc_wraps :
    (fuel : ℕ) (s : Heap) (n size extra : ℕ)
    → n * size ≡ 2 ^ 64 + extra
    → kcalloc fuel s n size ≡ kmalloc fuel s (u64 extra)
unfolding kcalloc
kcalloc_wraps fuel s n size extra e = ap (kmalloc fuel s) (omega arith)
