-- ===== src/Base/Words.antt =====
-- Machine words: unsigned arithmetic that wraps, and the alignment macros of
-- sdk/include/h3os/types.h.
use Prim.Native.Nat.{ℕ, ◌+◌, ◌-◌, ◌*◌, ◌/◌, ◌%◌, ◌^◌}

abbrev pub u8 : ℕ → ℕ
u8 n = n % 256

abbrev pub u16 : ℕ → ℕ
u16 n = n % 65536

abbrev pub u32 : ℕ → ℕ
u32 n = n % 2 ^ 32

abbrev pub u64 : ℕ → ℕ
u64 n = n % 2 ^ 64

-- `a - b` on u64
abbrev pub sub_u64 : ℕ → ℕ → ℕ
sub_u64 a b = u64 (a + 2 ^ 64 - b)

-- `PAGE_SIZE`
abbrev pub page_size : ℕ
page_size = 4096

-- `H3OS_ALIGN_UP` and `H3OS_ALIGN_DOWN` on a u64, at a power of two `a`: `& ~(a - 1)` clears the
-- digits below `a`.
abbrev pub align_up : ℕ → ℕ → ℕ
align_up x a = u64 (x + (a - 1)) / a * a

abbrev pub align_down : ℕ → ℕ → ℕ
align_down x a = x / a * a
