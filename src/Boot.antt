-- ===== src/Boot.antt =====
-- The multiboot2 information that the boot loader leaves in memory (boot/multiboot2.h), and the walk
-- over its tags that memory/pmm.c and drivers/framebuffer/framebuffer.c both declare as `mb2_find`.
pub mod Tags
use h3os.Base.{ℕ, zero, suc, ◌+◌, ◌*◌, ◌/◌, if◌then◌else◌, ◌==◌, ltb, u32}

-- Physical memory, a byte at each address; the bytes are below 256.
abbrev pub Bytes : Type 0
Bytes = ℕ → ℕ

-- Little-endian loads of x86_64.
abbrev pub load_u32 : Bytes → ℕ → ℕ
load_u32 m a = m a + 256 * m (a + 1) + 65536 * m (a + 2) + 16777216 * m (a + 3)

abbrev pub load_u64 : Bytes → ℕ → ℕ
load_u64 m a = load_u32 m a + 4294967296 * load_u32 m (a + 4)

abbrev pub tag_end : ℕ
tag_end = 0

abbrev pub tag_mmap : ℕ
tag_mmap = 6

abbrev pub tag_framebuffer : ℕ
tag_framebuffer = 8

abbrev pub memory_available : ℕ
memory_available = 1

-- `mb2_tag_t`: the type stands first, the size behind it.
abbrev pub tag_type : Bytes → ℕ → ℕ
tag_type m tag = load_u32 m tag

abbrev pub tag_size : Bytes → ℕ → ℕ
tag_size m tag = load_u32 m (tag + 4)

-- `(tag->size + 7) & ~7u`, in 32 bits
abbrev pub tag_step : ℕ → ℕ
tag_step size = u32 (size + 7) / 8 * 8

-- How the walk ends: at a tag, with `NULL`, or not within the rounds given.
pub data Found : Type 0 where
  at : ℕ → Found
  null : Found
  endless : Found

-- The `while` loop of `mb2_find`, from `ptr`.
unfoldable pub mb2_walk : Bytes → ℕ → ℕ → ℕ → ℕ → Found
mb2_walk m end type zero ptr = endless
mb2_walk m end type (suc fuel) ptr =
    let rest = mb2_walk m end type fuel (ptr + tag_step (tag_size m ptr)) in
    if ltb ptr end
    then (if tag_type m ptr == tag_end
        then null
        else if tag_type m ptr == type
        then at ptr
        else rest)
    else null

-- `mb2_find(info, type)`; `info` 0 is `NULL`. A round moves `ptr` on by 8 at least when every size
-- is positive, so `total_size` rounds suffice.
unfoldable pub mb2_find : Bytes → ℕ → ℕ → Found
unfolding mb2_walk
mb2_find m info type =
    if info == 0
    then null
    else mb2_walk m (info + load_u32 m info) type (load_u32 m info + 1) (info + 8)
