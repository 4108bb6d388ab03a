-- ===== src/Drivers/Framebuffer.antt =====
-- drivers/framebuffer/framebuffer.c: the surface that everything is drawn on. A pixel is a u32 that is
-- stored at the address of its first byte; rows start at multiples of 4, so that two pixels are apart
-- or the same. Coordinates are exact integers.
pub mod Font
pub mod Draw
pub mod Pixels
pub mod Rects
pub mod LineError
pub mod Lines
pub mod Safety
mod Tests
use h3os.Base.{
  ℕ, zero, suc, ◌+◌, ◌-◌, ◌*◌, ◌/◌, ◌%◌, ◌^◌, Bool, true, false, not, Option, none, some, ◌==◌,
  ◌&&◌, ◌||◌, ltb, leb, if◌then◌else◌, update, u32, u64, page_size, align_up,
}
use h3os.Base.Int.{ℤ, pos, negsuc, ◌+ℤ◌, pos_part}
use h3os.Base.Loops.{for_range}
use h3os.Boot.{Bytes, load_u32, load_u64, mb2_find, tag_framebuffer, Found, at, null, endless}
use h3os.Memory.Pmm.{Pmm, pmm_alloc_pages}

-- The size in pixels, 0 by 0 while there is no frame buffer: what the mouse and the windows read.
pub record Screen : Type 0 where
  pub width : ℕ
  pub height : ℕ

-- `fb_t`; pointers are addresses.
pub record Fb : Type 0 where
  pub pixels : ℕ
  pub width : ℕ
  pub height : ℕ
  pub pitch : ℕ
  pub bpp : ℕ
  pub double_buffered : Bool
  pub back : ℕ

-- `g_fb`, and the pixels in memory.
pub record Surface : Type 0 where
  pub g_fb : Fb
  pub words : ℕ → ℕ

abbrev pub screen_of : Fb → Screen
screen_of fb = record { width = fb.width; height = fb.height }

-- `(u32)x` and `(u64)x` of a signed number.
abbrev pub to_u32 : ℤ → ℕ
to_u32 (pos n) = u32 n
to_u32 (negsuc n) = 2 ^ 32 - 1 - u32 n

abbrev pub to_u64 : ℤ → ℕ
to_u64 (pos n) = u64 n
to_u64 (negsuc n) = 2 ^ 64 - 1 - u64 n

-- The surface that is drawn on.
abbrev pub base_of : Fb → ℕ
base_of fb = if fb.double_buffered then fb.back else fb.pixels

-- `fb_row(y)`, and the address of `fb_row(y)[x]`.
abbrev pub fb_row : Fb → ℤ → ℕ
fb_row fb y = u64 (base_of fb + to_u64 y * fb.pitch)

abbrev pub pixel_at : Fb → ℤ → ℤ → ℕ
pixel_at fb x y = u64 (fb_row fb y + 4 * to_u64 x)

abbrev pub off_screen : Fb → ℤ → ℤ → Bool
off_screen fb x y = leb fb.width (to_u32 x) || leb fb.height (to_u32 y)

unfoldable pub fb_put_pixel : Surface → ℤ → ℤ → ℕ → Surface
fb_put_pixel s x y color =
    if off_screen s.g_fb x y
    then s
    else record s { words = update s.words (pixel_at s.g_fb x y) color }

unfoldable pub fb_get_pixel : Surface → ℤ → ℤ → ℕ
fb_get_pixel s x y = if off_screen s.g_fb x y then 0 else s.words (pixel_at s.g_fb x y)

-- Both loops of `fb_fill_rect`; a size that is not positive gives no round.
unfoldable pub fill_row : Surface → ℤ → ℤ → ℕ → ℕ → Surface
fill_row s x y w color = for_range w 0 (λ i t. fb_put_pixel t (x +ℤ pos i) y color) s

unfoldable pub fb_fill_rect : Surface → ℤ → ℤ → ℤ → ℤ → ℕ → Surface
fb_fill_rect s x y w h color =
    for_range (pos_part h) 0 (λ j t. fill_row t x (y +ℤ pos j) (pos_part w) color) s

-- `fb_clear` writes without a test: its coordinates are below the sizes.
unfoldable pub clear_row : Surface → ℤ → ℕ → Surface
clear_row s y color =
    for_range s.g_fb.width 0
      (λ x t. record t { words = update t.words (pixel_at t.g_fb (pos x) y) color }) s

unfoldable pub fb_clear : Surface → ℕ → Surface
fb_clear s color = for_range s.g_fb.height 0 (λ y t. clear_row t (pos y) color) s

abbrev pub zero_fb : Fb
zero_fb = record {
  pixels = 0;
  width = 0;
  height = 0;
  pitch = 0;
  bpp = 0;
  double_buffered = false;
  back = 0;
}

-- The pages for so many bytes.
abbrev pub pages_of : ℕ → ℕ
pages_of bytes = align_up bytes page_size / page_size

-- The frame buffer of the boot loader, if it has 32-bit colours.
unfoldable pub from_tag : Bytes → ℕ → Fb
from_tag m tag = record zero_fb {
  pixels = load_u64 m (tag + 8);
  pitch = load_u32 m (tag + 16);
  width = load_u32 m (tag + 20);
  height = load_u32 m (tag + 24);
  bpp = m (tag + 28);
}

-- The substitute of 1280 by 720, in pages or, without pages, in the array `g_fallback`.
unfoldable pub substitute : ℕ → Pmm → Fb × Pmm
substitute g_fallback pmm =
    let (p, pmm') = pmm_alloc_pages pmm (pages_of (1280 * 4 * 720)) in
    (
      record zero_fb {
        pixels = if p == 0 then g_fallback else p;
        width = 1280;
        height = 720;
        pitch = 1280 * 4;
        bpp = 32;
      },
      pmm',
    )

abbrev pub is_usable : Bytes → ℕ → Bool
is_usable m tag = (m (tag + 29) == 1) && (m (tag + 28) == 32)

unfoldable pub choose_fb : Bytes → ℕ → Pmm → Found → Option (Fb × Pmm)
choose_fb m g_fallback pmm endless = none
choose_fb m g_fallback pmm null = some (substitute g_fallback pmm)
choose_fb m g_fallback pmm (at tag) =
    if is_usable m tag then some (from_tag m tag, pmm) else some (substitute g_fallback pmm)

-- The second buffer, black, if there are pages for it.
unfoldable pub add_back : (ℕ → ℕ) → Fb × Pmm → Surface × Pmm
add_back words (fb, pmm) =
    let bytes = fb.pitch * fb.height in
    let (back, pmm') = pmm_alloc_pages pmm (pages_of bytes) in
    (
      if back == 0
          then record {
            g_fb = record fb { back = fb.pixels; double_buffered = false };
            words = words;
          }
          else record {
            g_fb = record fb { back = back; double_buffered = true };
            words = λ a. if leb back a && ltb a (back + bytes) then 0 else words a;
          },
      pmm',
    )

-- `none`: the tags have no end.
unfoldable pub fb_init : Bytes → ℕ → ℕ → (ℕ → ℕ) → Pmm → Option (Surface × Pmm)
fb_init m mb2 g_fallback words pmm =
    elim (choose_fb m g_fallback pmm (mb2_find m mb2 tag_framebuffer)) [
      | none ↦ none
      | some (fb, pmm') ↦ some (add_back words (fb, pmm'))
    ]

-- `memcpy` of the whole surface, a pixel at a time.
unfoldable pub fb_swap : Surface → Surface
fb_swap s =
    let fb = s.g_fb in
    if fb.double_buffered
    then record s {
      words = λ a.
          if leb fb.pixels a && ltb a (fb.pixels + fb.pitch * fb.height)
          then s.words (fb.back + (a - fb.pixels))
          else s.words a;
    }
    else s
