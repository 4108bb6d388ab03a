-- ===== src/Drivers/Framebuffer/Tests.antt =====
-- A surface of 8 by 4 pixels with a second buffer.
use h3os.Base.{ℕ, ◌≤◌, true, ◌≡◌, refl, arith, ◌&&◌, if◌then◌else◌}
use h3os.Base.Int.{◌+ℤ◌, pos, negsuc}
use h3os.Drivers.Framebuffer.{
  Surface, off_screen, fb_put_pixel, fb_get_pixel, fb_fill_rect, fb_clear,
}
use h3os.Drivers.Framebuffer.Draw.{fb_draw_char, draw_column}
use h3os.Drivers.Framebuffer.Font.{font}
use h3os.Base.Loops.{for_range}
use h3os.Base.Bits.{get_bit}
use h3os.Drivers.Framebuffer.Pixels.{I32, IsValid}
use h3os.Drivers.Framebuffer.Rects.{in_span, fb_fill_rect_lem}
use h3os.Drivers.Framebuffer.Safety.{Spares, fb_fill_rect-Spares}

abbrev small : Surface
small = record {
  g_fb = record {
    pixels = 4096;
    width = 8;
    height = 4;
    pitch = 40;
    bpp = 32;
    double_buffered = true;
    back = 8192;
  };
  words = λ a. 0;
}

small-IsValid : IsValid small.g_fb
small-IsValid = (omega arith, omega arith, omega arith, omega arith)

pixel_I32 : (n : ℕ) → n ≤ 1000 → I32 (pos n)
unfolding I32
pixel_I32 n le = omega arith

left_I32 : I32 (negsuc 2)
unfolding I32
left_I32 = omega arith

-- A rectangle that begins left of the screen.
fb_fill_rect_lem_example :
    fb_get_pixel (fb_fill_rect small (negsuc 2) (pos 1) (pos 5) (pos 9) 7) (pos 1) (pos 2) ≡ (
      if off_screen small.g_fb (pos 1) (pos 2)
      then 0
      else (if in_span (pos 1) 9 (pos 2) && in_span (negsuc 2) 5 (pos 1)
          then 7
          else fb_get_pixel small (pos 1) (pos 2)))
fb_fill_rect_lem_example =
    fb_fill_rect_lem small (negsuc 2) (pos 1) (pos 5) (pos 9) (pos 1) (pos 2) 7 small-IsValid
      left_I32 (pixel_I32 1 (omega arith)) (omega arith) (omega arith) (pixel_I32 1 (omega arith))
      (pixel_I32 2 (omega arith))

fb_fill_rect-Spares_example :
    Spares small (fb_fill_rect small (negsuc 2) (pos 1) (pos 5) (pos 9) 7)
    × Spares small (fb_clear small 7)
fb_fill_rect-Spares_example =
    fb_fill_rect-Spares small (negsuc 2) (pos 1) (pos 5) (pos 9) 7 small-IsValid left_I32
      (pixel_I32 1 (omega arith)) (omega arith) (omega arith)

-- The upright of an `I` in yellow on a transparent ground.
draws_i : fb_get_pixel (fb_draw_char small (pos 0) (pos 0) 0x49 5 0xFFFFFFFF) (pos 2) (pos 1) ≡ 5
unfolding fb_get_pixel fb_draw_char draw_column fb_put_pixel for_range get_bit ◌+ℤ◌ font
draws_i = refl
