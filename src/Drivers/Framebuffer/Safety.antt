-- ===== src/Drivers/Framebuffer/Safety.antt =====
-- Where in memory `fb_fill_rect` and `fb_clear` of drivers/framebuffer/framebuffer.c write.
use h3os.Base.{
  ℕ, ◌+◌, ◌*◌, ◌^◌, ◌≤◌, ◌<◌, false, ◌==◌, update, ◌≡◌, refl, sym, ◌∙◌, arith, Bool-cases, ◌⊎◌, inl,
  inr,
}
use mathlib.Core.Path.{subst}
use h3os.Base.Int.{ℤ, pos, ◌+ℤ◌, pos_part}
use h3os.Base.Loops.{for_range, for_range_inv}
use h3os.Drivers.Framebuffer.{
  Fb, Surface, base_of, pixel_at, off_screen, fb_put_pixel, fill_row, fb_fill_rect, clear_row,
  fb_clear,
}
use h3os.Drivers.Framebuffer.Pixels.{I32, IsValid, pixel_at_lem, row_room, on_axes}
use h3os.Drivers.Framebuffer.Rects.{I32-step}

-- An address before the surface or behind its last row.
abbrev pub Outside : Fb → ℕ → Type 0
Outside fb a = (a < base_of fb) ⊎ (base_of fb + fb.height * fb.pitch ≤ a)

-- Nothing but the surface's memory differs.
abbrev pub Spares : Surface → Surface → Type 0
Spares s t = (t.g_fb ≡ s.g_fb) × ((a : ℕ) → Outside s.g_fb a → t.words a ≡ s.words a)

write_spares :
    (fb : Fb) (words : ℕ → ℕ) (i j color a : ℕ)
    → IsValid fb
    → i < fb.width
    → j < fb.height
    → Outside fb a
    → update words (pixel_at fb (pos i) (pos j)) color a ≡ words a
write_spares fb words i j color a v hi hj out =
    let room = row_room fb v i j hi hj in
    let apart : (pixel_at fb (pos i) (pos j) == a) ≡ false =
      rw (pixel_at_lem fb v i j hi hj) ground arith in
    rw apart refl

Spares-refl : (s : Surface) → Spares s s
Spares-refl s = (refl, λ a out. refl)

Spares-trans : (s t u : Surface) → Spares s t → Spares t u → Spares s u
Spares-trans s t u (e, h) (f, k) =
    (f ∙ e, λ a out. k a (subst (λ fb. Outside fb a) (sym e) out) ∙ h a out)

-- A loop whose rounds write nothing else.
loop-Spares :
    (s : Surface) (step : ℕ → Surface → Surface) (n : ℕ)
    → ((k : ℕ) (t : Surface) → k < n → t.g_fb ≡ s.g_fb → Spares t (step k t))
    → Spares s (for_range n 0 step s)
loop-Spares s step n each =
    for_range_inv (λ k t. Spares s t) step n 0 n s (omega arith)
      (λ k t above below kept. Spares-trans s t (step k t) kept (each k t below kept.0))
      (Spares-refl s)

module _ (s : Surface) (v : IsValid s.g_fb) (color : ℕ) where
  put-Spares :
      (t : Surface) (x y : ℤ)
      → t.g_fb ≡ s.g_fb
      → I32 x
      → I32 y
      → Spares t (fb_put_pixel t x y color)
  unfolding fb_put_pixel
  put-Spares t x y e cx cy = elim (Bool-cases (off_screen t.g_fb x y)) [
    | inl off ↦ (rw off refl, λ a out. rw off refl)
    | inr on ↦
        let v' = subst IsValid (sym e) v in
        let ((i, ei, hi), (j, ej, hj)) = on_axes t.g_fb v' x y cx cy on in
        (
          rw on refl,
          λ a out. rw on (rw (ei, ej) (write_spares t.g_fb t.words i j color a v' hi hj out)),
        )
  ]

  row-Spares :
      (t : Surface) (x y : ℤ) (n : ℕ)
      → t.g_fb ≡ s.g_fb
      → I32 x
      → I32 y
      → pos_part x + n ≤ 2 ^ 31
      → Spares t (fill_row t x y n color)
  unfolding fill_row
  row-Spares t x y n e cx cy room =
      loop-Spares t _ n
        (λ k u below same. put-Spares u (x +ℤ pos k) y (same ∙ e) (I32-step x n k cx below room) cy)

  rect-Spares :
      (x y w h : ℤ)
      → I32 x
      → I32 y
      → pos_part x + pos_part w ≤ 2 ^ 31
      → pos_part y + pos_part h ≤ 2 ^ 31
      → Spares s (fb_fill_rect s x y w h color)
  unfolding fb_fill_rect
  rect-Spares x y w h cx cy room_x room_y = loop-Spares s _ (pos_part h) (λ k t below same.
      row-Spares t x (y +ℤ pos k) (pos_part w) same cx (I32-step y (pos_part h) k cy below room_y)
        room_x)

  clear_row-Spares :
      (t : Surface) (j : ℕ)
      → t.g_fb ≡ s.g_fb
      → j < t.g_fb.height
      → Spares t (clear_row t (pos j) color)
  unfolding clear_row
  clear_row-Spares t j e hj = loop-Spares t _ t.g_fb.width (λ k u below same.
      let v' : IsValid u.g_fb = subst IsValid (sym (same ∙ e)) v in
      (refl, λ a out. write_spares u.g_fb u.words k j color a v' (rw same below) (rw same hj) out))

  clear-Spares : Spares s (fb_clear s color)
  unfolding fb_clear
  clear-Spares =
      loop-Spares s _ s.g_fb.height (λ k t below same. clear_row-Spares t k same (rw same below))

-- On a valid surface `fb_clear`, which tests no coordinates, and `fb_fill_rect`, for a rectangle within
-- the coordinates of an i32, leave the frame buffer's record and every word outside the surface's
-- memory as they were.
pub fb_fill_rect-Spares :
    (s : Surface) (x y w h : ℤ) (color : ℕ)
    → IsValid s.g_fb
    → I32 x
    → I32 y
    → pos_part x + pos_part w ≤ 2 ^ 31
    → pos_part y + pos_part h ≤ 2 ^ 31
    → Spares s (fb_fill_rect s x y w h color) × Spares s (fb_clear s color)
fb_fill_rect-Spares s x y w h color v cx cy room_x room_y =
    (rect-Spares s v color x y w h cx cy room_x room_y, clear-Spares s v color)
