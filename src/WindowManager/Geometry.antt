-- ===== src/WindowManager/Geometry.antt =====
-- Where windows are put: maximizing and restoring, snapping, dragging.
use h3os.Base.{
  ℕ, ◌+◌, ◌-◌, ◌/◌, ◌^◌, ◌≡◌, ◌≤◌, ◌<◌, refl, ap, ap₂, ◌∙◌, arith, Bool, true, false, not, ◌==◌,
  ◌&&◌, ltb, if◌then◌else◌,
}
use h3os.Base.Int.{ℤ, pos, negsuc, ◌+ℤ◌, ◌-ℤ◌, int_laws, to_i32}
use h3os.Drivers.Framebuffer.{Screen}
use h3os.Drivers.Mouse.{MouseState}
use h3os.WindowManager.{
  Window, Wm, normal, maximized, is_maximized, set_state, work_height, put_rect, save_rect, move,
}
use h3os.WindowManager.Pointer.{
  hits, snap, layout_rect, start_drag, wm_handle_mouse, drag, unmaximize,
}

-- A window that is not maximized, maximized and made normal again: it is where it was, as large as it
-- was, and normal.
pub set_state-set_state :
    (fb : Screen) (win : Window)
    → is_maximized win.state ≡ false
    → let back = set_state fb normal (set_state fb maximized win) in
      (back.x ≡ win.x)
      × (back.y ≡ win.y)
      × (back.w ≡ win.w)
      × (back.h ≡ win.h)
      × (back.state ≡ normal)
unfolding set_state
set_state-set_state fb win e = rw e (refl, refl, refl, refl, refl)

pos_sub : (a b : ℕ) → b ≤ a → pos a -ℤ pos b ≡ pos (a - b)
unfolding ◌-ℤ◌
pos_sub a b le = ground arith

pos_add : (a b : ℕ) → pos a +ℤ pos b ≡ pos (a + b)
unfolding ◌+ℤ◌
pos_add a b = ground arith

abbrev within : ℕ → ℕ → ℕ → Bool
within x a w = not (ltb x a) && ltb x (a + w)

-- One of the `w` coordinates from `a` on; no negative one is.
abbrev pub inside : ℤ → ℕ → ℕ → Bool
inside (pos x) a w = within x a w
inside (negsuc x) a w = false

-- Rectangles at natural coordinates, and any point.
hits_pos :
    (a b c d : ℕ) (x y : ℤ) (win : Window)
    → hits (put_rect (pos a) (pos b) (pos c) (pos d) win) x y ≡ (inside x a c && inside y b d)
unfolding hits
hits_pos a b c d (pos x) (pos y) win = rw (pos_add a c, pos_add b d) (ground arith)
hits_pos a b c d (pos x) (negsuc y) win = rw (pos_add a c, pos_add b d) (ground arith)
hits_pos a b c d (negsuc x) (pos y) win = rw (pos_add a c, pos_add b d) (ground arith)
hits_pos a b c d (negsuc x) (negsuc y) win = rw (pos_add a c, pos_add b d) (ground arith)

-- The screen in natural numbers: its width, and its height above the taskbar.
record Sized (fb : Screen) (W H : ℕ) : Type 0 where
  wide : to_i32 fb.width ≡ pos W
  high : work_height fb ≡ pos H

sized :
    (fb : Screen)
    → fb.width < 2 ^ 31
    → 48 ≤ fb.height
    → fb.height < 2 ^ 31
    → Sized fb fb.width (fb.height - 48)
unfolding ◌-ℤ◌
sized fb a b c = record { wide = ground arith; high = ground arith }

abbrev rect : ℕ → ℕ → ℕ → Window → Window
rect W H layout = layout_rect (pos W) (pos H) layout

abbrev saved : Window → Window
saved win = if is_maximized win.state then win else save_rect win

-- A snapped window is hit where its layout's rectangle is.
hits-snap :
    (fb : Screen) (W H layout : ℕ) (win : Window) (x y : ℤ)
    → layout < 6
    → Sized fb W H
    → hits (snap fb layout win) x y ≡ hits (rect W H layout (saved win)) x y
unfolding snap hits
hits-snap fb W H layout win x y lt z =
    let e : (layout == 6) ≡ false = ground arith in
    let same : layout_rect (to_i32 fb.width) (work_height fb) layout (saved win)
        ≡ rect W H layout (saved win) =
      ap₂ (λ a b. layout_rect a b layout (saved win)) z.wide z.high in
    rw e (ap (λ r. hits r x y) same)

-- Left, right, and the four quarters, from the top left by rows: where each layout is.
abbrev pub in_layout : (W H : ℕ) → ℤ → ℤ → ℕ → Bool
in_layout W H x y layout =
    let left = inside x 0 (W / 2) in
    let right = inside x (W / 2) (W - W / 2) in
    let top = inside y 0 (H / 2) in
    let bottom = inside y (H / 2) (H - H / 2) in
    if layout == 0
    then left && inside y 0 H
    else (if layout == 1
        then right && inside y 0 H
        else (if layout == 2
            then left && top
            else (if layout == 3
                then right && top
                else (if layout == 4 then left && bottom else right && bottom))))

-- The rectangles of the six layouts.
module _ (W H : ℕ) (x y : ℤ) (win : Window) where
  rest_wide : pos W -ℤ pos (W / 2) ≡ pos (W - W / 2)
  rest_wide = pos_sub W (W / 2) (omega arith)

  rest_high : pos H -ℤ pos (H / 2) ≡ pos (H - H / 2)
  rest_high = pos_sub H (H / 2) (omega arith)

  hits_left : hits (rect W H 0 win) x y ≡ in_layout W H x y 0
  unfolding layout_rect
  hits_left = hits_pos 0 0 (W / 2) H x y win

  hits_right : hits (rect W H 1 win) x y ≡ in_layout W H x y 1
  unfolding layout_rect
  hits_right =
      ap (λ w. hits (put_rect (pos (W / 2)) (pos 0) w (pos H) win) x y) rest_wide
      ∙ hits_pos (W / 2) 0 (W - W / 2) H x y win

  hits_top_left : hits (rect W H 2 win) x y ≡ in_layout W H x y 2
  unfolding layout_rect
  hits_top_left = hits_pos 0 0 (W / 2) (H / 2) x y win

  hits_top_right : hits (rect W H 3 win) x y ≡ in_layout W H x y 3
  unfolding layout_rect
  hits_top_right =
      ap (λ w. hits (put_rect (pos (W / 2)) (pos 0) w (pos (H / 2)) win) x y) rest_wide
      ∙ hits_pos (W / 2) 0 (W - W / 2) (H / 2) x y win

  hits_bottom_left : hits (rect W H 4 win) x y ≡ in_layout W H x y 4
  unfolding layout_rect
  hits_bottom_left =
      ap (λ h. hits (put_rect (pos 0) (pos (H / 2)) (pos (W / 2)) h win) x y) rest_high
      ∙ hits_pos 0 (H / 2) (W / 2) (H - H / 2) x y win

  hits_bottom_right : hits (rect W H 5 win) x y ≡ in_layout W H x y 5
  unfolding layout_rect
  hits_bottom_right =
      ap₂ (λ w h. hits (put_rect (pos (W / 2)) (pos (H / 2)) w h win) x y) rest_wide rest_high
      ∙ hits_pos (W / 2) (H / 2) (W - W / 2) (H - H / 2) x y win

abbrev pub as_number : Bool → ℕ
as_number true = 1
as_number false = 0

halves :
    (W H : ℕ) (x y : ℤ)
    → as_number (in_layout W H x y 0) + as_number (in_layout W H x y 1)
      ≡ as_number (inside x 0 W && inside y 0 H)
halves W H (pos x) (pos y) = ground arith
halves W H (pos x) (negsuc y) = ground arith
halves W H (negsuc x) (pos y) = ground arith
halves W H (negsuc x) (negsuc y) = ground arith

quarters :
    (W H : ℕ) (x y : ℤ)
    → as_number (in_layout W H x y 2)
        + as_number (in_layout W H x y 3)
        + as_number (in_layout W H x y 4)
        + as_number (in_layout W H x y 5)
      ≡ as_number (inside x 0 W && inside y 0 H)
quarters W H (pos x) (pos y) = ground arith
quarters W H (pos x) (negsuc y) = ground arith
quarters W H (negsuc x) (pos y) = ground arith
quarters W H (negsuc x) (negsuc y) = ground arith

-- On a screen below 2^31 pixels each way and at least as high as the taskbar, a window snapped to the
-- left, to the right or to a quarter is hit exactly at the points of that half or quarter of the area
-- above the taskbar. The two halves tile the area, and so do the four quarters: a point of it, odd
-- sizes included, is in exactly one of the two, or of the four, and any other point, a negative one
-- too, in none.
pub snap_tiles :
    (fb : Screen) (x y : ℤ) (win : Window)
    → fb.width < 2 ^ 31
    → 48 ≤ fb.height
    → fb.height < 2 ^ 31
    → let at : ℕ → Bool = λ layout. hits (snap fb layout win) x y in
      let exact : ℕ → Bool = in_layout fb.width (fb.height - 48) x y in
      let area = as_number (inside x 0 fb.width && inside y 0 (fb.height - 48)) in
      (at 0 ≡ exact 0)
      × (at 1 ≡ exact 1)
      × (at 2 ≡ exact 2)
      × (at 3 ≡ exact 3)
      × (at 4 ≡ exact 4)
      × (at 5 ≡ exact 5)
      × (as_number (at 0) + as_number (at 1) ≡ area)
      × (as_number (at 2) + as_number (at 3) + as_number (at 4) + as_number (at 5) ≡ area)
snap_tiles fb x y win a b c =
    let W = fb.width in
    let H = fb.height - 48 in
    let z = sized fb a b c in
    let w = saved win in
    let l = hits-snap fb W H 0 win x y (omega arith) z ∙ hits_left W H x y w in
    let r = hits-snap fb W H 1 win x y (omega arith) z ∙ hits_right W H x y w in
    let tl = hits-snap fb W H 2 win x y (omega arith) z ∙ hits_top_left W H x y w in
    let tr = hits-snap fb W H 3 win x y (omega arith) z ∙ hits_top_right W H x y w in
    let bl = hits-snap fb W H 4 win x y (omega arith) z ∙ hits_bottom_left W H x y w in
    let br = hits-snap fb W H 5 win x y (omega arith) z ∙ hits_bottom_right W H x y w in
    (l, r, tl, tr, bl, br, rw (l, r) (halves W H x y), rw (tl, tr, bl, br) (quarters W H x y))

slide : (a p q : ℤ) → (q -ℤ (p -ℤ a)) +ℤ p ≡ a +ℤ q
slide a p q = omega int_laws

-- While the button is held, a window that is dragged and is not maximized follows the pointer: after
-- each event it stands as far from the pointer as when the drag began, and it is as large as it was.
pub wm_handle_mouse-start_drag :
    (fb : Screen) (s : Wm) (i : ℕ) (m m' : MouseState)
    → (s.windows i).active ≡ true
    → is_maximized (s.windows i).state ≡ false
    → m'.left ≡ true
    → let before = s.windows i in
      let after = (wm_handle_mouse fb (start_drag s i m) m').windows i in
      (after.x +ℤ m.x ≡ before.x +ℤ m'.x)
      × (after.y +ℤ m.y ≡ before.y +ℤ m'.y)
      × (after.w ≡ before.w)
      × (after.h ≡ before.h)
unfolding wm_handle_mouse drag unmaximize move
wm_handle_mouse-start_drag fb s i m m' on small held =
    let self : (i == i) ≡ true = ground arith in
    rw (on, held, small, self)
      (slide (s.windows i).x m.x m'.x, slide (s.windows i).y m.y m'.y, refl, refl)
