-- ===== src/WindowManager/Pointer.antt =====
-- `wm_snap`, `wm_at`, `wm_get` and `wm_handle_mouse` of window_manager/wm.c.
use h3os.Base.{
  ℕ, zero, suc, ◌+◌, Bool, true, false, not, Option, none, some, ◌==◌, ◌&&◌, if◌then◌else◌,
}
use h3os.Base.Int.{ℤ, pos, ◌+ℤ◌, ◌-ℤ◌, ltb_ℤ, to_i32}
use h3os.Drivers.Framebuffer.{Screen}
use h3os.Drivers.Mouse.{MouseState}
use h3os.WindowManager.{
  Window, Wm, normal, maximized, minimized, max_windows, is_minimized, is_maximized, half,
  work_height, save_rect, put_rect, with_state, set_state, change, wm_set_state, wm_move, wm_focus,
  wm_destroy, unfocus_if,
}

-- The rectangle of each layout below 6; the others keep the window's.
unfoldable pub layout_rect : ℤ → ℤ → ℕ → Window → Window
layout_rect W H layout =
    let hw = half W in
    let hh = half H in
    if layout == 0
    then put_rect (pos 0) (pos 0) hw H
    else if layout == 1
    then put_rect hw (pos 0) (W -ℤ hw) H
    else if layout == 2
    then put_rect (pos 0) (pos 0) hw hh
    else if layout == 3
    then put_rect hw (pos 0) (W -ℤ hw) hh
    else if layout == 4
    then put_rect (pos 0) hh hw (H -ℤ hh)
    else if layout == 5
    then put_rect hw hh (W -ℤ hw) (H -ℤ hh)
    else λ win. win

unfoldable pub snap : Screen → ℕ → Window → Window
snap fb layout win =
    if layout == 6
    then set_state fb maximized win
    else with_state normal (
        layout_rect (to_i32 fb.width) (work_height fb) layout
          (if is_maximized win.state then win else save_rect win))

abbrev pub wm_snap : Screen → Wm → ℕ → ℕ → Wm
wm_snap fb s i layout = change s i (snap fb layout)

-- `x >= w->x && x < w->x + w->w && y >= w->y && y < w->y + w->h`
unfoldable pub hits : Window → ℤ → ℤ → Bool
hits win x y =
    not (ltb_ℤ x win.x)
    && ltb_ℤ x (win.x +ℤ win.w)
    && not (ltb_ℤ y win.y)
    && ltb_ℤ y (win.y +ℤ win.h)

-- The window can be hit: it is active and not minimized, and holds the point.
abbrev pub on_screen : Window → ℤ → ℤ → Bool
on_screen win x y = win.active && not (is_minimized win.state) && hits win x y

-- The loop from the last slot down, over the slots below `n`.
unfoldable pub topmost : (ℕ → Window) → ℤ → ℤ → ℕ → Option ℕ
topmost ws x y zero = none
topmost ws x y (suc n) =
    let rest = topmost ws x y n in if on_screen (ws n) x y then some n else rest

unfoldable pub wm_at : Wm → ℤ → ℤ → Option ℕ
wm_at s x y =
    let other = topmost s.windows x y max_windows in
    elim s.focused [ none ↦ other | some i ↦ if on_screen (s.windows i) x y then some i else other ]

-- The loop of `wm_get` from the slot `i` on, with `n` active windows passed.
unfoldable pub nth_active : (ℕ → Window) → ℕ → ℕ → ℕ → ℕ → Option ℕ
nth_active ws zero i n index = none
nth_active ws (suc left) i n index =
    let skipped = nth_active ws left (i + 1) n index in
    let passed = nth_active ws left (i + 1) (n + 1) index in
    if not (ws i).active then skipped else if n == index then some i else passed

abbrev pub wm_get : Wm → ℕ → Option ℕ
wm_get s index = nth_active s.windows max_windows 0 0 index

abbrev pub stop_drag : Wm → Wm
stop_drag s = record s { dragging = false; drag_win = none }

-- A maximized window leaves that state, with the pointer in the middle of its title bar.
unfoldable pub unmaximize : Screen → Wm → ℕ → Wm
unmaximize fb s i =
    if is_maximized (s.windows i).state
    then record (wm_set_state fb s i normal) {
      drag_off_x = half (set_state fb normal (s.windows i)).w;
      drag_off_y = pos 16;
    }
    else s

-- `wm_move(drag_win, m.x - drag_off_x, m.y - drag_off_y)`
abbrev pub follow : Wm → ℕ → MouseState → Wm
follow s i m = wm_move s i (m.x -ℤ s.drag_off_x) (m.y -ℤ s.drag_off_y)

-- The edges at which a window that is let go snaps.
abbrev pub snap_at_edge : Screen → Wm → ℕ → MouseState → Wm
snap_at_edge fb s i m =
    if not (ltb_ℤ (pos 12) m.x)
    then wm_snap fb s i 0
    else if not (ltb_ℤ m.x (to_i32 fb.width -ℤ pos 12))
    then wm_snap fb s i 1
    else if not (ltb_ℤ (pos 8) m.y)
    then wm_snap fb s i 6
    else s

unfoldable pub drag : Screen → Wm → ℕ → MouseState → Wm
drag fb s i m = if m.left then follow (unmaximize fb s i) i m else stop_drag (snap_at_edge fb s i m)

-- The caption buttons are 46 pixels wide and count from the right.
abbrev pub in_button : Window → ℤ → ℕ → ℕ → Bool
in_button win x from to =
    not (ltb_ℤ x (win.x +ℤ win.w -ℤ pos from)) && ltb_ℤ x (win.x +ℤ win.w -ℤ pos to)

abbrev pub minimize : Wm → ℕ → Wm
minimize s i = record (change s i (with_state minimized)) { focused = unfocus_if s.focused i }

abbrev pub start_drag : Wm → ℕ → MouseState → Wm
start_drag s i m = record s {
  dragging = true;
  drag_win = some i;
  drag_off_x = m.x -ℤ (s.windows i).x;
  drag_off_y = m.y -ℤ (s.windows i).y;
}

-- A press on the window `i`, which has the focus by now.
unfoldable pub press : Screen → Wm → ℕ → MouseState → Wm
press fb s i m =
    let win = s.windows i in
    if not (ltb_ℤ m.y win.y) && ltb_ℤ m.y (win.y +ℤ pos 32)
    then if in_button win m.x 46 0
      then wm_destroy s i
      else if in_button win m.x 92 46
      then wm_set_state fb s i (if is_maximized win.state then normal else maximized)
      else if in_button win m.x 138 92
      then minimize s i
      else start_drag s i m
    else s

unfoldable pub click : Screen → Wm → MouseState → Wm
click fb s m =
    if m.left_pressed
    then elim (wm_at s m.x m.y) [ none ↦ s | some i ↦ press fb (wm_focus s (some i)) i m ]
    else s

unfoldable pub wm_handle_mouse : Screen → Wm → MouseState → Wm
wm_handle_mouse fb s m =
    if s.dragging
    then elim s.drag_win [
      | none ↦ click fb s m
      | some i ↦ if (s.windows i).active then drag fb s i m else click fb s m
    ]
    else click fb s m
