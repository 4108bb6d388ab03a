-- ===== src/WindowManager.antt =====
-- window_manager/wm.c and wm.h: the table of windows, the focus, the geometry and the mouse. A
-- window is named by its slot, and `none` is `NULL`. Coordinates are exact integers. The drawing
-- code and the callbacks of a window (`draw`, `on_key`, `user`) are left out.
pub mod Pointer
pub mod Count
pub mod Focus
pub mod Runs
pub mod Create
pub mod Geometry
mod Tests
use h3os.Base.{
  ℕ, zero, suc, ◌+◌, ◌-◌, ◌/◌, ◌%◌, ◌^◌, Bool, true, false, not, Option, none, some, List, [], ◌∷◌,
  ◌==◌, ◌&&◌, ◌||◌, ltb, leb, if◌then◌else◌, update, take, u32,
}
use h3os.Base.Int.{ℤ, pos, negsuc, ◌+ℤ◌, ◌-ℤ◌, ltb_ℤ, sub_ℕ, to_i32}
use h3os.Drivers.Framebuffer.{Screen}

abbrev pub max_windows : ℕ
max_windows = 32

-- `WM_TITLE_LEN`
abbrev pub title_len : ℕ
title_len = 64

abbrev pub taskbar_height : ℤ
taskbar_height = pos 48

-- `win_state_t`
pub data WinState : Type 0 where
  normal maximized minimized fullscreen : WinState

abbrev pub is_minimized : WinState → Bool
is_minimized minimized = true
is_minimized _ = false

abbrev pub is_maximized : WinState → Bool
is_maximized maximized = true
is_maximized _ = false

abbrev pub is_normal : WinState → Bool
is_normal normal = true
is_normal _ = false

-- `window_t`
pub record Window : Type 0 where
  pub active : Bool
  pub title : List ℕ
  pub x : ℤ
  pub y : ℤ
  pub w : ℤ
  pub h : ℤ
  pub restore_x : ℤ
  pub restore_y : ℤ
  pub restore_w : ℤ
  pub restore_h : ℤ
  pub bg : ℕ
  pub accent : ℕ
  pub state : WinState
  pub always_on_top : Bool
  pub focused : Bool

-- The static variables of the file.
pub record Wm : Type 0 where
  pub windows : ℕ → Window
  pub focused : Option ℕ
  pub win_count : ℕ
  pub drag_win : Option ℕ
  pub drag_off_x : ℤ
  pub drag_off_y : ℤ
  pub dragging : Bool

-- `n / 2`, which rounds towards 0.
abbrev pub half : ℤ → ℤ
half (pos n) = pos (n / 2)
half (negsuc n) = sub_ℕ 0 (suc n / 2)

abbrev pub zero_window : Window
zero_window = record {
  active = false;
  title = [];
  x = pos 0;
  y = pos 0;
  w = pos 0;
  h = pos 0;
  restore_x = pos 0;
  restore_y = pos 0;
  restore_w = pos 0;
  restore_h = pos 0;
  bg = 0;
  accent = 0;
  state = normal;
  always_on_top = false;
  focused = false;
}

-- `memset(windows, 0, sizeof(windows))`, with the drag left as it is.
unfoldable pub wm_init : Wm → Wm
wm_init s = record s { windows = λ i. zero_window; focused = none; win_count = 0 }

abbrev pub unfocus : Window → Window
unfocus win = record win { focused = false }

-- The flag is set, and a minimized window becomes normal.
abbrev pub give_focus : Window → Window
give_focus win = record win {
  focused = true;
  state = if is_minimized win.state then normal else win.state;
}

unfoldable pub wm_focus : Wm → Option ℕ → Wm
wm_focus s none = record s { windows = λ i. unfocus (s.windows i) }
wm_focus s (some i) = record s {
  windows = update (λ j. unfocus (s.windows j)) i (give_focus (s.windows i));
  focused = some i;
}

-- `title ? title : "Untitled"`, cut to 63 bytes.
abbrev pub window_title : Option (List ℕ) → List ℕ
window_title none = b'U' ∷ b'n' ∷ b't' ∷ b'i' ∷ b't' ∷ b'l' ∷ b'e' ∷ b'd' ∷ []
window_title (some t) = take (title_len - 1) t

abbrev pub new_window : Option (List ℕ) → ℤ → ℤ → ℤ → ℤ → Window
new_window title x y w h = record {
  active = true;
  title = window_title title;
  x = x;
  y = y;
  w = w;
  h = h;
  restore_x = x;
  restore_y = y;
  restore_w = w;
  restore_h = h;
  bg = 0xFF0E1A22;
  accent = 0xFF2EC4B6;
  state = normal;
  always_on_top = false;
  focused = false;
}

-- The first slot from `i` on that is not active, within so many rounds.
unfoldable pub find_slot : (ℕ → Window) → ℕ → ℕ → Option ℕ
find_slot ws zero i = none
find_slot ws (suc n) i = let rest = find_slot ws n (i + 1) in if (ws i).active then rest else some i

abbrev pub place : Wm → ℕ → Window → Wm
place s i win =
    wm_focus (record s { windows = update s.windows i win; win_count = u32 (s.win_count + 1) })
      (some i)

-- `limit` is the number of windows of the performance profile.
unfoldable pub wm_create : ℕ → Wm → Option (List ℕ) → ℤ → ℤ → ℤ → ℤ → Option ℕ × Wm
wm_create limit s title x y w h =
    if leb limit s.win_count then (none, s) else elim (find_slot s.windows max_windows 0) [
      | none ↦ (none, s)
      | some i ↦ (some i, place s i (new_window title x y w h))
    ]

abbrev pub unfocus_if : Option ℕ → ℕ → Option ℕ
unfocus_if none i = none
unfocus_if (some j) i = if j == i then none else some j

unfoldable pub wm_destroy : Wm → ℕ → Wm
wm_destroy s i =
    if (s.windows i).active
    then record s {
      windows = update s.windows i (record (s.windows i) { active = false });
      focused = unfocus_if s.focused i;
      win_count = u32 (s.win_count + 2 ^ 32 - 1);
    }
    else s

abbrev pub change : Wm → ℕ → (Window → Window) → Wm
change s i f = record s { windows = update s.windows i (f (s.windows i)) }

abbrev pub with_state : WinState → Window → Window
with_state st win = record win { state = st }

unfoldable pub wm_restore_or_focus : Wm → ℕ → Wm
wm_restore_or_focus s i =
    if (s.windows i).focused && not (is_minimized (s.windows i).state)
    then record (change s i (with_state minimized)) { focused = none }
    else wm_focus s (some i)

unfoldable pub move : ℤ → ℤ → Window → Window
move x y win = record win { x = x; y = y }

abbrev pub wm_move : Wm → ℕ → ℤ → ℤ → Wm
wm_move s i x y = change s i (move x y)

unfoldable pub resize : ℤ → ℤ → Window → Window
resize w h win = record win {
  w = if ltb_ℤ w (pos 160) then pos 160 else w;
  h = if ltb_ℤ h (pos 100) then pos 100 else h;
}

abbrev pub wm_resize : Wm → ℕ → ℤ → ℤ → Wm
wm_resize s i w h = change s i (resize w h)

-- The height above the taskbar.
abbrev pub work_height : Screen → ℤ
work_height fb = to_i32 fb.height -ℤ taskbar_height

abbrev pub save_rect : Window → Window
save_rect win = record win {
  restore_x = win.x;
  restore_y = win.y;
  restore_w = win.w;
  restore_h = win.h;
}

abbrev pub put_rect : ℤ → ℤ → ℤ → ℤ → Window → Window
put_rect x y w h win = record win { x = x; y = y; w = w; h = h }

unfoldable pub set_state : Screen → WinState → Window → Window
set_state fb st win =
    if is_maximized st && not (is_maximized win.state)
    then with_state st (put_rect (pos 0) (pos 0) (to_i32 fb.width) (work_height fb) (save_rect win))
    else if is_normal st && is_maximized win.state
    then with_state st (put_rect win.restore_x win.restore_y win.restore_w win.restore_h win)
    else with_state st win

abbrev pub wm_set_state : Screen → Wm → ℕ → WinState → Wm
wm_set_state fb s i st = change s i (set_state fb st)
