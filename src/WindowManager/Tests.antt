-- ===== src/WindowManager/Tests.antt =====
-- Runs of the window manager, and its theorems at concrete states.
use h3os.Base.{
  ℕ, ◌+◌, ◌≡◌, ◌≤◌, refl, arith, Bool, true, false, none, some, List, [], ◌∷◌, ◌++◌, ◌&&◌,
}
use h3os.Base.Int.{pos}
use h3os.Drivers.Framebuffer.{Screen}
use h3os.Drivers.Mouse.{MouseState, zero_state}
use h3os.WindowManager.{
  Window, Wm, max_windows, zero_window, new_window, place, wm_init, wm_create, wm_focus, find_slot,
}
use h3os.WindowManager.Pointer.{snap, hits}
use h3os.WindowManager.Focus.{IsValid, wm_init-IsValid}
use h3os.WindowManager.Runs.{Call, create, mouse, run_calls, wm_init-run_calls}
use h3os.WindowManager.Create.{Creates, wm_create_lem}
use h3os.WindowManager.Geometry.{snap_tiles, as_number, inside, in_layout}

abbrev empty : Wm
empty = record {
  windows = λ i. zero_window;
  focused = none;
  win_count = 0;
  drag_win = none;
  drag_off_x = pos 0;
  drag_off_y = pos 0;
  dragging = false;
}

abbrev display : Screen
display = record { width = 1281; height = 721 }

abbrev two_windows : List Call
two_windows =
    create 4 none (pos 10) (pos 10) (pos 300) (pos 200)
    ∷ create 4 (some (65 ∷ [])) (pos 50) (pos 50) (pos 300) (pos 200)
    ∷ []

-- A click on the close button of the second window.
abbrev close_click : Call
close_click =
    mouse (record zero_state { x = pos 340; y = pos 60; left = true; left_pressed = true })

wm_init-run_calls_example :
    IsValid (run_calls display (wm_init empty) (two_windows ++ (close_click ∷ [])))
    × ((run_calls display (wm_init empty) (two_windows ++ (close_click ∷ []))).win_count
        ≤ max_windows)
wm_init-run_calls_example = wm_init-run_calls display empty (two_windows ++ (close_click ∷ []))

wm_create_lem_example :
    Creates 4
      (wm_init empty)
      (new_window none (pos 1) (pos 2) (pos 300) (pos 200))
      (pos 1)
      (pos 2)
      (pos 300)
      (pos 200)
      (wm_create 4 (wm_init empty) none (pos 1) (pos 2) (pos 300) (pos 200))
wm_create_lem_example =
    wm_create_lem 4 (wm_init empty) none (pos 1) (pos 2) (pos 300) (pos 200) (wm_init-IsValid empty)
      (omega arith)

abbrev window : Window
window = new_window none (pos 10) (pos 20) (pos 300) (pos 200)

abbrev one_window : Wm
one_window = place empty 0 window

snap_tiles_example :
    let at : ℕ → Bool = λ layout. hits (snap display layout window) (pos 640) (pos 336) in
    let exact : ℕ → Bool = in_layout 1281 673 (pos 640) (pos 336) in
    let area = as_number (inside (pos 640) 0 1281 && inside (pos 336) 0 673) in
    (at 0 ≡ exact 0)
    × (at 1 ≡ exact 1)
    × (at 2 ≡ exact 2)
    × (at 3 ≡ exact 3)
    × (at 4 ≡ exact 4)
    × (at 5 ≡ exact 5)
    × (as_number (at 0) + as_number (at 1) ≡ area)
    × (as_number (at 2) + as_number (at 3) + as_number (at 4) + as_number (at 5) ≡ area)
snap_tiles_example =
    snap_tiles display (pos 640) (pos 336) window (omega arith) (omega arith) (omega arith)

abbrev pressed : MouseState
pressed = record zero_state { x = pos 30; y = pos 25; left = true; left_pressed = true }

abbrev moved : MouseState
moved = record zero_state { x = pos 5; y = pos 100; left = true; left_pressed = false }

-- The close button destroys the window, and the first one is left without the focus.
run_close :
    let s = run_calls display (wm_init empty) two_windows in
    (s.win_count ≡ 2) × (s.focused ≡ some 1)
unfolding wm_init wm_create wm_focus find_slot
run_close = (refl, refl)
