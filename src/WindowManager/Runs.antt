-- ===== src/WindowManager/Runs.antt =====
-- Every operation of the window manager keeps its invariant.
use h3os.Base.{
  ℕ, zero, suc, ◌≡◌, ◌≤◌, ◌<◌, refl, sym, ◌∙◌, arith, Bool, true, false, not, Option, some, List,
  [], ◌∷◌, ◌==◌, ◌&&◌, if◌then◌else◌, Bool-cases, Option-cases, inl, inr,
}
use h3os.Base.Int.{ℤ, ◌-ℤ◌}
use h3os.Drivers.Framebuffer.{Screen}
use h3os.Drivers.Mouse.{MouseState}
use h3os.WindowManager.{
  Window, Wm, WinState, normal, maximized, minimized, max_windows, is_normal, is_maximized, move,
  resize, set_state, with_state, wm_set_state, wm_move, wm_focus, wm_destroy, wm_create,
  wm_restore_or_focus, wm_resize, wm_init,
}
use h3os.WindowManager.Count.{count_active_le}
use h3os.WindowManager.Focus.{
  IsValid, Mild, change-IsValid, wm_focus-IsValid, wm_destroy-IsValid, wm_create-IsValid,
  wm_restore_or_focus-IsValid, wm_init-IsValid, unfocus_if-some,
}
use h3os.WindowManager.Pointer.{
  snap, wm_snap, wm_handle_mouse, wm_at, topmost, layout_rect, drag, click, press, unmaximize,
  snap_at_edge, minimize, on_screen,
}

move-Mild : (x y : ℤ) → Mild (move x y)
unfolding move
move-Mild x y win = (refl, refl)

resize-Mild : (w h : ℤ) → Mild (resize w h)
unfolding resize
resize-Mild w h win = (refl, refl)

set_state-Mild : (fb : Screen) (st : WinState) → Mild (set_state fb st)
unfolding set_state
set_state-Mild fb st win = elim (Bool-cases (is_maximized st && not (is_maximized win.state))) [
  | inl a ↦ rw a (refl, refl)
  | inr a ↦ elim (Bool-cases (is_normal st && is_maximized win.state)) [
    | inl b ↦ rw (a, b) (refl, refl)
    | inr b ↦ rw (a, b) (refl, refl)
  ]
]

layout_rect-Mild : (W H : ℤ) (layout : ℕ) → Mild (layout_rect W H layout)
unfolding layout_rect
layout_rect-Mild W H layout win = elim (Bool-cases (layout == 0)) [
  | inl a ↦ rw a (refl, refl)
  | inr a ↦ elim (Bool-cases (layout == 1)) [
    | inl b ↦ rw (a, b) (refl, refl)
    | inr b ↦ elim (Bool-cases (layout == 2)) [
      | inl c ↦ rw (a, b, c) (refl, refl)
      | inr c ↦ elim (Bool-cases (layout == 3)) [
        | inl d ↦ rw (a, b, c, d) (refl, refl)
        | inr d ↦ elim (Bool-cases (layout == 4)) [
          | inl e ↦ rw (a, b, c, d, e) (refl, refl)
          | inr e ↦ elim (Bool-cases (layout == 5)) [
            | inl f ↦ rw (a, b, c, d, e, f) (refl, refl)
            | inr f ↦ rw (a, b, c, d, e, f) (refl, refl)
          ]
        ]
      ]
    ]
  ]
]

snap-Mild : (fb : Screen) (layout : ℕ) → Mild (snap fb layout)
unfolding snap
snap-Mild fb layout win = elim (Bool-cases (layout == 6)) [
  | inl a ↦ rw a (set_state-Mild fb maximized win)
  | inr a ↦ elim (Bool-cases (is_maximized win.state)) [
    | inl b ↦ rw (a, b) (layout_rect-Mild _ _ layout _)
    | inr b ↦ rw (a, b) (layout_rect-Mild _ _ layout _)
  ]
]

-- The fields of the drag are free.
redrag-IsValid :
    (s : Wm) (d : Option ℕ) (x y : ℤ) (g : Bool)
    → IsValid s
    → IsValid (record s { drag_win = d; drag_off_x = x; drag_off_y = y; dragging = g })
redrag-IsValid s d x y g v = record { counted = v.counted; flagged = v.flagged; single = v.single }

unmaximize-IsValid : (fb : Screen) (s : Wm) (i : ℕ) → IsValid s → IsValid (unmaximize fb s i)
unfolding unmaximize
unmaximize-IsValid fb s i v = elim (Bool-cases (is_maximized (s.windows i).state)) [
  | inr other ↦ rw other v
  | inl large ↦ rw large (
      redrag-IsValid (wm_set_state fb s i normal) _ _ _ _
        (change-IsValid s i (set_state fb normal) (set_state-Mild fb normal) v))
]

if-IsValid : (b : Bool) {s t : Wm} → IsValid s → IsValid t → IsValid (if b then s else t)
if-IsValid true v w = v
if-IsValid false v w = w

snap-IsValid : (fb : Screen) (s : Wm) (i layout : ℕ) → IsValid s → IsValid (wm_snap fb s i layout)
snap-IsValid fb s i layout v = change-IsValid s i (snap fb layout) (snap-Mild fb layout) v

snap_at_edge-IsValid :
    (fb : Screen) (s : Wm) (i : ℕ) (m : MouseState) → IsValid s → IsValid (snap_at_edge fb s i m)
snap_at_edge-IsValid fb s i m v =
    if-IsValid _ (snap-IsValid fb s i 0 v)
      (if-IsValid _ (snap-IsValid fb s i 1 v) (if-IsValid _ (snap-IsValid fb s i 6 v) v))

drag-IsValid : (fb : Screen) (s : Wm) (i : ℕ) (m : MouseState) → IsValid s → IsValid (drag fb s i m)
unfolding drag
drag-IsValid fb s i m v = elim (Bool-cases m.left) [
  | inl held ↦ rw held (
      change-IsValid (unmaximize fb s i) i
        (move (m.x -ℤ (unmaximize fb s i).drag_off_x) (m.y -ℤ (unmaximize fb s i).drag_off_y))
        (move-Mild _ _) (unmaximize-IsValid fb s i v))
  | inr let_go ↦
      rw let_go (redrag-IsValid (snap_at_edge fb s i m) _ _ _ _ (snap_at_edge-IsValid fb s i m v))
]

minimize-IsValid : (s : Wm) (i : ℕ) → IsValid s → IsValid (minimize s i)
minimize-IsValid s i v =
    let w = change-IsValid s i (with_state minimized) (λ win. (refl, refl)) v in
    record {
      counted = w.counted;
      flagged = λ j e. w.flagged j (unfocus_if-some s.focused i j e);
      single = w.single;
    }

press-IsValid :
    (fb : Screen) (s : Wm) (i : ℕ) (m : MouseState)
    → i < max_windows
    → IsValid s
    → IsValid (press fb s i m)
unfolding press
press-IsValid fb s i m lt v =
    if-IsValid _
      (if-IsValid _ (wm_destroy-IsValid s i lt v) (
        if-IsValid _ (change-IsValid s i (set_state fb _) (set_state-Mild fb _) v)
          (if-IsValid _ (minimize-IsValid s i v) (redrag-IsValid s _ _ _ _ v))))
      v

topmost_below : (ws : ℕ → Window) (x y : ℤ) (n i : ℕ) → topmost ws x y n ≡ some i → i < n
unfolding topmost
topmost_below ws x y zero i e = absurd (ground arith)
topmost_below ws x y (suc n) i e = elim (Bool-cases (on_screen (ws n) x y)) [
  | inl hit ↦ ground arith
  | inr miss ↦ let lt = topmost_below ws x y n i (ground arith) in omega (arith, lt)
]

wm_at_below : (s : Wm) (x y : ℤ) (i : ℕ) → IsValid s → wm_at s x y ≡ some i → i < max_windows
unfolding wm_at
wm_at_below s x y i v e = elim (Option-cases s.focused) [
  | inl none_on ↦
      let f : topmost s.windows x y max_windows ≡ some i = sym (rw none_on refl) ∙ e in
      topmost_below s.windows x y max_windows i f
  | inr (k, on) ↦ elim (Bool-cases (on_screen (s.windows k) x y)) [
    | inl hit ↦
        let f : some k ≡ some i = sym (rw (on, hit) refl) ∙ e in
        let (lt, flag) = v.flagged i (on ∙ f) in lt
    | inr miss ↦
        let f : topmost s.windows x y max_windows ≡ some i = sym (rw (on, miss) refl) ∙ e in
        topmost_below s.windows x y max_windows i f
  ]
]

click-IsValid : (fb : Screen) (s : Wm) (m : MouseState) → IsValid s → IsValid (click fb s m)
unfolding click
click-IsValid fb s m v =
    if-IsValid m.left_pressed
      (elim (Option-cases (wm_at s m.x m.y)) [
        | inl nothing ↦ rw nothing v
        | inr (i, hit) ↦
            let lt = wm_at_below s m.x m.y i v hit in
            rw hit (press-IsValid fb (wm_focus s (some i)) i m lt (wm_focus-IsValid s i lt v))
      ])
      v

pub wm_handle_mouse-IsValid :
    (fb : Screen) (s : Wm) (m : MouseState) → IsValid s → IsValid (wm_handle_mouse fb s m)
unfolding wm_handle_mouse
wm_handle_mouse-IsValid fb s m v =
    if-IsValid s.dragging
      (elim (Option-cases s.drag_win) [
        | inl nothing ↦ rw nothing (click-IsValid fb s m v)
        | inr (i, held) ↦
            rw held
              (if-IsValid (s.windows i).active (drag-IsValid fb s i m v) (click-IsValid fb s m v))
      ])
      (click-IsValid fb s m v)

-- The calls of the window manager's clients, on windows of the table, and the handling of the mouse.
pub data Call : Type 0 where
  create : ℕ → Option (List ℕ) → ℤ → ℤ → ℤ → ℤ → Call
  destroy focus restore_or_focus : (i : ℕ) → i < max_windows → Call
  move_to resize_to : ℕ → ℤ → ℤ → Call
  put_state : ℕ → WinState → Call
  snap_to : ℕ → ℕ → Call
  mouse : MouseState → Call

abbrev pub perform : Screen → Wm → Call → Wm
perform fb s (create limit title x y w h) = (wm_create limit s title x y w h).1
perform fb s (destroy i lt) = wm_destroy s i
perform fb s (focus i lt) = wm_focus s (some i)
perform fb s (restore_or_focus i lt) = wm_restore_or_focus s i
perform fb s (move_to i x y) = wm_move s i x y
perform fb s (resize_to i w h) = wm_resize s i w h
perform fb s (put_state i st) = wm_set_state fb s i st
perform fb s (snap_to i layout) = wm_snap fb s i layout
perform fb s (mouse m) = wm_handle_mouse fb s m

abbrev pub run_calls : Screen → Wm → List Call → Wm
run_calls fb s [] = s
run_calls fb s (c ∷ cs) = run_calls fb (perform fb s c) cs

perform-IsValid : (fb : Screen) (s : Wm) (c : Call) → IsValid s → IsValid (perform fb s c)
perform-IsValid fb s (create limit title x y w h) v = wm_create-IsValid limit s title x y w h v
perform-IsValid fb s (destroy i lt) v = wm_destroy-IsValid s i lt v
perform-IsValid fb s (focus i lt) v = wm_focus-IsValid s i lt v
perform-IsValid fb s (restore_or_focus i lt) v = wm_restore_or_focus-IsValid s i lt v
perform-IsValid fb s (move_to i x y) v = change-IsValid s i (move x y) (move-Mild x y) v
perform-IsValid fb s (resize_to i w h) v = change-IsValid s i (resize w h) (resize-Mild w h) v
perform-IsValid fb s (put_state i st) v =
    change-IsValid s i (set_state fb st) (set_state-Mild fb st) v
perform-IsValid fb s (snap_to i layout) v = snap-IsValid fb s i layout v
perform-IsValid fb s (mouse m) v = wm_handle_mouse-IsValid fb s m v

run_calls-IsValid :
    (fb : Screen) (cs : List Call) (s : Wm) → IsValid s → IsValid (run_calls fb s cs)
run_calls-IsValid fb [] s v = v
run_calls-IsValid fb (c ∷ cs) s v =
    run_calls-IsValid fb cs (perform fb s c) (perform-IsValid fb s c v)

-- After `wm_init` and any calls of the window manager and mouse events, on windows that may have been
-- destroyed since, but none of `wm_focus` with NULL, which leaves the focus on a window without its
-- flag: `win_count` is the number of active windows, and 32 at most; the window that has
-- the focus carries its flag; and no two windows carry the flag.
pub wm_init-run_calls :
    (fb : Screen) (s : Wm) (cs : List Call)
    → IsValid (run_calls fb (wm_init s) cs)
      × ((run_calls fb (wm_init s) cs).win_count ≤ max_windows)
wm_init-run_calls fb s cs =
    let v = run_calls-IsValid fb cs (wm_init s) (wm_init-IsValid s) in
    (v, omega (arith, v.counted, count_active_le (run_calls fb (wm_init s) cs).windows max_windows))
