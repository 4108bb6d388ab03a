-- ===== src/WindowManager/Create.antt =====
-- `wm_create` and `wm_at`: what they return.
use h3os.Base.{
  ℕ, zero, suc, ◌+◌, ◌≡◌, ◌≤◌, ◌<◌, refl, sym, ap, ◌∙◌, arith, true, false, Option, none, some,
  List, ◌==◌, leb, if◌then◌else◌, Bool-cases, Option-cases, inl, inr,
}
use h3os.Base.Int.{ℤ}
use h3os.WindowManager.{
  normal, Window, Wm, max_windows, new_window, unfocus, give_focus, place, wm_focus, wm_create,
  find_slot,
}
use h3os.WindowManager.Count.{count_active, count_active_le}
use h3os.WindowManager.Focus.{IsValid, find_slot_lem}
use h3os.WindowManager.Pointer.{wm_at, topmost, on_screen}

find_slot-none :
    (ws : ℕ → Window) (n i j : ℕ)
    → find_slot ws n i ≡ none
    → i ≤ j
    → j < i + n
    → (ws j).active ≡ true
unfolding find_slot
find_slot-none ws zero i j e lo hi = absurd (omega arith)
find_slot-none ws (suc n) i j e lo hi = elim (Bool-cases (ws i).active) [
  | inr free ↦ absurd (ground arith)
  | inl busy ↦ elim (Bool-cases (i == j)) [
    | inl same ↦ let e' : i ≡ j = ground arith in sym (ap (λ q. (ws q).active) e') ∙ busy
    | inr other ↦ find_slot-none ws n (i + 1) j (ground arith) (ground arith) (omega arith)
  ]
]

count_active_full :
    (ws : ℕ → Window) (n : ℕ) → ((j : ℕ) → j < n → (ws j).active ≡ true) → count_active ws n ≡ n
unfolding count_active
count_active_full ws zero h = refl
count_active_full ws (suc n) h =
    ground (arith, h n (omega arith), count_active_full ws n (λ j l. h j (omega arith)))

-- A window that is shown, as a normal one, at this place and of this size.
abbrev pub IsAt : Window → (x y w h : ℤ) → Type 0
IsAt win x y w h =
    (win.x ≡ x)
    × (win.y ≡ y)
    × (win.w ≡ w)
    × (win.h ≡ h)
    × (win.state ≡ normal)
    × (win.active ≡ true)
    × (win.focused ≡ true)

-- What `wm_create` answers.
pub data Creates (limit : ℕ) (s : Wm) (win : Window) (x y w h : ℤ) : Option ℕ × Wm → Type 0 where
  refused : limit ≤ s.win_count → Creates limit s win x y w h (none, s)
  opened :
      (i : ℕ) (t : Wm)
      → i < max_windows
      → (s.windows i).active ≡ false
      → s.win_count < limit
      → t.win_count ≡ s.win_count + 1
      → t.focused ≡ some i
      → ((j : ℕ) → t.windows j ≡ (if i == j then give_focus win else unfocus (s.windows j)))
      → IsAt (t.windows i) x y w h
      → Creates limit s win x y w h (some i, t)

placed :
    (s : Wm) (i : ℕ) (win : Window) (j : ℕ)
    → (place s i win).windows j ≡ (if i == j then give_focus win else unfocus (s.windows j))
unfolding wm_focus
placed s i win j = elim (Bool-cases (i == j)) [
  | inl same ↦ let self : (i == i) ≡ true = ground arith in rw (same, self) refl
  | inr other ↦ rw other refl
]

placed-IsAt :
    (s : Wm) (i : ℕ) (title : Option (List ℕ)) (x y w h : ℤ)
    → IsAt ((place s i (new_window title x y w h)).windows i) x y w h
placed-IsAt s i title x y w h =
    let win = new_window title x y w h in
    let self : (i == i) ≡ true = ground arith in
    let there : (place s i win).windows i ≡ give_focus win = placed s i win i ∙ rw self refl in
    rw there (refl, refl, refl, refl, refl, refl, refl)

-- On a valid state, with a limit of 32 windows at most: `wm_create` opens a window with the geometry
-- asked for in a slot that was free, gives it the focus, takes the focus from the others and leaves
-- them otherwise, and counts it; or, exactly when the limit is reached, it changes nothing and returns
-- `NULL`.
pub wm_create_lem :
    (limit : ℕ) (s : Wm) (title : Option (List ℕ)) (x y w h : ℤ)
    → IsValid s
    → limit ≤ max_windows
    → Creates limit s (new_window title x y w h) x y w h (wm_create limit s title x y w h)
unfolding wm_create
wm_create_lem limit s title x y w h v le = elim (Bool-cases (leb limit s.win_count)) [
  | inl full ↦ rw full (refused (ground arith))
  | inr room ↦ elim (Option-cases (find_slot s.windows max_windows 0)) [
    | inl nothing ↦
        let full =
          count_active_full s.windows max_windows
            (λ j l. find_slot-none s.windows max_windows 0 j nothing (omega arith) l) in
        absurd (ground (arith, full, v.counted))
    | inr (i, found) ↦
        let (a, b, c) = find_slot_lem s.windows max_windows 0 i found in
        let win = new_window title x y w h in
        let bound = count_active_le s.windows max_windows in
        rw (room, found)
          (opened i (place s i win) (omega arith) c (ground arith)
            (unfold wm_focus in omega (arith, v.counted, bound)) (unfold wm_focus in refl)
            (placed s i win) (placed-IsAt s i title x y w h))
  ]
]

-- What `wm_at` answers: the focused window if it can be hit at the point, else the last one that can.
pub data Under (s : Wm) (x y : ℤ) : Option ℕ → Type 0 where
  front : (i : ℕ) → s.focused ≡ some i → on_screen (s.windows i) x y ≡ true → Under s x y (some i)
  behind :
      (i : ℕ)
      → i < max_windows
      → on_screen (s.windows i) x y ≡ true
      → ((k : ℕ) → i < k → k < max_windows → on_screen (s.windows k) x y ≡ false)
      → ((k : ℕ) → s.focused ≡ some k → on_screen (s.windows k) x y ≡ false)
      → Under s x y (some i)
  nowhere : ((k : ℕ) → k < max_windows → on_screen (s.windows k) x y ≡ false) → Under s x y none

-- What the loop of `wm_at` answers over `n` slots.
data Highest (ws : ℕ → Window) (x y : ℤ) (n : ℕ) : Option ℕ → Type 0 where
  highest :
      (i : ℕ)
      → i < n
      → on_screen (ws i) x y ≡ true
      → ((k : ℕ) → i < k → k < n → on_screen (ws k) x y ≡ false)
      → Highest ws x y n (some i)
  no_window : ((k : ℕ) → k < n → on_screen (ws k) x y ≡ false) → Highest ws x y n none

miss_at :
    (ws : ℕ → Window) (x y : ℤ) (n k : ℕ)
    → n ≡ k
    → on_screen (ws n) x y ≡ false
    → on_screen (ws k) x y ≡ false
miss_at ws x y n k e miss = sym (ap (λ q. on_screen (ws q) x y) e) ∙ miss

extend :
    (ws : ℕ → Window) (x y : ℤ) (n : ℕ) (o : Option ℕ)
    → on_screen (ws n) x y ≡ false
    → Highest ws x y n o
    → Highest ws x y (suc n) o
extend ws x y n o miss (highest i lt hit none_above) = highest i (omega arith) hit (λ k lo hi.
    elim (Bool-cases (n == k)) [
      | inl same ↦ miss_at ws x y n k (ground arith) miss
      | inr other ↦ none_above k lo (ground arith)
    ])
extend ws x y n o miss (no_window clear) = no_window (λ k hi. elim (Bool-cases (n == k)) [
  | inl same ↦ miss_at ws x y n k (ground arith) miss
  | inr other ↦ clear k (ground arith)
])

topmost-Highest : (ws : ℕ → Window) (x y : ℤ) (n : ℕ) → Highest ws x y n (topmost ws x y n)
unfolding topmost
topmost-Highest ws x y zero = no_window (λ k lt. absurd (omega arith))
topmost-Highest ws x y (suc n) = elim (Bool-cases (on_screen (ws n) x y)) [
  | inl hit ↦ rw hit (highest n (omega arith) hit (λ k lo hi. absurd (omega arith)))
  | inr miss ↦ rw miss (extend ws x y n (topmost ws x y n) miss (topmost-Highest ws x y n))
]

Highest-Under :
    (s : Wm) (x y : ℤ) (o : Option ℕ)
    → ((k : ℕ) → s.focused ≡ some k → on_screen (s.windows k) x y ≡ false)
    → Highest s.windows x y max_windows o
    → Under s x y o
Highest-Under s x y o h (highest i lt hit above) = behind i lt hit above h
Highest-Under s x y o h (no_window none_at) = nowhere none_at

wm_at_unfocused :
    (s : Wm) (x y : ℤ) → s.focused ≡ none → wm_at s x y ≡ topmost s.windows x y max_windows
unfolding wm_at
wm_at_unfocused s x y e = rw e refl

wm_at_front :
    (s : Wm) (x y : ℤ) (i : ℕ)
    → s.focused ≡ some i
    → on_screen (s.windows i) x y ≡ true
    → wm_at s x y ≡ some i
unfolding wm_at
wm_at_front s x y i e hit = rw (e, hit) refl

wm_at_behind :
    (s : Wm) (x y : ℤ) (i : ℕ)
    → s.focused ≡ some i
    → on_screen (s.windows i) x y ≡ false
    → wm_at s x y ≡ topmost s.windows x y max_windows
unfolding wm_at
wm_at_behind s x y i e miss = rw (e, miss) refl

-- `wm_at` returns the focused window, if it is active, not minimized and holds the point; else the
-- last such window of the table; and `NULL` only if no window of the table is such.
pub wm_at_lem : (s : Wm) (x y : ℤ) → Under s x y (wm_at s x y)
wm_at_lem s x y = elim (Option-cases s.focused) [
  | inl nothing ↦ rw (wm_at_unfocused s x y nothing) (
      Highest-Under s x y (topmost s.windows x y max_windows)
        (λ k e. absurd (ground (arith, nothing, e))) (topmost-Highest s.windows x y max_windows))
  | inr (i, on) ↦ elim (Bool-cases (on_screen (s.windows i) x y)) [
    | inl hit ↦ rw (wm_at_front s x y i on hit) (front i on hit)
    | inr miss ↦ rw (wm_at_behind s x y i on miss) (
        Highest-Under s x y (topmost s.windows x y max_windows)
          (λ k e. let same : i ≡ k = ground (arith, on, e) in miss_at s.windows x y i k same miss)
          (topmost-Highest s.windows x y max_windows))
  ]
]
