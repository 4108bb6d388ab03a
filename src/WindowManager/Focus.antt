-- ===== src/WindowManager/Focus.antt =====
-- The invariant of the window manager: the count of windows, and one window with the focus at most.
use h3os.Base.{
  ℕ, zero, suc, ◌+◌, ◌≡◌, ◌≤◌, ◌<◌, refl, sym, ap, ◌∙◌, arith, true, false, not, Option, none, some,
  List, ◌==◌, ◌&&◌, leb, update, u32, Bool-cases, Option-cases, inl, inr,
}
use h3os.Base.Int.{ℤ}
use h3os.WindowManager.{
  Window, Wm, minimized, max_windows, is_minimized, change, new_window, place, with_state, wm_focus,
  wm_destroy, wm_create, wm_restore_or_focus, unfocus_if, wm_init, find_slot,
}
use h3os.WindowManager.Count.{
  count_active, count_active_le, count_active_same, count_active_open, count_active_close, Marks,
}

-- `focused` names a slot whose flag is set, and no two slots have the flag.
pub record IsValid (s : Wm) : Type 0 where
  pub counted : s.win_count ≡ count_active s.windows max_windows
  pub flagged : (i : ℕ) → s.focused ≡ some i → (i < max_windows) × ((s.windows i).focused ≡ true)
  pub single : (i j : ℕ) → (s.windows i).focused ≡ true → (s.windows j).focused ≡ true → i ≡ j

-- `t` differs from `s` in the geometry, the states and the drag, and may have lost the focus.
record Keeps (s t : Wm) : Type 0 where
  actives : (i : ℕ) → (t.windows i).active ≡ (s.windows i).active
  flags : (i : ℕ) → (t.windows i).focused ≡ (s.windows i).focused
  focus : (i : ℕ) → t.focused ≡ some i → s.focused ≡ some i
  count : t.win_count ≡ s.win_count

Keeps-IsValid : (s t : Wm) → Keeps s t → IsValid s → IsValid t
Keeps-IsValid s t k v = record {
  counted =
      k.count
      ∙ v.counted
      ∙ sym (count_active_same s.windows t.windows max_windows (λ i l. k.actives i));
  flagged = λ i e. let (a, b) = v.flagged i (k.focus i e) in (a, k.flags i ∙ b);
  single = λ i j a b. v.single i j (sym (k.flags i) ∙ a) (sym (k.flags j) ∙ b);
}

-- A change of a window that leaves these two fields.
abbrev pub Mild : (Window → Window) → Type 0
Mild f = (win : Window) → ((f win).active ≡ win.active) × ((f win).focused ≡ win.focused)

change-Keeps : (s : Wm) (p : ℕ) (f : Window → Window) → Mild f → Keeps s (change s p f)
change-Keeps s p f m = record {
  actives = λ i. elim (Bool-cases (p == i)) [
    | inl same ↦
        let e : p ≡ i = ground arith in
        rw same (
          ap (λ q. (f (s.windows p)).active) {x = p} {y = i} e
          ∙ (m (s.windows p)).0
          ∙ ap (λ q. (s.windows q).active) e)
    | inr other ↦ rw other refl
  ];
  flags = λ i. elim (Bool-cases (p == i)) [
    | inl same ↦
        let e : p ≡ i = ground arith in
        rw same ((m (s.windows p)).1 ∙ ap (λ q. (s.windows q).focused) e)
    | inr other ↦ rw other refl
  ];
  focus = λ i e. e;
  count = refl;
}

pub change-IsValid :
    (s : Wm) (p : ℕ) (f : Window → Window) → Mild f → IsValid s → IsValid (change s p f)
change-IsValid s p f m v = Keeps-IsValid s (change s p f) (change-Keeps s p f m) v

pub wm_init-IsValid : (s : Wm) → IsValid (wm_init s)
unfolding wm_init count_active
wm_init-IsValid s = record {
  counted = refl;
  flagged = λ i e. absurd (ground arith);
  single = λ i j a b. absurd (ground arith);
}

focus_active : (s : Wm) (i j : ℕ) → ((wm_focus s (some i)).windows j).active ≡ (s.windows j).active
unfolding wm_focus
focus_active s i j = elim (Bool-cases (i == j)) [
  | inl same ↦ let e : i ≡ j = ground arith in rw same (ap (λ q. (s.windows q).active) e)
  | inr other ↦ rw other refl
]

focus_flag : (s : Wm) (i j : ℕ) → ((wm_focus s (some i)).windows j).focused ≡ (i == j)
unfolding wm_focus
focus_flag s i j = elim (Bool-cases (i == j)) [
  | inl same ↦ rw same refl
  | inr other ↦ rw other refl
]

-- The focus is the one that the call sets, whatever it was.
focus-IsValid :
    (s : Wm) (i : ℕ)
    → i < max_windows
    → s.win_count ≡ count_active s.windows max_windows
    → IsValid (wm_focus s (some i))
focus-IsValid s i lt c = record {
  counted =
      unfold wm_focus in
      c
      ∙ sym (
          count_active_same s.windows (wm_focus s (some i)).windows max_windows
            (λ j l. focus_active s i j));
  flagged = λ j e.
      let same : i ≡ j = unfold wm_focus in ground arith in
      (omega (arith, same), focus_flag s i j ∙ ground (arith, same));
  single = λ j k a b. ground (arith, focus_flag s i j, focus_flag s i k, a, b);
}

pub wm_focus-IsValid :
    (s : Wm) (i : ℕ) → i < max_windows → IsValid s → IsValid (wm_focus s (some i))
wm_focus-IsValid s i lt v = focus-IsValid s i lt v.counted

pub wm_restore_or_focus-IsValid :
    (s : Wm) (i : ℕ) → i < max_windows → IsValid s → IsValid (wm_restore_or_focus s i)
unfolding wm_restore_or_focus
wm_restore_or_focus-IsValid s i lt v =
    elim (Bool-cases ((s.windows i).focused && not (is_minimized (s.windows i).state))) [
      | inl hide ↦
          let w = change-IsValid s i (with_state minimized) (λ win. (refl, refl)) v in
          rw hide (record {
            counted = w.counted;
            flagged = λ j e. absurd (ground arith);
            single = w.single;
          })
      | inr show ↦ rw show (wm_focus-IsValid s i lt v)
    ]

pub unfocus_if-some : (o : Option ℕ) (i j : ℕ) → unfocus_if o i ≡ some j → o ≡ some j
unfocus_if-some none i j e = e
unfocus_if-some (some k) i j e = ground arith

destroy_Marks :
    (s : Wm) (i : ℕ)
    → Marks s.windows (update s.windows i (record (s.windows i) { active = false })) i false
destroy_Marks s i j = elim (Bool-cases (i == j)) [
  | inl same ↦ rw same refl
  | inr other ↦ rw other refl
]

destroy_flag :
    (s : Wm) (i j : ℕ)
    → (update s.windows i (record (s.windows i) { active = false }) j).focused
      ≡ (s.windows j).focused
destroy_flag s i j = elim (Bool-cases (i == j)) [
  | inl same ↦ let e : i ≡ j = ground arith in rw same (ap (λ q. (s.windows q).focused) e)
  | inr other ↦ rw other refl
]

pub wm_destroy-IsValid : (s : Wm) (i : ℕ) → i < max_windows → IsValid s → IsValid (wm_destroy s i)
unfolding wm_destroy
wm_destroy-IsValid s i lt v = elim (Bool-cases (s.windows i).active) [
  | inr gone ↦ rw gone v
  | inl here ↦
      let ws = update s.windows i (record (s.windows i) { active = false }) in
      let closed = count_active_close s.windows ws i max_windows (destroy_Marks s i) here lt in
      let bound = count_active_le s.windows max_windows in
      rw here (record {
        counted = omega (arith, closed, bound, v.counted);
        flagged = λ j e.
            let (a, b) = v.flagged j (unfocus_if-some s.focused i j e) in
            (a, destroy_flag s i j ∙ b);
        single =
            λ j k a b. v.single j k (sym (destroy_flag s i j) ∙ a) (sym (destroy_flag s i k) ∙ b);
      })
]

pub find_slot_lem :
    (ws : ℕ → Window) (n i k : ℕ)
    → find_slot ws n i ≡ some k
    → (i ≤ k) × (k < i + n) × ((ws k).active ≡ false)
unfolding find_slot
find_slot_lem ws zero i k e = absurd (ground arith)
find_slot_lem ws (suc n) i k e = elim (Bool-cases (ws i).active) [
  | inl busy ↦
      let (a, b, c) = find_slot_lem ws n (i + 1) k (ground arith) in (omega arith, omega arith, c)
  | inr free ↦
      let same : i ≡ k = ground arith in
      (omega arith, omega arith, sym (ap (λ q. (ws q).active) same) ∙ free)
]

pub place-IsValid :
    (s : Wm) (i : ℕ) (win : Window)
    → win.active ≡ true
    → (s.windows i).active ≡ false
    → i < max_windows
    → IsValid s
    → IsValid (place s i win)
place-IsValid s i win on off lt v =
    let ws = update s.windows i win in
    let marked : Marks s.windows ws i true =
      λ j. elim (Bool-cases (i == j)) [ inl same ↦ rw same on | inr other ↦ rw other refl ] in
    let opened = count_active_open s.windows ws i max_windows marked off lt in
    let bound = count_active_le ws max_windows in
    focus-IsValid (record s { windows = ws; win_count = u32 (s.win_count + 1) }) i lt
      (omega (arith, opened, bound, v.counted))

pub wm_create-IsValid :
    (limit : ℕ) (s : Wm) (title : Option (List ℕ)) (x y w h : ℤ)
    → IsValid s
    → IsValid (wm_create limit s title x y w h).1
unfolding wm_create
wm_create-IsValid limit s title x y w h v = elim (Bool-cases (leb limit s.win_count)) [
  | inl full ↦ rw full v
  | inr room ↦ elim (Option-cases (find_slot s.windows max_windows 0)) [
    | inl none_left ↦ rw (room, none_left) v
    | inr (i, found) ↦
        let (a, b, c) = find_slot_lem s.windows max_windows 0 i found in
        rw (room, found) (place-IsValid s i (new_window title x y w h) refl c (omega arith) v)
  ]
]
