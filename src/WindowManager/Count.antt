-- ===== src/WindowManager/Count.antt =====
-- Counting the windows of the table.
use h3os.Base.{
  ℕ, zero, suc, ◌+◌, ◌≡◌, ◌≤◌, ◌<◌, refl, arith, Bool, true, false, if◌then◌else◌, ◌==◌,
}
use h3os.WindowManager.{Window}

-- How many of the first `n` slots hold a window.
unfoldable pub count_active : (ℕ → Window) → ℕ → ℕ
count_active ws zero = 0
count_active ws (suc n) = count_active ws n + (if (ws n).active then 1 else 0)

pub count_active_le : (ws : ℕ → Window) (n : ℕ) → count_active ws n ≤ n
unfolding count_active
count_active_le ws zero = omega arith
count_active_le ws (suc n) = ground (arith, count_active_le ws n)

pub count_active_same :
    (ws vs : ℕ → Window) (n : ℕ)
    → ((i : ℕ) → i < n → (vs i).active ≡ (ws i).active)
    → count_active vs n ≡ count_active ws n
unfolding count_active
count_active_same ws vs zero h = refl
count_active_same ws vs (suc n) h =
    ground (arith, h n (omega arith), count_active_same ws vs n (λ i l. h i (omega arith)))

-- `vs` is `ws` with the slot `p` made active or not.
abbrev pub Marks : (ℕ → Window) → (ℕ → Window) → ℕ → Bool → Type 0
Marks ws vs p v = (i : ℕ) → (vs i).active ≡ (if p == i then v else (ws i).active)

count_active_outside :
    (ws vs : ℕ → Window) (p n : ℕ) (v : Bool)
    → Marks ws vs p v
    → n ≤ p
    → count_active vs n ≡ count_active ws n
count_active_outside ws vs p n v w h = count_active_same ws vs n (λ i l. ground (arith, w i))

pub count_active_open :
    (ws vs : ℕ → Window) (p n : ℕ)
    → Marks ws vs p true
    → (ws p).active ≡ false
    → p < n
    → count_active vs n ≡ count_active ws n + 1
unfolding count_active
count_active_open ws vs p zero w c h = absurd (omega arith)
count_active_open ws vs p (suc n) w c h =
    ground (arith, w n, count_active_open ws vs p n w c, count_active_outside ws vs p n _ w)

pub count_active_close :
    (ws vs : ℕ → Window) (p n : ℕ)
    → Marks ws vs p false
    → (ws p).active ≡ true
    → p < n
    → count_active vs n + 1 ≡ count_active ws n
unfolding count_active
count_active_close ws vs p zero w c h = absurd (omega arith)
count_active_close ws vs p (suc n) w c h =
    ground (arith, w n, count_active_close ws vs p n w c, count_active_outside ws vs p n _ w)
