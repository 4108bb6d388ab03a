-- ===== src/Drivers/Framebuffer/Lines.antt =====
-- The loop of `fb_draw_line` in drivers/framebuffer/framebuffer.c: every round comes nearer to the end.
use h3os.Base.{◌^◌, ℕ, ◌≤◌, if◌then◌else◌}
use h3os.Base.Int.{ℤ, ◌-ℤ◌, pos_part, neg_part, ltb_ℤ}
use h3os.Drivers.Framebuffer.LineError.{Ahead, ErrIs}

-- Where the pen is, `a` and `b` steps from the end.
abbrev Going : (d e : ℕ) (sx sy x1 y1 : ℤ) → ℤ × ℤ × ℤ → ℕ → ℕ → Type 0
Going d e sx sy x1 y1 (x, y, err) a b =
    Ahead sx x a x1 × Ahead sy y b y1 × ErrIs d e err a b × (a ≤ d) × (b ≤ e)

-- The sizes and directions that `fb_draw_line` starts with.
abbrev fall : ℤ → ℤ → ℤ
fall a b = if ltb_ℤ a b then a -ℤ b else b -ℤ a

-- A coordinate between -2^28 and 2^28.
abbrev pub Near : ℤ → Type 0
Near v = (pos_part v ≤ 2 ^ 28) × (neg_part v ≤ 2 ^ 28)
