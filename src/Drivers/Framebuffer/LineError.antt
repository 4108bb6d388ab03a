-- ===== src/Drivers/Framebuffer/LineError.antt =====
-- The steps and the error of `fb_draw_line` in drivers/framebuffer/framebuffer.c: what the error says of
-- the steps that are left, and the range that it stays in.
use h3os.Base.{
  ◌^◌, ◌==◌, ◌||◌, ℕ, zero, suc, ◌+◌, ◌*◌, ◌≤◌, ◌<◌, true, false, ◌&&◌, ◌≡◌, refl, arith,
  Bool-cases, ◌⊎◌, inl, inr,
}
use h3os.Base.Int.{ℤ, pos, negsuc, ◌+ℤ◌, pos_part, neg_part, +ℤ_parts, eq_of_parts, int_laws}
use h3os.Drivers.Framebuffer.Draw.{is_i32, line_fits, line_step, is_same, leb_ℤ, one}

-- The coordinate `x1` is `a` steps of `step` away from `x`.
abbrev pub Ahead : ℤ → ℤ → ℕ → ℤ → Type 0
Ahead step x a x1 =
    ((step ≡ one) × (pos_part x + a + neg_part x1 ≡ pos_part x1 + neg_part x))
    ⊎ ((step ≡ negsuc 0) × (pos_part x1 + a + neg_part x ≡ pos_part x + neg_part x1))

pub Ahead-step : (step x x1 : ℤ) (a : ℕ) → Ahead step x (suc a) x1 → Ahead step (x +ℤ step) a x1
Ahead-step step x x1 a (inl (e, h)) = inl (e, rw e (let sum = +ℤ_parts x one in omega arith))
Ahead-step step x x1 a (inr (e, h)) = inr (e, rw e (let sum = +ℤ_parts x (negsuc 0) in omega arith))

Ahead-zero : (step x x1 : ℤ) → Ahead step x 0 x1 → x ≡ x1
Ahead-zero step x x1 (inl (e, h)) = eq_of_parts x x1 (omega arith)
Ahead-zero step x x1 (inr (e, h)) = eq_of_parts x x1 (omega arith)

is_same_refl : (x : ℤ) → is_same x x ≡ true
is_same_refl x = ground arith

module _ {sx sy : ℤ} (x x1 y y1 : ℤ) where
  pub not_there :
      (a b : ℕ)
      → Ahead sx x a x1
      → Ahead sy y b y1
      → (is_same x x1 && is_same y y1) ≡ false
      → 0 < a + b
  not_there zero zero hx hy on =
      let ex : is_same x x1 ≡ true = rw (Ahead-zero sx x x1 hx) (is_same_refl x1) in
      let ey : is_same y y1 ≡ true = rw (Ahead-zero sy y y1 hy) (is_same_refl y1) in ground arith
  not_there zero (suc b) hx hy on = omega arith
  not_there (suc a) b hx hy on = omega arith

-- The error is that of a line of D by E with `a` and `b` steps left.
abbrev pub ErrIs : (d e : ℕ) → ℤ → (a b : ℕ) → Type 0
ErrIs d e err a b = pos_part err + e + b * d ≡ neg_part err + d + a * e

module _ (d e : ℕ) (dy err : ℤ) (low : pos_part dy ≡ 0) (high : neg_part dy ≡ e) where
  pub right_err : (a b : ℕ) → ErrIs d e err (suc a) b → ErrIs d e (err +ℤ dy) a b
  right_err a b h = omega int_laws

  pub down_err : (a b : ℕ) → ErrIs d e err a (suc b) → ErrIs d e (err +ℤ pos d) a b
  down_err a b h = omega int_laws

  -- Without steps to the side there is none; with no steps down left neither.
  pub only_down :
      (b : ℕ)
      → suc b ≤ e
      → ErrIs d e err 0 (suc b)
      → (leb_ℤ dy (err +ℤ err) ≡ false) × (leb_ℤ (err +ℤ err) (pos d) ≡ true)
  only_down b le h = let twice = +ℤ_parts err err in (ground arith, ground arith)

  pub only_right :
      (a : ℕ)
      → suc a ≤ d
      → ErrIs d e err (suc a) 0
      → (leb_ℤ dy (err +ℤ err) ≡ true) × (leb_ℤ (err +ℤ err) (pos d) ≡ false)
  only_right a le h = let twice = +ℤ_parts err err in (ground arith, ground arith)

  pub some_step : leb_ℤ dy (err +ℤ err) ≡ false → leb_ℤ (err +ℤ err) (pos d) ≡ true
  some_step h = let twice = +ℤ_parts err err in ground arith

-- One part of a number is zero.
pub parts_apart : (v : ℤ) → ((pos_part v == 0) || (neg_part v == 0)) ≡ true
parts_apart v = ground arith

-- Twice the error lies between -3 E and 3 D.
abbrev pub Bounded : (d e : ℕ) → ℤ → Type 0
Bounded d e err =
    (2 * pos_part err ≤ 3 * d + 2 * neg_part err) × (2 * neg_part err ≤ 3 * e + 2 * pos_part err)

module _ (d e : ℕ) (dy err : ℤ) (low : pos_part dy ≡ 0) (high : neg_part dy ≡ e)
    (small_d : d ≤ 2 ^ 29) (small_e : e ≤ 2 ^ 29) where
  Bounded-is_i32 : (v : ℤ) → Bounded d e v → (is_i32 (v +ℤ v) ≡ true) × (is_i32 v ≡ true)
  Bounded-is_i32 v (u, l) =
      let twice = +ℤ_parts v v in
      let one_zero = parts_apart v in
      let two_zero = parts_apart (v +ℤ v) in (ground arith, ground arith)

  -- The errors of a round are bounded.
  right_Bounded : leb_ℤ dy (err +ℤ err) ≡ true → Bounded d e err → Bounded d e (err +ℤ dy)
  right_Bounded r (u, l) =
      let twice = +ℤ_parts err err in let sum = +ℤ_parts err dy in (ground arith, ground arith)

  down_Bounded : leb_ℤ dy (err +ℤ err) ≡ false → Bounded d e err → Bounded d e (err +ℤ pos d)
  down_Bounded r (u, l) =
      let twice = +ℤ_parts err err in let sum = +ℤ_parts err (pos d) in (ground arith, ground arith)

  both_Bounded :
      leb_ℤ dy (err +ℤ err) ≡ true
      → leb_ℤ (err +ℤ err) (pos d) ≡ true
      → Bounded d e (err +ℤ dy +ℤ pos d)
  both_Bounded r m =
      let twice = +ℤ_parts err err in
      let sum = +ℤ_parts err dy in
      let sum' = +ℤ_parts (err +ℤ dy) (pos d) in (ground arith, ground arith)

  pub round_fits :
      (sx sy x y : ℤ)
      → Bounded d e err
      → (line_fits (pos d) dy err ≡ true) × Bounded d e (line_step (pos d) dy sx sy (x, y, err)).2
  unfolding line_fits line_step
  round_fits sx sy x y h =
      let (twice, self) = Bounded-is_i32 err h in
      elim (Bool-cases (leb_ℤ dy (err +ℤ err))) [
        | inl r ↦
            let right = right_Bounded r h in
            let (_, moved) = Bounded-is_i32 (err +ℤ dy) right in
            elim (Bool-cases (leb_ℤ (err +ℤ err) (pos d))) [
              | inl m ↦
                  let both = both_Bounded r m in
                  let (_, last) = Bounded-is_i32 (err +ℤ dy +ℤ pos d) both in
                  rw (r, m, twice, moved, last) (refl, both)
              | inr m ↦ rw (r, m, twice, moved) (refl, right)
            ]
        | inr r ↦
            let m = some_step d e dy err low high r in
            let down = down_Bounded r h in
            let (_, moved) = Bounded-is_i32 (err +ℤ pos d) down in
            rw (r, m, twice, self, moved) (refl, down)
      ]
