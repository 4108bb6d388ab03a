-- ===== src/Drivers/Framebuffer/Rects.antt =====
-- `fb_fill_rect` of drivers/framebuffer/framebuffer.c: which pixels it paints.
use h3os.Base.{
  ℕ, ◌+◌, ◌^◌, ◌≤◌, ◌<◌, Bool, false, ◌&&◌, ◌||◌, if◌then◌else◌, ◌≡◌, refl, sym, ap, ◌∙◌, arith,
  Bool-cases, inl, inr,
}
use mathlib.Core.Path.{subst}
use h3os.Base.Int.{ℤ, pos, negsuc, ◌+ℤ◌, pos_part, ltb_ℤ, +ℤ_parts}
use h3os.Base.Loops.{for_range_inv}
use h3os.Drivers.Framebuffer.{
  Surface, off_screen, fb_put_pixel, fb_get_pixel, fill_row, fb_fill_rect,
}
use h3os.Drivers.Framebuffer.Draw.{is_same, leb_ℤ}
use h3os.Drivers.Framebuffer.Pixels.{I32, IsValid, fb_get_pixel-fb_put_pixel, fb_put_pixel-keeps}

-- `x'` is one of the `n` coordinates from `x` on.
abbrev pub in_span : ℤ → ℕ → ℤ → Bool
in_span x n x' = leb_ℤ x x' && ltb_ℤ x' (x +ℤ pos n)

in_span-zero : (x x' : ℤ) → in_span x 0 x' ≡ false
in_span-zero x x' = let sum = +ℤ_parts x (pos 0) in ground arith

in_span-suc :
    (x x' : ℤ) (n : ℕ) → (in_span x n x' || is_same (x +ℤ pos n) x') ≡ in_span x (n + 1) x'
in_span-suc x x' n =
    let sum = +ℤ_parts x (pos n) in let next = +ℤ_parts x (pos (n + 1)) in ground arith

pub I32-step : (x : ℤ) (n k : ℕ) → I32 x → k < n → pos_part x + n ≤ 2 ^ 31 → I32 (x +ℤ pos k)
unfolding I32 ◌+ℤ◌
I32-step (pos x) n k c lt room = ground arith
I32-step (negsuc x) n k c lt room = ground arith

widen : (a b c d : Bool) → (a || b) ≡ c → ((a && d) || (b && d)) ≡ (c && d)
widen a b c d e = ground arith

widen' : (a b c d : Bool) → (a || b) ≡ c → ((a && d) || (d && b)) ≡ (c && d)
widen' a b c d e = ground arith

-- What the pixel (x', y') shows: the colour if it was touched.
abbrev Paints : (x' y' : ℤ) (s t : Surface) → Bool → ℕ → Type 0
Paints x' y' s t touched color =
    (t.g_fb ≡ s.g_fb)
    × (fb_get_pixel t x' y' ≡ (
        if off_screen s.g_fb x' y' then 0 else (if touched then color else fb_get_pixel s x' y')))

paint_again :
    (off a b : Bool) (color old mid : ℕ)
    → mid ≡ (if off then 0 else (if a then color else old))
    → (if off then 0 else (if b then color else mid))
      ≡ (if off then 0 else (if a || b then color else old))
paint_again off a b color old mid e = ground arith

module _ (x' y' : ℤ) (color : ℕ) where
  Paints-none : (s : Surface) → Paints x' y' s s false color
  unfolding fb_get_pixel
  Paints-none s = (
    refl,
    elim (Bool-cases (off_screen s.g_fb x' y')) [ inl off ↦ rw off refl | inr on ↦ rw on refl ],
  )

  Paints-trans :
      (s t u : Surface) (a b : Bool)
      → Paints x' y' s t a color
      → Paints x' y' t u b color
      → Paints x' y' s u (a || b) color
  Paints-trans s t u a b (e, h) (f, k) =
      let same : off_screen t.g_fb x' y' ≡ off_screen s.g_fb x' y' =
        ap (λ fb. off_screen fb x' y') e in
      (
        f ∙ e,
        k
            ∙ (ap (λ off. if off then 0 else (if b then color else fb_get_pixel t x' y')) same
                ∙ paint_again (off_screen s.g_fb x' y') a b color (fb_get_pixel s x' y')
                    (fb_get_pixel t x' y') h),
      )

  module _ (s : Surface) (v : IsValid s.g_fb) (cx' : I32 x') (cy' : I32 y') where
    Paints-put :
        (t : Surface) (x y : ℤ)
        → t.g_fb ≡ s.g_fb
        → I32 x
        → I32 y
        → Paints x' y' t (fb_put_pixel t x y color) (is_same x x' && is_same y y') color
    Paints-put t x y e cx cy = (
      fb_put_pixel-keeps t x y color,
      fb_get_pixel-fb_put_pixel t x y x' y' color (subst IsValid (sym e) v) cx cy cx' cy',
    )

    Paints-row :
        (t : Surface) (x y : ℤ) (n : ℕ)
        → t.g_fb ≡ s.g_fb
        → I32 x
        → I32 y
        → pos_part x + n ≤ 2 ^ 31
        → Paints x' y' t (fill_row t x y n color) (in_span x n x' && is_same y y') color
    unfolding fill_row
    Paints-row t x y n e cx cy room =
        for_range_inv (λ k u. Paints x' y' t u (in_span x k x' && is_same y y') color) _ n 0 n t
          (omega arith)
          (λ k u above below painted.
            let grown : ((in_span x k x' && is_same y y')
                  || (is_same (x +ℤ pos k) x' && is_same y y'))
                ≡ (in_span x (k + 1) x' && is_same y y') =
              widen _ _ _ _ (in_span-suc x x' k) in
            subst (λ b. Paints x' y' t (fb_put_pixel u (x +ℤ pos k) y color) b color) grown
              (Paints-trans t u (fb_put_pixel u (x +ℤ pos k) y color) _ _ painted
                (Paints-put u (x +ℤ pos k) y (painted.0 ∙ e) (I32-step x n k cx below room) cy)))
          (subst (λ b. Paints x' y' t t b color)
            (sym (ap (λ b. b && is_same y y') (in_span-zero x x'))) (Paints-none t))

    Paints-rect :
        (x y w h : ℤ)
        → I32 x
        → I32 y
        → pos_part x + pos_part w ≤ 2 ^ 31
        → pos_part y + pos_part h ≤ 2 ^ 31
        → Paints x' y' s
            (fb_fill_rect s x y w h color)
            (in_span y (pos_part h) y' && in_span x (pos_part w) x')
            color
    unfolding fb_fill_rect
    Paints-rect x y w h cx cy room_x room_y =
        let n = pos_part h in
        let inside = in_span x (pos_part w) x' in
        for_range_inv (λ k u. Paints x' y' s u (in_span y k y' && inside) color) _ n 0 n s
          (omega arith)
          (λ k u above below painted.
            let row = fill_row u x (y +ℤ pos k) (pos_part w) color in
            let grown : ((in_span y k y' && inside) || (inside && is_same (y +ℤ pos k) y'))
                ≡ (in_span y (k + 1) y' && inside) =
              widen' _ _ _ _ (in_span-suc y y' k) in
            subst (λ b. Paints x' y' s row b color) grown
              (Paints-trans s u row _ _ painted (
                Paints-row u x (y +ℤ pos k) (pos_part w) painted.0 cx
                  (I32-step y n k cy below room_y) room_x)))
          (subst (λ b. Paints x' y' s s b color) (sym (ap (λ b. b && inside) (in_span-zero y y')))
            (Paints-none s))

-- On a valid surface `fb_fill_rect` paints the pixels of the rectangle that are on the screen and no
-- others, for a rectangle that begins at coordinates of an i32 and does not end beyond them; a size
-- that is not positive paints nothing.
pub fb_fill_rect_lem :
    (s : Surface) (x y w h x' y' : ℤ) (color : ℕ)
    → IsValid s.g_fb
    → I32 x
    → I32 y
    → pos_part x + pos_part w ≤ 2 ^ 31
    → pos_part y + pos_part h ≤ 2 ^ 31
    → I32 x'
    → I32 y'
    → fb_get_pixel (fb_fill_rect s x y w h color) x' y' ≡ (
        if off_screen s.g_fb x' y'
        then 0
        else (if in_span y (pos_part h) y' && in_span x (pos_part w) x'
            then color
            else fb_get_pixel s x' y'))
fb_fill_rect_lem s x y w h x' y' color v cx cy room_x room_y cx' cy' =
    (Paints-rect x' y' color s v cx' cy' x y w h cx cy room_x room_y).1
