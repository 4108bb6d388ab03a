-- ===== src/Drivers/Framebuffer/Draw.antt =====
-- drivers/framebuffer/framebuffer.c, the rest of the drawing: outlines, lines, rounded rectangles, images
-- and text. The line's loop runs on fuel and stops without a result where an `i32` would
-- overflow; the products of `in_rounded_corner` are exact.
use h3os.Base.{
  ℕ, zero, suc, ◌+◌, ◌-◌, List, [], ◌∷◌, Bool, true, not, Option, none, some, ◌==◌, ◌&&◌, ◌||◌, ltb,
  leb, ◌^◌, if◌then◌else◌, get_or,
}
use h3os.Base.Bits.{get_bit}
use h3os.Base.Int.{ℤ, pos, negsuc, ◌+ℤ◌, ◌-ℤ◌, ◌*ℤ◌, pos_part, neg_part, ltb_ℤ}
use h3os.Base.Loops.{for_range}
use h3os.Drivers.Framebuffer.{Surface, fb_put_pixel, fb_fill_rect}
use h3os.Drivers.Framebuffer.Font.{font}

abbrev pub one : ℤ
one = pos 1

unfoldable pub fb_draw_rect : Surface → ℤ → ℤ → ℤ → ℤ → ℕ → Surface
fb_draw_rect s x y w h color =
    let across =
      for_range (pos_part w) 0
        (λ i t.
          fb_put_pixel (fb_put_pixel t (x +ℤ pos i) y color) (x +ℤ pos i) (y +ℤ h -ℤ one) color)
        s in
    for_range (pos_part h) 0
      (λ j t. fb_put_pixel (fb_put_pixel t x (y +ℤ pos j) color) (x +ℤ w -ℤ one) (y +ℤ pos j) color)
      across

abbrev pub leb_ℤ : ℤ → ℤ → Bool
leb_ℤ a b = not (ltb_ℤ b a)

abbrev pub is_same : ℤ → ℤ → Bool
is_same a b = leb_ℤ a b && leb_ℤ b a

-- One or the other step of the line, or both: where the pen and the error are afterwards.
unfoldable pub line_step : (dx dy sx sy : ℤ) → ℤ × ℤ × ℤ → ℤ × ℤ × ℤ
line_step dx dy sx sy (x, y, err) =
    let e2 = err +ℤ err in
    let right = leb_ℤ dy e2 in
    let down = leb_ℤ e2 dx in
    let err' = if right then err +ℤ dy else err in
    (if right then x +ℤ sx else x, if down then y +ℤ sy else y, if down then err' +ℤ dx else err')

abbrev pub is_i32 : ℤ → Bool
is_i32 v = ltb (pos_part v) (2 ^ 31) && leb (neg_part v) (2 ^ 31)

-- What a round computes from the error is an `i32`: its double, and the error after either step. The pen
-- stays between the two points.
unfoldable pub line_fits : (dx dy err : ℤ) → Bool
line_fits dx dy err =
    let e2 = err +ℤ err in
    let err' = if leb_ℤ dy e2 then err +ℤ dy else err in
    is_i32 e2 && is_i32 err' && is_i32 (if leb_ℤ e2 dx then err' +ℤ dx else err')

-- The loop of `fb_draw_line`; `none`: the fuel ran out, or the error overflowed.
unfoldable pub line_loop : ℕ → (dx dy sx sy x1 y1 : ℤ) → ℕ → ℤ × ℤ × ℤ → Surface → Option Surface
line_loop zero dx dy sx sy x1 y1 color (x, y, err) s = none
line_loop (suc fuel) dx dy sx sy x1 y1 color (x, y, err) s =
    let drawn = fb_put_pixel s x y color in
    let rest = line_loop fuel dx dy sx sy x1 y1 color (line_step dx dy sx sy (x, y, err)) drawn in
    if is_same x x1 && is_same y y1
    then some drawn
    else (if line_fits dx dy err then rest else none)

abbrev pub distance : ℤ → ℤ → ℤ
distance a b = if ltb_ℤ a b then b -ℤ a else a -ℤ b

abbrev pub direction : ℤ → ℤ → ℤ
direction a b = if ltb_ℤ a b then one else negsuc 0

-- `dy` is the negative distance; the fuel is a round for each step and one more. `none` also: a distance
-- or the first error overflowed.
unfoldable pub fb_draw_line : Surface → (x0 y0 x1 y1 : ℤ) → ℕ → Option Surface
fb_draw_line s x0 y0 x1 y1 color =
    let dx = distance x0 x1 in
    let dy = if ltb_ℤ y0 y1 then y0 -ℤ y1 else y1 -ℤ y0 in
    let drawn =
      line_loop (suc (pos_part dx + neg_part dy)) dx dy (direction x0 x1) (direction y0 y1) x1 y1
        color (x0, y0, dx +ℤ dy) s in
    if is_i32 dx && is_i32 dy && is_i32 (dx +ℤ dy) then drawn else none

-- Whether the pixel stays, by the centre of the corner that it is in.
abbrev in_circle : (px py cx cy r : ℤ) → Bool
in_circle px py cx cy r =
    let dx = px -ℤ cx in let dy = py -ℤ cy in leb_ℤ (dx *ℤ dx +ℤ dy *ℤ dy) (r *ℤ r)

unfoldable pub in_rounded_corner : (px py x y w h r : ℤ) → Bool
in_rounded_corner px py x y w h r =
    let left = x +ℤ r in
    let top = y +ℤ r in
    let right = x +ℤ w -ℤ r in
    let bottom = y +ℤ h -ℤ r in
    if ltb_ℤ px left && ltb_ℤ py top
    then in_circle px py left top r
    else (if leb_ℤ right px && ltb_ℤ py top
        then in_circle px py (right -ℤ one) top r
        else (if ltb_ℤ px left && leb_ℤ bottom py
            then in_circle px py left (bottom -ℤ one) r
            else (if leb_ℤ right px && leb_ℤ bottom py
                then in_circle px py (right -ℤ one) (bottom -ℤ one) r
                else true)))

unfoldable pub fb_fill_rounded_rect : Surface → (x y w h r : ℤ) → ℕ → Surface
fb_fill_rounded_rect s x y w h r color =
    if leb_ℤ r (pos 0)
    then fb_fill_rect s x y w h color
    else for_range (pos_part h) 0
        (λ j t.
          for_range (pos_part w) 0
            (λ i u.
              if in_rounded_corner (x +ℤ pos i) (y +ℤ pos j) x y w h r
              then fb_put_pixel u (x +ℤ pos i) (y +ℤ pos j) color
              else u)
            t)
        s

unfoldable pub fb_draw_rounded_rect : Surface → (x y w h r : ℤ) → ℕ → Surface
fb_draw_rounded_rect s x y w h r color = fb_draw_rect s x y w h color

-- The image is an array that `src_stride` may index from either end.
unfoldable pub fb_blit : Surface → (x y w h : ℤ) → (ℤ → ℕ) → ℤ → Surface
fb_blit s x y w h src src_stride =
    for_range (pos_part h) 0
      (λ j t.
        for_range (pos_part w) 0
          (λ i u. fb_put_pixel u (x +ℤ pos i) (y +ℤ pos j) (src (pos j *ℤ src_stride +ℤ pos i))) t)
      s

-- The background 0xFFFFFFFF is transparent.
unfoldable pub draw_column : Surface → ℤ → ℤ → (bits fg bg col : ℕ) → Surface
draw_column s x y bits fg bg col =
    let lit = get_bit bits col in
    if not (bg == 0xFFFFFFFF) || lit
    then fb_put_pixel s (x +ℤ pos col) y (if lit then fg else bg)
    else s

abbrev glyph_of : ℕ → List ℕ
glyph_of c = get_or font ((if ltb c 32 || ltb 127 c then 0x3F else c) - 32) []

unfoldable pub fb_draw_char : Surface → ℤ → ℤ → (c fg bg : ℕ) → Surface
fb_draw_char s x y c fg bg =
    for_range 8 0
      (λ row t.
        for_range 8 0
          (λ col u. draw_column u x (y +ℤ pos row) (get_or (glyph_of c) row 0) fg bg col) t)
      s

-- From the pen (cx, y), with the left margin x; the text ends at its NUL or at the list's end.
unfoldable pub draw_from : Surface → (x cx y : ℤ) → List ℕ → (fg bg : ℕ) → Surface
draw_from s x cx y [] fg bg = s
draw_from s x cx y (c ∷ text) fg bg =
    let below = draw_from s x x (y +ℤ pos 10) text fg bg in
    let beside = draw_from (fb_draw_char s cx y c fg bg) x (cx +ℤ pos 8) y text fg bg in
    if c == 0 then s else (if c == 10 then below else beside)

unfoldable pub fb_draw_string : Surface → ℤ → ℤ → List ℕ → (fg bg : ℕ) → Surface
fb_draw_string s x y text fg bg = draw_from s x x y text fg bg
