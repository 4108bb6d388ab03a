-- ===== src/Drivers/Framebuffer/Pixels.antt =====
-- Single pixels of drivers/framebuffer/framebuffer.c: what a written pixel reads as, that no other is
-- touched, and where in memory the writes are.
use h3os.Base.{
  ℕ, suc, ◌+◌, ◌*◌, ◌^◌, ◌≤◌, ◌<◌, true, false, ◌==◌, ◌&&◌, leb, if◌then◌else◌, u32, u64, ◌≡◌, refl,
  ap, arith, Bool-cases, ◌⊎◌, inl, inr,
}
use native.Mathlib.Nat.{mul-le-mul_right}
use h3os.Base.Int.{ℤ, pos, negsuc}
use h3os.Drivers.Framebuffer.{
  Fb, Surface, to_u32, base_of, pixel_at, off_screen, fb_put_pixel, fb_get_pixel,
}
use h3os.Drivers.Framebuffer.Draw.{is_same}

-- The coordinates that an i32 can have.
unfoldable pub I32 : ℤ → Type 0
I32 (pos n) = n < 2 ^ 31
I32 (negsuc n) = n < 2 ^ 31

-- A surface whose rows have room for their pixels and that lies in memory; what `fb_init` makes of a
-- sound mode.
abbrev pub IsValid : Fb → Type 0
IsValid fb =
    (fb.width < 2 ^ 31)
    × (fb.height < 2 ^ 31)
    × (4 * fb.width ≤ fb.pitch)
    × (base_of fb + fb.height * fb.pitch < 2 ^ 64)

abbrev OnScreen : ℕ → ℤ → Type 0
OnScreen size x = (i : ℕ) × (x ≡ pos i) × (i < size)

pub on_screen :
    (size : ℕ) (x : ℤ) → I32 x → size < 2 ^ 31 → leb size (to_u32 x) ≡ false → OnScreen size x
unfolding I32
on_screen size (pos i) small bound h = let low : u32 i ≡ i = omega arith in (i, refl, ground arith)
on_screen size (negsuc i) small bound h = absurd (ground arith)

compare_cases : (a b : ℕ) → (a < b) ⊎ ((a ≡ b) ⊎ (b < a))
compare_cases a b = omega arith

module _ (fb : Fb) (v : IsValid fb) where
  pub row_room :
      (i j : ℕ) → i < fb.width → j < fb.height → j * fb.pitch + 4 * i + 4 ≤ fb.height * fb.pitch
  row_room i j hi hj =
      let next : suc j * fb.pitch ≤ fb.height * fb.pitch = mul-le-mul_right fb.pitch hj in
      omega arith

  -- No address wraps.
  pub pixel_at_lem :
      (i j : ℕ)
      → i < fb.width
      → j < fb.height
      → pixel_at fb (pos i) (pos j) ≡ base_of fb + j * fb.pitch + 4 * i
  pixel_at_lem i j hi hj =
      let room = row_room i j hi hj in
      let column : u64 i ≡ i = omega arith in
      let row : u64 j ≡ j = omega arith in rw (column, row) omega arith

  far_row :
      (i j i' j' : ℕ)
      → i < fb.width
      → j < j'
      → base_of fb + j * fb.pitch + 4 * i < base_of fb + j' * fb.pitch + 4 * i'
  far_row i j i' j' hi lt =
      let next : suc j * fb.pitch ≤ j' * fb.pitch = mul-le-mul_right fb.pitch lt in omega arith

  pub pixel_at_apart :
      (i j i' j' : ℕ)
      → i < fb.width
      → j < fb.height
      → i' < fb.width
      → j' < fb.height
      → (pixel_at fb (pos i) (pos j) == pixel_at fb (pos i') (pos j')) ≡ ((i == i') && (j == j'))
  pixel_at_apart i j i' j' hi hj hi' hj' =
      rw (pixel_at_lem i j hi hj, pixel_at_lem i' j' hi' hj')
        (elim (compare_cases j j') [
          | inl lt ↦ let far = far_row i j i' j' hi lt in ground arith
          | inr (inl e) ↦
              let rows : j * fb.pitch ≡ j' * fb.pitch = ap (λ k. k * fb.pitch) e in ground arith
          | inr (inr lt) ↦ let far = far_row i' j' i j hi' lt in ground arith
        ])

pub fb_put_pixel-keeps :
    (s : Surface) (x y : ℤ) (color : ℕ) → (fb_put_pixel s x y color).g_fb ≡ s.g_fb
unfolding fb_put_pixel
fb_put_pixel-keeps s x y color = ground arith

is_same-pos : (i i' : ℕ) → is_same (pos i) (pos i') ≡ (i == i')
is_same-pos i i' = ground arith

is_same→eq : (x x' : ℤ) → is_same x x' ≡ true → x ≡ x'
is_same→eq x x' h = ground arith

module _ (fb : Fb) (v : IsValid fb) (x y : ℤ) (cx : I32 x) (cy : I32 y) where
  pub on_axes : off_screen fb x y ≡ false → OnScreen fb.width x × OnScreen fb.height y
  on_axes on =
      (on_screen fb.width x cx v.0 (ground arith), on_screen fb.height y cy v.1 (ground arith))

module _ (s : Surface) (v : IsValid s.g_fb) (x y x' y' : ℤ) (color : ℕ) where
  off_untouched :
      off_screen s.g_fb x y ≡ true
      → off_screen s.g_fb x' y' ≡ false
      → (is_same x x' && is_same y y') ≡ false
  off_untouched off on = elim (Bool-cases (is_same x x')) [
    | inr h ↦ rw h refl
    | inl h ↦ elim (Bool-cases (is_same y y')) [
      | inr k ↦ ground arith
      | inl k ↦
          let same : off_screen s.g_fb x' y' ≡ true =
            rw (← is_same→eq x x' h, ← is_same→eq y y' k) off in
          absurd (ground arith)
    ]
  ]

  on_touched :
      I32 x
      → I32 y
      → I32 x'
      → I32 y'
      → off_screen s.g_fb x y ≡ false
      → off_screen s.g_fb x' y' ≡ false
      → (pixel_at s.g_fb x y == pixel_at s.g_fb x' y') ≡ (is_same x x' && is_same y y')
  on_touched cx cy cx' cy' on on' =
      let ((i, ei, hi), (j, ej, hj)) = on_axes s.g_fb v x y cx cy on in
      let ((i', ei', hi'), (j', ej', hj')) = on_axes s.g_fb v x' y' cx' cy' on' in
      rw (ei, ej, ei', ej', is_same-pos i i', is_same-pos j j')
        (pixel_at_apart s.g_fb v i j i' j' hi hj hi' hj')

-- On a valid surface a pixel written on the screen reads as the colour and every other pixel as before;
-- one off the screen reads as 0, and writing it changes none.
pub fb_get_pixel-fb_put_pixel :
    (s : Surface) (x y x' y' : ℤ) (color : ℕ)
    → IsValid s.g_fb
    → I32 x
    → I32 y
    → I32 x'
    → I32 y'
    → fb_get_pixel (fb_put_pixel s x y color) x' y' ≡ (
        if off_screen s.g_fb x' y'
        then 0
        else (if is_same x x' && is_same y y' then color else fb_get_pixel s x' y'))
unfolding fb_get_pixel fb_put_pixel
fb_get_pixel-fb_put_pixel s x y x' y' color v cx cy cx' cy' =
    elim (Bool-cases (off_screen s.g_fb x y)) [
      | inl off ↦ elim (Bool-cases (off_screen s.g_fb x' y')) [
        | inl off' ↦ rw (off, off') refl
        | inr on' ↦ rw (off, on', off_untouched s v x y x' y' color off on') refl
      ]
      | inr on ↦ elim (Bool-cases (off_screen s.g_fb x' y')) [
        | inl off' ↦ rw (on, off') refl
        | inr on' ↦ rw (on, on', on_touched s v x y x' y' color cx cy cx' cy' on on') refl
      ]
    ]
