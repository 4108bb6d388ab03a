-- ===== src/Drivers/Mouse/Pointer.antt =====
-- The packets of the mouse: where the pointer can be, and what a
-- whole packet does.
use h3os.Base.{
  ℕ, ◌+◌, ◌-◌, ◌^◌, ◌≡◌, ◌<◌, refl, ap, ◌∙◌, arith, true, false, not, List, [], ◌∷◌, ◌==◌, ◌&&◌,
  ◌||◌, ltb, Bool-cases, inl, inr,
}
use mathlib.Core.Path.{subst}
use h3os.Base.Bits.{get_bit}
use h3os.Base.Int.{ℤ, pos, ◌+ℤ◌, ◌-ℤ◌, ◌≤ℤ◌, to_i32}
use h3os.Drivers.Framebuffer.{Screen}
use h3os.Drivers.Mouse.{
  MouseState, Mouse, signed_byte, clamp, move_pointer, set_buttons, take_packet, store_byte,
  mouse_irq, mouse_init,
}

-- On the screen, and at most two bytes of a packet received.
pub record IsValid (fb : Screen) (s : Mouse) : Type 0 where
  pub in_packet : s.cycle < 3
  pub x_low : pos 0 ≤ℤ s.g_mouse.x
  pub x_high : s.g_mouse.x ≤ℤ pos (fb.width - 1)
  pub y_low : pos 0 ≤ℤ s.g_mouse.y
  pub y_high : s.g_mouse.y ≤ℤ pos (fb.height - 1)

-- A screen that the driver can clamp to.
pub record IsUsable (fb : Screen) : Type 0 where
  pub wide : 0 < fb.width
  pub high : 0 < fb.height
  pub width_i32 : fb.width < 2 ^ 31
  pub height_i32 : fb.height < 2 ^ 31

clamp_bounds :
    (v : ℤ) (n : ℕ)
    → 0 < n
    → n < 2 ^ 31
    → (pos 0 ≤ℤ clamp v (to_i32 n)) × (clamp v (to_i32 n) ≤ℤ pos (n - 1))
unfolding clamp ◌-ℤ◌
clamp_bounds v n lo hi = let e : to_i32 n ≡ pos n = ground arith in rw e (ground arith)

move_pointer_bounds :
    (fb : Screen) (dx dy : ℤ) (m : MouseState)
    → IsUsable fb
    → let m' = move_pointer fb dx dy m in
      (pos 0 ≤ℤ m'.x)
      × (m'.x ≤ℤ pos (fb.width - 1))
      × (pos 0 ≤ℤ m'.y)
      × (m'.y ≤ℤ pos (fb.height - 1))
unfolding move_pointer
move_pointer_bounds fb dx dy m u =
    let a : (fb.width == 0) ≡ false = ground (arith, u.wide) in
    let b : (fb.height == 0) ≡ false = ground (arith, u.high) in
    let (xl, xh) = clamp_bounds (m.x +ℤ dx) fb.width u.wide u.width_i32 in
    let (yl, yh) = clamp_bounds (m.y +ℤ dy) fb.height u.high u.height_i32 in
    rw (a, b) (xl, xh, yl, yh)

take_packet-IsValid :
    (fb : Screen) (s : Mouse) → IsUsable fb → IsValid fb s → IsValid fb (take_packet fb s)
unfolding take_packet set_buttons
take_packet-IsValid fb s u v =
    elim (Bool-cases (get_bit (s.packet 0) 6 || get_bit (s.packet 0) 7)) [
      | inl overflow ↦ rw overflow v
      | inr fine ↦
          let (a, b, c, d) =
            move_pointer_bounds fb (signed_byte (s.packet 1)) (pos 0 -ℤ signed_byte (s.packet 2))
              s.g_mouse u in
          rw fine (record { in_packet = v.in_packet; x_low = a; x_high = b; y_low = c; y_high = d })
    ]

irq-IsValid :
    (fb : Screen) (s : Mouse) (b : ℕ) → IsUsable fb → IsValid fb s → IsValid fb (mouse_irq fb s b)
unfolding mouse_irq
irq-IsValid fb s b u v = elim (Bool-cases (s.cycle == 0 && not (get_bit b 3))) [
  | inl lost ↦ rw lost v
  | inr sound ↦ elim (Bool-cases (ltb (s.cycle + 1) 3)) [
    | inl part ↦
        rw (sound, part)
          (record {
            in_packet = ground arith;
            x_low = v.x_low;
            x_high = v.x_high;
            y_low = v.y_low;
            y_high = v.y_high;
          })
    | inr whole ↦
        rw (sound, whole)
          (take_packet-IsValid fb (record (store_byte s b) { cycle = 0 }) u
            (record {
              in_packet = omega arith;
              x_low = v.x_low;
              x_high = v.x_high;
              y_low = v.y_low;
              y_high = v.y_high;
            }))
  ]
]

-- The interrupts of a list of bytes.
abbrev pub receive : Screen → Mouse → List ℕ → Mouse
receive fb s [] = s
receive fb s (b ∷ bs) = receive fb (mouse_irq fb s b) bs

receive-IsValid :
    (fb : Screen) (s : Mouse) (bs : List ℕ)
    → IsUsable fb
    → IsValid fb s
    → IsValid fb (receive fb s bs)
receive-IsValid fb s [] u v = v
receive-IsValid fb s (b ∷ bs) u v =
    receive-IsValid fb (mouse_irq fb s b) bs u (irq-IsValid fb s b u v)

-- On a screen larger than the point at which the pointer starts, and below 2^31 pixels each way: after
-- `mouse_init`, whatever bytes the mouse sends, the pointer is on the screen, and fewer than three
-- bytes of a packet are stored.
pub mouse_init-receive :
    (fb : Screen) (s : Mouse) (bs : List ℕ)
    → 640 < fb.width
    → 360 < fb.height
    → fb.width < 2 ^ 31
    → fb.height < 2 ^ 31
    → IsValid fb (receive fb (mouse_init s) bs)
unfolding mouse_init
mouse_init-receive fb s bs a b c d =
    receive-IsValid fb (mouse_init s) bs
      (record { wide = omega arith; high = omega arith; width_i32 = c; height_i32 = d })
      (record {
        in_packet = omega arith;
        x_low = omega arith;
        x_high = omega arith;
        y_low = omega arith;
        y_high = omega arith;
      })

-- The three bytes of a packet.
irq_first :
    (fb : Screen) (s : Mouse) (b : ℕ)
    → s.cycle ≡ 0
    → get_bit b 3 ≡ true
    → mouse_irq fb s b ≡ store_byte s b
unfolding mouse_irq
irq_first fb s b e sync =
    let p : (s.cycle == 0 && not (get_bit b 3)) ≡ false = ground (arith, e, sync) in
    let q : ltb (s.cycle + 1) 3 ≡ true = ground (arith, e) in rw (p, q) refl

irq_second : (fb : Screen) (s : Mouse) (b : ℕ) → s.cycle ≡ 1 → mouse_irq fb s b ≡ store_byte s b
unfolding mouse_irq
irq_second fb s b e =
    let p : (s.cycle == 0 && not (get_bit b 3)) ≡ false = ground (arith, e) in
    let q : ltb (s.cycle + 1) 3 ≡ true = ground (arith, e) in rw (p, q) refl

irq_third :
    (fb : Screen) (s : Mouse) (b : ℕ)
    → s.cycle ≡ 2
    → mouse_irq fb s b ≡ take_packet fb (record (store_byte s b) { cycle = 0 })
unfolding mouse_irq
irq_third fb s b e =
    let p : (s.cycle == 0 && not (get_bit b 3)) ≡ false = ground (arith, e) in
    let q : ltb (s.cycle + 1) 3 ≡ false = ground (arith, e) in rw (p, q) refl

-- The state with these three bytes stored and none missing.
abbrev packed : Mouse → ℕ → ℕ → ℕ → Mouse
packed s a b c = record (store_byte (store_byte (store_byte s a) b) c) { cycle = 0 }

receive_three :
    (fb : Screen) (s : Mouse) (a b c : ℕ)
    → s.cycle ≡ 0
    → get_bit a 3 ≡ true
    → receive fb s (a ∷ b ∷ c ∷ []) ≡ take_packet fb (packed s a b c)
receive_three fb s a b c e sync =
    ap (λ t. mouse_irq fb (mouse_irq fb t b) c) (irq_first fb s a e sync)
    ∙ ap (λ t. mouse_irq fb t c) (irq_second fb (store_byte s a) b (omega (arith, e)))
    ∙ irq_third fb (store_byte (store_byte s a) b) c (omega (arith, e))

move_pointer_at :
    (fb : Screen) (dx dy : ℤ) (m : MouseState)
    → IsUsable fb
    → ((move_pointer fb dx dy m).x ≡ clamp (m.x +ℤ dx) (pos fb.width))
      × ((move_pointer fb dx dy m).y ≡ clamp (m.y +ℤ dy) (pos fb.height))
unfolding move_pointer
move_pointer_at fb dx dy m u =
    let a : (fb.width == 0) ≡ false = ground (arith, u.wide) in
    let b : (fb.height == 0) ≡ false = ground (arith, u.high) in
    let w : to_i32 fb.width ≡ pos fb.width = ground (arith, u.width_i32) in
    let h : to_i32 fb.height ≡ pos fb.height = ground (arith, u.height_i32) in
    rw (a, b) (ap (clamp (m.x +ℤ dx)) w, ap (clamp (m.y +ℤ dy)) h)

-- What a packet without overflow does.
record Moved (fb : Screen) (s : Mouse) (a b c : ℕ) (t : Mouse) : Type 0 where
  between : t.cycle ≡ s.cycle
  x_at : t.g_mouse.x ≡ clamp (s.g_mouse.x +ℤ signed_byte b) (pos fb.width)
  y_at : t.g_mouse.y ≡ clamp (s.g_mouse.y +ℤ (pos 0 -ℤ signed_byte c)) (pos fb.height)
  left_is : t.g_mouse.left ≡ get_bit a 0
  right_is : t.g_mouse.right ≡ get_bit a 1
  middle_is : t.g_mouse.middle ≡ get_bit a 2
  pressed : t.g_mouse.left_pressed ≡ (s.g_mouse.left_pressed || get_bit a 0 && not s.prev_left)

take_packet-Moved :
    (fb : Screen) (s : Mouse)
    → IsUsable fb
    → (get_bit (s.packet 0) 6 || get_bit (s.packet 0) 7) ≡ false
    → Moved fb s (s.packet 0) (s.packet 1) (s.packet 2) (take_packet fb s)
unfolding take_packet set_buttons
take_packet-Moved fb s u fine =
    let (x, y) =
      move_pointer_at fb (signed_byte (s.packet 1)) (pos 0 -ℤ signed_byte (s.packet 2)) s.g_mouse
        u in
    rw fine (record {
      between = refl;
      x_at = x;
      y_at = y;
      left_is = refl;
      right_is = refl;
      middle_is = refl;
      pressed = kept;
    })
  where
    kept :
        ((move_pointer fb
            (signed_byte (s.packet 1))
            (pos 0 -ℤ signed_byte (s.packet 2))
            s.g_mouse).left_pressed
          || get_bit (s.packet 0) 0 && not s.prev_left)
        ≡ (s.g_mouse.left_pressed || get_bit (s.packet 0) 0 && not s.prev_left)
    kept = unfold move_pointer in refl

packed_bytes :
    (s : Mouse) (a b c : ℕ)
    → s.cycle ≡ 0
    → ((packed s a b c).packet 0 ≡ a)
      × ((packed s a b c).packet 1 ≡ b)
      × ((packed s a b c).packet 2 ≡ c)
packed_bytes s a b c e = (ground (arith, e), ground (arith, e), ground (arith, e))

-- Between packets, a packet of three bytes whose first has bit 3 set and reports no overflow: the
-- driver is between packets again, the pointer has moved by the second and third byte as signed
-- numbers, the third one upwards, as far as the screen goes, and the buttons are those of the first.
pub receive_packet :
    (fb : Screen) (s : Mouse) (a b c : ℕ)
    → IsUsable fb
    → s.cycle ≡ 0
    → get_bit a 3 ≡ true
    → (get_bit a 6 || get_bit a 7) ≡ false
    → let t = receive fb s (a ∷ b ∷ c ∷ []) in
      (t.cycle ≡ 0)
      × (t.g_mouse.x ≡ clamp (s.g_mouse.x +ℤ signed_byte b) (pos fb.width))
      × (t.g_mouse.y ≡ clamp (s.g_mouse.y +ℤ (pos 0 -ℤ signed_byte c)) (pos fb.height))
      × (t.g_mouse.left ≡ get_bit a 0)
      × (t.g_mouse.right ≡ get_bit a 1)
      × (t.g_mouse.middle ≡ get_bit a 2)
      × (t.g_mouse.left_pressed ≡ (s.g_mouse.left_pressed || get_bit a 0 && not s.prev_left))
receive_packet fb s a b c u e sync fine =
    let (p, q, r) = packed_bytes s a b c e in
    let moved : Moved fb (packed s a b c) a b c (take_packet fb (packed s a b c)) =
      take_moved (packed s a b c) a b c p q r fine in
    rw (receive_three fb s a b c e sync) (
      moved.between, moved.x_at, moved.y_at, moved.left_is, moved.right_is, moved.middle_is,
      moved.pressed,
    )
  where
    take_moved :
        (s : Mouse) (a b c : ℕ)
        → s.packet 0 ≡ a
        → s.packet 1 ≡ b
        → s.packet 2 ≡ c
        → (get_bit a 6 || get_bit a 7) ≡ false
        → Moved fb s a b c (take_packet fb s)
    take_moved s a b c p q r fine =
        let fine' : (get_bit (s.packet 0) 6 || get_bit (s.packet 0) 7) ≡ false = rw p fine in
        subst (λ z. Moved fb s a b z (take_packet fb s)) r
          (subst (λ z. Moved fb s a z (s.packet 2) (take_packet fb s)) q
            (subst (λ z. Moved fb s z (s.packet 1) (s.packet 2) (take_packet fb s)) p
              (take_packet-Moved fb s u fine')))
