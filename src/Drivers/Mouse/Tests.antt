-- ===== src/Drivers/Mouse/Tests.antt =====
-- Packets of the mouse.
use h3os.Base.{arith, false, [], ◌∷◌}
use h3os.Drivers.Framebuffer.{Screen}
use h3os.Drivers.Mouse.{Mouse, zero_state, mouse_init}
use h3os.Drivers.Mouse.Pointer.{IsValid, IsUsable, receive, mouse_init-receive}

abbrev display : Screen
display = record { width = 1280; height = 720 }

abbrev idle : Mouse
idle = record {
  g_mouse = zero_state;
  prev_left = false;
  prev_right = false;
  cycle = 0;
  packet = λ i. 0;
}

mouse_init-receive_example :
    IsValid display (receive display (mouse_init idle) (0x00 ∷ 0x38 ∷ 0x80 ∷ 0x80 ∷ 0x08 ∷ []))
mouse_init-receive_example =
    mouse_init-receive display idle (0x00 ∷ 0x38 ∷ 0x80 ∷ 0x80 ∷ 0x08 ∷ []) (omega arith)
      (omega arith) (omega arith) (omega arith)

display-IsUsable : IsUsable display
display-IsUsable = record {
  wide = omega arith;
  high = omega arith;
  width_i32 = omega arith;
  height_i32 = omega arith;
}
