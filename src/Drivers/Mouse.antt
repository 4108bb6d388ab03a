-- ===== src/Drivers/Mouse.antt =====
-- drivers/mouse/mouse.c: the packets of the PS/2 mouse and the pointer. The sequence of port accesses
-- that sets the device up, and the drawing of the pointer, are left out. Coordinates are exact
-- integers.
mod Pointer
mod Tests
use h3os.Base.{
  ℕ, zero, suc, ◌+◌, ◌-◌, ◌^◌, Bool, true, false, not, ◌==◌, ◌&&◌, ◌||◌, ltb, if◌then◌else◌, update,
  u32,
}
use h3os.Base.Bits.{get_bit}
use h3os.Base.Int.{ℤ, pos, negsuc, ◌+ℤ◌, ◌-ℤ◌, ltb_ℤ, to_i32}
use h3os.Drivers.Framebuffer.{Screen}

-- `mouse_state_t`
pub record MouseState : Type 0 where
  pub x : ℤ
  pub y : ℤ
  pub dx : ℤ
  pub dy : ℤ
  pub left : Bool
  pub right : Bool
  pub middle : Bool
  pub left_pressed : Bool
  pub left_released : Bool
  pub right_pressed : Bool
  pub right_released : Bool

-- The static variables of the file.
pub record Mouse : Type 0 where
  pub g_mouse : MouseState
  pub prev_left : Bool
  pub prev_right : Bool
  pub cycle : ℕ
  pub packet : ℕ → ℕ

-- `(i32)(i8)b` for a byte.
abbrev pub signed_byte : ℕ → ℤ
signed_byte b = if ltb b 128 then pos b else negsuc (255 - b)

-- The two bounds on a coordinate, in the order of the code.
unfoldable pub clamp : ℤ → ℤ → ℤ
clamp v size =
    let low = if ltb_ℤ v (pos 0) then pos 0 else v in if ltb_ℤ low size then low else size -ℤ pos 1

-- The pointer after a packet moved it.
unfoldable pub move_pointer : Screen → ℤ → ℤ → MouseState → MouseState
move_pointer fb dx dy m =
    let x = m.x +ℤ dx in
    let y = m.y +ℤ dy in
    let visible = not (fb.width == 0) && not (fb.height == 0) in
    record m {
      dx = dx;
      dy = dy;
      x = if visible then clamp x (to_i32 fb.width) else x;
      y = if visible then clamp y (to_i32 fb.height) else y;
    }

-- The buttons; a press or release adds to what has happened in the frame.
unfoldable pub set_buttons : Bool → Bool → ℕ → MouseState → MouseState
set_buttons prev_left prev_right flags m =
    let left = get_bit flags 0 in
    let right = get_bit flags 1 in
    record m {
      left = left;
      right = right;
      middle = get_bit flags 2;
      left_pressed = m.left_pressed || left && not prev_left;
      left_released = m.left_released || not left && prev_left;
      right_pressed = m.right_pressed || right && not prev_right;
      right_released = m.right_released || not right && prev_right;
    }

-- A whole packet. One that reports an overflow is dropped.
unfoldable pub take_packet : Screen → Mouse → Mouse
take_packet fb s =
    let dx = signed_byte (s.packet 1) in
    let dy = pos 0 -ℤ signed_byte (s.packet 2) in
    if get_bit (s.packet 0) 6 || get_bit (s.packet 0) 7 then s else record s {
      g_mouse = set_buttons s.prev_left s.prev_right (s.packet 0) (move_pointer fb dx dy s.g_mouse);
      prev_left = get_bit (s.packet 0) 0;
      prev_right = get_bit (s.packet 0) 1;
    }

-- `packet[cycle++] = b`
abbrev pub store_byte : Mouse → ℕ → Mouse
store_byte s b = record s { packet = update s.packet s.cycle b; cycle = s.cycle + 1 }

-- `b` is the byte that the port gives.
unfoldable pub mouse_irq : Screen → Mouse → ℕ → Mouse
mouse_irq fb s b =
    if s.cycle == 0 && not (get_bit b 3)
    then s
    else if ltb (s.cycle + 1) 3
    then store_byte s b
    else take_packet fb (record (store_byte s b) { cycle = 0 })

abbrev pub zero_state : MouseState
zero_state = record {
  x = pos 0;
  y = pos 0;
  dx = pos 0;
  dy = pos 0;
  left = false;
  right = false;
  middle = false;
  left_pressed = false;
  left_released = false;
  right_pressed = false;
  right_released = false;
}

-- The state that `mouse_init` sets; the packet keeps its bytes.
unfoldable pub mouse_init : Mouse → Mouse
mouse_init s = record s {
  g_mouse = record zero_state { x = pos 640; y = pos 360 };
  cycle = 0;
  prev_left = false;
  prev_right = false;
}

unfoldable pub mouse_poll_frame : Mouse → Mouse
mouse_poll_frame s = record s {
  g_mouse = record s.g_mouse {
    left_pressed = false;
    left_released = false;
    right_pressed = false;
    right_released = false;
    dx = pos 0;
    dy = pos 0;
  };
}
