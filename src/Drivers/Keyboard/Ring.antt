-- ===== src/Drivers/Keyboard/Ring.antt =====
-- The ring buffer of the keyboard is a queue of at most 255 characters.
use h3os.Base.{
  ℕ, zero, suc, ◌+◌, ◌-◌, ◌%◌, ◌≡◌, ◌≢◌, ◌<◌, refl, arith, true, false, not, Option, none, some,
  List, [], ◌∷◌, ◌++◌, length, ◌==◌, ltb, if◌then◌else◌, ap, ap₂, ◌∙◌, u32, update, Bool-cases, inl,
  inr,
}
use h3os.Drivers.Keyboard.{Keyboard, buf_size, kbd_push, keyboard_has_char, keyboard_try_read}

pub record IsValid (s : Keyboard) : Type 0 where
  pub head_in : s.kbd_head < buf_size
  pub tail_in : s.kbd_tail < buf_size

-- The `n` characters from index `t` on, going round at the end of the buffer.
abbrev pub window : (ℕ → ℕ) → ℕ → ℕ → List ℕ
window f t zero = []
window f t (suc n) = f t ∷ window f ((t + 1) % buf_size) n

abbrev pub count : Keyboard → ℕ
count s = (s.kbd_head + buf_size - s.kbd_tail) % buf_size

-- What the buffer holds, the next to be read first.
abbrev pub contents : Keyboard → List ℕ
contents s = window s.kbd_buf s.kbd_tail (count s)

window-update :
    (f : ℕ → ℕ) (h c t n : ℕ)
    → t < buf_size
    → n < buf_size
    → h ≡ (t + n) % buf_size
    → window (update f h c) t (suc n) ≡ window f t n ++ c ∷ []
window-update f h c t zero lt small e = ground arith
window-update f h c t (suc n) lt small e =
    ap₂ ◌∷◌ (ground arith)
      (window-update f h c ((t + 1) % buf_size) n (omega arith) (omega arith) (omega arith))

-- A queue of at most 255 characters: a character too many is dropped.
abbrev pub enqueue : List ℕ → ℕ → List ℕ
enqueue q c = if ltb (length q) 255 then q ++ c ∷ [] else q

length-window : (f : ℕ → ℕ) (t n : ℕ) → length (window f t n) ≡ n
length-window f t zero = refl
length-window f t (suc n) = ap suc (length-window f ((t + 1) % buf_size) n)

push_room :
    (f : ℕ → ℕ) (h t c : ℕ)
    → h < buf_size
    → t < buf_size
    → (h + 1) % buf_size ≢ t
    → window (update f h c) t (((h + 1) % buf_size + buf_size - t) % buf_size)
      ≡ window f t ((h + buf_size - t) % buf_size) ++ c ∷ []
push_room f h t c hh ht ne =
    ap (window (update f h c) t) {x = ((h + 1) % buf_size + buf_size - t) % buf_size}
      {y = suc ((h + buf_size - t) % buf_size)} (omega arith)
    ∙ window-update f h c t ((h + buf_size - t) % buf_size) ht (omega arith) (omega arith)

-- On a state whose indices are in range, `kbd_push` appends to the queue that the buffer holds, or
-- drops the character when 255 are held, and keeps the indices in range.
pub kbd_push_refines :
    (s : Keyboard) (c : ℕ)
    → IsValid s
    → IsValid (kbd_push s c) × (contents (kbd_push s c) ≡ enqueue (contents s) c)
unfolding kbd_push
kbd_push_refines s c v = elim (Bool-cases (u32 (s.kbd_head + 1) % buf_size == s.kbd_tail)) [
  | inl full ↦
      let big : ltb (length (contents s)) 255 ≡ false =
        ground (arith, v.head_in, v.tail_in, length-window s.kbd_buf s.kbd_tail (count s)) in
      rw full (v, rw big refl)
  | inr room ↦
      let ne : (s.kbd_head + 1) % buf_size ≢ s.kbd_tail = ground (arith, v.head_in) in
      let small : ltb (length (contents s)) 255 ≡ true =
        ground (arith, v.head_in, v.tail_in, length-window s.kbd_buf s.kbd_tail (count s)) in
      let no_wrap : u32 (s.kbd_head + 1) ≡ s.kbd_head + 1 = omega (arith, v.head_in) in
      rw room (
        record { head_in = omega arith; tail_in = v.tail_in },
        rw (small, no_wrap) (push_room s.kbd_buf s.kbd_head s.kbd_tail c v.head_in v.tail_in ne),
      )
]

-- What a read gives of a queue.
abbrev pub dequeue : List ℕ → Option ℕ × List ℕ
dequeue [] = (none, [])
dequeue (c ∷ q) = (some c, q)

window_pop :
    (f : ℕ → ℕ) (t n : ℕ) → n ≢ 0 → window f t n ≡ f t ∷ window f ((t + 1) % buf_size) (n - 1)
window_pop f t zero ne = absurd (ne refl)
window_pop f t (suc n) ne = ap (λ k. window f t (suc k)) {x = n} {y = suc n - 1} (omega arith)

-- On a state whose indices are in range, `keyboard_try_read` takes the oldest character out of the
-- queue, or returns none of an empty one, and `keyboard_has_char` tells which.
pub keyboard_try_read_refines :
    (s : Keyboard)
    → IsValid s
    → IsValid (keyboard_try_read s).1
      × (((keyboard_try_read s).0, contents (keyboard_try_read s).1) ≡ dequeue (contents s))
      × (keyboard_has_char s ≡ not (length (contents s) == 0))
unfolding keyboard_try_read keyboard_has_char
keyboard_try_read_refines s v = elim (Bool-cases (s.kbd_head == s.kbd_tail)) [
  | inl e ↦
      let empty : count s ≡ 0 = ground (arith, v.head_in, v.tail_in) in
      rw e (v, rw empty refl, rw empty refl)
  | inr ne ↦
      let some_held : count s ≢ 0 = ground (arith, v.head_in, v.tail_in) in
      let next : u32 (s.kbd_tail + 1) % buf_size ≡ (s.kbd_tail + 1) % buf_size =
        omega (arith, v.tail_in) in
      let fewer : (s.kbd_head + buf_size - (s.kbd_tail + 1) % buf_size) % buf_size ≡ count s - 1 =
        omega (arith, v.head_in, v.tail_in) in
      rw ne (
        record { head_in = v.head_in; tail_in = omega arith },
        rw (next, fewer, window_pop s.kbd_buf s.kbd_tail (count s) some_held) refl,
        ground (arith, length-window s.kbd_buf s.kbd_tail (count s)),
      )
]
