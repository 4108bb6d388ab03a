-- ===== src/Kernel/Interrupts/Lines.antt =====
-- Which interrupt lines reach the processor after `idt_init` and calls of `irq_install` of
-- kernel/arch/x86_64/idt.c.
use h3os.Base.{
  ℕ, ◌+◌, ◌-◌, ◌<◌, Bool, true, false, not, List, [], ◌∷◌, ◌==◌, ◌&&◌, ◌||◌, ltb, leb,
  if◌then◌else◌, ◌≡◌, refl, ◌∙◌, arith, Bool-cases, inl, inr,
}
use h3os.Base.Bits.{all_below, all_below_sound, get_bit, get_bit-clear_bit, clear_bit-lt}
use h3os.Kernel.Interrupts.{Interrupts, pic_init, idt_init, irq_install}

-- The controllers are wired as in every PC: a line from 8 on also needs line 2 of the first one.
abbrev pub is_delivered : Interrupts → ℕ → Bool
is_delivered s irq =
    if ltb irq 8
    then not (get_bit s.mask_1 irq)
    else not (get_bit s.mask_2 (irq - 8)) && not (get_bit s.mask_1 2)

-- Calls of `irq_install`, in order, and whether one of them is for a line.
unfoldable pub install_all : Interrupts → List (ℕ × ℕ) → Interrupts
install_all s [] = s
install_all s ((irq, handler) ∷ calls) = install_all (irq_install s irq handler) calls

unfoldable pub is_installed : ℕ → List (ℕ × ℕ) → Bool
is_installed irq [] = false
is_installed irq ((other, handler) ∷ calls) = (other == irq) || is_installed irq calls

AreBytes : Interrupts → Type 0
AreBytes s = (s.mask_1 < 256) × (s.mask_2 < 256)

install_bytes :
    (s : Interrupts) (irq handler : ℕ) → AreBytes s → AreBytes (irq_install s irq handler)
unfolding irq_install AreBytes
install_bytes s irq handler (b_1, b_2) = elim (Bool-cases (ltb irq 16)) [
  | inr out ↦ rw out (b_1, b_2)
  | inl valid ↦ elim (Bool-cases (ltb irq 8)) [
    | inl first ↦ rw (valid, first) (clear_bit-lt irq s.mask_1 (ground arith) b_1, b_2)
    | inr second ↦ rw (valid, second) (b_1, clear_bit-lt (irq - 8) s.mask_2 (ground arith) b_2)
  ]
]

install_1 :
    (s : Interrupts) (irq handler j : ℕ)
    → AreBytes s
    → j < 8
    → get_bit (irq_install s irq handler).mask_1 j ≡ (not (irq == j) && get_bit s.mask_1 j)
unfolding irq_install AreBytes
install_1 s irq handler j (b_1, b_2) lt = elim (Bool-cases (ltb irq 16)) [
  | inr out ↦ rw out (ground arith)
  | inl valid ↦ elim (Bool-cases (ltb irq 8)) [
    | inl first ↦
        rw (valid, first) (get_bit-clear_bit irq j s.mask_1 (ground arith) lt b_1 ∙ ground arith)
    | inr second ↦ rw (valid, second) (ground arith)
  ]
]

install_2 :
    (s : Interrupts) (irq handler j : ℕ)
    → AreBytes s
    → j < 8
    → get_bit (irq_install s irq handler).mask_2 j ≡ (not (irq == j + 8) && get_bit s.mask_2 j)
unfolding irq_install AreBytes
install_2 s irq handler j (b_1, b_2) lt = elim (Bool-cases (ltb irq 16)) [
  | inr out ↦ rw out (ground arith)
  | inl valid ↦ elim (Bool-cases (ltb irq 8)) [
    | inl first ↦ rw (valid, first) (ground arith)
    | inr second ↦
        rw (valid, second)
          (get_bit-clear_bit (irq - 8) j s.mask_2 (ground arith) lt b_2 ∙ ground arith)
  ]
]

all_1 :
    (s : Interrupts) (calls : List (ℕ × ℕ)) (j : ℕ)
    → AreBytes s
    → j < 8
    → get_bit (install_all s calls).mask_1 j ≡ (not (is_installed j calls) && get_bit s.mask_1 j)
unfolding install_all is_installed
all_1 s [] j bytes lt = refl
all_1 s ((irq, handler) ∷ calls) j bytes lt =
    all_1 (irq_install s irq handler) calls j (install_bytes s irq handler bytes) lt
    ∙ rw (install_1 s irq handler j bytes lt) (ground arith)

all_2 :
    (s : Interrupts) (calls : List (ℕ × ℕ)) (j : ℕ)
    → AreBytes s
    → j < 8
    → get_bit (install_all s calls).mask_2 j
      ≡ (not (is_installed (j + 8) calls) && get_bit s.mask_2 j)
unfolding install_all is_installed
all_2 s [] j bytes lt = refl
all_2 s ((irq, handler) ∷ calls) j bytes lt =
    all_2 (irq_install s irq handler) calls j (install_bytes s irq handler bytes) lt
    ∙ rw (install_2 s irq handler j bytes lt) (ground arith)

first_mask : all_below 8 (λ k. if leb 2 k then get_bit 0xFC k else not (get_bit 0xFC k)) ≡ true
unfolding all_below get_bit
first_mask = refl

second_mask : all_below 8 (λ k. get_bit 0xFF k) ≡ true
unfolding all_below get_bit
second_mask = refl

start_1 :
    (isr_stub_table : ℕ → ℕ) (s : Interrupts) (j : ℕ)
    → j < 8
    → get_bit (idt_init isr_stub_table s).mask_1 j ≡ leb 2 j
unfolding idt_init pic_init
start_1 isr_stub_table s j lt = let known = all_below_sound 8 _ j first_mask lt in ground arith

start_2 :
    (isr_stub_table : ℕ → ℕ) (s : Interrupts) (j : ℕ)
    → j < 8
    → get_bit (idt_init isr_stub_table s).mask_2 j ≡ true
unfolding idt_init pic_init
start_2 isr_stub_table s j lt = all_below_sound 8 _ j second_mask lt

start-AreBytes : (isr_stub_table : ℕ → ℕ) (s : Interrupts) → AreBytes (idt_init isr_stub_table s)
unfolding idt_init pic_init AreBytes
start-AreBytes isr_stub_table s = (omega arith, omega arith)

-- After `idt_init` and any calls of `irq_install` a line below 8 is delivered if it is 0 or 1 or was
-- installed; one from 8 on only if it was installed and line 2 was installed too.
pub irq_install-is_delivered :
    (isr_stub_table : ℕ → ℕ) (s : Interrupts) (calls : List (ℕ × ℕ)) (irq : ℕ)
    → irq < 16
    → is_delivered (install_all (idt_init isr_stub_table s) calls) irq ≡ (
        if ltb irq 8
        then ltb irq 2 || is_installed irq calls
        else is_installed irq calls && is_installed 2 calls)
irq_install-is_delivered isr_stub_table s calls irq lt =
    let s' = idt_init isr_stub_table s in
    let bytes = start-AreBytes isr_stub_table s in
    let cascade = all_1 s' calls 2 bytes (omega arith) in
    let cascade' = start_1 isr_stub_table s 2 (omega arith) in
    elim (Bool-cases (ltb irq 8)) [
      | inl first ↦
          let below : irq < 8 = ground arith in
          rw (first, all_1 s' calls irq bytes below, start_1 isr_stub_table s irq below)
            (ground arith)
      | inr second ↦
          let below : irq - 8 < 8 = ground arith in
          let whole : irq - 8 + 8 ≡ irq = ground arith in
          rw
            (
              second,
              cascade,
              cascade',
              all_2 s' calls (irq - 8) bytes below,
              start_2 isr_stub_table s (irq - 8) below,
              whole,
            )
            (ground arith)
    ]
