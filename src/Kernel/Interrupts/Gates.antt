-- ===== src/Kernel/Interrupts/Gates.antt =====
-- The gates that `idt_init` of kernel/arch/x86_64/idt.c makes.
use h3os.Base.{
  ℕ, ◌+◌, ◌*◌, ◌^◌, ◌<◌, ◌==◌, if◌then◌else◌, u8, ◌≡◌, refl, ap, ◌∙◌, arith, Bool-cases, inl, inr,
}
use h3os.Base.Loops.{for_range, for_range_inv}
use h3os.Kernel.Interrupts.{IdtEntry, Interrupts, gate, idt_set, pic_init, idt_init}

-- The address that the processor takes from a gate.
abbrev pub handler_of : IdtEntry → ℕ
handler_of e = e.offset_low + 65536 * e.offset_mid + 4294967296 * e.offset_high

gate-handler_of :
    (handler type_attr : ℕ) → handler < 2 ^ 64 → handler_of (gate handler type_attr) ≡ handler
gate-handler_of handler type_attr small = omega arith

idt_set-idt :
    (s : Interrupts) (k i handler : ℕ)
    → k < 256
    → (idt_set s k handler 0x8E).idt i ≡ (if k == i then gate handler 0x8E else s.idt i)
unfolding idt_set
idt_set-idt s k i handler lt = let e : u8 k ≡ k = omega arith in rw e refl

-- After `idt_init` the processor finds the stub of each of the 256 vectors in its gate, and every gate
-- is a present interrupt gate of the kernel's code segment.
pub idt_init-handler_of :
    (isr_stub_table : ℕ → ℕ) (s : Interrupts) (vec : ℕ)
    → vec < 256
    → isr_stub_table vec < 2 ^ 64
    → (let e = (idt_init isr_stub_table s).idt vec in
        (handler_of e ≡ isr_stub_table vec) × (e.type_attr ≡ 0x8E) × (e.selector ≡ 0x08))
unfolding idt_init pic_init
idt_init-handler_of isr_stub_table s vec lt small =
    rw (filled vec lt) (gate-handler_of (isr_stub_table vec) 0x8E small, refl, refl)
  where
    start : Interrupts
    start = record s {
      idt = λ i. record {
        offset_low = 0;
        selector = 0;
        ist = 0;
        type_attr = 0;
        offset_mid = 0;
        offset_high = 0;
      };
      irq_handlers = λ i. 0;
    }

    filled :
        (i : ℕ)
        → i < 256
        → (for_range 256 0 (λ i t. idt_set t i (isr_stub_table i) 0x8E) start).idt i
          ≡ gate (isr_stub_table i) 0x8E
    filled =
        for_range_inv (λ k t. (i : ℕ) → i < k → t.idt i ≡ gate (isr_stub_table i) 0x8E)
          (λ i t. idt_set t i (isr_stub_table i) 0x8E) 256 0 256 start (omega arith)
          (λ k t above below done i lt'.
            let read = idt_set-idt t k i (isr_stub_table k) below in
            elim (Bool-cases (k == i)) [
              | inl e ↦
                  let same : k ≡ i = ground arith in
                  read ∙ rw e (ap (λ j. gate (isr_stub_table j) 0x8E) same)
              | inr ne ↦ read ∙ rw ne (done i (ground arith))
            ])
          (λ i none. absurd (omega arith))
