-- ===== src/Kernel/Interrupts.antt =====
-- kernel/arch/x86_64/idt.c: the interrupt descriptor table, the masks of the two interrupt controllers,
-- and the dispatch. A handler is an address, 0 for `NULL`.
pub mod Gates
pub mod Lines
mod Tests
use h3os.Base.{
  ℕ, zero, suc, ◌+◌, ◌-◌, ◌*◌, ◌/◌, ◌%◌, ◌^◌, Bool, true, false, not, List, [], ◌∷◌, ◌++◌, ◌==◌,
  ◌&&◌, ◌||◌, ltb, leb, if◌then◌else◌, update, u8, u64,
}
use h3os.Base.Bits.{get_bit, clear_bit}
use h3os.Base.Loops.{for_range}

-- `idt_entry_t`
pub record IdtEntry : Type 0 where
  pub offset_low : ℕ
  pub selector : ℕ
  pub ist : ℕ
  pub type_attr : ℕ
  pub offset_mid : ℕ
  pub offset_high : ℕ

abbrev pub zero_entry : IdtEntry
zero_entry = record {
  offset_low = 0;
  selector = 0;
  ist = 0;
  type_attr = 0;
  offset_mid = 0;
  offset_high = 0;
}

-- `idt`, `irq_handlers`, and the mask registers at the ports 0x21 and 0xA1.
pub record Interrupts : Type 0 where
  pub idt : ℕ → IdtEntry
  pub irq_handlers : ℕ → ℕ
  pub mask_1 : ℕ
  pub mask_2 : ℕ

-- The entry that `idt_set` writes.
abbrev pub gate : ℕ → ℕ → IdtEntry
gate handler type_attr = record {
  offset_low = handler % 65536;
  selector = 0x08;
  ist = 0;
  type_attr = type_attr;
  offset_mid = handler / 65536 % 65536;
  offset_high = handler / 4294967296 % 4294967296;
}

unfoldable pub idt_set : Interrupts → (vec handler type_attr : ℕ) → Interrupts
idt_set s vec handler type_attr = record s { idt = update s.idt (u8 vec) (gate handler type_attr) }

-- The masks that `pic_init` leaves.
unfoldable pub pic_init : Interrupts → Interrupts
pic_init s = record s { mask_1 = 0xFC; mask_2 = 0xFF }

-- The table of stubs is in assembly.
unfoldable pub idt_init : (ℕ → ℕ) → Interrupts → Interrupts
idt_init isr_stub_table s = pic_init (
    for_range 256 0 (λ i t. idt_set t i (isr_stub_table i) 0x8E)
      (record s { idt = λ i. zero_entry; irq_handlers = λ i. 0 }))

unfoldable pub irq_install : Interrupts → (irq handler : ℕ) → Interrupts
irq_install s irq handler =
    if ltb irq 16
    then (let t : Interrupts = record s { irq_handlers = update s.irq_handlers irq handler } in
        if ltb irq 8
        then record t { mask_1 = clear_bit s.mask_1 irq }
        else record t { mask_2 = clear_bit s.mask_2 (irq - 8) })
    else s

-- What a dispatch does outside this file: a panic, a handler's call, and the ends of interrupt that are
-- written to the controllers' ports.
pub data Event : Type 0 where
  kpanic : ℕ → Event
  call : ℕ → Event
  end_of_interrupt : ℕ → Event

unfoldable pub irq_ack : ℕ → List Event
irq_ack irq =
    if leb 8 irq
    then end_of_interrupt 0xA0 ∷ end_of_interrupt 0x20 ∷ []
    else end_of_interrupt 0x20 ∷ []

-- `kpanic` does not return.
unfoldable pub isr_dispatch : Interrupts → ℕ → List Event
isr_dispatch s int_no =
    if ltb int_no 32
    then kpanic int_no ∷ []
    else (if ltb int_no 48
        then (let irq = int_no - 32 in
            if s.irq_handlers irq == 0
            then irq_ack irq
            else call (s.irq_handlers irq) ∷ irq_ack irq)
        else [])
