-- ===== src/Kernel/Interrupts/Tests.antt =====
-- The drivers' calls: the timer, the keyboard and the mouse.
use h3os.Base.{ℕ, ◌+◌, ◌*◌, ◌≡◌, refl, arith, List, [], ◌∷◌, false, ltb, if◌then◌else◌, ◌&&◌, ◌||◌}
use h3os.Kernel.Interrupts.{
  Interrupts, zero_entry, idt_init, pic_init, irq_install, isr_dispatch, irq_ack, call,
  end_of_interrupt,
}
use h3os.Kernel.Interrupts.Gates.{handler_of, idt_init-handler_of}
use h3os.Kernel.Interrupts.Lines.{is_delivered, install_all, is_installed, irq_install-is_delivered}

abbrev reset : Interrupts
reset = record { idt = λ i. zero_entry; irq_handlers = λ i. 0; mask_1 = 0; mask_2 = 0 }

abbrev stubs : ℕ → ℕ
stubs i = 0x100000 + 16 * i

idt_init-handler_of_example :
    (handler_of ((idt_init stubs reset).idt 33) ≡ stubs 33)
    × ((idt_init stubs reset).idt 33).type_attr ≡ 0x8E
    × ((idt_init stubs reset).idt 33).selector ≡ 0x08
idt_init-handler_of_example = idt_init-handler_of stubs reset 33 (omega arith) (omega arith)

abbrev drivers : List (ℕ × ℕ)
drivers = (0, 0x2000) ∷ (1, 0x3000) ∷ (12, 0x4000) ∷ []

-- The mouse's line, 12.
irq_install-is_delivered_example : is_delivered (install_all (idt_init stubs reset) drivers) 12 ≡ (
    if ltb 12 8
    then ltb 12 2 || is_installed 12 drivers
    else is_installed 12 drivers && is_installed 2 drivers)
irq_install-is_delivered_example = irq_install-is_delivered stubs reset drivers 12 (omega arith)

mouse_is_silent : is_delivered (install_all (idt_init stubs reset) drivers) 12 ≡ false
unfolding is_installed
mouse_is_silent = irq_install-is_delivered stubs reset drivers 12 (omega arith)

mouse_dispatch :
    isr_dispatch (install_all (idt_init stubs reset) drivers) 44
    ≡ call 0x4000 ∷ end_of_interrupt 0xA0 ∷ end_of_interrupt 0x20 ∷ []
unfolding install_all irq_install idt_init pic_init isr_dispatch irq_ack
mouse_dispatch = refl
