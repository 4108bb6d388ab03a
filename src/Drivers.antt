-- ===== src/Drivers.antt =====
-- Device drivers (drivers/).
pub mod Framebuffer
pub mod Keyboard
pub mod Mouse
pub mod Pci
pub mod Rtc
pub mod Timer
