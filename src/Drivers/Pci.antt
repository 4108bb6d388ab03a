-- ===== src/Drivers/Pci.antt =====
-- drivers/pci/pci.c: the scan of the PCI buses. `cfg bus slot func offset` is the word that a read of
-- the configuration space gives.
pub mod Devices
mod Tests
use h3os.Base.{
  ℕ, zero, suc, ◌+◌, ◌/◌, ◌%◌, Bool, true, false, not, List, [], ◌∷◌, ◌++◌, length, Option, none,
  some, get_elem?, ◌==◌, ◌&&◌, ◌||◌, ltb, leb, if◌then◌else◌, u8, u16,
}

-- `pci_device_t`
pub record PciDevice : Type 0 where
  pub bus : ℕ
  pub slot : ℕ
  pub func : ℕ
  pub vendor : ℕ
  pub device : ℕ
  pub class_code : ℕ
  pub subclass : ℕ
  pub prog_if : ℕ

-- `PCI_MAX_DEVICES`
abbrev pub max_devices : ℕ
max_devices = 64

abbrev pub Config : Type 0
Config = ℕ → ℕ → ℕ → ℕ → ℕ

abbrev pub vendor_of : Config → ℕ → ℕ → ℕ → ℕ
vendor_of cfg bus slot func = u16 (cfg bus slot func 0)

abbrev pub device_at : Config → ℕ → ℕ → ℕ → PciDevice
device_at cfg bus slot func = record {
  bus = bus;
  slot = slot;
  func = func;
  vendor = vendor_of cfg bus slot func;
  device = u16 (cfg bus slot func 0 / 65536);
  class_code = u8 (cfg bus slot func 0x08 / 16777216);
  subclass = u8 (cfg bus slot func 0x08 / 65536);
  prog_if = u8 (cfg bus slot func 0x08 / 256);
}

-- `((ht >> 16) & 0x80) == 0`, negated
abbrev pub multi_function : Config → ℕ → ℕ → Bool
multi_function cfg bus slot = cfg bus slot 0 0x0C / 65536 / 128 % 2 == 1

-- The devices found so far, and whether the scan has left by `goto done`.
pub record Scan : Type 0 where
  pub devices : List PciDevice
  pub done : Bool

-- The loop over the functions of a slot from `func` on, `left` rounds.
unfoldable pub scan_funcs : ℕ → Config → ℕ → ℕ → ℕ → Scan → Scan
scan_funcs zero cfg bus slot func s = s
scan_funcs (suc left) cfg bus slot func s =
    let skip = scan_funcs left cfg bus slot (func + 1) s in
    let added = record s { devices = s.devices ++ (device_at cfg bus slot func ∷ []) } in
    let more = scan_funcs left cfg bus slot (func + 1) added in
    if vendor_of cfg bus slot func == 0xFFFF
    then (if func == 0 then s else skip)
    else if leb max_devices (length s.devices)
    then record s { done = true }
    else if (func == 0) && not (multi_function cfg bus slot)
    then added
    else more

unfoldable pub scan_slots : ℕ → Config → ℕ → ℕ → Scan → Scan
scan_slots zero cfg bus slot s = s
scan_slots (suc left) cfg bus slot s =
    let s' = scan_funcs 8 cfg bus slot 0 s in
    let rest = scan_slots left cfg bus (slot + 1) s' in if s'.done then s' else rest

unfoldable pub scan_buses : ℕ → Config → ℕ → Scan → Scan
scan_buses zero cfg bus s = s
scan_buses (suc left) cfg bus s =
    let s' = scan_slots 32 cfg bus 0 s in
    let rest = scan_buses left cfg (bus + 1) s' in if s'.done then s' else rest

-- The devices that `pci_init` leaves; `device_count` is their number.
unfoldable pub pci_init : Config → List PciDevice
pci_init cfg = (scan_buses 256 cfg 0 (record { devices = []; done = false })).devices

abbrev pub pci_get : List PciDevice → ℕ → Option PciDevice
pci_get devices index = get_elem? devices index
