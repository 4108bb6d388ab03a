-- ===== src/Drivers/Pci/Devices.antt =====
-- The scan of the PCI buses against the list of all functions that are there.
use h3os.Base.{
  ℕ, zero, suc, ◌+◌, ◌≡◌, ◌≤◌, ◌<◌, refl, sym, ap, ◌∙◌, arith, Bool, true, false, not, List, [],
  ◌∷◌, ◌++◌, length, length-append, take_all, take-append_full, ◌==◌, ◌&&◌, ◌||◌, leb,
  if◌then◌else◌, take, Bool-cases, inl, inr,
}
use mathlib.Core.List.{append_assoc, append-nil}
use h3os.Drivers.Pci.{
  PciDevice, Config, Scan, max_devices, vendor_of, device_at, multi_function, scan_funcs,
  scan_slots, scan_buses, pci_init,
}

-- Whether the scan counts a function as there: its vendor is set, and it is the first one of its slot
-- or the first one is there and says that the slot has several.
abbrev pub is_there : Config → ℕ → ℕ → ℕ → Bool
is_there cfg bus slot func =
    not (vendor_of cfg bus slot func == 0xFFFF)
    && ((func == 0) || (not (vendor_of cfg bus slot 0 == 0xFFFF) && multi_function cfg bus slot))

abbrev if_there : Bool → PciDevice → List PciDevice
if_there true d = d ∷ []
if_there false d = []

-- The functions that are there, in the order of their numbers: `n` functions, slots or buses from the
-- one given on.
unfoldable pub funcs_there : ℕ → Config → ℕ → ℕ → ℕ → List PciDevice
funcs_there zero cfg bus slot func = []
funcs_there (suc n) cfg bus slot func =
    if_there (is_there cfg bus slot func) (device_at cfg bus slot func)
    ++ funcs_there n cfg bus slot (func + 1)

unfoldable pub slots_there : ℕ → Config → ℕ → ℕ → List PciDevice
slots_there zero cfg bus slot = []
slots_there (suc n) cfg bus slot = funcs_there 8 cfg bus slot 0 ++ slots_there n cfg bus (slot + 1)

unfoldable pub buses_there : ℕ → Config → ℕ → List PciDevice
buses_there zero cfg bus = []
buses_there (suc n) cfg bus = slots_there 32 cfg bus 0 ++ buses_there n cfg (bus + 1)

-- One more device, unless the scan has stopped; the 65th one stops it.
push : Scan → PciDevice → Scan
push s d =
    if s.done
    then s
    else if leb max_devices (length s.devices)
    then record s { done = true }
    else record s { devices = s.devices ++ (d ∷ []) }

push_all : Scan → List PciDevice → Scan
push_all s [] = s
push_all s (d ∷ ds) = push_all (push s d) ds

push_all-append :
    (s : Scan) (xs ys : List PciDevice) → push_all s (xs ++ ys) ≡ push_all (push_all s xs) ys
unfolding push_all
push_all-append s [] ys = refl
push_all-append s (d ∷ xs) ys = push_all-append (push s d) xs ys

push_all_nil : (s : Scan) → push_all s [] ≡ s
unfolding push_all
push_all_nil s = refl

push_done : (s : Scan) (d : PciDevice) → s.done ≡ true → push s d ≡ s
unfolding push
push_done s d e = simp e

push_stop :
    (s : Scan) (d : PciDevice)
    → s.done ≡ false
    → leb max_devices (length s.devices) ≡ true
    → push s d ≡ record s { done = true }
unfolding push
push_stop s d e full = simp (e, full)

push_room :
    (s : Scan) (d : PciDevice)
    → s.done ≡ false
    → leb max_devices (length s.devices) ≡ false
    → push s d ≡ record s { devices = s.devices ++ (d ∷ []) }
unfolding push
push_room s d e room = simp (e, room)

push_all_done : (s : Scan) (ds : List PciDevice) → s.done ≡ true → push_all s ds ≡ s
unfolding push_all
push_all_done s [] e = refl
push_all_done s (d ∷ ds) e = ap (λ t. push_all t ds) (push_done s d e) ∙ push_all_done s ds e

push_all_stop :
    (s : Scan) (d : PciDevice) (ds : List PciDevice)
    → s.done ≡ false
    → leb max_devices (length s.devices) ≡ true
    → push_all s (d ∷ ds) ≡ record s { done = true }
unfolding push_all
push_all_stop s d ds e full =
    ap (λ t. push_all t ds) (push_stop s d e full)
    ∙ push_all_done (record s { done = true }) ds refl

abbrev with : Scan → PciDevice → Scan
with s d = record s { devices = s.devices ++ (d ∷ []) }

push_all_room :
    (s : Scan) (d : PciDevice) (ds : List PciDevice)
    → s.done ≡ false
    → leb max_devices (length s.devices) ≡ false
    → push_all s (d ∷ ds) ≡ push_all (with s d) ds
unfolding push_all
push_all_room s d ds e room = ap (λ t. push_all t ds) (push_room s d e room)

module _ (cfg : Config) (bus slot : ℕ) where
  abbrev missing : ℕ → Bool
  missing func = vendor_of cfg bus slot func == 0xFFFF

  abbrev dev : ℕ → PciDevice
  dev func = device_at cfg bus slot func

  funcs_skip :
      (n func : ℕ)
      → is_there cfg bus slot func ≡ false
      → funcs_there (suc n) cfg bus slot func ≡ funcs_there n cfg bus slot (func + 1)
  unfolding funcs_there
  funcs_skip n func e = ap (λ b. if_there b (dev func) ++ funcs_there n cfg bus slot (func + 1)) e

  funcs_add :
      (n func : ℕ)
      → is_there cfg bus slot func ≡ true
      → funcs_there (suc n) cfg bus slot func ≡ dev func ∷ funcs_there n cfg bus slot (func + 1)
  unfolding funcs_there
  funcs_add n func e = ap (λ b. if_there b (dev func) ++ funcs_there n cfg bus slot (func + 1)) e

  -- A slot whose first function is missing or alone has no later ones.
  funcs_none :
      (n func : ℕ)
      → 0 < func
      → (not (missing 0) && multi_function cfg bus slot) ≡ false
      → funcs_there n cfg bus slot func ≡ []
  funcs_none zero func later e = unfold funcs_there in refl
  funcs_none (suc n) func later e =
      funcs_skip n func (ground (arith, e)) ∙ funcs_none n (func + 1) (omega arith) e

  module _ (left func : ℕ) (s : Scan) where
    scan_missing :
        missing func ≡ true
        → (func == 0) ≡ false
        → scan_funcs (suc left) cfg bus slot func s ≡ scan_funcs left cfg bus slot (func + 1) s
    unfolding scan_funcs
    scan_missing a b = simp (a, b)

    scan_no_slot :
        missing func ≡ true → (func == 0) ≡ true → scan_funcs (suc left) cfg bus slot func s ≡ s
    unfolding scan_funcs
    scan_no_slot a b = simp (a, b)

    scan_full :
        missing func ≡ false
        → leb max_devices (length s.devices) ≡ true
        → scan_funcs (suc left) cfg bus slot func s ≡ record s { done = true }
    unfolding scan_funcs
    scan_full a b = simp (a, b)

    scan_single :
        missing func ≡ false
        → leb max_devices (length s.devices) ≡ false
        → ((func == 0) && not (multi_function cfg bus slot)) ≡ true
        → scan_funcs (suc left) cfg bus slot func s ≡ with s (dev func)
    unfolding scan_funcs
    scan_single a b c = simp (a, b, c)

    scan_more :
        missing func ≡ false
        → leb max_devices (length s.devices) ≡ false
        → ((func == 0) && not (multi_function cfg bus slot)) ≡ false
        → scan_funcs (suc left) cfg bus slot func s
          ≡ scan_funcs left cfg bus slot (func + 1) (with s (dev func))
    unfolding scan_funcs
    scan_more a b c = simp (a, b, c)

  -- The functions after the first, in a slot with several.
  scan_later :
      (left func : ℕ) (s : Scan)
      → 0 < func
      → s.done ≡ false
      → missing 0 ≡ false
      → multi_function cfg bus slot ≡ true
      → scan_funcs left cfg bus slot func s ≡ push_all s (funcs_there left cfg bus slot func)
  scan_later zero func s later e here multi = unfold scan_funcs funcs_there push_all in refl
  scan_later (suc left) func s later e here multi = elim (Bool-cases (missing func)) [
    | inl gone ↦
        scan_missing left func s gone (ground arith)
        ∙ scan_later left (func + 1) s (omega arith) e here multi
        ∙ ap (push_all s) (sym (funcs_skip left func (ground arith)))
    | inr there ↦
        let listed =
          ap (push_all s) (sym (funcs_add left func (ground (arith, here, multi, there)))) in
        elim (Bool-cases (leb max_devices (length s.devices))) [
          | inl full ↦
              scan_full left func s there full
              ∙ sym (push_all_stop s (dev func) (funcs_there left cfg bus slot (func + 1)) e full)
              ∙ listed
          | inr room ↦
              scan_more left func s there room (ground arith)
              ∙ scan_later left (func + 1) (with s (dev func)) (omega arith) e here multi
              ∙ sym (push_all_room s (dev func) (funcs_there left cfg bus slot (func + 1)) e room)
              ∙ listed
        ]
  ]

  scan_slot :
      (left : ℕ) (s : Scan)
      → s.done ≡ false
      → scan_funcs (suc left) cfg bus slot 0 s ≡ push_all s (funcs_there (suc left) cfg bus slot 0)
  scan_slot left s e = elim (Bool-cases (missing 0)) [
    | inl gone ↦
        scan_no_slot left 0 s gone refl
        ∙ sym (
            ap (push_all s)
              (funcs_skip left 0 (ground arith) ∙ funcs_none left 1 (omega arith) (ground arith))
            ∙ push_all_nil s)
    | inr there ↦ elim (Bool-cases (multi_function cfg bus slot)) [
      | inl multi ↦
          let listed = ap (push_all s) (sym (funcs_add left 0 (ground (arith, there)))) in
          elim (Bool-cases (leb max_devices (length s.devices))) [
            | inl full ↦
                scan_full left 0 s there full
                ∙ sym (push_all_stop s (dev 0) (funcs_there left cfg bus slot 1) e full)
                ∙ listed
            | inr room ↦
                scan_more left 0 s there room (ground (arith, multi))
                ∙ scan_later left 1 (with s (dev 0)) (omega arith) e there multi
                ∙ sym (push_all_room s (dev 0) (funcs_there left cfg bus slot 1) e room)
                ∙ listed
          ]
      | inr alone ↦
          let none_later = funcs_none left 1 (omega arith) (ground (arith, alone)) in
          let listed =
            ap (push_all s)
              (sym (funcs_add left 0 (ground (arith, there)) ∙ ap (λ r. dev 0 ∷ r) none_later)) in
          elim (Bool-cases (leb max_devices (length s.devices))) [
            | inl full ↦
                scan_full left 0 s there full ∙ sym (push_all_stop s (dev 0) [] e full) ∙ listed
            | inr room ↦
                scan_single left 0 s there room (ground (arith, alone))
                ∙ sym (push_all_room s (dev 0) [] e room ∙ push_all_nil (with s (dev 0)))
                ∙ listed
          ]
    ]
  ]

-- A scan that has stopped is not gone on with.
go_on :
    (s' rest : Scan) (ds : List PciDevice)
    → (s'.done ≡ false → rest ≡ push_all s' ds)
    → (if s'.done then s' else rest) ≡ push_all s' ds
go_on s' rest ds e = elim (Bool-cases s'.done) [
  | inl stopped ↦ simp stopped (sym (push_all_done s' ds stopped))
  | inr going ↦ simp going (e going)
]

scan_slots_lem :
    (n : ℕ) (cfg : Config) (bus slot : ℕ) (s : Scan)
    → s.done ≡ false
    → scan_slots n cfg bus slot s ≡ push_all s (slots_there n cfg bus slot)
unfolding scan_slots slots_there
scan_slots_lem zero cfg bus slot s e = sym (push_all_nil s)
scan_slots_lem (suc n) cfg bus slot s e =
    go_on (scan_funcs 8 cfg bus slot 0 s)
      (scan_slots n cfg bus (slot + 1) (scan_funcs 8 cfg bus slot 0 s))
      (slots_there n cfg bus (slot + 1))
      (scan_slots_lem n cfg bus (slot + 1) (scan_funcs 8 cfg bus slot 0 s))
    ∙ ap (λ t. push_all t (slots_there n cfg bus (slot + 1))) (scan_slot cfg bus slot 7 s e)
    ∙ sym (push_all-append s (funcs_there 8 cfg bus slot 0) (slots_there n cfg bus (slot + 1)))

scan_buses_lem :
    (n : ℕ) (cfg : Config) (bus : ℕ) (s : Scan)
    → s.done ≡ false
    → scan_buses n cfg bus s ≡ push_all s (buses_there n cfg bus)
unfolding scan_buses buses_there
scan_buses_lem zero cfg bus s e = sym (push_all_nil s)
scan_buses_lem (suc n) cfg bus s e =
    go_on (scan_slots 32 cfg bus 0 s) (scan_buses n cfg (bus + 1) (scan_slots 32 cfg bus 0 s))
      (buses_there n cfg (bus + 1)) (scan_buses_lem n cfg (bus + 1) (scan_slots 32 cfg bus 0 s))
    ∙ ap (λ t. push_all t (buses_there n cfg (bus + 1))) (scan_slots_lem 32 cfg bus 0 s e)
    ∙ sym (push_all-append s (slots_there 32 cfg bus 0) (buses_there n cfg (bus + 1)))

push_all_first :
    (ds : List PciDevice) (s : Scan)
    → s.done ≡ false
    → length s.devices ≤ max_devices
    → (push_all s ds).devices ≡ take max_devices (s.devices ++ ds)
push_all_first [] s e le =
    ap (λ t. t.devices) (push_all_nil s)
    ∙ sym (ap (take max_devices) (append-nil s.devices) ∙ take_all max_devices s.devices le)
push_all_first (d ∷ ds) s e le = elim (Bool-cases (leb max_devices (length s.devices))) [
  | inl full ↦
      ap (λ t. t.devices) (push_all_stop s d ds e full)
      ∙ sym (take-append_full max_devices s.devices (d ∷ ds) (ground arith))
  | inr room ↦
      let longer = length-append s.devices (d ∷ []) in
      ap (λ t. t.devices) (push_all_room s d ds e room)
      ∙ push_all_first ds (with s d) e (ground (arith, longer))
      ∙ ap (take max_devices) (append_assoc s.devices (d ∷ []) ds)
]

-- `pci_init` finds the first 64, in the order of buses, slots and functions, of all functions that are
-- there: those with a vendor that are the first of their slot, or stand in a slot whose first function
-- is there and says that it has several.
pub pci_init-buses_there : (cfg : Config) → pci_init cfg ≡ take max_devices (buses_there 256 cfg 0)
unfolding pci_init
pci_init-buses_there cfg =
    let s : Scan = record { devices = []; done = false } in
    ap (λ t. t.devices) (scan_buses_lem 256 cfg 0 s refl)
    ∙ push_all_first (buses_there 256 cfg 0) s refl (omega arith)
