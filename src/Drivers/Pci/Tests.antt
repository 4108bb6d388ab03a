-- ===== src/Drivers/Pci/Tests.antt =====
-- A scan of a bus with two devices, one of two functions.
use h3os.Base.{◌≡◌, take, ◌==◌, ◌&&◌, if◌then◌else◌}
use h3os.Drivers.Pci.{Config, max_devices, pci_init}
use h3os.Drivers.Pci.Devices.{buses_there, pci_init-buses_there}

abbrev two_devices : Config
two_devices bus slot func offset =
    if (bus == 0) && (slot == 0)
    then (if (func == 0) && (offset == 0)
        then 0x12378086
        else if (func == 0) && (offset == 0x0C)
        then 0x800000
        else if (func == 3) && (offset == 0)
        then 0x70008086
        else 0xFFFFFFFF)
    else if (bus == 0) && (slot == 2) && (func == 0)
    then 0x11111234
    else 0xFFFFFFFF

pci_init-buses_there_example :
    pci_init two_devices ≡ take max_devices (buses_there 256 two_devices 0)
pci_init-buses_there_example = pci_init-buses_there two_devices
