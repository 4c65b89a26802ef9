-- ===== src/Drivers/Pci/Tests.antt =====
-- A host whose first bus is bus 2.
use lsd_limine.Prelude.{◌≡◌, arith, ◌+◌, ◌-◌, ◌/◌, ◌%◌, bit_or}
use lsd_limine.Drivers.Pci.Host.{ecam_offset, ecam_offset-alias}

-- Device 97 of bus 7 has the place of device 1 of bus 2 + (5 | 3) = 9.
ecam_offset-alias_example :
    ecam_offset 2 7 97 5 ≡ ecam_offset 2 (2 + bit_or (7 - 2) (97 / 32)) (97 % 32) 5
ecam_offset-alias_example =
    ecam_offset-alias 2 7 97 5 (omega arith) (omega arith) (omega arith) (omega arith)
