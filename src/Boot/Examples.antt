-- ===== src/Boot/Examples.antt =====
-- Memory maps at fixed inputs.
use axiome_os.Prelude.{List, [], ◌∷◌}
use axiome_os.Boot.Mmap.{Entry, mem_usable, mem_reserved}

-- Low memory, a hole for devices, and memory above it.
abbrev two_banks : List Entry
two_banks =
    record { base = 0; len = 0xa0000; type = mem_usable }
    ∷ record { base = 0xa0000; len = 0x60000; type = mem_reserved }
    ∷ record { base = 0x100000; len = 0x7f00000; type = mem_usable }
    ∷ []
