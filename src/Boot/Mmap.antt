-- ===== src/Boot/Mmap.antt =====
-- bootloader/mmap.c: the memory types of the firmware, the merging of neighbours, and the ranges that
-- are reserved; kernel/axboot.c: the kernel's copy of the map. Addresses are 64 bits wide.
pub mod Laws
use axiome_os.Prelude.{
  ℕ, zero, suc, ◌+◌, ◌-◌, ◌*◌, ◌%◌, ◌^◌, Bool, true, false, not, ◌&&◌, ◌||◌, List, [], ◌∷◌, ◌++◌,
  ltb, leb, ◌==◌, if◌then◌else◌, length, take,
}

-- `struct axboot_mmap_entry`
pub record Entry : Type 0 where
  pub base : ℕ
  pub len : ℕ
  pub type : ℕ

abbrev pub max_mmap : ℕ
max_mmap = 64

abbrev pub mem_usable : ℕ
mem_usable = 1

abbrev pub mem_reserved : ℕ
mem_reserved = 2

-- `a + b` in 64 bits.
abbrev pub add64 : ℕ → ℕ → ℕ
add64 a b = (a + b) % 2 ^ 64

-- The firmware's memory types that `efi_to_axb` names, and the others.
pub data EfiMemory : Type 0 where
  conventional boot_services_code boot_services_data acpi_reclaim acpi_nvs unusable other :
      EfiMemory

pub efi_to_axb : EfiMemory → ℕ
efi_to_axb conventional = mem_usable
efi_to_axb boot_services_code = mem_usable
efi_to_axb boot_services_data = mem_usable
efi_to_axb acpi_reclaim = 3
efi_to_axb acpi_nvs = 4
efi_to_axb unusable = 5
efi_to_axb other = mem_reserved

-- What the body of the loop makes of one entry, with `n` entries in the table: the entries in
-- its place and the new count. `reserved` is the length of the range.
pub carve : ℕ → ℕ → Entry → ℕ → List Entry × ℕ
carve base reserved e n =
    let end = add64 base reserved in
    let eb = e.base in
    let ee = add64 e.base e.len in
    if not (e.type == mem_usable)
    then (e ∷ [], n)
    else if leb ee base || leb end eb
    then (e ∷ [], n)
    else if leb base eb && leb ee end
    then (record { base = eb; len = e.len; type = mem_reserved } ∷ [], n)
    else if leb base eb
    then if ltb max_mmap (n + 1)
      then (record { base = end; len = ee - end; type = e.type } ∷ [], n)
      else (
        record { base = eb; len = end - eb; type = mem_reserved }
            ∷ record { base = end; len = ee - end; type = e.type }
            ∷ [],
        n + 1,
      )
    else if leb ee end
    then if ltb max_mmap (n + 1)
      then (record { base = eb; len = base - eb; type = e.type } ∷ [], n)
      else (
        record { base = eb; len = base - eb; type = e.type }
            ∷ record { base = base; len = ee - base; type = mem_reserved }
            ∷ [],
        n + 1,
      )
    else if ltb max_mmap (n + 2)
    then (record { base = eb; len = base - eb; type = e.type } ∷ [], n)
    else (
      record { base = eb; len = base - eb; type = e.type }
          ∷ record { base = base; len = reserved; type = mem_reserved }
          ∷ record { base = end; len = ee - end; type = mem_usable }
          ∷ [],
      n + 2,
    )

-- The loop over the entries that are left.
pub reserve_loop : ℕ → ℕ → List Entry → ℕ → List Entry
reserve_loop base reserved [] n = []
reserve_loop base reserved (e ∷ es) n =
    let made = carve base reserved e n in made.0 ++ reserve_loop base reserved es made.1

pub reserve_range : List Entry → ℕ → ℕ → List Entry
reserve_range es base reserved = reserve_loop base reserved es (length es)

-- The last entry takes what follows on it with the same type, or anything if the table is full; the
-- table is kept in reverse order.
pub add_descriptor : List Entry → ℕ → ℕ → ℕ → List Entry
add_descriptor [] base size type =
    if size == 0 then [] else record { base = base; len = size; type = type } ∷ []
add_descriptor (e ∷ es) base size type =
    if size == 0
    then e ∷ es
    else if e.type == type && (add64 e.base e.len == base)
    then record { base = e.base; len = add64 e.len size; type = e.type } ∷ es
    else if leb max_mmap (length (e ∷ es))
    then record {
      base = e.base;
      len = add64 e.len size;
      type = if e.type == type then e.type else mem_reserved;
    }
      ∷ es
    else record { base = base; len = size; type = type } ∷ e ∷ es

-- A descriptor of the firmware's.
pub record Descriptor : Type 0 where
  pub start : ℕ
  pub pages : ℕ
  pub kind : EfiMemory

-- The loop over the descriptors, onto the reversed table.
pub convert : List Entry → List Descriptor → List Entry
convert es [] = es
convert es (d ∷ ds) =
    convert (add_descriptor es d.start (d.pages * 4096 % 2 ^ 64) (efi_to_axb d.kind)) ds

-- kernel/axboot.c: the copy that the kernel keeps, and the end of its last usable entry.
pub kernel_mmap : List Entry → List Entry
kernel_mmap es = take max_mmap es

pub mmap_max_addr : ℕ → List Entry → ℕ
mmap_max_addr top [] = top
mmap_max_addr top (e ∷ es) =
    let end = add64 e.base e.len in
    mmap_max_addr (if e.type == 1 && ltb top end then end else top) es
