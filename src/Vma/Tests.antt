-- ===== src/Vma/Tests.antt =====
-- mm/vma.c on small inputs, and the instances of the theorems on areas.
use levos.Base.{◌+◌, ℕ, ◌≡◌, ◌≢◌, refl, false, List, [], ◌∷◌, some}
use levos.Base.{arith}
use levos.Base.Ordered.{OrderedList, ordered}
use levos.Vma.Area.{Area, vma_find, vma_find_free_region, no_region}
use levos.Vma.Insert.{vm_area_create_insert, new_area, copy_vmas, Refs}
use levos.Vma.Load.{vma_load, vma_handle_pagefault, from_file, vma_try_prefault}
use levos.Vma.Mmap.{mapped, do_mmap}
use levos.Vma.Disjoint.{Disjoint}
use levos.Vma.Overlap.{CreateRefines, vm_area_create_insert-CreateRefines}
use levos.Vma.Region.{RegionRefines, vma_find_free_region-RegionRefines}
use levos.Vma.Paging.{IsMapped, FaultRefines}
use levos.Vma.Paging.{vma_handle_pagefault-FaultRefines}
use levos.Vma.Placing.{Placed, do_mmap-Placed}
use levos.Vma.Copy.{copies, backed_by, copy_vmas-copies}
use levos.Vma.Insert.{Refs}

-- a program of two pages, backed by a file of 5000 bytes, and a stack
abbrev text : Area
text = record {
  self = 1;
  vma_start = 0x8000;
  vma_offset = 0;
  vma_end = 0xA000;
  vma_mapping_offset = 4096;
  vma_mapping_length = 5000;
  vma_mapping = some 77;
  vma_flags = 0;
}

abbrev stack : Area
stack = new_area 2 0xBF000000 0 0xC0000000 6

abbrev program : List Area
program = text ∷ stack ∷ []

program-Disjoint : Disjoint program
program-Disjoint = omega arith

lists : OrderedList Area
lists = ordered Area

find_text : vma_find program 0x9FFF ≡ some text
unfolding vma_find
find_text = refl

-- The second page holds the last 904 bytes of the file.
load_second : vma_load text 0x9000 ≡ from_file 77 0x9000 8192 904 0
unfolding vma_load
load_second = refl

prefault_both :
    vma_try_prefault (λ a. false) program 0x8010 0x1000
    ≡ from_file 77 0x8000 4096 4096 0 ∷ from_file 77 0x9000 8192 904 0 ∷ []
unfolding vma_try_prefault vma_find vma_load
prefault_both = refl

vm_area_create_insert-CreateRefines_example :
    CreateRefines
      (new_area 3 0x9000 0 0xB000 8)
      program
      (vm_area_create_insert lists (some 3) 0x9000 0 0xB000 program 8)
vm_area_create_insert-CreateRefines_example =
    vm_area_create_insert-CreateRefines lists 3 0x9000 0 0xB000 8 program program-Disjoint
      (omega arith) (record { page = omega arith; below = omega arith })

region-program : vma_find_free_region program 8192 ≡ 0xA000
unfolding vma_find_free_region
region-program = refl

found : vma_find_free_region program 8192 ≢ no_region
found e = omega (arith, region-program)

vma_find_free_region-RegionRefines_example :
    RegionRefines program 8192 (vma_find_free_region program 8192)
vma_find_free_region-RegionRefines_example =
    vma_find_free_region-RegionRefines program 8192 program-Disjoint found

do_mmap-Placed_example :
    (vma : Area) × (areas' : List Area) × (do_mmap lists (some 3) (some 5) 0 8192 6 0 0 program
      ≡ mapped (vma_find_free_region program 8192) vma areas')
    × Placed program (some 5) (vma_find_free_region program 8192) 8192 vma areas'
do_mmap-Placed_example =
    do_mmap-Placed lists 3 (some 5) 0 8192 6 0 0 program program-Disjoint (omega arith) refl
      (omega arith) found

region-short : vma_find_free_region program 100 ≡ 0xA000
unfolding vma_find_free_region
region-short = refl

found_short : vma_find_free_region program 100 ≢ no_region
found_short e = omega (arith, region-short)

text-IsMapped : IsMapped text 77
text-IsMapped = record {
  proper = record { page = omega arith; below = omega arith };
  mapping = refl;
  signed_len = omega arith;
  area_offsets = omega arith;
  file_offsets = omega arith;
}

vma_handle_pagefault-FaultRefines_example :
    FaultRefines program 0x9123 (vma_handle_pagefault program 0x9123)
vma_handle_pagefault-FaultRefines_example =
    vma_handle_pagefault-FaultRefines program 0x9123 program-Disjoint

abbrev no_refs : Refs
no_refs m = 1

copy_vmas-copies_example :
    (refs' : Refs) × (copy_vmas lists (some 8 ∷ some 9 ∷ []) program no_refs
      ≡ some (copies (8 ∷ 9 ∷ []) program, refs'))
    × ((m : ℕ) → refs' m ≡ no_refs m + backed_by m program)
copy_vmas-copies_example =
    copy_vmas-copies lists (8 ∷ 9 ∷ []) program no_refs refl program-Disjoint (omega arith)
