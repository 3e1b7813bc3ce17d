-- ===== src/Vma/Mmap.antt =====
-- mm/vma.c: `vma_set_mapping`, `do_mmap_fixed` and `do_mmap`.
use levos.Base.{ℕ, ◌&&◌, List, Option, none, some}
use levos.Base.{◌==◌, if◌then◌else◌, add32, neg, test_bit, set_bit, clear_bit}
use levos.Base.Ordered.{OrderedList}
use levos.Vma.Area.{Area, vma_find_free_region, no_region}
use levos.Vma.Insert.{Created, vm_area_create_insert, update_area}

-- `f`: the mapping that `mapping_find_or_create` makes for the file, or no file. VMA_ANONYMOUS is
-- `1 << 0`. `none`: a failed assertion.
unfoldable pub vma_set_mapping : Area → Option ℕ → ℕ → ℕ → Option Area
vma_set_mapping vma f offset len = elim vma.vma_mapping [
  | some old ↦ none
  | none ↦ elim f [
    | none ↦ some (record vma { vma_flags = set_bit 0 vma.vma_flags; vma_mapping = none })
    | some map ↦ some (record vma {
      vma_flags = clear_bit 0 vma.vma_flags;
      vma_mapping = some map;
      vma_mapping_offset = offset;
      vma_mapping_length = len;
    })
  ]
]

-- What `do_mmap` does: the kernel panics, it returns an error, or it returns the address of a new area
-- in a new list.
pub data Mapped : Type 0 where
  panic : Mapped
  error : ℕ → Mapped
  mapped : ℕ → Area → List Area → Mapped

-- `prot`: PROT_WRITE is `1 << 1`, PROT_READ `1 << 2`; VMA_WRITEABLE `1 << 2`, VMA_NOREAD `1 << 4`,
-- VMA_SHARED `1 << 5`; `flags`: MAP_SHARED is `1 << 0`, MAP_FIXED `1 << 2`.
abbrev pub apply_prot : ℕ → ℕ → Area → Area
apply_prot prot flags vma =
    let write = if test_bit 1 prot then set_bit 2 vma.vma_flags else vma.vma_flags in
    let read = if test_bit 2 prot then write else set_bit 4 write in
    record vma { vma_flags = if test_bit 0 flags then set_bit 5 read else read }

-- ENOMEM is 12.
unfoldable pub finish_mmap : ℕ → ℕ → ℕ → Created → Mapped
unfolding update_area
finish_mmap prot flags addr Created.panic = Mapped.panic
finish_mmap prot flags addr Created.null = Mapped.error (neg 12)
finish_mmap prot flags addr (Created.created vma areas) =
    mapped addr (apply_prot prot flags vma)
      (update_area vma.self (λ a. apply_prot prot flags vma) areas)

module _ (lists : OrderedList Area) where
  -- VMA_MMAP is `1 << 3`.
  unfoldable pub do_mmap_fixed : Option ℕ → Option ℕ → ℕ → ℕ → ℕ → List Area → Created
  unfolding vm_area_create_insert vma_set_mapping
  do_mmap_fixed mem f addr len offset areas =
      elim (vm_area_create_insert lists mem addr 0 (add32 addr len) areas 8) [
        | Created.panic ↦ Created.panic
        | Created.null ↦ Created.null
        | Created.created vma inserted ↦ elim (vma_set_mapping vma f offset len) [
          | none ↦ Created.panic
          | some vma' ↦ Created.created vma' (update_area vma.self (λ a. vma') inserted)
        ]
      ]

  -- EINVAL is 22.
  unfoldable pub do_mmap : Option ℕ → Option ℕ → ℕ → ℕ → ℕ → ℕ → ℕ → List Area → Mapped
  unfolding do_mmap_fixed finish_mmap
  do_mmap mem f addr len prot flags offset areas =
      if test_bit 2 flags && (addr == 0)
      then Mapped.error (neg 22)
      else if len == 0
      then Mapped.error (neg 22)
      else if test_bit 2 flags
      then finish_mmap prot flags addr (do_mmap_fixed mem f addr len offset areas)
      else if vma_find_free_region areas len == no_region
      then Mapped.error (neg 12)
      else finish_mmap prot flags (vma_find_free_region areas len)
          (do_mmap_fixed mem f (vma_find_free_region areas len) len offset areas)
