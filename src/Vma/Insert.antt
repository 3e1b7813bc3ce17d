-- ===== src/Vma/Insert.antt =====
-- mm/vma.c: `vm_area_create_insert`, `copy_vmas`, `vma_init` and `vma_unload_all`.
use levos.Base.{ℕ, ◌+◌, ◌-◌, ◌*◌, List, [], ◌∷◌, Option, none, some}
use levos.Base.{◌==◌, leb, ltb, if◌then◌else◌, add32}
use levos.Base.Ordered.{OrderedList}
use levos.Vma.Area.{Area, vm_area_less, vm_area_overlaps}

-- What `vm_area_create_insert` does: a failed assertion, `NULL`, or the new area and the new list.
pub data Created : Type 0 where
  panic : Created
  null : Created
  created : Area → List Area → Created

abbrev pub new_area : ℕ → ℕ → ℕ → ℕ → ℕ → Area
new_area self vaddr_start vaddr_offset vaddr_end flags = record {
  self = self;
  vma_start = vaddr_start;
  vma_offset = vaddr_offset;
  vma_end = vaddr_end;
  vma_mapping_offset = 0;
  vma_mapping_length = 0;
  vma_mapping = none;
  vma_flags = flags;
}

-- The references to each mapping.
abbrev pub Refs : Type 0
Refs = ℕ → ℕ

-- `map_refc ++`
abbrev pub inc_ref : Option ℕ → Refs → Refs
inc_ref none refs = refs
inc_ref (some m) refs = λ k. if k == m then refs k + 1 else refs k

-- `mapping_destroy`: the last reference frees the mapping (0).
abbrev pub dec_ref : Option ℕ → Refs → Refs
dec_ref none refs = refs
dec_ref (some m) refs = λ k. if k == m then (if ltb 1 (refs k) then refs k - 1 else 0) else refs k

-- the list with the area at `self` replaced
unfoldable pub update_area : ℕ → (Area → Area) → List Area → List Area
update_area self f [] = []
update_area self f (a ∷ rest) =
    let later = update_area self f rest in if a.self == self then f a ∷ rest else a ∷ later

-- The fields that `copy_vmas` copies after the insertion, and `mapping_copy`.
abbrev pub copy_fields : Area → Area → Area
copy_fields dst src = record dst {
  vma_mapping_offset = src.vma_mapping_offset;
  vma_mapping_length = src.vma_mapping_length;
  vma_mapping = src.vma_mapping;
}

abbrev pub after_create : Area → Refs → Created → Option (List Area × Refs)
after_create src refs panic = none
after_create src refs null = none
after_create src refs (created vma areas) =
    some (update_area vma.self (λ dst. copy_fields dst src) areas, inc_ref src.vma_mapping refs)

module _ (lists : OrderedList Area) where
  open lists use {insert_ordered}

  -- `mem`: the address that `calloc` returns, if any
  unfoldable pub vm_area_create_insert : Option ℕ → ℕ → ℕ → ℕ → List Area → ℕ → Created
  vm_area_create_insert mem vaddr_start vaddr_offset vaddr_end areas flags =
      if leb (add32 vaddr_start 4096) vaddr_end
      then elim mem [
        | none ↦ null
        | some self ↦
            let vma = new_area self vaddr_start vaddr_offset vaddr_end flags in
            let inserted = insert_ordered vm_area_less vma areas in
            if vm_area_overlaps self inserted then null else created vma inserted
      ]
      else panic

  -- `vma_init`: the stack, of 1000 pages below VIRT_BASE (VMA_WRITEABLE is `1 << 2`, VMA_STACK
  -- `1 << 1`)
  unfoldable pub vma_init : Option ℕ → Created
  unfolding vm_area_create_insert
  vma_init mem = vm_area_create_insert mem (0xC0000000 - 0x1000 * 1000) 0 0xC0000000 [] 6

  -- The loop of `copy_vmas`: `mems` are the results of `calloc`, one for each area of the old task,
  -- `new` is the list of the new task so far. `none`: a failed assertion, or a write through `NULL`.
  unfoldable pub copy_from :
      List (Option ℕ) → List Area → List Area → Refs → Option (List Area × Refs)
  copy_from mems [] new refs = some (new, refs)
  copy_from [] (vma ∷ old) new refs = none
  copy_from (mem ∷ mems) (vma ∷ old) new refs =
      elim (after_create vma refs
        (vm_area_create_insert mem vma.vma_start vma.vma_offset vma.vma_end new vma.vma_flags)) [
          | none ↦ none
          | some (new', refs') ↦ copy_from mems old new' refs'
        ]

  unfoldable pub copy_vmas : List (Option ℕ) → List Area → Refs → Option (List Area × Refs)
  unfolding copy_from
  copy_vmas mems old refs = copy_from mems old [] refs

-- `vma_destroy` of each area
unfoldable pub vma_unload_all : List Area → Refs → List Area × Refs
vma_unload_all [] refs = ([], refs)
vma_unload_all (vma ∷ rest) refs = vma_unload_all rest (dec_ref vma.vma_mapping refs)
