-- ===== src/Vma/Area.antt =====
-- include/levos/vma.h and mm/vma.c: an area, and the readers of the list of areas.
use levos.Base.{ℕ, Bool, false, ◌&&◌, ◌||◌, List, [], ◌∷◌, Option, none, some}
use levos.Base.{◌==◌, ltb, leb, if◌then◌else◌, sub32}

-- `struct vm_area`
pub record Area : Type 0 where
  pub self : ℕ
  pub vma_start : ℕ
  pub vma_offset : ℕ
  pub vma_end : ℕ
  pub vma_mapping_offset : ℕ
  pub vma_mapping_length : ℕ
  pub vma_mapping : Option ℕ
  pub vma_flags : ℕ

abbrev pub vm_area_less : Area → Area → Bool
vm_area_less a b = ltb a.vma_start b.vma_start

abbrev pub vm_area_check_overlap : Area → Area → Bool
vm_area_check_overlap a b = ltb b.vma_start a.vma_end

abbrev pub before_overlaps : Option Area → Area → Bool
before_overlaps none vma = false
before_overlaps (some prev) vma = vm_area_check_overlap prev vma

abbrev pub after_overlaps : Area → List Area → Bool
after_overlaps vma [] = false
after_overlaps vma (next ∷ rest) = vm_area_check_overlap vma next

-- `vm_area_overlaps` for the area at the address `self`: `prev` is the element before the list.
unfoldable pub overlaps_from : Option Area → ℕ → List Area → Bool
overlaps_from prev self [] = false
overlaps_from prev self (a ∷ rest) =
    let later = overlaps_from (some a) self rest in
    if a.self == self then before_overlaps prev a || after_overlaps a rest else later

unfoldable pub vm_area_overlaps : ℕ → List Area → Bool
unfolding overlaps_from
vm_area_overlaps self areas = overlaps_from none self areas

abbrev pub covers : Area → ℕ → Bool
covers vma addr = leb vma.vma_start addr && ltb addr vma.vma_end

unfoldable pub vma_find : List Area → ℕ → Option Area
vma_find [] addr = none
vma_find (vma ∷ rest) addr =
    let later = vma_find rest addr in if covers vma addr then some vma else later

-- `-1`
abbrev pub no_region : ℕ
no_region = 0xFFFFFFFF

-- The loop of `vma_find_free_region` after its first element.
unfoldable pub region_after : Area → List Area → ℕ → ℕ
region_after prev [] len = no_region
region_after prev (vma ∷ rest) len =
    let later = region_after vma rest len in
    if ltb len (sub32 vma.vma_start prev.vma_end) then prev.vma_end else later

unfoldable pub vma_find_free_region : List Area → ℕ → ℕ
unfolding region_after
vma_find_free_region [] len = no_region
vma_find_free_region (vma ∷ rest) len = region_after vma rest len
