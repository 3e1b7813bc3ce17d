-- ===== src/Vma/Paging.antt =====
-- mm/vma.c: what a page fault brings into memory.
use levos.Base.{ℕ, ◌+◌, ◌-◌, ◌%◌, ◌≤◌, ◌<◌, ◌≡◌, ◌⊎◌, inl, inr, true, false, List}
use levos.Base.{arith, All, refl, Option, none, some, Bool-cases, min, test_bit, leb}
use levos.Base.{add32, sub32, if◌then◌else◌, ◌&&◌, eq→==, subst, sym}
use levos.Vma.Area.{Area, vma_find}
use levos.Vma.Load.{Fill, panic, zeroes, from_file, load_mapped, vma_load, vma_handle_pagefault}
use levos.Vma.Load.{pg_rnd_down, clamp_len}
use levos.Vma.Disjoint.{Proper, Disjoint}
use levos.Vma.Find.{Contains, Misses, FindRefines, vma_find-FindRefines}

-- The mapped part of the file lies below 2 ^ 31 bytes, and no offset into the file for an address of
-- the area, rounded up to a page, leaves 32 bits.
pub record IsMapped (vma : Area) (map : ℕ) : Type 0 where
  pub proper : Proper vma
  pub mapping : vma.vma_mapping ≡ some map
  pub signed_len : vma.vma_mapping_length < 0x80000000
  pub area_offsets : vma.vma_mapping_offset + (vma.vma_end - vma.vma_start) < 0xFFFFF000
  pub file_offsets : vma.vma_mapping_offset + vma.vma_mapping_length < 0xFFFFF000

-- The page at `addr` gets the bytes of the file that belong there, at most a page and no more than the
-- mapping has, and zeroes behind them; `zeroes` stands for a page with no byte of the file.
abbrev pub LoadRefines : Area → ℕ → ℕ → Fill → Type 0
LoadRefines vma map addr panic = ⊥
LoadRefines vma map addr (zeroes a) = (a ≡ addr) × (vma.vma_mapping_length ≤ addr - vma.vma_start)
LoadRefines vma map addr (from_file m a begin len flags) =
    (m ≡ map)
    × (a ≡ addr)
    × (begin ≡ vma.vma_mapping_offset + (addr - vma.vma_start))
    × (len ≡ min 4096 (vma.vma_mapping_length - (addr - vma.vma_start)))
    × (flags ≡ vma.vma_flags)

-- the assertion of `vma_load`
in_area :
    (a s e n : ℕ)
    → s ≤ a
    → a < e
    → s + 4096 ≤ e
    → e < 0x100000000
    → n < 0x80000000
    → (leb s a && leb a (add32 (add32 s n) (sub32 (sub32 e n) s))) ≡ true
in_area a s e n lo hi page top small = ground arith

clamp_lem :
    (a s e n : ℕ)
    → s ≤ a
    → a < e
    → e < 0x100000000
    → n < 0x80000000
    → a - s < 0x80000000
    → clamp_len (sub32 n (sub32 a s)) ≡ min 4096 (n - (a - s))
clamp_lem a s e n lo hi top small near = ground arith

load_mapped-LoadRefines :
    (vma : Area) (map addr : ℕ)
    → IsMapped vma map
    → Contains addr vma
    → addr - vma.vma_start < 0x80000000
    → LoadRefines vma map addr (load_mapped vma map addr)
unfolding load_mapped
load_mapped-LoadRefines vma map addr m c near = ground (
  arith,
  m.proper.page,
  m.proper.below,
  m.signed_len,
  m.area_offsets,
  m.file_offsets,
  in_area addr vma.vma_start vma.vma_end vma.vma_mapping_length,
  clamp_lem addr vma.vma_start vma.vma_end vma.vma_mapping_length,
)

-- Loading the page at an aligned address of a mapped area, less than 2 ^ 31 bytes into it, never
-- fails its assertions. The page gets the bytes of the file that belong there, at most a page and no
-- more than the mapping has, or zeroes if the mapping ends before it. The mapping is shorter than 2
-- ^ 31 bytes.
pub vma_load-LoadRefines :
    (vma : Area) (map addr : ℕ)
    → IsMapped vma map
    → Contains addr vma
    → addr - vma.vma_start < 0x80000000
    → addr % 4096 ≡ 0
    → LoadRefines vma map addr (vma_load vma addr)
unfolding vma_load
vma_load-LoadRefines vma map addr m c near aligned =
    subst (LoadRefines vma map addr) (sym load) (load_mapped-LoadRefines vma map addr m c near)
  where
    load : vma_load vma addr ≡ load_mapped vma map addr
    load = rw (eq→== (addr % 4096) 0 aligned, m.mapping)

-- A fault is refused exactly if no area contains its page or the one that does is reserved
-- (VMA_RESERVED is `1 << 6`); otherwise that area is loaded at the page's address.
abbrev pub FaultRefines : List Area → ℕ → Option Fill → Type 0
FaultRefines areas req none =
    All (Misses (pg_rnd_down req)) areas
    ⊎ ((a : Area) × FindRefines areas (pg_rnd_down req) (some a) × (test_bit 6 a.vma_flags ≡ true))
FaultRefines areas req (some fill) =
    (a : Area) × FindRefines areas (pg_rnd_down req) (some a)
    × (test_bit 6 a.vma_flags ≡ false)
    × (fill ≡ vma_load a (pg_rnd_down req))

abbrev after_find : ℕ → Option Area → Option Fill
after_find req none = none
after_find req (some a) =
    if test_bit 6 a.vma_flags then none else some (vma_load a (pg_rnd_down req))

after_find-FaultRefines :
    (areas : List Area) (req : ℕ) (r : Option Area)
    → FindRefines areas (pg_rnd_down req) r
    → FaultRefines areas req (after_find req r)
after_find-FaultRefines areas req none h = inl h
after_find-FaultRefines areas req (some a) h = elim (Bool-cases (test_bit 6 a.vma_flags)) [
  | inl e ↦ rw e (inr (a, h, e))
  | inr e ↦ rw e (a, h, e, refl)
]

after_find_lem :
    (areas : List Area) (req : ℕ) (r : Option Area)
    → vma_find areas (pg_rnd_down req) ≡ r
    → vma_handle_pagefault areas req ≡ after_find req r
unfolding vma_handle_pagefault
after_find_lem areas req none e = rw (e, vma_handle_pagefault)
after_find_lem areas req (some a) e = rw (e, vma_handle_pagefault)

-- On a disjoint list `vma_handle_pagefault` loads the page of the one area that contains it, and
-- refuses the fault if there is none or it is reserved.
pub vma_handle_pagefault-FaultRefines :
    (areas : List Area) (req : ℕ)
    → Disjoint areas
    → FaultRefines areas req (vma_handle_pagefault areas req)
vma_handle_pagefault-FaultRefines areas req d =
    rw (after_find_lem areas req (vma_find areas (pg_rnd_down req)) refl) (
      after_find-FaultRefines areas req (vma_find areas (pg_rnd_down req))
        (vma_find-FindRefines areas (pg_rnd_down req) d))
