-- ===== src/Vma/Load.antt =====
-- mm/vma.c: what a page fault on an area loads.
use levos.Base.{ℕ, zero, suc, ◌+◌, ◌*◌, ◌/◌, Bool, ◌&&◌, List, [], ◌∷◌}
use levos.Base.{Option, none, some, ◌==◌, ltb, leb, if◌then◌else◌, add32, sub32, test_bit, ◌%◌}
use levos.Vma.Area.{Area, vma_find}

abbrev pub pg_rnd_down : ℕ → ℕ
pg_rnd_down a = a / 4096 * 4096

abbrev pub pg_rnd_up : ℕ → ℕ
pg_rnd_up a = add32 a 4095 / 4096 * 4096

-- What is done with the page at an address: a failed assertion; a page of zeroes; or a page that holds
-- `max_len` bytes of the mapped file from `map_begin` on, and zeroes after them
-- (`mapping_load(mapping, addr, map_begin, max_len, flags)`).
pub data Fill : Type 0 where
  panic : Fill
  zeroes : ℕ → Fill
  from_file : ℕ → ℕ → ℕ → ℕ → ℕ → Fill

-- `max_len` is a signed number: from `0x80000000` on it is negative.
abbrev pub clamp_len : ℕ → ℕ
clamp_len max_len =
    if leb 0x80000000 max_len then 0 else if ltb 0x1000 max_len then 0x1000 else max_len

unfoldable pub load_mapped : Area → ℕ → ℕ → Fill
load_mapped vma map addr =
    let offset = sub32 addr vma.vma_start in
    let map_begin = add32 vma.vma_mapping_offset offset in
    let map_end = add32 vma.vma_mapping_offset vma.vma_mapping_length in
    let read_bytes = vma.vma_mapping_length in
    let zero_bytes = sub32 (sub32 vma.vma_end read_bytes) vma.vma_start in
    if leb (pg_rnd_up map_end) map_begin
    then zeroes addr
    else if leb vma.vma_start addr && leb addr (add32 (add32 vma.vma_start read_bytes) zero_bytes)
    then from_file map addr map_begin (clamp_len (sub32 read_bytes offset)) vma.vma_flags
    else panic

unfoldable pub vma_load : Area → ℕ → Fill
unfolding load_mapped
vma_load vma addr =
    if addr % 4096 == 0
    then elim vma.vma_mapping [ none ↦ zeroes addr | some map ↦ load_mapped vma map addr ]
    else panic

-- `none`: the fault is not handled (1). VMA_RESERVED is `1 << 6`.
unfoldable pub vma_handle_pagefault : List Area → ℕ → Option Fill
unfolding vma_load
vma_handle_pagefault areas req_addr = elim (vma_find areas (pg_rnd_down req_addr)) [
  | none ↦ none
  | some vma ↦ if test_bit 6 vma.vma_flags then none else some (vma_load vma (pg_rnd_down req_addr))
]

-- The loop of `vma_try_prefault` on fuel: `present` says for which addresses the page table has a
-- page already. The result is what is loaded, in order.
unfoldable pub prefault_from : ℕ → (ℕ → Bool) → List Area → ℕ → ℕ → List Fill
prefault_from zero present areas base limit = []
prefault_from (suc fuel) present areas base limit =
    let rest = prefault_from fuel present areas (add32 base 4096) limit in
    let loaded : List Fill = elim (vma_find areas base) [
      | none ↦ rest
      | some vma ↦ vma_load vma base ∷ rest
    ] in
    if ltb base limit then if present base then rest else loaded else []

-- One round for each page of the address space.
unfoldable pub vma_try_prefault : (ℕ → Bool) → List Area → ℕ → ℕ → List Fill
unfolding prefault_from
vma_try_prefault present areas addr len =
    prefault_from ((len + 8191) / 4096) present areas (pg_rnd_down addr)
      (pg_rnd_up (add32 addr len))
