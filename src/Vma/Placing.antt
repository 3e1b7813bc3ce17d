-- ===== src/Vma/Placing.antt =====
-- mm/vma.c: `do_mmap` without MAP_FIXED.
use levos.Base.{ℕ, ◌+◌, ◌≤◌, ◌<◌, ◌≡◌, ◌≢◌, ◌⊎◌, inl, inr, false, List}
use levos.Base.{◌∷◌, ◌++◌, arith, All, refl, Option, none, some, ap, add32, subst, sym}
use levos.Base.{test_bit, ne→==, ◌∙◌, leb, set_bit, clear_bit}
use levos.Base.Ordered.{OrderedList}
use levos.Vma.Area.{Area, vma_find_free_region, no_region}
use levos.Vma.Insert.{Created, panic, null, created, vm_area_create_insert, update_area, new_area}
use levos.Vma.Mmap.{Mapped, mapped, do_mmap, do_mmap_fixed, finish_mmap}
use levos.Vma.Mmap.{apply_prot}
use levos.Vma.Disjoint.{Disjoint, Apart, All-map}
use levos.Vma.Overlap.{IsFresh, CreateRefines, vm_area_create_insert-CreateRefines, All-split}
use levos.Vma.Update.{SameBounds, update_area-append, Disjoint-replace}
use levos.Vma.Region.{vma_find_free_region-RegionRefines}

-- The new area at `r`, as `vma_set_mapping` and the protection flags make it.
abbrev with_mapping : Area → Option ℕ → ℕ → ℕ → Area
with_mapping vma none offset len = record vma {
  vma_flags = set_bit 0 vma.vma_flags;
  vma_mapping = none;
}
with_mapping vma (some map) offset len = record vma {
  vma_flags = clear_bit 0 vma.vma_flags;
  vma_mapping = some map;
  vma_mapping_offset = offset;
  vma_mapping_length = len;
}

with_mapping-SameBounds :
    (vma : Area) (f : Option ℕ) (offset len prot flags : ℕ)
    → SameBounds vma (apply_prot prot flags (with_mapping vma f offset len))
      × ((with_mapping vma f offset len).self ≡ vma.self)
      × ((apply_prot prot flags (with_mapping vma f offset len)).vma_mapping ≡ f)
with_mapping-SameBounds vma none offset len prot flags = ((refl, refl), refl, refl)
with_mapping-SameBounds vma (some map) offset len prot flags = ((refl, refl), refl, refl)

-- `areas'` is `areas` with an area of `len` bytes at `r`, backed by `f`, and is disjoint.
pub record Placed (areas : List Area) (f : Option ℕ) (r len : ℕ) (vma : Area) (areas' : List Area)
    : Type 0 where
  pub start : vma.vma_start ≡ r
  pub end_ : vma.vma_end ≡ r + len
  pub backed : vma.vma_mapping ≡ f
  pub disjoint : Disjoint areas'
  pub before : List Area
  pub after : List Area
  pub old : areas ≡ before ++ after
  pub new : areas' ≡ before ++ (vma ∷ after)

abbrev set_fields : Area → Option ℕ → ℕ → ℕ → Created → Created
set_fields x f offset len (created vma inserted) =
    created (with_mapping x f offset len)
      (update_area x.self (λ a. with_mapping x f offset len) inserted)
set_fields x f offset len other = other

updated_twice :
    (x y z : Area) (pre post inserted : List Area)
    → All (IsFresh x.self) pre
    → y.self ≡ x.self
    → inserted ≡ pre ++ (x ∷ post)
    → update_area y.self (λ a. z) (update_area x.self (λ a. y) inserted) ≡ pre ++ (z ∷ post)
updated_twice x y z pre post inserted fresh same e =
    ap (λ l. update_area y.self (λ a. z) (update_area x.self (λ a. y) l)) e
    ∙ ap (update_area y.self (λ a. z)) (update_area-append x.self (λ a. y) pre post x fresh refl)
    ∙ update_area-append y.self (λ a. z) pre post y
        (subst (λ k. All (IsFresh k) pre) (sym same) fresh) refl

finish-Placed :
    (x : Area) (areas : List Area) (f : Option ℕ) (offset len prot flags : ℕ) (c : Created)
    → x.vma_end ≡ x.vma_start + len
    → All (IsFresh x.self) areas
    → All (Apart x) areas
    → CreateRefines x areas c
    → (vma : Area) × (areas' : List Area) × (finish_mmap prot flags x.vma_start
          (set_fields x f offset len c)
        ≡ mapped x.vma_start vma areas')
      × Placed areas f x.vma_start len vma areas'
unfolding finish_mmap
finish-Placed x areas f offset len prot flags panic size fresh apart h = absurd h
finish-Placed x areas f offset len prot flags null size fresh apart h = absurd (h apart)
finish-Placed x areas f offset len prot flags (created vma inserted) size fresh apart
      (same, _, d, (pre, post, e, e')) =
    let y = with_mapping x f offset len in
    let z = apply_prot prot flags y in
    let bounds = with_mapping-SameBounds x f offset len prot flags in
    let before = (All-split (IsFresh x.self) pre post (subst (All (IsFresh x.self)) e fresh)).0 in
    (
      z,
      pre ++ (z ∷ post),
      ap (mapped x.vma_start z) (updated_twice x y z pre post inserted before bounds.1 e'),
      record {
        start = bounds.0.0;
        end_ = bounds.0.1 ∙ size;
        backed = bounds.2;
        disjoint = Disjoint-replace pre post x z bounds.0 (subst Disjoint e' d);
        before = pre;
        after = post;
        old = e;
        new = refl;
      },
    )

do_mmap_fixed-set_fields :
    (lists : OrderedList Area) (self addr len offset : ℕ) (f : Option ℕ) (areas : List Area)
    (c : Created)
    → vm_area_create_insert lists (some self) addr 0 (add32 addr len) areas 8 ≡ c
    → CreateRefines (new_area self addr 0 (add32 addr len) 8) areas c
    → do_mmap_fixed lists (some self) f addr len offset areas
      ≡ set_fields (new_area self addr 0 (add32 addr len) 8) f offset len c
unfolding do_mmap_fixed
do_mmap_fixed-set_fields lists self addr len offset f areas panic e h = rw (e, do_mmap_fixed)
do_mmap_fixed-set_fields lists self addr len offset f areas null e h = rw (e, do_mmap_fixed)
do_mmap_fixed-set_fields lists self addr len offset none areas (created vma ins) e h =
    rw (e ∙ ap (λ v. created v ins) h.0, do_mmap_fixed)
do_mmap_fixed-set_fields lists self addr len offset (some map) areas (created vma ins) e h =
    rw (e ∙ ap (λ v. created v ins) h.0, do_mmap_fixed)

do_mmap-find :
    (lists : OrderedList Area) (mem f : Option ℕ) (addr len prot flags offset : ℕ)
    (areas : List Area)
    → test_bit 2 flags ≡ false
    → 0 < len
    → vma_find_free_region areas len ≢ no_region
    → do_mmap lists mem f addr len prot flags offset areas
      ≡ finish_mmap prot flags
          (vma_find_free_region areas len)
          (do_mmap_fixed lists mem f (vma_find_free_region areas len) len offset areas)
unfolding do_mmap
do_mmap-find lists mem f addr len prot flags offset areas notfixed pos found =
    rw (notfixed, ne→== len 0 (omega arith), ne→== (vma_find_free_region areas len) no_region found)

-- Without MAP_FIXED, with memory and a free region, `do_mmap` of a page or more returns the start of
-- the region that it found. The new area covers it and is backed by the given file or by none; the
-- list is the old one with that area put in, and stays disjoint.
pub do_mmap-Placed :
    (lists : OrderedList Area) (self : ℕ) (f : Option ℕ) (addr len prot flags offset : ℕ)
    (areas : List Area)
    → Disjoint areas
    → All (IsFresh self) areas
    → test_bit 2 flags ≡ false
    → 4096 ≤ len
    → vma_find_free_region areas len ≢ no_region
    → (vma : Area) × (areas' : List Area) × (do_mmap lists
          (some self)
          f
          addr
          len
          prot
          flags
          offset
          areas
        ≡ mapped (vma_find_free_region areas len) vma areas')
      × Placed areas f (vma_find_free_region areas len) len vma areas'
do_mmap-Placed lists self f addr len prot flags offset areas d fresh notfixed page found =
    let r = vma_find_free_region areas len in
    let x = new_area self r 0 (add32 r len) 8 in
    let region = vma_find_free_region-RegionRefines areas len d found in
    let size : add32 r len ≡ r + len = omega (arith, region.1) in
    let h =
      vm_area_create_insert-CreateRefines lists self r 0 (add32 r len) 8 areas d fresh
        (record { page = omega (arith, size); below = omega (arith, region.1, size) }) in
    let (vma, areas', e, p) =
      finish-Placed x areas f offset len prot flags
        (vm_area_create_insert lists (some self) r 0 (add32 r len) areas 8) size fresh
        (All-map (λ a. (a.vma_end ≤ r) ⊎ (r + len < a.vma_start)) (Apart x) areas
          (λ a k. free_Apart x a k size) region.0)
        h in
    (
      vma,
      areas',
      do_mmap-find lists (some self) f addr len prot flags offset areas notfixed (omega arith) found
          ∙ ap (finish_mmap prot flags r) (
              do_mmap_fixed-set_fields lists self r len offset f areas
                (vm_area_create_insert lists (some self) r 0 (add32 r len) areas 8) refl h)
          ∙ e,
      p,
    )
  where
    free_Apart :
        (x a : Area)
        → (a.vma_end ≤ x.vma_start) ⊎ (x.vma_start + len < a.vma_start)
        → x.vma_end ≡ x.vma_start + len
        → Apart x a
    free_Apart x a (inl k) size = inr k
    free_Apart x a (inr k) size = inl (omega arith)

-- A mapping of some bytes but less than a page, without MAP_FIXED, for which a disjoint list has a
-- free region below the last page, fails the assertion of `vm_area_create_insert`: the kernel
-- panics, whatever memory there is.
pub do_mmap-panic :
    (lists : OrderedList Area) (mem f : Option ℕ) (addr len prot flags offset : ℕ)
    (areas : List Area)
    → Disjoint areas
    → test_bit 2 flags ≡ false
    → 0 < len
    → len < 4096
    → vma_find_free_region areas len ≢ no_region
    → vma_find_free_region areas len < 0xFFFFF000
    → do_mmap lists mem f addr len prot flags offset areas ≡ Mapped.panic
unfolding do_mmap_fixed vm_area_create_insert finish_mmap
do_mmap-panic lists mem f addr len prot flags offset areas d notfixed pos short found low =
    do_mmap-find lists mem f addr len prot flags offset areas notfixed pos found
    ∙ ap (finish_mmap prot flags (vma_find_free_region areas len)) (
        too_short (vma_find_free_region areas len) low
          (vma_find_free_region-RegionRefines areas len d found).1)
  where
    page_test :
        (r : ℕ) → r < 0xFFFFF000 → r + len < 0x100000000 → leb (add32 r 4096) (add32 r len) ≡ false
    page_test r h k = ground arith

    too_short :
        (r : ℕ)
        → r < 0xFFFFF000
        → r + len < 0x100000000
        → do_mmap_fixed lists mem f r len offset areas ≡ panic
    too_short r h k = rw (page_test r h k, do_mmap_fixed, vm_area_create_insert)
