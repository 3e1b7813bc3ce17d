-- ===== src/Vma/Region.antt =====
-- mm/vma.c: the region that `vma_find_free_region` finds.
use levos.Base.{ℕ, ◌+◌, ◌≤◌, ◌<◌, ◌≡◌, ◌≢◌, ◌⊎◌, inl, inr, true, false, List, []}
use levos.Base.{◌∷◌, arith, All, refl, Bool-cases, ltb, sub32}
use levos.Base.{◌∙◌, sym, le_refl, subst}
use levos.Vma.Area.{Area, vma_find_free_region, region_after, no_region}
use levos.Vma.Disjoint.{Proper, Disjoint, StartsFrom, All-map}
use levos.Vma.Disjoint.{Disjoint-StartsFrom}

-- Every area of the list ends by `r` or starts after `r + len`, which is an address.
abbrev pub IsFree : ℕ → ℕ → List Area → Type 0
IsFree r len areas = All (λ a. (a.vma_end ≤ r) ⊎ (r + len < a.vma_start)) areas

-- The region is free with `len` more bytes behind it than are asked for at most by its end.
abbrev pub RegionRefines : List Area → ℕ → ℕ → Type 0
RegionRefines areas len r = IsFree r len areas × (r + len < 0x100000000)

gap_test :
    (a b : Area) (len : ℕ)
    → Proper a
    → Proper b
    → a.vma_end ≤ b.vma_start
    → ltb len (sub32 b.vma_start a.vma_end) ≡ true
    → a.vma_end + len < b.vma_start
gap_test a b len p q h t = ground (arith, p.below, q.page, q.below)

abbrev RegionFrom : Area → List Area → ℕ → ℕ → Type 0
RegionFrom a rest len r = (a.vma_end ≤ r) × RegionRefines rest len r

region_after-RegionFrom :
    (a : Area) (rest : List Area) (len : ℕ)
    → Disjoint (a ∷ rest)
    → region_after a rest len ≢ no_region
    → RegionFrom a rest len (region_after a rest len)
unfolding region_after
region_after-RegionFrom a [] len d found = absurd (found refl)
region_after-RegionFrom a (b ∷ rest) len d found =
    elim (Bool-cases (ltb len (sub32 b.vma_start a.vma_end))) [
      | inl h ↦
          let gap : a.vma_end + len < b.vma_start = gap_test a b len d.0 d.2.0 d.1 h in
          subst (RegionFrom a (b ∷ rest) len) (sym (here h)) (
            le_refl a.vma_end,
            (
              (
                inr gap,
                All-map (StartsFrom b.vma_end)
                    (λ c. (c.vma_end ≤ a.vma_end) ⊎ (a.vma_end + len < c.vma_start)) rest
                    (λ c k. inr (omega (arith, gap, d.2.0.page))) (Disjoint-StartsFrom b rest d.2),
              ),
              omega (arith, gap, d.2.0.page, d.2.0.below),
            ),
          )
      | inr h ↦
          let ih = region_after-RegionFrom b rest len d.2 (λ e. found (later h ∙ e)) in
          subst (RegionFrom a (b ∷ rest) len) (sym (later h))
            (omega (arith, ih.0, d.1, d.2.0.page), ((inl ih.0, ih.1.0), ih.1.1))
    ]
  where
    here : ltb len (sub32 b.vma_start a.vma_end) ≡ true → region_after a (b ∷ rest) len ≡ a.vma_end
    here h = rw h

    later :
        ltb len (sub32 b.vma_start a.vma_end) ≡ false
        → region_after a (b ∷ rest) len ≡ region_after b rest len
    later h = rw h

-- What `vma_find_free_region` returns on a disjoint list, other than -1, is the start of `len` bytes
-- of the address space that no area of the list meets.
pub vma_find_free_region-RegionRefines :
    (areas : List Area) (len : ℕ)
    → Disjoint areas
    → vma_find_free_region areas len ≢ no_region
    → RegionRefines areas len (vma_find_free_region areas len)
unfolding vma_find_free_region
vma_find_free_region-RegionRefines [] len d found = absurd (found refl)
vma_find_free_region-RegionRefines (a ∷ rest) len d found =
    let r = region_after-RegionFrom a rest len d found in ((inl r.0, r.1.0), r.1.1)
