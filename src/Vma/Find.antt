-- ===== src/Vma/Find.antt =====
-- mm/vma.c: `vma_find` on a disjoint list.
use levos.Base.{ℕ, ◌≤◌, ◌<◌, ◌≡◌, ◌⊎◌, inl, inr, true, false, List, [], ◌∷◌, ◌++◌}
use levos.Base.{arith, All, refl, Option, none, some, Bool-cases, ap}
use levos.Vma.Area.{Area, vma_find, covers}
use levos.Vma.Disjoint.{Disjoint, StartsFrom, Disjoint-StartsFrom, All-map}

abbrev pub Contains : ℕ → Area → Type 0
Contains addr a = (a.vma_start ≤ addr) × (addr < a.vma_end)

abbrev pub Misses : ℕ → Area → Type 0
Misses addr a = (addr < a.vma_start) ⊎ (a.vma_end ≤ addr)

-- The area that was found is in the list and contains the address, and no other area does; none was
-- found if no area contains the address.
abbrev pub FindRefines : List Area → ℕ → Option Area → Type 0
FindRefines areas addr none = All (Misses addr) areas
FindRefines areas addr (some a) =
    (pre : List Area) × (post : List Area) × (areas ≡ pre ++ (a ∷ post))
    × Contains addr a
    × All (Misses addr) pre
    × All (Misses addr) post

covers-true : (a : Area) (addr : ℕ) → covers a addr ≡ true → Contains addr a
covers-true a addr h = ground arith

covers-false : (a : Area) (addr : ℕ) → covers a addr ≡ false → Misses addr a
covers-false a addr h = ground arith

FindRefines-cons :
    (a : Area) (rest : List Area) (addr : ℕ) (r : Option Area)
    → Misses addr a
    → FindRefines rest addr r
    → FindRefines (a ∷ rest) addr r
FindRefines-cons a rest addr none m h = (m, h)
FindRefines-cons a rest addr (some b) m (pre, post, e, c, before, after) =
    (a ∷ pre, post, ap (λ l. a ∷ l) e, c, (m, before), after)

-- In a disjoint list `vma_find` finds the one area that contains the address, if there is one.
pub vma_find-FindRefines :
    (areas : List Area) (addr : ℕ) → Disjoint areas → FindRefines areas addr (vma_find areas addr)
unfolding vma_find
vma_find-FindRefines [] addr d = tt
vma_find-FindRefines (a ∷ rest) addr d = elim (Bool-cases (covers a addr)) [
  | inl h ↦ rw h (
    [],
    rest,
    refl,
    covers-true a addr h,
    tt,
    All-map (StartsFrom a.vma_end) (Misses addr) rest
        (λ b k. inl (omega (arith, (covers-true a addr h).1))) (Disjoint-StartsFrom a rest d),
  )
  | inr h ↦ rw h (
      FindRefines-cons a rest addr (vma_find rest addr) (covers-false a addr h)
        (vma_find-FindRefines rest addr d.2))
]
