-- ===== src/Vma/Disjoint.antt =====
-- mm/vma.c: the invariant of an area list: every area covers at least a page of the address space, and
-- the areas are in order and do not overlap.
use levos.Base.{ℕ, ◌+◌, ◌≤◌, ◌<◌, ◌⊎◌, inl, List, [], ◌∷◌}
use levos.Base.{◌++◌, arith, All}
use levos.Vma.Area.{Area}

pub record Proper (a : Area) : Type 0 where
  pub page : a.vma_start + 4096 ≤ a.vma_end
  pub below : a.vma_end < 0x100000000

abbrev pub Follows : Area → List Area → Type 0
Follows a [] = Unit
Follows a (b ∷ rest) = a.vma_end ≤ b.vma_start

abbrev pub Disjoint : List Area → Type 0
Disjoint [] = Unit
Disjoint (a ∷ rest) = Proper a × Follows a rest × Disjoint rest

-- The two areas have no address in common.
abbrev pub Apart : Area → Area → Type 0
Apart a b = (a.vma_end ≤ b.vma_start) ⊎ (b.vma_end ≤ a.vma_start)

-- Every area of the list ends at `n` or below it, or starts at `n` or above it.
abbrev pub EndsBy : ℕ → Area → Type 0
EndsBy n a = a.vma_end ≤ n

abbrev pub StartsFrom : ℕ → Area → Type 0
StartsFrom n a = n ≤ a.vma_start

pub All-map :
    (P Q : Area → Type 0) (xs : List Area) → ((a : Area) → P a → Q a) → All P xs → All Q xs
All-map P Q [] f h = tt
All-map P Q (x ∷ xs) f h = (f x h.0, All-map P Q xs f h.1)

-- All that follows an area starts where it ends or later.
pub Disjoint-StartsFrom :
    (a : Area) (rest : List Area) → Disjoint (a ∷ rest) → All (StartsFrom a.vma_end) rest
Disjoint-StartsFrom a [] d = tt
Disjoint-StartsFrom a (b ∷ rest) d = (
  d.1,
  All-map (StartsFrom b.vma_end) (StartsFrom a.vma_end) rest (λ c h. omega (arith, d.1, d.2.0.page))
      (Disjoint-StartsFrom b rest d.2),
)

pub Disjoint-head-Apart : (a : Area) (rest : List Area) → Disjoint (a ∷ rest) → All (Apart a) rest
Disjoint-head-Apart a rest d =
    All-map (StartsFrom a.vma_end) (Apart a) rest (λ c h. inl h) (Disjoint-StartsFrom a rest d)

-- The two parts of a disjoint list are disjoint lists.
pub Disjoint-take : (pre post : List Area) → Disjoint (pre ++ post) → Disjoint pre
Disjoint-take [] post d = tt
Disjoint-take (a ∷ []) post d = (d.0, tt, tt)
Disjoint-take (a ∷ b ∷ pre) post d = (d.0, d.1, Disjoint-take (b ∷ pre) post d.2)

pub Disjoint-drop : (pre post : List Area) → Disjoint (pre ++ post) → Disjoint post
Disjoint-drop [] post d = d
Disjoint-drop (a ∷ pre) post d = Disjoint-drop pre post d.2

-- An area fits between two parts of a disjoint list if the first part ends before it and the second
-- starts after it.
pub Disjoint-insert :
    (pre post : List Area) (x : Area)
    → Disjoint (pre ++ post)
    → Proper x
    → All (EndsBy x.vma_start) pre
    → Follows x post
    → Disjoint (pre ++ (x ∷ post))
Disjoint-insert [] post x d p before after = (p, after, d)
Disjoint-insert (a ∷ []) post x d p before after = (d.0, before.0, (p, after, d.2))
Disjoint-insert (a ∷ b ∷ pre) post x d p before after =
    (d.0, d.1, Disjoint-insert (b ∷ pre) post x d.2 p before.1 after)

-- In a disjoint list whose areas all start by `n`, the areas end by `n` if the last one does.
abbrev pub LastEndsBy : ℕ → List Area → Type 0
LastEndsBy n [] = Unit
LastEndsBy n (a ∷ []) = a.vma_end ≤ n
LastEndsBy n (a ∷ b ∷ rest) = LastEndsBy n (b ∷ rest)

pub All-EndsBy : (pre : List Area) (n : ℕ) → Disjoint pre → LastEndsBy n pre → All (EndsBy n) pre
All-EndsBy [] n d h = tt
All-EndsBy (a ∷ []) n d h = (h, tt)
All-EndsBy (a ∷ b ∷ rest) n d h =
    let ih = All-EndsBy (b ∷ rest) n d.2 h in (omega (arith, d.1, d.2.0.page, ih.0), ih)
