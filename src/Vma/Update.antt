-- ===== src/Vma/Update.antt =====
-- mm/vma.c: setting the fields of one area of a list.
use levos.Base.{ℕ, ◌≡◌, List, [], ◌∷◌, ◌++◌, arith, All}
use levos.Base.{eq→==, ne→==, ap}
use levos.Vma.Area.{Area}
use levos.Vma.Insert.{update_area}
use levos.Vma.Disjoint.{Proper, Follows, Disjoint}
use levos.Vma.Overlap.{IsFresh}

-- The area at `self` is found behind areas at other addresses.
pub update_area-append :
    (self : ℕ) (f : Area → Area) (pre post : List Area) (x : Area)
    → All (IsFresh self) pre
    → x.self ≡ self
    → update_area self f (pre ++ (x ∷ post)) ≡ pre ++ (f x ∷ post)
unfolding update_area
update_area-append self f [] post x fresh e = rw (eq→== x.self self e)
update_area-append self f (a ∷ pre) post x fresh e =
    rw (ne→== a.self self fresh.0)
      (ap (λ l. a ∷ l) (update_area-append self f pre post x fresh.1 e))

abbrev pub SameBounds : Area → Area → Type 0
SameBounds x y = (y.vma_start ≡ x.vma_start) × (y.vma_end ≡ x.vma_end)

Proper-replace : (x y : Area) → SameBounds x y → Proper x → Proper y
Proper-replace x y same p = record { page = omega (arith, p.page); below = omega (arith, p.below) }

Follows-replace : (x y : Area) (post : List Area) → SameBounds x y → Follows x post → Follows y post
Follows-replace x y [] same h = tt
Follows-replace x y (b ∷ rest) same h = omega arith

-- A list stays disjoint when an area is replaced by one with the same bounds.
pub Disjoint-replace :
    (pre post : List Area) (x y : Area)
    → SameBounds x y
    → Disjoint (pre ++ (x ∷ post))
    → Disjoint (pre ++ (y ∷ post))
Disjoint-replace [] post x y same d =
    (Proper-replace x y same d.0, Follows-replace x y post same d.1, d.2)
Disjoint-replace (a ∷ []) post x y same d =
    (d.0, omega (arith, d.1), Disjoint-replace [] post x y same d.2)
Disjoint-replace (a ∷ b ∷ pre) post x y same d =
    (d.0, d.1, Disjoint-replace (b ∷ pre) post x y same d.2)
