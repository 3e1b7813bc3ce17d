-- ===== src/Vma/Overlap.antt =====
-- mm/vma.c: `vm_area_create_insert`, which looks at the two neighbours of the new area.
use levos.Base.{ℕ, ◌+◌, ◌≤◌, ◌<◌, ◌≡◌, ◌≢◌, inl, inr, Bool, true, false, List, [], ◌∷◌}
use levos.Base.{◌++◌, arith, All, refl, Option, none, some, ◌||◌, if◌then◌else◌, leb}
use levos.Base.{All-append, Bool-cases, subst, sym, ◌∙◌, ne→==, eq→==, add32, ap}
use levos.Base.Ordered.{OrderedList, IsInsertion, Precedes}
use levos.Vma.Area.{Area, vm_area_less, vm_area_overlaps, overlaps_from, before_overlaps}
use levos.Vma.Area.{after_overlaps}
use levos.Vma.Insert.{Created, panic, null, created, vm_area_create_insert, new_area}
use levos.Vma.Disjoint.{Proper, Follows, Disjoint, Apart, EndsBy, StartsFrom, All-map, LastEndsBy}
use levos.Vma.Disjoint.{Disjoint-StartsFrom, Disjoint-take, Disjoint-drop, Disjoint-insert}
use levos.Vma.Disjoint.{All-EndsBy}

abbrev pub IsFresh : ℕ → Area → Type 0
IsFresh self a = a.self ≢ self

abbrev last_area : Option Area → List Area → Option Area
last_area prev [] = prev
last_area prev (a ∷ rest) = last_area (some a) rest

pub All-split : (P : Area → Type 0) (xs ys : List Area) → All P (xs ++ ys) → All P xs × All P ys
All-split P [] ys h = (tt, h)
All-split P (x ∷ xs) ys h = let r = All-split P xs ys h.1 in ((h.0, r.0), r.1)

-- The scan finds the new area between the two parts of the list.
overlaps_from-append :
    (prev : Option Area) (pre post : List Area) (x : Area)
    → All (IsFresh x.self) pre
    → overlaps_from prev x.self (pre ++ (x ∷ post))
      ≡ (before_overlaps (last_area prev pre) x || after_overlaps x post)
unfolding overlaps_from
overlaps_from-append prev [] post x fresh = rw (eq→== x.self x.self refl)
overlaps_from-append prev (a ∷ pre) post x fresh =
    rw (ne→== a.self x.self fresh.0) (overlaps_from-append (some a) pre post x fresh.1)

LastEndsBy-of_test :
    (pre : List Area) (x : Area)
    → before_overlaps (last_area none pre) x ≡ false
    → LastEndsBy x.vma_start pre
LastEndsBy-of_test [] x h = tt
LastEndsBy-of_test (a ∷ []) x h = ground arith
LastEndsBy-of_test (a ∷ b ∷ rest) x h = LastEndsBy-of_test (b ∷ rest) x h

test-of_LastEndsBy :
    (pre : List Area) (x : Area)
    → LastEndsBy x.vma_start pre
    → before_overlaps (last_area none pre) x ≡ false
test-of_LastEndsBy [] x h = refl
test-of_LastEndsBy (a ∷ []) x h = ground arith
test-of_LastEndsBy (a ∷ b ∷ rest) x h = test-of_LastEndsBy (b ∷ rest) x h

abbrev NotAfter : Area → Area → Type 0
NotAfter x a = a.vma_start ≤ x.vma_start

LastEndsBy-of_Apart :
    (pre : List Area) (x : Area)
    → Proper x
    → Disjoint pre
    → All (NotAfter x) pre
    → All (Apart x) pre
    → LastEndsBy x.vma_start pre
LastEndsBy-of_Apart [] x p d before apart = tt
LastEndsBy-of_Apart (a ∷ []) x p d before apart = omega (arith, p.page, d.0.page)
LastEndsBy-of_Apart (a ∷ b ∷ rest) x p d before apart =
    LastEndsBy-of_Apart (b ∷ rest) x p d.2 before.1 apart.1

Follows-of_Apart :
    (post : List Area) (x : Area)
    → Disjoint post
    → Precedes vm_area_less x post
    → All (Apart x) post
    → Follows x post
Follows-of_Apart [] x d before apart = tt
Follows-of_Apart (b ∷ rest) x d before apart = ground (arith, d.0.page)

after_overlaps-of_Follows :
    (post : List Area) (x : Area) → Follows x post → after_overlaps x post ≡ false
after_overlaps-of_Follows [] x h = refl
after_overlaps-of_Follows (b ∷ rest) x h = ground arith

Follows-of_test : (post : List Area) (x : Area) → after_overlaps x post ≡ false → Follows x post
Follows-of_test [] x h = tt
Follows-of_test (b ∷ rest) x h = ground arith

-- What is known of the new area `x`, put between `pre` and `post`.
record Placed (pre post : List Area) (x : Area) : Type 0 where
  proper : Proper x
  disjoint : Disjoint (pre ++ post)
  fresh : All (IsFresh x.self) (pre ++ post)
  not_after : All (NotAfter x) pre
  precedes : Precedes vm_area_less x post

Placed-test :
    (pre post : List Area) (x : Area)
    → Placed pre post x
    → vm_area_overlaps x.self (pre ++ (x ∷ post))
      ≡ (before_overlaps (last_area none pre) x || after_overlaps x post)
unfolding vm_area_overlaps
Placed-test pre post x p =
    overlaps_from-append none pre post x (All-split (IsFresh x.self) pre post p.fresh).0

or_false : (a b : Bool) → (a || b) ≡ false → (a ≡ false) × (b ≡ false)
or_false a b h = ground arith

-- The test passes: the new list is disjoint and the new area apart from all others.
Placed-clear :
    (pre post : List Area) (x : Area)
    → Placed pre post x
    → vm_area_overlaps x.self (pre ++ (x ∷ post)) ≡ false
    → Disjoint (pre ++ (x ∷ post)) × All (Apart x) (pre ++ post)
Placed-clear pre post x p h =
    let tests = or_false _ _ (sym (Placed-test pre post x p) ∙ h) in
    let ends : All (EndsBy x.vma_start) pre =
      All-EndsBy pre x.vma_start (Disjoint-take pre post p.disjoint)
        (LastEndsBy-of_test pre x tests.0) in
    let follows : Follows x post = Follows-of_test post x tests.1 in
    (
      Disjoint-insert pre post x p.disjoint p.proper ends follows,
      All-append (Apart x) pre post (All-map (EndsBy x.vma_start) (Apart x) pre (λ a k. inr k) ends)
          (All-map (StartsFrom x.vma_end) (Apart x) post (λ a k. inl k)
            (Disjoint-StartsFrom x post (p.proper, follows, Disjoint-drop pre post p.disjoint))),
    )

-- The new area is apart from all others: the test passes.
Placed-Apart :
    (pre post : List Area) (x : Area)
    → Placed pre post x
    → All (Apart x) (pre ++ post)
    → vm_area_overlaps x.self (pre ++ (x ∷ post)) ≡ false
Placed-Apart pre post x p apart =
    let parts = All-split (Apart x) pre post apart in
    Placed-test pre post x p
    ∙ rw (
      test-of_LastEndsBy pre x (
          LastEndsBy-of_Apart pre x p.proper (Disjoint-take pre post p.disjoint) p.not_after
            parts.0),
      after_overlaps-of_Follows post x
          (Follows-of_Apart post x (Disjoint-drop pre post p.disjoint) p.precedes parts.1),
    )

-- `created` carries the new area and a disjoint list that is the old one with that area put in; the
-- new area is then apart from all others. `null` means that it is not.
abbrev pub CreateRefines : Area → List Area → Created → Type 0
CreateRefines x areas panic = ⊥
CreateRefines x areas null = ¬ (All (Apart x) areas)
CreateRefines x areas (created vma areas') =
    (vma ≡ x)
    × All (Apart x) areas
    × Disjoint areas'
    × ((pre : List Area) × (post : List Area) × (areas ≡ pre ++ post)
        × (areas' ≡ pre ++ (x ∷ post)))

not_less : (x a : Area) → vm_area_less x a ≡ false → NotAfter x a
not_less x a h = ground arith

insertion-CreateRefines :
    (x : Area) (areas inserted : List Area)
    → Proper x
    → Disjoint areas
    → All (IsFresh x.self) areas
    → IsInsertion vm_area_less x areas inserted
    → CreateRefines x areas (if vm_area_overlaps x.self inserted then null else created x inserted)
insertion-CreateRefines x areas inserted proper d fresh (pre, post, e, e', before, after) =
    elim (Bool-cases (vm_area_overlaps x.self inserted)) [
      | inl h ↦
          rw h (λ apart. absurd_of h (Placed-Apart pre post x p (subst (All (Apart x)) e apart)))
      | inr h ↦ rw h (
        refl,
        subst (All (Apart x)) (sym e) (Placed-clear pre post x p (subst_test h)).1,
        subst Disjoint (sym e') (Placed-clear pre post x p (subst_test h)).0,
        (pre, post, e, e'),
      )
    ]
  where
    p : Placed pre post x
    p = record {
      proper = proper;
      disjoint = subst Disjoint e d;
      fresh = subst (All (IsFresh x.self)) e fresh;
      not_after =
          All-map (λ a. vm_area_less x a ≡ false) (NotAfter x) pre (λ a k. not_less x a k) before;
      precedes = after;
    }

    subst_test :
        vm_area_overlaps x.self inserted ≡ false
        → vm_area_overlaps x.self (pre ++ (x ∷ post)) ≡ false
    subst_test h = ap (vm_area_overlaps x.self) (sym e') ∙ h

    absurd_of :
        vm_area_overlaps x.self inserted ≡ true
        → vm_area_overlaps x.self (pre ++ (x ∷ post)) ≡ false
        → ⊥
    absurd_of h k = cc (sym h ∙ ap (vm_area_overlaps x.self) e' ∙ k)

-- On a disjoint list, with memory at a fresh address and an area of at least a page,
-- `vm_area_create_insert` puts the area in exactly if it is apart from every area of the list, which
-- stays disjoint; otherwise it returns NULL.
pub vm_area_create_insert-CreateRefines :
    (lists : OrderedList Area) (self start offset end_ flags : ℕ) (areas : List Area)
    → Disjoint areas
    → All (IsFresh self) areas
    → Proper (new_area self start offset end_ flags)
    → CreateRefines
        (new_area self start offset end_ flags)
        areas
        (vm_area_create_insert lists (some self) start offset end_ areas flags)
unfolding vm_area_create_insert
vm_area_create_insert-CreateRefines lists self start offset end_ flags areas d fresh p =
    rw (enough start end_ p.page p.below) (
      insertion-CreateRefines (new_area self start offset end_ flags) areas
        (lists.insert_ordered vm_area_less (new_area self start offset end_ flags) areas) p d fresh
        (lists.inserts vm_area_less (new_area self start offset end_ flags) areas))
  where
    enough : (s e : ℕ) → s + 4096 ≤ e → e < 0x100000000 → leb (add32 s 4096) e ≡ true
    enough s e h k = ground arith
