-- ===== src/Vma/Copy.antt =====
-- mm/vma.c: `copy_vmas`.
use levos.Base.{ℕ, ◌≡◌, ◌≢◌, inr, List, [], ◌∷◌, ◌++◌}
use levos.Base.{arith, All, refl, Option, some, append-nil, append_assoc, subst, sym, ap, ◌∙◌}
use levos.Base.{All-append, length, ◌+◌, none, ◌==◌, if◌then◌else◌}
use levos.Base.Ordered.{OrderedList}
use levos.Vma.Area.{Area}
use levos.Vma.Insert.{Created, panic, null, created, vm_area_create_insert, update_area, new_area}
use levos.Vma.Insert.{copy_from, copy_vmas, copy_fields, after_create, inc_ref, Refs}
use levos.Vma.Disjoint.{Proper, Disjoint, Apart, EndsBy, All-map, Disjoint-drop, Disjoint-insert}
use levos.Vma.Overlap.{IsFresh, CreateRefines, vm_area_create_insert-CreateRefines, All-split}
use levos.Vma.Update.{update_area-append}

-- `b` is `a` at another address.
abbrev pub CopyOf : Area → ℕ → Area
CopyOf a self = record a { self = self }

-- The copies at the given addresses, in the order of the areas.
abbrev pub copies : List ℕ → List Area → List Area
copies [] areas = []
copies (self ∷ selves) [] = []
copies (self ∷ selves) (a ∷ areas) = CopyOf a self ∷ copies selves areas

-- one more reference to the mapping of each area
abbrev add_refs : List Area → Refs → Refs
add_refs [] refs = refs
add_refs (a ∷ areas) refs = add_refs areas (inc_ref a.vma_mapping refs)

-- the number of areas that the mapping at the address backs
abbrev pub backed_by : ℕ → List Area → ℕ
backed_by m [] = 0
backed_by m (a ∷ areas) =
    backed_by m areas + elim a.vma_mapping [ none ↦ 0 | some k ↦ (if m == k then 1 else 0) ]

inc_ref_lem :
    (map : Option ℕ) (refs : Refs) (m : ℕ)
    → inc_ref map refs m ≡ refs m + elim map [ none ↦ 0 | some k ↦ (if m == k then 1 else 0) ]
inc_ref_lem none refs m = omega arith
inc_ref_lem (some k) refs m = ground arith

add_refs_lem :
    (areas : List Area) (refs : Refs) (m : ℕ) → add_refs areas refs m ≡ refs m + backed_by m areas
add_refs_lem [] refs m = omega arith
add_refs_lem (a ∷ areas) refs m =
    omega
      (arith, add_refs_lem areas (inc_ref a.vma_mapping refs) m, inc_ref_lem a.vma_mapping refs m)

abbrev pub all_some : List ℕ → List (Option ℕ)
all_some [] = []
all_some (n ∷ ns) = some n ∷ all_some ns

abbrev pub Distinct : List ℕ → Type 0
Distinct [] = Unit
Distinct (n ∷ ns) = All (λ m. m ≢ n) ns × Distinct ns

-- In a disjoint list nothing follows an area behind which every other one would end.
nothing_after :
    (x : Area) (post : List Area) → Disjoint (x ∷ post) → All (EndsBy x.vma_start) post → post ≡ []
nothing_after x [] d h = refl
nothing_after x (b ∷ rest) d h = absurd (omega (arith, d.1, d.0.page, d.2.0.page, h.0))

-- every area of `new` ends before the first of `old`
abbrev AllBefore : List Area → List Area → Type 0
AllBefore [] new = Unit
AllBefore (a ∷ old) new = All (EndsBy a.vma_start) new

AllBefore-nil : (old : List Area) → AllBefore old []
AllBefore-nil [] = tt
AllBefore-nil (a ∷ old) = tt

Disjoint-snoc :
    (new : List Area) (a : Area) (self : ℕ)
    → Disjoint new
    → Proper a
    → All (EndsBy a.vma_start) new
    → Disjoint (new ++ (CopyOf a self ∷ []))
Disjoint-snoc new a self d p ends =
    Disjoint-insert new [] (CopyOf a self) (subst Disjoint (sym (append-nil new)) d)
      (record { page = p.page; below = p.below }) ends tt

-- An area behind all others is put at the end.
insert-last :
    (self : ℕ) (new : List Area) (a : Area) (c : Created)
    → All (EndsBy a.vma_start) new
    → All (IsFresh self) new
    → CreateRefines (new_area self a.vma_start a.vma_offset a.vma_end a.vma_flags) new c
    → (refs : Refs)
    → after_create a refs c ≡ some (new ++ (CopyOf a self ∷ []), inc_ref a.vma_mapping refs)
insert-last self new a panic ends fresh h refs = absurd h
insert-last self new a null ends fresh h refs = absurd (
    h (
      All-map (EndsBy a.vma_start)
        (Apart (new_area self a.vma_start a.vma_offset a.vma_end a.vma_flags)) new (λ b k. inr k)
        ends))
insert-last self new a (created vma new') ends fresh (same, _, d', (pre, post, e, e')) refs =
    ap (λ l. some (l, inc_ref a.vma_mapping refs))
      (ap (λ v. update_area v.self (λ dst. copy_fields dst a) new') same
        ∙ ap (update_area self (λ dst. copy_fields dst a)) e'
        ∙ update_area-append self (λ dst. copy_fields dst a) pre post x
            (All-split (IsFresh self) pre post (subst (All (IsFresh self)) e fresh)).0 refl
        ∙ ap (λ l. pre ++ (CopyOf a self ∷ l)) none_after
        ∙ ap (λ l. l ++ (CopyOf a self ∷ []))
            (sym (e ∙ ap (λ l. pre ++ l) none_after ∙ append-nil pre)))
  where
    x : Area
    x = new_area self a.vma_start a.vma_offset a.vma_end a.vma_flags

    none_after : post ≡ []
    none_after =
        nothing_after x post (Disjoint-drop pre (x ∷ post) (subst Disjoint e' d'))
          (All-split (EndsBy a.vma_start) pre post (subst (All (EndsBy a.vma_start)) e ends)).1

copy_from-cons :
    (lists : OrderedList Area) (self : ℕ) (mems : List (Option ℕ)) (a : Area)
    (old new new' : List Area) (refs refs' : Refs)
    → after_create a refs
        (vm_area_create_insert lists (some self) a.vma_start a.vma_offset a.vma_end new a.vma_flags)
      ≡ some (new', refs')
    → copy_from lists (some self ∷ mems) (a ∷ old) new refs ≡ copy_from lists mems old new' refs'
unfolding copy_from
copy_from-cons lists self mems a old new new' refs refs' e = rw (e, copy_from)

EndsBy-next :
    (a : Area) (old new : List Area) (self : ℕ)
    → Disjoint (a ∷ old)
    → All (EndsBy a.vma_start) new
    → AllBefore old (new ++ (CopyOf a self ∷ []))
EndsBy-next a [] new self d ends = tt
EndsBy-next a (b ∷ old) new self d ends =
    All-append (EndsBy b.vma_start) new (CopyOf a self ∷ [])
      (All-map (EndsBy a.vma_start) (EndsBy b.vma_start) new (λ c k. omega (arith, d.0.page, d.1))
        ends)
      (d.1, tt)

-- every address of the list is that of no area
abbrev FreshFor : List Area → ℕ → Type 0
FreshFor new m = All (IsFresh m) new

FreshFor-next :
    (a : Area) (new : List Area) (self : ℕ) (selves : List ℕ)
    → All (FreshFor new) selves
    → All (λ m. m ≢ self) selves
    → All (FreshFor (new ++ (CopyOf a self ∷ []))) selves
FreshFor-next a new self [] fresh ne = tt
FreshFor-next a new self (m ∷ selves) fresh ne = (
  All-append (IsFresh m) new (CopyOf a self ∷ []) fresh.0 ((λ e. ne.0 (sym e)), tt),
  FreshFor-next a new self selves fresh.1 ne.1,
)

copy_from-copies :
    (lists : OrderedList Area) (selves : List ℕ) (old new : List Area) (refs : Refs)
    → length selves ≡ length old
    → Disjoint old
    → Disjoint new
    → AllBefore old new
    → All (FreshFor new) selves
    → Distinct selves
    → copy_from lists (all_some selves) old new refs
      ≡ some (new ++ copies selves old, add_refs old refs)
unfolding copy_from
copy_from-copies lists [] [] new refs len d d' before fresh distinct =
    ap (λ l. some (l, refs)) (sym (append-nil new))
copy_from-copies lists [] (a ∷ old) new refs len d d' before fresh distinct = absurd (omega arith)
copy_from-copies lists (self ∷ selves) [] new refs len d d' before fresh distinct =
    absurd (omega arith)
copy_from-copies lists (self ∷ selves) (a ∷ old) new refs len d d' before fresh distinct =
    copy_from-cons lists self (all_some selves) a old new (new ++ (CopyOf a self ∷ [])) refs
      (inc_ref a.vma_mapping refs)
      (insert-last self new a
        (vm_area_create_insert lists (some self) a.vma_start a.vma_offset a.vma_end new a.vma_flags)
        before fresh.0
        (vm_area_create_insert-CreateRefines lists self a.vma_start a.vma_offset a.vma_end
          a.vma_flags new d' fresh.0 (record { page = d.0.page; below = d.0.below }))
        refs)
    ∙ copy_from-copies lists selves old (new ++ (CopyOf a self ∷ [])) (inc_ref a.vma_mapping refs)
        (omega arith) d.2 (Disjoint-snoc new a self d' d.0 before)
        (EndsBy-next a old new self d before) (FreshFor-next a new self selves fresh.1 distinct.0)
        distinct.1
    ∙ ap (λ l. some (l, add_refs old (inc_ref a.vma_mapping refs)))
        (append_assoc new (CopyOf a self ∷ []) (copies selves old))

-- When every allocation succeeds, at addresses that differ, `copy_vmas` of a disjoint list gives the
-- new task the same areas in the same order, and each mapping one more reference for each area that
-- it backs.
pub copy_vmas-copies :
    (lists : OrderedList Area) (selves : List ℕ) (old : List Area) (refs : Refs)
    → length selves ≡ length old
    → Disjoint old
    → Distinct selves
    → (refs' : Refs) × (copy_vmas lists (all_some selves) old refs
        ≡ some (copies selves old, refs'))
      × ((m : ℕ) → refs' m ≡ refs m + backed_by m old)
unfolding copy_vmas
copy_vmas-copies lists selves old refs len d distinct = (
  add_refs old refs,
  copy_from-copies lists selves old [] refs len d tt (AllBefore-nil old) (all_fresh selves)
      distinct,
  add_refs_lem old refs,
)
  where
    all_fresh : (ns : List ℕ) → All (FreshFor []) ns
    all_fresh [] = tt
    all_fresh (n ∷ ns) = (tt, all_fresh ns)
