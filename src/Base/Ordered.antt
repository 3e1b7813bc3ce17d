-- ===== src/Base/Ordered.antt =====
-- The interface of the ordered insertion into `struct list` (lib/list.c, the list library of Pintos):
-- what its comment promises, and a function that keeps the promise.
use mathlib.Core.Path.{◌≡◌, refl, ap}
use mathlib.Core.Logic.{inl, inr}
use mathlib.Core.Bool.{Bool, true, false}
use mathlib.Core.List.{List, [], ◌∷◌, ◌++◌}
use levos.Base.Tests.{if◌then◌else◌, Bool-cases}
use levos.Base.Lists.{All}

-- The element stands before the rest: `less` holds of it and the first that follows.
abbrev pub Precedes {ℓ} : {A : Type ℓ} → (A → A → Bool) → A → List A → Type 0
Precedes less x [] = Unit
Precedes less x (y ∷ ys) = less x y ≡ true

-- `ys` is `xs` with `x` put in front of the first element that `x` is less than.
abbrev pub IsInsertion {ℓ} : {A : Type ℓ} → (A → A → Bool) → A → List A → List A → Type ℓ
IsInsertion {A = A} less x xs ys =
    (pre : List A) × (post : List A) × (xs ≡ pre ++ post)
    × (ys ≡ pre ++ (x ∷ post))
    × All (λ y. less x y ≡ false) pre
    × Precedes less x post

pub record OrderedList {ℓ} (A : Type ℓ) : Type ℓ where
  pub insert_ordered : (A → A → Bool) → A → List A → List A
  pub inserts :
      (less : A → A → Bool) (x : A) (xs : List A) → IsInsertion less x xs (insert_ordered less x xs)

module _ {ℓ} {A : Type ℓ} (less : A → A → Bool) (x : A) where
  abbrev pub insert_before : List A → List A
  insert_before [] = x ∷ []
  insert_before (y ∷ ys) = if less x y then x ∷ y ∷ ys else y ∷ insert_before ys

  pub insert_before-IsInsertion : (xs : List A) → IsInsertion less x xs (insert_before xs)
  insert_before-IsInsertion [] = ([], [], refl, refl, tt, tt)
  insert_before-IsInsertion (y ∷ ys) = elim (Bool-cases (less x y)) [
    | inl e ↦ ([], y ∷ ys, refl, ap (λ b. if b then x ∷ y ∷ ys else y ∷ insert_before ys) e, tt, e)
    | inr e ↦
        let (pre, post, p, q, h, k) = insert_before-IsInsertion ys in
        (y ∷ pre, post, ap (λ l. y ∷ l) p, rw e (ap (λ l. y ∷ l) q), (e, h), k)
  ]

abbrev pub ordered {ℓ} : (A : Type ℓ) → OrderedList A
ordered A = record {
  insert_ordered = λ less x xs. insert_before less x xs;
  inserts = λ less x xs. insert_before-IsInsertion less x xs;
}
