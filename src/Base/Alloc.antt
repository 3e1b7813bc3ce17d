-- ===== src/Base/Alloc.antt =====
-- The answers of `malloc` as a list: the next one, and the list without it. When the list is used up,
-- memory suffices.
use mathlib.Core.Bool.{Bool, true}
use mathlib.Core.List.{List, [], ◌∷◌}
use mathlib.Core.Option.{Option, none, some}

abbrev pub alloc_ok : List Bool → Bool
alloc_ok [] = true
alloc_ok (b ∷ bs) = b

abbrev pub rest_of : List Bool → List Bool
rest_of [] = []
rest_of (b ∷ bs) = bs

-- a call, and then the next with its result, unless the kernel stopped
infixl 5 ◌>>=◌
abbrev pub ◌>>=◌ {ℓ κ} : {A : Type ℓ} {B : Type κ} → Option A → (A → Option B) → Option B
none >>= f = none
some x >>= f = f x
