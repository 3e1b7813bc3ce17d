-- ===== src/Itoa/Tests.antt =====
-- lib/itoa.c on small inputs, and the instances of its theorems.
use levos.Base.{◌≡◌, ◌≤◌, refl, [], ◌∷◌, arith, length}
use levos.Itoa.{itoa, atoi_10, atoi_10n}
use levos.Itoa.RoundTrip.{atoi_10-itoa, itoa_lem, number}

itoa-hex : itoa 0xBEEF 16 ≡ 66 ∷ 69 ∷ 69 ∷ 70 ∷ []
unfolding itoa
itoa-hex = refl

atoi_10n-three : atoi_10n (52 ∷ 50 ∷ 49 ∷ 48 ∷ []) 3 ≡ 421
unfolding atoi_10n
atoi_10n-three = refl

atoi_10-itoa_example : atoi_10 (itoa 4096 10) ≡ 4096
atoi_10-itoa_example = atoi_10-itoa 4096 (omega arith)

itoa_lem_example : (number 16 0 (itoa 48879 16) ≡ 48879) × (length (itoa 48879 16) ≤ 32)
itoa_lem_example = itoa_lem 48879 16 (omega arith) (omega arith) (omega arith)
