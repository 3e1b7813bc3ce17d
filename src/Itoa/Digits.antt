-- ===== src/Itoa/Digits.antt =====
-- lib/itoa.c: the digits that the loop of `itoa` computes.
use levos.Base.{ℕ, zero, suc, ◌+◌, ◌-◌, ◌*◌, ◌/◌, ◌%◌, ◌^◌, ◌≤◌, ◌<◌, ◌≡◌, List, [], ◌∷◌, ◌==◌, ltb}
use levos.Base.{if◌then◌else◌, arith, length, Bool-cases, inl, inr, ==→ne, ==→eq}
use levos.Itoa.{digits, bchars}
use native.Mathlib.Nat.{div-add-mod, mod-lt, div-lt_self, div-lt_iff_lt-mul, mul-le-mul_left}

-- the digit of a character
abbrev pub digit_of : ℕ → ℕ
digit_of c = if ltb c 58 then c - 48 else c - 55

-- what characters stand for in a base, the last digit first
abbrev pub value : ℕ → List ℕ → ℕ
value base [] = 0
value base (c ∷ cs) = base * value base cs + digit_of c

digit_of-bchars : (d : ℕ) → d < 16 → digit_of (bchars d) ≡ d
digit_of-bchars d h = ground arith

pub value-digits :
    (fuel base i : ℕ) → i ≤ fuel → 1 < base → base ≤ 16 → value base (digits fuel base i) ≡ i
unfolding digits
value-digits zero base i le h k = omega arith
value-digits (suc fuel) base i le h k = elim (Bool-cases (i == 0)) [
  | inl e ↦ rw e (omega (arith, ==→eq i 0 e))
  | inr e ↦
      rw
        (
          e,
          value-digits fuel base (i / base)
              (omega (arith, div-lt_self {n = i} {k = base} (omega (arith, ==→ne i 0 e)) h)) h k,
          digit_of-bchars (i % base) (omega (arith, mod-lt i {m = base})),
        )
        (div-add-mod i base)
]

halves : (i base k : ℕ) → 1 < base → i < 2 ^ (suc k) → i / base < 2 ^ k
halves i base k h lt = (div-lt_iff_lt-mul {k = base} {x = i} {y = 2 ^ k} (omega arith)).1 bound
  where
    bound : i < 2 ^ k * base
    bound = omega (arith, mul-le-mul_left {m = 2} {n = base} (2 ^ k) h)

pub length-digits : (fuel base i k : ℕ) → 1 < base → i < 2 ^ k → length (digits fuel base i) ≤ k
unfolding digits
length-digits zero base i k h lt = omega arith
length-digits (suc fuel) base i zero h lt = ground arith
length-digits (suc fuel) base i (suc k) h lt =
    ground (arith, length-digits fuel base (i / base) k h (halves i base k h lt))
