-- ===== src/Itoa/RoundTrip.antt =====
-- lib/itoa.c: what number a string of `itoa` stands for, and reading it with `atoi_10`.
use levos.Base.{ℕ, zero, suc, ◌+◌, ◌*◌, ◌/◌, ◌%◌, ◌≤◌, ◌<◌, ◌≡◌, refl, List, [], ◌∷◌, ◌==◌, ltb}
use levos.Base.{arith, length, Bool-cases, inl, inr, false, ==→ne, ==→eq, ◌∙◌, ap, sub32, add32}
use levos.Base.{le_refl}
use levos.Itoa.{digits, bchars, reverse_onto, itoa, atoi_from, atoi_10}
use levos.Itoa.Digits.{digit_of, value, value-digits, length-digits}

-- one round of the loop of `atoi_10`
step : ℕ → ℕ → ℕ
step res c = sub32 (add32 (res * 10) c) 48

-- the rounds for characters that are given last first
steps : ℕ → List ℕ → ℕ
steps res [] = res
steps res (c ∷ cs) = step (steps res cs) c

atoi_from-reverse_onto :
    (res : ℕ) (tbuf buf : List ℕ)
    → atoi_from res (reverse_onto tbuf buf) ≡ atoi_from (steps res tbuf) buf
unfolding reverse_onto atoi_from steps step
atoi_from-reverse_onto res [] buf = refl
atoi_from-reverse_onto res (c ∷ tbuf) buf = atoi_from-reverse_onto res tbuf (c ∷ buf)

step-digit : (i : ℕ) → i < 0x100000000 → step (i / 10) (bchars (i % 10)) ≡ i
unfolding step
step-digit i h = ground arith

steps-digits : (fuel i : ℕ) → i ≤ fuel → i < 0x100000000 → steps 0 (digits fuel 10 i) ≡ i
unfolding digits steps
steps-digits zero i le h = omega arith
steps-digits (suc fuel) i le h = elim (Bool-cases (i == 0)) [
  | inl e ↦ rw e (omega (arith, ==→eq i 0 e))
  | inr e ↦
      rw (e, steps-digits fuel (i / 10) (omega (arith, ==→ne i 0 e)) (omega arith)) (step-digit i h)
]

-- What `itoa` writes in decimal for a 32-bit number, `atoi_10` reads as the same number.
pub atoi_10-itoa : (i : ℕ) → i < 0x100000000 → atoi_10 (itoa i 10) ≡ i
unfolding atoi_10 itoa atoi_from
atoi_10-itoa i h = elim (Bool-cases (i == 0)) [
  | inl e ↦ rw e (omega (arith, ==→eq i 0 e))
  | inr e ↦ rw e (atoi_from-reverse_onto 0 (digits i 10 i) [] ∙ steps-digits i i (le_refl i) h)
]

-- The number that a string stands for in a base, read from its front after `res`.
abbrev pub number : ℕ → ℕ → List ℕ → ℕ
number base res [] = res
number base res (c ∷ str) = number base (res * base + digit_of c) str

number-reverse_onto :
    (base : ℕ) (tbuf buf : List ℕ)
    → number base 0 (reverse_onto tbuf buf) ≡ number base (value base tbuf) buf
unfolding reverse_onto
number-reverse_onto base [] buf = refl
number-reverse_onto base (c ∷ tbuf) buf =
    number-reverse_onto base tbuf (c ∷ buf) ∙ ap (λ r. number base r buf) (omega arith)

length-reverse_onto :
    (tbuf buf : List ℕ) → length (reverse_onto tbuf buf) ≡ length tbuf + length buf
unfolding reverse_onto
length-reverse_onto [] buf = omega arith
length-reverse_onto (c ∷ tbuf) buf = omega (arith, length-reverse_onto tbuf (c ∷ buf))

-- In every base from 2 to 16 the string that `itoa` writes stands for the 32-bit number, and it has
-- at most 32 digits: none is written outside `tbuf`.
pub itoa_lem :
    (i base : ℕ)
    → i < 0x100000000
    → 1 < base
    → base ≤ 16
    → (number base 0 (itoa i base) ≡ i) × (length (itoa i base) ≤ 32)
unfolding itoa
itoa_lem i base h lo hi = elim (Bool-cases (i == 0)) [
  | inl e ↦ rw e (omega (arith, ==→eq i 0 e), omega arith)
  | inr e ↦
      rw (e, small)
        (
          number-reverse_onto base (digits i base i) [] ∙ value-digits i base i (le_refl i) lo hi,
          omega (
            arith,
            length-reverse_onto (digits i base i) [],
            length-digits i base i 32 lo (omega arith),
          ),
        )
]
  where
    small : ltb 16 base ≡ false
    small = ground arith
