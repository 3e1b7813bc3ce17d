-- ===== src/Itoa.antt =====
-- lib/itoa.c: numbers to digits and back. A string is the list of its characters, without the final
-- zero. The loop that writes the digits ends because the number is divided by a base above 1; its fuel
-- is the number itself.
pub mod Digits
pub mod RoundTrip
mod Tests
use levos.Base.{ℕ, zero, suc, ◌+◌, ◌*◌, ◌/◌, ◌%◌, Bool, List, [], ◌∷◌, ◌++◌, ◌==◌, ltb, ◌||◌}
use levos.Base.{if◌then◌else◌, add32, sub32}

-- `bchars`
abbrev pub bchars : ℕ → ℕ
bchars d = if ltb d 10 then 48 + d else 55 + d

-- The `while` loop: what `tbuf` holds, from `tbuf[0]` on, for `i`.
unfoldable pub digits : ℕ → ℕ → ℕ → List ℕ
digits zero base i = []
digits (suc fuel) base i =
    let rest = digits fuel base (i / base) in if i == 0 then [] else bchars (i % base) ∷ rest

unfoldable pub reverse_onto : List ℕ → List ℕ → List ℕ
reverse_onto [] buf = buf
reverse_onto (c ∷ tbuf) buf = reverse_onto tbuf (c ∷ buf)

-- `itoa`: `tbuf` is copied to `buf` from its end.
unfoldable pub itoa : ℕ → ℕ → List ℕ
unfolding digits reverse_onto
itoa i base = if (i == 0) || ltb 16 base then 48 ∷ [] else reverse_onto (digits i base i) []

-- The loop of `atoi_10`, on `int`: `res * 10 + str[i] - '0'`.
unfoldable pub atoi_from : ℕ → List ℕ → ℕ
atoi_from res [] = res
atoi_from res (c ∷ str) = atoi_from (sub32 (add32 (res * 10) c) 48) str

unfoldable pub atoi_10 : List ℕ → ℕ
unfolding atoi_from
atoi_10 str = atoi_from 0 str

-- `atoi_10n`: at most `n` characters
unfoldable pub atoi_n_from : ℕ → ℕ → List ℕ → ℕ
atoi_n_from zero res str = res
atoi_n_from (suc n) res [] = res
atoi_n_from (suc n) res (c ∷ str) = atoi_n_from n (sub32 (add32 (res * 10) c) 48) str

unfoldable pub atoi_10n : List ℕ → ℕ → ℕ
unfolding atoi_n_from
atoi_10n str n = atoi_n_from n 0 str
