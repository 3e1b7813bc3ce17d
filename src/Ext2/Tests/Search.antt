-- ===== src/Ext2/Tests/Search.antt =====
-- A search of a bitmap that finds the first byte that is 0 and takes its lowest bit, for the instances of
-- the theorems on the allocators of fs/ext2.
use levos.Base.{ℕ, zero, suc, ◌+◌, ◌*◌, ◌/◌, ◌%◌, ◌<◌, ◌≡◌, ◌≢◌, inl, inr, refl, ap, sym, ◌∙◌}
use levos.Base.{List, [], ◌∷◌, Option, none, some, ltb, if◌then◌else◌, get_or, set}
use levos.Base.{
  length, arith, Bool-cases, Option-cases, subst, ltb→lt, get_or-set_self, get_or-set_ne,
}
use levos.Base.{==→eq, ==→ne, ◌==◌, test_bit, length-set}
use levos.Ext2.Alloc.{Scan, IsScan, bit}
use mathlib.Core.Option.{none-ne-some, some-injective}
use native.Mathlib.Nat.{mod-lt, div-add-mod}

abbrev find_zero : List ℕ → Option ℕ
find_zero [] = none
find_zero (x ∷ xs) =
    let rest : Option ℕ = elim (find_zero xs) [ none ↦ none | some i ↦ some (suc i) ] in
    if x == 0 then some 0 else rest

abbrev pub first_free : Scan
first_free n buf = elim (find_zero buf) [
  | none ↦ none
  | some i ↦ if ltb (8 * i) n then some (8 * i, set buf i 1) else none
]

find_zero_lem :
    (buf : List ℕ) (i : ℕ) → find_zero buf ≡ some i → (i < length buf) × (get_or buf i 0 ≡ 0)
find_zero_lem [] i e = absurd (none-ne-some i e)
find_zero_lem (x ∷ xs) i e = elim (Bool-cases (x == 0)) [
  | inl z ↦
      let k : 0 ≡ i = some-injective 0 i (sym (rw z refl) ∙ e) in
      subst (λ j. (j < suc (length xs)) × (get_or (x ∷ xs) j 0 ≡ 0)) k (omega arith, ==→eq _ _ z)
  | inr nz ↦ elim (Option-cases (find_zero xs)) [
    | inl n ↦ absurd (none-ne-some i (sym (rw nz (rw n refl)) ∙ e))
    | inr (j, f) ↦
        let k : suc j ≡ i = some-injective (suc j) i (sym (rw nz (rw f refl)) ∙ e) in
        let later : (j < length xs) × (get_or xs j 0 ≡ 0) = find_zero_lem xs j f in
        subst (λ l. (l < suc (length xs)) × (get_or (x ∷ xs) l 0 ≡ 0)) k
          (omega (arith, later.0), later.1)
  ]
]

record Taken (n : ℕ) (buf : List ℕ) (k : ℕ) (new : List ℕ) : Type 0 where
  byte : ℕ
  index : k ≡ 8 * byte
  small : 8 * byte < n
  inside : byte < length buf
  empty : get_or buf byte 0 ≡ 0
  changed : new ≡ set buf byte 1

first_free-Taken :
    (n : ℕ) (buf : List ℕ) (k : ℕ) (new : List ℕ)
    → first_free n buf ≡ some (k, new)
    → Taken n buf k new
first_free-Taken n buf k new e = elim (Option-cases (find_zero buf)) [
  | inl f ↦ absurd (none-ne-some (k, new) (sym (rw (f, first_free) refl) ∙ e))
  | inr (i, f) ↦
      let z : (i < length buf) × (get_or buf i 0 ≡ 0) = find_zero_lem buf i f in
      elim (Bool-cases (ltb (8 * i) n)) [
        | inr out ↦ absurd (none-ne-some (k, new) (sym (rw (f, first_free) (rw out refl)) ∙ e))
        | inl near ↦
            let p : (8 * i, set buf i 1) ≡ (k, new) =
              some-injective (8 * i, set buf i 1) (k, new)
                (sym (rw (f, first_free) (rw near refl)) ∙ e) in
            record {
              byte = i;
              index = sym (ap (λ q. q.0) p);
              small = ltb→lt _ _ near;
              inside = z.0;
              empty = z.1;
              changed = sym (ap (λ q. q.1) p);
            }
      ]
]

-- only the lowest bit of 1 is set
high-bit : (r : ℕ) → 0 < r → r < 8 → test_bit r 1 ≡ test_bit r 0
high-bit zero a b = absurd (omega arith)
high-bit (suc zero) a b = refl
high-bit (suc (suc zero)) a b = refl
high-bit (suc (suc (suc zero))) a b = refl
high-bit (suc (suc (suc (suc zero)))) a b = refl
high-bit (suc (suc (suc (suc (suc zero))))) a b = refl
high-bit (suc (suc (suc (suc (suc (suc zero)))))) a b = refl
high-bit (suc (suc (suc (suc (suc (suc (suc zero))))))) a b = refl
high-bit (suc (suc (suc (suc (suc (suc (suc (suc r)))))))) a b = absurd (omega arith)

kept :
    (buf : List ℕ) (i j : ℕ)
    → i < length buf
    → get_or buf i 0 ≡ 0
    → j ≢ 8 * i
    → bit (set buf i 1) j ≡ bit buf j
kept buf i j inside empty differ = elim (Bool-cases (j / 8 == i)) [
  | inl same ↦
      let e : j / 8 ≡ i = ==→eq _ _ same in
      let r : 8 * (j / 8) + j % 8 ≡ j = div-add-mod j 8 in
      let small : j % 8 < 8 = mod-lt j (omega arith) in
      rw e (
        rw (get_or-set_self buf i 1 0 inside)
          (rw empty (high-bit (j % 8) (omega (arith, differ, e, r)) small)))
  | inr other ↦
      ap (λ b. test_bit (j % 8) b) (get_or-set_ne buf i (j / 8) 1 0 (λ e. ==→ne _ _ other (sym e)))
]

at_byte : (buf : List ℕ) (i : ℕ) → bit buf (8 * i) ≡ test_bit 0 (get_or buf i 0)
at_byte buf i =
    let q : 8 * i / 8 ≡ i = omega arith in let r : 8 * i % 8 ≡ 0 = omega arith in rw q (rw r refl)

pub first_free-IsScan : IsScan first_free
first_free-IsScan = record {
  inside = λ n buf k new e.
      let t : Taken n buf k new = first_free-Taken n buf k new e in omega (arith, t.index, t.small);
  clear = λ n buf k new e.
      let t : Taken n buf k new = first_free-Taken n buf k new e in
      rw t.index (rw (at_byte buf t.byte) (rw t.empty refl));
  taken = λ n buf k new e.
      let t : Taken n buf k new = first_free-Taken n buf k new e in
      rw t.index (
        rw t.changed (
          rw (at_byte (set buf t.byte 1) t.byte)
            (rw (get_or-set_self buf t.byte 1 0 t.inside) refl)));
  kept = λ n buf k new j e d.
      let t : Taken n buf k new = first_free-Taken n buf k new e in
      rw t.changed (kept buf t.byte j t.inside t.empty (λ s. d (s ∙ sym t.index)));
  length-scan = λ n buf k new e.
      let t : Taken n buf k new = first_free-Taken n buf k new e in
      rw t.changed (length-set buf t.byte 1);
}
