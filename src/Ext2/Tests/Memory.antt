-- ===== src/Ext2/Tests/Memory.antt =====
-- A device that is an array of bytes, and a search of a bitmap that finds the first byte that is 0, for
-- the instances of the theorems on fs/ext2.
use levos.Base.{ℕ, zero, suc, ◌+◌, ◌-◌, ◌*◌, ◌≤◌, ◌<◌, ◌≡◌, ◌⊎◌, inl, inr, refl, ap, sym, ◌∙◌, ap₂}
use levos.Base.{List, ◌∷◌, true, ◌&&◌, ltb, leb, if◌then◌else◌, get_or}
use levos.Base.{arith, lt→ltb}
use levos.Ext2.Store.{Device, IsDevice}
use levos.Ext2.Bytes.{bytes, length-bytes, list-bytes}

-- a byte of the array behind a write
abbrev patched : (ℕ → ℕ) → (at n : ℕ) → List ℕ → ℕ → ℕ
patched d at n buf k = if leb at k && ltb k (at + n) then get_or buf (k - at) 0 else d k

abbrev pub memory : Device (ℕ → ℕ)
memory = record {
  read = λ d pos n. bytes d (pos * 512) (n * 512);
  write = λ d pos n buf k. patched d (pos * 512) (n * 512) buf k;
}

bytes-cong :
    (f g : ℕ → ℕ) (a n : ℕ) → ((k : ℕ) → a ≤ k → k < a + n → f k ≡ g k) → bytes f a n ≡ bytes g a n
bytes-cong f g a zero h = refl
bytes-cong f g a (suc n) h =
    ap₂ (λ x l. x ∷ l) (h a (omega arith) (omega arith))
      (bytes-cong f g (suc a) n (λ k l m. h k (omega (arith, l)) (omega (arith, m))))

patched-in :
    (d : ℕ → ℕ) (at n : ℕ) (buf : List ℕ) (i : ℕ)
    → i < n
    → patched d at n buf (at + i) ≡ get_or buf i 0
patched-in d at n buf i h =
    let e : at + i - at ≡ i = omega arith in
    let a : leb at (at + i) ≡ true = ground arith in
    let b : ltb (at + i) (at + n) ≡ true = lt→ltb _ _ (omega arith) in rw a (rw b (rw e refl))

patched-out :
    (d : ℕ → ℕ) (at n : ℕ) (buf : List ℕ) (k : ℕ)
    → (k < at) ⊎ (at + n ≤ k)
    → patched d at n buf k ≡ d k
patched-out d at n buf k h = ground arith

outside :
    (pos n at m k : ℕ)
    → (pos + n ≤ at) ⊎ (at + m ≤ pos)
    → at * 512 ≤ k
    → k < at * 512 + m * 512
    → (k < pos * 512) ⊎ (pos * 512 + n * 512 ≤ k)
outside pos n at m k (inl a) l h = inr (omega arith)
outside pos n at m k (inr b) l h = inl (omega arith)

pub memory-IsDevice : IsDevice memory
memory-IsDevice = record {
  length-read = λ d pos n. length-bytes d (pos * 512) (n * 512);
  read-write = λ d pos n buf l.
      let f : ℕ → ℕ = patched d (pos * 512) (n * 512) buf in
      ap (λ k. bytes f (pos * 512) k) (sym l)
      ∙ sym (
          list-bytes f buf (pos * 512)
            (λ i h. patched-in d (pos * 512) (n * 512) buf i (omega (arith, h, l))));
  read-write_ne = λ d pos n at m buf apart.
      bytes-cong (patched d (pos * 512) (n * 512) buf) d (at * 512) (m * 512)
        (λ k l h. patched-out d (pos * 512) (n * 512) buf k (outside pos n at m k apart l h));
}
