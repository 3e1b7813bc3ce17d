-- ===== src/Ext2/Bytes.antt =====
-- fs/ext2/file.c: the bytes of a file as a function of the position, and how copied parts make them up.
use levos.Base.{ℕ, zero, suc, ◌+◌, ◌-◌, ◌≤◌, ◌<◌, ◌≡◌, refl, ap, ap₂, sym, List, [], ◌∷◌, ◌++◌}
use levos.Base.{length, take, drop, drop-all, get_or, ◌∙◌, arith, append_assoc, subst}
use levos.Ext2.Store.{memcpy}

-- the values of `f` from `a` on
abbrev pub bytes : (ℕ → ℕ) → (a n : ℕ) → List ℕ
bytes f a zero = []
bytes f a (suc n) = f a ∷ bytes f (suc a) n

pub length-bytes : (f : ℕ → ℕ) (a n : ℕ) → length (bytes f a n) ≡ n
length-bytes f a zero = refl
length-bytes f a (suc n) = ap suc (length-bytes f (suc a) n)

pub bytes-add : (f : ℕ → ℕ) (a n m : ℕ) → bytes f a (n + m) ≡ bytes f a n ++ bytes f (a + n) m
bytes-add f a zero m = ap₂ (λ k j. bytes f k j) (omega arith) (omega arith)
bytes-add f a (suc n) m =
    let e : suc n + m ≡ suc (n + m) = omega arith in
    let e2 : suc a + n ≡ a + suc n = omega arith in
    rw e (rw (sym e2) (ap (λ l. f a ∷ l) (bytes-add f (suc a) n m)))

pub list-bytes :
    (f : ℕ → ℕ) (xs : List ℕ) (a : ℕ)
    → ((i : ℕ) → i < length xs → f (a + i) ≡ get_or xs i 0)
    → xs ≡ bytes f a (length xs)
list-bytes f [] a h = refl
list-bytes f (x ∷ xs) a h =
    let first : f a ≡ x = subst (λ k. f k ≡ x) (omega arith) (h 0 (omega arith)) in
    ap₂ (λ y l. y ∷ l) (sym first)
      (list-bytes f xs (suc a)
        (λ i l. subst (λ k. f k ≡ get_or xs i 0) (omega arith) (h (suc i) (omega arith))))

pub take-bytes : (f : ℕ → ℕ) (n m a : ℕ) → n ≤ m → take n (bytes f a m) ≡ bytes f a n
take-bytes f zero m a h = refl
take-bytes f (suc n) zero a h = absurd (omega arith)
take-bytes f (suc n) (suc m) a h = ap (λ l. f a ∷ l) (take-bytes f n m (suc a) (omega arith))

pub drop-bytes : (f : ℕ → ℕ) (n m a : ℕ) → n ≤ m → drop n (bytes f a m) ≡ bytes f (a + n) (m - n)
drop-bytes f zero m a h = ap₂ (λ k j. bytes f k j) (omega arith) (omega arith)
drop-bytes f (suc n) zero a h = absurd (omega arith)
drop-bytes f (suc n) (suc m) a h =
    let e : suc a + n ≡ a + suc n = omega arith in
    let e2 : suc m - suc n ≡ m - n = omega arith in
    rw (sym e) (rw e2 (drop-bytes f n m (suc a) (omega arith)))

-- a part in the middle
pub part-bytes :
    (f : ℕ → ℕ) (off n m a : ℕ)
    → off + n ≤ m
    → take n (drop off (bytes f a m)) ≡ bytes f (a + off) n
part-bytes f off n m a h =
    rw (drop-bytes f off m a (omega arith)) (take-bytes f n (m - off) (a + off) (omega arith))

module _ {ℓ} {A : Type ℓ} where
  pub take-length-append : (xs ys : List A) → take (length xs) (xs ++ ys) ≡ xs
  take-length-append [] ys = refl
  take-length-append (x ∷ xs) ys = ap (λ l. x ∷ l) (take-length-append xs ys)

  pub drop-length-append : (xs ys : List A) (k : ℕ) → drop (length xs + k) (xs ++ ys) ≡ drop k ys
  drop-length-append [] ys k = ap (λ j. drop j ys) (omega arith)
  drop-length-append (x ∷ xs) ys k =
      let e : suc (length xs) + k ≡ suc (length xs + k) = omega arith in
      rw e (drop-length-append xs ys k)

  pub drop-drop : (n k : ℕ) (xs : List A) → drop k (drop n xs) ≡ drop (n + k) xs
  drop-drop zero k xs = ap (λ j. drop j xs) (omega arith)
  drop-drop (suc n) k [] =
      let e : suc n + k ≡ suc (n + k) = omega arith in rw e (drop-all k [] (omega arith))
  drop-drop (suc n) k (x ∷ xs) =
      let e : suc n + k ≡ suc (n + k) = omega arith in rw e (drop-drop n k xs)

-- what is copied behind what has been copied
pub memcpy-append :
    (s o x : List ℕ)
    → memcpy (s ++ drop (length s) o) (length s) x ≡ (s ++ x) ++ drop (length s + length x) o
memcpy-append s o x = rw (take-length-append s (drop (length s) o)) (
    rw (drop-length-append s (drop (length s) o) (length x)) (
      rw (drop-drop (length s) (length x) o)
        (sym (append_assoc s x (drop (length s + length x) o)))))

-- the next bytes, copied behind the bytes that are there
pub memcpy-bytes :
    (f : ℕ → ℕ) (a m n : ℕ) (o : List ℕ)
    → memcpy (bytes f a m ++ drop m o) m (bytes f (a + m) n) ≡ bytes f a (m + n) ++ drop (m + n) o
memcpy-bytes f a m n o =
    let e : memcpy (bytes f a m ++ drop m o) m (bytes f (a + m) n)
        ≡ (bytes f a m ++ bytes f (a + m) n) ++ drop (m + length (bytes f (a + m) n)) o =
      subst
        (λ k.
          memcpy (bytes f a m ++ drop k o) k (bytes f (a + m) n)
          ≡ (bytes f a m ++ bytes f (a + m) n) ++ drop (k + length (bytes f (a + m) n)) o)
        (length-bytes f a m) (memcpy-append (bytes f a m) o (bytes f (a + m) n)) in
    e ∙ ap₂ (λ x k. x ++ drop (m + k) o) (sym (bytes-add f a m n)) (length-bytes f (a + m) n)
