-- ===== src/Ring/Transfer.antt =====
-- lib/ring.c: `ring_buffer_write` and `ring_buffer_read`, which move many bytes.
use levos.Base.{ℕ, zero, suc, ◌+◌, ◌-◌, ◌≤◌, ◌<◌, ◌≡◌, min, refl, ap, true, false}
use levos.Base.{List, [], ◌∷◌, ◌++◌, some, none, length, take, drop, ltb, if◌then◌else◌, arith}
use levos.Base.{append-nil, append_assoc, ◌∙◌, take-all, Bool-cases, inl, inr, le_refl}
use levos.Ring.{Ring, Put, put, full, Get, got, empty, put_byte, get_byte, nonblock, Moved, Taken}
use levos.Ring.{write_from, write, read_from, read, after_put, after_get}
use levos.Ring.Queue.{poll}
use levos.Ring.Valid.{IsValid, AfterPut, AfterGet, put_byte-IsValid, get_byte-IsValid}
use levos.Ring.Fifo.{contents, length-contents, PutRefines, put_byte-PutRefines}
use levos.Ring.Fifo.{GetRefines, get_byte-GetRefines}

-- `rb'` is `rb` after as many bytes of `src` as fit were put in.
pub record Filled (rb : Ring) (src : List ℕ) (rb' : Ring) : Type 0 where
  pub valid : IsValid rb'
  pub capacity : rb'.capacity ≡ rb.capacity
  pub flags : rb'.flags ≡ rb.flags
  pub size : rb'.size ≡ rb.size + min (length src) (rb.capacity - rb.size)
  pub bytes : contents rb' ≡ contents rb ++ take (rb.capacity - rb.size) src

-- The call returned because the source ran out or the ring is non-blocking; it waits only if the
-- ring blocks and bytes are left over.
abbrev pub Wrote : Ring → List ℕ → ℕ → Moved → Type 0
Wrote rb src i (Moved.done n rb') =
    Filled rb src rb' × (n ≡ i + min (length src) (rb.capacity - rb.size))
Wrote rb src i (Moved.spin n rb') =
    Filled rb src rb'
    × (n ≡ i + (rb.capacity - rb.size))
    × (rb.capacity - rb.size < length src)
    × (nonblock rb ≡ false)

offer-some :
    (cap : ℕ) (q q' : List ℕ) (c : ℕ)
    → (if ltb (length q) cap then some (q ++ (c ∷ [])) else none) ≡ some q'
    → (length q < cap) × (q' ≡ q ++ (c ∷ []))
offer-some cap q q' c e = ground arith

offer-none :
    (cap : ℕ) (q : List ℕ) (c : ℕ)
    → ◌≡◌ {A = _} (if ltb (length q) cap then some (q ++ (c ∷ [])) else none) none
    → cap ≤ length q
offer-none cap q c e = ground arith

take-room : (n : ℕ) (c : ℕ) (src : List ℕ) → 0 < n → take n (c ∷ src) ≡ c ∷ take (n - 1) src
take-room zero c src h = absurd (omega arith)
take-room (suc n) c src h = ap (λ k. c ∷ take k src) (omega arith)

take-none : (n : ℕ) (src : List ℕ) → n ≡ 0 → take n src ≡ []
take-none zero src h = refl
take-none (suc n) src h = absurd (omega arith)

Filled-put :
    (rb rb' out : Ring) (c : ℕ) (src : List ℕ)
    → PutRefines rb c (put rb')
    → Filled rb' src out
    → Filled rb (c ∷ src) out
Filled-put rb rb' out c src p f = ground (
  arith,
  offer-some rb.capacity (contents rb) (contents rb') c p.0,
  length-contents rb,
  take-room (rb.capacity - rb.size) c src,
  append_assoc (contents rb) (c ∷ []) (take (rb.capacity - rb.size - 1) src),
)

Filled-full : (rb : Ring) (src : List ℕ) → IsValid rb → rb.capacity ≤ rb.size → Filled rb src rb
Filled-full rb src v h =
    ground (arith, take-none (rb.capacity - rb.size) src, append-nil (contents rb))

Wrote-put :
    (rb rb' : Ring) (c : ℕ) (src : List ℕ) (i : ℕ)
    → PutRefines rb c (put rb')
    → (m : Moved) → Wrote rb' src (i + 1) m
    → Wrote rb (c ∷ src) i m
Wrote-put rb rb' c src i p (Moved.done n out) w = ground (
  arith,
  Filled-put rb rb' out c src p,
  offer-some rb.capacity (contents rb) (contents rb') c p.0,
  length-contents rb,
)
Wrote-put rb rb' c src i p (Moved.spin n out) w = ground (
  arith,
  Filled-put rb rb' out c src p,
  offer-some rb.capacity (contents rb) (contents rb') c p.0,
  length-contents rb,
)

after_put-Wrote :
    (rb : Ring) (c : ℕ) (src : List ℕ) (i : ℕ) (next : Ring → Moved)
    → IsValid rb
    → ((rb' : Ring) → IsValid rb' → Wrote rb' src (i + 1) (next rb'))
    → (p : Put) → AfterPut IsValid p
    → PutRefines rb c p
    → Wrote rb (c ∷ src) i (after_put next i rb p)
after_put-Wrote rb c src i next v ih (put rb') v' r =
    Wrote-put rb rb' c src i r (next rb') (ih rb' v')
after_put-Wrote rb c src i next v ih full v' r = ground (
  arith,
  offer-none rb.capacity (contents rb) c r.0,
  length-contents rb,
  Filled-full rb (c ∷ src) v,
)
after_put-Wrote rb c src i next v ih Put.spin v' r = ground (
  arith,
  offer-none rb.capacity (contents rb) c r.0,
  length-contents rb,
  Filled-full rb (c ∷ src) v,
)

write_from-Wrote :
    (rb : Ring) (src : List ℕ) (i : ℕ) → IsValid rb → Wrote rb src i (write_from rb src i)
unfolding write_from
write_from-Wrote rb [] i v =
    ground (arith, take-any (rb.capacity - rb.size), append-nil (contents rb))
  where
    take-any : (n : ℕ) → take {A = ℕ} n [] ≡ []
    take-any zero = refl
    take-any (suc n) = refl
write_from-Wrote rb (c ∷ src) i v =
    after_put-Wrote rb c src i (λ rb'. write_from rb' src (i + 1)) v
      (λ rb' v'. write_from-Wrote rb' src (i + 1) v') (put_byte rb c) (put_byte-IsValid rb c v)
      (put_byte-PutRefines rb c v)

-- `ring_buffer_write` on a valid ring appends exactly as many bytes of the caller's buffer as fit,
-- in order, and returns their number; it waits only on a blocking ring, when bytes are left over.
-- In both cases the ring stays valid and its capacity and flags are kept.
pub write-Wrote : (rb : Ring) (src : List ℕ) → IsValid rb → Wrote rb src 0 (write rb src)
unfolding write
write-Wrote rb src v = write_from-Wrote rb src 0 v

-- The caller's buffer holds `out` and then the oldest `len` bytes of `rb`, which is left without
-- them; a short count is returned by a non-blocking ring, and a blocking one waits.
pub record Drained (rb : Ring) (len : ℕ) (out : List ℕ) (t : Taken) : Type 0 where
  pub valid : IsValid t.ring
  pub capacity : t.ring.capacity ≡ rb.capacity
  pub flags : t.ring.flags ≡ rb.flags
  pub size : t.ring.size ≡ rb.size - len
  pub bytes : t.bytes ≡ out ++ take len (contents rb)
  pub rest : contents t.ring ≡ drop len (contents rb)
  pub waits : t.returned ≡ false → (rb.size < len) × (nonblock rb ≡ false)

poll-some : (q q' : List ℕ) (c : ℕ) → poll q ≡ some (c, q') → q ≡ c ∷ q'
poll-some [] q' c e = cc
poll-some (x ∷ q) q' c e = ground arith

Drained-got :
    (rb rb' : Ring) (c len : ℕ) (out : List ℕ) (t : Taken)
    → GetRefines rb (got c rb')
    → Drained rb' len (out ++ (c ∷ [])) t
    → Drained rb (suc len) out t
Drained-got rb rb' c len out t g d = ground (
  arith,
  poll-some (contents rb) (contents rb') c g.0,
  append_assoc out (c ∷ []) (take len (contents rb')),
)

after_get-Drained :
    (rb : Ring) (len : ℕ) (out : List ℕ) (next : ℕ → Ring → Taken)
    → IsValid rb
    → ((c : ℕ) (rb' : Ring) → IsValid rb' → Drained rb' len (out ++ (c ∷ [])) (next c rb'))
    → (g : Get) → AfterGet IsValid g
    → GetRefines rb g
    → Drained rb (suc len) out (after_get next out rb g)
after_get-Drained rb len out next v ih (got c rb') v' r =
    Drained-got rb rb' c len out (next c rb') r (ih c rb' v')
after_get-Drained rb len out next v ih empty v' r =
    ground (arith, length-contents rb, append-nil out)
after_get-Drained rb len out next v ih Get.spin v' r =
    ground (arith, length-contents rb, append-nil out)

read_from-Drained :
    (rb : Ring) (len : ℕ) (out : List ℕ) → IsValid rb → Drained rb len out (read_from rb len out)
unfolding read_from
read_from-Drained rb zero out v = ground (arith, append-nil out)
read_from-Drained rb (suc len) out v =
    after_get-Drained rb len out (λ c rb'. read_from rb' len (out ++ (c ∷ []))) v
      (λ c rb' v'. read_from-Drained rb' len (out ++ (c ∷ [])) v') (get_byte rb)
      (get_byte-IsValid rb v) (get_byte-GetRefines rb v)

-- `ring_buffer_read` on a valid ring stores the oldest bytes, at most as many as asked for, in
-- order, and removes exactly those; it waits only on a blocking ring that has too few. The ring
-- stays valid and its capacity and flags are kept.
pub read-Drained : (rb : Ring) (len : ℕ) → IsValid rb → Drained rb len [] (read rb len)
unfolding read
read-Drained rb len v = read_from-Drained rb len [] v

pub Filled-of_fit :
    (rb : Ring) (src : List ℕ)
    → length src ≤ rb.capacity - rb.size
    → (m : Moved) → Wrote rb src 0 m
    → (rb' : Ring) × (m ≡ Moved.done (length src) rb') × Filled rb src rb'
Filled-of_fit rb src h (Moved.done n rb') w = (rb', ground arith, w.0)
Filled-of_fit rb src h (Moved.spin n rb') w = absurd (omega arith)

contents-empty : (rb : Ring) → rb.size ≡ 0 → contents rb ≡ []
contents-empty rb e = rw e

pub returned_of_enough : (t : Taken) → (t.returned ≡ false → ⊥) → t.returned ≡ true
returned_of_enough t h = elim (Bool-cases t.returned) [ inl e ↦ e | inr e ↦ absurd (h e) ]

read-Filled :
    (rb rb' : Ring) (src : List ℕ)
    → rb.size ≡ 0
    → length src ≤ rb.capacity
    → Filled rb src rb'
    → ((read rb' (length src)).bytes ≡ src)
      × ((read rb' (length src)).ring.size ≡ 0)
      × ((read rb' (length src)).returned ≡ true)
read-Filled rb rb' src e fits f =
    let d : Drained rb' (length src) [] (read rb' (length src)) =
      read-Drained rb' (length src) f.valid in
    let c : contents rb' ≡ src = ground (
      arith,
      f.bytes,
      contents-empty rb e,
      take-all (rb.capacity - rb.size) src (omega (arith, f.size)),
    ) in
    (
      d.bytes ∙ rw c (take-all (length src) src (le_refl _)),
      omega (arith, d.size, f.size),
      returned_of_enough (read rb' (length src)) (λ r. omega (arith, d.waits r, f.size)),
    )

-- What was written to an empty valid ring, and fits in it, is read back: the write reports the whole
-- length, and a read of that length returns those bytes and leaves the ring empty.
pub read-write :
    (rb : Ring) (src : List ℕ)
    → IsValid rb
    → rb.size ≡ 0
    → length src ≤ rb.capacity
    → (rb' : Ring) × (write rb src ≡ Moved.done (length src) rb')
      × ((read rb' (length src)).bytes ≡ src)
      × ((read rb' (length src)).ring.size ≡ 0)
      × ((read rb' (length src)).returned ≡ true)
read-write rb src v e fits =
    let (rb', wrote, f) =
      Filled-of_fit rb src (omega arith) (write rb src) (write-Wrote rb src v) in
    let (same, none_left, back) = read-Filled rb rb' src e fits f in
    (rb', wrote, same, none_left, back)
