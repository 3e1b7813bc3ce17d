-- ===== src/Ring/Fifo.antt =====
-- lib/ring.c: the two byte operations, and the queue of the bytes in a ring.
use levos.Base.{ℕ, zero, suc, ◌+◌, ◌-◌, ◌<◌, ◌≡◌, ◌≢◌, ◌⊎◌, refl, ap, ap₂, true, false}
use levos.Base.{List, [], ◌∷◌, ◌++◌, some, none, length, get_or, set, arith}
use levos.Base.{get_or-set_self, get_or-set_ne}
use levos.Ring.{Ring, Put, put, full, Get, got, empty, put_byte, get_byte, advance, nonblock}
use levos.Ring.Queue.{Queue, offer, poll}
use levos.Ring.Valid.{IsValid}

module _ (buf : List ℕ) (cap : ℕ) where
  -- the `n` bytes that follow index `t`, going round at the capacity as the code does
  abbrev pub span : ℕ → ℕ → Queue
  span t zero = []
  span t (suc n) = get_or buf t 0 ∷ span (advance cap t) n

  pub length-span : (t n : ℕ) → length (span t n) ≡ n
  length-span t zero = refl
  length-span t (suc n) = ap suc (length-span (advance cap t) n)

abbrev pub contents : Ring → Queue
contents rb = span rb.buffer rb.capacity rb.tail rb.size

pub length-contents : (rb : Ring) → length (contents rb) ≡ rb.size
length-contents rb = length-span rb.buffer rb.capacity rb.tail rb.size

advance_lem :
    (cap t : ℕ)
    → t < cap
    → cap < 0x80000000
    → ((advance cap t ≡ t + 1) × (t + 1 < cap)) ⊎ ((advance cap t ≡ 0) × (t + 1 ≡ cap))
advance_lem cap t h small = ground arith

-- A byte written just past a span of fewer than `cap` bytes extends it.
span-set :
    (buf : List ℕ) (cap c h n t : ℕ)
    → length buf ≡ cap
    → cap < 0x80000000
    → h < cap
    → t < cap
    → n < cap
    → (t + n ≡ h) ⊎ (t + n ≡ h + cap)
    → span (set buf h c) cap t (suc n) ≡ span buf cap t n ++ (c ∷ [])
span-set buf cap c h zero t l small hh ht hn d =
    ground (arith, get_or-set_self buf h c 0 (omega arith))
span-set buf cap c h (suc n) t l small hh ht hn d =
    ap₂ ◌∷◌ (get_or-set_ne buf h t c 0 (omega arith)) (
      span-set buf cap c h n (advance cap t) l small hh (omega (arith, advance_lem cap t ht small))
        (omega arith) (omega (arith, advance_lem cap t ht small)))

-- `span` matches on `suc`, the code tests `size == 0`.
span-pos :
    (buf : List ℕ) (cap t n : ℕ)
    → n ≢ 0
    → span buf cap t n ≡ get_or buf t 0 ∷ span buf cap (advance cap t) (n - 1)
span-pos buf cap t zero p = absurd (p refl)
span-pos buf cap t (suc n) p = ap (λ k. span buf cap t (suc k)) (omega arith)

-- What the queue of the ring says of an attempt to write a byte: a full queue refuses it, or makes
-- the writer wait; any other takes it at its end.
abbrev pub PutRefines : Ring → ℕ → Put → Type 0
PutRefines rb c (put rb') =
    (offer rb.capacity (contents rb) c ≡ some (contents rb'))
    × (rb'.capacity ≡ rb.capacity)
    × (rb'.flags ≡ rb.flags)
    × (rb'.size ≡ rb.size + 1)
PutRefines rb c full = (offer rb.capacity (contents rb) c ≡ none) × (nonblock rb ≡ true)
PutRefines rb c Put.spin = (offer rb.capacity (contents rb) c ≡ none) × (nonblock rb ≡ false)

-- On a valid ring `__ring_buffer_write` is the bounded queue's `offer`: it appends the byte, or, on a
-- full ring, fails if the ring is non-blocking and waits if it is not.
pub put_byte-PutRefines : (rb : Ring) (c : ℕ) → IsValid rb → PutRefines rb c (put_byte rb c)
unfolding put_byte
put_byte-PutRefines rb c v =
    ground (arith, length-contents rb, span-set rb.buffer rb.capacity c rb.head rb.size rb.tail)

abbrev pub GetRefines : Ring → Get → Type 0
GetRefines rb (got c rb') =
    (poll (contents rb) ≡ some (c, contents rb'))
    × (rb'.capacity ≡ rb.capacity)
    × (rb'.flags ≡ rb.flags)
    × (rb'.size + 1 ≡ rb.size)
GetRefines rb empty = (contents rb ≡ []) × (nonblock rb ≡ true)
GetRefines rb Get.spin = (contents rb ≡ []) × (nonblock rb ≡ false)

-- On a valid ring `__ring_buffer_read` is the queue's `poll`: it takes the oldest byte, or, on an empty
-- ring, fails if the ring is non-blocking and waits if it is not.
pub get_byte-GetRefines : (rb : Ring) → IsValid rb → GetRefines rb (get_byte rb)
unfolding get_byte
get_byte-GetRefines rb v = ground (arith, span-pos rb.buffer rb.capacity rb.tail rb.size)
