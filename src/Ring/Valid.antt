-- ===== src/Ring/Valid.antt =====
-- lib/ring.c: the invariant of a ring: its indices lie in the storage, and the write pointer is `size`
-- places past the read pointer.
use levos.Base.{ℕ, ◌+◌, ◌≤◌, ◌<◌, ◌≡◌, ◌⊎◌, List, some, length}
use levos.Base.{length-set, arith}
use levos.Ring.{Ring, Put, put, Get, got, put_byte, get_byte, init, flush}
use levos.Ring.{set_flags}

pub record IsValid (rb : Ring) : Type 0 where
  pub storage : length rb.buffer ≡ rb.capacity
  pub some_space : 0 < rb.capacity
  pub int_range : rb.capacity < 0x80000000
  pub head_in : rb.head < rb.capacity
  pub tail_in : rb.tail < rb.capacity
  pub size_in : rb.size ≤ rb.capacity
  pub distance : (rb.tail + rb.size ≡ rb.head) ⊎ (rb.tail + rb.size ≡ rb.head + rb.capacity)

-- The ring that an operation leaves behind, if it changed it, satisfies `P`.
abbrev pub AfterPut : (Ring → Type 0) → Put → Type 0
AfterPut P (put rb) = P rb
AfterPut P other = Unit

abbrev pub AfterGet : (Ring → Type 0) → Get → Type 0
AfterGet P (got c rb) = P rb
AfterGet P other = Unit

pub init-IsValid :
    (rb : Ring) (capacity : ℕ) (mem : List ℕ)
    → length mem ≡ capacity
    → 0 < capacity
    → capacity < 0x80000000
    → IsValid (init rb capacity (some mem))
unfolding init
init-IsValid rb capacity mem l pos small = ground arith

pub flush-IsValid : {rb : Ring} → IsValid rb → IsValid (flush rb)
unfolding flush
flush-IsValid v = ground arith

pub set_flags-IsValid : {rb : Ring} (f : ℕ) → IsValid rb → IsValid (set_flags rb f)
unfolding set_flags
set_flags-IsValid f v = ground arith

pub put_byte-IsValid : (rb : Ring) (c : ℕ) → IsValid rb → AfterPut IsValid (put_byte rb c)
unfolding put_byte
put_byte-IsValid rb c v = ground (arith, length-set rb.buffer rb.head c)

pub get_byte-IsValid : (rb : Ring) → IsValid rb → AfterGet IsValid (get_byte rb)
unfolding get_byte
get_byte-IsValid rb v = ground arith
