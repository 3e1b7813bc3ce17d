-- ===== src/Ring.antt =====
-- lib/ring.c and include/levos/ring.h: the byte ring that pipes, terminals and TCP connections
-- keep their data in. The storage is a list of bytes; a `NULL` buffer is the empty list.
-- A caller whose ring is full (or empty) and not RB_FLAG_NONBLOCK spins until another task reads
-- (or writes): the model returns `spin` with the ring at that point.
pub mod Queue
pub mod Valid
pub mod Fifo
pub mod Transfer
mod Tests
use levos.Base.{ℕ, zero, suc, ◌+◌, ◌-◌, Bool, true, false, List, [], ◌∷◌, ◌++◌, Option, none, some}
use levos.Base.{◌==◌, if◌then◌else◌, get_or, set, add32, sub32, test_bit}

pub record Ring : Type 0 where
  pub head : ℕ
  pub tail : ℕ
  pub flags : ℕ
  pub capacity : ℕ
  pub size : ℕ
  pub buffer : List ℕ

-- RB_FLAG_NONBLOCK is `1 << 0`
abbrev pub nonblock : Ring → Bool
nonblock rb = test_bit 0 rb.flags

-- `malloc` is the argument `mem`: `none` when memory ran out, which leaves the other fields.
unfoldable pub init : Ring → ℕ → Option (List ℕ) → Ring
init rb capacity none = record rb { capacity = capacity; buffer = [] }
init rb capacity (some mem) = record {
  head = 0;
  tail = 0;
  flags = 0;
  capacity = capacity;
  size = 0;
  buffer = mem;
}

unfoldable pub flush : Ring → Ring
flush rb = record rb { size = 0; head = 0; tail = 0 }

unfoldable pub set_flags : Ring → ℕ → Ring
set_flags rb flags = record rb { flags = flags }

unfoldable pub ring_size : Ring → ℕ
ring_size rb = rb.size

-- `i ++` followed by the reset to 0 at the capacity
abbrev pub advance : ℕ → ℕ → ℕ
advance capacity i = if add32 i 1 == capacity then 0 else add32 i 1

pub data Put : Type 0 where
  put : Ring → Put
  full : Put
  spin : Put

-- `__ring_buffer_write`: 0 with the new ring, 1, or the busy wait
unfoldable pub put_byte : Ring → ℕ → Put
put_byte rb c =
    if rb.size == rb.capacity
    then (if nonblock rb then full else spin)
    else put (record rb {
      buffer = set rb.buffer rb.head c;
      head = advance rb.capacity rb.head;
      size = add32 rb.size 1;
    })

-- `done n rb`: returned `n`. `spin n rb`: waits after `n` bytes.
pub data Moved : Type 0 where
  done : ℕ → Ring → Moved
  spin : ℕ → Ring → Moved

abbrev pub after_put : (Ring → Moved) → ℕ → Ring → Put → Moved
after_put next n_wrote rb (put rb') = next rb'
after_put next n_wrote rb full = Moved.done n_wrote rb
after_put next n_wrote rb Put.spin = Moved.spin n_wrote rb

-- The loop of `ring_buffer_write`, with `n_wrote`; the list is what is left of `buf`.
write_from : Ring → List ℕ → ℕ → Moved
write_from rb [] n_wrote = Moved.done n_wrote rb
write_from rb (c ∷ buf) n_wrote =
    after_put (λ rb'. write_from rb' buf (n_wrote + 1)) n_wrote rb (put_byte rb c)

unfoldable pub write : Ring → List ℕ → Moved
unfolding write_from
write rb buf = write_from rb buf 0

pub data Get : Type 0 where
  got : ℕ → Ring → Get
  empty : Get
  spin : Get

-- `__ring_buffer_read`
unfoldable pub get_byte : Ring → Get
get_byte rb =
    if rb.size == 0
    then (if nonblock rb then empty else Get.spin)
    else got (get_or rb.buffer rb.tail 0)
        (record rb { tail = advance rb.capacity rb.tail; size = sub32 rb.size 1 })

-- What `ring_buffer_read` has stored in the caller's buffer, and the ring; the flag says whether
-- it returned (the length is its result) or waits for more.
pub record Taken : Type 0 where
  pub bytes : List ℕ
  pub ring : Ring
  pub returned : Bool

abbrev pub after_get : (ℕ → Ring → Taken) → List ℕ → Ring → Get → Taken
after_get next out rb (got c rb') = next c rb'
after_get next out rb empty = record { bytes = out; ring = rb; returned = true }
after_get next out rb Get.spin = record { bytes = out; ring = rb; returned = false }

read_from : Ring → ℕ → List ℕ → Taken
read_from rb zero out = record { bytes = out; ring = rb; returned = true }
read_from rb (suc len) out =
    after_get (λ c rb'. read_from rb' len (out ++ (c ∷ []))) out rb (get_byte rb)

unfoldable pub read : Ring → ℕ → Taken
unfolding read_from
read rb len = read_from rb len []
