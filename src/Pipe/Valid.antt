-- ===== src/Pipe/Valid.antt =====
-- kernel/pipe.c: the invariant of a pipe.
use levos.Base.{ℕ, ◌≡◌, Bool, true, false, List, [], Option, none, some, arith}
use levos.Base.{length, refl}
use levos.Pipe.{Pipe, pipe_create, pipe_close, do_pipe_read, do_pipe_write, ReadOut, WriteOut}
use levos.Pipe.{file_read, file_write, write_closed, read_closed, pipe_buf, of_moved, of_taken}
use levos.Ring
use levos.Ring.{Ring, Moved, Taken, nonblock}
use levos.Ring.Valid
use levos.Ring.Transfer.{Wrote, write-Wrote, Drained, read-Drained}

abbrev gone : Option ℕ → Bool
gone none = true
gone (some f) = false

pub record IsValid (pip : Pipe) : Type 0 where
  pub ring : Valid.IsValid pip.pipe_buffer
  pub space : pip.pipe_buffer.capacity ≡ pipe_buf
  pub nonblocking : nonblock pip.pipe_buffer ≡ true
  pub reader : gone pip.pipe_read ≡ read_closed pip
  pub writer : gone pip.pipe_write ≡ write_closed pip

abbrev pub AfterRead : (Pipe → Type 0) → ReadOut → Type 0
AfterRead P (ReadOut.bytes out pip) = P pip
AfterRead P other = Unit

abbrev pub AfterWrite : (Pipe → Type 0) → WriteOut → Type 0
AfterWrite P (WriteOut.returned rc sent pip) = P pip
AfterWrite P other = Unit

-- A pipe is created valid and empty with both ends open, if every allocation succeeds.
pub pipe_create-IsValid :
    (old : Pipe) (mem : List ℕ) (r w : ℕ)
    → length mem ≡ pipe_buf
    → (pip : Pipe) × (pipe_create (some old) (some mem) (some r) (some w) ≡ some pip)
      × IsValid pip
      × (pip.pipe_buffer.size ≡ 0)
unfolding pipe_create Ring.set_flags Ring.init
pipe_create-IsValid old mem r w l = (
  record {
    pipe_read = some r;
    pipe_write = some w;
    pipe_buffer = Ring.set_flags (Ring.init old.pipe_buffer pipe_buf (some mem)) 1;
    pipe_flags = 0;
  },
  refl,
  ground arith,
  refl,
)

pub pipe_close-IsValid : (pip : Pipe) (filp : ℕ) → IsValid pip → IsValid (pipe_close pip filp)
unfolding pipe_close
pipe_close-IsValid pip filp v = ground arith

of_taken-IsValid :
    (pip : Pipe) (len : ℕ) (t : Taken)
    → IsValid pip
    → Drained pip.pipe_buffer len [] t
    → AfterRead IsValid (of_taken pip t)
of_taken-IsValid pip len t v d = ground arith

of_moved-IsValid :
    (pip : Pipe) (buf : List ℕ) (m : Moved)
    → IsValid pip
    → Wrote pip.pipe_buffer buf 0 m
    → AfterWrite IsValid (of_moved pip m)
of_moved-IsValid pip buf (Moved.done n rb) v w = ground arith
of_moved-IsValid pip buf (Moved.spin n rb) v w = tt

pub do_pipe_read-IsValid :
    (pip : Pipe) (len : ℕ) → IsValid pip → AfterRead IsValid (do_pipe_read pip len)
unfolding do_pipe_read Ring.ring_size
do_pipe_read-IsValid pip len v = ground (
  arith,
  of_taken-IsValid pip len (Ring.read pip.pipe_buffer len) v
      (read-Drained pip.pipe_buffer len v.ring),
)

pub do_pipe_write-IsValid :
    (ignored : Bool) (pip : Pipe) (buf : List ℕ)
    → IsValid pip
    → AfterWrite IsValid (do_pipe_write ignored pip buf)
unfolding do_pipe_write
do_pipe_write-IsValid ignored pip buf v = ground (
  arith,
  of_moved-IsValid pip buf (Ring.write pip.pipe_buffer buf) v
      (write-Wrote pip.pipe_buffer buf v.ring),
)

pub file_read-IsValid :
    (pip : Pipe) (filp len : ℕ) → IsValid pip → AfterRead IsValid (file_read pip filp len)
unfolding file_read
file_read-IsValid pip filp len v = ground (arith, do_pipe_read-IsValid pip len v)

pub file_write-IsValid :
    (ignored : Bool) (pip : Pipe) (filp : ℕ) (buf : List ℕ)
    → IsValid pip
    → AfterWrite IsValid (file_write ignored pip filp buf)
unfolding file_write
file_write-IsValid ignored pip filp buf v = ground (arith, do_pipe_write-IsValid ignored pip buf v)
