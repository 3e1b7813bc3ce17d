-- ===== src/Pipe.antt =====
-- kernel/pipe.c: a pipe is a ring of PIPE_BUF bytes with a read and a write end.
-- A file is known by its address; `malloc` and the disposition of SIGPIPE in the calling task are
-- arguments. The lock is held around the transfer, not around the tests before it; a call is one step of the model.
pub mod Valid
pub mod Ends
pub mod Stream
mod Tests
use levos.Base.{ℕ, ◌-◌, Bool, true, false, not, ◌&&◌, List, [], Option, none, some}
use levos.Base.{◌==◌, if◌then◌else◌, neg, test_bit, set_bit, length, set}
use levos.Ring
use levos.Ring.{Ring, Moved, Taken}

abbrev pub pipe_buf : ℕ
pipe_buf = 4096

pub record Pipe : Type 0 where
  pub pipe_read : Option ℕ
  pub pipe_write : Option ℕ
  pub pipe_buffer : Ring
  pub pipe_flags : ℕ

-- PIPFLAG_WRITE_CLOSED is `1 << 0`, PIPFLAG_READ_CLOSED is `1 << 1`.
abbrev pub write_closed : Pipe → Bool
write_closed pip = test_bit 0 pip.pipe_flags

abbrev pub read_closed : Pipe → Bool
read_closed pip = test_bit 1 pip.pipe_flags

-- What a read returns: the bytes (its result is their number), an error, or not at all: it waits for
-- a writer, or in the ring.
pub data ReadOut : Type 0 where
  bytes : List ℕ → Pipe → ReadOut
  error : ℕ → ReadOut
  waits : ReadOut

abbrev pub of_taken : Pipe → Taken → ReadOut
of_taken pip t =
    if t.returned
    then ReadOut.bytes t.bytes (record pip { pipe_buffer = t.ring })
    else ReadOut.waits

unfoldable pub do_pipe_read : Pipe → ℕ → ReadOut
do_pipe_read pip len =
    if (Ring.ring_size pip.pipe_buffer == 0) && not (write_closed pip)
    then ReadOut.waits
    else if (Ring.ring_size pip.pipe_buffer == 0) && write_closed pip
    then ReadOut.bytes [] pip
    else of_taken pip (Ring.read pip.pipe_buffer len)

-- What a write returns: its result, whether it sent SIGPIPE to the caller, and the pipe; or it waits
-- in the ring.
pub data WriteOut : Type 0 where
  returned : ℕ → Bool → Pipe → WriteOut
  waits : WriteOut

abbrev pub of_moved : Pipe → Moved → WriteOut
of_moved pip (Moved.done n rb) = WriteOut.returned n false (record pip { pipe_buffer = rb })
of_moved pip (Moved.spin n rb) = WriteOut.waits

-- `ignored`: the caller's disposition of SIGPIPE is SIG_IGN. EPIPE is 32, EINTR is 4.
unfoldable pub do_pipe_write : Bool → Pipe → List ℕ → WriteOut
do_pipe_write ignored pip buf =
    if read_closed pip
    then if ignored
      then WriteOut.returned (neg 32) false pip
      else WriteOut.returned (neg 4) true pip
    else of_moved pip (Ring.write pip.pipe_buffer buf)

abbrev pub is_end : Option ℕ → ℕ → Bool
is_end none filp = false
is_end (some f) filp = f == filp

-- `pipe_read` and `pipe_write` of the file operations; EINVAL is 22.
unfoldable pub file_read : Pipe → ℕ → ℕ → ReadOut
file_read pip filp len =
    if is_end pip.pipe_read filp then do_pipe_read pip len else ReadOut.error (neg 22)

unfoldable pub file_write : Bool → Pipe → ℕ → List ℕ → WriteOut
file_write ignored pip filp buf =
    if is_end pip.pipe_write filp
    then do_pipe_write ignored pip buf
    else WriteOut.returned (neg 22) false pip

unfoldable pub pipe_close : Pipe → ℕ → Pipe
pipe_close pip filp =
    if is_end pip.pipe_read filp
    then record pip { pipe_flags = set_bit 1 pip.pipe_flags; pipe_read = none }
    else record pip { pipe_flags = set_bit 0 pip.pipe_flags; pipe_write = none }

-- The four `malloc`s: the pipe (with what its memory held), the ring's storage, and the two files.
unfoldable pub pipe_create : Option Pipe → Option (List ℕ) → Option ℕ → Option ℕ → Option Pipe
pipe_create none mem rd wr = none
pipe_create (some pip) mem none wr = none
pipe_create (some pip) mem (some r) none = none
pipe_create (some pip) mem (some r) (some w) = some (record {
  pipe_read = some r;
  pipe_write = some w;
  pipe_buffer = Ring.set_flags (Ring.init pip.pipe_buffer pipe_buf mem) 1;
  pipe_flags = 0;
})

-- The caller's file table after `pipe(2)`, or -ENOMEM (12).
unfoldable pub do_pipe : List (Option ℕ) → ℕ → ℕ → Option Pipe → List (Option ℕ) × ℕ
do_pipe table fd0 fd1 none = (table, neg 12)
do_pipe table fd0 fd1 (some pip) = (set (set table fd0 pip.pipe_read) fd1 pip.pipe_write, 0)
