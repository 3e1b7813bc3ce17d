-- ===== src/Pipe/Ends.antt =====
-- kernel/pipe.c: what one read and one write of a valid pipe do, on every branch.
use levos.Base.{ℕ, zero, suc, ◌-◌, ◌≡◌, ◌⊎◌, Bool, true, false, List, [], ◌∷◌, ◌++◌}
use levos.Base.{arith, length, take, take-append-drop, neg, min, refl, ap, inr}
use levos.Pipe.{Pipe, do_pipe_read, do_pipe_write, ReadOut, WriteOut, write_closed, read_closed}
use levos.Pipe.{of_taken, of_moved}
use levos.Pipe.Valid.{IsValid}
use levos.Ring
use levos.Ring.{Moved, Taken}
use levos.Ring.Fifo.{contents, length-contents}
use levos.Ring.Transfer.{Wrote, write-Wrote, Drained, read-Drained}

-- the bytes in the pipe
abbrev pub held : Pipe → List ℕ
held pip = contents pip.pipe_buffer

-- A read gets the oldest bytes, as many as it asked for if there are so many, and leaves the rest; it
-- gets none only if it asked for none or at the end of the stream: the pipe is empty and the write
-- end was closed. It waits exactly for a pipe that is empty and still open for writing.
abbrev pub ReadRefines : Pipe → ℕ → ReadOut → Type 0
ReadRefines pip len (ReadOut.bytes out pip') =
    (out ++ held pip' ≡ held pip)
    × (length out ≡ min len (length (held pip)))
    × (held pip ≡ [] → write_closed pip ≡ true)
    × (pip'.pipe_flags ≡ pip.pipe_flags)
ReadRefines pip len (ReadOut.error e) = ⊥
ReadRefines pip len ReadOut.waits = (held pip ≡ []) × (write_closed pip ≡ false)

length-take-min : (n : ℕ) (xs : List ℕ) → length (take n xs) ≡ min n (length xs)
length-take-min zero xs = omega arith
length-take-min (suc n) [] = omega arith
length-take-min (suc n) (x ∷ xs) = omega (arith, length-take-min n xs)

length-zero : (xs : List ℕ) → length xs ≡ 0 → xs ≡ []
length-zero [] h = refl
length-zero (x ∷ xs) h = absurd (omega arith)

of_taken-ReadRefines :
    (pip : Pipe) (len : ℕ) (t : Taken)
    → IsValid pip
    → (pip.pipe_buffer.size ≡ 0 → write_closed pip ≡ true)
    → Drained pip.pipe_buffer len [] t
    → ReadRefines pip len (of_taken pip t)
of_taken-ReadRefines pip len t v eof d = ground (
  arith,
  take-append-drop len (held pip),
  length-take-min len (held pip),
  length-contents pip.pipe_buffer,
)

-- A read of a valid pipe gives the oldest bytes, as many as it asked for if there are so many, and
-- leaves the rest; it gives none of a pipe that holds some only if it asked for none, and waits exactly
-- for a pipe that is empty and still open for writing.
pub do_pipe_read-ReadRefines :
    (pip : Pipe) (len : ℕ) → IsValid pip → ReadRefines pip len (do_pipe_read pip len)
unfolding do_pipe_read Ring.ring_size
do_pipe_read-ReadRefines pip len v = ground (
  arith,
  length-contents pip.pipe_buffer,
  length-zero (held pip),
  of_taken-ReadRefines pip len (Ring.read pip.pipe_buffer len) v,
  read-Drained pip.pipe_buffer len v.ring,
)

-- A write never waits. With the read end closed it moves nothing and returns -EPIPE (32), or raises
-- SIGPIPE and returns -EINTR (4) if the caller does not ignore that signal. With the read end open it
-- appends as many bytes as fit and returns their number.
abbrev pub WriteRefines : Bool → Pipe → List ℕ → WriteOut → Type 0
WriteRefines ignored pip buf (WriteOut.returned rc sent pip') =
    ((read_closed pip ≡ true)
      × (pip' ≡ pip)
      × (((ignored ≡ true) × (rc ≡ neg 32) × (sent ≡ false))
          ⊎ ((ignored ≡ false) × (rc ≡ neg 4) × (sent ≡ true))))
    ⊎ ((read_closed pip ≡ false)
        × (sent ≡ false)
        × (rc ≡ min (length buf) (4096 - length (held pip)))
        × (held pip' ≡ held pip ++ take rc buf)
        × (pip'.pipe_flags ≡ pip.pipe_flags))
WriteRefines ignored pip buf WriteOut.waits = ⊥

take-min : (k n : ℕ) (xs : List ℕ) → k ≡ min (length xs) n → take k xs ≡ take n xs
take-min zero zero xs h = refl
take-min zero (suc n) [] h = refl
take-min zero (suc n) (x ∷ xs) h = absurd (omega arith)
take-min (suc k) zero xs h = absurd (omega arith)
take-min (suc k) (suc n) [] h = refl
take-min (suc k) (suc n) (x ∷ xs) h = ap (λ l. x ∷ l) (take-min k n xs (omega arith))

of_moved-WriteRefines :
    (ignored : Bool) (pip : Pipe) (buf : List ℕ) (m : Moved)
    → IsValid pip
    → read_closed pip ≡ false
    → Wrote pip.pipe_buffer buf 0 m
    → WriteRefines ignored pip buf (of_moved pip m)
of_moved-WriteRefines ignored pip buf (Moved.done n rb) v op w = inr (
  op,
  refl,
  ground (arith, length-contents pip.pipe_buffer),
  ground (arith, take-min n (4096 - pip.pipe_buffer.size) buf),
  refl,
)
of_moved-WriteRefines ignored pip buf (Moved.spin n rb) v op w = ground arith

-- A write to a valid pipe never waits. With the read end closed it moves nothing and returns -EPIPE, or
-- raises SIGPIPE and returns -EINTR if the caller does not ignore that signal. With the read end open
-- it appends as many bytes as fit and returns their number.
pub do_pipe_write-WriteRefines :
    (ignored : Bool) (pip : Pipe) (buf : List ℕ)
    → IsValid pip
    → WriteRefines ignored pip buf (do_pipe_write ignored pip buf)
unfolding do_pipe_write
do_pipe_write-WriteRefines ignored pip buf v = ground (
  arith,
  of_moved-WriteRefines ignored pip buf (Ring.write pip.pipe_buffer buf) v,
  write-Wrote pip.pipe_buffer buf v.ring,
)
