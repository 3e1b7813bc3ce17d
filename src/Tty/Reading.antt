-- ===== src/Tty/Reading.antt =====
-- drivers/tty.c and drivers/n_tty.c: making a terminal, and reading a line that was typed.
use levos.Base.{ℕ, ◌+◌, ◌≡◌, ◌<◌, refl, Bool, true, false, List, [], ◌∷◌, ◌++◌, arith, length, sym}
use levos.Base.{◌∙◌, ap, All, take-all, length-append, some, le_refl, ne→==}
use levos.Ring
use levos.Ring.{Ring, Taken}
use levos.Ring.Fifo.{contents, length-contents}
use levos.Ring.Transfer.{Drained, read-Drained, returned_of_enough}
use levos.Tty.State.{Tty, done}
use levos.Tty.Calls.{tty_new, pty_buf_size, n_tty_read_buf, tty_fread}
use levos.Tty.Valid.{TtyValid}
use levos.Tty.Line.{Ready, IsPlain, edited}
use levos.Tty.Typing.{type_all, IsTyped, type_all-Entered}

-- With memory for everything, of the sizes asked for, a new terminal is whole.
pub tty_new-TtyValid :
    (old t : Tty) (rb : Ring) (out_mem editing line_mem : List ℕ) (allocs : List Bool)
    → length out_mem ≡ pty_buf_size
    → length editing ≡ 512
    → length line_mem ≡ pty_buf_size
    → tty_new (some old) (some out_mem) (some (rb, editing)) (some line_mem) allocs ≡ some t
    → TtyValid t
unfolding tty_new Ring.init Ring.set_flags
tty_new-TtyValid old t rb out_mem editing line_mem allocs o e l eq = ground arith

read_buf_lem :
    (t : Tty) (line : List ℕ)
    → TtyValid t
    → t.closed ≡ false
    → contents t.line_buffer ≡ line
    → 0 < length line
    → (u : Tty) × (tty_fread t (length line) ≡ done (line, u)) × (u.line_buffer.size ≡ 0)
unfolding tty_fread n_tty_read_buf Ring.ring_size
read_buf_lem t line v cl e pos =
    let size : t.line_buffer.size ≡ length line =
      sym (length-contents t.line_buffer) ∙ ap length e in
    let d : Drained t.line_buffer (length line) [] (Ring.read t.line_buffer (length line)) =
      read-Drained t.line_buffer (length line) v.line in
    let back : (Ring.read t.line_buffer (length line)).returned ≡ true =
      returned_of_enough (Ring.read t.line_buffer (length line)) (λ w. omega (arith, d.waits w)) in
    let got : (Ring.read t.line_buffer (length line)).bytes ≡ line =
      d.bytes ∙ rw e (take-all (length line) line (le_refl (length line))) in
    (
      record t { line_buffer = (Ring.read t.line_buffer (length line)).ring },
      rw (cl, ne→== t.line_buffer.size 0 (λ z. omega arith), back, got) refl,
      omega (arith, d.size),
    )

-- On an open and whole terminal in canonical mode, whose readers' ring is empty, whose output ring
-- has room for a byte and whose console has memory: a line of plain bytes, shorter than the array,
-- is what the next read of its length gives after the newline was typed, and the read leaves the
-- readers' ring empty.
pub tty_fread-type_all :
    (t : Tty) (cs : List ℕ)
    → Ready t
    → t.closed ≡ false
    → t.line_buffer.size ≡ 0
    → t.line_buffer.capacity ≡ pty_buf_size
    → All (IsTyped t) cs
    → IsPlain t 10
    → t.line_len + length cs < 512
    → (w : Tty) × (type_all t (cs ++ (10 ∷ [])) ≡ done w)
      × ((u : Tty) × (tty_fread w (length (edited t ++ (cs ++ (10 ∷ []))))
            ≡ done (edited t ++ (cs ++ (10 ∷ [])), u))
          × (u.line_buffer.size ≡ 0))
tty_fread-type_all t cs r cl z cap h nl len =
    let (w, q) = type_all-Entered t cs r h nl len (omega arith) in
    (
      w,
      q.returned,
      read_buf_lem w (edited t ++ (cs ++ (10 ∷ []))) q.ready.valid (q.closed ∙ cl)
          (q.bytes ∙ ap (λ l. l ++ (edited t ++ (cs ++ (10 ∷ [])))) none_there) long,
    )
  where
    none_there : contents t.line_buffer ≡ []
    none_there = rw z

    long : 0 < length (edited t ++ (cs ++ (10 ∷ [])))
    long = omega (arith, length-append (edited t) (cs ++ (10 ∷ [])), length-append cs (10 ∷ []))
