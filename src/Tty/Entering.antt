-- ===== src/Tty/Entering.antt =====
-- drivers/n_tty.c: the newline that ends a line on a terminal in canonical mode.
use levos.Base.{ℕ, ◌+◌, ◌-◌, ◌≤◌, ◌<◌, ◌≡◌, refl, List, [], ◌∷◌, ◌++◌, arith}
use levos.Base.{length, ◌&&◌, ◌||◌}
use levos.Base.{◌∙◌, ap, length-take, take-all, length-append}
use levos.Ring
use levos.Ring.{Ring, Moved}
use levos.Ring.Fifo.{contents}
use levos.Ring.Transfer.{Filled, write-Wrote, Filled-of_fit}
use levos.Tty.State.{Tty, Run, done, and_then, icanon, echo}
use levos.Tty.State.{echonl}
use levos.Tty.Input.{n_tty_flush, after_flush, n_tty_push, accept}
use levos.Tty.Valid.{TtyValid}
use levos.Tty.Line.{Ready, edited, echoed, Typed, pushed, pushed-Typed}

-- The line has gone to the readers.
pub record Entered (t : Tty) (line : List ℕ) (r : Run Tty) (u : Tty) : Type 0 where
  pub returned : r ≡ done u
  pub ready : Ready u
  pub empty : u.line_len ≡ 0
  pub bytes : contents u.line_buffer ≡ contents t.line_buffer ++ line
  pub termios : u.termios ≡ t.termios
  pub closed : u.closed ≡ t.closed

flushed-TtyValid :
    (u : Tty) (rb : Ring) (line : List ℕ)
    → TtyValid u
    → Filled u.line_buffer line rb
    → TtyValid (record u { line_buffer = rb; line_len = 0 })
flushed-TtyValid u rb line v f = ground arith

Filled-bytes :
    (old rb : Ring) (line : List ℕ)
    → Filled old line rb
    → old.size + length line ≤ old.capacity
    → contents rb ≡ contents old ++ line
Filled-bytes old rb line f fits =
    f.bytes ∙ ap (λ l. contents old ++ l) (take-all (old.capacity - old.size) line (omega arith))

flush-Entered :
    (t u : Tty) (line : List ℕ)
    → Ready u
    → edited u ≡ line
    → u.line_buffer ≡ t.line_buffer
    → u.termios ≡ t.termios
    → u.closed ≡ t.closed
    → u.line_buffer.size + length line ≤ u.line_buffer.capacity
    → (w : Tty) × Entered t line (n_tty_flush u) w
unfolding n_tty_flush
flush-Entered t u line r e b tm cl fits =
    let (rb, d, f) =
      Filled-of_fit u.line_buffer line (omega arith) (Ring.write u.line_buffer line)
        (write-Wrote u.line_buffer line r.valid.line) in
    (
      record u { line_buffer = rb; line_len = 0 },
      record {
        returned = ap (λ l. after_flush u (Ring.write u.line_buffer l)) e ∙ ap (after_flush u) d;
        ready = record {
          valid = flushed-TtyValid u rb line r.valid f;
          canonical = r.canonical;
          memory = r.memory;
          room = r.room;
        };
        empty = refl;
        bytes = Filled-bytes u.line_buffer rb line f fits ∙ ap (λ q. contents q ++ line) b;
        termios = tm;
        closed = cl;
      },
    )

-- The newline ends the line.
pub accept-Entered :
    (t : Tty)
    → Ready t
    → t.line_len < 512
    → t.line_buffer.size + (t.line_len + 1) ≤ t.line_buffer.capacity
    → (u : Tty) × Entered t (edited t ++ (10 ∷ [])) (accept t 10) u
unfolding accept
accept-Entered t r h fits =
    let (u, s) = echoed ((icanon t && echo t) || (icanon t && echonl t)) t 10 r in
    let p : Typed t 10 (n_tty_push u 10) (pushed u 10) =
      pushed-Typed t u 10 (done u) r h
        (record { returned = refl; keeps = s.keeps; size = s.size; allocs = s.allocs }) in
    let (w, q) =
      flush-Entered t (pushed u 10) (edited t ++ (10 ∷ [])) p.ready p.line p.buffer p.termios
        p.closed
        (omega (
          arith,
          ap (λ b. b.size) p.buffer,
          ap (λ b. b.capacity) p.buffer,
          length-append (edited t) (10 ∷ []),
          length-take t.line_len t.line_editing (omega (arith, r.valid.array)),
        )) in
    (
      w,
      record {
        returned =
            ap (λ x. and_then x (λ v. and_then (n_tty_push v 10) n_tty_flush)) s.returned
            ∙ ap (λ x. and_then x n_tty_flush) p.returned
            ∙ q.returned;
        ready = q.ready;
        empty = q.empty;
        bytes = q.bytes;
        termios = q.termios;
        closed = q.closed;
      },
    )
