-- ===== src/Tty/Output.antt =====
-- drivers/n_tty.c: bytes that go out, and the video console that shows them.
use levos.Base.{
  rest_of, alloc_ok, ℕ, ◌-◌, ◌&&◌, List, [], ◌∷◌, ◌++◌, ◌==◌, leb, if◌then◌else◌, length,
}
use levos.Ring
use levos.Ring.{Ring, Moved, Taken}
use levos.Tty.State.{Tty, Run, done, waits, and_then, opost, olcuc, onlcr}

-- one byte into the output ring
abbrev pub after_write : Tty → Moved → Run Tty
after_write t (Moved.done n rb) = done (record t { tty_out = rb })
after_write t (Moved.spin n rb) = waits

abbrev pub ring_out : Tty → ℕ → Run Tty
ring_out t byte = after_write t (Ring.write t.tty_out (byte ∷ []))

abbrev pub upper : Tty → ℕ → ℕ
upper t byte = if olcuc t && (leb 97 byte && leb byte 122) then byte - 32 else byte

unfoldable pub n_tty_write_output : Tty → ℕ → Run Tty
n_tty_write_output t byte =
    if opost t
    then (if onlcr t && (upper t byte == 10) then ring_out t 13 else ring_out t (upper t byte))
    else ring_out t byte

-- the bytes of a buffer, one after the other
unfoldable pub write_all : Tty → List ℕ → Run Tty
write_all t [] = done t
write_all t (c ∷ buf) = and_then (n_tty_write_output t c) (λ u. write_all u buf)

abbrev pub after_read : Tty → Taken → Run Tty
after_read t r =
    if r.returned then done (record t { tty_out = r.ring; shown = t.shown ++ r.bytes }) else waits

-- `videocon_tty_interrupt_output`
unfoldable pub tty_interrupt_output : Tty → ℕ → Run Tty
tty_interrupt_output t len =
    let m : Tty = record t { allocs = rest_of t.allocs } in
    if alloc_ok t.allocs then after_read m (Ring.read t.tty_out len) else done m

unfoldable pub n_tty_output : Tty → List ℕ → Run Tty
unfolding write_all tty_interrupt_output
n_tty_output t buf = and_then (write_all t buf) (λ u. tty_interrupt_output u (length buf))
