-- ===== src/Tty/Calls.antt =====
-- drivers/tty.c and drivers/n_tty.c: making a terminal, reading, writing and control of it.
use levos.Base.{ℕ, Bool, false, not, ◌&&◌, List, [], ◌∷◌, Option, none, some, ◌==◌}
use levos.Base.{if◌then◌else◌, neg, length, replicate}
use levos.Ring
use levos.Ring.{Ring, Taken}
use levos.Tty.State.{Termios, Winsize, Tty, Run, done, waits, and_then}
use levos.Tty.Output.{write_all, tty_interrupt_output}

-- `c_iflag`: BRKINT, ICRNL, IXANY, IXON; `c_oflag`: OPOST, ONLCR; `c_cflag`: CS8, CREAD, HUPCL;
-- `c_lflag`: ECHO, ECHOE, ECHOK, ECHOCTL (and IEXTEN, the same bit), ICANON, ISIG.
unfoldable pub termios_init : Termios
termios_init = record {
  c_iflag = 2563;
  c_oflag = 5;
  c_cflag = 1200;
  c_lflag = 571;
  c_cc = 0 ∷ 4 ∷ 127 ∷ 127 ∷ 24 ∷ 21 ∷ 1 ∷ 28 ∷ 17 ∷ 19 ∷ 11 ∷ 0 ∷ 23 ∷ replicate 19 0;
}

-- PTY_BUF_SIZE
abbrev pub pty_buf_size : ℕ
pty_buf_size = 4096

-- `tty_new`, with `n_tty_init`. The four allocations: the terminal, with what its memory held (which
-- stays in the foreground group), the output ring's storage, the private data of N_TTY, with its ring and
-- its line as they were, and the line ring's storage.
unfoldable pub tty_new :
    Option Tty → Option (List ℕ) → Option (Ring × List ℕ) → Option (List ℕ) → List Bool → Option Tty
tty_new none out_mem priv line_mem allocs = none
tty_new (some old) out_mem none line_mem allocs = none
tty_new (some old) out_mem (some (rb, editing)) line_mem allocs = some (record {
  termios = termios_init;
  tty_out = Ring.init old.tty_out pty_buf_size out_mem;
  closed = false;
  tty_fg_proc = old.tty_fg_proc;
  tty_winsize = record { ws_row = 80; ws_col = 25; ws_xpixel = 0; ws_ypixel = 0 };
  line_buffer = Ring.set_flags (Ring.init rb pty_buf_size line_mem) 1;
  line_editing = editing;
  line_len = 0;
  shown = [];
  signals = [];
  allocs = allocs;
})

abbrev pub after_read_buf : Tty → Taken → Run (List ℕ × Tty)
after_read_buf t r = if r.returned then done (r.bytes, record t { line_buffer = r.ring }) else waits

-- Reading: what is stored in the caller's buffer, whose length is the result of `ring_buffer_read`, which
-- the call returns.
unfoldable pub n_tty_read_buf : Tty → ℕ → Run (List ℕ × Tty)
n_tty_read_buf t len =
    if not t.closed && (Ring.ring_size t.line_buffer == 0)
    then waits
    else after_read_buf t (Ring.read t.line_buffer len)

-- A read of a closed terminal is the end of the file, once.
unfoldable pub tty_fread : Tty → ℕ → Run (List ℕ × Tty)
unfolding n_tty_read_buf
tty_fread t len = if t.closed then done ([], record t { closed = false }) else n_tty_read_buf t len

unfoldable pub tty_fwrite : Tty → List ℕ → Run Tty
unfolding write_all tty_interrupt_output
tty_fwrite t buf = and_then (write_all t buf) (λ u. tty_interrupt_output u (length buf))

pub data Request : Type 0 where
  tcgets : Request
  tcsets : Termios → Request
  tiocgwinsz : Request
  tiocswinsz : Winsize → Request
  tiocgpgrp : Request
  tiocspgrp : ℕ → Request
  tcflsh : Request
  tiocnotty : Bool → Request
  unknown : Request

-- What is stored at the caller's address, and what else is done: a SIGWINCH for the caller, or the end of
-- its controlling terminal.
pub data Reply : Type 0 where
  nothing : Reply
  termios_is : Termios → Reply
  winsize_is : Winsize → Reply
  pgrp_is : ℕ → Reply
  winch : Reply
  no_ctty : Reply

abbrev pub same_size : Winsize → Winsize → Bool
same_size a b =
    (a.ws_row == b.ws_row)
    && ((a.ws_col == b.ws_col) && ((a.ws_xpixel == b.ws_xpixel) && (a.ws_ypixel == b.ws_ypixel)))

-- `tty_ioctl`: the result, the reply and the terminal. `tiocnotty`: it is the caller's. EINVAL is 22.
unfoldable pub tty_ioctl : Tty → Request → ℕ × Reply × Tty
tty_ioctl t tcgets = (0, termios_is t.termios, t)
tty_ioctl t (tcsets tm) = (0, nothing, record t { termios = tm })
tty_ioctl t tiocgwinsz = (0, winsize_is t.tty_winsize, t)
tty_ioctl t (tiocswinsz ws) =
    (0, if same_size ws t.tty_winsize then nothing else winch, record t { tty_winsize = ws })
tty_ioctl t tiocgpgrp = (0, pgrp_is t.tty_fg_proc, t)
tty_ioctl t (tiocspgrp pg) = (0, nothing, record t { tty_fg_proc = pg })
tty_ioctl t tcflsh = (0, nothing, t)
tty_ioctl t (tiocnotty own) = if own then (0, no_ctty, t) else (neg 22, nothing, t)
tty_ioctl t unknown = (neg 22, nothing, t)

-- `ctty_file_write` and `ctty_file_read`: the caller's terminal, if it has one. ENOTTY is 25.
unfoldable pub ctty_file_write : Option Tty → List ℕ → Run (ℕ × Option Tty)
unfolding write_all tty_interrupt_output
ctty_file_write none buf = done (neg 25, none)
ctty_file_write (some t) buf =
    and_then (write_all t buf)
      (λ u. and_then (tty_interrupt_output u (length buf)) (λ v. done (length buf, some v)))
