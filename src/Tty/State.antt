-- ===== src/Tty/State.antt =====
-- include/levos/tty.h: terminals and their settings.
use levos.Base.{ℕ, Bool, List, get_or, test_bit}
use levos.Ring.{Ring}

pub record Termios : Type 0 where
  pub c_iflag : ℕ
  pub c_oflag : ℕ
  pub c_cflag : ℕ
  pub c_lflag : ℕ
  pub c_cc : List ℕ

pub record Winsize : Type 0 where
  pub ws_row : ℕ
  pub ws_col : ℕ
  pub ws_xpixel : ℕ
  pub ws_ypixel : ℕ

-- `struct tty_device` with the private data of N_TTY; `closed` is TTY_STATE_CLOSED. The rest is what the
-- terminal did: the bytes that the console has shown, and the groups and signals that it sent.
pub record Tty : Type 0 where
  pub termios : Termios
  pub tty_out : Ring
  pub closed : Bool
  pub tty_fg_proc : ℕ
  pub tty_winsize : Winsize
  pub line_buffer : Ring
  pub line_editing : List ℕ
  pub line_len : ℕ
  pub shown : List ℕ
  pub signals : List (ℕ × ℕ)
  pub allocs : List Bool

-- What a routine does: it returns; it waits for a ring; or it writes behind the end of an array.
pub data Run {ℓ} (A : Type ℓ) : Type ℓ where
  done : A → Run A
  waits : Run A
  overrun : Run A

abbrev pub and_then {ℓ κ} : {A : Type ℓ} {B : Type κ} → Run A → (A → Run B) → Run B
and_then (Run.done a) next = next a
and_then Run.waits next = Run.waits
and_then Run.overrun next = Run.overrun

-- the flags by the positions of their bits
abbrev pub opost : Tty → Bool
opost t = test_bit 0 t.termios.c_oflag

abbrev pub olcuc : Tty → Bool
olcuc t = test_bit 1 t.termios.c_oflag

abbrev pub onlcr : Tty → Bool
onlcr t = test_bit 2 t.termios.c_oflag

abbrev pub isig : Tty → Bool
isig t = test_bit 0 t.termios.c_lflag

abbrev pub icanon : Tty → Bool
icanon t = test_bit 1 t.termios.c_lflag

abbrev pub echo : Tty → Bool
echo t = test_bit 3 t.termios.c_lflag

abbrev pub echoe : Tty → Bool
echoe t = test_bit 4 t.termios.c_lflag

abbrev pub echok : Tty → Bool
echok t = test_bit 5 t.termios.c_lflag

abbrev pub echonl : Tty → Bool
echonl t = test_bit 6 t.termios.c_lflag

abbrev pub echoctl : Tty → Bool
echoctl t = test_bit 9 t.termios.c_lflag

abbrev pub icrnl : Tty → Bool
icrnl t = test_bit 1 t.termios.c_iflag

abbrev pub igncr : Tty → Bool
igncr t = test_bit 3 t.termios.c_iflag

abbrev pub inlcr : Tty → Bool
inlcr t = test_bit 5 t.termios.c_iflag

abbrev pub iuclc : Tty → Bool
iuclc t = test_bit 8 t.termios.c_iflag

-- `tm->c_cc[i]`: VEOF is 1, VERASE 3, VINTR 4, VKILL 5, VQUIT 7, VSUSP 10, VWERASE 12.
abbrev pub cc : Tty → ℕ → ℕ
cc t i = get_or t.termios.c_cc i 0
