-- ===== src/Tty/Tests.antt =====
-- drivers/n_tty.c and drivers/tty.c on small inputs, and the instances of the theorems on terminals.
use levos.Base.{ℕ, ◌≡◌, refl, false, List, [], ◌∷◌, replicate, arith, inl}
use levos.Base.{length-replicate}
use levos.Ring.{Ring}
use levos.Tty.State.{Tty, Winsize, Run, done}
use levos.Tty.Calls.{termios_init, tty_fread, tty_ioctl, tiocswinsz}
use levos.Tty.Calls.{winch, nothing}
use levos.Tty.Input.{n_tty_write_input}
use levos.Tty.Valid.{TtyValid, Returns}
use levos.Tty.Edit.{n_tty_write_input-TtyValid}
use levos.Tty.Line.{Ready}
use levos.Tty.Typing.{type_all, n_tty_write_input-overrun}
use levos.Tty.Reading.{tty_fread-type_all}

abbrev storage : List ℕ
storage = replicate 4096 0

abbrev editing : List ℕ
editing = replicate 512 0

abbrev out_ring : Ring
out_ring = record { head = 0; tail = 0; flags = 0; capacity = 4096; size = 0; buffer = storage }

abbrev line_ring : Ring
line_ring = record { head = 0; tail = 0; flags = 1; capacity = 4096; size = 0; buffer = storage }

abbrev tty : Tty
tty = record {
  termios = termios_init;
  tty_out = out_ring;
  closed = false;
  tty_fg_proc = 7;
  tty_winsize = record { ws_row = 80; ws_col = 25; ws_xpixel = 0; ws_ypixel = 0 };
  line_buffer = line_ring;
  line_editing = editing;
  line_len = 0;
  shown = [];
  signals = [];
  allocs = [];
}

tty-TtyValid : TtyValid tty
tty-TtyValid = record {
  out = record {
    storage = length-replicate {A = ℕ} 4096 0;
    some_space = omega arith;
    int_range = omega arith;
    head_in = omega arith;
    tail_in = omega arith;
    size_in = omega arith;
    distance = inl refl;
  };
  line = record {
    storage = length-replicate {A = ℕ} 4096 0;
    some_space = omega arith;
    int_range = omega arith;
    head_in = omega arith;
    tail_in = omega arith;
    size_in = omega arith;
    distance = inl refl;
  };
  line_nonblock = refl;
  array = length-replicate {A = ℕ} 512 0;
  len = omega arith;
}

tty-Ready : Ready tty
unfolding termios_init
tty-Ready = record { valid = tty-TtyValid; canonical = refl; memory = refl; room = omega arith }

-- "ls"
abbrev command : List ℕ
command = 108 ∷ 115 ∷ []

n_tty_write_input-TtyValid_example : Returns TtyValid (n_tty_write_input tty 108)
n_tty_write_input-TtyValid_example =
    n_tty_write_input-TtyValid tty 108 (record { valid = tty-TtyValid; room = omega arith })

abbrev wide : Winsize
wide = record { ws_row = 25; ws_col = 80; ws_xpixel = 0; ws_ypixel = 0 }

tty_ioctl-winch : (tty_ioctl tty (tiocswinsz wide)).1 ≡ winch
unfolding tty_ioctl
tty_ioctl-winch = refl

tty_ioctl-same : (tty_ioctl (tty_ioctl tty (tiocswinsz wide)).2 (tiocswinsz wide)).1 ≡ nothing
unfolding tty_ioctl
tty_ioctl-same = refl

tty_fread-type_all_example :
    (w : Tty) × (type_all tty (108 ∷ 115 ∷ 10 ∷ []) ≡ done w)
    × ((u : Tty) × (tty_fread w 3 ≡ done (108 ∷ 115 ∷ 10 ∷ [], u)) × (u.line_buffer.size ≡ 0))
unfolding termios_init
tty_fread-type_all_example =
    tty_fread-type_all tty command tty-Ready refl refl refl
      (
        ((refl, refl, refl, refl, refl, refl, refl, refl, refl, refl), omega arith),
        (((refl, refl, refl, refl, refl, refl, refl, refl, refl, refl), omega arith), tt),
      )
      (refl, refl, refl, refl, refl, refl, refl, refl, refl, refl) (omega arith)

abbrev full_line : Tty
full_line = record tty { line_len = 512 }

full_line-Ready : Ready full_line
unfolding termios_init
full_line-Ready = record {
  valid = record {
    out = tty-TtyValid.out;
    line = tty-TtyValid.line;
    line_nonblock = refl;
    array = tty-TtyValid.array;
    len = omega arith;
  };
  canonical = refl;
  memory = refl;
  room = omega arith;
}

n_tty_write_input-overrun_example : n_tty_write_input full_line 97 ≡ Run.overrun
unfolding termios_init
n_tty_write_input-overrun_example =
    n_tty_write_input-overrun full_line 97 full_line-Ready
      ((refl, refl, refl, refl, refl, refl, refl, refl, refl, refl), omega arith) refl
