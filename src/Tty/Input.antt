-- ===== src/Tty/Input.antt =====
-- drivers/n_tty.c: bytes that come in, and the line that is edited.
use levos.Base.{ℕ, zero, suc, ◌+◌, ◌%◌, true, not, ◌&&◌, ◌||◌, List, [], ◌∷◌, ◌++◌}
use levos.Base.{◌==◌, leb, ltb, if◌then◌else◌, take, set, get_or, sub32}
use levos.Ring
use levos.Ring.{Ring, Moved}
use levos.Tty.State.{
  Tty, Run, done, waits, overrun, and_then, cc, isig, icanon, echo, echoe, echok, echonl,
}
use levos.Tty.State.{echoctl, icrnl, igncr, inlcr, iuclc}
use levos.Tty.Output.{n_tty_write_output, n_tty_output}

abbrev pub after_flush : Tty → Moved → Run Tty
after_flush t (Moved.done n rb) = done (record t { line_buffer = rb; line_len = 0 })
after_flush t (Moved.spin n rb) = waits

unfoldable pub n_tty_flush : Tty → Run Tty
n_tty_flush t = after_flush t (Ring.write t.line_buffer (take t.line_len t.line_editing))

-- `line_editing` has 512 bytes. The code makes no test: past the end (or at -1) it writes to memory that
-- is not the array's, goes on, and C gives no meaning to what follows. `overrun` is that outcome.
unfoldable pub n_tty_push : Tty → ℕ → Run Tty
unfolding n_tty_flush
n_tty_push t byte =
    let u : Tty = record t {
      line_editing = set t.line_editing t.line_len byte;
      line_len = t.line_len + 1;
    } in
    if ltb t.line_len 512 then (if icanon t then done u else n_tty_flush u) else overrun

-- A control character: its echo, and the signal to the foreground group.
unfoldable pub control : Tty → ℕ → ℕ → Run Tty
unfolding n_tty_write_output
control t c signal =
    let send : Tty → Run Tty =
      λ u. done (record u { signals = u.signals ++ ((u.tty_fg_proc, signal) ∷ []) }) in
    if echoctl t
    then and_then (n_tty_write_output t 94) (λ u.
      and_then (n_tty_write_output u ((64 + c) % 256))
        (λ v. and_then (n_tty_write_output v 10) send))
    else send t

-- "\b \b"
abbrev pub rub : List ℕ
rub = 8 ∷ 32 ∷ 8 ∷ []

-- `priv->line_len --`, of an `int`, as a word: 0 gives -1
abbrev pub shorter : ℕ → ℕ
shorter n = sub32 n 1

-- VWERASE: until a blank was taken
unfoldable pub word_erase : ℕ → Tty → Run Tty
unfolding n_tty_output
word_erase zero t = done t
word_erase (suc n) t = and_then (n_tty_output t rub) (λ u.
    let v : Tty = record u { line_len = n } in
    if get_or v.line_editing n 0 == 32 then done v else word_erase n v)

unfoldable pub line_kill : ℕ → Tty → Run Tty
unfolding n_tty_output
line_kill zero t = done t
line_kill (suc n) t = and_then (n_tty_output (record t { line_len = n }) rub) (line_kill n)

unfoldable pub line_erase : Tty → Run Tty
unfolding n_tty_output
line_erase t =
    if t.line_len == 0
    then done t
    else n_tty_output (record t { line_len = shorter t.line_len }) rub

abbrev pub lower : Tty → ℕ → ℕ
lower t byte = if iuclc t && (leb 65 byte && leb byte 90) then byte + 32 else byte

-- the echo and the push at the end of `n_tty_write_input`
unfoldable pub accept : Tty → ℕ → Run Tty
unfolding n_tty_output n_tty_push n_tty_flush
accept t byte =
    if byte == 10
    then and_then
        (if (icanon t && echo t) || (icanon t && echonl t)
          then n_tty_output t (10 ∷ [])
          else done t)
        (λ u. and_then (n_tty_push u 10) n_tty_flush)
    else and_then (if icanon t && echo t then n_tty_output t (byte ∷ []) else done t)
        (λ u. n_tty_push u byte)

-- from "DEL" on
unfoldable pub edit : Tty → ℕ → Run Tty
unfolding line_erase word_erase line_kill accept
edit t byte =
    if icanon t && (echoe t && (byte == cc t 3))
    then line_erase t
    else if byte == cc t 12
    then word_erase t.line_len t
    else if icanon t && (echok t && (byte == cc t 5))
    then line_kill t.line_len t
    else accept t (lower t byte)

abbrev pub newline : Tty → ℕ → ℕ
newline t byte = if inlcr t && (byte == 10) then 13 else byte

-- from "do quick transforms" on
unfoldable pub transform : Tty → ℕ → Run Tty
unfolding edit
transform t byte =
    if igncr t && (newline t byte == 13)
    then done t
    else if not (igncr t) && (icrnl t && (newline t byte == 13))
    then edit t 10
    else edit t (newline t byte)

-- from VSUSP on; SIGTSTP is 20
unfoldable pub suspend_or_transform : Tty → ℕ → Run Tty
unfolding control transform
suspend_or_transform t byte =
    if isig t && (byte == cc t 10) then control t (cc t 10) 20 else transform t byte

-- SIGINT is 2, SIGQUIT is 3.
unfoldable pub n_tty_write_input : Tty → ℕ → Run Tty
unfolding control suspend_or_transform n_tty_push n_tty_flush
n_tty_write_input t byte =
    if isig t && (byte == cc t 4)
    then control t (cc t 4) 2
    else if isig t && (byte == cc t 7)
    then control t (cc t 7) 3
    else if icanon t && (byte == cc t 1)
    then (if t.line_len == 0
        then and_then (n_tty_push (record t { closed = true }) 10) n_tty_flush
        else suspend_or_transform t 13)
    else suspend_or_transform t byte
