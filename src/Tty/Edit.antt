-- ===== src/Tty/Edit.antt =====
-- drivers/n_tty.c: bytes that come in, and the invariant of a terminal.
use levos.Base.{ℕ, zero, suc, ◌+◌, ◌≤◌, ◌<◌, Bool, true, false, List, [], ◌∷◌, arith}
use levos.Base.{
  length-set, Bool-cases, inl, inr, if◌then◌else◌, take, lt→ltb, ◌==◌, ==→ne, ◌&&◌, ◌||◌,
}
use levos.Base.{◌%◌, get_or, not, set}
use levos.Ring
use levos.Ring.{Ring, Moved}
use levos.Ring.Transfer.{Wrote, write-Wrote}
use levos.Tty.State.{Tty, Run, and_then, icanon, isig, igncr, icrnl, echo, echoe, echok}
use levos.Tty.State.{echonl, echoctl, cc}
use levos.Tty.Output.{n_tty_write_output, n_tty_output}
use levos.Tty.Input.{
  n_tty_flush, after_flush, n_tty_push, control, rub, word_erase, line_kill, line_erase,
}
use levos.Tty.Input.{
  shorter, accept, edit, transform, suspend_or_transform, n_tty_write_input, newline, lower,
}
use levos.Tty.Valid.{
  TtyValid, Returns, Returns-and_then, Returns-map, Keeps, n_tty_write_output-Keeps,
}
use levos.Tty.Valid.{n_tty_output-Keeps}

TtyValid-Keeps : (t u : Tty) → TtyValid t → Keeps t u → TtyValid u
TtyValid-Keeps t u v k = ground arith

write_output-TtyValid :
    (t : Tty) (byte : ℕ) → TtyValid t → Returns TtyValid (n_tty_write_output t byte)
write_output-TtyValid t byte v =
    Returns-map (Keeps t) TtyValid (n_tty_write_output t byte) (λ u k. TtyValid-Keeps t u v k)
      (n_tty_write_output-Keeps t byte v.out)

output-TtyValid : (t : Tty) (buf : List ℕ) → TtyValid t → Returns TtyValid (n_tty_output t buf)
output-TtyValid t buf v =
    Returns-map (Keeps t) TtyValid (n_tty_output t buf) (λ u k. TtyValid-Keeps t u v k)
      (n_tty_output-Keeps t buf v.out)

after_flush-TtyValid :
    (t : Tty) (src : List ℕ) (m : Moved)
    → TtyValid t
    → Wrote t.line_buffer src 0 m
    → Returns TtyValid (after_flush t m)
after_flush-TtyValid t src (Moved.done n rb) v w = ground arith
after_flush-TtyValid t src (Moved.spin n rb) v w = tt

pub flush-TtyValid : (t : Tty) → TtyValid t → Returns TtyValid (n_tty_flush t)
unfolding n_tty_flush
flush-TtyValid t v =
    after_flush-TtyValid t (take t.line_len t.line_editing)
      (Ring.write t.line_buffer (take t.line_len t.line_editing)) v
      (write-Wrote t.line_buffer (take t.line_len t.line_editing) v.line)

pushed : Tty → ℕ → Tty
pushed t byte = record t {
  line_editing = set t.line_editing t.line_len byte;
  line_len = t.line_len + 1;
}

pushed-TtyValid : (t : Tty) (byte : ℕ) → TtyValid t → t.line_len < 512 → TtyValid (pushed t byte)
unfolding pushed
pushed-TtyValid t byte v h = ground (arith, length-set t.line_editing t.line_len byte)

-- A whole terminal whose line has room for a byte.
pub record Open (t : Tty) : Type 0 where
  pub valid : TtyValid t
  pub room : t.line_len < 512

closed-Open : (t : Tty) → Open t → Open (record t { closed = true })
closed-Open t o = record { valid = ground (arith, o.valid); room = o.room }

push-TtyValid : (t : Tty) (byte : ℕ) → Open t → Returns TtyValid (n_tty_push t byte)
unfolding n_tty_push pushed
push-TtyValid t byte o =
    let v : TtyValid (pushed t byte) = pushed-TtyValid t byte o.valid o.room in
    elim (Bool-cases (icanon t)) [
      | inl c ↦ rw (lt→ltb t.line_len 512 o.room, c) v
      | inr c ↦ rw (lt→ltb t.line_len 512 o.room, c) (flush-TtyValid (pushed t byte) v)
    ]

output-Open : (t : Tty) (buf : List ℕ) → Open t → Returns Open (n_tty_output t buf)
output-Open t buf o =
    Returns-map (Keeps t) Open (n_tty_output t buf)
      (λ u k. record {
        valid = TtyValid-Keeps t u o.valid k;
        room = omega (arith, o.room, k.line_len);
      })
      (n_tty_output-Keeps t buf o.valid.out)

if-Open :
    (b : Bool) (r q : Run Tty) → Returns Open r → Returns Open q → Returns Open (if b then r else q)
if-Open true r q p h = p
if-Open false r q p h = h

then-TtyValid :
    (r : Run Tty) (next : Tty → Run Tty)
    → Returns TtyValid r
    → ((u : Tty) → TtyValid u → Returns TtyValid (next u))
    → Returns TtyValid (and_then r next)
then-TtyValid r next p h = Returns-and_then TtyValid TtyValid next r p h

if-TtyValid :
    (b : Bool) (r q : Run Tty)
    → Returns TtyValid r
    → Returns TtyValid q
    → Returns TtyValid (if b then r else q)
if-TtyValid true r q p h = p
if-TtyValid false r q p h = h

control-TtyValid : (t : Tty) (c s : ℕ) → TtyValid t → Returns TtyValid (control t c s)
unfolding control
control-TtyValid t c s v =
    if-TtyValid (echoctl t) _ _
      (then-TtyValid _ _ (write_output-TtyValid t 94 v) (λ u p.
        then-TtyValid _ _ (write_output-TtyValid u ((64 + c) % 256) p)
          (λ w q. then-TtyValid _ _ (write_output-TtyValid w 10 q) (λ x r. ground arith))))
      (ground arith)

shorter-TtyValid : (t : Tty) (n : ℕ) → TtyValid t → n ≤ 512 → TtyValid (record t { line_len = n })
shorter-TtyValid t n v h = ground arith

word_erase-TtyValid : (n : ℕ) (t : Tty) → n ≤ 512 → TtyValid t → Returns TtyValid (word_erase n t)
unfolding word_erase
word_erase-TtyValid zero t h v = v
word_erase-TtyValid (suc n) t h v = then-TtyValid _ _ (output-TtyValid t rub v) (λ u p.
    if-TtyValid (get_or u.line_editing n 0 == 32) _ _ (shorter-TtyValid u n p (omega arith)) (
      word_erase-TtyValid n (record u { line_len = n }) (omega arith)
        (shorter-TtyValid u n p (omega arith))))

line_kill-TtyValid : (n : ℕ) (t : Tty) → n ≤ 512 → TtyValid t → Returns TtyValid (line_kill n t)
unfolding line_kill
line_kill-TtyValid zero t h v = v
line_kill-TtyValid (suc n) t h v =
    then-TtyValid _ _
      (output-TtyValid (record t { line_len = n }) rub (shorter-TtyValid t n v (omega arith)))
      (λ u p. line_kill-TtyValid n u (omega arith) p)

line_erase-TtyValid : (t : Tty) → TtyValid t → Returns TtyValid (line_erase t)
unfolding line_erase
line_erase-TtyValid t v = elim (Bool-cases (t.line_len == 0)) [
  | inl e ↦ rw e v
  | inr e ↦
      let less : shorter t.line_len ≤ 512 = omega (arith, v.len, ==→ne _ _ e) in
      rw e (
        output-TtyValid (record t { line_len = shorter t.line_len }) rub
          (shorter-TtyValid t (shorter t.line_len) v less))
]

accept-TtyValid : (t : Tty) (byte : ℕ) → Open t → Returns TtyValid (accept t byte)
unfolding accept
accept-TtyValid t byte o =
    if-TtyValid (byte == 10) _ _
      (Returns-and_then Open TtyValid _ _
        (if-Open ((icanon t && echo t) || (icanon t && echonl t)) _ _ (output-Open t (10 ∷ []) o) o)
        (λ u p. then-TtyValid _ _ (push-TtyValid u 10 p) flush-TtyValid))
      (Returns-and_then Open TtyValid _ _
        (if-Open (icanon t && echo t) _ _ (output-Open t (byte ∷ []) o) o)
        (λ u p. push-TtyValid u byte p))

edit-TtyValid : (t : Tty) (byte : ℕ) → Open t → Returns TtyValid (edit t byte)
unfolding edit
edit-TtyValid t byte o =
    if-TtyValid (icanon t && (echoe t && (byte == cc t 3))) _ _ (line_erase-TtyValid t o.valid) (
      if-TtyValid (byte == cc t 12) _ _ (word_erase-TtyValid t.line_len t o.valid.len o.valid) (
        if-TtyValid (icanon t && (echok t && (byte == cc t 5))) _ _
          (line_kill-TtyValid t.line_len t o.valid.len o.valid)
          (accept-TtyValid t (lower t byte) o)))

transform-TtyValid : (t : Tty) (byte : ℕ) → Open t → Returns TtyValid (transform t byte)
unfolding transform
transform-TtyValid t byte o = if-TtyValid (igncr t && (newline t byte == 13)) _ _ o.valid (
    if-TtyValid (not (igncr t) && (icrnl t && (newline t byte == 13))) _ _ (edit-TtyValid t 10 o)
      (edit-TtyValid t (newline t byte) o))

suspend-TtyValid : (t : Tty) (byte : ℕ) → Open t → Returns TtyValid (suspend_or_transform t byte)
unfolding suspend_or_transform
suspend-TtyValid t byte o =
    if-TtyValid (isig t && (byte == cc t 10)) _ _ (control-TtyValid t (cc t 10) 20 o.valid)
      (transform-TtyValid t byte o)

-- On a whole terminal whose line has less than 512 bytes, whatever byte comes in: the discipline does not
-- write outside the line's array, and if it does not wait, both rings are whole, the line ring is
-- non-blocking, and the line has 0 to 512 bytes.
pub n_tty_write_input-TtyValid :
    (t : Tty) (byte : ℕ) → Open t → Returns TtyValid (n_tty_write_input t byte)
unfolding n_tty_write_input
n_tty_write_input-TtyValid t byte o =
    if-TtyValid (isig t && (byte == cc t 4)) _ _ (control-TtyValid t (cc t 4) 2 o.valid) (
      if-TtyValid (isig t && (byte == cc t 7)) _ _ (control-TtyValid t (cc t 7) 3 o.valid) (
        if-TtyValid (icanon t && (byte == cc t 1)) _ _
          (if-TtyValid (t.line_len == 0) _ _
            (then-TtyValid _ _ (push-TtyValid (record t { closed = true }) 10 (closed-Open t o))
              flush-TtyValid)
            (suspend-TtyValid t 13 o))
          (suspend-TtyValid t byte o)))
