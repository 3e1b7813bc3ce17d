-- ===== src/Tty/Typing.antt =====
-- drivers/n_tty.c: a whole line is typed, of plain bytes and the newline.
use levos.Base.{
  ℕ, ◌+◌, ◌≡◌, ◌≢◌, ◌≤◌, ◌<◌, refl, List, [], ◌∷◌, ◌++◌, arith, length, subst, sym, ap, ◌∙◌, All,
}
use levos.Base.{append_assoc, ne→==, ◌&&◌}
use levos.Ring.Fifo.{contents}
use levos.Tty.State.{Tty, Run, done, and_then, icanon, echo}
use levos.Tty.Input.{n_tty_write_input, n_tty_push, accept}
use levos.Tty.Line.{Ready, IsPlain, edited, Typed, echoed, accept-Typed, write_input-plain}
use levos.Tty.Entering.{Entered, accept-Entered}

unfoldable pub type_all : Tty → List ℕ → Run Tty
type_all t [] = done t
type_all t (c ∷ cs) = and_then (n_tty_write_input t c) (λ u. type_all u cs)

IsPlain-termios : (t u : Tty) (c : ℕ) → u.termios ≡ t.termios → IsPlain t c → IsPlain u c
IsPlain-termios t u c e p = subst (λ tm. IsPlain (record t { termios = tm }) c) (sym e) p

abbrev pub IsTyped : Tty → ℕ → Type 0
IsTyped t c = IsPlain t c × (c ≢ 10)

All-termios :
    (t u : Tty) (cs : List ℕ) → u.termios ≡ t.termios → All (IsTyped t) cs → All (IsTyped u) cs
All-termios t u [] e h = tt
All-termios t u (c ∷ cs) e h = ((IsPlain-termios t u c e h.0.0, h.0.1), All-termios t u cs e h.1)

Entered-after :
    (t u w : Tty) (c : ℕ) (line : List ℕ) (r : Run Tty)
    → Typed t c (done u) u
    → Entered u (edited u ++ line) r w
    → Entered t (edited t ++ (c ∷ line)) r w
Entered-after t u w c line r p q = record {
  returned = q.returned;
  ready = q.ready;
  empty = q.empty;
  bytes =
      q.bytes
      ∙ ap (λ b. contents b ++ (edited u ++ line)) p.buffer
      ∙ ap (λ l. contents t.line_buffer ++ (l ++ line)) p.line
      ∙ ap (λ l. contents t.line_buffer ++ l) (append_assoc (edited t) (c ∷ []) line);
  termios = q.termios ∙ p.termios;
  closed = q.closed ∙ p.closed;
}

-- A line of plain bytes and the newline, typed on a whole terminal in canonical mode: if it is
-- shorter than the array and fits in the line ring, the output ring has room for a byte and the
-- console has memory, then the discipline returns from each byte, and the readers' ring has the
-- whole line, with what was typed before and the newline, behind what it held.
pub type_all-Entered :
    (t : Tty) (cs : List ℕ)
    → Ready t
    → All (IsTyped t) cs
    → IsPlain t 10
    → t.line_len + length cs < 512
    → t.line_buffer.size + (t.line_len + length cs + 1) ≤ t.line_buffer.capacity
    → (u : Tty) × Entered t (edited t ++ (cs ++ (10 ∷ []))) (type_all t (cs ++ (10 ∷ []))) u
unfolding type_all
type_all-Entered t [] r h nl len fits =
    let (u, q) = accept-Entered t r (omega arith) (omega arith) in
    (
      u,
      record {
        returned =
            ap (λ x. and_then x done) (write_input-plain t 10 nl)
            ∙ ap (λ x. and_then x done) q.returned;
        ready = q.ready;
        empty = q.empty;
        bytes = q.bytes;
        termios = q.termios;
        closed = q.closed;
      },
    )
type_all-Entered t (c ∷ cs) r h nl len fits =
    let (u, p) = accept-Typed t c r (omega arith) h.0.1 in
    let (w, q) =
      type_all-Entered u cs p.ready (All-termios t u cs p.termios h.1)
        (IsPlain-termios t u 10 p.termios nl) (omega (arith, p.len))
        (omega (arith, p.len, ap (λ b. b.size) p.buffer, ap (λ b. b.capacity) p.buffer)) in
    (
      w,
      subst (λ x. Entered t (edited t ++ (c ∷ (cs ++ (10 ∷ [])))) x w)
          (sym (
            ap (λ x. and_then x (λ v. type_all v (cs ++ (10 ∷ []))))
              (write_input-plain t c h.0.0 ∙ p.returned)))
          (Entered-after t u w c (cs ++ (10 ∷ [])) (type_all u (cs ++ (10 ∷ [])))
            (record {
              returned = refl;
              ready = p.ready;
              line = p.line;
              len = p.len;
              buffer = p.buffer;
              termios = p.termios;
              closed = p.closed;
            })
            q),
    )

push-overrun : (u : Tty) (c : ℕ) → u.line_len ≡ 512 → n_tty_push u c ≡ Run.overrun
unfolding n_tty_push
push-overrun u c e = rw e refl

accept-overrun : (t : Tty) (c : ℕ) → Ready t → c ≢ 10 → t.line_len ≡ 512 → accept t c ≡ Run.overrun
unfolding accept
accept-overrun t c r ne e =
    let (u, s) = echoed (icanon t && echo t) t c r in
    rw (ne→== c 10 ne) (
      ap (λ x. and_then x (λ v. n_tty_push v c)) s.returned
      ∙ push-overrun u c (s.keeps.line_len ∙ e))

-- On a whole terminal in canonical mode, with memory for the console and room for a byte in the
-- output ring, the discipline does not test the length of the line: when the line has 512 bytes, the
-- next plain byte that is not a newline is written behind the end of the array.
pub n_tty_write_input-overrun :
    (t : Tty) (c : ℕ)
    → Ready t
    → IsTyped t c
    → t.line_len ≡ 512
    → n_tty_write_input t c ≡ Run.overrun
n_tty_write_input-overrun t c r h e = write_input-plain t c h.0 ∙ accept-overrun t c r h.1 e
