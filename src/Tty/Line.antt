-- ===== src/Tty/Line.antt =====
-- drivers/n_tty.c: typing a plain byte on a terminal in canonical mode.
use levos.Base.{
  ℕ, zero, suc, ◌+◌, ◌≤◌, ◌<◌, ◌≡◌, ◌≢◌, refl, Bool, true, false, List, [], ◌∷◌, ◌++◌, arith,
}
use levos.Base.{length, length-set, take, set, ◌==◌, ◌&&◌, not, ne→==, subst, sym}
use levos.Base.{◌∙◌, ap, lt→ltb, if◌then◌else◌}
use levos.Tty.State.{Tty, Run, done, and_then, icanon, isig, igncr, icrnl, echo, echoe, echok}
use levos.Tty.State.{cc}
use levos.Tty.Output.{n_tty_output}
use levos.Tty.Input.{n_tty_push, accept, edit, transform, suspend_or_transform}
use levos.Tty.Input.{n_tty_write_input, newline, lower}
use levos.Tty.Valid.{TtyValid}
use levos.Tty.Room.{Shown, n_tty_output-Shown}

-- A terminal in canonical mode, whose output does not wait.
pub record Ready (t : Tty) : Type 0 where
  pub valid : TtyValid t
  pub canonical : icanon t ≡ true
  pub memory : t.allocs ≡ []
  pub room : t.tty_out.size + 1 ≤ t.tty_out.capacity

-- the line as it was edited so far
abbrev pub edited : Tty → List ℕ
edited t = take t.line_len t.line_editing

-- A byte that is no control character and is not changed on its way in.
abbrev pub IsPlain : Tty → ℕ → Type 0
IsPlain t c =
    ((c == cc t 4) ≡ false)
    × ((c == cc t 7) ≡ false)
    × ((c == cc t 1) ≡ false)
    × ((c == cc t 10) ≡ false)
    × ((c == cc t 3) ≡ false)
    × ((c == cc t 12) ≡ false)
    × ((c == cc t 5) ≡ false)
    × ((c == 13) ≡ false)
    × (newline t c ≡ c)
    × (lower t c ≡ c)

and_false : (b c : Bool) → c ≡ false → (b && c) ≡ false
and_false true c e = e
and_false false c e = refl

edit-plain : (t : Tty) (c : ℕ) → IsPlain t c → edit t c ≡ accept t c
unfolding edit
edit-plain t c (p4, p7, p1, p10, p3, p12, p5, p13, nl, lo) =
    rw
      (
        and_false (icanon t) (echoe t && (c == cc t 3)) (and_false (echoe t) (c == cc t 3) p3),
        p12,
        and_false (icanon t) (echok t && (c == cc t 5)) (and_false (echok t) (c == cc t 5) p5),
        lo,
      )
      refl

transform-plain : (t : Tty) (c : ℕ) → IsPlain t c → transform t c ≡ edit t c
unfolding transform
transform-plain t c (p4, p7, p1, p10, p3, p12, p5, p13, nl, lo) =
    rw
      (
        nl,
        and_false (igncr t) (c == 13) p13,
        and_false (not (igncr t)) (icrnl t && (c == 13)) (and_false (icrnl t) (c == 13) p13),
      )
      refl

pub write_input-plain : (t : Tty) (c : ℕ) → IsPlain t c → n_tty_write_input t c ≡ accept t c
unfolding n_tty_write_input suspend_or_transform
write_input-plain t c p =
    rw
      (
        and_false (isig t) (c == cc t 4) p.0,
        and_false (isig t) (c == cc t 7) p.1,
        and_false (icanon t) (c == cc t 1) p.2,
        and_false (isig t) (c == cc t 10) p.3,
      )
      (transform-plain t c p ∙ edit-plain t c p)

-- the echo of a byte, if there is one
pub echoed :
    (b : Bool) (t : Tty) (c : ℕ)
    → Ready t
    → (u : Tty) × Shown t (if b then n_tty_output t (c ∷ []) else done t) u
echoed true t c r =
    n_tty_output-Shown t (c ∷ []) (record { out = r.valid.out; room = r.room }) r.memory
echoed false t c r =
    (t, record { returned = refl; keeps = ground (arith, r.valid); size = refl; allocs = r.memory })

take-suc-set :
    (n : ℕ) (xs : List ℕ) (c : ℕ)
    → n < length xs
    → take (suc n) (set xs n c) ≡ take n xs ++ (c ∷ [])
take-suc-set n [] c h = absurd (omega arith)
take-suc-set zero (x ∷ xs) c h = refl
take-suc-set (suc n) (x ∷ xs) c h = ap (λ l. x ∷ l) (take-suc-set n xs c (omega arith))

take-set :
    (n : ℕ) (xs : List ℕ) (c : ℕ)
    → n < length xs
    → take (n + 1) (set xs n c) ≡ take n xs ++ (c ∷ [])
take-set n xs c h =
    let e : n + 1 ≡ suc n = omega arith in ap (λ k. take k (set xs n c)) e ∙ take-suc-set n xs c h

-- The byte stands at the end of the line, and nothing else of the input side changed.
pub record Typed (t : Tty) (c : ℕ) (r : Run Tty) (u : Tty) : Type 0 where
  pub returned : r ≡ done u
  pub ready : Ready u
  pub line : edited u ≡ edited t ++ (c ∷ [])
  pub len : u.line_len ≡ t.line_len + 1
  pub buffer : u.line_buffer ≡ t.line_buffer
  pub termios : u.termios ≡ t.termios
  pub closed : u.closed ≡ t.closed

abbrev pub pushed : Tty → ℕ → Tty
pushed t c = record t { line_editing = set t.line_editing t.line_len c; line_len = t.line_len + 1 }

push-canonical :
    (t : Tty) (c : ℕ) → icanon t ≡ true → t.line_len < 512 → n_tty_push t c ≡ done (pushed t c)
unfolding n_tty_push
push-canonical t c e h = rw (lt→ltb t.line_len 512 h, e) refl

pub pushed-Typed :
    (t u : Tty) (c : ℕ) (r : Run Tty)
    → Ready t
    → t.line_len < 512
    → Shown t (done u) u
    → Typed t c (n_tty_push u c) (pushed u c)
pushed-Typed t u c r v h s = record {
  returned =
      push-canonical u c (ground (arith, s.keeps, v.canonical)) (omega (arith, s.keeps.line_len));
  ready = record {
    valid = ground (arith, s.keeps, v.valid, length-set u.line_editing u.line_len c);
    canonical = ground (arith, s.keeps, v.canonical);
    memory = s.allocs;
    room = omega (arith, s.size, s.keeps.capacity, v.room);
  };
  line = ground (arith, s.keeps, v.valid, take-set t.line_len t.line_editing c);
  len = ground (arith, s.keeps);
  buffer = s.keeps.buffer;
  termios = s.keeps.termios;
  closed = s.keeps.closed;
}

-- A plain byte other than the newline goes to the end of the line.
pub accept-Typed :
    (t : Tty) (c : ℕ) → Ready t → t.line_len < 512 → c ≢ 10 → (u : Tty) × Typed t c (accept t c) u
unfolding accept
accept-Typed t c r h ne =
    let (u, s) = echoed (icanon t && echo t) t c r in
    (
      pushed u c,
      subst (λ x. Typed t c x (pushed u c))
          (sym (rw (ne→== c 10 ne) (ap (λ x. and_then x (λ v. n_tty_push v c)) s.returned)))
          (pushed-Typed t u c (done u) r h
            (record { returned = refl; keeps = s.keeps; size = s.size; allocs = s.allocs })),
    )
