-- ===== src/Tty/Room.antt =====
-- drivers/n_tty.c: output when the ring has room for it.
use levos.Base.{ℕ, ◌+◌, ◌≤◌, ◌≡◌, refl, List, [], ◌∷◌, ◌++◌, arith}
use levos.Base.{length, subst, sym, ◌∙◌, ap}
use levos.Ring
use levos.Ring.{Ring, Moved, Taken}
use levos.Ring.Valid.{IsValid}
use levos.Ring.Transfer.{write-Wrote, Filled-of_fit, Drained, read-Drained, returned_of_enough}
use levos.Tty.State.{Tty, Run, done, and_then}
use levos.Tty.Output.{
  n_tty_write_output, write_all, tty_interrupt_output, n_tty_output, after_write, ring_out,
}
use levos.Tty.Valid.{Keeps, Keeps-trans, n_tty_write_output-ring_out}

-- The output ring has room for `k` bytes.
pub record HasRoom (t : Tty) (k : ℕ) : Type 0 where
  pub out : IsValid t.tty_out
  pub room : t.tty_out.size + k ≤ t.tty_out.capacity

-- `r` returned, and has put `k` bytes into the ring.
pub record Put (t : Tty) (k : ℕ) (r : Run Tty) (u : Tty) : Type 0 where
  pub returned : r ≡ done u
  pub keeps : Keeps t u
  pub size : u.tty_out.size ≡ t.tty_out.size + k
  pub allocs : u.allocs ≡ t.allocs

ring_out-Put : (t : Tty) (c : ℕ) → HasRoom t 1 → (u : Tty) × Put t 1 (ring_out t c) u
ring_out-Put t c h =
    let (rb, e, f) =
      Filled-of_fit t.tty_out (c ∷ []) (omega (arith, h.room)) (Ring.write t.tty_out (c ∷ []))
        (write-Wrote t.tty_out (c ∷ []) h.out) in
    (
      record t { tty_out = rb },
      record {
        returned = ap (after_write t) e;
        keeps = ground (arith, f);
        size = omega (arith, f.size, h.room);
        allocs = refl;
      },
    )

write_output-Put : (t : Tty) (c : ℕ) → HasRoom t 1 → (u : Tty) × Put t 1 (n_tty_write_output t c) u
write_output-Put t c h =
    let (b, e) = n_tty_write_output-ring_out t c in
    subst (λ r. (u : Tty) × Put t 1 r u) (sym e) (ring_out-Put t b h)

write_all-Put :
    (t : Tty) (buf : List ℕ)
    → HasRoom t (length buf)
    → (u : Tty) × Put t (length buf) (write_all t buf) u
unfolding write_all
write_all-Put t [] h = (
  t,
  record { returned = refl; keeps = ground (arith, h.out); size = omega arith; allocs = refl },
)
write_all-Put t (c ∷ buf) h =
    let (u, p) = write_output-Put t c (record { out = h.out; room = omega (arith, h.room) }) in
    let (w, q) =
      write_all-Put u buf
        (record { out = p.keeps.out; room = omega (arith, h.room, p.size, p.keeps.capacity) }) in
    (
      w,
      record {
        returned = ap (λ r. and_then r (λ v. write_all v buf)) p.returned ∙ q.returned;
        keeps = Keeps-trans t u w p.keeps q.keeps;
        size = omega (arith, p.size, q.size);
        allocs = q.allocs ∙ p.allocs;
      },
    )

-- The console has taken off as many bytes as were put in.
pub record Shown (t : Tty) (r : Run Tty) (u : Tty) : Type 0 where
  pub returned : r ≡ done u
  pub keeps : Keeps t u
  pub size : u.tty_out.size ≡ t.tty_out.size
  pub allocs : u.allocs ≡ []

abbrev after_interrupt : Tty → ℕ → Tty
after_interrupt t len = record t {
  allocs = [];
  tty_out = (Ring.read t.tty_out len).ring;
  shown = t.shown ++ (Ring.read t.tty_out len).bytes;
}

interrupt-returned :
    (t : Tty) (len : ℕ)
    → IsValid t.tty_out
    → len ≤ t.tty_out.size
    → t.allocs ≡ []
    → tty_interrupt_output t len ≡ done (after_interrupt t len)
unfolding tty_interrupt_output
interrupt-returned t len v h e =
    rw
      (
        e,
        returned_of_enough (Ring.read t.tty_out len)
            (λ r. omega (arith, (read-Drained t.tty_out len v).waits r)),
      )
      refl

pub n_tty_output-Shown :
    (t : Tty) (buf : List ℕ)
    → HasRoom t (length buf)
    → t.allocs ≡ []
    → (u : Tty) × Shown t (n_tty_output t buf) u
unfolding n_tty_output
n_tty_output-Shown t buf h e =
    let (u, p) = write_all-Put t buf h in
    let d : Drained u.tty_out (length buf) [] (Ring.read u.tty_out (length buf)) =
      read-Drained u.tty_out (length buf) p.keeps.out in
    (
      after_interrupt u (length buf),
      record {
        returned =
            ap (λ r. and_then r (λ v. tty_interrupt_output v (length buf))) p.returned
            ∙ interrupt-returned u (length buf) p.keeps.out (omega (arith, p.size)) (p.allocs ∙ e);
        keeps = ground (arith, p.keeps, d.valid, d.capacity);
        size = omega (arith, d.size, p.size);
        allocs = refl;
      },
    )
