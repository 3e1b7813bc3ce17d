-- ===== src/Tty/Valid.antt =====
-- drivers/n_tty.c: the invariant of a terminal, and output.
use levos.Base.{ℕ, ◌≤◌, ◌≡◌, refl, true, List, [], ◌∷◌, arith}
use levos.Base.{length, Bool-cases, inl, inr, rest_of, alloc_ok}
use levos.Base.{◌==◌, ◌&&◌, subst, sym}
use levos.Ring
use levos.Ring.{Ring, Moved, Taken, nonblock}
use levos.Ring.Valid.{IsValid}
use levos.Ring.Transfer.{Wrote, write-Wrote, Drained, read-Drained}
use levos.Tty.State.{Tty, Run, and_then, opost, onlcr}
use levos.Tty.Output.{
  n_tty_write_output, write_all, tty_interrupt_output, n_tty_output, after_write,
}
use levos.Tty.Output.{after_read, ring_out, upper}

pub record TtyValid (t : Tty) : Type 0 where
  pub out : IsValid t.tty_out
  pub line : IsValid t.line_buffer
  pub line_nonblock : nonblock t.line_buffer ≡ true
  pub array : length t.line_editing ≡ 512
  pub len : t.line_len ≤ 512

-- What a routine leaves behind, if it does not wait. It does not write outside the line's array.
abbrev pub Returns {ℓ} : {A : Type ℓ} → (A → Type 0) → Run A → Type 0
Returns P (Run.done a) = P a
Returns P Run.waits = Unit
Returns P Run.overrun = ⊥

pub Returns-and_then {ℓ κ} :
    {A : Type ℓ} {B : Type κ} (P : A → Type 0) (Q : B → Type 0) (next : A → Run B) (r : Run A)
    → Returns P r
    → ((a : A) → P a → Returns Q (next a))
    → Returns Q (and_then r next)
Returns-and_then P Q next (Run.done a) p h = h a p
Returns-and_then P Q next Run.waits p h = tt
Returns-and_then P Q next Run.overrun p h = absurd p

pub Returns-map {ℓ} :
    {A : Type ℓ} (P Q : A → Type 0) (r : Run A) → ((a : A) → P a → Q a) → Returns P r → Returns Q r
Returns-map P Q (Run.done a) f p = f a p
Returns-map P Q Run.waits f p = tt
Returns-map P Q Run.overrun f p = p

-- Output leaves the settings and the input side as they were.
pub record Keeps (t u : Tty) : Type 0 where
  pub termios : u.termios ≡ t.termios
  pub buffer : u.line_buffer ≡ t.line_buffer
  pub editing : u.line_editing ≡ t.line_editing
  pub line_len : u.line_len ≡ t.line_len
  pub closed : u.closed ≡ t.closed
  pub signals : u.signals ≡ t.signals
  pub group : u.tty_fg_proc ≡ t.tty_fg_proc
  pub out : IsValid u.tty_out
  pub capacity : u.tty_out.capacity ≡ t.tty_out.capacity

pub Keeps-trans : (t u v : Tty) → Keeps t u → Keeps u v → Keeps t v
Keeps-trans t u v a b = ground arith

after_write-Keeps :
    (t : Tty) (src : List ℕ) (m : Moved)
    → Wrote t.tty_out src 0 m
    → Returns (Keeps t) (after_write t m)
after_write-Keeps t src (Moved.done n rb) w = ground arith
after_write-Keeps t src (Moved.spin n rb) w = tt

ring_out-Keeps : (t : Tty) (byte : ℕ) → IsValid t.tty_out → Returns (Keeps t) (ring_out t byte)
ring_out-Keeps t byte v =
    after_write-Keeps t (byte ∷ []) (Ring.write t.tty_out (byte ∷ []))
      (write-Wrote t.tty_out (byte ∷ []) v)

-- Every byte makes one byte in the ring.
pub n_tty_write_output-ring_out :
    (t : Tty) (byte : ℕ) → (c : ℕ) × (n_tty_write_output t byte ≡ ring_out t c)
unfolding n_tty_write_output
n_tty_write_output-ring_out t byte = elim (Bool-cases (opost t)) [
  | inl o ↦ elim (Bool-cases (onlcr t && (upper t byte == 10))) [
    | inl n ↦ (13, rw (o, n) refl)
    | inr n ↦ (upper t byte, rw (o, n) refl)
  ]
  | inr o ↦ (byte, rw o refl)
]

pub n_tty_write_output-Keeps :
    (t : Tty) (byte : ℕ) → IsValid t.tty_out → Returns (Keeps t) (n_tty_write_output t byte)
n_tty_write_output-Keeps t byte v =
    let (c, e) = n_tty_write_output-ring_out t byte in
    subst (Returns (Keeps t)) (sym e) (ring_out-Keeps t c v)

pub write_all-Keeps :
    (t : Tty) (buf : List ℕ) → IsValid t.tty_out → Returns (Keeps t) (write_all t buf)
unfolding write_all
write_all-Keeps t [] v = ground arith
write_all-Keeps t (c ∷ buf) v =
    Returns-and_then (Keeps t) (Keeps t) (λ u. write_all u buf) (n_tty_write_output t c)
      (n_tty_write_output-Keeps t c v)
      (λ u k.
        Returns-map (Keeps u) (Keeps t) (write_all u buf) (λ w l. Keeps-trans t u w k l)
          (write_all-Keeps u buf k.out))

after_read-Keeps :
    (t m : Tty) (len : ℕ) (r : Taken)
    → Keeps t m
    → Drained t.tty_out len [] r
    → Returns (Keeps t) (after_read m r)
after_read-Keeps t m len r k d = elim (Bool-cases r.returned) [
  | inl e ↦ rw e (ground arith)
  | inr e ↦ rw e tt
]

tty_interrupt_output-Keeps :
    (t : Tty) (len : ℕ) → IsValid t.tty_out → Returns (Keeps t) (tty_interrupt_output t len)
unfolding tty_interrupt_output
tty_interrupt_output-Keeps t len v = elim (Bool-cases (alloc_ok t.allocs)) [
  | inl e ↦ rw e (
      after_read-Keeps t (record t { allocs = rest_of t.allocs }) len (Ring.read t.tty_out len)
        (ground arith) (read-Drained t.tty_out len v))
  | inr e ↦ rw e (ground arith)
]

pub n_tty_output-Keeps :
    (t : Tty) (buf : List ℕ) → IsValid t.tty_out → Returns (Keeps t) (n_tty_output t buf)
unfolding n_tty_output
n_tty_output-Keeps t buf v =
    Returns-and_then (Keeps t) (Keeps t) (λ u. tty_interrupt_output u (length buf))
      (write_all t buf) (write_all-Keeps t buf v)
      (λ u k.
        Returns-map (Keeps u) (Keeps t) (tty_interrupt_output u (length buf))
          (λ w l. Keeps-trans t u w k l) (tty_interrupt_output-Keeps u (length buf) k.out))
