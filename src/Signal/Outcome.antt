-- ===== src/Signal/Outcome.antt =====
-- kernel/signal.c: `signal_handle` on every branch.
use levos.Base.{ℕ, ◌≡◌, ◌≢◌, ◌⊎◌, refl, Bool, false, List, [], ◌∷◌, ◌++◌, none, some, All}
use levos.Base.{inl, inr, arith, if◌then◌else◌, ◌∙◌, ne→==, ℕ_discrete}
use levos.Signal.State.{Task, Regs, Call, signal_is_blocked, handler}
use levos.Signal.State.{signal_processing, max_sig}
use levos.Signal.Dispositions.{HasTable}
use levos.Base.{length, subst, ◌≤◌, ◌<◌}
use levos.Signal.Actions.{default_sigaction, do_signal_handle}
use levos.Signal.Actions.{entry_esp}
use levos.Signal.Deliver.{
  Pick, picked, all_blocked, pick, act, begin, signal_handle, with_pending, lost,
}
use levos.Signal.Pick.{Blocked, PickRefines, pick-PickRefines}

-- The signal leaves no trace but its removal: SIGCONT (18) and SIGCHLD (17) by default, and what the
-- task ignores.
abbrev IsDropped : Task → ℕ → Type 0
IsDropped t s =
    ((handler t.signal.signal_handlers s ≡ 0) × ((s ≡ 17) ⊎ (s ≡ 18)))
    ⊎ (handler t.signal.signal_handlers s ≡ 1)

abbrev IsStop : ℕ → Type 0
IsStop s = (s ≡ 19) ⊎ (s ≡ 20) ⊎ (s ≡ 21) ⊎ (s ≡ 22)

abbrev IsIdle : Task → Type 0
IsIdle t = (t.signal.sig_state ≡ 0) × (t.signal.current_signal ≡ none)

-- What `signal_handle` makes of the task `t` when it acts on the signal `s`.
pub record Acted (ret : ℕ) (current : Bool) (t : Task) (s : ℕ) (out : Task × List Call)
    : Type 0 where
  pub handlers : out.0.signal.signal_handlers ≡ t.signal.signal_handlers
  pub mask : out.0.signal.sig_mask ≡ t.signal.sig_mask
  pub dropped : IsDropped t s → IsIdle out.0 × (out.1 ≡ [])
  pub stopped :
      handler t.signal.signal_handlers s ≡ 0
      → IsStop s
      → IsIdle out.0 × (out.1 ≡ Call.task_suspend s ∷ [])
  pub fatal :
      handler t.signal.signal_handlers s ≡ 0
      → ¬ (IsStop s ⊎ ((s ≡ 17) ⊎ (s ≡ 18)))
      → (out.0.owner_status ≡ 2)
        × (out.0.owner_exit_code ≡ s)
        × (out.1 ≡ Call.task_exit ∷ (if current then Call.sched_yield ∷ [] else []))
  pub caught :
      handler t.signal.signal_handlers s ≢ 0
      → handler t.signal.signal_handlers s ≢ 1
      → (out.0.signal.sig_state ≡ 1)
        × (out.0.signal.current_signal ≡ some (record { id = s; context = t.sys_regs }))
        × (out.0.regs.eip ≡ handler t.signal.signal_handlers s)
        × (out.0.regs.esp ≡ entry_esp)
        × (out.0.sig_stack ≡ ret ∷ s ∷ [])
        × (out.1 ≡ [])

act-Acted :
    (ret : ℕ) (blank : Regs) (current : Bool) (t : Task) (s : ℕ) (rest : List ℕ)
    → Acted ret current t s (act ret blank current (begin t s rest blank) s)
unfolding default_sigaction do_signal_handle
act-Acted ret blank current t s rest = record {
  handlers = ground arith;
  mask = ground arith;
  dropped = λ h. ground arith;
  stopped = λ h k. ground arith;
  fatal = λ h k. ground arith;
  caught = λ h k. ground arith;
}

pending-act :
    (ret : ℕ) (blank : Regs) (current : Bool) (t : Task) (s : ℕ) (rest : List ℕ)
    → (act ret blank current (begin t s rest blank) s).0.signal.pending_signals ≡ rest
unfolding default_sigaction do_signal_handle
pending-act ret blank current t s rest = ground arith

-- While a signal is handled nothing changes; nothing changes either while every pending signal is
-- blocked. Otherwise the first signal that is not blocked is acted on, and every other stays pending,
-- the blocked ones that were passed over behind the rest.
abbrev pub Handled : (ℕ → Type 0) → ℕ → Bool → Task → Task × List Call → Type 0
Handled P ret current t out =
    ((t.signal.sig_state ≢ 0) × (out ≡ (t, [])))
    ⊎ ((t.signal.sig_state ≡ 0)
        × All (Blocked t.signal) t.signal.pending_signals
        × (out ≡ (t, lost t.signal.pending_signals)))
    ⊎ ((t.signal.sig_state ≡ 0)
        × ((pre : List ℕ) × (s : ℕ) × (post : List ℕ) × (t.signal.pending_signals
              ≡ pre ++ (s ∷ post))
            × All (Blocked t.signal) pre
            × ((signal_is_blocked t.signal s ≡ false) × P s)
            × (out.0.signal.pending_signals ≡ post ++ pre)
            × Acted ret current t s out))

-- The number of the signal that is acted on has a word of its own among the handlers.
abbrev pub HandleRefines : ℕ → Bool → Task → Task × List Call → Type 0
HandleRefines ret current t out =
    Handled (λ s. s < length t.signal.signal_handlers) ret current t out

All-at : (P : ℕ → Type 0) (pre : List ℕ) (s : ℕ) (post : List ℕ) → All P (pre ++ (s ∷ post)) → P s
All-at P [] s post all = all.0
All-at P (x ∷ pre) s post all = All-at P pre s post all.1

All-map : (P Q : ℕ → Type 0) (xs : List ℕ) → ((x : ℕ) → P x → Q x) → All P xs → All Q xs
All-map P Q [] f all = tt
All-map P Q (x ∷ xs) f all = (f x all.0, All-map P Q xs f all.1)

abbrev pub Anything : ℕ → Type 0
Anything s = Unit

All-Anything : (xs : List ℕ) → All Anything xs
All-Anything [] = tt
All-Anything (x ∷ xs) = (tt, All-Anything xs)

abbrev after_pick : ℕ → Regs → Bool → Task → Pick → Task × List Call
after_pick ret blank current t (all_blocked pending) =
    (with_pending t pending, lost t.signal.pending_signals)
after_pick ret blank current t (picked s rest) = act ret blank current (begin t s rest blank) s

after_pick-Handled :
    (P : ℕ → Type 0) (ret : ℕ) (blank : Regs) (current : Bool) (t : Task) (p : Pick)
    → t.signal.sig_state ≡ 0
    → All P t.signal.pending_signals
    → PickRefines t.signal t.signal.pending_signals [] p
    → Handled P ret current t (after_pick ret blank current t p)
after_pick-Handled P ret blank current t (all_blocked pending) idle all (blocked, e) =
    inr (inl (idle, blocked, rw e))
after_pick-Handled P ret blank current t (picked s rest) idle all (pre, post, e, blocked, free, r) =
    inr (
      inr (
        idle,
        (
          pre,
          s,
          post,
          e,
          blocked,
          (free, All-at P pre s post (subst (All P) e all)),
          pending-act ret blank current t s rest ∙ r,
          act-Acted ret blank current t s rest,
        ),
      ))

after_pick_lem :
    (ret : ℕ) (blank : Regs) (current : Bool) (t : Task) (p : Pick)
    → pick t.signal t.signal.pending_signals [] ≡ p
    → t.signal.sig_state ≡ 0
    → signal_handle ret blank current t ≡ after_pick ret blank current t p
unfolding signal_handle signal_processing
after_pick_lem ret blank current t (all_blocked pending) e idle = ground arith
after_pick_lem ret blank current t (picked s rest) e idle = ground arith

signal_handle-busy :
    (ret : ℕ) (blank : Regs) (current : Bool) (t : Task)
    → t.signal.sig_state ≢ 0
    → signal_handle ret blank current t ≡ (t, [])
unfolding signal_handle signal_processing
signal_handle-busy ret blank current t busy = rw (ne→== t.signal.sig_state 0 busy)

signal_handle-Handled_of :
    (P : ℕ → Type 0) (ret : ℕ) (blank : Regs) (current : Bool) (t : Task)
    → All P t.signal.pending_signals
    → Handled P ret current t (signal_handle ret blank current t)
signal_handle-Handled_of P ret blank current t all = elim (ℕ_discrete t.signal.sig_state 0) [
  | yes idle ↦
      rw (after_pick_lem ret blank current t (pick t.signal t.signal.pending_signals []) refl idle)
        (after_pick-Handled P ret blank current t (pick t.signal t.signal.pending_signals []) idle
          all (pick-PickRefines t.signal t.signal.pending_signals))
  | no busy ↦ inl (busy, signal_handle-busy ret blank current t busy)
]

pub signal_handle-Handled :
    (ret : ℕ) (blank : Regs) (current : Bool) (t : Task)
    → Handled Anything ret current t (signal_handle ret blank current t)
signal_handle-Handled ret blank current t =
    signal_handle-Handled_of Anything ret blank current t (All-Anything t.signal.pending_signals)

-- For a task whose pending signals have the numbers that sys_kill lets pass, up to 31, and whose words
-- behind and with the handler table are 32: `signal_handle` does nothing while a signal is being handled or
-- all pending ones are blocked, except that with nothing pending it takes from an empty list. Otherwise it
-- acts on the first signal that is not blocked: drops it, suspends the task, kills it, or enters the
-- handler with that number as its argument, as the word of the number and the defaults say, which for 31 is
-- the word behind the table; it keeps the table, the mask and every other pending signal.
pub signal_handle-HandleRefines :
    (ret : ℕ) (blank : Regs) (current : Bool) (t : Task)
    → HasTable t
    → All (λ s. s ≤ max_sig) t.signal.pending_signals
    → HandleRefines ret current t (signal_handle ret blank current t)
signal_handle-HandleRefines ret blank current t table numbers =
    signal_handle-Handled_of (λ s. s < length t.signal.signal_handlers) ret blank current t
      (All-map (λ s. s ≤ max_sig) (λ s. s < length t.signal.signal_handlers)
        t.signal.pending_signals (λ s h. omega (arith, h, table)) numbers)
