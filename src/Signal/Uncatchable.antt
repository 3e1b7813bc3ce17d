-- ===== src/Signal/Uncatchable.antt =====
-- kernel/signal.c: the dispositions of SIGKILL (9) and SIGSTOP (19) in the tasks that can be reached.
use levos.Base.{ℕ, ◌≡◌, inl, inr, refl, Bool, false, List, [], ◌∷◌, some, arith}
use levos.Base.{◌∙◌, length-set, get_or-set_ne, if◌then◌else◌}
use levos.Signal.State.{Task, Regs, Call, signal_get_disp, signal_register_handler}
use levos.Signal.State.{signal_is_blocked, signal_set_mask}
use levos.Signal.Actions.{ret_from_signal}
use levos.Signal.Handlers.{copy_signals, signal_reset, signal_reset_for_execve, signal_init}
use levos.Signal.Send.{__send_signal}
use levos.Signal.Deliver.{signal_handle}
use levos.Signal.Outcome.{Handled, Anything, signal_handle-Handled}
use levos.Signal.Dispositions.{HasTable, signal_init_lem, signal_reset_lem}
use levos.Signal.Dispositions.{signal_reset_for_execve_lem, copy_signals_lem}

-- The tasks that signal operations make, from a fresh task on.
pub data Reachable : Task → Type 0 where
  init : (t : Task) → Reachable (signal_init t)
  register : {t : Task} → Reachable t → (s h : ℕ) → Reachable (signal_register_handler t s h)
  reset : {t : Task} → Reachable t → Reachable (signal_reset t)
  execve : {t : Task} → Reachable t → Reachable (signal_reset_for_execve t)
  fork : {t u : Task} → Reachable t → Reachable u → Reachable (copy_signals t u)
  handle :
      {t : Task} (ret : ℕ) (blank : Regs) (current : Bool)
      → Reachable t
      → Reachable (signal_handle ret blank current t).0
  mask : {t : Task} → Reachable t → (m : ℕ) → Reachable (signal_set_mask t m)
  send :
      {t u : Task} (mem : Bool) (s : ℕ) → Reachable t → __send_signal mem t s ≡ some u → Reachable u
  back :
      {t : Task} (out : Task × List Call)
      → Reachable t
      → ret_from_signal t ≡ some out
      → Reachable out.0

pub record Uncatchable (t : Task) : Type 0 where
  pub table : HasTable t
  pub kill : signal_get_disp t 9 ≡ 0
  pub stop : signal_get_disp t 19 ≡ 0

register-Uncatchable :
    {t : Task} (s h : ℕ) → Uncatchable t → Uncatchable (signal_register_handler t s h)
unfolding signal_register_handler signal_get_disp
register-Uncatchable {t} s h u = ground (
  arith,
  length-set t.signal.signal_handlers s h,
  get_or-set_ne t.signal.signal_handlers s 9 h 0,
  get_or-set_ne t.signal.signal_handlers s 19 h 0,
)

same_table :
    (t u : Task)
    → u.signal.signal_handlers ≡ t.signal.signal_handlers
    → Uncatchable t
    → Uncatchable u
unfolding signal_get_disp
same_table t u e v = ground arith

handlers-__send_signal :
    (mem : Bool) (t u : Task) (s : ℕ)
    → __send_signal mem t s ≡ some u
    → u.signal.signal_handlers ≡ t.signal.signal_handlers
unfolding __send_signal
handlers-__send_signal mem t u s e = ground arith

handlers-signal_set_mask :
    (t : Task) (m : ℕ) → (signal_set_mask t m).signal.signal_handlers ≡ t.signal.signal_handlers
unfolding signal_set_mask
handlers-signal_set_mask t m = refl

handlers-ret_from_signal :
    (t : Task) (out : Task × List Call)
    → ret_from_signal t ≡ some out
    → out.0.signal.signal_handlers ≡ t.signal.signal_handlers
unfolding ret_from_signal
handlers-ret_from_signal t out e = ground arith

handlers-signal_handle :
    (ret : ℕ) (current : Bool) (t : Task) (out : Task × List Call)
    → Handled Anything ret current t out
    → out.0.signal.signal_handlers ≡ t.signal.signal_handlers
handlers-signal_handle ret current t out (inl h) = rw (h.1)
handlers-signal_handle ret current t out (inr (inl h)) = rw (h.2)
handlers-signal_handle ret current t out (inr (inr (idle, (pre, s, post, e, b, free, p, a)))) =
    a.handlers

-- In every task that creation, registration, reset, `execve`, fork, masks, sending,
-- delivery and return can produce, the
-- handler table is whole and SIGKILL and SIGSTOP have their default actions.
pub Reachable-Uncatchable : {t : Task} → Reachable t → Uncatchable t
Reachable-Uncatchable (init t) = record {
  table = (signal_init_lem t 9 (omega arith)).1;
  kill = (signal_init_lem t 9 (omega arith)).0;
  stop = (signal_init_lem t 19 (omega arith)).0;
}
Reachable-Uncatchable (register r s h) = register-Uncatchable s h (Reachable-Uncatchable r)
Reachable-Uncatchable (reset {t} r) =
    let u = Reachable-Uncatchable r in
    record {
      table = (signal_reset_lem t 9 u.table (omega arith)).1;
      kill = (signal_reset_lem t 9 u.table (omega arith)).0;
      stop = (signal_reset_lem t 19 u.table (omega arith)).0;
    }
Reachable-Uncatchable (execve {t} r) =
    let u = Reachable-Uncatchable r in
    record {
      table = (signal_reset_for_execve_lem t 9 u.table (omega arith)).3;
      kill = ground (arith, (signal_reset_for_execve_lem t 9 u.table (omega arith)).0);
      stop = ground (arith, (signal_reset_for_execve_lem t 19 u.table (omega arith)).0);
    }
Reachable-Uncatchable (fork {t} {u} r k) =
    let v = Reachable-Uncatchable r in
    let w = Reachable-Uncatchable k in
    record {
      table = (copy_signals_lem t u 9 v.table (omega arith)).3;
      kill = (copy_signals_lem t u 9 v.table (omega arith)).0 ∙ w.kill;
      stop = (copy_signals_lem t u 19 v.table (omega arith)).0 ∙ w.stop;
    }
Reachable-Uncatchable (handle {t} ret blank current r) =
    same_table t (signal_handle ret blank current t).0
      (handlers-signal_handle ret current t (signal_handle ret blank current t)
        (signal_handle-Handled ret blank current t))
      (Reachable-Uncatchable r)
Reachable-Uncatchable (mask {t} r m) =
    same_table t (signal_set_mask t m) (handlers-signal_set_mask t m) (Reachable-Uncatchable r)
Reachable-Uncatchable (send {t} {u} mem s r e) =
    same_table t u (handlers-__send_signal mem t u s e) (Reachable-Uncatchable r)
Reachable-Uncatchable (back {t} out r e) =
    same_table t out.0 (handlers-ret_from_signal t out e) (Reachable-Uncatchable r)

killed :
    (ret : ℕ) (current : Bool) (t : Task) (rest : List ℕ) (out : Task × List Call)
    → Uncatchable t
    → t.signal.sig_state ≡ 0
    → t.signal.pending_signals ≡ 9 ∷ rest
    → signal_is_blocked t.signal 9 ≡ false
    → Handled Anything ret current t out
    → (out.0.owner_status ≡ 2)
      × (out.0.owner_exit_code ≡ 9)
      × (out.1 ≡ Call.task_exit ∷ (if current then Call.sched_yield ∷ [] else []))
unfolding signal_get_disp
killed ret current t rest out u idle e free (inl h) = absurd (h.0 idle)
killed ret current t rest out u idle e free (inr (inl h)) = ground arith
killed ret current t rest out u idle e free (inr (inr (_, ([], s, post, e', b, free', p, a)))) =
    ground (arith, a.fatal)
killed ret current t rest out u idle e free
      (inr (inr (_, (x ∷ pre, s, post, e', b, free', p, a)))) =
    ground arith

-- A reachable task that handles nothing, whose first pending signal is SIGKILL, dies of it at the
-- next `signal_handle`, whatever handlers it registered, unless its mask blocks the signal.
pub signal_handle-kill :
    (ret : ℕ) (blank : Regs) (current : Bool) (t : Task) (rest : List ℕ)
    → Reachable t
    → t.signal.sig_state ≡ 0
    → t.signal.pending_signals ≡ 9 ∷ rest
    → signal_is_blocked t.signal 9 ≡ false
    → ((signal_handle ret blank current t).0.owner_status ≡ 2)
      × ((signal_handle ret blank current t).0.owner_exit_code ≡ 9)
      × ((signal_handle ret blank current t).1
          ≡ Call.task_exit ∷ (if current then Call.sched_yield ∷ [] else []))
signal_handle-kill ret blank current t rest r idle e free =
    killed ret current t rest (signal_handle ret blank current t) (Reachable-Uncatchable r) idle e
      free (signal_handle-Handled ret blank current t)
