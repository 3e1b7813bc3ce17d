-- ===== src/Signal/Send.antt =====
-- kernel/signal.c: `__send_signal` and the functions that send to one task, a group or a session.
use levos.Base.{ℕ, Bool, false, ◌&&◌, ◌||◌, List, [], ◌∷◌, ◌++◌, Option, none, some}
use levos.Base.{◌==◌, if◌then◌else◌, set_bit, clear_bit}
use mathlib.Core.Option
use levos.Signal.State.{Task, signal_get_disp, sig_ign, sig_dfl}

-- The first test: pid 1 takes only the signals that it has handlers for.
abbrev pub refuses : Task → ℕ → Bool
refuses t signal =
    (t.pid == 1) && ((signal_get_disp t signal == sig_ign) || (signal_get_disp t signal == sig_dfl))

-- TASK_BLOCKED is 4 and TASK_SUSPENDED is 3; SIGCONT is 18.
abbrev pub resumes : Task → ℕ → Bool
resumes t signal = (t.state == 4) && (t.owner_status == 3) && (signal == 18)

-- TASK_SLEEPING is 8, TASK_PREEMPTED is 3, TFLAG_INTERRUPTED is `1 << 1`.
abbrev pub interrupt : Task → Task
interrupt t = if t.state == 8 then record t { flags = set_bit 1 t.flags; state = 3 } else t

abbrev pub enqueue : Task → ℕ → Task
enqueue t signal = record t {
  signal = record (t.signal) { pending_signals = t.signal.pending_signals ++ (signal ∷ []) };
}

-- `none`: memory ran out, and the code goes on to write through the null pointer. A suspended task is
-- resumed by SIGCONT (TFLAG_WAITED is `1 << 0`), which is not queued.
unfoldable pub __send_signal : Bool → Task → ℕ → Option Task
__send_signal mem t signal =
    if refuses t signal
    then some t
    else if mem
    then some (
        if resumes t signal
        then record t { flags = clear_bit 0 t.flags; owner_status = 0; state = 3 }
        else enqueue (interrupt t) signal)
    else none

-- The second component: whether the caller is rescheduled, since it sent to itself.
unfoldable pub send_signal : Bool → Bool → Option Task → ℕ → Option (Option Task × Bool)
send_signal mem current none signal = some (none, false)
send_signal mem current (some t) signal =
    Option.map (λ u. (some u, current)) (__send_signal mem t signal)

-- `list_foreach_raw` over all tasks with a test; `mem pid` says whether the `malloc` made while the
-- task `pid` is signalled succeeds.
unfoldable pub send_where : (Task → Bool) → (ℕ → Bool) → ℕ → List Task → Option (List Task)
send_where test mem signal [] = some []
send_where test mem signal (t ∷ ts) =
    Option.bind (if test t then __send_signal (mem t.pid) t signal else some t)
      λ u. Option.map (λ us. u ∷ us) (send_where test mem signal ts)

unfoldable pub send_signal_group : (ℕ → Bool) → List Task → ℕ → ℕ → Option (List Task)
unfolding send_where
send_signal_group mem tasks pgid signal =
    send_where (λ t. (t.pid == pgid) || (t.pgid == pgid)) mem signal tasks

unfoldable pub send_signal_group_of : (ℕ → Bool) → List Task → Task → ℕ → Option (List Task)
unfolding send_signal_group
send_signal_group_of mem tasks task signal = send_signal_group mem tasks task.pgid signal

-- The flag: whether the caller, of session `current_sid`, is rescheduled.
unfoldable pub send_signal_session : (ℕ → Bool) → List Task → ℕ → ℕ → ℕ → Option (List Task × Bool)
unfolding send_where
send_signal_session mem tasks current_sid sid signal =
    Option.map (λ ts. (ts, current_sid == sid)) (send_where (λ t. t.sid == sid) mem signal tasks)

unfoldable pub send_signal_session_of :
    (ℕ → Bool) → List Task → ℕ → Task → ℕ → Option (List Task × Bool)
unfolding send_signal_session
send_signal_session_of mem tasks current_sid task signal =
    send_signal_session mem tasks current_sid task.sid signal
