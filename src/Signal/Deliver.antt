-- ===== src/Signal/Deliver.antt =====
-- kernel/signal.c: `signal_handle`, which takes the next signal that is not blocked and acts on it.
use levos.Base.{ℕ, Bool, List, [], ◌∷◌, ◌++◌, some}
use levos.Base.{◌==◌, if◌then◌else◌}
use levos.Signal.State.{Task, Signals, Regs, Call, signal_is_blocked, signal_processing}
use levos.Signal.State.{handler, sig_dfl, sig_ign, is_empty}
use levos.Signal.Actions.{default_sigaction, do_signal_handle, done_with}

-- What the loop at `retry` finds: a signal and the pending list that is left, or only blocked ones.
pub data Pick : Type 0 where
  picked : ℕ → List ℕ → Pick
  all_blocked : List ℕ → Pick

-- `backup` holds the blocked signals seen so far. `list_pop_front` of an empty list, with which the loop
-- would start if nothing was pending, is undefined: `lost` says so.
unfoldable pub pick : Signals → List ℕ → List ℕ → Pick
pick sig [] backup = all_blocked backup
pick sig (signum ∷ pending) backup =
    let next = pick sig pending (backup ++ (signum ∷ [])) in
    if signal_is_blocked sig signum
    then if is_empty pending then all_blocked (backup ++ (signum ∷ [])) else next
    else picked signum (pending ++ backup)

abbrev pub lost : List ℕ → List Call
lost [] = Call.underflow ∷ []
lost (s ∷ ss) = []

abbrev pub with_pending : Task → List ℕ → Task
with_pending t pending = record t { signal = record (t.signal) { pending_signals = pending } }

-- `sig->sig_state = SIG_STATE_HANDLING; sig->current_signal = signal`. The context is written when a
-- handler is entered; `blank` is what `memset` left there.
abbrev pub begin : Task → ℕ → List ℕ → Regs → Task
begin t signum pending blank = record t {
  signal = record (t.signal) {
    pending_signals = pending;
    sig_state = 1;
    current_signal = some (record { id = signum; context = blank });
  };
}

abbrev pub act : ℕ → Regs → Bool → Task → ℕ → Task × List Call
act ret blank current t signum =
    if handler t.signal.signal_handlers signum == sig_dfl
    then default_sigaction current t signum
    else if handler t.signal.signal_handlers signum == sig_ign
    then (done_with t, [])
    else (
      do_signal_handle ret t (record { id = signum; context = blank })
          (handler t.signal.signal_handlers signum),
      [],
    )

unfoldable pub signal_handle : ℕ → Regs → Bool → Task → Task × List Call
unfolding pick
signal_handle ret blank current t =
    if signal_processing t then (t, []) else elim (pick t.signal t.signal.pending_signals []) [
      | all_blocked pending ↦ (with_pending t pending, lost t.signal.pending_signals)
      | picked signum pending ↦ act ret blank current (begin t signum pending blank) signum
    ]
