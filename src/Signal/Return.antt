-- ===== src/Signal/Return.antt =====
-- kernel/signal.c: entering a handler and returning from it.
use levos.Base.{ℕ, ◌≡◌, false, [], ◌∷◌, none, some, neg, test_bit}
use levos.Base.{if◌then◌else◌, arith}
use levos.Signal.State.{Task, Current, Call}
use levos.Signal.Actions.{do_signal_handle, ret_from_signal, resume}

-- When a handler returns, whatever it did meanwhile, the task goes on with the registers that it had
-- when the handler was entered, but for `eax`, which is -EINTR (4) if a system call was interrupted.
-- No signal is current any more, the flag of the system call is off, and the next one may be handled.
pub ret_from_signal-do_signal_handle :
    (ret : ℕ) (t left : Task) (cur : Current) (h : ℕ)
    → left.signal.current_signal ≡ (do_signal_handle ret t cur h).signal.current_signal
    → (back : Task) × (ret_from_signal left ≡ some (back, Call.reschedule_to ∷ []))
      × (back.regs
          ≡ (if test_bit 2 left.flags then record (t.sys_regs) { eax = neg 4 } else t.sys_regs))
      × (back.signal.sig_state ≡ 0)
      × (back.signal.current_signal ≡ none)
      × (back.signal.pending_signals ≡ left.signal.pending_signals)
      × (back.signal.signal_handlers ≡ left.signal.signal_handlers)
      × (test_bit 2 back.flags ≡ false)
unfolding do_signal_handle ret_from_signal
ret_from_signal-do_signal_handle ret t left cur h kept = (
  resume left t.sys_regs,
  rw kept,
  ground arith,
  ground arith,
  ground arith,
  ground arith,
  ground arith,
  ground arith,
)

-- Without a current signal the kernel panics.
pub ret_from_signal-none : (t : Task) → t.signal.current_signal ≡ none → ret_from_signal t ≡ none
unfolding ret_from_signal
ret_from_signal-none t e = rw e
