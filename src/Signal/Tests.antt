-- ===== src/Signal/Tests.antt =====
-- kernel/signal.c on small inputs, and the instances of the theorems on signals.
use levos.Base.{◌≡◌, refl, true, false, [], ◌∷◌, none, some}
use levos.Base.{replicate, neg, test_bit, if◌then◌else◌, arith}
use levos.Signal.State.{Task, Signals, Regs, Current, Call, signal_get_disp}
use levos.Signal.State.{signal_register_handler, signal_is_blocked}
use levos.Signal.Send.{__send_signal}
use levos.Signal.Actions.{do_signal_handle, ret_from_signal, handler_frame}
use levos.Signal.Deliver.{signal_handle, pick, Pick}
use levos.Signal.Handlers.{signal_init}
use levos.Signal.Outcome.{HandleRefines, signal_handle-HandleRefines}
use levos.Signal.Return.{ret_from_signal-do_signal_handle}
use levos.Signal.Uncatchable.{Reachable, init, register, send, Uncatchable, Reachable-Uncatchable}
use levos.Signal.Uncatchable.{signal_handle-kill}
use levos.Signal.Sending.{Sent, Delivered, __send_signal-Sent}

abbrev user_regs : Regs
user_regs = handler_frame 0x8000

abbrev signals : Signals
signals = record {
  pending_signals = [];
  sig_state = 0;
  sig_flags = 0;
  current_signal = none;
  sig_mask = 0;
  signal_handlers = replicate 32 0;
}

abbrev shell : Task
shell = record {
  pid = 7;
  pgid = 7;
  sid = 1;
  flags = 0;
  state = 3;
  owner_status = 0;
  owner_exit_code = 0;
  regs = user_regs;
  sys_regs = user_regs;
  sig_stack = [];
  signal = signals;
}

abbrev other : Task
other = record shell { pid = 8; pgid = 8 }

-- SIGINT is blocked: SIGTERM, which came later, is taken first.
abbrev waiting : Signals
waiting = record signals { pending_signals = 2 ∷ 15 ∷ 1 ∷ []; sig_mask = 4 }

pick-waiting : pick waiting (2 ∷ 15 ∷ 1 ∷ []) [] ≡ Pick.picked 15 (1 ∷ 2 ∷ [])
unfolding pick signal_is_blocked
pick-waiting = refl

signal_handle-HandleRefines_example :
    HandleRefines 64 true
      (record shell { signal = waiting })
      (signal_handle 64 user_regs true (record shell { signal = waiting }))
signal_handle-HandleRefines_example =
    signal_handle-HandleRefines 64 user_regs true (record shell { signal = waiting }) refl
      (omega arith, (omega arith, (omega arith, tt)))

abbrev cur : Current
cur = record { id = 15; context = user_regs }

-- the task in its handler, which a system call led to
abbrev in_handler : Task
in_handler = record shell {
  flags = 4;
  signal = record signals { sig_state = 1; current_signal = some cur };
}

ret_from_signal-do_signal_handle_example :
    (back : Task) × (ret_from_signal in_handler ≡ some (back, Call.reschedule_to ∷ []))
    × (back.regs ≡ (
        if test_bit 2 in_handler.flags
        then record (shell.sys_regs) { eax = neg 4 }
        else shell.sys_regs))
    × (back.signal.sig_state ≡ 0)
    × (back.signal.current_signal ≡ none)
    × (back.signal.pending_signals ≡ [])
    × (back.signal.signal_handlers ≡ replicate 32 0)
    × (test_bit 2 back.flags ≡ false)
unfolding do_signal_handle
ret_from_signal-do_signal_handle_example =
    ret_from_signal-do_signal_handle 64 shell in_handler cur 0x9000 refl

abbrev ignoring : Task
ignoring = record shell { signal = record signals { signal_handlers = 0 ∷ 1 ∷ replicate 30 5 } }

-- A handler for SIGKILL is not registered.
Reachable-Uncatchable_example : Uncatchable (signal_register_handler (signal_init shell) 9 0x9000)
Reachable-Uncatchable_example = Reachable-Uncatchable (register (init shell) 9 0x9000)

__send_signal-Sent_example :
    (u : Task) × (__send_signal true shell 15 ≡ some u)
    × Sent shell 15 u
    × Delivered 64 user_regs true shell 15 u
__send_signal-Sent_example = __send_signal-Sent 64 user_regs true shell 15

abbrev doomed : Task
doomed = record (shell) { signal = record signals { pending_signals = 9 ∷ [] } }

doomed-Reachable : Reachable doomed
unfolding __send_signal signal_init signal_get_disp
doomed-Reachable = send true 9 (init shell) sent_kill
  where
    sent_kill : __send_signal true (signal_init shell) 9 ≡ some doomed
    sent_kill = refl

signal_handle-kill_example :
    ((signal_handle 64 user_regs true doomed).0.owner_status ≡ 2)
    × ((signal_handle 64 user_regs true doomed).0.owner_exit_code ≡ 9)
    × ((signal_handle 64 user_regs true doomed).1 ≡ Call.task_exit ∷ Call.sched_yield ∷ [])
unfolding signal_is_blocked
signal_handle-kill_example =
    signal_handle-kill 64 user_regs true doomed [] doomed-Reachable refl refl refl
