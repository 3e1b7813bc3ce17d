-- ===== src/Signal/Actions.antt =====
-- kernel/signal.c: the default action of a signal, and entering and leaving a handler.
use levos.Base.{ℕ, ◌-◌, ◌*◌, Bool, ◌||◌, List, [], ◌∷◌, Option, none, some}
use levos.Base.{◌==◌, if◌then◌else◌, neg, test_bit, set_bit, clear_bit}
use levos.Signal.State.{Task, Regs, Current, Call}

-- `current`: the task is the running one. TASK_DEATH_BY_SIGNAL is 2.
unfoldable pub do_fatal_signal : Bool → Task → ℕ → Task × List Call
do_fatal_signal current t signal = (
  record t {
    owner_status = 2;
    owner_exit_code = signal;
    signal = record (t.signal) { current_signal = none };
  },
  Call.task_exit ∷ (if current then Call.sched_yield ∷ [] else []),
)

-- `task->signal.current_signal = NULL; task->signal.sig_state = SIG_STATE_NULL`
abbrev pub done_with : Task → Task
done_with t = record t { signal = record (t.signal) { current_signal = none; sig_state = 0 } }

-- SIGSTOP 19, SIGTSTP 20, SIGTTIN 21, SIGTTOU 22
abbrev pub is_stop : ℕ → Bool
is_stop id = (id == 19) || (id == 20) || (id == 22) || (id == 21)

-- SIGCONT is 18, SIGCHLD is 17.
unfoldable pub default_sigaction : Bool → Task → ℕ → Task × List Call
unfolding do_fatal_signal
default_sigaction current t id =
    if id == 18
    then (done_with t, [])
    else if id == 17
    then (done_with t, [])
    else if is_stop id
    then (done_with t, Call.task_suspend id ∷ [])
    else do_fatal_signal current t id

-- The signal stack is the page that ends at `VIRT_BASE - 10 * 0x1000`; its sixteen top words stay
-- unused, then come the argument and the return address.
abbrev pub virt_base : ℕ
virt_base = 0xC0000000

-- The address of the return address: the top of the page less 18 words.
abbrev pub entry_esp : ℕ
entry_esp = virt_base - 0x1000 * 10 - 18 * 4

-- `pushad` stores the stack pointer after the first 12 words of the frame.
abbrev pub pushad_esp : ℕ
pushad_esp = entry_esp - 12 * 4

abbrev pub handler_frame : ℕ → Regs
handler_frame h = record {
  edi = 0;
  esi = 0;
  ebp = pushad_esp;
  esp_dummy = pushad_esp;
  ebx = 0;
  edx = 0;
  ecx = 0;
  eax = 0;
  gs = 0x23;
  fs = 0x23;
  es = 0x23;
  ds = 0x23;
  vec_no = 0;
  error_code = 0;
  frame_pointer = 0;
  eip = h;
  cs = 0x1B;
  eflags = 0x202;
  esp = entry_esp;
  ss = 0x23;
}

-- `ret` is the address of `ret_from_signal`. The current signal keeps its number and takes the
-- context of the interrupted code.
unfoldable pub do_signal_handle : ℕ → Task → Current → ℕ → Task
do_signal_handle ret t cur h = record t {
  regs = handler_frame h;
  sig_stack = ret ∷ cur.id ∷ [];
  signal = record (t.signal) {
    sig_state = 1;
    current_signal = some (record cur { context = t.sys_regs });
  };
}

-- TFLAG_PROCESSING_SYSCALL is `1 << 2`, TFLAG_NO_SIGNAL `1 << 3`; EINTR is 4. `none`: the kernel
-- panics, there is no current signal.
abbrev pub resume : Task → Regs → Task
resume t context =
    if test_bit 2 t.flags
    then record t {
      regs = record context { eax = neg 4 };
      flags = set_bit 3 (clear_bit 2 t.flags);
      signal = record (t.signal) { current_signal = none; sig_state = 0 };
    }
    else record t {
      regs = context;
      flags = set_bit 3 t.flags;
      signal = record (t.signal) { current_signal = none; sig_state = 0 };
    }

unfoldable pub ret_from_signal : Task → Option (Task × List Call)
ret_from_signal t = elim t.signal.current_signal [
  | none ↦ none
  | some cur ↦ some (resume t cur.context, Call.reschedule_to ∷ [])
]
