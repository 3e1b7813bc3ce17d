-- ===== src/Signal/State.antt =====
-- include/levos/signal.h and include/levos/task.h: the state that kernel/signal.c works on, and its
-- small readers and writers.
use levos.Base.{ℕ, Bool, true, false, not, ◌&&◌, ◌||◌, List, [], ◌∷◌, Option}
use levos.Base.{◌==◌, leb, if◌then◌else◌, get_or, set, test_bit, clear_bit}

-- `struct pt_regs`
pub record Regs : Type 0 where
  pub edi : ℕ
  pub esi : ℕ
  pub ebp : ℕ
  pub esp_dummy : ℕ
  pub ebx : ℕ
  pub edx : ℕ
  pub ecx : ℕ
  pub eax : ℕ
  pub gs : ℕ
  pub fs : ℕ
  pub es : ℕ
  pub ds : ℕ
  pub vec_no : ℕ
  pub error_code : ℕ
  pub frame_pointer : ℕ
  pub eip : ℕ
  pub cs : ℕ
  pub eflags : ℕ
  pub esp : ℕ
  pub ss : ℕ

-- `struct signal`: the signal being handled, with the context that it interrupted
pub record Current : Type 0 where
  pub id : ℕ
  pub context : Regs

-- `struct signal_struct`; a pending signal is its number. `signal_handlers` is the table and, as its last
-- word, `cwd`, which follows the struct in `struct task`.
pub record Signals : Type 0 where
  pub pending_signals : List ℕ
  pub sig_state : ℕ
  pub sig_flags : ℕ
  pub current_signal : Option Current
  pub sig_mask : ℕ
  pub signal_handlers : List ℕ

-- The fields of `struct task`, and `status` and `exit_code` of its owner, that signals involve.
-- `sig_stack` holds the words on the signal stack above the register frame.
pub record Task : Type 0 where
  pub pid : ℕ
  pub pgid : ℕ
  pub sid : ℕ
  pub flags : ℕ
  pub state : ℕ
  pub owner_status : ℕ
  pub owner_exit_code : ℕ
  pub regs : Regs
  pub sys_regs : Regs
  pub sig_stack : List ℕ
  pub signal : Signals

-- What signals ask of the scheduler. `underflow`: an element was taken from an empty list, which
-- lib/list.c leaves undefined; what comes with it has no meaning.
pub data Call : Type 0 where
  underflow : Call
  task_exit : Call
  task_suspend : ℕ → Call
  sched_yield : Call
  reschedule_to : Call

abbrev pub max_sig : ℕ
max_sig = 31

-- The words that a valid number reaches: `signal_is_signum_valid` and sys_kill let MAX_SIG pass, and
-- `signal_handlers[MAX_SIG]` is the word behind the table, `cwd` of `struct task`.
abbrev pub table_words : ℕ
table_words = 32

-- SIG_DFL and SIG_IGN
abbrev pub sig_dfl : ℕ
sig_dfl = 0

abbrev pub sig_ign : ℕ
sig_ign = 1

-- SIG_STATE_NULL is 0, SIG_STATE_HANDLING is 1.
abbrev pub is_empty : List ℕ → Bool
is_empty [] = true
is_empty (s ∷ ss) = false

unfoldable pub task_has_pending_signals : Task → Bool
task_has_pending_signals t =
    if t.signal.sig_state == 1 then false else not (is_empty t.signal.pending_signals)

unfoldable pub signal_processing : Task → Bool
signal_processing t = not (t.signal.sig_state == 0)

unfoldable pub signal_is_signum_valid : ℕ → Bool
signal_is_signum_valid signum = leb 0 signum && leb signum max_sig

-- For the numbers up to MAX_SIG. Larger ones, which sys_kill refuses, would read further behind.
abbrev pub handler : List ℕ → ℕ → ℕ
handler handlers signum = get_or handlers signum sig_dfl

unfoldable pub signal_get_disp : Task → ℕ → ℕ
signal_get_disp t signum = handler t.signal.signal_handlers signum

-- SIGKILL is 9, SIGSTOP is 19. MAX_SIG sets the word behind the table.
unfoldable pub signal_register_handler : Task → ℕ → ℕ → Task
signal_register_handler t signum h = if (signum == 9) || (signum == 19) then t else record t {
  signal = record (t.signal) { signal_handlers = set t.signal.signal_handlers signum h };
}

-- `sig_mask & (1 << signum)`
unfoldable pub signal_is_blocked : Signals → ℕ → Bool
signal_is_blocked sig signum = test_bit signum sig.sig_mask

unfoldable pub signal_set_mask : Task → ℕ → Task
signal_set_mask t mask = record t { signal = record (t.signal) { sig_mask = mask } }

unfoldable pub signal_get_mask : Task → ℕ
signal_get_mask t = t.signal.sig_mask

-- SFLAG_RESCHED is `1 << 0`.
unfoldable pub signal_should_resched : Task → Task × Bool
signal_should_resched t =
    if not (task_has_pending_signals t)
    then (t, false)
    else if test_bit 0 t.signal.sig_flags
    then (
      record t { signal = record (t.signal) { sig_flags = clear_bit 0 t.signal.sig_flags } },
      true,
    )
    else (t, false)
