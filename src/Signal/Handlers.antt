-- ===== src/Signal/Handlers.antt =====
-- kernel/signal.c: the handler table is copied on fork, reset, and reset for `execve`.
use levos.Base.{
  ℕ, zero, suc, ◌+◌, List, [], ◌==◌, if◌then◌else◌, set, replicate, none, get_or, ◌++◌, ◌∷◌,
}
use levos.Signal.State.{Task, handler, sig_ign, sig_dfl, max_sig}

-- `for (i = MIN_SIG; i < MAX_SIG; i ++) handlers[i] = f(i, handlers[i])`: the rounds left, and `i`
unfoldable pub each_handler : (ℕ → ℕ → ℕ) → ℕ → ℕ → List ℕ → List ℕ
each_handler f zero i hs = hs
each_handler f (suc rounds) i hs = each_handler f rounds (i + 1) (set hs i (f i (handler hs i)))

abbrev pub with_handlers : Task → List ℕ → Task
with_handlers t hs = record t { signal = record (t.signal) { signal_handlers = hs } }

unfoldable pub copy_signals : Task → Task → Task
unfolding each_handler
copy_signals dst src = record dst {
  signal = record (dst.signal) {
    signal_handlers =
        each_handler (λ i old. handler src.signal.signal_handlers i) max_sig 0
          dst.signal.signal_handlers;
    sig_mask = src.signal.sig_mask;
  };
}

unfoldable pub signal_reset : Task → Task
unfolding each_handler
signal_reset t =
    with_handlers t (each_handler (λ i old. sig_dfl) max_sig 0 t.signal.signal_handlers)

unfoldable pub signal_reset_for_execve : Task → Task
unfolding each_handler
signal_reset_for_execve t = with_handlers t (
    each_handler (λ i old. if old == sig_ign then sig_ign else sig_dfl) max_sig 0
      t.signal.signal_handlers)

-- `memset` to zero, then the table is set once more; `cwd` behind it stays.
unfoldable pub signal_init : Task → Task
unfolding signal_reset
signal_init t = signal_reset (record t {
  signal = record {
    pending_signals = [];
    sig_state = 0;
    sig_flags = 0;
    current_signal = none;
    sig_mask = 0;
    signal_handlers = replicate max_sig 0 ++ (get_or t.signal.signal_handlers max_sig 0 ∷ []);
  };
})
