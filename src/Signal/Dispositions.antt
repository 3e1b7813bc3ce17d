-- ===== src/Signal/Dispositions.antt =====
-- kernel/signal.c: fork, reset and `execve`, and each entry of the handler table.
use levos.Base.{ℕ, zero, suc, ◌+◌, ◌≤◌, ◌<◌, ◌≡◌, refl, List, length, arith}
use levos.Base.{◌==◌, if◌then◌else◌, set, length-set, get_or-set_self, get_or, ◌++◌, ◌∷◌, []}
use levos.Base.{get_or-set_ne, ◌∙◌, ap, ℕ_discrete, replicate}
use levos.Signal.State.{Task, handler, max_sig, table_words, sig_ign, sig_dfl, signal_get_disp}
use levos.Signal.Handlers.{each_handler, copy_signals, signal_reset, signal_reset_for_execve}
use levos.Signal.Handlers.{signal_init}

pub length-each_handler :
    (f : ℕ → ℕ → ℕ) (rounds i : ℕ) (hs : List ℕ) → length (each_handler f rounds i hs) ≡ length hs
unfolding each_handler
length-each_handler f zero i hs = refl
length-each_handler f (suc rounds) i hs =
    length-each_handler f rounds (i + 1) (set hs i (f i (handler hs i)))
    ∙ length-set hs i (f i (handler hs i))

handler-before :
    (f : ℕ → ℕ → ℕ) (rounds i j : ℕ) (hs : List ℕ)
    → j < i
    → handler (each_handler f rounds i hs) j ≡ handler hs j
unfolding each_handler
handler-before f zero i j hs h = refl
handler-before f (suc rounds) i j hs h =
    handler-before f rounds (i + 1) j (set hs i (f i (handler hs i))) (omega arith)
    ∙ get_or-set_ne hs i j (f i (handler hs i)) 0 (omega arith)

-- The loop gives each entry that it reaches the new value, computed from the old one.
pub handler-each_handler :
    (f : ℕ → ℕ → ℕ) (rounds i j : ℕ) (hs : List ℕ)
    → i ≤ j
    → j < i + rounds
    → j < length hs
    → handler (each_handler f rounds i hs) j ≡ f j (handler hs j)
unfolding each_handler
handler-each_handler f zero i j hs lo hi len = absurd (omega arith)
handler-each_handler f (suc rounds) i j hs lo hi len = elim (ℕ_discrete i j) [
  | yes e ↦
      handler-before f rounds (i + 1) j (set hs i (f i (handler hs i))) (omega arith)
      ∙ rw (← e) (get_or-set_self hs i (f i (handler hs i)) 0 (omega arith))
  | no ne ↦
      handler-each_handler f rounds (i + 1) j (set hs i (f i (handler hs i))) (omega arith)
        (omega arith) (omega (arith, length-set hs i (f i (handler hs i))))
      ∙ ap (f j) (get_or-set_ne hs i j (f i (handler hs i)) 0 ne)
]

-- a table with an entry for each signal number below MAX_SIG, and the word behind it
abbrev pub HasTable : Task → Type 0
HasTable t = length t.signal.signal_handlers ≡ table_words

-- After `execve` a signal is ignored if it was ignored before, and has its default action otherwise;
-- pending signals and the mask are kept.
pub signal_reset_for_execve_lem :
    (t : Task) (s : ℕ)
    → HasTable t
    → s < max_sig
    → (signal_get_disp (signal_reset_for_execve t) s
        ≡ (if signal_get_disp t s == sig_ign then sig_ign else sig_dfl))
      × ((signal_reset_for_execve t).signal.pending_signals ≡ t.signal.pending_signals)
      × ((signal_reset_for_execve t).signal.sig_mask ≡ t.signal.sig_mask)
      × HasTable (signal_reset_for_execve t)
unfolding signal_reset_for_execve signal_get_disp
signal_reset_for_execve_lem t s table h = (
  handler-each_handler (λ i old. if old == sig_ign then sig_ign else sig_dfl) max_sig 0 s
      t.signal.signal_handlers (omega arith) (omega arith) (omega arith),
  refl,
  refl,
  length-each_handler (λ i old. if old == sig_ign then sig_ign else sig_dfl) max_sig 0
        t.signal.signal_handlers
      ∙ table,
)

-- A forked task has its parent's dispositions and mask, and none of its pending signals.
pub copy_signals_lem :
    (dst src : Task) (s : ℕ)
    → HasTable dst
    → s < max_sig
    → (signal_get_disp (copy_signals dst src) s ≡ signal_get_disp src s)
      × ((copy_signals dst src).signal.sig_mask ≡ src.signal.sig_mask)
      × ((copy_signals dst src).signal.pending_signals ≡ dst.signal.pending_signals)
      × HasTable (copy_signals dst src)
unfolding copy_signals signal_get_disp
copy_signals_lem dst src s table h = (
  handler-each_handler (λ i old. handler src.signal.signal_handlers i) max_sig 0 s
      dst.signal.signal_handlers (omega arith) (omega arith) (omega arith),
  refl,
  refl,
  length-each_handler (λ i old. handler src.signal.signal_handlers i) max_sig 0
        dst.signal.signal_handlers
      ∙ table,
)

pub signal_reset_lem :
    (t : Task) (s : ℕ)
    → HasTable t
    → s < max_sig
    → (signal_get_disp (signal_reset t) s ≡ sig_dfl) × HasTable (signal_reset t)
unfolding signal_reset signal_get_disp
signal_reset_lem t s table h = (
  handler-each_handler (λ i old. sig_dfl) max_sig 0 s t.signal.signal_handlers (omega arith)
      (omega arith) (omega arith),
  length-each_handler (λ i old. sig_dfl) max_sig 0 t.signal.signal_handlers ∙ table,
)

pub signal_init_lem :
    (t : Task) (s : ℕ)
    → s < max_sig
    → (signal_get_disp (signal_init t) s ≡ sig_dfl) × HasTable (signal_init t)
unfolding signal_init signal_reset signal_get_disp
signal_init_lem t s h = (
  handler-each_handler (λ i old. sig_dfl) max_sig 0 s blank_table (omega arith) (omega arith)
      (omega (arith, blank_length)),
  length-each_handler (λ i old. sig_dfl) max_sig 0 blank_table ∙ blank_length,
)
  where
    blank_table : List ℕ
    blank_table = replicate max_sig 0 ++ (get_or t.signal.signal_handlers max_sig 0 ∷ [])

    blank_length : length blank_table ≡ table_words
    blank_length = refl
