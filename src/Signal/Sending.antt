-- ===== src/Signal/Sending.antt =====
-- kernel/signal.c: what sending does to each task.
use levos.Base.{ℕ, ◌≡◌, ◌≢◌, ◌⊎◌, inl, inr, refl, Bool, true, false, List, [], ◌∷◌, ◌++◌}
use levos.Base.{
  some, ◌==◌, ◌||◌, arith, ◌∙◌, ap, subst, test_bit, Bool-cases, if◌then◌else◌, clear_bit,
}
use mathlib.Core.Option
use levos.Signal.State.{Task, Regs, Call, signal_is_blocked, handler, signal_get_disp}
use levos.Signal.Send.{__send_signal, refuses, resumes, enqueue, interrupt, send_signal_group}
use levos.Signal.Deliver.{signal_handle}
use levos.Signal.Outcome.{Acted, Handled, Anything, signal_handle-Handled}

-- Process 1 takes no signal that it has the default action for, or ignores.
abbrev pub IsRefused : Task → ℕ → Type 0
IsRefused t s =
    (t.pid ≡ 1)
    × ((handler t.signal.signal_handlers s ≡ 0) ⊎ (handler t.signal.signal_handlers s ≡ 1))

-- A blocked task of a suspended process gets SIGCONT.
abbrev pub IsResumed : Task → ℕ → Type 0
IsResumed t s = (t.state ≡ 4) × (t.owner_status ≡ 3) × (s ≡ 18)

-- `u` is the task `t` after the signal `s` was sent to it and memory sufficed.
pub record Sent (t : Task) (s : ℕ) (u : Task) : Type 0 where
  pub refused : IsRefused t s → u ≡ t
  pub resumed :
      ¬ IsRefused t s → IsResumed t s → (u.owner_status ≡ 0) × (u.state ≡ 3) × (u.signal ≡ t.signal)
  pub queued :
      ¬ IsRefused t s
      → ¬ IsResumed t s
      → (u.signal.pending_signals ≡ t.signal.pending_signals ++ (s ∷ []))
        × (u.state ≡ (if t.state == 8 then 3 else t.state))
        × (u.signal.sig_mask ≡ t.signal.sig_mask)
        × (u.signal.sig_state ≡ t.signal.sig_state)
        × (u.signal.signal_handlers ≡ t.signal.signal_handlers)

refuses-true : (t : Task) (s : ℕ) → IsRefused t s → refuses t s ≡ true
unfolding signal_get_disp
refuses-true t s h = ground arith

refuses-false : (t : Task) (s : ℕ) → ¬ IsRefused t s → refuses t s ≡ false
unfolding signal_get_disp
refuses-false t s h = ground arith

resumes-true : (t : Task) (s : ℕ) → IsResumed t s → resumes t s ≡ true
resumes-true t s h = ground arith

resumes-false : (t : Task) (s : ℕ) → ¬ IsResumed t s → resumes t s ≡ false
resumes-false t s h = ground arith

abbrev sent : Task → ℕ → Task
sent t s =
    if refuses t s
    then t
    else if resumes t s
    then record t { flags = clear_bit 0 t.flags; owner_status = 0; state = 3 }
    else enqueue (interrupt t) s

sent-Sent : (t : Task) (s : ℕ) → Sent t s (sent t s)
sent-Sent t s = record {
  refused = λ h. rw (refuses-true t s h);
  resumed = λ h k. rw (refuses-false t s h, resumes-true t s k) (refl, refl, refl);
  queued = λ h k. rw (refuses-false t s h, resumes-false t s k) (ground arith);
}

__send_signal-eq-sent : (t : Task) (s : ℕ) → __send_signal true t s ≡ some (sent t s)
unfolding __send_signal
__send_signal-eq-sent t s = elim (Bool-cases (refuses t s)) [
  | inl e ↦ rw e
  | inr e ↦ elim (Bool-cases (resumes t s)) [ inl k ↦ rw (e, k) | inr k ↦ rw (e, k) ]
]

-- the two lists have the same length, and their tasks are related in order
abbrev pub Pointwise : (Task → Task → Type 0) → List Task → List Task → Type 0
Pointwise R [] [] = Unit
Pointwise R (t ∷ ts) (u ∷ us) = R t u × Pointwise R ts us
Pointwise R ts us = ⊥

-- What a group send does to one task.
abbrev pub InGroup : ℕ → ℕ → Task → Task → Type 0
InGroup pgid s t u =
    (((t.pid ≡ pgid) ⊎ (t.pgid ≡ pgid)) → Sent t s u) × (t.pid ≢ pgid → t.pgid ≢ pgid → u ≡ t)

abbrev in_group : ℕ → Task → Bool
in_group pgid t = (t.pid == pgid) || (t.pgid == pgid)

abbrev group_sent : ℕ → ℕ → Task → Task
group_sent pgid s t = if in_group pgid t then sent t s else t

group_sent-InGroup : (pgid s : ℕ) (t : Task) → InGroup pgid s t (group_sent pgid s t)
group_sent-InGroup pgid s t =
    (λ member. rw (in_group_true t member) (sent-Sent t s), λ h k. rw (in_group_false t h k))
  where
    in_group_true : (t : Task) → ((t.pid ≡ pgid) ⊎ (t.pgid ≡ pgid)) → in_group pgid t ≡ true
    in_group_true t h = ground arith

    in_group_false : (t : Task) → t.pid ≢ pgid → t.pgid ≢ pgid → in_group pgid t ≡ false
    in_group_false t h k = ground arith

-- With enough memory a signal to a process group is sent to exactly the tasks whose process id or
-- group id is that of the group; the others are as before.
pub send_signal_group-InGroup :
    (pgid s : ℕ) (ts : List Task)
    → (us : List Task) × (send_signal_group (λ pid. true) ts pgid s ≡ some us)
      × Pointwise (InGroup pgid s) ts us
unfolding send_signal_group Option.bind
send_signal_group-InGroup pgid s [] = ([], refl, tt)
send_signal_group-InGroup pgid s (t ∷ ts) =
    let (us, e, h) = send_signal_group-InGroup pgid s ts in
    (
      group_sent pgid s t ∷ us,
      elim (Bool-cases (in_group pgid t)) [
        | inl b ↦ rw (b, __send_signal-eq-sent t s, e)
        | inr b ↦ rw (b, e)
      ],
      (group_sent-InGroup pgid s t, h),
    )

acts_on_first :
    (ret : ℕ) (current : Bool) (t : Task) (s : ℕ) (out : Task × List Call)
    → t.signal.sig_state ≡ 0
    → t.signal.pending_signals ≡ s ∷ []
    → signal_is_blocked t.signal s ≡ false
    → Handled Anything ret current t out
    → Acted ret current t s out × (out.0.signal.pending_signals ≡ [])
acts_on_first ret current t s out idle e free (inl h) = absurd (h.0 idle)
acts_on_first ret current t s out idle e free (inr (inl h)) = ground arith
acts_on_first ret current t s out idle e free (inr (inr (_, ([], s', post, e', b, free', p, a)))) =
    let same : s' ≡ s = ground arith in
    (subst (λ k. Acted ret current t k out) same a, ground arith)
acts_on_first ret current t s out idle e free
      (inr (inr (_, (x ∷ [], s', post, e', b, free', p, a)))) =
    ground arith
acts_on_first ret current t s out idle e free
      (inr (inr (_, (x ∷ y ∷ pre, s', post, e', b, free', p, a)))) =
    ground arith

still_free :
    (t : Task) (s : ℕ)
    → ¬ IsRefused t s
    → ¬ IsResumed t s
    → signal_is_blocked t.signal s ≡ false
    → signal_is_blocked (sent t s).signal s ≡ false
unfolding signal_is_blocked
still_free t s h k free = ap (λ m. test_bit s m) ((sent-Sent t s).queued h k).2 ∙ free

-- What the next `signal_handle` makes of a task that was sent a signal.
abbrev pub Delivered : ℕ → Regs → Bool → Task → ℕ → Task → Type 0
Delivered ret blank current t s u =
    ¬ IsRefused t s
    → ¬ IsResumed t s
    → t.signal.sig_state ≡ 0
    → t.signal.pending_signals ≡ []
    → signal_is_blocked t.signal s ≡ false
    → Acted ret current u s (signal_handle ret blank current u)
      × ((signal_handle ret blank current u).0.signal.pending_signals ≡ [])

sent-Delivered :
    (ret : ℕ) (blank : Regs) (current : Bool) (t : Task) (s : ℕ)
    → Delivered ret blank current t s (sent t s)
sent-Delivered ret blank current t s nr nc idle none_left free =
    let q = (sent-Sent t s).queued nr nc in
    acts_on_first ret current (sent t s) s (signal_handle ret blank current (sent t s)) (q.3 ∙ idle)
      (q.0 ∙ ap (λ l. l ++ (s ∷ [])) none_left) (still_free t s nr nc free)
      (signal_handle-Handled ret blank current (sent t s))

-- Sending succeeds if memory suffices. Process 1 is left alone if it has the default action for the
-- signal or ignores it; a blocked task of a suspended process is resumed by SIGCONT (18), which is not
-- queued; in any other case the signal goes to the end of the pending list, a sleeping task is woken, and
-- if nothing was pending or being handled and the mask lets the signal through, the next `signal_handle`
-- acts on it as the table and the defaults say, and nothing is pending after it.
pub __send_signal-Sent :
    (ret : ℕ) (blank : Regs) (current : Bool) (t : Task) (s : ℕ)
    → (u : Task) × (__send_signal true t s ≡ some u)
      × Sent t s u
      × Delivered ret blank current t s u
__send_signal-Sent ret blank current t s =
    (sent t s, __send_signal-eq-sent t s, sent-Sent t s, sent-Delivered ret blank current t s)
